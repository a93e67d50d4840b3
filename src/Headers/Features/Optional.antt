-- ===== src/Headers/Features/Optional.antt =====
-- libnvme-sys/vendored-headers/nvme/util.h: decoding the value of a feature. The output parameters are
-- the fields of a record.
use libnvme_rs.Base.{ℕ, Bool, not, ◌==◌, u8, u16}
use libnvme_rs.Headers.Fields.{nvme_get}
use libnvme_rs.Headers.Features.Layout.{
  feat_hmem_ehm, feat_hctm_tmt2, feat_hctm_tmt1, feat_nops_noppme, feat_rrl_rrl, feat_plm_plme,
  feat_plmw_ws, feat_lbas_lsiri, feat_lbas_lsipi, feat_sc_nodrm, feat_eg_endgid, feat_eg_egcw,
  feat_perfc_attri, feat_perfc_rvspa, feat_spm_pbslc, feat_hostid_exhid, feat_rm_regpre,
  feat_rm_resrel, feat_rm_respre, feat_rp_ptpl, feat_wp_wps,
}

pub record HostMemoryBuffer : Type 0 where
  pub ehm : Bool

unfoldable pub nvme_feature_decode_host_memory_buffer : ℕ → HostMemoryBuffer
nvme_feature_decode_host_memory_buffer value = record {
  ehm = not (nvme_get value feat_hmem_ehm == 0);
}

pub record HostThermalMgmt : Type 0 where
  pub tmt2 : ℕ
  pub tmt1 : ℕ

unfoldable pub nvme_feature_decode_host_thermal_mgmt : ℕ → HostThermalMgmt
nvme_feature_decode_host_thermal_mgmt value = record {
  tmt2 = u16 (nvme_get value feat_hctm_tmt2);
  tmt1 = u16 (nvme_get value feat_hctm_tmt1);
}

pub record NonOpPowerConfig : Type 0 where
  pub noppme : Bool

unfoldable pub nvme_feature_decode_non_op_power_config : ℕ → NonOpPowerConfig
nvme_feature_decode_non_op_power_config value = record {
  noppme = not (nvme_get value feat_nops_noppme == 0);
}

pub record ReadRecoveryLevelConfig : Type 0 where
  pub rrl : ℕ

unfoldable pub nvme_feature_decode_read_recovery_level_config : ℕ → ReadRecoveryLevelConfig
nvme_feature_decode_read_recovery_level_config value = record {
  rrl = u8 (nvme_get value feat_rrl_rrl);
}

pub record PredictableLatencyModeConfig : Type 0 where
  pub plme : Bool

unfoldable pub nvme_feature_decode_predictable_latency_mode_config :
    ℕ → PredictableLatencyModeConfig
nvme_feature_decode_predictable_latency_mode_config value = record {
  plme = not (nvme_get value feat_plm_plme == 0);
}

pub record PredictableLatencyModeWindow : Type 0 where
  pub ws : ℕ

unfoldable pub nvme_feature_decode_predictable_latency_mode_window :
    ℕ → PredictableLatencyModeWindow
nvme_feature_decode_predictable_latency_mode_window value = record {
  ws = u8 (nvme_get value feat_plmw_ws);
}

pub record LbaStatusAttributes : Type 0 where
  pub lsiri : ℕ
  pub lsipi : ℕ

unfoldable pub nvme_feature_decode_lba_status_attributes : ℕ → LbaStatusAttributes
nvme_feature_decode_lba_status_attributes value = record {
  lsiri = u16 (nvme_get value feat_lbas_lsiri);
  lsipi = u16 (nvme_get value feat_lbas_lsipi);
}

pub record SanitizeConfig : Type 0 where
  pub nodrm : Bool

unfoldable pub nvme_feature_decode_sanitize_config : ℕ → SanitizeConfig
nvme_feature_decode_sanitize_config value = record {
  nodrm = not (nvme_get value feat_sc_nodrm == 0);
}

pub record EnduranceGroupEventConfig : Type 0 where
  pub endgid : ℕ
  pub endgcw : ℕ

unfoldable pub nvme_feature_decode_endurance_group_event_config : ℕ → EnduranceGroupEventConfig
nvme_feature_decode_endurance_group_event_config value = record {
  endgid = u16 (nvme_get value feat_eg_endgid);
  endgcw = u8 (nvme_get value feat_eg_egcw);
}

pub record PerfCharacteristics : Type 0 where
  pub attri : ℕ
  pub rvspa : Bool

unfoldable pub nvme_feature_decode_perf_characteristics : ℕ → PerfCharacteristics
nvme_feature_decode_perf_characteristics value = record {
  attri = u8 (nvme_get value feat_perfc_attri);
  rvspa = not (nvme_get value feat_perfc_rvspa == 0);
}

pub record SoftwareProgressMarker : Type 0 where
  pub pbslc : ℕ

unfoldable pub nvme_feature_decode_software_progress_marker : ℕ → SoftwareProgressMarker
nvme_feature_decode_software_progress_marker value = record {
  pbslc = u8 (nvme_get value feat_spm_pbslc);
}

pub record HostIdentifier : Type 0 where
  pub exhid : Bool

unfoldable pub nvme_feature_decode_host_identifier : ℕ → HostIdentifier
nvme_feature_decode_host_identifier value = record {
  exhid = not (nvme_get value feat_hostid_exhid == 0);
}

pub record ReservationNotification : Type 0 where
  pub regpre : Bool
  pub resrel : Bool
  pub respre : Bool

unfoldable pub nvme_feature_decode_reservation_notification : ℕ → ReservationNotification
nvme_feature_decode_reservation_notification value = record {
  regpre = not (nvme_get value feat_rm_regpre == 0);
  resrel = not (nvme_get value feat_rm_resrel == 0);
  respre = not (nvme_get value feat_rm_respre == 0);
}

pub record ReservationPersistance : Type 0 where
  pub ptpl : Bool

unfoldable pub nvme_feature_decode_reservation_persistance : ℕ → ReservationPersistance
nvme_feature_decode_reservation_persistance value = record {
  ptpl = not (nvme_get value feat_rp_ptpl == 0);
}

pub record NamespaceWriteProtect : Type 0 where
  pub wps : ℕ

unfoldable pub nvme_feature_decode_namespace_write_protect : ℕ → NamespaceWriteProtect
nvme_feature_decode_namespace_write_protect value = record { wps = u8 (nvme_get value feat_wp_wps) }
