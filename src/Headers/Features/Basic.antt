-- ===== src/Headers/Features/Basic.antt =====
-- libnvme-sys/vendored-headers/nvme/util.h: decoding the value of a feature. The output parameters are
-- the fields of a record.
use libnvme_rs.Base.{ℕ, Bool, not, ◌==◌, u8, u16}
use libnvme_rs.Headers.Fields.{nvme_get}
use libnvme_rs.Headers.Features.Layout.{
  feat_arbitration_burst, feat_arbitration_lpw, feat_arbitration_mpw, feat_arbitration_hpw,
  feat_pwrmgmt_ps, feat_pwrmgmt_wh, feat_lbar_nr, feat_tt_tmpth, feat_tt_tmpsel, feat_tt_thsel,
  feat_tt_tmpthh, feat_error_recovery_tler, feat_error_recovery_dulbe, feat_vwc_wce, feat_nrqs_nsqr,
  feat_nrqs_ncqr, feat_irqc_thr, feat_irqc_time, feat_icfg_iv, feat_icfg_cd, feat_wa_dn,
  feat_ae_smart, feat_ae_nan, feat_ae_fw, feat_ae_telem, feat_ae_ana, feat_ae_pla, feat_ae_lbas,
  feat_ae_ega, feat_apst_apste,
}

pub record Arbitration : Type 0 where
  pub ab : ℕ
  pub lpw : ℕ
  pub mpw : ℕ
  pub hpw : ℕ

unfoldable pub nvme_feature_decode_arbitration : ℕ → Arbitration
nvme_feature_decode_arbitration value = record {
  ab = u8 (nvme_get value feat_arbitration_burst);
  lpw = u8 (nvme_get value feat_arbitration_lpw);
  mpw = u8 (nvme_get value feat_arbitration_mpw);
  hpw = u8 (nvme_get value feat_arbitration_hpw);
}

pub record PowerMgmt : Type 0 where
  pub ps : ℕ
  pub wh : ℕ

unfoldable pub nvme_feature_decode_power_mgmt : ℕ → PowerMgmt
nvme_feature_decode_power_mgmt value = record {
  ps = u8 (nvme_get value feat_pwrmgmt_ps);
  wh = u8 (nvme_get value feat_pwrmgmt_wh);
}

pub record LbaRange : Type 0 where
  pub num : ℕ

unfoldable pub nvme_feature_decode_lba_range : ℕ → LbaRange
nvme_feature_decode_lba_range value = record { num = u8 (nvme_get value feat_lbar_nr) }

pub record TempThreshold : Type 0 where
  pub tmpth : ℕ
  pub tmpsel : ℕ
  pub thsel : ℕ
  pub tmpthh : ℕ

unfoldable pub nvme_feature_decode_temp_threshold : ℕ → TempThreshold
nvme_feature_decode_temp_threshold value = record {
  tmpth = u16 (nvme_get value feat_tt_tmpth);
  tmpsel = u8 (nvme_get value feat_tt_tmpsel);
  thsel = u8 (nvme_get value feat_tt_thsel);
  tmpthh = u8 (nvme_get value feat_tt_tmpthh);
}

pub record ErrorRecovery : Type 0 where
  pub tler : ℕ
  pub dulbe : Bool

unfoldable pub nvme_feature_decode_error_recovery : ℕ → ErrorRecovery
nvme_feature_decode_error_recovery value = record {
  tler = u16 (nvme_get value feat_error_recovery_tler);
  dulbe = not (nvme_get value feat_error_recovery_dulbe == 0);
}

pub record VolatileWriteCache : Type 0 where
  pub wce : Bool

unfoldable pub nvme_feature_decode_volatile_write_cache : ℕ → VolatileWriteCache
nvme_feature_decode_volatile_write_cache value = record {
  wce = not (nvme_get value feat_vwc_wce == 0);
}

pub record NumberOfQueues : Type 0 where
  pub nsqr : ℕ
  pub ncqr : ℕ

unfoldable pub nvme_feature_decode_number_of_queues : ℕ → NumberOfQueues
nvme_feature_decode_number_of_queues value = record {
  nsqr = u16 (nvme_get value feat_nrqs_nsqr);
  ncqr = u16 (nvme_get value feat_nrqs_ncqr);
}

pub record InterruptCoalescing : Type 0 where
  pub thr : ℕ
  pub time : ℕ

unfoldable pub nvme_feature_decode_interrupt_coalescing : ℕ → InterruptCoalescing
nvme_feature_decode_interrupt_coalescing value = record {
  thr = u8 (nvme_get value feat_irqc_thr);
  time = u8 (nvme_get value feat_irqc_time);
}

pub record InterruptConfig : Type 0 where
  pub iv : ℕ
  pub cd : Bool

unfoldable pub nvme_feature_decode_interrupt_config : ℕ → InterruptConfig
nvme_feature_decode_interrupt_config value = record {
  iv = u16 (nvme_get value feat_icfg_iv);
  cd = not (nvme_get value feat_icfg_cd == 0);
}

pub record WriteAtomicity : Type 0 where
  pub dn : Bool

unfoldable pub nvme_feature_decode_write_atomicity : ℕ → WriteAtomicity
nvme_feature_decode_write_atomicity value = record { dn = not (nvme_get value feat_wa_dn == 0) }

pub record AsyncEventConfig : Type 0 where
  pub smart : ℕ
  pub nan : Bool
  pub fw : Bool
  pub telem : Bool
  pub ana : Bool
  pub pla : Bool
  pub lbas : Bool
  pub ega : Bool

unfoldable pub nvme_feature_decode_async_event_config : ℕ → AsyncEventConfig
nvme_feature_decode_async_event_config value = record {
  smart = u8 (nvme_get value feat_ae_smart);
  nan = not (nvme_get value feat_ae_nan == 0);
  fw = not (nvme_get value feat_ae_fw == 0);
  telem = not (nvme_get value feat_ae_telem == 0);
  ana = not (nvme_get value feat_ae_ana == 0);
  pla = not (nvme_get value feat_ae_pla == 0);
  lbas = not (nvme_get value feat_ae_lbas == 0);
  ega = not (nvme_get value feat_ae_ega == 0);
}

pub record AutoPowerState : Type 0 where
  pub apste : Bool

unfoldable pub nvme_feature_decode_auto_power_state : ℕ → AutoPowerState
nvme_feature_decode_auto_power_state value = record {
  apste = not (nvme_get value feat_apst_apste == 0);
}
