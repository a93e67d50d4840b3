-- ===== src/Headers/Features/Laws.antt =====
-- The decoders of libnvme-sys/vendored-headers/nvme/util.h that read several fields, on values that are put
-- together from those fields.
use libnvme_rs.Base.{ℕ, ◌+◌, ◌*◌, ◌^◌, ◌<◌, ◌≡◌, refl, Bool, if◌then◌else◌, arith}
use libnvme_rs.Headers.Fields.Laws.{nvme_get_lem}
use libnvme_rs.Headers.Features.Layout.{
  feat_arbitration_burst, feat_arbitration_lpw, feat_arbitration_mpw, feat_arbitration_hpw,
  feat_pwrmgmt_ps, feat_pwrmgmt_wh, feat_tt_tmpth, feat_tt_tmpsel, feat_tt_thsel, feat_tt_tmpthh,
  feat_error_recovery_tler, feat_error_recovery_dulbe, feat_nrqs_nsqr, feat_nrqs_ncqr,
  feat_irqc_thr, feat_irqc_time, feat_icfg_iv, feat_icfg_cd, feat_hctm_tmt2, feat_hctm_tmt1,
  feat_lbas_lsiri, feat_lbas_lsipi, feat_eg_endgid, feat_eg_egcw, feat_perfc_attri,
  feat_perfc_rvspa, feat_rm_regpre, feat_rm_resrel, feat_rm_respre,
}
use libnvme_rs.Headers.Features.Basic.{
  nvme_feature_decode_arbitration, nvme_feature_decode_power_mgmt,
  nvme_feature_decode_temp_threshold, nvme_feature_decode_error_recovery,
  nvme_feature_decode_number_of_queues, nvme_feature_decode_interrupt_coalescing,
  nvme_feature_decode_interrupt_config,
}
use libnvme_rs.Headers.Features.Optional.{
  nvme_feature_decode_host_thermal_mgmt, nvme_feature_decode_lba_status_attributes,
  nvme_feature_decode_endurance_group_event_config, nvme_feature_decode_perf_characteristics,
  nvme_feature_decode_reservation_notification,
}

-- From a value that holds fields of the widths of its layout, this decoder reads each one back.
pub nvme_feature_decode_arbitration_round_trip :
    (ab lpw mpw hpw : ℕ)
    → ab < 2 ^ 3
    → lpw < 2 ^ 8
    → mpw < 2 ^ 8
    → hpw < 2 ^ 8
    → nvme_feature_decode_arbitration (ab + lpw * 2 ^ 8 + mpw * 2 ^ 16 + hpw * 2 ^ 24)
      ≡ record { ab = ab; lpw = lpw; mpw = mpw; hpw = hpw }
unfolding nvme_feature_decode_arbitration
nvme_feature_decode_arbitration_round_trip ab lpw mpw hpw h0 h1 h2 h3 =
    let value = ab + lpw * 2 ^ 8 + mpw * 2 ^ 16 + hpw * 2 ^ 24 in
    ground (
      arith,
      nvme_get_lem value feat_arbitration_burst 3 refl,
      nvme_get_lem value feat_arbitration_lpw 8 refl,
      nvme_get_lem value feat_arbitration_mpw 8 refl,
      nvme_get_lem value feat_arbitration_hpw 8 refl,
    )

-- From a value that holds fields of the widths of its layout, this decoder reads each one back.
pub nvme_feature_decode_power_mgmt_round_trip :
    (ps wh : ℕ)
    → ps < 2 ^ 5
    → wh < 2 ^ 3
    → nvme_feature_decode_power_mgmt (ps + wh * 2 ^ 5) ≡ record { ps = ps; wh = wh }
unfolding nvme_feature_decode_power_mgmt
nvme_feature_decode_power_mgmt_round_trip ps wh h0 h1 =
    let value = ps + wh * 2 ^ 5 in
    ground
      (arith, nvme_get_lem value feat_pwrmgmt_ps 5 refl, nvme_get_lem value feat_pwrmgmt_wh 3 refl)

-- From a value that holds fields of the widths of its layout, this decoder reads each one back.
pub nvme_feature_decode_temp_threshold_round_trip :
    (tmpth tmpsel thsel tmpthh : ℕ)
    → tmpth < 2 ^ 16
    → tmpsel < 2 ^ 4
    → thsel < 2 ^ 2
    → tmpthh < 2 ^ 3
    → nvme_feature_decode_temp_threshold
        (tmpth + tmpsel * 2 ^ 16 + thsel * 2 ^ 20 + tmpthh * 2 ^ 22)
      ≡ record { tmpth = tmpth; tmpsel = tmpsel; thsel = thsel; tmpthh = tmpthh }
unfolding nvme_feature_decode_temp_threshold
nvme_feature_decode_temp_threshold_round_trip tmpth tmpsel thsel tmpthh h0 h1 h2 h3 =
    let value = tmpth + tmpsel * 2 ^ 16 + thsel * 2 ^ 20 + tmpthh * 2 ^ 22 in
    ground (
      arith,
      nvme_get_lem value feat_tt_tmpth 16 refl,
      nvme_get_lem value feat_tt_tmpsel 4 refl,
      nvme_get_lem value feat_tt_thsel 2 refl,
      nvme_get_lem value feat_tt_tmpthh 3 refl,
    )

-- From a value that holds fields of the widths of its layout, this decoder reads each one back.
pub nvme_feature_decode_error_recovery_round_trip :
    (tler : ℕ) (dulbe : Bool)
    → tler < 2 ^ 16
    → nvme_feature_decode_error_recovery (tler + (if dulbe then 1 else 0) * 2 ^ 16)
      ≡ record { tler = tler; dulbe = dulbe }
unfolding nvme_feature_decode_error_recovery
nvme_feature_decode_error_recovery_round_trip tler dulbe h0 =
    let value = tler + (if dulbe then 1 else 0) * 2 ^ 16 in
    ground (
      arith,
      nvme_get_lem value feat_error_recovery_tler 16 refl,
      nvme_get_lem value feat_error_recovery_dulbe 1 refl,
    )

-- From a value that holds fields of the widths of its layout, this decoder reads each one back.
pub nvme_feature_decode_number_of_queues_round_trip :
    (nsqr ncqr : ℕ)
    → nsqr < 2 ^ 16
    → ncqr < 2 ^ 16
    → nvme_feature_decode_number_of_queues (nsqr + ncqr * 2 ^ 16)
      ≡ record { nsqr = nsqr; ncqr = ncqr }
unfolding nvme_feature_decode_number_of_queues
nvme_feature_decode_number_of_queues_round_trip nsqr ncqr h0 h1 =
    let value = nsqr + ncqr * 2 ^ 16 in
    ground
      (arith, nvme_get_lem value feat_nrqs_nsqr 16 refl, nvme_get_lem value feat_nrqs_ncqr 16 refl)

-- From a value that holds fields of the widths of its layout, this decoder reads each one back.
pub nvme_feature_decode_interrupt_coalescing_round_trip :
    (thr time : ℕ)
    → thr < 2 ^ 8
    → time < 2 ^ 8
    → nvme_feature_decode_interrupt_coalescing (thr + time * 2 ^ 8)
      ≡ record { thr = thr; time = time }
unfolding nvme_feature_decode_interrupt_coalescing
nvme_feature_decode_interrupt_coalescing_round_trip thr time h0 h1 =
    let value = thr + time * 2 ^ 8 in
    ground
      (arith, nvme_get_lem value feat_irqc_thr 8 refl, nvme_get_lem value feat_irqc_time 8 refl)

-- From a value that holds fields of the widths of its layout, this decoder reads each one back.
pub nvme_feature_decode_interrupt_config_round_trip :
    (iv : ℕ) (cd : Bool)
    → iv < 2 ^ 16
    → nvme_feature_decode_interrupt_config (iv + (if cd then 1 else 0) * 2 ^ 16)
      ≡ record { iv = iv; cd = cd }
unfolding nvme_feature_decode_interrupt_config
nvme_feature_decode_interrupt_config_round_trip iv cd h0 =
    let value = iv + (if cd then 1 else 0) * 2 ^ 16 in
    ground (arith, nvme_get_lem value feat_icfg_iv 16 refl, nvme_get_lem value feat_icfg_cd 1 refl)

-- From a value that holds fields of the widths of its layout, this decoder reads each one back.
pub nvme_feature_decode_host_thermal_mgmt_round_trip :
    (tmt2 tmt1 : ℕ)
    → tmt2 < 2 ^ 16
    → tmt1 < 2 ^ 16
    → nvme_feature_decode_host_thermal_mgmt (tmt2 + tmt1 * 2 ^ 16)
      ≡ record { tmt2 = tmt2; tmt1 = tmt1 }
unfolding nvme_feature_decode_host_thermal_mgmt
nvme_feature_decode_host_thermal_mgmt_round_trip tmt2 tmt1 h0 h1 =
    let value = tmt2 + tmt1 * 2 ^ 16 in
    ground
      (arith, nvme_get_lem value feat_hctm_tmt2 16 refl, nvme_get_lem value feat_hctm_tmt1 16 refl)

-- From a value that holds fields of the widths of its layout, this decoder reads each one back.
pub nvme_feature_decode_lba_status_attributes_round_trip :
    (lsiri lsipi : ℕ)
    → lsiri < 2 ^ 16
    → lsipi < 2 ^ 16
    → nvme_feature_decode_lba_status_attributes (lsiri + lsipi * 2 ^ 16)
      ≡ record { lsiri = lsiri; lsipi = lsipi }
unfolding nvme_feature_decode_lba_status_attributes
nvme_feature_decode_lba_status_attributes_round_trip lsiri lsipi h0 h1 =
    let value = lsiri + lsipi * 2 ^ 16 in
    ground (
      arith,
      nvme_get_lem value feat_lbas_lsiri 16 refl,
      nvme_get_lem value feat_lbas_lsipi 16 refl,
    )

-- From a value that holds fields of the widths of its layout, this decoder reads each one back.
pub nvme_feature_decode_endurance_group_event_config_round_trip :
    (endgid endgcw : ℕ)
    → endgid < 2 ^ 16
    → endgcw < 2 ^ 8
    → nvme_feature_decode_endurance_group_event_config (endgid + endgcw * 2 ^ 16)
      ≡ record { endgid = endgid; endgcw = endgcw }
unfolding nvme_feature_decode_endurance_group_event_config
nvme_feature_decode_endurance_group_event_config_round_trip endgid endgcw h0 h1 =
    let value = endgid + endgcw * 2 ^ 16 in
    ground
      (arith, nvme_get_lem value feat_eg_endgid 16 refl, nvme_get_lem value feat_eg_egcw 8 refl)

-- From a value that holds fields of the widths of its layout, this decoder reads each one back.
pub nvme_feature_decode_perf_characteristics_round_trip :
    (attri : ℕ) (rvspa : Bool)
    → attri < 2 ^ 8
    → nvme_feature_decode_perf_characteristics (attri + (if rvspa then 1 else 0) * 2 ^ 8)
      ≡ record { attri = attri; rvspa = rvspa }
unfolding nvme_feature_decode_perf_characteristics
nvme_feature_decode_perf_characteristics_round_trip attri rvspa h0 =
    let value = attri + (if rvspa then 1 else 0) * 2 ^ 8 in
    ground (
      arith,
      nvme_get_lem value feat_perfc_attri 8 refl,
      nvme_get_lem value feat_perfc_rvspa 1 refl,
    )

-- From a value that holds fields of the widths of its layout, this decoder reads each one back.
pub nvme_feature_decode_reservation_notification_round_trip :
    (regpre resrel respre : Bool)
    → nvme_feature_decode_reservation_notification (
        (if regpre then 1 else 0) * 2 ^ 1
        + (if resrel then 1 else 0) * 2 ^ 2
        + (if respre then 1 else 0) * 2 ^ 3)
      ≡ record { regpre = regpre; resrel = resrel; respre = respre }
unfolding nvme_feature_decode_reservation_notification
nvme_feature_decode_reservation_notification_round_trip regpre resrel respre =
    let value =
      (if regpre then 1 else 0) * 2 ^ 1
      + (if resrel then 1 else 0) * 2 ^ 2
      + (if respre then 1 else 0) * 2 ^ 3 in
    ground (
      arith,
      nvme_get_lem value feat_rm_regpre 1 refl,
      nvme_get_lem value feat_rm_resrel 1 refl,
      nvme_get_lem value feat_rm_respre 1 refl,
    )
