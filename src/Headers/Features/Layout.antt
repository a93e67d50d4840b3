-- ===== src/Headers/Features/Layout.antt =====
-- libnvme-sys/vendored-headers/nvme/types.h: the shifts and masks of `enum nvme_feat_*` for the value of a
-- feature.
use libnvme_rs.Headers.Fields.{Field}

abbrev pub feat_arbitration_burst : Field
feat_arbitration_burst = record { shift = 0; mask = 0x7 }

abbrev pub feat_arbitration_lpw : Field
feat_arbitration_lpw = record { shift = 8; mask = 0xff }

abbrev pub feat_arbitration_mpw : Field
feat_arbitration_mpw = record { shift = 16; mask = 0xff }

abbrev pub feat_arbitration_hpw : Field
feat_arbitration_hpw = record { shift = 24; mask = 0xff }

abbrev pub feat_pwrmgmt_ps : Field
feat_pwrmgmt_ps = record { shift = 0; mask = 0x1f }

abbrev pub feat_pwrmgmt_wh : Field
feat_pwrmgmt_wh = record { shift = 5; mask = 0x7 }

abbrev pub feat_lbar_nr : Field
feat_lbar_nr = record { shift = 0; mask = 0x3f }

abbrev pub feat_tt_tmpth : Field
feat_tt_tmpth = record { shift = 0; mask = 0xffff }

abbrev pub feat_tt_tmpsel : Field
feat_tt_tmpsel = record { shift = 16; mask = 0xf }

abbrev pub feat_tt_thsel : Field
feat_tt_thsel = record { shift = 20; mask = 0x3 }

abbrev pub feat_tt_tmpthh : Field
feat_tt_tmpthh = record { shift = 22; mask = 0x7 }

abbrev pub feat_error_recovery_tler : Field
feat_error_recovery_tler = record { shift = 0; mask = 0xffff }

abbrev pub feat_error_recovery_dulbe : Field
feat_error_recovery_dulbe = record { shift = 16; mask = 0x1 }

abbrev pub feat_vwc_wce : Field
feat_vwc_wce = record { shift = 0; mask = 0x1 }

abbrev pub feat_nrqs_nsqr : Field
feat_nrqs_nsqr = record { shift = 0; mask = 0xffff }

abbrev pub feat_nrqs_ncqr : Field
feat_nrqs_ncqr = record { shift = 16; mask = 0xffff }

abbrev pub feat_irqc_thr : Field
feat_irqc_thr = record { shift = 0; mask = 0xff }

abbrev pub feat_irqc_time : Field
feat_irqc_time = record { shift = 8; mask = 0xff }

abbrev pub feat_icfg_iv : Field
feat_icfg_iv = record { shift = 0; mask = 0xffff }

abbrev pub feat_icfg_cd : Field
feat_icfg_cd = record { shift = 16; mask = 0x1 }

abbrev pub feat_wa_dn : Field
feat_wa_dn = record { shift = 0; mask = 0x1 }

abbrev pub feat_ae_smart : Field
feat_ae_smart = record { shift = 0; mask = 0xff }

abbrev pub feat_ae_nan : Field
feat_ae_nan = record { shift = 8; mask = 0x1 }

abbrev pub feat_ae_fw : Field
feat_ae_fw = record { shift = 9; mask = 0x1 }

abbrev pub feat_ae_telem : Field
feat_ae_telem = record { shift = 10; mask = 0x1 }

abbrev pub feat_ae_ana : Field
feat_ae_ana = record { shift = 11; mask = 0x1 }

abbrev pub feat_ae_pla : Field
feat_ae_pla = record { shift = 12; mask = 0x1 }

abbrev pub feat_ae_lbas : Field
feat_ae_lbas = record { shift = 13; mask = 0x1 }

abbrev pub feat_ae_ega : Field
feat_ae_ega = record { shift = 14; mask = 0x1 }

abbrev pub feat_apst_apste : Field
feat_apst_apste = record { shift = 0; mask = 0x1 }

abbrev pub feat_hmem_ehm : Field
feat_hmem_ehm = record { shift = 0; mask = 0x1 }

abbrev pub feat_hctm_tmt2 : Field
feat_hctm_tmt2 = record { shift = 0; mask = 0xffff }

abbrev pub feat_hctm_tmt1 : Field
feat_hctm_tmt1 = record { shift = 16; mask = 0xffff }

abbrev pub feat_nops_noppme : Field
feat_nops_noppme = record { shift = 0; mask = 0x1 }

abbrev pub feat_rrl_rrl : Field
feat_rrl_rrl = record { shift = 0; mask = 0xff }

abbrev pub feat_plm_plme : Field
feat_plm_plme = record { shift = 0; mask = 0x1 }

abbrev pub feat_plmw_ws : Field
feat_plmw_ws = record { shift = 0; mask = 0x7 }

abbrev pub feat_lbas_lsiri : Field
feat_lbas_lsiri = record { shift = 0; mask = 0xffff }

abbrev pub feat_lbas_lsipi : Field
feat_lbas_lsipi = record { shift = 16; mask = 0xffff }

abbrev pub feat_sc_nodrm : Field
feat_sc_nodrm = record { shift = 0; mask = 0x1 }

abbrev pub feat_eg_endgid : Field
feat_eg_endgid = record { shift = 0; mask = 0xffff }

abbrev pub feat_eg_egcw : Field
feat_eg_egcw = record { shift = 16; mask = 0xff }

abbrev pub feat_perfc_attri : Field
feat_perfc_attri = record { shift = 0; mask = 0xff }

abbrev pub feat_perfc_rvspa : Field
feat_perfc_rvspa = record { shift = 8; mask = 0x1 }

abbrev pub feat_spm_pbslc : Field
feat_spm_pbslc = record { shift = 0; mask = 0xff }

abbrev pub feat_hostid_exhid : Field
feat_hostid_exhid = record { shift = 0; mask = 0x1 }

abbrev pub feat_rm_regpre : Field
feat_rm_regpre = record { shift = 1; mask = 0x1 }

abbrev pub feat_rm_resrel : Field
feat_rm_resrel = record { shift = 2; mask = 0x1 }

abbrev pub feat_rm_respre : Field
feat_rm_respre = record { shift = 3; mask = 0x1 }

abbrev pub feat_rp_ptpl : Field
feat_rp_ptpl = record { shift = 0; mask = 0x1 }

abbrev pub feat_wp_wps : Field
feat_wp_wps = record { shift = 0; mask = 0x7 }
