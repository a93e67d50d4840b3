-- ===== src/Features/Set.antt =====
-- libnvme/src/features/set.rs: Set Features, one method for each feature.
use libnvme_rs.Base.{ℕ, Bool, ◌==◌, if◌then◌else◌, List, length}
use libnvme_rs.Error.{err, invalid_input}
use libnvme_rs.Headers.FeatureCalls.{
  SetFeatures, nvme_set_features_arbitration, nvme_set_features_power_mgmt,
  nvme_set_features_lba_range, nvme_set_features_temp_thresh, nvme_set_features_temp_thresh2,
  nvme_set_features_err_recovery, nvme_set_features_volatile_wc, nvme_set_features_irq_coalesce,
  nvme_set_features_irq_config, nvme_set_features_write_atomic, nvme_set_features_async_event,
  nvme_set_features_auto_pst, nvme_set_features_timestamp, nvme_set_features_hctm,
  nvme_set_features_nopsc, nvme_set_features_rrl, nvme_set_features_plm_config,
  nvme_set_features_plm_window, nvme_set_features_lba_sts_interval, nvme_set_features_host_behavior,
  nvme_set_features_sanitize, nvme_set_features_endurance_evt_cfg, nvme_set_features_sw_progress,
  nvme_set_features_host_id, nvme_set_features_resv_mask, nvme_set_features_resv_mask2,
  nvme_set_features_resv_persist, nvme_set_features_resv_persist2, nvme_set_features_write_protect,
  nvme_set_features_write_protect2, nvme_set_features_iocs_profile,
}
use libnvme_rs.Ffi.{Libnvme, M, ◌>>=◌, lift, issue, Reply, result_u32, set_features}
use libnvme_rs.Controller.{Controller, open_fd}

-- What a method without a result returns.
abbrev nothing : Reply → Unit {0}
nothing r = tt

module _ (lib : Libnvme) where
  -- The descriptor, the call, and what is read from the reply.
  unfoldable pub run_set : {A : Type 0} → Controller → SetFeatures → (Reply → A) → M A
  run_set c f g = do fd ← open_fd lib c; issue lib (set_features fd f) g

  unfoldable pub set_arbitration : Controller → ℕ → ℕ → ℕ → ℕ → Bool → M ℕ
  set_arbitration c ab lpw mpw hpw save =
      run_set c (nvme_set_features_arbitration ab lpw mpw hpw save) result_u32

  unfoldable pub set_power_mgmt : Controller → ℕ → ℕ → Bool → M ℕ
  set_power_mgmt c ps wh save = run_set c (nvme_set_features_power_mgmt ps wh save) result_u32

  unfoldable pub set_lba_range : Controller → ℕ → ℕ → Bool → List ℕ → M ℕ
  set_lba_range c nsid nr_ranges save buf =
      run_set c (nvme_set_features_lba_range nsid nr_ranges save buf) result_u32

  unfoldable pub set_temp_thresh : Controller → ℕ → ℕ → ℕ → Bool → M ℕ
  set_temp_thresh c tmpth tmpsel thsel save =
      run_set c (nvme_set_features_temp_thresh tmpth tmpsel thsel save) result_u32

  unfoldable pub set_temp_thresh2 : Controller → ℕ → ℕ → ℕ → ℕ → Bool → M ℕ
  set_temp_thresh2 c tmpth tmpsel thsel tmpthh save =
      run_set c (nvme_set_features_temp_thresh2 tmpth tmpsel thsel tmpthh save) result_u32

  unfoldable pub set_err_recovery : Controller → ℕ → ℕ → Bool → Bool → M ℕ
  set_err_recovery c nsid tler dulbe save =
      run_set c (nvme_set_features_err_recovery nsid tler dulbe save) result_u32

  unfoldable pub set_volatile_wc : Controller → Bool → Bool → M ℕ
  set_volatile_wc c wce save = run_set c (nvme_set_features_volatile_wc wce save) result_u32

  unfoldable pub set_irq_coalesce : Controller → ℕ → ℕ → Bool → M ℕ
  set_irq_coalesce c thr time save =
      run_set c (nvme_set_features_irq_coalesce thr time save) result_u32

  unfoldable pub set_irq_config : Controller → ℕ → Bool → Bool → M ℕ
  set_irq_config c iv cd save = run_set c (nvme_set_features_irq_config iv cd save) result_u32

  unfoldable pub set_write_atomic : Controller → Bool → Bool → M ℕ
  set_write_atomic c dn save = run_set c (nvme_set_features_write_atomic dn save) result_u32

  unfoldable pub set_async_event : Controller → ℕ → Bool → M ℕ
  set_async_event c events save = run_set c (nvme_set_features_async_event events save) result_u32

  unfoldable pub set_auto_pst : Controller → Bool → Bool → List ℕ → M ℕ
  set_auto_pst c apste save apst = run_set c (nvme_set_features_auto_pst apste save apst) result_u32

  unfoldable pub set_timestamp : Controller → Bool → ℕ → M (Unit {0})
  set_timestamp c save timestamp = run_set c (nvme_set_features_timestamp save timestamp) nothing

  unfoldable pub set_hctm : Controller → ℕ → ℕ → Bool → M ℕ
  set_hctm c tmt2 tmt1 save = run_set c (nvme_set_features_hctm tmt2 tmt1 save) result_u32

  unfoldable pub set_nopsc : Controller → Bool → Bool → M ℕ
  set_nopsc c noppme save = run_set c (nvme_set_features_nopsc noppme save) result_u32

  unfoldable pub set_rrl : Controller → ℕ → ℕ → Bool → M ℕ
  set_rrl c rrl nvmsetid save = run_set c (nvme_set_features_rrl rrl nvmsetid save) result_u32

  unfoldable pub set_plm_config : Controller → Bool → ℕ → Bool → List ℕ → M ℕ
  set_plm_config c enable nvmsetid save buf =
      run_set c (nvme_set_features_plm_config enable nvmsetid save buf) result_u32

  unfoldable pub set_plm_window : Controller → ℕ → ℕ → Bool → M ℕ
  set_plm_window c sel nvmsetid save =
      run_set c (nvme_set_features_plm_window sel nvmsetid save) result_u32

  unfoldable pub set_lba_sts_interval : Controller → ℕ → ℕ → Bool → M ℕ
  set_lba_sts_interval c lsiri lsipi save =
      run_set c (nvme_set_features_lba_sts_interval lsiri lsipi save) result_u32

  unfoldable pub set_host_behavior : Controller → Bool → List ℕ → M (Unit {0})
  set_host_behavior c save buf = run_set c (nvme_set_features_host_behavior save buf) nothing

  unfoldable pub set_sanitize : Controller → Bool → Bool → M ℕ
  set_sanitize c nodrm save = run_set c (nvme_set_features_sanitize nodrm save) result_u32

  unfoldable pub set_endurance_evt_cfg : Controller → ℕ → ℕ → Bool → M ℕ
  set_endurance_evt_cfg c endgid egwarn save =
      run_set c (nvme_set_features_endurance_evt_cfg endgid egwarn save) result_u32

  unfoldable pub set_sw_progress : Controller → ℕ → Bool → M ℕ
  set_sw_progress c pbslc save = run_set c (nvme_set_features_sw_progress pbslc save) result_u32

  unfoldable pub set_host_id : Controller → Bool → Bool → List ℕ → M (Unit {0})
  set_host_id c exhid save hostid =
      if length hostid == (if exhid then 16 else 8)
      then run_set c (nvme_set_features_host_id exhid save hostid) nothing
      else lift (err invalid_input)

  unfoldable pub set_resv_mask : Controller → ℕ → Bool → M ℕ
  set_resv_mask c mask save = run_set c (nvme_set_features_resv_mask mask save) result_u32

  unfoldable pub set_resv_mask2 : Controller → ℕ → ℕ → Bool → M ℕ
  set_resv_mask2 c nsid mask save =
      run_set c (nvme_set_features_resv_mask2 nsid mask save) result_u32

  unfoldable pub set_resv_persist : Controller → Bool → Bool → M ℕ
  set_resv_persist c ptpl save = run_set c (nvme_set_features_resv_persist ptpl save) result_u32

  unfoldable pub set_resv_persist2 : Controller → ℕ → Bool → Bool → M ℕ
  set_resv_persist2 c nsid ptpl save =
      run_set c (nvme_set_features_resv_persist2 nsid ptpl save) result_u32

  unfoldable pub set_write_protect : Controller → ℕ → Bool → M ℕ
  set_write_protect c state save = run_set c (nvme_set_features_write_protect state save) result_u32

  unfoldable pub set_write_protect2 : Controller → ℕ → ℕ → Bool → M ℕ
  set_write_protect2 c nsid state save =
      run_set c (nvme_set_features_write_protect2 nsid state save) result_u32

  unfoldable pub set_iocs_profile : Controller → ℕ → Bool → M (Unit {0})
  set_iocs_profile c iocsi save = run_set c (nvme_set_features_iocs_profile iocsi save) nothing
