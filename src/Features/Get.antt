-- ===== src/Features/Get.antt =====
-- libnvme/src/features/get.rs: Get Features, one method for each feature.
use libnvme_rs.Base.{ℕ, Bool, ◌==◌, if◌then◌else◌, u32, List, length, overwrite}
use libnvme_rs.Error.{err, invalid_input}
use libnvme_rs.Headers.FeatureCalls.{
  GetFeatures, nvme_get_features_arbitration, nvme_get_features_power_mgmt,
  nvme_get_features_lba_range, nvme_get_features_lba_range2, nvme_get_features_temp_thresh,
  nvme_get_features_temp_thresh2, nvme_get_features_err_recovery, nvme_get_features_err_recovery2,
  nvme_get_features_volatile_wc, nvme_get_features_num_queues, nvme_get_features_irq_coalesce,
  nvme_get_features_irq_config, nvme_get_features_write_atomic, nvme_get_features_async_event,
  nvme_get_features_auto_pst, nvme_get_features_host_mem_buf, nvme_get_features_host_mem_buf2,
  nvme_get_features_timestamp, nvme_get_features_kato, nvme_get_features_hctm,
  nvme_get_features_nopsc, nvme_get_features_rrl, nvme_get_features_plm_config,
  nvme_get_features_plm_window, nvme_get_features_lba_sts_interval, nvme_get_features_host_behavior,
  nvme_get_features_sanitize, nvme_get_features_endurance_event_cfg, nvme_get_features_sw_progress,
  nvme_get_features_host_id, nvme_get_features_resv_mask, nvme_get_features_resv_mask2,
  nvme_get_features_resv_persist, nvme_get_features_resv_persist2, nvme_get_features_write_protect,
  nvme_get_features_iocs_profile,
}
use libnvme_rs.Ffi.{Libnvme, M, ◌>>=◌, lift, issue, Reply, result_u32, get_features}
use libnvme_rs.Admin.{FeatureSelect, feature_select_raw}
use libnvme_rs.Controller.{Controller, open_fd}

-- What the device leaves in the caller's structure, alone or after the result dword.
unfoldable pub written : List ℕ → Reply → List ℕ
written buf r = overwrite (length buf) buf r.data_bytes

unfoldable pub result_and : List ℕ → Reply → ℕ × List ℕ
result_and buf r = (result_u32 r, written buf r)

module _ (lib : Libnvme) where
  -- The descriptor, the call, and what is read from the reply.
  unfoldable pub run_get : {A : Type 0} → Controller → GetFeatures → (Reply → A) → M A
  run_get c f g = do fd ← open_fd lib c; issue lib (get_features fd f) g

  unfoldable pub get_arbitration : Controller → FeatureSelect → M ℕ
  get_arbitration c sel =
      run_get c (nvme_get_features_arbitration (feature_select_raw sel)) result_u32

  unfoldable pub get_power_mgmt : Controller → FeatureSelect → M ℕ
  get_power_mgmt c sel =
      run_get c (nvme_get_features_power_mgmt (feature_select_raw sel)) result_u32

  unfoldable pub get_lba_range : Controller → FeatureSelect → List ℕ → M (ℕ × List ℕ)
  get_lba_range c sel buf =
      run_get c (nvme_get_features_lba_range (feature_select_raw sel) buf) (result_and buf)

  unfoldable pub get_lba_range2 : Controller → FeatureSelect → ℕ → List ℕ → M (ℕ × List ℕ)
  get_lba_range2 c sel nsid buf =
      run_get c (nvme_get_features_lba_range2 (feature_select_raw sel) nsid buf) (result_and buf)

  unfoldable pub get_temp_thresh : Controller → FeatureSelect → M ℕ
  get_temp_thresh c sel =
      run_get c (nvme_get_features_temp_thresh (feature_select_raw sel)) result_u32

  unfoldable pub get_temp_thresh2 : Controller → FeatureSelect → ℕ → ℕ → M ℕ
  get_temp_thresh2 c sel tmpsel thsel =
      run_get c (nvme_get_features_temp_thresh2 (feature_select_raw sel) tmpsel thsel) result_u32

  unfoldable pub get_err_recovery : Controller → FeatureSelect → M ℕ
  get_err_recovery c sel =
      run_get c (nvme_get_features_err_recovery (feature_select_raw sel)) result_u32

  unfoldable pub get_err_recovery2 : Controller → FeatureSelect → ℕ → M ℕ
  get_err_recovery2 c sel nsid =
      run_get c (nvme_get_features_err_recovery2 (feature_select_raw sel) nsid) result_u32

  unfoldable pub get_volatile_wc : Controller → FeatureSelect → M ℕ
  get_volatile_wc c sel =
      run_get c (nvme_get_features_volatile_wc (feature_select_raw sel)) result_u32

  unfoldable pub get_num_queues : Controller → FeatureSelect → M ℕ
  get_num_queues c sel =
      run_get c (nvme_get_features_num_queues (feature_select_raw sel)) result_u32

  unfoldable pub get_irq_coalesce : Controller → FeatureSelect → M ℕ
  get_irq_coalesce c sel =
      run_get c (nvme_get_features_irq_coalesce (feature_select_raw sel)) result_u32

  unfoldable pub get_irq_config : Controller → FeatureSelect → ℕ → M ℕ
  get_irq_config c sel iv =
      run_get c (nvme_get_features_irq_config (feature_select_raw sel) iv) result_u32

  unfoldable pub get_write_atomic : Controller → FeatureSelect → M ℕ
  get_write_atomic c sel =
      run_get c (nvme_get_features_write_atomic (feature_select_raw sel)) result_u32

  unfoldable pub get_async_event : Controller → FeatureSelect → M ℕ
  get_async_event c sel =
      run_get c (nvme_get_features_async_event (feature_select_raw sel)) result_u32

  unfoldable pub get_auto_pst : Controller → FeatureSelect → List ℕ → M (ℕ × List ℕ)
  get_auto_pst c sel apst =
      run_get c (nvme_get_features_auto_pst (feature_select_raw sel) apst) (result_and apst)

  unfoldable pub get_host_mem_buf : Controller → FeatureSelect → M ℕ
  get_host_mem_buf c sel =
      run_get c (nvme_get_features_host_mem_buf (feature_select_raw sel)) result_u32

  unfoldable pub get_host_mem_buf2 : Controller → FeatureSelect → List ℕ → M (ℕ × List ℕ)
  get_host_mem_buf2 c sel attrs =
      run_get c (nvme_get_features_host_mem_buf2 (feature_select_raw sel) attrs) (result_and attrs)

  unfoldable pub get_timestamp : Controller → FeatureSelect → List ℕ → M (List ℕ)
  get_timestamp c sel ts =
      run_get c (nvme_get_features_timestamp (feature_select_raw sel) ts) (written ts)

  unfoldable pub get_kato : Controller → FeatureSelect → M ℕ
  get_kato c sel = run_get c (nvme_get_features_kato (feature_select_raw sel)) result_u32

  unfoldable pub get_hctm : Controller → FeatureSelect → M ℕ
  get_hctm c sel = run_get c (nvme_get_features_hctm (feature_select_raw sel)) result_u32

  unfoldable pub get_nopsc : Controller → FeatureSelect → M ℕ
  get_nopsc c sel = run_get c (nvme_get_features_nopsc (feature_select_raw sel)) result_u32

  unfoldable pub get_rrl : Controller → FeatureSelect → M ℕ
  get_rrl c sel = run_get c (nvme_get_features_rrl (feature_select_raw sel)) result_u32

  unfoldable pub get_plm_config : Controller → FeatureSelect → ℕ → List ℕ → M (ℕ × List ℕ)
  get_plm_config c sel nvmsetid buf =
      run_get c (nvme_get_features_plm_config (feature_select_raw sel) nvmsetid buf)
        (result_and buf)

  unfoldable pub get_plm_window : Controller → FeatureSelect → ℕ → M ℕ
  get_plm_window c sel nvmsetid =
      run_get c (nvme_get_features_plm_window (feature_select_raw sel) nvmsetid) result_u32

  unfoldable pub get_lba_sts_interval : Controller → FeatureSelect → M ℕ
  get_lba_sts_interval c sel =
      run_get c (nvme_get_features_lba_sts_interval (feature_select_raw sel)) result_u32

  unfoldable pub get_host_behavior : Controller → FeatureSelect → List ℕ → M (ℕ × List ℕ)
  get_host_behavior c sel buf =
      run_get c (nvme_get_features_host_behavior (feature_select_raw sel) buf) (result_and buf)

  unfoldable pub get_sanitize : Controller → FeatureSelect → M ℕ
  get_sanitize c sel = run_get c (nvme_get_features_sanitize (feature_select_raw sel)) result_u32

  unfoldable pub get_endurance_event_cfg : Controller → FeatureSelect → ℕ → M ℕ
  get_endurance_event_cfg c sel endgid =
      run_get c (nvme_get_features_endurance_event_cfg (feature_select_raw sel) endgid) result_u32

  unfoldable pub get_sw_progress : Controller → FeatureSelect → M ℕ
  get_sw_progress c sel =
      run_get c (nvme_get_features_sw_progress (feature_select_raw sel)) result_u32

  unfoldable pub get_host_id : Controller → FeatureSelect → Bool → List ℕ → M (List ℕ)
  get_host_id c sel exhid hostid =
      if length hostid == (if exhid then 16 else 8)
      then run_get c
          (nvme_get_features_host_id (feature_select_raw sel) exhid (u32 (length hostid)) hostid)
          (written hostid)
      else lift (err invalid_input)

  unfoldable pub get_resv_mask : Controller → FeatureSelect → M ℕ
  get_resv_mask c sel = run_get c (nvme_get_features_resv_mask (feature_select_raw sel)) result_u32

  unfoldable pub get_resv_mask2 : Controller → FeatureSelect → ℕ → M ℕ
  get_resv_mask2 c sel nsid =
      run_get c (nvme_get_features_resv_mask2 (feature_select_raw sel) nsid) result_u32

  unfoldable pub get_resv_persist : Controller → FeatureSelect → M ℕ
  get_resv_persist c sel =
      run_get c (nvme_get_features_resv_persist (feature_select_raw sel)) result_u32

  unfoldable pub get_resv_persist2 : Controller → FeatureSelect → ℕ → M ℕ
  get_resv_persist2 c sel nsid =
      run_get c (nvme_get_features_resv_persist2 (feature_select_raw sel) nsid) result_u32

  unfoldable pub get_write_protect : Controller → FeatureSelect → ℕ → M ℕ
  get_write_protect c sel nsid =
      run_get c (nvme_get_features_write_protect nsid (feature_select_raw sel)) result_u32

  unfoldable pub get_iocs_profile : Controller → FeatureSelect → M ℕ
  get_iocs_profile c sel =
      run_get c (nvme_get_features_iocs_profile (feature_select_raw sel)) result_u32
