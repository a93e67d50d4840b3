-- ===== src/Headers/FeatureCalls.antt =====
-- The feature functions of libnvme-sys/vendored-headers/nvme/ioctl.h that the crate calls, with their parameters but for
-- the descriptor and the pointer to the result. A feature's data structure is the list of its bytes.
use libnvme_rs.Base.{ℕ, Bool, List}

pub data GetFeatures : Type 0 where
  nvme_get_features_arbitration : ℕ → GetFeatures
  nvme_get_features_power_mgmt : ℕ → GetFeatures
  nvme_get_features_lba_range : ℕ → List ℕ → GetFeatures
  nvme_get_features_lba_range2 : ℕ → ℕ → List ℕ → GetFeatures
  nvme_get_features_temp_thresh : ℕ → GetFeatures
  nvme_get_features_temp_thresh2 : ℕ → ℕ → ℕ → GetFeatures
  nvme_get_features_err_recovery : ℕ → GetFeatures
  nvme_get_features_err_recovery2 : ℕ → ℕ → GetFeatures
  nvme_get_features_volatile_wc : ℕ → GetFeatures
  nvme_get_features_num_queues : ℕ → GetFeatures
  nvme_get_features_irq_coalesce : ℕ → GetFeatures
  nvme_get_features_irq_config : ℕ → ℕ → GetFeatures
  nvme_get_features_write_atomic : ℕ → GetFeatures
  nvme_get_features_async_event : ℕ → GetFeatures
  nvme_get_features_auto_pst : ℕ → List ℕ → GetFeatures
  nvme_get_features_host_mem_buf : ℕ → GetFeatures
  nvme_get_features_host_mem_buf2 : ℕ → List ℕ → GetFeatures
  nvme_get_features_timestamp : ℕ → List ℕ → GetFeatures
  nvme_get_features_kato : ℕ → GetFeatures
  nvme_get_features_hctm : ℕ → GetFeatures
  nvme_get_features_nopsc : ℕ → GetFeatures
  nvme_get_features_rrl : ℕ → GetFeatures
  nvme_get_features_plm_config : ℕ → ℕ → List ℕ → GetFeatures
  nvme_get_features_plm_window : ℕ → ℕ → GetFeatures
  nvme_get_features_lba_sts_interval : ℕ → GetFeatures
  nvme_get_features_host_behavior : ℕ → List ℕ → GetFeatures
  nvme_get_features_sanitize : ℕ → GetFeatures
  nvme_get_features_endurance_event_cfg : ℕ → ℕ → GetFeatures
  nvme_get_features_sw_progress : ℕ → GetFeatures
  nvme_get_features_host_id : ℕ → Bool → ℕ → List ℕ → GetFeatures
  nvme_get_features_resv_mask : ℕ → GetFeatures
  nvme_get_features_resv_mask2 : ℕ → ℕ → GetFeatures
  nvme_get_features_resv_persist : ℕ → GetFeatures
  nvme_get_features_resv_persist2 : ℕ → ℕ → GetFeatures
  nvme_get_features_write_protect : ℕ → ℕ → GetFeatures
  nvme_get_features_iocs_profile : ℕ → GetFeatures

pub data SetFeatures : Type 0 where
  nvme_set_features_arbitration : ℕ → ℕ → ℕ → ℕ → Bool → SetFeatures
  nvme_set_features_power_mgmt : ℕ → ℕ → Bool → SetFeatures
  nvme_set_features_lba_range : ℕ → ℕ → Bool → List ℕ → SetFeatures
  nvme_set_features_temp_thresh : ℕ → ℕ → ℕ → Bool → SetFeatures
  nvme_set_features_temp_thresh2 : ℕ → ℕ → ℕ → ℕ → Bool → SetFeatures
  nvme_set_features_err_recovery : ℕ → ℕ → Bool → Bool → SetFeatures
  nvme_set_features_volatile_wc : Bool → Bool → SetFeatures
  nvme_set_features_irq_coalesce : ℕ → ℕ → Bool → SetFeatures
  nvme_set_features_irq_config : ℕ → Bool → Bool → SetFeatures
  nvme_set_features_write_atomic : Bool → Bool → SetFeatures
  nvme_set_features_async_event : ℕ → Bool → SetFeatures
  nvme_set_features_auto_pst : Bool → Bool → List ℕ → SetFeatures
  nvme_set_features_timestamp : Bool → ℕ → SetFeatures
  nvme_set_features_hctm : ℕ → ℕ → Bool → SetFeatures
  nvme_set_features_nopsc : Bool → Bool → SetFeatures
  nvme_set_features_rrl : ℕ → ℕ → Bool → SetFeatures
  nvme_set_features_plm_config : Bool → ℕ → Bool → List ℕ → SetFeatures
  nvme_set_features_plm_window : ℕ → ℕ → Bool → SetFeatures
  nvme_set_features_lba_sts_interval : ℕ → ℕ → Bool → SetFeatures
  nvme_set_features_host_behavior : Bool → List ℕ → SetFeatures
  nvme_set_features_sanitize : Bool → Bool → SetFeatures
  nvme_set_features_endurance_evt_cfg : ℕ → ℕ → Bool → SetFeatures
  nvme_set_features_sw_progress : ℕ → Bool → SetFeatures
  nvme_set_features_host_id : Bool → Bool → List ℕ → SetFeatures
  nvme_set_features_resv_mask : ℕ → Bool → SetFeatures
  nvme_set_features_resv_mask2 : ℕ → ℕ → Bool → SetFeatures
  nvme_set_features_resv_persist : Bool → Bool → SetFeatures
  nvme_set_features_resv_persist2 : ℕ → Bool → Bool → SetFeatures
  nvme_set_features_write_protect : ℕ → Bool → SetFeatures
  nvme_set_features_write_protect2 : ℕ → ℕ → Bool → SetFeatures
  nvme_set_features_iocs_profile : ℕ → Bool → SetFeatures
