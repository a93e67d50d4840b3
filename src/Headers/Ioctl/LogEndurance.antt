-- ===== src/Headers/Ioctl/LogEndurance.antt =====
-- libnvme-sys/vendored-headers/nvme/ioctl.h: the inline functions for the log pages of endurance groups and data placement. Each is the call that it makes.
use libnvme_rs.Base.{ℕ, ℤ, ◌%◌, ◌^◌, Bool, false, if◌then◌else◌, Option, none, List}
use libnvme_rs.Ffi.{Libnvme, Call, get_log_args, nvme_get_log, nvme_get_log_page}
use libnvme_rs.Headers.Ioctl.Constants.{
  nvme_csi_nvm, nvme_default_ioctl_timeout, nvme_log_lid_endurance_group, nvme_log_lid_fdp_configs,
  nvme_log_lid_fdp_events, nvme_log_lid_fdp_ruh_usage, nvme_log_lid_fdp_stats,
  nvme_log_lid_predictable_lat_agg, nvme_log_lid_predictable_lat_nvmset, nvme_log_lsi_none,
  nvme_log_lsp_none, nvme_log_page_pdu_size, nvme_nsid_none, nvme_uuid_none,
  size_of_nvme_endurance_group_log, size_of_nvme_nvmset_predictable_lat_log,
}

module _ (lib : Libnvme) where
  unfoldable pub nvme_get_log_endurance_group : ℤ → ℕ → Option (List ℕ) → Call
  nvme_get_log_endurance_group fd endgid buf = nvme_get_log_page nvme_log_page_pdu_size (record {
    lpo = 0;
    result = none;
    log = buf;
    args_size = lib.size_of get_log_args;
    fd = fd;
    timeout = nvme_default_ioctl_timeout;
    lid = nvme_log_lid_endurance_group;
    len = size_of_nvme_endurance_group_log;
    nsid = nvme_nsid_none;
    csi = nvme_csi_nvm;
    lsi = endgid;
    lsp = nvme_log_lsp_none;
    uuidx = nvme_uuid_none;
    rae = false;
    ot = false;
  })

  unfoldable pub nvme_get_log_predictable_lat_nvmset : ℤ → ℕ → Option (List ℕ) → Call
  nvme_get_log_predictable_lat_nvmset fd nvmsetid buf =
      nvme_get_log_page nvme_log_page_pdu_size (record {
        lpo = 0;
        result = none;
        log = buf;
        args_size = lib.size_of get_log_args;
        fd = fd;
        timeout = nvme_default_ioctl_timeout;
        lid = nvme_log_lid_predictable_lat_nvmset;
        len = size_of_nvme_nvmset_predictable_lat_log;
        nsid = nvme_nsid_none;
        csi = nvme_csi_nvm;
        lsi = nvmsetid;
        lsp = nvme_log_lsp_none;
        uuidx = nvme_uuid_none;
        rae = false;
        ot = false;
      })

  unfoldable pub nvme_get_log_predictable_lat_event : ℤ → Bool → ℕ → ℕ → Option (List ℕ) → Call
  nvme_get_log_predictable_lat_event fd rae offset len buf =
      nvme_get_log_page nvme_log_page_pdu_size (record {
        lpo = offset;
        result = none;
        log = buf;
        args_size = lib.size_of get_log_args;
        fd = fd;
        timeout = nvme_default_ioctl_timeout;
        lid = nvme_log_lid_predictable_lat_agg;
        len = len;
        nsid = nvme_nsid_none;
        csi = nvme_csi_nvm;
        lsi = nvme_log_lsi_none;
        lsp = nvme_log_lsp_none;
        uuidx = nvme_uuid_none;
        rae = rae;
        ot = false;
      })

  unfoldable pub nvme_get_log_fdp_configurations : ℤ → ℕ → ℕ → ℕ → Option (List ℕ) → Call
  nvme_get_log_fdp_configurations fd egid offset len buf = nvme_get_log (record {
    lpo = offset;
    result = none;
    log = buf;
    args_size = lib.size_of get_log_args;
    fd = fd;
    timeout = nvme_default_ioctl_timeout;
    lid = nvme_log_lid_fdp_configs;
    len = len;
    nsid = nvme_nsid_none;
    csi = nvme_csi_nvm;
    lsi = egid;
    lsp = nvme_log_lsp_none;
    uuidx = nvme_uuid_none;
    rae = false;
    ot = false;
  })

  unfoldable pub nvme_get_log_reclaim_unit_handle_usage : ℤ → ℕ → ℕ → ℕ → Option (List ℕ) → Call
  nvme_get_log_reclaim_unit_handle_usage fd egid offset len buf = nvme_get_log (record {
    lpo = offset;
    result = none;
    log = buf;
    args_size = lib.size_of get_log_args;
    fd = fd;
    timeout = nvme_default_ioctl_timeout;
    lid = nvme_log_lid_fdp_ruh_usage;
    len = len;
    nsid = nvme_nsid_none;
    csi = nvme_csi_nvm;
    lsi = egid;
    lsp = nvme_log_lsp_none;
    uuidx = nvme_uuid_none;
    rae = false;
    ot = false;
  })

  unfoldable pub nvme_get_log_fdp_stats : ℤ → ℕ → ℕ → ℕ → Option (List ℕ) → Call
  nvme_get_log_fdp_stats fd egid offset len buf = nvme_get_log (record {
    lpo = offset;
    result = none;
    log = buf;
    args_size = lib.size_of get_log_args;
    fd = fd;
    timeout = nvme_default_ioctl_timeout;
    lid = nvme_log_lid_fdp_stats;
    len = len;
    nsid = nvme_nsid_none;
    csi = nvme_csi_nvm;
    lsi = egid;
    lsp = nvme_log_lsp_none;
    uuidx = nvme_uuid_none;
    rae = false;
    ot = false;
  })

  unfoldable pub nvme_get_log_fdp_events : ℤ → ℕ → Bool → ℕ → ℕ → Option (List ℕ) → Call
  nvme_get_log_fdp_events fd egid host_events offset len buf = nvme_get_log (record {
    lpo = offset;
    result = none;
    log = buf;
    args_size = lib.size_of get_log_args;
    fd = fd;
    timeout = nvme_default_ioctl_timeout;
    lid = nvme_log_lid_fdp_events;
    len = len;
    nsid = nvme_nsid_none;
    csi = nvme_csi_nvm;
    lsi = egid;
    lsp = (if host_events then 0x1 else 0x0) % 2 ^ 8;
    uuidx = nvme_uuid_none;
    rae = false;
    ot = false;
  })
