-- ===== src/Headers/Ioctl/LogDiscovery.antt =====
-- libnvme-sys/vendored-headers/nvme/ioctl.h: the inline functions for the log pages of discovery. Each is the call that it makes.
use libnvme_rs.Base.{ℕ, ℤ, Bool, false, if◌then◌else◌, Option, none, List}
use libnvme_rs.Ffi.{Libnvme, Call, get_log_args, nvme_get_log_page}
use libnvme_rs.Headers.Ioctl.Constants.{
  nvme_csi_nvm, nvme_default_ioctl_timeout, nvme_log_lid_ave_discover,
  nvme_log_lid_changed_alloc_ns_list, nvme_log_lid_discover, nvme_log_lid_host_discover,
  nvme_log_lid_pull_model_ddc_req, nvme_log_lsi_none, nvme_log_lsp_none, nvme_log_page_pdu_size,
  nvme_nsid_all, nvme_nsid_none, nvme_uuid_none,
}
use libnvme_rs.Headers.Ioctl.Logs.{nvme_get_nsid_log}

module _ (lib : Libnvme) where
  unfoldable pub nvme_get_log_changed_alloc_ns_list : ℤ → Bool → ℕ → Option (List ℕ) → Call
  nvme_get_log_changed_alloc_ns_list fd rae len buf =
      nvme_get_nsid_log lib fd rae nvme_log_lid_changed_alloc_ns_list nvme_nsid_all len buf

  unfoldable pub nvme_get_log_discovery : ℤ → Bool → ℕ → ℕ → Option (List ℕ) → Call
  nvme_get_log_discovery fd rae offset len buf = nvme_get_log_page nvme_log_page_pdu_size (record {
    lpo = offset;
    result = none;
    log = buf;
    args_size = lib.size_of get_log_args;
    fd = fd;
    timeout = nvme_default_ioctl_timeout;
    lid = nvme_log_lid_discover;
    len = len;
    nsid = nvme_nsid_none;
    csi = nvme_csi_nvm;
    lsi = nvme_log_lsi_none;
    lsp = nvme_log_lsp_none;
    uuidx = nvme_uuid_none;
    rae = rae;
    ot = false;
  })

  unfoldable pub nvme_get_log_host_discover : ℤ → Bool → Bool → ℕ → Option (List ℕ) → Call
  nvme_get_log_host_discover fd allhoste rae len buf =
      nvme_get_log_page nvme_log_page_pdu_size (record {
        lpo = 0;
        result = none;
        log = buf;
        args_size = lib.size_of get_log_args;
        fd = fd;
        timeout = nvme_default_ioctl_timeout;
        lid = nvme_log_lid_host_discover;
        len = len;
        nsid = nvme_nsid_all;
        csi = nvme_csi_nvm;
        lsi = nvme_log_lsi_none;
        lsp = if allhoste then 1 else 0;
        uuidx = nvme_log_lsp_none;
        rae = rae;
        ot = false;
      })

  unfoldable pub nvme_get_log_ave_discover : ℤ → Bool → ℕ → Option (List ℕ) → Call
  nvme_get_log_ave_discover fd rae len buf =
      nvme_get_nsid_log lib fd rae nvme_log_lid_ave_discover nvme_nsid_all len buf

  unfoldable pub nvme_get_log_pull_model_ddc_req : ℤ → Bool → ℕ → Option (List ℕ) → Call
  nvme_get_log_pull_model_ddc_req fd rae len buf =
      nvme_get_nsid_log lib fd rae nvme_log_lid_pull_model_ddc_req nvme_nsid_all len buf
