-- ===== src/Headers/Ioctl/Logs.antt =====
-- libnvme-sys/vendored-headers/nvme/ioctl.h: the inline functions for the log pages of a controller. Each is the call that it makes.
use libnvme_rs.Base.{ℕ, ℤ, ◌*◌, u32, Bool, false, Option, none, List}
use libnvme_rs.Ffi.{Libnvme, Call, get_log_args, nvme_get_log_page}
use libnvme_rs.Headers.Ioctl.Constants.{
  nvme_csi_nvm, nvme_default_ioctl_timeout, nvme_log_lid_changed_ns, nvme_log_lid_error,
  nvme_log_lid_fw_slot, nvme_log_lid_smart, nvme_log_lid_supported_log_pages, nvme_log_lsi_none,
  nvme_log_lsp_none, nvme_log_page_pdu_size, nvme_nsid_all, nvme_nsid_none, nvme_uuid_none,
  size_of_nvme_error_log_page, size_of_nvme_firmware_slot, size_of_nvme_ns_list,
  size_of_nvme_smart_log, size_of_nvme_supported_log_pages,
}

module _ (lib : Libnvme) where
  unfoldable pub nvme_get_nsid_log : ℤ → Bool → ℕ → ℕ → ℕ → Option (List ℕ) → Call
  nvme_get_nsid_log fd rae lid nsid len buf = nvme_get_log_page nvme_log_page_pdu_size (record {
    lpo = 0;
    result = none;
    log = buf;
    args_size = lib.size_of get_log_args;
    fd = fd;
    timeout = nvme_default_ioctl_timeout;
    lid = lid;
    len = len;
    nsid = nsid;
    csi = nvme_csi_nvm;
    lsi = nvme_log_lsi_none;
    lsp = nvme_log_lsp_none;
    uuidx = nvme_uuid_none;
    rae = rae;
    ot = false;
  })

  unfoldable pub nvme_get_endgid_log : ℤ → Bool → ℕ → ℕ → ℕ → Option (List ℕ) → Call
  nvme_get_endgid_log fd rae lid endgid len buf = nvme_get_log_page nvme_log_page_pdu_size (record {
    lpo = 0;
    result = none;
    log = buf;
    args_size = lib.size_of get_log_args;
    fd = fd;
    timeout = nvme_default_ioctl_timeout;
    lid = lid;
    len = len;
    nsid = nvme_nsid_none;
    csi = nvme_csi_nvm;
    lsi = endgid;
    lsp = nvme_log_lsp_none;
    uuidx = nvme_log_lsp_none;
    rae = rae;
    ot = false;
  })

  unfoldable pub nvme_get_log_simple : ℤ → ℕ → ℕ → Option (List ℕ) → Call
  nvme_get_log_simple fd lid len buf = nvme_get_nsid_log fd false lid nvme_nsid_all len buf

  unfoldable pub nvme_get_log_supported_log_pages : ℤ → Bool → Option (List ℕ) → Call
  nvme_get_log_supported_log_pages fd rae buf =
      nvme_get_nsid_log fd rae nvme_log_lid_supported_log_pages nvme_nsid_all
        size_of_nvme_supported_log_pages buf

  unfoldable pub nvme_get_log_error : ℤ → ℕ → Bool → Option (List ℕ) → Call
  nvme_get_log_error fd nr_entries rae err_log =
      nvme_get_nsid_log fd rae nvme_log_lid_error nvme_nsid_all
        (u32 (size_of_nvme_error_log_page * nr_entries)) err_log

  unfoldable pub nvme_get_log_smart : ℤ → ℕ → Bool → Option (List ℕ) → Call
  nvme_get_log_smart fd nsid rae smart_log =
      nvme_get_nsid_log fd rae nvme_log_lid_smart nsid size_of_nvme_smart_log smart_log

  unfoldable pub nvme_get_log_fw_slot : ℤ → Bool → Option (List ℕ) → Call
  nvme_get_log_fw_slot fd rae fw_log =
      nvme_get_nsid_log fd rae nvme_log_lid_fw_slot nvme_nsid_all size_of_nvme_firmware_slot fw_log

  unfoldable pub nvme_get_log_changed_ns_list : ℤ → Bool → Option (List ℕ) → Call
  nvme_get_log_changed_ns_list fd rae ns_log =
      nvme_get_nsid_log fd rae nvme_log_lid_changed_ns nvme_nsid_all size_of_nvme_ns_list ns_log
