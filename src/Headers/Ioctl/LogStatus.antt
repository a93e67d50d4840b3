-- ===== src/Headers/Ioctl/LogStatus.antt =====
-- libnvme-sys/vendored-headers/nvme/ioctl.h: the inline functions for the log pages on the state of namespaces. Each is the call that it makes.
use libnvme_rs.Base.{ℕ, ℤ, ◌%◌, ◌^◌, Bool, false, Option, none, List}
use libnvme_rs.Ffi.{Libnvme, Call, get_log_args, nvme_get_log_page}
use libnvme_rs.Headers.Ioctl.Constants.{
  nvme_csi_nvm, nvme_default_ioctl_timeout, nvme_log_ana_lsp_rgo_groups_only, nvme_log_lid_ana,
  nvme_log_lid_endurance_grp_evt, nvme_log_lid_fid_supported_effects, nvme_log_lid_lba_status,
  nvme_log_lid_mi_cmd_supported_effects, nvme_log_lsi_none, nvme_log_lsp_none,
  nvme_log_page_pdu_size, nvme_nsid_none, nvme_uuid_none, size_of_nvme_fid_supported_effects_log,
  size_of_nvme_mi_cmd_supported_effects_log,
}
use libnvme_rs.Headers.Ioctl.Logs.{nvme_get_nsid_log}

module _ (lib : Libnvme) where
  unfoldable pub nvme_get_log_ana : ℤ → ℕ → Bool → ℕ → ℕ → Option (List ℕ) → Call
  nvme_get_log_ana fd lsp rae offset len buf = nvme_get_log_page nvme_log_page_pdu_size (record {
    lpo = offset;
    result = none;
    log = buf;
    args_size = lib.size_of get_log_args;
    fd = fd;
    timeout = nvme_default_ioctl_timeout;
    lid = nvme_log_lid_ana;
    len = len;
    nsid = nvme_nsid_none;
    csi = nvme_csi_nvm;
    lsi = nvme_log_lsi_none;
    lsp = lsp % 2 ^ 8;
    uuidx = nvme_uuid_none;
    rae = rae;
    ot = false;
  })

  unfoldable pub nvme_get_log_ana_groups : ℤ → Bool → ℕ → Option (List ℕ) → Call
  nvme_get_log_ana_groups fd rae len buf =
      nvme_get_log_ana fd nvme_log_ana_lsp_rgo_groups_only rae 0 len buf

  unfoldable pub nvme_get_log_lba_status : ℤ → Bool → ℕ → ℕ → Option (List ℕ) → Call
  nvme_get_log_lba_status fd rae offset len buf = nvme_get_log_page nvme_log_page_pdu_size (record {
    lpo = offset;
    result = none;
    log = buf;
    args_size = lib.size_of get_log_args;
    fd = fd;
    timeout = nvme_default_ioctl_timeout;
    lid = nvme_log_lid_lba_status;
    len = len;
    nsid = nvme_nsid_none;
    csi = nvme_csi_nvm;
    lsi = nvme_log_lsi_none;
    lsp = nvme_log_lsp_none;
    uuidx = nvme_uuid_none;
    rae = rae;
    ot = false;
  })

  unfoldable pub nvme_get_log_endurance_grp_evt : ℤ → Bool → ℕ → ℕ → Option (List ℕ) → Call
  nvme_get_log_endurance_grp_evt fd rae offset len buf =
      nvme_get_log_page nvme_log_page_pdu_size (record {
        lpo = offset;
        result = none;
        log = buf;
        args_size = lib.size_of get_log_args;
        fd = fd;
        timeout = nvme_default_ioctl_timeout;
        lid = nvme_log_lid_endurance_grp_evt;
        len = len;
        nsid = nvme_nsid_none;
        csi = nvme_csi_nvm;
        lsi = nvme_log_lsi_none;
        lsp = nvme_log_lsp_none;
        uuidx = nvme_uuid_none;
        rae = rae;
        ot = false;
      })

  unfoldable pub nvme_get_log_fid_supported_effects : ℤ → Bool → Option (List ℕ) → Call
  nvme_get_log_fid_supported_effects fd rae buf =
      nvme_get_nsid_log lib fd rae nvme_log_lid_fid_supported_effects nvme_nsid_none
        size_of_nvme_fid_supported_effects_log buf

  unfoldable pub nvme_get_log_mi_cmd_supported_effects : ℤ → Bool → Option (List ℕ) → Call
  nvme_get_log_mi_cmd_supported_effects fd rae buf =
      nvme_get_nsid_log lib fd rae nvme_log_lid_mi_cmd_supported_effects nvme_nsid_none
        size_of_nvme_mi_cmd_supported_effects_log buf
