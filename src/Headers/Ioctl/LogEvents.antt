-- ===== src/Headers/Ioctl/LogEvents.antt =====
-- libnvme-sys/vendored-headers/nvme/ioctl.h: the inline functions for the log pages of events. Each is the call that it makes.
use libnvme_rs.Base.{ℕ, ℤ, ◌%◌, ◌^◌, Bool, false, Option, none, List}
use libnvme_rs.Ffi.{Libnvme, Call, get_log_args, nvme_get_log_page}
use libnvme_rs.Headers.Ioctl.Constants.{
  nvme_csi_nvm, nvme_csi_zns, nvme_default_ioctl_timeout, nvme_log_lid_cmd_and_feat_lockdown,
  nvme_log_lid_media_unit_status, nvme_log_lid_persistent_event, nvme_log_lid_reservation,
  nvme_log_lid_sanitize, nvme_log_lid_supported_cap_config_list, nvme_log_lid_zns_changed_zones,
  nvme_log_lsi_none, nvme_log_lsp_none, nvme_log_page_pdu_size, nvme_nsid_all, nvme_nsid_none,
  nvme_uuid_none, size_of_nvme_lockdown_log, size_of_nvme_media_unit_stat_log,
  size_of_nvme_resv_notification_log, size_of_nvme_sanitize_log_page,
  size_of_nvme_supported_cap_config_list_log, size_of_nvme_zns_changed_zone_log,
}
use libnvme_rs.Headers.Ioctl.Logs.{nvme_get_nsid_log}

module _ (lib : Libnvme) where
  unfoldable pub nvme_get_log_media_unit_stat : ℤ → ℕ → Option (List ℕ) → Call
  nvme_get_log_media_unit_stat fd domid mus = nvme_get_log_page nvme_log_page_pdu_size (record {
    lpo = 0;
    result = none;
    log = mus;
    args_size = lib.size_of get_log_args;
    fd = fd;
    timeout = nvme_default_ioctl_timeout;
    lid = nvme_log_lid_media_unit_status;
    len = size_of_nvme_media_unit_stat_log;
    nsid = nvme_nsid_none;
    csi = nvme_csi_nvm;
    lsi = domid;
    lsp = nvme_log_lsp_none;
    uuidx = nvme_uuid_none;
    rae = false;
    ot = false;
  })

  unfoldable pub nvme_get_log_support_cap_config_list : ℤ → ℕ → Option (List ℕ) → Call
  nvme_get_log_support_cap_config_list fd domid cap =
      nvme_get_log_page nvme_log_page_pdu_size (record {
        lpo = 0;
        result = none;
        log = cap;
        args_size = lib.size_of get_log_args;
        fd = fd;
        timeout = nvme_default_ioctl_timeout;
        lid = nvme_log_lid_supported_cap_config_list;
        len = size_of_nvme_supported_cap_config_list_log;
        nsid = nvme_nsid_none;
        csi = nvme_csi_nvm;
        lsi = domid;
        lsp = nvme_log_lsp_none;
        uuidx = nvme_uuid_none;
        rae = false;
        ot = false;
      })

  unfoldable pub nvme_get_log_reservation : ℤ → Bool → Option (List ℕ) → Call
  nvme_get_log_reservation fd rae buf =
      nvme_get_nsid_log lib fd rae nvme_log_lid_reservation nvme_nsid_all
        size_of_nvme_resv_notification_log buf

  unfoldable pub nvme_get_log_sanitize : ℤ → Bool → Option (List ℕ) → Call
  nvme_get_log_sanitize fd rae buf =
      nvme_get_nsid_log lib fd rae nvme_log_lid_sanitize nvme_nsid_all
        size_of_nvme_sanitize_log_page buf

  unfoldable pub nvme_get_log_zns_changed_zones : ℤ → ℕ → Bool → Option (List ℕ) → Call
  nvme_get_log_zns_changed_zones fd nsid rae buf =
      nvme_get_log_page nvme_log_page_pdu_size (record {
        lpo = 0;
        result = none;
        log = buf;
        args_size = lib.size_of get_log_args;
        fd = fd;
        timeout = nvme_default_ioctl_timeout;
        lid = nvme_log_lid_zns_changed_zones;
        len = size_of_nvme_zns_changed_zone_log;
        nsid = nsid;
        csi = nvme_csi_zns;
        lsi = nvme_log_lsi_none;
        lsp = nvme_log_lsp_none;
        uuidx = nvme_uuid_none;
        rae = rae;
        ot = false;
      })

  unfoldable pub nvme_get_log_persistent_event : ℤ → ℕ → ℕ → Option (List ℕ) → Call
  nvme_get_log_persistent_event fd action size pevent_log =
      nvme_get_log_page nvme_log_page_pdu_size (record {
        lpo = 0;
        result = none;
        log = pevent_log;
        args_size = lib.size_of get_log_args;
        fd = fd;
        timeout = nvme_default_ioctl_timeout;
        lid = nvme_log_lid_persistent_event;
        len = size;
        nsid = nvme_nsid_all;
        csi = nvme_csi_nvm;
        lsi = nvme_log_lsi_none;
        lsp = action % 2 ^ 8;
        uuidx = nvme_uuid_none;
        rae = false;
        ot = false;
      })

  unfoldable pub nvme_get_log_lockdown : ℤ → ℕ → Option (List ℕ) → Call
  nvme_get_log_lockdown fd cnscp lockdown_log = nvme_get_log_page nvme_log_page_pdu_size (record {
    lpo = 0;
    result = none;
    log = lockdown_log;
    args_size = lib.size_of get_log_args;
    fd = fd;
    timeout = nvme_default_ioctl_timeout;
    lid = nvme_log_lid_cmd_and_feat_lockdown;
    len = size_of_nvme_lockdown_log;
    nsid = nvme_nsid_all;
    csi = nvme_csi_nvm;
    lsi = nvme_log_lsi_none;
    lsp = cnscp;
    uuidx = nvme_uuid_none;
    rae = false;
    ot = false;
  })
