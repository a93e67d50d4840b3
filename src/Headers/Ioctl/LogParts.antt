-- ===== src/Headers/Ioctl/LogParts.antt =====
-- libnvme-sys/vendored-headers/nvme/ioctl.h: the inline functions for the log pages of partitions and reachability. Each is the call that it makes.
use libnvme_rs.Base.{ℕ, ℤ, Bool, false, if◌then◌else◌, Option, none, List}
use libnvme_rs.Ffi.{Libnvme, Call, get_log_args, nvme_get_log_page}
use libnvme_rs.Headers.Ioctl.Constants.{
  nvme_csi_nvm, nvme_default_ioctl_timeout, nvme_log_lid_boot_partition,
  nvme_log_lid_dispersed_ns_participating_nss, nvme_log_lid_mgmt_addr_list, nvme_log_lid_phy_rx_eom,
  nvme_log_lid_reachability_associations, nvme_log_lid_reachability_groups,
  nvme_log_lid_rotational_media_info, nvme_log_lsi_none, nvme_log_lsp_none, nvme_log_page_pdu_size,
  nvme_nsid_all, nvme_nsid_none, nvme_uuid_none,
}
use libnvme_rs.Headers.Ioctl.Logs.{nvme_get_endgid_log, nvme_get_log_simple, nvme_get_nsid_log}

module _ (lib : Libnvme) where
  unfoldable pub nvme_get_log_boot_partition : ℤ → Bool → ℕ → ℕ → Option (List ℕ) → Call
  nvme_get_log_boot_partition fd rae lsp len part =
      nvme_get_log_page nvme_log_page_pdu_size (record {
        lpo = 0;
        result = none;
        log = part;
        args_size = lib.size_of get_log_args;
        fd = fd;
        timeout = nvme_default_ioctl_timeout;
        lid = nvme_log_lid_boot_partition;
        len = len;
        nsid = nvme_nsid_none;
        csi = nvme_csi_nvm;
        lsi = nvme_log_lsi_none;
        lsp = lsp;
        uuidx = nvme_uuid_none;
        rae = rae;
        ot = false;
      })

  unfoldable pub nvme_get_log_rotational_media_info : ℤ → ℕ → ℕ → Option (List ℕ) → Call
  nvme_get_log_rotational_media_info fd endgid len buf =
      nvme_get_endgid_log lib fd false nvme_log_lid_rotational_media_info endgid len buf

  unfoldable pub nvme_get_log_dispersed_ns_participating_nss : ℤ → ℕ → ℕ → Option (List ℕ) → Call
  nvme_get_log_dispersed_ns_participating_nss fd nsid len buf =
      nvme_get_nsid_log lib fd false nvme_log_lid_dispersed_ns_participating_nss nsid len buf

  unfoldable pub nvme_get_log_mgmt_addr_list : ℤ → ℕ → Option (List ℕ) → Call
  nvme_get_log_mgmt_addr_list fd len buf =
      nvme_get_log_simple lib fd nvme_log_lid_mgmt_addr_list len buf

  unfoldable pub nvme_get_log_phy_rx_eom : ℤ → ℕ → ℕ → ℕ → Option (List ℕ) → Call
  nvme_get_log_phy_rx_eom fd lsp controller len buf =
      nvme_get_log_page nvme_log_page_pdu_size (record {
        lpo = 0;
        result = none;
        log = buf;
        args_size = lib.size_of get_log_args;
        fd = fd;
        timeout = nvme_default_ioctl_timeout;
        lid = nvme_log_lid_phy_rx_eom;
        len = len;
        nsid = nvme_nsid_none;
        csi = nvme_csi_nvm;
        lsi = controller;
        lsp = lsp;
        uuidx = nvme_uuid_none;
        rae = false;
        ot = false;
      })

  unfoldable pub nvme_get_log_reachability_groups : ℤ → Bool → Bool → ℕ → Option (List ℕ) → Call
  nvme_get_log_reachability_groups fd rgo rae len buf =
      nvme_get_log_page nvme_log_page_pdu_size (record {
        lpo = 0;
        result = none;
        log = buf;
        args_size = lib.size_of get_log_args;
        fd = fd;
        timeout = nvme_default_ioctl_timeout;
        lid = nvme_log_lid_reachability_groups;
        len = len;
        nsid = nvme_nsid_all;
        csi = nvme_csi_nvm;
        lsi = nvme_log_lsi_none;
        lsp = if rgo then 1 else 0;
        uuidx = nvme_log_lsp_none;
        rae = rae;
        ot = false;
      })

  unfoldable pub nvme_get_log_reachability_associations :
      ℤ → Bool → Bool → ℕ → Option (List ℕ) → Call
  nvme_get_log_reachability_associations fd rao rae len buf =
      nvme_get_log_page nvme_log_page_pdu_size (record {
        lpo = 0;
        result = none;
        log = buf;
        args_size = lib.size_of get_log_args;
        fd = fd;
        timeout = nvme_default_ioctl_timeout;
        lid = nvme_log_lid_reachability_associations;
        len = len;
        nsid = nvme_nsid_all;
        csi = nvme_csi_nvm;
        lsi = nvme_log_lsi_none;
        lsp = if rao then 1 else 0;
        uuidx = nvme_log_lsp_none;
        rae = rae;
        ot = false;
      })
