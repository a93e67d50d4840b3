-- ===== src/Headers/Ioctl/IdentifyFormats.antt =====
-- libnvme-sys/vendored-headers/nvme/ioctl.h: the inline functions for the Identify data structures of formats, domains and zones. Each is the call that it makes.
use libnvme_rs.Base.{ℕ, ℤ, Option, none, List}
use libnvme_rs.Ffi.{Libnvme, Call, identify_args, nvme_identify}
use libnvme_rs.Headers.Ioctl.Constants.{
  nvme_cnsspecid_none, nvme_cntlid_none, nvme_csi_nvm, nvme_csi_zns, nvme_default_ioctl_timeout,
  nvme_identify_cns_command_set_structure, nvme_identify_cns_csi_ns_user_data_format,
  nvme_identify_cns_domain_list, nvme_identify_cns_endurance_group_id,
  nvme_identify_cns_ns_user_data_format, nvme_nsid_none, nvme_uuid_none,
}
use libnvme_rs.Headers.Ioctl.IdentifyCsi.{nvme_identify_ctrl_csi, nvme_identify_ns_csi}

module _ (lib : Libnvme) where
  unfoldable pub nvme_identify_ns_csi_user_data_format : ℤ → ℕ → ℕ → ℕ → Option (List ℕ) → Call
  nvme_identify_ns_csi_user_data_format fd user_data_format uuidx csi buf = nvme_identify (record {
    result = none;
    data_ptr = buf;
    args_size = lib.size_of identify_args;
    fd = fd;
    timeout = nvme_default_ioctl_timeout;
    cns = nvme_identify_cns_ns_user_data_format;
    csi = csi;
    nsid = nvme_nsid_none;
    cntid = nvme_cntlid_none;
    cns_specific_id = user_data_format;
    uuidx = uuidx;
  })

  unfoldable pub nvme_identify_iocs_ns_csi_user_data_format : ℤ → ℕ → ℕ → ℕ → Option (List ℕ) → Call
  nvme_identify_iocs_ns_csi_user_data_format fd user_data_format uuidx csi buf =
      nvme_identify (record {
        result = none;
        data_ptr = buf;
        args_size = lib.size_of identify_args;
        fd = fd;
        timeout = nvme_default_ioctl_timeout;
        cns = nvme_identify_cns_csi_ns_user_data_format;
        csi = csi;
        nsid = nvme_nsid_none;
        cntid = nvme_cntlid_none;
        cns_specific_id = user_data_format;
        uuidx = uuidx;
      })

  unfoldable pub nvme_nvm_identify_ctrl : ℤ → Option (List ℕ) → Call
  nvme_nvm_identify_ctrl fd buf = nvme_identify_ctrl_csi lib fd nvme_csi_nvm buf

  unfoldable pub nvme_identify_domain_list : ℤ → ℕ → Option (List ℕ) → Call
  nvme_identify_domain_list fd domid buf = nvme_identify (record {
    result = none;
    data_ptr = buf;
    args_size = lib.size_of identify_args;
    fd = fd;
    timeout = nvme_default_ioctl_timeout;
    cns = nvme_identify_cns_domain_list;
    csi = nvme_csi_nvm;
    nsid = nvme_nsid_none;
    cntid = nvme_cntlid_none;
    cns_specific_id = domid;
    uuidx = nvme_uuid_none;
  })

  unfoldable pub nvme_identify_endurance_group_list : ℤ → ℕ → Option (List ℕ) → Call
  nvme_identify_endurance_group_list fd endgrp_id buf = nvme_identify (record {
    result = none;
    data_ptr = buf;
    args_size = lib.size_of identify_args;
    fd = fd;
    timeout = nvme_default_ioctl_timeout;
    cns = nvme_identify_cns_endurance_group_id;
    csi = nvme_csi_nvm;
    nsid = nvme_nsid_none;
    cntid = nvme_cntlid_none;
    cns_specific_id = endgrp_id;
    uuidx = nvme_uuid_none;
  })

  unfoldable pub nvme_identify_iocs : ℤ → ℕ → Option (List ℕ) → Call
  nvme_identify_iocs fd cntlid iocs = nvme_identify (record {
    result = none;
    data_ptr = iocs;
    args_size = lib.size_of identify_args;
    fd = fd;
    timeout = nvme_default_ioctl_timeout;
    cns = nvme_identify_cns_command_set_structure;
    csi = nvme_csi_nvm;
    nsid = nvme_nsid_none;
    cntid = cntlid;
    cns_specific_id = nvme_cnsspecid_none;
    uuidx = nvme_uuid_none;
  })

  unfoldable pub nvme_zns_identify_ns : ℤ → ℕ → Option (List ℕ) → Call
  nvme_zns_identify_ns fd nsid buf =
      nvme_identify_ns_csi lib fd nsid nvme_uuid_none nvme_csi_zns buf

  unfoldable pub nvme_zns_identify_ctrl : ℤ → Option (List ℕ) → Call
  nvme_zns_identify_ctrl fd buf = nvme_identify_ctrl_csi lib fd nvme_csi_zns buf
