-- ===== src/Headers/Ioctl/Identify.antt =====
-- libnvme-sys/vendored-headers/nvme/ioctl.h: the inline functions for identifying a controller or a namespace. Each is the call that it makes.
use libnvme_rs.Base.{ℕ, ℤ, Option, none, List}
use libnvme_rs.Ffi.{Libnvme, Call, identify_args, nvme_identify}
use libnvme_rs.Headers.Ioctl.Constants.{
  nvme_cnsspecid_none, nvme_cntlid_none, nvme_csi_nvm, nvme_default_ioctl_timeout,
  nvme_identify_cns_allocated_ns, nvme_identify_cns_allocated_ns_list, nvme_identify_cns_ctrl,
  nvme_identify_cns_ctrl_list, nvme_identify_cns_ns, nvme_identify_cns_ns_active_list,
  nvme_identify_cns_ns_ctrl_list, nvme_identify_cns_ns_desc_list, nvme_nsid_none, nvme_uuid_none,
}

module _ (lib : Libnvme) where
  unfoldable pub nvme_identify_cns_nsid : ℤ → ℕ → ℕ → Option (List ℕ) → Call
  nvme_identify_cns_nsid fd cns nsid buf = nvme_identify (record {
    result = none;
    data_ptr = buf;
    args_size = lib.size_of identify_args;
    fd = fd;
    timeout = nvme_default_ioctl_timeout;
    cns = cns;
    csi = nvme_csi_nvm;
    nsid = nsid;
    cntid = nvme_cntlid_none;
    cns_specific_id = nvme_cnsspecid_none;
    uuidx = nvme_uuid_none;
  })

  unfoldable pub nvme_identify_ctrl : ℤ → Option (List ℕ) → Call
  nvme_identify_ctrl fd buf = nvme_identify_cns_nsid fd nvme_identify_cns_ctrl nvme_nsid_none buf

  unfoldable pub nvme_identify_ns : ℤ → ℕ → Option (List ℕ) → Call
  nvme_identify_ns fd nsid ns = nvme_identify_cns_nsid fd nvme_identify_cns_ns nsid ns

  unfoldable pub nvme_identify_allocated_ns : ℤ → ℕ → Option (List ℕ) → Call
  nvme_identify_allocated_ns fd nsid ns =
      nvme_identify_cns_nsid fd nvme_identify_cns_allocated_ns nsid ns

  unfoldable pub nvme_identify_active_ns_list : ℤ → ℕ → Option (List ℕ) → Call
  nvme_identify_active_ns_list fd nsid buf =
      nvme_identify_cns_nsid fd nvme_identify_cns_ns_active_list nsid buf

  unfoldable pub nvme_identify_allocated_ns_list : ℤ → ℕ → Option (List ℕ) → Call
  nvme_identify_allocated_ns_list fd nsid buf =
      nvme_identify_cns_nsid fd nvme_identify_cns_allocated_ns_list nsid buf

  unfoldable pub nvme_identify_ctrl_list : ℤ → ℕ → Option (List ℕ) → Call
  nvme_identify_ctrl_list fd cntid cntlist = nvme_identify (record {
    result = none;
    data_ptr = cntlist;
    args_size = lib.size_of identify_args;
    fd = fd;
    timeout = nvme_default_ioctl_timeout;
    cns = nvme_identify_cns_ctrl_list;
    csi = nvme_csi_nvm;
    nsid = nvme_nsid_none;
    cntid = cntid;
    cns_specific_id = nvme_cnsspecid_none;
    uuidx = nvme_uuid_none;
  })

  unfoldable pub nvme_identify_nsid_ctrl_list : ℤ → ℕ → ℕ → Option (List ℕ) → Call
  nvme_identify_nsid_ctrl_list fd nsid cntid cntlist = nvme_identify (record {
    result = none;
    data_ptr = cntlist;
    args_size = lib.size_of identify_args;
    fd = fd;
    timeout = nvme_default_ioctl_timeout;
    cns = nvme_identify_cns_ns_ctrl_list;
    csi = nvme_csi_nvm;
    nsid = nsid;
    cntid = cntid;
    cns_specific_id = nvme_cnsspecid_none;
    uuidx = nvme_uuid_none;
  })

  unfoldable pub nvme_identify_ns_descs : ℤ → ℕ → Option (List ℕ) → Call
  nvme_identify_ns_descs fd nsid descs =
      nvme_identify_cns_nsid fd nvme_identify_cns_ns_desc_list nsid descs
