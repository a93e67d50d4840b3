-- ===== src/Headers/Ioctl/IdentifyCsi.antt =====
-- libnvme-sys/vendored-headers/nvme/ioctl.h: the inline functions for the Identify data structures of a command set. Each is the call that it makes.
use libnvme_rs.Base.{ℕ, ℤ, Option, none, List}
use libnvme_rs.Ffi.{Libnvme, Call, identify_args, nvme_identify}
use libnvme_rs.Headers.Ioctl.Constants.{
  nvme_cnsspecid_none, nvme_cntlid_none, nvme_default_ioctl_timeout,
  nvme_identify_cns_csi_allocated_ns_list, nvme_identify_cns_csi_ctrl,
  nvme_identify_cns_csi_independent_id_ns, nvme_identify_cns_csi_ns,
  nvme_identify_cns_csi_ns_active_list, nvme_nsid_none, nvme_uuid_none,
}
use libnvme_rs.Headers.Ioctl.Identify.{nvme_identify_cns_nsid}

module _ (lib : Libnvme) where
  unfoldable pub nvme_identify_ns_csi : ℤ → ℕ → ℕ → ℕ → Option (List ℕ) → Call
  nvme_identify_ns_csi fd nsid uuidx csi buf = nvme_identify (record {
    result = none;
    data_ptr = buf;
    args_size = lib.size_of identify_args;
    fd = fd;
    timeout = nvme_default_ioctl_timeout;
    cns = nvme_identify_cns_csi_ns;
    csi = csi;
    nsid = nsid;
    cntid = nvme_cntlid_none;
    cns_specific_id = nvme_cnsspecid_none;
    uuidx = uuidx;
  })

  unfoldable pub nvme_identify_ctrl_csi : ℤ → ℕ → Option (List ℕ) → Call
  nvme_identify_ctrl_csi fd csi buf = nvme_identify (record {
    result = none;
    data_ptr = buf;
    args_size = lib.size_of identify_args;
    fd = fd;
    timeout = nvme_default_ioctl_timeout;
    cns = nvme_identify_cns_csi_ctrl;
    csi = csi;
    nsid = nvme_nsid_none;
    cntid = nvme_cntlid_none;
    cns_specific_id = nvme_cnsspecid_none;
    uuidx = nvme_uuid_none;
  })

  unfoldable pub nvme_identify_active_ns_list_csi : ℤ → ℕ → ℕ → Option (List ℕ) → Call
  nvme_identify_active_ns_list_csi fd nsid csi ns_list = nvme_identify (record {
    result = none;
    data_ptr = ns_list;
    args_size = lib.size_of identify_args;
    fd = fd;
    timeout = nvme_default_ioctl_timeout;
    cns = nvme_identify_cns_csi_ns_active_list;
    csi = csi;
    nsid = nsid;
    cntid = nvme_cntlid_none;
    cns_specific_id = nvme_cnsspecid_none;
    uuidx = nvme_uuid_none;
  })

  unfoldable pub nvme_identify_allocated_ns_list_csi : ℤ → ℕ → ℕ → Option (List ℕ) → Call
  nvme_identify_allocated_ns_list_csi fd nsid csi ns_list = nvme_identify (record {
    result = none;
    data_ptr = ns_list;
    args_size = lib.size_of identify_args;
    fd = fd;
    timeout = nvme_default_ioctl_timeout;
    cns = nvme_identify_cns_csi_allocated_ns_list;
    csi = csi;
    nsid = nsid;
    cntid = nvme_cntlid_none;
    cns_specific_id = nvme_cnsspecid_none;
    uuidx = nvme_uuid_none;
  })

  unfoldable pub nvme_identify_independent_identify_ns : ℤ → ℕ → Option (List ℕ) → Call
  nvme_identify_independent_identify_ns fd nsid ns =
      nvme_identify_cns_nsid lib fd nvme_identify_cns_csi_independent_id_ns nsid ns
