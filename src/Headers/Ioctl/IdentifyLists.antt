-- ===== src/Headers/Ioctl/IdentifyLists.antt =====
-- libnvme-sys/vendored-headers/nvme/ioctl.h: the inline functions for the Identify data structures of lists. Each is the call that it makes.
use libnvme_rs.Base.{ℕ, ℤ, Option, none, List}
use libnvme_rs.Ffi.{Libnvme, Call, identify_args, nvme_identify}
use libnvme_rs.Headers.Ioctl.Constants.{
  nvme_cnsspecid_none, nvme_cntlid_none, nvme_csi_nvm, nvme_default_ioctl_timeout,
  nvme_identify_cns_ns_granularity, nvme_identify_cns_nvmset_list,
  nvme_identify_cns_primary_ctrl_cap, nvme_identify_cns_secondary_ctrl_list,
  nvme_identify_cns_uuid_list, nvme_nsid_none, nvme_uuid_none,
}
use libnvme_rs.Headers.Ioctl.Identify.{nvme_identify_cns_nsid}

module _ (lib : Libnvme) where
  unfoldable pub nvme_identify_nvmset_list : ℤ → ℕ → Option (List ℕ) → Call
  nvme_identify_nvmset_list fd nvmsetid nvmset = nvme_identify (record {
    result = none;
    data_ptr = nvmset;
    args_size = lib.size_of identify_args;
    fd = fd;
    timeout = nvme_default_ioctl_timeout;
    cns = nvme_identify_cns_nvmset_list;
    csi = nvme_csi_nvm;
    nsid = nvme_nsid_none;
    cntid = nvme_cntlid_none;
    cns_specific_id = nvmsetid;
    uuidx = nvme_uuid_none;
  })

  unfoldable pub nvme_identify_primary_ctrl : ℤ → ℕ → Option (List ℕ) → Call
  nvme_identify_primary_ctrl fd cntid cap = nvme_identify (record {
    result = none;
    data_ptr = cap;
    args_size = lib.size_of identify_args;
    fd = fd;
    timeout = nvme_default_ioctl_timeout;
    cns = nvme_identify_cns_primary_ctrl_cap;
    csi = nvme_csi_nvm;
    nsid = nvme_nsid_none;
    cntid = cntid;
    cns_specific_id = nvme_cnsspecid_none;
    uuidx = nvme_uuid_none;
  })

  unfoldable pub nvme_identify_secondary_ctrl_list : ℤ → ℕ → Option (List ℕ) → Call
  nvme_identify_secondary_ctrl_list fd cntid sc_list = nvme_identify (record {
    result = none;
    data_ptr = sc_list;
    args_size = lib.size_of identify_args;
    fd = fd;
    timeout = nvme_default_ioctl_timeout;
    cns = nvme_identify_cns_secondary_ctrl_list;
    csi = nvme_csi_nvm;
    nsid = nvme_nsid_none;
    cntid = cntid;
    cns_specific_id = nvme_cnsspecid_none;
    uuidx = nvme_uuid_none;
  })

  unfoldable pub nvme_identify_ns_granularity : ℤ → Option (List ℕ) → Call
  nvme_identify_ns_granularity fd gr_list =
      nvme_identify_cns_nsid lib fd nvme_identify_cns_ns_granularity nvme_nsid_none gr_list

  unfoldable pub nvme_identify_uuid : ℤ → Option (List ℕ) → Call
  nvme_identify_uuid fd uuid_list =
      nvme_identify_cns_nsid lib fd nvme_identify_cns_uuid_list nvme_nsid_none uuid_list
