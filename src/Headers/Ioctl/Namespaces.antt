-- ===== src/Headers/Ioctl/Namespaces.antt =====
-- libnvme-sys/vendored-headers/nvme/ioctl.h: the inline functions for namespace management. Each is the call that it makes.
use libnvme_rs.Base.{ℕ, ℤ, Option, none, List}
use libnvme_rs.Headers.WireTypes.{NvmeCtrlList}
use libnvme_rs.Ffi.{Libnvme, Call, ns_attach_args, ns_mgmt_args, nvme_ns_attach, nvme_ns_mgmt}
use libnvme_rs.Headers.Ioctl.Constants.{
  nvme_default_ioctl_timeout, nvme_ns_attach_sel_ctrl_attach, nvme_ns_attach_sel_ctrl_deattach,
  nvme_ns_mgmt_sel_create, nvme_ns_mgmt_sel_delete, nvme_nsid_none,
}

module _ (lib : Libnvme) where
  unfoldable pub nvme_ns_mgmt_create :
      ℤ → Option (List ℕ) → Option ℕ → ℕ → ℕ → Option (List ℕ) → Call
  nvme_ns_mgmt_create fd ns nsid timeout csi buf = nvme_ns_mgmt (record {
    result = nsid;
    ns = ns;
    args_size = lib.size_of ns_mgmt_args;
    fd = fd;
    timeout = timeout;
    nsid = nvme_nsid_none;
    sel = nvme_ns_mgmt_sel_create;
    csi = csi;
    data_ptr = buf;
  })

  unfoldable pub nvme_ns_mgmt_delete_timeout : ℤ → ℕ → ℕ → Call
  nvme_ns_mgmt_delete_timeout fd nsid timeout = nvme_ns_mgmt (record {
    result = none;
    ns = none;
    args_size = lib.size_of ns_mgmt_args;
    fd = fd;
    timeout = timeout;
    nsid = nsid;
    sel = nvme_ns_mgmt_sel_delete;
    csi = 0;
    data_ptr = none;
  })

  unfoldable pub nvme_ns_mgmt_delete : ℤ → ℕ → Call
  nvme_ns_mgmt_delete fd nsid = nvme_ns_mgmt_delete_timeout fd nsid 0

  unfoldable pub nvme_ns_attach_ctrls : ℤ → ℕ → Option NvmeCtrlList → Call
  nvme_ns_attach_ctrls fd nsid ctrlist = nvme_ns_attach (record {
    result = none;
    ctrlist = ctrlist;
    args_size = lib.size_of ns_attach_args;
    fd = fd;
    timeout = nvme_default_ioctl_timeout;
    nsid = nsid;
    sel = nvme_ns_attach_sel_ctrl_attach;
  })

  unfoldable pub nvme_ns_detach_ctrls : ℤ → ℕ → Option NvmeCtrlList → Call
  nvme_ns_detach_ctrls fd nsid ctrlist = nvme_ns_attach (record {
    result = none;
    ctrlist = ctrlist;
    args_size = lib.size_of ns_attach_args;
    fd = fd;
    timeout = nvme_default_ioctl_timeout;
    nsid = nsid;
    sel = nvme_ns_attach_sel_ctrl_deattach;
  })
