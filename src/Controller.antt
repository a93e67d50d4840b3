-- ===== src/Controller.antt =====
-- libnvme/src/controller.rs: the admin commands of a controller. A log page is the list of its bytes, of which
-- `size_of::<T>()` are asked for, and an Identify template the list of its own.
pub mod Setters
pub mod Laws
use libnvme_rs.Base.{
  ℕ, ◌-◌, ◌*◌, ℤ, Bool, false, ltb, ◌==◌, if◌then◌else◌, u16, u32, checked_mul, Option, none, some,
  List, [], ◌∷◌, ◌++◌, length, replicate, overwrite,
}
use libnvme_rs.Error.{
  Result, ok, err, invalid_argument, entries_overflow_usize, too_many_controllers,
}
use libnvme_rs.Headers.WireTypes.{NvmeCtrlList}
use libnvme_rs.Headers.ApiTypes.{NvmeGetLogArgs, NvmeNsMgmtArgs, NvmeNsAttachArgs, NvmeFwCommitArgs}
use libnvme_rs.Ffi.{
  Handle, Libnvme, M, ◌>>=◌, ◌>>◌, pure, lift, call, issue, fd_of, result_u32, Reply,
  nvme_ctrl_get_fd, nvme_get_log, nvme_ns_mgmt, nvme_ns_attach, nvme_fw_commit,
  nvme_fw_download_seq, nvme_ctrl_reset, nvme_disconnect_ctrl, get_log_args, ns_mgmt_args,
  ns_attach_args, fw_commit_args,
}
use libnvme_rs.Admin.{FirmwareAction, firmware_action_raw}

pub record Controller : Type 0 where
  pub inner : Handle

-- `size_of::<nvme_error_log_page>()`
abbrev pub error_entry_size : ℕ
error_entry_size = 64

abbrev pub all_namespaces : ℕ
all_namespaces = 0xFFFFFFFF

-- `NVME_NS_MGMT_SEL_CREATE` and the other selectors.
abbrev pub sel_create : ℕ
sel_create = 0

abbrev pub sel_delete : ℕ
sel_delete = 1

abbrev pub sel_ctrl_attach : ℕ
sel_ctrl_attach = 0

abbrev pub sel_ctrl_deattach : ℕ
sel_ctrl_deattach = 1

-- What the device leaves in a buffer when it was told of its first `len` bytes.
unfoldable pub filled : ℕ → List ℕ → Reply → List ℕ
filled len buf r = overwrite len buf r.data_bytes

abbrev pub zeros : ℕ → List ℕ
zeros n = replicate n 0

-- The controller list that `ns_attach_op` builds.
unfoldable pub ctrl_list : List ℕ → NvmeCtrlList
ctrl_list ids = record { num = u16 (length ids); identifier = ids ++ zeros (2047 - length ids) }

-- `checked_mul(..).ok_or_else(..)`
unfoldable pub entries_len : ℕ → Result ℕ
entries_len max_entries = elim (checked_mul error_entry_size max_entries) [
  | none ↦ err (invalid_argument entries_overflow_usize)
  | some n ↦ ok n
]

unfoldable pub check_controllers : List ℕ → Result (Unit {0})
check_controllers ids =
    if ltb 2047 (length ids) then err (invalid_argument too_many_controllers) else ok tt

module _ (lib : Libnvme) where
  unfoldable pub open_fd : Controller → M ℤ
  open_fd c = do r ← call lib (nvme_ctrl_get_fd c.inner); lift (fd_of r)

  -- The fields that are not given are those of `Default`.
  unfoldable pub raw_get_log_args : ℤ → ℕ → ℕ → List ℕ → ℕ → NvmeGetLogArgs
  raw_get_log_args fd lid nsid buf len = record {
    lpo = 0;
    result = none;
    log = some buf;
    args_size = lib.size_of get_log_args;
    fd = fd;
    timeout = 0;
    lid = lid;
    len = len;
    nsid = nsid;
    csi = 0;
    lsi = 0;
    lsp = 0;
    uuidx = 0;
    rae = false;
    ot = false;
  }

  -- `get_log_page::<T>`, with `size` for `size_of::<T>()`.
  unfoldable pub get_log_page : Controller → ℕ → ℕ → ℕ → M (List ℕ)
  get_log_page c size lid nsid = do
    fd ← open_fd c
    let buf = zeros size
    issue lib (nvme_get_log (raw_get_log_args fd lid nsid buf (u32 size))) (filled (u32 size) buf)

  abbrev pub smart_log : Controller → ℕ → M (List ℕ)
  smart_log c size = get_log_page c size 0x02 all_namespaces

  abbrev pub fw_slot_log : Controller → ℕ → M (List ℕ)
  fw_slot_log c size = get_log_page c size 0x03 all_namespaces

  -- The entries are one buffer of `max_entries` times the size of an entry.
  unfoldable pub fetch_error_log : Controller → ℕ → M (List ℕ)
  fetch_error_log c max_entries = do
    fd ← open_fd c
    total_len ← lift (entries_len max_entries)
    let buf = zeros (error_entry_size * max_entries)
    issue lib (nvme_get_log (raw_get_log_args fd 0x01 all_namespaces buf (u32 total_len)))
        (filled (u32 total_len) buf)

  unfoldable pub error_log : Controller → ℕ → M (List ℕ)
  error_log c max_entries = if max_entries == 0 then pure [] else fetch_error_log c max_entries

  unfoldable pub fw_download : Controller → List ℕ → M (Unit {0})
  fw_download c image = do
    fd ← open_fd c
    issue lib (nvme_fw_download_seq fd (u32 (length image)) 0 0 image) (λ _. tt)

  unfoldable pub raw_fw_commit_args : ℤ → ℕ → FirmwareAction → Bool → NvmeFwCommitArgs
  raw_fw_commit_args fd slot action bpid = record {
    result = none;
    args_size = lib.size_of fw_commit_args;
    fd = fd;
    timeout = 0;
    action = firmware_action_raw action;
    slot = slot;
    bpid = bpid;
  }

  unfoldable pub fw_commit : Controller → ℕ → FirmwareAction → Bool → M (Unit {0})
  fw_commit c slot action bpid = do
    fd ← open_fd c
    issue lib (nvme_fw_commit (raw_fw_commit_args fd slot action bpid)) (λ _. tt)

  unfoldable pub raw_ns_mgmt_args : ℤ → Option ℕ → Option (List ℕ) → ℕ → ℕ → NvmeNsMgmtArgs
  raw_ns_mgmt_args fd result template nsid sel = record {
    result = result;
    ns = template;
    args_size = lib.size_of ns_mgmt_args;
    fd = fd;
    timeout = 0;
    nsid = nsid;
    sel = sel;
    csi = 0;
    data_ptr = none;
  }

  unfoldable pub create_namespace : Controller → List ℕ → M ℕ
  create_namespace c template = do
    fd ← open_fd c
    issue lib (nvme_ns_mgmt (raw_ns_mgmt_args fd (some 0) (some template) 0 sel_create)) result_u32

  unfoldable pub delete_namespace : Controller → ℕ → M (Unit {0})
  delete_namespace c nsid = do
    fd ← open_fd c
    issue lib (nvme_ns_mgmt (raw_ns_mgmt_args fd none none nsid sel_delete)) (λ _. tt)

  unfoldable pub raw_ns_attach_args : ℤ → ℕ → List ℕ → ℕ → NvmeNsAttachArgs
  raw_ns_attach_args fd nsid ids sel = record {
    result = none;
    ctrlist = some (ctrl_list ids);
    args_size = lib.size_of ns_attach_args;
    fd = fd;
    timeout = 0;
    nsid = nsid;
    sel = sel;
  }

  unfoldable pub ns_attach_op : Controller → ℕ → List ℕ → ℕ → M (Unit {0})
  ns_attach_op c nsid ids sel = do
    lift (check_controllers ids)
    fd ← open_fd c
    issue lib (nvme_ns_attach (raw_ns_attach_args fd nsid ids sel)) (λ _. tt)

  abbrev pub attach_namespace : Controller → ℕ → List ℕ → M (Unit {0})
  attach_namespace c nsid ids = ns_attach_op c nsid ids sel_ctrl_attach

  abbrev pub detach_namespace : Controller → ℕ → List ℕ → M (Unit {0})
  detach_namespace c nsid ids = ns_attach_op c nsid ids sel_ctrl_deattach

  unfoldable pub disconnect : Controller → M (Unit {0})
  disconnect c = issue lib (nvme_disconnect_ctrl c.inner) (λ _. tt)

  unfoldable pub reset : Controller → M (Unit {0})
  reset c = do fd ← open_fd c; issue lib (nvme_ctrl_reset fd) (λ _. tt)
