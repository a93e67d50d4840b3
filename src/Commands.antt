-- ===== src/Commands.antt =====
-- libnvme/src/commands.rs: Sanitize, Device Self-test, Lockdown, Security Send and Receive, Get LBA Status and the
-- properties of a fabrics controller. A method that fills its caller's slice returns it with the result.
pub mod Passthru
pub mod Laws
use libnvme_rs.Base.{ℕ, ◌*◌, ℤ, Bool, false, if◌then◌else◌, u32, none, some, List, length}
use libnvme_rs.Headers.ApiTypes.{
  NvmeSanitizeNvmArgs, NvmeDevSelfTestArgs, NvmeLockdownArgs, NvmeSecuritySendArgs,
  NvmeSecurityReceiveArgs, NvmeGetLbaStatusArgs, NvmeSetPropertyArgs, NvmeGetPropertyArgs,
}
use libnvme_rs.Ffi.{
  Libnvme, M, ◌>>=◌, issue, Reply, result_u32, result_u64, nvme_sanitize_nvm, nvme_dev_self_test,
  nvme_lockdown, nvme_security_send, nvme_security_receive, nvme_get_lba_status, nvme_set_property,
  nvme_get_property, sanitize_nvm_args, dev_self_test_args, lockdown_args, security_send_args,
  security_receive_args, get_lba_status_args, set_property_args, get_property_args,
}
use libnvme_rs.Admin.{SanitizeAction, sanitize_action_raw, SelfTestAction, self_test_action_raw}
use libnvme_rs.Controller.{Controller, open_fd, filled}

-- The builder: a setter stores one field.
pub record Sanitize : Type 0 where
  pub ctrl : Controller
  pub action : SanitizeAction
  pub ause : Bool
  pub owpass : ℕ
  pub oipbp : Bool
  pub nodas : Bool
  pub emvs : Bool
  pub ovrpat : ℕ
  pub timeout_ms : ℕ

pub record LockdownArgs : Type 0 where
  pub scope : ℕ
  pub prohibit : ℕ
  pub interface : ℕ
  pub opcode_or_fid : ℕ
  pub uuid_index : ℕ
  pub timeout_ms : ℕ

pub record GetLbaStatusArgs : Type 0 where
  pub nsid : ℕ
  pub slba : ℕ
  pub mndw : ℕ
  pub atype : ℕ
  pub rl : ℕ
  pub timeout_ms : ℕ

-- The arguments of Security Send and Security Receive: `len` is `tl` or `al`.
pub record Security : Type 0 where
  pub nsid : ℕ
  pub secp : ℕ
  pub spsp0 : ℕ
  pub spsp1 : ℕ
  pub nssf : ℕ
  pub len : ℕ
  pub buf : List ℕ

module _ (lib : Libnvme) where
  -- `has_emvs` is the build's `cfg(has_sanitize_emvs)`; without it the field keeps its default.
  unfoldable pub raw_sanitize_args : Bool → Sanitize → ℤ → NvmeSanitizeNvmArgs
  raw_sanitize_args has_emvs c fd = record {
    result = some 0;
    args_size = lib.size_of sanitize_nvm_args;
    fd = fd;
    timeout = c.timeout_ms;
    sanact = sanitize_action_raw c.action;
    ovrpat = c.ovrpat;
    ause = c.ause;
    owpass = c.owpass;
    oipbp = c.oipbp;
    nodas = c.nodas;
    emvs = if has_emvs then c.emvs else false;
  }

  unfoldable pub sanitize_execute : Bool → Sanitize → M ℕ
  sanitize_execute has_emvs c = do
    fd ← open_fd lib c.ctrl
    issue lib (nvme_sanitize_nvm (raw_sanitize_args has_emvs c fd)) result_u32

  unfoldable pub raw_self_test_args : ℕ → SelfTestAction → ℤ → NvmeDevSelfTestArgs
  raw_self_test_args nsid action fd = record {
    result = none;
    args_size = lib.size_of dev_self_test_args;
    fd = fd;
    timeout = 0;
    nsid = nsid;
    stc = self_test_action_raw action;
  }

  unfoldable pub self_test : Controller → ℕ → SelfTestAction → M (Unit {0})
  self_test c nsid action = do
    fd ← open_fd lib c
    issue lib (nvme_dev_self_test (raw_self_test_args nsid action fd)) (λ _. tt)

  unfoldable pub raw_lockdown_args : LockdownArgs → ℤ → NvmeLockdownArgs
  raw_lockdown_args args fd = record {
    result = none;
    args_size = lib.size_of lockdown_args;
    fd = fd;
    timeout = args.timeout_ms;
    scp = args.scope;
    prhbt = args.prohibit;
    ifc = args.interface;
    ofi = args.opcode_or_fid;
    uuidx = args.uuid_index;
  }

  unfoldable pub lockdown : Controller → LockdownArgs → M (Unit {0})
  lockdown c args = do
    fd ← open_fd lib c
    issue lib (nvme_lockdown (raw_lockdown_args args fd)) (λ _. tt)

  unfoldable pub raw_security_send_args : Security → ℤ → NvmeSecuritySendArgs
  raw_security_send_args s fd = record {
    result = some 0;
    data_ptr = some s.buf;
    args_size = lib.size_of security_send_args;
    fd = fd;
    timeout = 0;
    nsid = s.nsid;
    tl = s.len;
    data_len = u32 (length s.buf);
    nssf = s.nssf;
    spsp0 = s.spsp0;
    spsp1 = s.spsp1;
    secp = s.secp;
  }

  unfoldable pub security_send : Controller → Security → M ℕ
  security_send c s = do
    fd ← open_fd lib c
    issue lib (nvme_security_send (raw_security_send_args s fd)) result_u32

  unfoldable pub raw_security_receive_args : Security → ℤ → NvmeSecurityReceiveArgs
  raw_security_receive_args s fd = record {
    result = some 0;
    data_ptr = some s.buf;
    args_size = lib.size_of security_receive_args;
    fd = fd;
    timeout = 0;
    nsid = s.nsid;
    al = s.len;
    data_len = u32 (length s.buf);
    nssf = s.nssf;
    spsp0 = s.spsp0;
    spsp1 = s.spsp1;
    secp = s.secp;
  }

  unfoldable pub security_receive : Controller → Security → M (ℕ × List ℕ)
  security_receive c s = do
    fd ← open_fd lib c
    issue lib (nvme_security_receive (raw_security_receive_args s fd))
        λ r. (result_u32 r, filled (u32 (length s.buf)) s.buf r)

  -- The buffer goes along without its length.
  unfoldable pub raw_lba_status_args : GetLbaStatusArgs → List ℕ → ℤ → NvmeGetLbaStatusArgs
  raw_lba_status_args args buf fd = record {
    slba = args.slba;
    result = some 0;
    lbas = some buf;
    args_size = lib.size_of get_lba_status_args;
    fd = fd;
    timeout = args.timeout_ms;
    nsid = args.nsid;
    mndw = args.mndw;
    atype = args.atype;
    rl = args.rl;
  }

  unfoldable pub get_lba_status : Controller → GetLbaStatusArgs → List ℕ → M (ℕ × List ℕ)
  get_lba_status c args buf = do
    fd ← open_fd lib c
    issue lib (nvme_get_lba_status (raw_lba_status_args args buf fd))
        λ r. (result_u32 r, filled (args.mndw * 4) buf r)

  unfoldable pub raw_set_property_args : ℤ → ℕ → ℤ → NvmeSetPropertyArgs
  raw_set_property_args offset value fd = record {
    value = value;
    result = none;
    args_size = lib.size_of set_property_args;
    fd = fd;
    timeout = 0;
    offset = offset;
  }

  unfoldable pub set_property : Controller → ℤ → ℕ → M (Unit {0})
  set_property c offset value = do
    fd ← open_fd lib c
    issue lib (nvme_set_property (raw_set_property_args offset value fd)) (λ _. tt)

  unfoldable pub raw_get_property_args : ℤ → ℤ → NvmeGetPropertyArgs
  raw_get_property_args offset fd = record {
    value = some 0;
    args_size = lib.size_of get_property_args;
    fd = fd;
    timeout = 0;
    offset = offset;
  }

  unfoldable pub get_property : Controller → ℤ → M ℕ
  get_property c offset = do
    fd ← open_fd lib c
    issue lib (nvme_get_property (raw_get_property_args offset fd)) result_u64
