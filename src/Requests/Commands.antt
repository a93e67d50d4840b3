-- ===== src/Requests/Commands.antt =====
-- The commands of libnvme/src whose one call is safe with any descriptor, and those built on other commands.
use libnvme_rs.Base.{◌*◌, ◌≤◌, length, Bool, some, replicate, ℕ, ℤ, List, arith}
use libnvme_rs.Ffi.{Libnvme, Call, Reply, ◌>>=◌, issue, result_u32}
use libnvme_rs.Namespace.{Namespace, ns_fd, lba_size}
use libnvme_rs.Safety.{IsSafe, KeepsSafe, issue-KeepsSafe, ns_fd-KeepsSafe, IsBlockless}
use libnvme_rs.Keeps.{pure-Keeps, >>=-Keeps, lift->>=-Keeps}
use libnvme_rs.Admin.{FirmwareAction, SelfTestAction}
use libnvme_rs.Controller.{
  Controller, open_fd, fw_download, fw_commit, create_namespace, delete_namespace, reset,
  disconnect,
}
use libnvme_rs.Controller.Laws.{open_fd-KeepsSafe}
use libnvme_rs.Controller.Setters.{ctrl_identify}
use libnvme_rs.Commands.{
  GetLbaStatusArgs, get_lba_status, raw_lba_status_args, Sanitize, LockdownArgs, sanitize_execute,
  self_test, lockdown, set_property, get_property,
}
use libnvme_rs.Reservations.{
  ReservationAcquire, ReservationRegister, ReservationRelease, ReservationReport, acquire_execute,
  register_execute, release_execute, report_execute_to_vec,
}
use libnvme_rs.Reservations.Laws.{report_execute-KeepsSafe}
use libnvme_rs.Format.{Format, format_execute}
use libnvme_rs.Tree.NamespaceFields.{ns_identify}
use libnvme_rs.Io.Commands.{
  Transfer, read_execute, read_done, write_execute, compare_execute, opc_read, opc_write,
  opc_compare,
}
use libnvme_rs.Io.Commands.Safe.{submit_transfer-KeepsSafe}
use libnvme_rs.Io.ReadToVec.{vec_len, read_zeros, read_to_vec}

module _ (lib : Libnvme) where
  -- A command whose one call is safe with any descriptor.
  through_ns :
      {A : Type 0} (ns : Namespace) (mk : ℤ → Call) (g : Reply → A)
      → ((fd : ℤ) → IsBlockless (mk fd) × IsSafe (mk fd))
      → KeepsSafe lib (ns_fd lib ns >>= λ fd. issue lib (mk fd) g)
  through_ns ns mk g safe =
      >>=-Keeps (ns_fd-KeepsSafe lib ns)
        (λ fd. issue-KeepsSafe lib (mk fd) g (safe fd).0 (safe fd).1)

  through_ctrl :
      {A : Type 0} (c : Controller) (mk : ℤ → Call) (g : Reply → A)
      → ((fd : ℤ) → IsBlockless (mk fd) × IsSafe (mk fd))
      → KeepsSafe lib (open_fd lib c >>= λ fd. issue lib (mk fd) g)
  through_ctrl c mk g safe =
      >>=-Keeps (open_fd-KeepsSafe lib c)
        (λ fd. issue-KeepsSafe lib (mk fd) g (safe fd).0 (safe fd).1)

  pub fw_download-KeepsSafe :
      (c : Controller) (image : List ℕ) → KeepsSafe lib (fw_download lib c image)
  unfolding fw_download
  fw_download-KeepsSafe c image = through_ctrl c _ _ (λ fd. (tt, omega arith))

  pub sanitize_execute-KeepsSafe :
      (has_emvs : Bool) (c : Sanitize) → KeepsSafe lib (sanitize_execute lib has_emvs c)
  unfolding sanitize_execute
  sanitize_execute-KeepsSafe has_emvs c = through_ctrl c.ctrl _ _ (λ fd. (tt, tt))

  pub self_test-KeepsSafe :
      (c : Controller) (nsid : ℕ) (action : SelfTestAction)
      → KeepsSafe lib (self_test lib c nsid action)
  unfolding self_test
  self_test-KeepsSafe c nsid action = through_ctrl c _ _ (λ fd. (tt, tt))

  pub lockdown-KeepsSafe :
      (c : Controller) (args : LockdownArgs) → KeepsSafe lib (lockdown lib c args)
  unfolding lockdown
  lockdown-KeepsSafe c args = through_ctrl c _ _ (λ fd. (tt, tt))

  pub set_property-KeepsSafe :
      (c : Controller) (offset : ℤ) (value : ℕ) → KeepsSafe lib (set_property lib c offset value)
  unfolding set_property
  set_property-KeepsSafe c offset value = through_ctrl c _ _ (λ fd. (tt, tt))

  pub get_property-KeepsSafe :
      (c : Controller) (offset : ℤ) → KeepsSafe lib (get_property lib c offset)
  unfolding get_property
  get_property-KeepsSafe c offset = through_ctrl c _ _ (λ fd. (tt, tt))

  pub fw_commit-KeepsSafe :
      (c : Controller) (slot : ℕ) (action : FirmwareAction) (bpid : Bool)
      → KeepsSafe lib (fw_commit lib c slot action bpid)
  unfolding fw_commit
  fw_commit-KeepsSafe c slot action bpid = through_ctrl c _ _ (λ fd. (tt, tt))

  pub create_namespace-KeepsSafe :
      (c : Controller) (template : List ℕ) → KeepsSafe lib (create_namespace lib c template)
  unfolding create_namespace
  create_namespace-KeepsSafe c template = through_ctrl c _ _ (λ fd. (tt, tt))

  pub delete_namespace-KeepsSafe :
      (c : Controller) (nsid : ℕ) → KeepsSafe lib (delete_namespace lib c nsid)
  unfolding delete_namespace
  delete_namespace-KeepsSafe c nsid = through_ctrl c _ _ (λ fd. (tt, tt))

  pub reset-KeepsSafe : (c : Controller) → KeepsSafe lib (reset lib c)
  unfolding reset
  reset-KeepsSafe c = through_ctrl c _ _ (λ fd. (tt, tt))

  pub acquire_execute-KeepsSafe : (c : ReservationAcquire) → KeepsSafe lib (acquire_execute lib c)
  unfolding acquire_execute
  acquire_execute-KeepsSafe c = through_ns c.ns _ _ (λ fd. (tt, tt))

  pub register_execute-KeepsSafe :
      (c : ReservationRegister) → KeepsSafe lib (register_execute lib c)
  unfolding register_execute
  register_execute-KeepsSafe c = through_ns c.ns _ _ (λ fd. (tt, tt))

  pub release_execute-KeepsSafe : (c : ReservationRelease) → KeepsSafe lib (release_execute lib c)
  unfolding release_execute
  release_execute-KeepsSafe c = through_ns c.ns _ _ (λ fd. (tt, tt))

  pub format_execute-KeepsSafe : (c : Format) → KeepsSafe lib (format_execute lib c)
  unfolding format_execute
  format_execute-KeepsSafe c = through_ns c.ns _ _ (λ fd. (tt, tt))

  pub ctrl_identify-KeepsSafe : (c : Controller) → KeepsSafe lib (ctrl_identify lib c)
  unfolding ctrl_identify
  ctrl_identify-KeepsSafe c = issue-KeepsSafe lib _ _ tt tt

  pub disconnect-KeepsSafe : (c : Controller) → KeepsSafe lib (disconnect lib c)
  unfolding disconnect
  disconnect-KeepsSafe c = issue-KeepsSafe lib _ _ tt tt

  pub ns_identify-KeepsSafe : (ns : Namespace) → KeepsSafe lib (ns_identify lib ns)
  unfolding ns_identify
  ns_identify-KeepsSafe ns = issue-KeepsSafe lib _ _ tt tt

  pub read_execute-KeepsSafe : (c : Transfer) → KeepsSafe lib (read_execute lib c)
  unfolding read_execute
  read_execute-KeepsSafe c =
      >>=-Keeps (submit_transfer-KeepsSafe lib c opc_read) (λ r. pure-Keeps (read_done c r))

  pub write_execute-KeepsSafe : (c : Transfer) → KeepsSafe lib (write_execute lib c)
  unfolding write_execute
  write_execute-KeepsSafe c =
      >>=-Keeps (submit_transfer-KeepsSafe lib c opc_write) (λ r. pure-Keeps (result_u32 r))

  pub compare_execute-KeepsSafe : (c : Transfer) → KeepsSafe lib (compare_execute lib c)
  unfolding compare_execute
  compare_execute-KeepsSafe c =
      >>=-Keeps (submit_transfer-KeepsSafe lib c opc_compare) (λ r. pure-Keeps (result_u32 r))

  pub read_to_vec-KeepsSafe :
      (ns : Namespace) (slba nlb : ℕ) → KeepsSafe lib (read_to_vec lib ns slba nlb)
  unfolding read_to_vec
  read_to_vec-KeepsSafe ns slba nlb = lift->>=-Keeps {r = vec_len nlb (lba_size lib ns)} λ len _.
      >>=-Keeps (read_execute-KeepsSafe (read_zeros ns slba nlb len)) (λ done. pure-Keeps done.buf)

  pub report_execute_to_vec-KeepsSafe :
      (c : ReservationReport) → KeepsSafe lib (report_execute_to_vec lib c)
  unfolding report_execute_to_vec
  report_execute_to_vec-KeepsSafe c =
      >>=-Keeps (report_execute-KeepsSafe lib (record c { buf = some (replicate 4096 0) }))
        (λ done. pure-Keeps done.buf)

  pub get_lba_status-KeepsSafe :
      (c : Controller) (args : GetLbaStatusArgs) (buf : List ℕ)
      → args.mndw * 4 ≤ length buf
      → KeepsSafe lib (get_lba_status lib c args buf)
  unfolding get_lba_status raw_lba_status_args
  get_lba_status-KeepsSafe c args buf h = through_ctrl c _ _ (λ fd. (tt, h))
