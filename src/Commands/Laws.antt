-- ===== src/Commands/Laws.antt =====
-- What the commands of libnvme/src/commands.rs pass to libnvme.
use libnvme_rs.Keeps.{>>=-Keeps}
use libnvme_rs.Base.{ℕ, ◌*◌, ◌≤◌, ◌≡◌, ◌↔◌, ℤ, List, some, length, arith}
use libnvme_rs.Error.{ok}
use libnvme_rs.Ffi.{
  >>=-ok, Libnvme, Call, issue, result_u32, nvme_security_send, nvme_security_receive,
  nvme_admin_passthru, nvme_io_passthru,
}
use libnvme_rs.Safety.{AllSafe, Fits, KeepsSafe, issue-KeepsSafe}
use libnvme_rs.Controller.{Controller, open_fd}
use libnvme_rs.Controller.Laws.{open_fd-KeepsSafe}
use libnvme_rs.Directives.Laws.{buf_len-Fits}
use libnvme_rs.Commands.{
  Security, GetLbaStatusArgs, raw_security_send_args, security_send, raw_security_receive_args,
  security_receive, raw_lba_status_args, get_lba_status,
}
use libnvme_rs.Commands.Passthru.{
  PassthruArgs, passthru_cmd, passthru_done, admin_passthru, io_passthru,
}

cmd-Fits :
    (args : PassthruArgs)
    → let cmd = passthru_cmd args in Fits cmd.addr cmd.data_len × Fits cmd.metadata cmd.metadata_len
unfolding passthru_cmd
cmd-Fits args = (buf_len-Fits args.payload, buf_len-Fits args.metadata)

module _ (lib : Libnvme) (c : Controller) where
  -- Security Send passes the payload with a length that it covers, and a transfer length that it
  -- covers if the caller's does.
  pub security_send-KeepsSafe :
      (s : Security) → s.len ≤ length s.buf → KeepsSafe lib (security_send lib c s)
  unfolding security_send
  security_send-KeepsSafe s h = >>=-Keeps (open_fd-KeepsSafe lib c) λ fd.
      issue-KeepsSafe lib (nvme_security_send (raw_security_send_args lib s fd)) result_u32 tt
        (unfold raw_security_send_args in (omega arith, h))

  -- Security Receive passes the buffer with a length that it covers, and an allocation length that it
  -- covers if the caller's does.
  pub security_receive-KeepsSafe :
      (s : Security) → s.len ≤ length s.buf → KeepsSafe lib (security_receive lib c s)
  unfolding security_receive
  security_receive-KeepsSafe s h = >>=-Keeps (open_fd-KeepsSafe lib c) λ fd.
      issue-KeepsSafe lib (nvme_security_receive (raw_security_receive_args lib s fd)) _ tt
        (unfold raw_security_receive_args in (omega arith, h))

  -- A raw admin command passes the data and the metadata with lengths that they cover, and no
  -- length without a buffer.
  pub admin_passthru-KeepsSafe : (args : PassthruArgs) → KeepsSafe lib (admin_passthru lib c args)
  unfolding admin_passthru
  admin_passthru-KeepsSafe args = >>=-Keeps (open_fd-KeepsSafe lib c) λ fd.
      issue-KeepsSafe lib (nvme_admin_passthru fd (passthru_cmd args) (some 0)) (passthru_done args)
        tt (cmd-Fits args)

  pub io_passthru-KeepsSafe : (args : PassthruArgs) → KeepsSafe lib (io_passthru lib c args)
  unfolding io_passthru
  io_passthru-KeepsSafe args = >>=-Keeps (open_fd-KeepsSafe lib c) λ fd.
      issue-KeepsSafe lib (nvme_io_passthru fd (passthru_cmd args) (some 0)) (passthru_done args) tt
        (cmd-Fits args)

  -- Once the controller is open, Get LBA Status stays inside its buffer exactly if four bytes for each
  -- dword that it may return fit there: the method itself checks nothing.
  pub get_lba_status_safe_iff :
      (args : GetLbaStatusArgs) (buf : List ℕ) (fd : ℤ) (t t1 : List Call)
      → open_fd lib c t ≡ (ok fd, t1)
      → AllSafe lib t1
      → AllSafe lib (get_lba_status lib c args buf t).1 ↔ (args.mndw * 4 ≤ length buf)
  unfolding get_lba_status
  get_lba_status_safe_iff args buf fd t t1 h safe =
      rw (>>=-ok (open_fd lib c) _ t h)
        (unfold issue raw_lba_status_args in (λ s. s.0, λ k. (k, tt, safe)))
