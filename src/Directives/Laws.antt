-- ===== src/Directives/Laws.antt =====
-- What the directive commands of libnvme/src/directives.rs pass to libnvme.
use libnvme_rs.Keeps.{>>=-Keeps}
use libnvme_rs.Base.{ℕ, refl, Option, none, some, List, arith}
use libnvme_rs.Ffi.{Libnvme, result_u32, nvme_directive_send, nvme_directive_recv}
use libnvme_rs.Safety.{Fits, KeepsSafe, issue-KeepsSafe, ns_fd-KeepsSafe}
use libnvme_rs.Directives.{
  DirectiveSend, DirectiveRecv, buf_len, directive_done, raw_directive_send_args,
  directive_send_execute, raw_directive_recv_args, directive_recv_execute,
}

-- The length that goes with an optional buffer is covered by it, and zero without one.
pub buf_len-Fits : (buf : Option (List ℕ)) → Fits buf (buf_len buf)
unfolding buf_len
buf_len-Fits none = refl
buf_len-Fits (some buf) = omega arith

module _ (lib : Libnvme) where
  -- Directive Send passes a length that its payload covers, and zero without a payload.
  pub directive_send_execute-KeepsSafe :
      (c : DirectiveSend) → KeepsSafe lib (directive_send_execute lib c)
  unfolding directive_send_execute
  directive_send_execute-KeepsSafe c = >>=-Keeps (ns_fd-KeepsSafe lib c.ns) λ fd.
      issue-KeepsSafe lib (nvme_directive_send (raw_directive_send_args lib c fd)) result_u32 tt
        (unfold raw_directive_send_args in buf_len-Fits c.payload)

  -- Directive Receive passes a length that its buffer covers, and zero without a buffer.
  pub directive_recv_execute-KeepsSafe :
      (c : DirectiveRecv) → KeepsSafe lib (directive_recv_execute lib c)
  unfolding directive_recv_execute
  directive_recv_execute-KeepsSafe c = >>=-Keeps (ns_fd-KeepsSafe lib c.ns) λ fd.
      issue-KeepsSafe lib (nvme_directive_recv (raw_directive_recv_args lib c fd))
        (directive_done c.payload) tt (unfold raw_directive_recv_args in buf_len-Fits c.payload)
