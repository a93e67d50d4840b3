-- ===== src/Zns/Laws.antt =====
-- What the zoned commands of libnvme/src/zns.rs accept, and what they pass to libnvme.
use libnvme_rs.Keeps.{lift->>=-Keeps, >>=-Keeps}
use libnvme_rs.Base.{
  ℕ, ◌<◌, ◌^◌, ◌≡◌, refl, ◌↔◌, ℤ, Option, none, some, List, length, arith, ap, ◌∙◌, ◌*◌, ◌+◌,
}
use libnvme_rs.Error.{ok, err, invalid_argument, missing_buffer}
use libnvme_rs.Ffi.{
  Libnvme, Call, result_u32, result_u64, nvme_zns_mgmt_send, nvme_zns_mgmt_recv, nvme_zns_append,
}
use libnvme_rs.Namespace.{lba_size}
use libnvme_rs.Safety.{Fits, IsSafe, KeepsSafe, issue-KeepsSafe, ns_fd-KeepsSafe, blocks-KeepsSafe}
use libnvme_rs.Io.Validate.{encode_nlb, check_buf_len}
use libnvme_rs.Zns.{
  ZoneSendAction, send_action_raw, ZnsMgmtSend, ZnsMgmtRecv, ZnsAppend, len_of, given_buffer,
  recv_done, check_append, raw_send_args, mgmt_send_execute, raw_recv_args, mgmt_recv_execute,
  raw_append_args, append_execute,
}

-- Zone Append accepts a buffer and a count exactly when both checks of the other I/O commands do, and
-- encodes the count as they do, although it makes its checks in another order and with other messages.
pub check_append_iff :
    (buf_len nlb lba_size e : ℕ)
    → (check_append buf_len nlb lba_size ≡ ok e)
      ↔ ((check_buf_len buf_len nlb lba_size ≡ ok tt) × (encode_nlb nlb ≡ ok e))
unfolding check_append check_buf_len encode_nlb
check_append_iff buf_len nlb lba_size e = ground arith

check_append-fits :
    (buf_len nlb lba_size e : ℕ)
    → check_append buf_len nlb lba_size ≡ ok e
    → (e < 2 ^ 16) × (buf_len ≡ nlb * lba_size) × (nlb ≡ e + 1)
unfolding check_append
check_append-fits buf_len nlb lba_size e h = ground arith

-- Different zone actions are sent as different values.
pub send_action_raw_injective :
    (a b : ZoneSendAction) → send_action_raw a ≡ send_action_raw b → a ≡ b
unfolding send_action_raw
send_action_raw_injective a b h = ground arith

len_of-Fits : (payload : Option (List ℕ)) → Fits payload (len_of payload)
unfolding len_of
len_of-Fits none = refl
len_of-Fits (some buf) = omega arith

module _ (lib : Libnvme) where
  -- Zone Management Send passes a length that its payload covers, and zero without a payload.
  pub mgmt_send_execute-KeepsSafe : (c : ZnsMgmtSend) → KeepsSafe lib (mgmt_send_execute lib c)
  unfolding mgmt_send_execute
  mgmt_send_execute-KeepsSafe c = >>=-Keeps (ns_fd-KeepsSafe lib c.ns) λ fd.
      issue-KeepsSafe lib (nvme_zns_mgmt_send (raw_send_args lib c fd)) result_u32 tt
        (unfold raw_send_args in len_of-Fits c.payload)

  -- Zone Management Receive never passes NULL: it passes a buffer that covers the length.
  pub mgmt_recv_execute-KeepsSafe : (c : ZnsMgmtRecv) → KeepsSafe lib (mgmt_recv_execute lib c)
  unfolding mgmt_recv_execute
  mgmt_recv_execute-KeepsSafe c = lift->>=-Keeps λ buf _. >>=-Keeps (ns_fd-KeepsSafe lib c.ns) λ fd.
      issue-KeepsSafe lib (nvme_zns_mgmt_recv (raw_recv_args lib c buf fd)) (recv_done buf) tt
        (unfold raw_recv_args in (omega arith, λ h. cc))

  append_args-IsSafe :
      (c : ZnsAppend) (fd : ℤ) (e : ℕ)
      → e < 2 ^ 16
      → IsSafe (nvme_zns_append (raw_append_args lib c fd e))
  unfolding raw_append_args
  append_args-IsSafe c fd e h = (omega arith, len_of-Fits c.metadata, h)

  -- Zone Append passes lengths that its buffers cover, and a count whose blocks are the bytes of the payload.
  pub append_execute-KeepsSafe : (c : ZnsAppend) → KeepsSafe lib (append_execute lib c)
  unfolding append_execute
  append_execute-KeepsSafe c =
      lift->>=-Keeps {r = check_append (length c.payload) c.nlb (lba_size lib c.ns)} λ e h.
        let (small, sized, count) =
          check_append-fits (length c.payload) c.nlb (lba_size lib c.ns) e h in
        blocks-KeepsSafe lib c.ns (λ fd. nvme_zns_append (raw_append_args lib c fd e)) result_u64
          (λ fd. append_args-IsSafe c fd e small)
          (λ fd t. unfold raw_append_args in (sized ∙ ap (λ n. n * lba_size lib c.ns) count))

  -- Without a buffer Zone Management Receive is refused before libnvme is called.
  pub mgmt_recv_execute_refuses :
      (c : ZnsMgmtRecv) (t : List Call)
      → c.payload ≡ none
      → mgmt_recv_execute lib c t ≡ (err (invalid_argument missing_buffer), t)
  unfolding mgmt_recv_execute given_buffer
  mgmt_recv_execute_refuses c t h = ground (arith, h)
