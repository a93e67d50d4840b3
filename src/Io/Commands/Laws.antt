-- ===== src/Io/Commands/Laws.antt =====
-- What reaches libnvme from the transfer and range commands of libnvme/src/io.rs, and what does not.
use libnvme_rs.Base.{
  ℕ, ◌*◌, ◌≤◌, ◌≡◌, pos, negsuc, List, ◌∷◌, length, arith, if◌then◌else◌, ◌==◌, ◌-◌,
}
use libnvme_rs.Error.{os, invalid_argument, Reason, nlb_out_of_range, buffer_length_mismatch, err}
use libnvme_rs.Io.Validate.Laws.{encode_nlb_iff, check_buf_len_iff}
use libnvme_rs.Ffi.{Libnvme, Call, nvme_io, nvme_ns_get_fd, Reply, outcome, issue}
use libnvme_rs.Namespace.{Namespace, lba_size, ns_fd_ok, ns_fd_err}
use libnvme_rs.Io.Validate.{encode_nlb, check_buf_len}
use libnvme_rs.Io.Commands.{Transfer, transfer_args, submit_transfer}

-- A request that the crate may pass on: a count from 1 to 65536 and a buffer of just that many blocks.
pub record IsAcceptable (lib : Libnvme) (c : Transfer) : Type 0 where
  pub some_block : 1 ≤ c.nlb
  pub encodable : c.nlb ≤ 65536
  pub sized : length c.buf ≡ c.nlb * lba_size lib c.ns

-- The reason that the caller is given: the buffer is checked before the count.
abbrev pub refusal : Libnvme → Transfer → Reason
refusal lib c =
    let want = c.nlb * lba_size lib c.ns in
    if length c.buf == want
    then nlb_out_of_range c.nlb
    else buffer_length_mismatch (length c.buf) c.nlb (lba_size lib c.ns) want

-- The value of a call of `nvme_ns_get_fd` and the call after it.
abbrev pub fd_reply : Libnvme → Namespace → List Call → Reply
fd_reply lib ns t = lib.answer t (nvme_ns_get_fd ns.inner)

module _ (lib : Libnvme) (opcode : ℕ) (c : Transfer) (t : List Call) where
  -- A transfer whose count is not 1 to 65536, or whose buffer is not of just that many blocks, is refused
  -- with the reason before libnvme is called at all.
  pub submit_transfer_refuses :
      ¬ IsAcceptable lib c
      → submit_transfer lib opcode c t ≡ (err (invalid_argument (refusal lib c)), t)
  unfolding submit_transfer check_buf_len encode_nlb
  submit_transfer_refuses h = ground (
    arith,
    λ (a : 1 ≤ c.nlb) (b : c.nlb ≤ 65536) (d : length c.buf ≡ c.nlb * lba_size lib c.ns).
        h (record { some_block = a; encodable = b; sized = d }),
  )

  -- Without a descriptor an acceptable transfer ends in the system's error, after that one call.
  pub submit_transfer_no_fd :
      (n : ℕ)
      → IsAcceptable lib c
      → (fd_reply lib c.ns t).ret ≡ negsuc n
      → submit_transfer lib opcode c t
        ≡ (err (os (pos (fd_reply lib c.ns t).errno)), nvme_ns_get_fd c.ns.inner ∷ t)
  unfolding submit_transfer
  submit_transfer_no_fd n a e = ground (
    arith,
    (check_buf_len_iff (length c.buf) c.nlb (lba_size lib c.ns)).1 a.sized,
    (encode_nlb_iff c.nlb (c.nlb - 1)).1 (omega (arith, a.some_block, a.encodable)),
    ns_fd_err lib c.ns t n e,
  )

  -- With a descriptor an acceptable transfer makes one I/O call more, with the arguments built for it and
  -- its 0's based count, and fails or not by that call's return value alone.
  pub submit_transfer_issues :
      (fd : ℕ)
      → IsAcceptable lib c
      → (fd_reply lib c.ns t).ret ≡ pos fd
      → let io = nvme_io (transfer_args lib c (pos fd) (c.nlb - 1)) opcode in
        let t1 = nvme_ns_get_fd c.ns.inner ∷ t in
        let r = lib.answer t1 io in submit_transfer lib opcode c t ≡ (outcome r r, io ∷ t1)
  unfolding submit_transfer issue
  submit_transfer_issues fd a e = ground (
    arith,
    (check_buf_len_iff (length c.buf) c.nlb (lba_size lib c.ns)).1 a.sized,
    (encode_nlb_iff c.nlb (c.nlb - 1)).1 (omega (arith, a.some_block, a.encodable)),
    ns_fd_ok lib c.ns t fd e,
  )
