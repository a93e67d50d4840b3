-- ===== src/Io/Commands/Safe.antt =====
-- Every call that the transfer and range commands of libnvme/src/io.rs make is covered by the
-- caller's buffers, and that of a transfer describes the caller's request.
use libnvme_rs.Io.Validate.{check_buf_len, encode_nlb}
use libnvme_rs.Keeps.{lift->>=-Keeps, >>=-Keeps}
use libnvme_rs.Base.{
  ℕ, ◌+◌, ◌-◌, ◌*◌, ◌^◌, ◌≤◌, ◌<◌, ◌≡◌, refl, ◌∙◌, ◌↔◌, ℤ, some, none, Option, List, length, u32,
  arith, length-overwrite, ap, ◌∷◌,
}
use libnvme_rs.Error.{ok}
use libnvme_rs.Headers.ApiTypes.{NvmeIoArgs}
use libnvme_rs.Ffi.{
  Libnvme, Call, nvme_io, nvme_io_passthru, result_u32, >>=-eq-ok, pure, nvme_ns_get_fd,
}
use libnvme_rs.Namespace.{Namespace, lba_size, nsid}
use libnvme_rs.Io.Validate.Laws.{encode_nlb_iff, check_buf_len_iff}
use libnvme_rs.Io.Args.{base_args, apply_to, attach_metadata, point_result}
use libnvme_rs.Io.Commands.{
  Transfer, transfer_args, submit_transfer, read_execute, ReadDone, BlockRange, range_args,
  submit_range, flush, flush_cmd, opc_read, read_done,
}
use libnvme_rs.Io.Commands.Laws.{IsAcceptable}
use libnvme_rs.Safety.{
  IsSafe, KeepsSafe, issue-KeepsSafe, ns_fd-KeepsSafe, IsMeasured, blocks-KeepsSafe,
}

below_4_gib : (n size : ℕ) → n ≤ 65536 → size < 65536 → n * size < 2 ^ 32
below_4_gib n size h small = grind arith

attach_metadata_keeps :
    (metadata : Option (List ℕ)) (args : NvmeIoArgs)
    → ((attach_metadata metadata args).data_ptr ≡ args.data_ptr)
      × ((attach_metadata metadata args).nlb ≡ args.nlb)
unfolding attach_metadata
attach_metadata_keeps none args = (refl, refl)
attach_metadata_keeps (some md) args = (refl, refl)

module _ (lib : Libnvme) (c : Transfer) where
  transfer_args-IsSafe :
      (opcode : ℕ) (fd : ℤ) (nlb_enc : ℕ)
      → nlb_enc < 2 ^ 16
      → IsSafe (nvme_io (transfer_args lib c fd nlb_enc) opcode)
  unfolding transfer_args base_args apply_to attach_metadata point_result
  transfer_args-IsSafe opcode fd nlb_enc h = ground arith

  transfer_args-IsMeasured :
      (opcode : ℕ) (fd : ℤ) (nlb_enc : ℕ) (t : List Call)
      → length c.buf ≡ (nlb_enc + 1) * lba_size lib c.ns
      → IsMeasured lib
          (nvme_io (transfer_args lib c fd nlb_enc) opcode)
          (nvme_ns_get_fd c.ns.inner ∷ t)
  unfolding transfer_args base_args apply_to attach_metadata point_result
  transfer_args-IsMeasured opcode fd nlb_enc t h =
      let base =
        base_args lib fd (nsid lib c.ns) c.slba nlb_enc (some c.buf) (u32 (length c.buf)) in
      let (same_data, same_count) = attach_metadata_keeps c.metadata base in
      rw (same_data, same_count) h

  -- Read, Write and Compare pass libnvme a block count whose blocks, of the namespace that was just opened, are just the
  -- bytes of the data buffer, and lengths that the data and metadata buffers cover, whatever the request and whatever was
  -- called before.
  pub submit_transfer-KeepsSafe : (opcode : ℕ) → KeepsSafe lib (submit_transfer lib opcode c)
  unfolding submit_transfer
  submit_transfer-KeepsSafe opcode =
      lift->>=-Keeps {r = check_buf_len (length c.buf) c.nlb (lba_size lib c.ns)} λ _ checked.
        lift->>=-Keeps {r = encode_nlb c.nlb} λ nlb_enc e.
          let (count, small) = (encode_nlb_iff c.nlb nlb_enc).0 e in
          let sized = (check_buf_len_iff (length c.buf) c.nlb (lba_size lib c.ns)).0 checked in
          blocks-KeepsSafe lib c.ns (λ fd. nvme_io (transfer_args lib c fd nlb_enc) opcode) (λ r. r)
            (λ fd. transfer_args-IsSafe opcode fd nlb_enc small)
            (λ fd t.
              transfer_args-IsMeasured opcode fd nlb_enc t
                (sized ∙ ap (λ n. n * lba_size lib c.ns) count))

  -- The I/O call carries the caller's request: its buffer, starting block, options and namespace, the
  -- 0's based count of its blocks, and as its length, at block sizes below 65536, the bytes of just
  -- that many blocks.
  pub transfer_args_lem :
      (fd : ℤ)
      → IsAcceptable lib c
      → lba_size lib c.ns < 65536
      → let a = transfer_args lib c fd (c.nlb - 1) in
        (a.data_ptr ≡ some c.buf)
        × (a.data_len ≡ (a.nlb + 1) * lba_size lib c.ns)
        × (a.nlb + 1 ≡ c.nlb)
        × (a.slba ≡ c.slba)
        × (a.nsid ≡ nsid lib c.ns)
        × (a.metadata ≡ c.metadata)
        × (a.control ≡ c.opts.control)
        × (a.dsm ≡ c.opts.dsm_hint)
        × (a.dspec ≡ c.opts.dspec)
        × (a.apptag ≡ c.opts.apptag)
        × (a.appmask ≡ c.opts.appmask)
        × (a.reftag ≡ c.opts.reftag)
        × (a.reftag_u64 ≡ c.opts.reftag_u64)
        × (a.storage_tag ≡ c.opts.storage_tag)
        × (a.sts ≡ c.opts.sts)
        × (a.pif ≡ c.opts.pif)
        × (a.timeout ≡ c.opts.timeout_ms)
        × (a.fd ≡ fd)
  unfolding transfer_args base_args apply_to attach_metadata point_result
  transfer_args_lem fd h small = ground (
    arith,
    h.some_block,
    h.encodable,
    h.sized,
    below_4_gib c.nlb (lba_size lib c.ns) h.encodable small,
  )

  -- The length that libnvme is told is that of the buffer exactly when the buffer is shorter than 4 GiB.
  pub transfer_data_len_iff :
      (fd : ℤ) (nlb_enc : ℕ)
      → ((transfer_args lib c fd nlb_enc).data_len ≡ length c.buf) ↔ (length c.buf < 2 ^ 32)
  unfolding transfer_args base_args apply_to attach_metadata point_result
  transfer_data_len_iff fd nlb_enc = ground arith

  -- A request that passes the checks, of 65536 blocks of 65536 bytes, is announced with all its blocks but as a transfer
  -- of no bytes.
  pub transfer_args_announce_none :
      (fd : ℤ)
      → IsAcceptable lib c
      → c.nlb ≡ 65536
      → lba_size lib c.ns ≡ 65536
      → let a = transfer_args lib c fd (c.nlb - 1) in
        (length c.buf ≡ 2 ^ 32) × (a.nlb + 1 ≡ 65536) × (a.data_ptr ≡ some c.buf) × (a.data_len ≡ 0)
  unfolding transfer_args base_args apply_to attach_metadata point_result
  transfer_args_announce_none fd h many large =
      let whole : length c.buf ≡ 2 ^ 32 = h.sized ∙ rw (many, large) refl in
      ground (arith, whole, many)

  -- A Read that succeeds returns buffers of the lengths that it was given.
  pub read_execute_length :
      (t : List Call) (d : ReadDone) (t' : List Call)
      → read_execute lib c t ≡ (ok d, t')
      → length d.buf ≡ length c.buf
  unfolding read_execute read_done
  read_execute_length t d t' h =
      let (r, t1, _, e) =
        >>=-eq-ok (submit_transfer lib opc_read c) (λ r. pure (read_done c r)) t h in
      ground (arith, e, length-overwrite (u32 (length c.buf)) c.buf r.data_bytes)

module _ (lib : Libnvme) (c : BlockRange) where
  -- Verify, Write Zeroes and Write Uncorrectable pass no buffer and a length of zero.
  pub submit_range-KeepsSafe : (opcode : ℕ) → KeepsSafe lib (submit_range lib opcode c)
  unfolding submit_range
  submit_range-KeepsSafe opcode = lift->>=-Keeps {r = encode_nlb c.nlb} λ nlb_enc e.
      blocks-KeepsSafe lib c.ns (λ fd. nvme_io (range_args lib c fd nlb_enc) opcode) result_u32
        (λ fd. fits opcode fd nlb_enc ((encode_nlb_iff c.nlb nlb_enc).0 e).1)
        (λ fd t. unfold range_args base_args apply_to point_result in tt)
    where
      fits :
          (opcode : ℕ) (fd : ℤ) (nlb_enc : ℕ)
          → nlb_enc < 2 ^ 16
          → IsSafe (nvme_io (range_args lib c fd nlb_enc) opcode)
      fits opcode fd nlb_enc h =
          unfold range_args base_args apply_to point_result in (refl, refl, h)

pub flush-KeepsSafe : (lib : Libnvme) (ns : Namespace) → KeepsSafe lib (flush lib ns)
unfolding flush
flush-KeepsSafe lib ns = >>=-Keeps (ns_fd-KeepsSafe lib ns) λ fd.
    issue-KeepsSafe lib (nvme_io_passthru fd (flush_cmd lib ns) (some 0)) (λ _. tt) tt
      (unfold flush_cmd in (refl, refl))
