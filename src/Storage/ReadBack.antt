-- ===== src/Storage/ReadBack.antt =====
-- What is read back through libnvme/src/{io,namespace}.rs from a device that stores blocks.
use libnvme_rs.Base.{
  ℕ, true, ◌*◌, ◌^◌, ◌<◌, ◌≡◌, ap, subst, ◌∙◌, pos, List, [], ◌∷◌, length, replicate, arith,
  length-replicate,
}
use libnvme_rs.Error.{ok}
use libnvme_rs.Ffi.{Handle, result_u32, Libnvme, Call, nvme_io, nvme_ns_get_fd}
use libnvme_rs.Namespace.{Namespace, lba_size}
use libnvme_rs.Io.Commands.{
  Transfer, transfer_args, submit_transfer, read_done, write_execute, opc_read, opc_write,
  opc_write_zeroes,
}
use libnvme_rs.Io.Commands.Done.{submit_transfer-ok}
use libnvme_rs.Io.ReadToVec.{read_zeros, read_to_vec}
use libnvme_rs.Headers.ApiTypes.{NvmeIoArgs}
use libnvme_rs.Io.Args.{base_args, apply_to, attach_metadata, point_result}
use libnvme_rs.Storage.{StoresBlocks, stored, same_range, bytes, zeroes, Reads}
use libnvme_rs.Storage.Laws.{
  then_pure-ok, read_to_vec-ok, same_range_of, payload_of, read_len_of, read_whole, stored_write,
  stored_zeroes,
}
use libnvme_rs.Io.Commands.{BlockRange, range_args, write_zeroes_execute}
use libnvme_rs.Io.Commands.Done.{submit_range-ok}

module _ (lib : Libnvme) (c : BlockRange) where
  same_blocks_of :
      (n fd e : ℕ)
      → same_range
          (range_args lib c (pos fd) e)
          (transfer_args lib (read_zeros c.ns c.slba c.nlb n) (pos fd) e)
        ≡ true
  unfolding same_range transfer_args range_args base_args apply_to attach_metadata point_result
  same_blocks_of n fd e = ground arith

  zero_control : (fd e : ℕ) → c.opts.control ≡ 0 → (range_args lib c (pos fd) e).control ≡ 0
  unfolding range_args base_args apply_to point_result
  zero_control fd e h = h

module _ (lib : Libnvme) (device : StoresBlocks lib) where
  -- libnvme gives the same descriptor again after an I/O call.
  same_fd :
      (h : Handle) (t : List Call) (a : NvmeIoArgs) (opcode fd fd1 : ℕ)
      → (lib.answer t (nvme_ns_get_fd h)).ret ≡ pos fd
      → (lib.answer (nvme_io a opcode ∷ nvme_ns_get_fd h ∷ t) (nvme_ns_get_fd h)).ret ≡ pos fd1
      → fd1 ≡ fd
  same_fd h t a opcode fd fd1 e e1 =
      let cached = device.fd_cached t (nvme_io a opcode ∷ []) h fd e (tt, tt) in cc

  -- What is read is `x` if the history says so of the range.
  read_back :
      (ns : Namespace) (slba nlb n fd e : ℕ) (t : List Call) {got : List ℕ} (x : List ℕ)
      → let a = transfer_args lib (read_zeros ns slba nlb n) (pos fd) e in
        let t1 = nvme_ns_get_fd ns.inner ∷ t in
        let r = lib.answer t1 (nvme_io a opc_read) in
        n < 2 ^ 32
        → length x ≡ n
        → r.ret ≡ pos 0
        → got ≡ (read_done (read_zeros ns slba nlb n) r).buf
        → (Reads (stored lib.answer t1 a) n r.data_bytes → r.data_bytes ≡ x)
        → got ≡ x
  read_back ns slba nlb n fd e t x small len answered value means =
      let a = transfer_args lib (read_zeros ns slba nlb n) (pos fd) e in
      let t1 = nvme_ns_get_fd ns.inner ∷ t in
      let r = lib.answer t1 (nvme_io a opc_read) in
      let same : r.data_bytes ≡ x = means (
        subst (λ k. Reads (stored lib.answer t1 a) k r.data_bytes)
          (read_len_of lib ns slba nlb n fd e small) (device.reads_stored t1 a answered)) in
      value ∙ read_whole lib ns slba nlb n r small (ap length same ∙ len) ∙ same

  -- On a device that stores blocks the data of a Write of fewer than 2^32 bytes, whatever its options and metadata, is what
  -- `read_to_vec` of the same blocks returns right after it, if both succeed.
  pub read_to_vec-after_write :
      (c : Transfer) (t : List Call) {r : ℕ} {t1 : List Call} {got : List ℕ} {t2 : List Call}
      → length c.buf < 2 ^ 32
      → write_execute lib c t ≡ (ok r, t1)
      → read_to_vec lib c.ns c.slba c.nlb t1 ≡ (ok got, t2)
      → got ≡ c.buf
  unfolding write_execute
  read_to_vec-after_write c t {t1} small written h =
      let (_, w1, _) = then_pure-ok (submit_transfer lib opc_write c) result_u32 t written in
      let (fd, e, sized, counted, _, w) = submit_transfer-ok lib opc_write c t w1 in
      let (n, fd1, e1, n_is, counted1, value, rd) = read_to_vec-ok lib c.ns c.slba c.nlb t1 h in
      let io = transfer_args lib c (pos fd) e in
      let a = transfer_args lib (read_zeros c.ns c.slba c.nlb n) (pos fd1) e1 in
      let one_fd : fd1 ≡ fd =
        same_fd c.ns.inner t io opc_write fd fd1 w.opened (rw (← w.history) rd.opened) in
      let one_count : e1 ≡ e = omega arith in
      let kept : stored lib.answer (nvme_ns_get_fd c.ns.inner ∷ t1) a ≡ bytes c.buf =
        rw (w.history, one_fd, one_count)
          (stored_write lib (nvme_ns_get_fd c.ns.inner ∷ t) c.ns.inner io
              (transfer_args lib (read_zeros c.ns c.slba c.nlb n) (pos fd) e) w.succeeded
              (same_range_of lib c n fd e)
            ∙ payload_of lib c fd e small) in
      read_back c.ns c.slba c.nlb n fd1 e1 t1 c.buf (omega arith) (omega arith) rd.succeeded value
        (rw kept (λ h. h (omega arith)))

  -- After a successful Write Zeroes with no flag set, of blocks of fewer than 2^32 bytes, `read_to_vec` of them returns
  -- zeros, when it succeeds, on a device that stores blocks.
  pub read_to_vec-after_zeroes :
      (c : BlockRange) (t : List Call) {r : ℕ} {t1 : List Call} {got : List ℕ} {t2 : List Call}
      → c.opts.control ≡ 0
      → c.nlb * lba_size lib c.ns < 2 ^ 32
      → write_zeroes_execute lib c t ≡ (ok r, t1)
      → read_to_vec lib c.ns c.slba c.nlb t1 ≡ (ok got, t2)
      → got ≡ replicate (c.nlb * lba_size lib c.ns) 0
  read_to_vec-after_zeroes c t {t1} plain small written h =
      let (fd, e, counted, w) = submit_range-ok lib opc_write_zeroes c t written in
      let (n, fd1, e1, n_is, counted1, value, rd) = read_to_vec-ok lib c.ns c.slba c.nlb t1 h in
      let io = range_args lib c (pos fd) e in
      let a = transfer_args lib (read_zeros c.ns c.slba c.nlb n) (pos fd1) e1 in
      let one_fd : fd1 ≡ fd =
        same_fd c.ns.inner t io opc_write_zeroes fd fd1 w.opened (rw (← w.history) rd.opened) in
      let one_count : e1 ≡ e = omega arith in
      let kept : stored lib.answer (nvme_ns_get_fd c.ns.inner ∷ t1) a ≡ zeroes =
        rw (w.history, one_fd, one_count)
          (stored_zeroes lib (nvme_ns_get_fd c.ns.inner ∷ t) c.ns.inner io
            (transfer_args lib (read_zeros c.ns c.slba c.nlb n) (pos fd) e) w.succeeded
            (same_blocks_of lib c n fd e) (zero_control lib c fd e plain)) in
      rw (← n_is) (
        read_back c.ns c.slba c.nlb n fd1 e1 t1 (replicate n 0) (omega arith)
          (length-replicate {A = ℕ} n 0) rd.succeeded value (rw kept (λ h. h)))
