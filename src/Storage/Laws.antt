-- ===== src/Storage/Laws.antt =====
-- What libnvme/src/{io,namespace}.rs pass when they write and read the same blocks, and what the history of calls says of
-- those.
use libnvme_rs.Base.{
  ℕ, zero, suc, true, ◌+◌, ◌*◌, ◌^◌, ◌<◌, ◌≡◌, refl, ap, pos, List, [], ◌∷◌, length, take,
  replicate, overwrite, u32, arith, length-replicate,
}
use libnvme_rs.Error.{ok}
use libnvme_rs.Ffi.{
  Handle, Libnvme, Reply, Call, M, ◌>>=◌, pure, nvme_io, nvme_ns_get_fd, >>=-eq-ok, lift->>=-eq-ok,
}
use libnvme_rs.Namespace.{Namespace, lba_size}
use libnvme_rs.Io.Commands.{
  Transfer, transfer_args, submit_transfer, read_done, read_execute, opc_read, opc_write,
  opc_write_zeroes,
}
use libnvme_rs.Io.Commands.Done.{Issued, submit_transfer-ok}
use libnvme_rs.Io.ReadToVec.{vec_len, read_zeros, read_to_vec}
use libnvme_rs.Io.ReadToVec.Laws.{vec_len-value}
use libnvme_rs.Headers.ApiTypes.{NvmeIoArgs}
use libnvme_rs.Io.Args.{base_args, apply_to, attach_metadata, point_result}
use libnvme_rs.Storage.{stored, same_range, payload, bytes, zeroes, after_io}

-- A buffer that is written whole holds what was written.
overwrite_all :
    (n : ℕ) (buf written : List ℕ)
    → length buf ≡ n
    → length written ≡ n
    → overwrite n buf written ≡ written
unfolding overwrite
overwrite_all zero [] [] h k = refl
overwrite_all zero (x ∷ buf) [] h k = absurd (omega arith)
overwrite_all zero buf (y ∷ written) h k = absurd (omega arith)
overwrite_all (suc n) [] written h k = absurd (omega arith)
overwrite_all (suc n) (x ∷ buf) [] h k = absurd (omega arith)
overwrite_all (suc n) (x ∷ buf) (y ∷ written) h k =
    ap (λ r. y ∷ r) (overwrite_all n buf written (omega arith) (omega arith))

take_all : (n : ℕ) (xs : List ℕ) → length xs ≡ n → take n xs ≡ xs
take_all zero [] h = refl
take_all zero (x ∷ xs) h = absurd (omega arith)
take_all (suc n) [] h = refl
take_all (suc n) (x ∷ xs) h = ap (λ r. x ∷ r) (take_all n xs (omega arith))

-- Inversion of a program that ends by making a value of a result.
pub then_pure-ok :
    {A B : Type 0} (m : M A) (f : A → B) (t : List Call) {b : B} {t1 : List Call}
    → (m >>= λ a. pure (f a)) t ≡ (ok b, t1)
    → (a : A) × (m t ≡ (ok a, t1)) × (b ≡ f a)
then_pure-ok m f t h = let (a, t2, first, last) = >>=-eq-ok m (λ a. pure (f a)) t h in (a, cc, cc)

module _ (lib : Libnvme) where
  -- What a successful `read_to_vec` has passed and got back.
  pub read_to_vec-ok :
      (ns : Namespace) (slba nlb : ℕ) (t : List Call) {got : List ℕ} {t1 : List Call}
      → read_to_vec lib ns slba nlb t ≡ (ok got, t1)
      → (n : ℕ) × (fd : ℕ) × (e : ℕ) × (n ≡ nlb * lba_size lib ns)
        × (nlb ≡ e + 1)
        × (got
            ≡ (read_done (read_zeros ns slba nlb n) (
                lib.answer (nvme_ns_get_fd ns.inner ∷ t) (
                  nvme_io (transfer_args lib (read_zeros ns slba nlb n) (pos fd) e) opc_read))).buf)
        × Issued lib ns
            (nvme_io (transfer_args lib (read_zeros ns slba nlb n) (pos fd) e) opc_read)
            fd
            t
            t1
  unfolding read_to_vec read_execute
  read_to_vec-ok ns slba nlb t h =
      let (n, sized, h1) =
        lift->>=-eq-ok (vec_len nlb (lba_size lib ns))
          (λ len. read_execute lib (read_zeros ns slba nlb len) >>= λ done. pure done.buf) t h in
      let (d, h2, value) =
        then_pure-ok (read_execute lib (read_zeros ns slba nlb n)) (λ done. done.buf) t h1 in
      let (r, h3, made) =
        then_pure-ok (submit_transfer lib opc_read (read_zeros ns slba nlb n))
          (read_done (read_zeros ns slba nlb n)) t h2 in
      let (fd, e, _, counted, answered, calls) =
        submit_transfer-ok lib opc_read (read_zeros ns slba nlb n) t h3 in
      (n, fd, e, vec_len-value nlb (lba_size lib ns) n sized, counted, cc, calls)

  -- The arguments of a transfer and those of a Read of its blocks name the same range.
  pub same_range_of :
      (c : Transfer) (n fd e : ℕ)
      → same_range
          (transfer_args lib c (pos fd) e)
          (transfer_args lib (read_zeros c.ns c.slba c.nlb n) (pos fd) e)
        ≡ true
  unfolding same_range transfer_args base_args apply_to attach_metadata point_result
  same_range_of c n fd e = ground arith

  pub payload_of :
      (c : Transfer) (fd e : ℕ)
      → length c.buf < 2 ^ 32
      → payload (transfer_args lib c (pos fd) e) ≡ bytes c.buf
  unfolding payload transfer_args base_args apply_to attach_metadata point_result
  payload_of c fd e h = ground (arith, take_all (u32 (length c.buf)) c.buf)

  pub read_len_of :
      (ns : Namespace) (slba nlb n fd e : ℕ)
      → n < 2 ^ 32
      → (transfer_args lib (read_zeros ns slba nlb n) (pos fd) e).data_len ≡ n
  unfolding transfer_args base_args apply_to attach_metadata point_result
  read_len_of ns slba nlb n fd e h = rw (length-replicate {A = ℕ} n 0) (omega arith)

  pub read_whole :
      (ns : Namespace) (slba nlb n : ℕ) (r : Reply)
      → n < 2 ^ 32
      → length r.data_bytes ≡ n
      → (read_done (read_zeros ns slba nlb n) r).buf ≡ r.data_bytes
  unfolding read_done
  read_whole ns slba nlb n r h k =
      let len = length-replicate {A = ℕ} n 0 in
      overwrite_all (u32 (length (replicate {A = ℕ} n 0))) (replicate n 0) r.data_bytes
        (omega arith) (omega arith)

  pub stored_write :
      (t : List Call) (h : Handle) (w a : NvmeIoArgs)
      → (lib.answer t (nvme_io w opc_write)).ret ≡ pos 0
      → same_range w a ≡ true
      → stored lib.answer (nvme_ns_get_fd h ∷ nvme_io w opc_write ∷ t) a ≡ payload w
  unfolding stored after_io
  stored_write t h w a e s = rw (e, s) refl

  pub stored_zeroes :
      (t : List Call) (h : Handle) (w a : NvmeIoArgs)
      → (lib.answer t (nvme_io w opc_write_zeroes)).ret ≡ pos 0
      → same_range w a ≡ true
      → w.control ≡ 0
      → stored lib.answer (nvme_ns_get_fd h ∷ nvme_io w opc_write_zeroes ∷ t) a ≡ zeroes
  unfolding stored after_io
  stored_zeroes t h w a e s z = rw (e, s, z) refl
