-- ===== src/Io/ReadToVec/Laws.antt =====
-- What `read_to_vec` of libnvme/src/namespace.rs reads.
use libnvme_rs.Base.{
  ℕ, ℤ, ◌*◌, ◌≤◌, ◌<◌, ◌^◌, ◌≡◌, refl, List, length, length-replicate, arith, wrap_ℤ,
}
use libnvme_rs.Error.{ok}
use libnvme_rs.Ffi.{Libnvme, M, Call, ◌>>=◌, pure, lift, >>=-eq-ok}
use libnvme_rs.Namespace.{Namespace, lba_size}
use libnvme_rs.Io.Commands.{read_execute}
use libnvme_rs.Io.Commands.Laws.{IsAcceptable}
use libnvme_rs.Io.Commands.Safe.{read_execute_length}
use libnvme_rs.Io.ReadToVec.{vec_len, read_zeros, read_to_vec}

pub vec_len-value : (nlb size n : ℕ) → vec_len nlb size ≡ ok n → n ≡ nlb * size
unfolding vec_len
vec_len-value nlb size n h = ground arith

below : (nlb size : ℕ) → nlb ≤ 65536 → size < 2 ^ 32 → nlb * size < 2 ^ 64
below nlb size h k = grind arith

vec_len-ok : (nlb size : ℕ) → nlb ≤ 65536 → size < 2 ^ 32 → vec_len nlb size ≡ ok (nlb * size)
unfolding vec_len
vec_len-ok nlb size h k = ground (arith, below nlb size h k)

module _ (lib : Libnvme) (ns : Namespace) (slba nlb : ℕ) where
  -- A successful `read_to_vec` returns exactly the bytes of the blocks that were asked for.
  pub read_to_vec_length :
      (t : List Call) (bytes : List ℕ) (t' : List Call)
      → read_to_vec lib ns slba nlb t ≡ (ok bytes, t')
      → length bytes ≡ nlb * lba_size lib ns
  unfolding read_to_vec
  read_to_vec_length t bytes t' h =
      let read : ℕ → M (List ℕ) =
        λ len. read_execute lib (read_zeros ns slba nlb len) >>= λ done. pure done.buf in
      let (n, t1, e, h1) = >>=-eq-ok (lift (vec_len nlb (lba_size lib ns))) read t h in
      let (done, t2, e2, h2) =
        >>=-eq-ok (read_execute lib (read_zeros ns slba nlb n)) (λ done. pure done.buf) t1 h1 in
      ground (
        arith,
        vec_len-value nlb (lba_size lib ns) n,
        e,
        h2,
        read_execute_length lib (read_zeros ns slba nlb n) t1 done t2 e2,
        length-replicate {A = ℕ} n 0,
      )

  -- For a block count that a Read can encode `read_to_vec` is that Read into a buffer that it accepts:
  -- the product does not overflow.
  pub read_to_vec_reads :
      1 ≤ nlb
      → nlb ≤ 65536
      → let c = read_zeros ns slba nlb (nlb * lba_size lib ns) in
        IsAcceptable lib c
        × (read_to_vec lib ns slba nlb ≡ (read_execute lib c >>= λ done. pure done.buf))
  unfolding read_to_vec lba_size
  read_to_vec_reads h k =
      let size = lba_size lib ns in
      (
        record { some_block = h; encodable = k; sized = length-replicate (nlb * size) 0 },
        rw (vec_len-ok nlb size k (fits (lib.ns_get_lba_size ns.inner))) refl,
      )
    where
      fits : (z : ℤ) → wrap_ℤ 32 z < 2 ^ 32
      fits z = ground arith
