-- ===== src/Io/ReadToVec.antt =====
-- libnvme/src/namespace.rs: `read_to_vec`, a Read into a buffer of its own.
pub mod Laws
use libnvme_rs.Base.{ℕ, checked_mul, Option, none, some, List, replicate}
use libnvme_rs.Error.{Result, ok, err, invalid_argument, length_overflows_usize}
use libnvme_rs.Ffi.{Libnvme, M, ◌>>=◌, pure, lift}
use libnvme_rs.Namespace.{Namespace, lba_size}
use libnvme_rs.Io.Control.{default_opts}
use libnvme_rs.Io.Commands.{Transfer, read_execute}

-- `checked_mul(..).ok_or_else(..)`
unfoldable pub vec_len : ℕ → ℕ → Result ℕ
vec_len nlb lba_size = elim (checked_mul nlb lba_size) [
  | none ↦ err (invalid_argument length_overflows_usize)
  | some n ↦ ok n
]

-- `Namespace::read` of `nlb` blocks into a buffer of `len` zeros.
abbrev pub read_zeros : Namespace → ℕ → ℕ → ℕ → Transfer
read_zeros ns slba nlb len = record {
  ns = ns;
  slba = slba;
  nlb = nlb;
  buf = replicate len 0;
  metadata = none;
  opts = default_opts;
}

module _ (lib : Libnvme) where
  unfoldable pub read_to_vec : Namespace → ℕ → ℕ → M (List ℕ)
  read_to_vec ns slba nlb = do
    len ← lift (vec_len nlb (lba_size lib ns))
    done ← read_execute lib (read_zeros ns slba nlb len)
    pure done.buf
