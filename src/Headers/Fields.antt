-- ===== src/Headers/Fields.antt =====
-- libnvme-sys/vendored-headers/nvme/types.h: `NVME_GET` and `NVME_SET`, which read and place a field of a
-- word. The macros take the field's name, from which the preprocessor makes its shift and its mask.
pub mod Laws
use libnvme_rs.Base.{ℕ, u32, bit_and, ◌<<<◌, ◌>>>◌}

pub record Field : Type 0 where
  pub shift : ℕ
  pub mask : ℕ

unfoldable pub nvme_get : ℕ → Field → ℕ
nvme_get value f = bit_and (value >>> f.shift) f.mask

unfoldable pub nvme_set : ℕ → Field → ℕ
nvme_set value f = u32 (bit_and (u32 value) f.mask <<< f.shift)
