-- ===== src/Io/Ranges.antt =====
-- libnvme/src/io.rs: the ranges of Dataset Management and Copy, and their wire form. `to_le` keeps the
-- number that a little-endian field stands for.
pub mod Laws
use libnvme_rs.Base.{ℕ, ◌-◌, bit_or}
use libnvme_rs.Headers.WireTypes.{NvmeDsmRange, NvmeCopyRange}

-- The mask of a `DsmAttr`.
abbrev pub DsmAttr : Type 0
DsmAttr = ℕ

abbrev pub integral_read : DsmAttr
integral_read = 1

abbrev pub integral_write : DsmAttr
integral_write = 2

abbrev pub deallocate : DsmAttr
deallocate = 4

-- `BitOr` and `BitOrAssign`
unfoldable pub bitor : DsmAttr → DsmAttr → DsmAttr
bitor a b = bit_or a b

pub record DsmRange : Type 0 where
  pub context : ℕ
  pub length : ℕ
  pub slba : ℕ

-- `DsmRange::new`; `saturating_sub` is the subtraction of ℕ.
unfoldable pub new_dsm_range : ℕ → ℕ → DsmRange
new_dsm_range slba nlb = record { context = 0; length = nlb - 1; slba = slba }

unfoldable pub with_context : ℕ → DsmRange → DsmRange
with_context context r = record r { context = context }

-- The closure of `Dsm::execute`.
unfoldable pub raw_dsm_range : DsmRange → NvmeDsmRange
raw_dsm_range r = record { cattr = r.context; nlb = r.length; slba = r.slba }

pub record CopyRange : Type 0 where
  pub slba : ℕ
  pub nlb : ℕ
  pub eilbrt : ℕ
  pub elbat : ℕ
  pub elbatm : ℕ

unfoldable pub new_copy_range : ℕ → ℕ → CopyRange
new_copy_range slba nlb = record { slba = slba; nlb = nlb; eilbrt = 0; elbat = 0; elbatm = 0 }

unfoldable pub ref_tag : ℕ → CopyRange → CopyRange
ref_tag eilbrt r = record r { eilbrt = eilbrt }

unfoldable pub app_tag : ℕ → ℕ → CopyRange → CopyRange
app_tag elbat mask r = record r { elbat = elbat; elbatm = mask }

-- The closure of `Copy::execute`.
unfoldable pub raw_copy_range : CopyRange → NvmeCopyRange
raw_copy_range r = record {
  slba = r.slba;
  nlb = r.nlb - 1;
  eilbrt = r.eilbrt;
  elbat = r.elbat;
  elbatm = r.elbatm;
}
