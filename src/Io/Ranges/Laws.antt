-- ===== src/Io/Ranges/Laws.antt =====
-- The block counts of the ranges of libnvme/src/io.rs on the wire.
use libnvme_rs.Base.{ℕ, ◌+◌, ◌≤◌, ◌≡◌, ◌≢◌, refl, arith, max, test_bit, test_bit-bit_or}
use libnvme_rs.Io.Ranges.{
  DsmAttr, bitor, new_dsm_range, with_context, raw_dsm_range, new_copy_range, ref_tag, app_tag,
  raw_copy_range,
}

-- A Dataset Management range for `nlb ≥ 1` blocks goes out one block short: the wire field `nlb` is the
-- length itself in libnvme's header ("Length in logical blocks"), and the crate sends `nlb - 1`. The
-- starting block and the context are sent as given.
pub raw_dsm_range_short :
    (slba nlb context : ℕ)
    → 1 ≤ nlb
    → let r = raw_dsm_range (with_context context (new_dsm_range slba nlb)) in
      (r.nlb + 1 ≡ nlb) × (r.nlb ≢ nlb) × (r.slba ≡ slba) × (r.cattr ≡ context)
unfolding raw_dsm_range with_context new_dsm_range
raw_dsm_range_short slba nlb context h = ground arith

-- A Copy source range for `nlb ≥ 1` blocks carries the 0's based count, and the tags that its setters
-- were given.
pub raw_copy_range_lem :
    (slba nlb eilbrt elbat mask : ℕ)
    → 1 ≤ nlb
    → let r = raw_copy_range (app_tag elbat mask (ref_tag eilbrt (new_copy_range slba nlb))) in
      (r.nlb + 1 ≡ nlb)
      × (r.slba ≡ slba)
      × (r.eilbrt ≡ eilbrt)
      × (r.elbat ≡ elbat)
      × (r.elbatm ≡ mask)
unfolding raw_copy_range app_tag ref_tag new_copy_range
raw_copy_range_lem slba nlb eilbrt elbat mask h = ground arith

-- A range of no blocks and a range of one block are the same request, for both commands.
pub empty_range_is_one_block :
    (slba : ℕ)
    → (new_dsm_range slba 0 ≡ new_dsm_range slba 1)
      × (raw_copy_range (new_copy_range slba 0) ≡ raw_copy_range (new_copy_range slba 1))
unfolding raw_copy_range new_copy_range new_dsm_range
empty_range_is_one_block slba = (refl, refl)

-- A combination of attributes has just the bits of its two sides.
pub bitor_bit : (a b : DsmAttr) (k : ℕ) → test_bit (bitor a b) k ≡ max (test_bit a k) (test_bit b k)
unfolding bitor
bitor_bit a b k = test_bit-bit_or a b k
