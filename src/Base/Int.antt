-- ===== src/Base/Int.antt =====
-- C's `int` and Rust's `i16`/`i32` as integers, with the casts that the crate makes.
use Prim.Native.Nat.{ℕ, suc, ◌+◌, ◌-◌, ◌%◌, ◌^◌, ◌≤◌}
use libnvme_rs.Base.Tests.{ltb, leb, if◌then◌else◌}

-- `negsuc n` is -(n + 1).
pub data ℤ : Type 0 where
  pos : ℕ → ℤ
  negsuc : ℕ → ℤ

abbrev pub pos_part : ℤ → ℕ
pos_part (pos n) = n
pos_part (negsuc n) = 0

abbrev pub neg_part : ℤ → ℕ
neg_part (pos n) = 0
neg_part (negsuc n) = suc n

-- a - b, as an integer.
abbrev pub sub_ℕ : ℕ → ℕ → ℤ
sub_ℕ a b = if leb b a then pos (a - b) else negsuc (b - a - 1)

infix 50 ◌≤ℤ◌
abbrev pub ◌≤ℤ◌ : ℤ → ℤ → Type 0
a ≤ℤ b = pos_part a + neg_part b ≤ pos_part b + neg_part a

-- `x as uN` for a signed `x`: the residue modulo 2 ^ w.
abbrev pub wrap_ℤ : ℕ → ℤ → ℕ
wrap_ℤ w (pos n) = n % 2 ^ w
wrap_ℤ w (negsuc n) = 2 ^ w - 1 - n % 2 ^ w

-- The integer that a bit pattern of `suc w` bits stands for in two's complement.
abbrev pub signed : ℕ → ℕ → ℤ
signed w x = if ltb x (2 ^ w) then pos x else negsuc (2 ^ suc w - x - 1)
