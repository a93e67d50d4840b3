-- ===== src/Base/Bits.antt =====
-- `&` and `|` at variables: one digit at a time, then masks and single bits.
use Prim.Native.Nat.{
  ℕ, zero, suc, ◌+◌, ◌-◌, ◌*◌, ◌/◌, ◌%◌, ◌^◌, ◌≤◌, ◌<◌, min, max, bit_and, bit_or, digits, bitwise,
  bit_and-bitwise, bit_or-bitwise,
}
use mathlib.Core.Path.{◌≡◌, refl, ap, sym, ◌∙◌}
use mathlib.Core.Logic.{◌⊎◌, inl, inr}
use native.Mathlib.Omega.{arith}
use native.Mathlib.Nat.{
  pow-suc, one-le-pow, div-div-eq-div-mul, mod-eq-sub-div-mul, div-mul-le_self,
}

-- The lowest digit of an operation on digits, for any `z` that agrees with `f` on a number that has run out.
module _ (z : ℕ → ℕ) (f : ℕ → ℕ → ℕ) (agree : (y : ℕ) → z y ≡ z (y / 2) * 2 + f 0 (y % 2)) where
  one_more : (n x y : ℕ) → x ≤ n → digits z f (suc n) x y ≡ digits z f n x y
  one_more zero zero y h = refl
  one_more (suc n) zero y h = refl
  one_more zero (suc x) y h = absurd (omega (arith, h))
  one_more (suc n) (suc x) y h =
      ap (λ d. d * 2 + f (suc x % 2) (y % 2)) (one_more n (suc x / 2) (y / 2) (omega (arith, h)))

  last_or_below : (n x : ℕ) → x ≤ suc n → (x ≡ suc n) ⊎ (x ≤ n)
  last_or_below n x h = ground (arith, h)

  enough : (n x y : ℕ) → x ≤ n → digits z f n x y ≡ bitwise z f x y
  enough zero zero y h = refl
  enough zero (suc x) y h = absurd (omega (arith, h))
  enough (suc n) x y h = elim (last_or_below n x h) [
    | inl e ↦ ap (λ k. digits z f k x y) (sym e)
    | inr below ↦ one_more n x y below ∙ enough n x y below
  ]

  lowest_digit : (x y : ℕ) → bitwise z f x y ≡ bitwise z f (x / 2) (y / 2) * 2 + f (x % 2) (y % 2)
  lowest_digit zero y = agree y
  lowest_digit (suc x) y =
      ap (λ d. d * 2 + f (suc x % 2) (y % 2)) (enough x (suc x / 2) (y / 2) (omega arith))

pub bit_or_step : (a b : ℕ) → bit_or a b ≡ bit_or (a / 2) (b / 2) * 2 + max (a % 2) (b % 2)
bit_or_step a b = simp bit_or-bitwise (lowest_digit (λ y. y) max (λ y. omega arith) a b)

pub bit_and_step : (a b : ℕ) → bit_and a b ≡ bit_and (a / 2) (b / 2) * 2 + min (a % 2) (b % 2)
bit_and_step a b = simp bit_and-bitwise (lowest_digit (λ _. 0) min (λ y. omega arith) a b)

bit_and-zero_below : (n x : ℕ) → x ≤ n → bit_and x 0 ≡ 0
bit_and-zero_below n zero h = refl
bit_and-zero_below zero (suc x) h = absurd (omega arith)
bit_and-zero_below (suc n) (suc x) h =
    omega (arith, bit_and_step (suc x) 0, bit_and-zero_below n (suc x / 2) (omega arith))

-- The low `k` digits of a number written as a quotient and a remainder.
bit_and_low : (k q r : ℕ) → r < 2 ^ k → bit_and (q * 2 ^ k + r) (2 ^ k - 1) ≡ r
bit_and_low zero q r h = rw (bit_and-zero_below (q * 1 + r) (q * 1 + r) (omega arith)) (omega arith)
bit_and_low (suc k) q r h = ground (
  arith,
  bit_and_step (q * 2 ^ suc k + r) (2 ^ suc k - 1),
  ap (λ (t : ℕ). q * t) (pow-suc 2 k),
  pow-suc 2 k,
  one-le-pow k 2,
  bit_and_low k q (r / 2) (omega (arith, pow-suc 2 k)),
)

-- A mask of `k` ones keeps the remainder by `2 ^ k`.
pub bit_and_mask : (k a : ℕ) → bit_and a (2 ^ k - 1) ≡ a % 2 ^ k
bit_and_mask k a = ground (arith, one-le-pow k 2, bit_and_low k (a / 2 ^ k) (a % 2 ^ k))

-- Bit `k` of a word.
unfoldable pub test_bit : ℕ → ℕ → ℕ
test_bit a zero = a % 2
test_bit a (suc k) = test_bit (a / 2) k

-- A bit of an `|` is set when it is set on either side.
pub test_bit-bit_or : (a b k : ℕ) → test_bit (bit_or a b) k ≡ max (test_bit a k) (test_bit b k)
unfolding test_bit
test_bit-bit_or a b zero = omega (arith, bit_or_step a b)
test_bit-bit_or a b (suc k) =
    let half : bit_or a b / 2 ≡ bit_or (a / 2) (b / 2) = omega (arith, bit_or_step a b) in
    rw half (test_bit-bit_or (a / 2) (b / 2) k)

bit_or-zero_below : (n x : ℕ) → x ≤ n → bit_or x 0 ≡ x
bit_or-zero_below n zero h = refl
bit_or-zero_below zero (suc x) h = absurd (omega arith)
bit_or-zero_below (suc n) (suc x) h =
    omega (arith, bit_or_step (suc x) 0, bit_or-zero_below n (suc x / 2) (omega arith))

-- An `|` with digits below the lowest one that is set adds them.
pub bit_or_low : (k h l : ℕ) → l < 2 ^ k → bit_or (h * 2 ^ k) l ≡ h * 2 ^ k + l
bit_or_low zero h zero p = omega (arith, bit_or-zero_below (h * 1) (h * 1) (omega arith))
bit_or_low zero h (suc l) p = absurd (omega (arith, p))
bit_or_low (suc k) h l p = ground (
  arith,
  bit_or_step (h * 2 ^ suc k) l,
  ap (λ (t : ℕ). h * t) (pow-suc 2 k),
  pow-suc 2 k,
  bit_or_low k h (l / 2) (omega (arith, pow-suc 2 k)),
)

-- The quotient and the remainder by twice a number, from those of the half.
halves : (p a : ℕ) → 1 ≤ p → (a / (2 * p) ≡ a / 2 / p) × (a % (2 * p) ≡ a / 2 % p * 2 + a % 2)
halves p a h =
    let q = sym (div-div-eq-div-mul a 2 p) in
    let same : a / (2 * p) * (2 * p) ≡ a / 2 / p * p * 2 =
      ap (λ (x : ℕ). x * (2 * p)) q ∙ grind arith in
    (
      q,
      omega (
        arith,
        mod-eq-sub-div-mul a (2 * p),
        mod-eq-sub-div-mul (a / 2) p,
        div-mul-le_self a (2 * p),
        div-mul-le_self (a / 2) p,
        same,
      ),
    )

-- An `&` with a number whose low `k` digits are all ones keeps those digits.
pub bit_and_ones :
    (k a m : ℕ) → bit_and a (m * 2 ^ k + (2 ^ k - 1)) ≡ bit_and (a / 2 ^ k) m * 2 ^ k + a % 2 ^ k
bit_and_ones zero a m = ground (arith, ap (bit_and a) (the_same m))
  where
    the_same : (m : ℕ) → m * 1 + 0 ≡ m
    the_same m = omega arith
bit_and_ones (suc k) a m =
    let p = 2 ^ k in
    let twice : 2 ^ suc k ≡ 2 * p = omega (arith, pow-suc 2 k) in
    rw twice (step p m a (one-le-pow k 2 (omega arith)) (bit_and_ones k (a / 2) m))
  where
    step :
        (p m a : ℕ)
        → 1 ≤ p
        → bit_and (a / 2) (m * p + (p - 1)) ≡ bit_and (a / 2 / p) m * p + a / 2 % p
        → bit_and a (m * (2 * p) + (2 * p - 1)) ≡ bit_and (a / (2 * p)) m * (2 * p) + a % (2 * p)
    step p m a h e =
        let b = m * (2 * p) + (2 * p - 1) in
        let shape : b ≡ (m * p + (p - 1)) * 2 + 1 = grind arith in
        let half : bit_and (a / 2) (b / 2) ≡ bit_and (a / 2) (m * p + (p - 1)) =
          ap (bit_and (a / 2)) (omega (arith, shape)) in
        let x = bit_and (a / 2 / p) m in
        let again : bit_and (a / (2 * p)) m * (2 * p) ≡ x * p * 2 =
          ap (λ (y : ℕ). bit_and y m * (2 * p)) (halves p a h).0 ∙ grind arith in
        omega (arith, bit_and_step a b, half, shape, e, again, (halves p a h).1)
