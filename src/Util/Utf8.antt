-- ===== src/Util/Utf8.antt =====
-- `std::str::from_utf8`, which libnvme/src/util.rs and libnvme/src/root.rs call: the check of well-formed UTF-8.
use libnvme_rs.Base.{
  ℕ, zero, suc, ◌+◌, ◌-◌, ◌≤◌, ◌<◌, Bool, true, false, ◌&&◌, ◌==◌, leb, ltb, if◌then◌else◌, Option,
  none, some, List, [], ◌∷◌, length, drop, All, ◌≡◌, refl, ap, arith,
}
use libnvme_rs.Error.{Result, ok, err, utf8}

within : ℕ → ℕ → ℕ → Bool
within lo hi b = leb lo b && leb b hi

is_tail : ℕ → Bool
unfolding within
is_tail b = within 0x80 0xbf b

-- How many bytes a sequence with this first byte has, 0 if none begins so.
sequence_width : ℕ → ℕ
unfolding within
sequence_width b =
    if ltb b 0x80
    then 1
    else if within 0xc2 0xdf b
    then 2
    else if within 0xe0 0xef b
    then 3
    else if within 0xf0 0xf4 b
    then 4
    else 0

-- The second byte, whose range depends on the first: no overlong forms, surrogates or values beyond
-- the last code point.
is_second : ℕ → ℕ → Bool
unfolding within is_tail
is_second b c =
    if b == 0xe0
    then within 0xa0 0xbf c
    else if b == 0xed
    then within 0x80 0x9f c
    else if b == 0xf0
    then within 0x90 0xbf c
    else if b == 0xf4
    then within 0x80 0x8f c
    else is_tail c

-- Whether a sequence of the given width stands at the head of the bytes after its first.
is_sequence : ℕ → ℕ → List ℕ → Bool
unfolding is_tail is_second
is_sequence zero b bs = false
is_sequence (suc zero) b bs = true
is_sequence (suc (suc zero)) b (c ∷ bs) = is_second b c
is_sequence (suc (suc (suc zero))) b (c ∷ d ∷ bs) = is_second b c && is_tail d
is_sequence (suc (suc (suc (suc zero)))) b (c ∷ d ∷ e ∷ bs) =
    is_second b c && is_tail d && is_tail e
is_sequence _ b bs = false

-- The position of the first sequence that is not well formed. The fuel is the number of bytes left.
unfoldable pub utf8_error : ℕ → ℕ → List ℕ → Option ℕ
unfolding sequence_width is_sequence
utf8_error zero at bs = none
utf8_error (suc fuel) at [] = none
utf8_error (suc fuel) at (b ∷ bs) =
    let width = sequence_width b in
    let rest = utf8_error fuel (at + width) (drop (width - 1) bs) in
    if is_sequence width b bs then rest else some at

unfoldable pub from_utf8 : List ℕ → Result (List ℕ)
unfolding utf8_error
from_utf8 s = elim (utf8_error (length s) 0 s) [ none ↦ ok s | some at ↦ err (utf8 at) ]

ascii_no_error : (fuel at : ℕ) (s : List ℕ) → All (λ b. b < 128) s → utf8_error fuel at s ≡ none
unfolding utf8_error
ascii_no_error zero at s h = refl
ascii_no_error (suc fuel) at [] h = refl
ascii_no_error (suc fuel) at (b ∷ bs) h = ground (arith, ascii_no_error fuel (at + 1) bs h.1)

-- ASCII text is accepted as it is.
pub from_utf8_ascii : (s : List ℕ) → All (λ b. b < 128) s → from_utf8 s ≡ ok s
unfolding from_utf8
from_utf8_ascii s h = ground (arith, ascii_no_error (length s) 0 s h)

length-drop_le {ℓ} : {A : Type ℓ} (n : ℕ) (xs : List A) → length (drop n xs) ≤ length xs
length-drop_le zero xs = omega arith
length-drop_le (suc n) [] = omega arith
length-drop_le (suc n) (x ∷ xs) = omega (arith, length-drop_le n xs)

-- Fuel for every byte is enough: any two such amounts find the same error.
pub utf8_error_fuel :
    (fuel fuel' at : ℕ) (s : List ℕ)
    → length s ≤ fuel
    → length s ≤ fuel'
    → utf8_error fuel at s ≡ utf8_error fuel' at s
unfolding utf8_error
utf8_error_fuel zero zero at s h k = refl
utf8_error_fuel zero (suc fuel') at [] h k = refl
utf8_error_fuel zero (suc fuel') at (b ∷ bs) h k = absurd (omega (arith, h))
utf8_error_fuel (suc fuel) zero at [] h k = refl
utf8_error_fuel (suc fuel) zero at (b ∷ bs) h k = absurd (omega (arith, k))
utf8_error_fuel (suc fuel) (suc fuel') at [] h k = refl
utf8_error_fuel (suc fuel) (suc fuel') at (b ∷ bs) h k =
    let width = sequence_width b in
    let short = length-drop_le (width - 1) bs in
    let ih =
      utf8_error_fuel fuel fuel' (at + width) (drop (width - 1) bs) (omega (arith, short, h))
        (omega (arith, short, k)) in
    ap (λ x. if is_sequence width b bs then x else some at) ih
