-- ===== src/Tree/Fields/Laws.antt =====
-- When a text of the tree is reported as missing, and what a text that is given has to do with libnvme's memory.
use libnvme_rs.Util.Laws.{IsPadding, trim_trailing_padding_drops}
use libnvme_rs.Base.{
  ℕ, ◌≡◌, ◌↔◌, refl, Option, none, some, List, arith, [], ◌∷◌, ◌++◌, All, ◌≤◌, ◌≢◌, Bool, true,
  false, if◌then◌else◌, ◌==◌, ap,
}
use libnvme_rs.Error.{err, not_available, ok}
use libnvme_rs.Util.{cstr_to_str, until_nul, trim_trailing_padding, is_content, is_ascii_whitespace}
use libnvme_rs.Util.Utf8.{from_utf8}

from_utf8-available : (s : List ℕ) → ¬ (from_utf8 s ≡ err not_available)
unfolding from_utf8
from_utf8-available s h = ground (arith, h)

-- A text is reported as not available exactly if libnvme gives NULL for it.
pub cstr_to_str-eq-not_available_iff :
    (memory : Option (List ℕ)) → (cstr_to_str memory ≡ err not_available) ↔ (memory ≡ none)
unfolding cstr_to_str
cstr_to_str-eq-not_available_iff none = (λ _. refl, λ _. refl)
cstr_to_str-eq-not_available_iff (some m) =
    (λ h. absurd (from_utf8-available (trim_trailing_padding (until_nul m)) h), λ h. cc)

from_utf8-eq-ok : (s text : List ℕ) → from_utf8 s ≡ ok text → text ≡ s
unfolding from_utf8
from_utf8-eq-ok s text h = ground (arith, h)

-- Nothing, or a NUL and what is behind it.
abbrev pub IsEnd : List ℕ → Type 0
IsEnd [] = Unit
IsEnd (b ∷ bs) = b ≡ 0

-- `front` is what stands before the end or the first NUL.
abbrev Splits : List ℕ → List ℕ → Type 0
Splits m front = (rest : List ℕ) × (m ≡ front ++ rest) × IsEnd rest × All (λ b. b ≢ 0) front

split_step :
    (b : ℕ) (bs : List ℕ) (c : Bool)
    → (b == 0) ≡ c
    → Splits bs (until_nul bs)
    → Splits (b ∷ bs) (if c then [] else b ∷ until_nul bs)
split_step b bs true e h = (b ∷ bs, refl, ground (arith, e), tt)
split_step b bs false e h =
    let (rest, split, at_end, no_nul) = h in
    (rest, ap (λ r. b ∷ r) split, at_end, (ground (arith, e), no_nul))

until_nul-Splits : (m : List ℕ) → Splits m (until_nul m)
unfolding until_nul
until_nul-Splits [] = ([], refl, tt, tt)
until_nul-Splits (b ∷ bs) = split_step b bs (b == 0) refl (until_nul-Splits bs)

padding_small : (pads : List ℕ) → All IsPadding pads → All (λ b. b ≤ 0x20) pads
unfolding is_content is_ascii_whitespace
padding_small [] h = tt
padding_small (b ∷ pads) h = (ground (arith, h.0), padding_small pads h.1)

-- A text that is read from libnvme's memory is, byte for byte, what stands there from its start on: the memory has the
-- text, bytes that are at most a space, and then its end or a NUL, before which no byte is one.
pub cstr_to_str_reads :
    (memory : Option (List ℕ)) (text : List ℕ)
    → cstr_to_str memory ≡ ok text
    → (m : List ℕ) × (pads : List ℕ) × (rest : List ℕ) × (memory ≡ some m)
      × (m ≡ (text ++ pads) ++ rest)
      × All (λ b. b ≤ 0x20) pads
      × All (λ b. b ≢ 0) (text ++ pads)
      × IsEnd rest
unfolding cstr_to_str
cstr_to_str_reads none text h = cc
cstr_to_str_reads (some m) text h =
    let (rest, split, at_end, no_nul) = until_nul-Splits m in
    let (pads, are_pads, trimmed) = trim_trailing_padding_drops (until_nul m) in
    let same = from_utf8-eq-ok (trim_trailing_padding (until_nul m)) text h in
    let whole : text ++ pads ≡ until_nul m = rw same trimmed in
    (m, pads, rest, refl, rw whole split, padding_small pads are_pads, rw whole no_nul, at_end)
