-- ===== src/Util/Laws.antt =====
-- What the text helpers of libnvme/src/util.rs keep of their input.
use libnvme_rs.Base.{
  ℕ, zero, suc, ◌+◌, ◌<◌, ◌≡◌, refl, ap, sym, ◌∙◌, ◌↔◌, Bool, true, false, if◌then◌else◌, Option,
  none, some, List, [], ◌∷◌, ◌++◌, ◌⊎◌, take, drop, length, All, arith,
}
use libnvme_rs.Error.{ok}
use libnvme_rs.Util.{
  rposition, is_content, is_ascii_whitespace, trim_trailing_padding, until_nul, cstr_to_str,
  fixed_ascii_to_str, has_nul, str_to_cstring,
}
use native.Mathlib.Numerals.{unary_clauses}
use libnvme_rs.Util.Utf8.{from_utf8_ascii}

-- A byte that the trim removes at the end: NUL or ASCII whitespace.
abbrev pub IsPadding : ℕ → Type 0
IsPadding b = is_content b ≡ false

-- Text whose last byte, if any, is not padding.
abbrev pub EndsInContent : List ℕ → Type 0
EndsInContent [] = Unit
EndsInContent (b ∷ []) = is_content b ≡ true
EndsInContent (b ∷ c ∷ bs) = EndsInContent (c ∷ bs)

-- How much of the input is kept, by the position of its last byte of content.
abbrev kept : Option ℕ → ℕ
kept p = elim p [ none ↦ 0 | some i ↦ i + 1 ]

dropped_step :
    (b : ℕ) (bs : List ℕ) (p : Option ℕ) (c : Bool)
    → is_content b ≡ c
    → All IsPadding (drop (kept p) bs)
    → All IsPadding (
        drop (kept (elim p [ some i ↦ some (suc i) | none ↦ if c then some 0 else none ])) (b ∷ bs))
dropped_step b bs none true e h = h
dropped_step b bs none false e h = (e, h)
dropped_step b bs (some i) c e h = simp unary_clauses (simp unary_clauses at h)

dropped-IsPadding : (s : List ℕ) → All IsPadding (drop (kept (rposition is_content s)) s)
unfolding rposition
dropped-IsPadding [] = tt
dropped-IsPadding (b ∷ bs) =
    dropped_step b bs (rposition is_content bs) (is_content b) refl (dropped-IsPadding bs)

take-++-drop : (n : ℕ) (s : List ℕ) → take n s ++ drop n s ≡ s
take-++-drop zero s = refl
take-++-drop (suc n) [] = refl
take-++-drop (suc n) (b ∷ bs) = ap (λ r. b ∷ r) (take-++-drop n bs)

-- What the trim removes from the end of its input is NULs and ASCII whitespace only.
pub trim_trailing_padding_drops :
    (s : List ℕ) → (pads : List ℕ) × All IsPadding pads × (trim_trailing_padding s ++ pads ≡ s)
unfolding trim_trailing_padding
trim_trailing_padding_drops s =
    let n = kept (rposition is_content s) in (drop n s, dropped-IsPadding s, take-++-drop n s)

no_content : (pads : List ℕ) → All IsPadding pads → rposition is_content pads ≡ none
unfolding rposition
no_content [] h = refl
no_content (b ∷ bs) h = ground (arith, no_content bs h.1, h.0)

last_content :
    (b : ℕ) (bs pads : List ℕ)
    → EndsInContent (b ∷ bs)
    → All IsPadding pads
    → rposition is_content ((b ∷ bs) ++ pads) ≡ some (length bs)
unfolding rposition
last_content b [] pads e h = ground (arith, no_content pads h, e)
last_content b (c ∷ bs) pads e h = ground (arith, last_content c bs pads e h)

take-++ : (s t : List ℕ) → take (length s) (s ++ t) ≡ s
take-++ [] t = refl
take-++ (b ∷ bs) t = ap (λ r. b ∷ r) (take-++ bs t)

take_all : (b : ℕ) (bs t : List ℕ) → take (length bs + 1) ((b ∷ bs) ++ t) ≡ b ∷ bs
take_all b bs t = simp unary_clauses (take-++ (b ∷ bs) t)

-- Text that does not itself end in padding is what the trim gives back, whatever padding follows it.
pub trim_trailing_padding_append :
    (text pads : List ℕ)
    → EndsInContent text
    → All IsPadding pads
    → trim_trailing_padding (text ++ pads) ≡ text
unfolding trim_trailing_padding
trim_trailing_padding_append [] pads e h = rw (no_content pads h)
trim_trailing_padding_append (b ∷ bs) pads e h = rw (last_content b bs pads e h, take_all b bs pads)

-- NUL or a space, with which NVMe pads its fields.
abbrev pub IsNulOrSpace : ℕ → Type 0
IsNulOrSpace b = (b ≡ 0) ⊎ (b ≡ 0x20)

-- ASCII whose last byte, if any, is above the space.
abbrev pub EndsInGraphic : List ℕ → Type 0
EndsInGraphic [] = Unit
EndsInGraphic (b ∷ []) = 0x20 < b
EndsInGraphic (b ∷ c ∷ bs) = EndsInGraphic (c ∷ bs)

NulOrSpace-IsPadding : (pads : List ℕ) → All IsNulOrSpace pads → All IsPadding pads
unfolding is_content is_ascii_whitespace
NulOrSpace-IsPadding [] h = tt
NulOrSpace-IsPadding (b ∷ pads) h = (ground (arith, h.0), NulOrSpace-IsPadding pads h.1)

Graphic-EndsInContent : (text : List ℕ) → EndsInGraphic text → EndsInContent text
unfolding is_content is_ascii_whitespace
Graphic-EndsInContent [] h = tt
Graphic-EndsInContent (b ∷ []) h = ground (arith, h)
Graphic-EndsInContent (b ∷ c ∷ bs) h = Graphic-EndsInContent (c ∷ bs) h

-- A fixed-width field that holds ASCII text, padded at its end with NULs or spaces, is read as the text, if the text is
-- empty or ends in a byte above the space.
pub fixed_ascii_to_str_round_trip :
    (text pads : List ℕ)
    → All (λ b. b < 128) text
    → EndsInGraphic text
    → All IsNulOrSpace pads
    → fixed_ascii_to_str (text ++ pads) ≡ ok text
unfolding fixed_ascii_to_str
fixed_ascii_to_str_round_trip text pads a e h = rw (
  trim_trailing_padding_append text pads (Graphic-EndsInContent text e)
      (NulOrSpace-IsPadding pads h),
  from_utf8_ascii text a,
)

++_nil : (s : List ℕ) → s ++ [] ≡ s
++_nil [] = refl
++_nil (b ∷ bs) = ap (λ r. b ∷ r) (++_nil bs)

until_nul-append : (s rest : List ℕ) → has_nul s ≡ false → until_nul (s ++ 0 ∷ rest) ≡ s
unfolding until_nul has_nul
until_nul-append [] rest h = refl
until_nul-append (b ∷ bs) rest h = ground (arith, until_nul-append bs rest)

-- A string becomes a C string exactly when it has no NUL inside.
pub str_to_cstring_iff :
    (s memory : List ℕ)
    → (str_to_cstring s ≡ ok memory) ↔ ((has_nul s ≡ false) × (memory ≡ s ++ 0 ∷ []))
unfolding str_to_cstring
str_to_cstring_iff s memory = ground arith

-- ASCII text without a NUL that does not end in padding survives the way to a C string and back.
pub cstr_to_str-str_to_cstring :
    (s memory : List ℕ)
    → All (λ b. b < 128) s
    → EndsInContent s
    → str_to_cstring s ≡ ok memory
    → cstr_to_str (some memory) ≡ ok s
unfolding cstr_to_str
cstr_to_str-str_to_cstring s memory a e h =
    let (clean, same) = (str_to_cstring_iff s memory).0 h in
    let trimmed =
      ap trim_trailing_padding (sym (++_nil s)) ∙ trim_trailing_padding_append s [] e tt in
    rw (same, until_nul-append s [] clean, trimmed, from_utf8_ascii s a)
