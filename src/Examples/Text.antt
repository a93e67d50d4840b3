-- ===== src/Examples/Text.antt =====
-- What libnvme/examples/{format_smoke,io_smoke}.rs use of `str` and `Vec`: `trim`, comparison, and the model that they
-- look for. A text is the list of its bytes.
use libnvme_rs.Base.{
  ℕ, zero, suc, ◌≡◌, Bool, true, false, ◌&&◌, ◌||◌, ◌==◌, leb, if◌then◌else◌, List, [], ◌∷◌, length,
  drop, arith, refl,
}
use mathlib.Core.List.{reverse}

-- The characters with the property White_Space: how many bytes one of them has in UTF-8, at the front of a
-- text. 0 if the text begins with another character.
is_ascii_space : ℕ → Bool
is_ascii_space b = b == 0x20 || leb 0x09 b && leb b 0x0d

-- U+0085 and U+00A0.
is_latin_space : ℕ → ℕ → Bool
is_latin_space a b = a == 0xc2 && (b == 0x85 || b == 0xa0)

-- U+1680, U+2000 to U+200A, U+2028, U+2029, U+202F, U+205F and U+3000.
is_wide_space : ℕ → ℕ → ℕ → Bool
is_wide_space a b c =
    a == 0xe1 && b == 0x9a && c == 0x80
    || a == 0xe2 && b == 0x80 && (leb 0x80 c && leb c 0x8a || c == 0xa8 || c == 0xa9 || c == 0xaf)
    || a == 0xe2 && b == 0x81 && c == 0x9f
    || a == 0xe3 && b == 0x80 && c == 0x80

-- The width at the front of a text, and at its end when the text is reversed.
space_ahead : List ℕ → ℕ
unfolding is_ascii_space is_latin_space is_wide_space
space_ahead [] = 0
space_ahead (a ∷ []) = if is_ascii_space a then 1 else 0
space_ahead (a ∷ b ∷ []) = if is_ascii_space a then 1 else if is_latin_space a b then 2 else 0
space_ahead (a ∷ b ∷ c ∷ s) =
    if is_ascii_space a
    then 1
    else if is_latin_space a b
    then 2
    else if is_wide_space a b c
    then 3
    else 0

space_behind : List ℕ → ℕ
unfolding is_ascii_space is_latin_space is_wide_space
space_behind [] = 0
space_behind (a ∷ []) = if is_ascii_space a then 1 else 0
space_behind (a ∷ b ∷ []) = if is_ascii_space a then 1 else if is_latin_space b a then 2 else 0
space_behind (a ∷ b ∷ c ∷ s) =
    if is_ascii_space a
    then 1
    else if is_latin_space b a
    then 2
    else if is_wide_space c b a
    then 3
    else 0

-- One character in each round, so that the length of the text is fuel enough.
strip : (List ℕ → ℕ) → ℕ → List ℕ → List ℕ
strip width zero s = s
strip width (suc k) s =
    let rest = strip width k (drop (width s) s) in if width s == 0 then s else rest

-- `str::trim`
unfoldable pub trim : List ℕ → List ℕ
unfolding strip space_ahead space_behind
trim s =
    let front = strip space_ahead (length s) s in
    reverse (strip space_behind (length front) (reverse front))

-- `==` of texts and of vectors of bytes.
unfoldable pub bytes_eq : List ℕ → List ℕ → Bool
bytes_eq [] [] = true
bytes_eq (a ∷ s) (b ∷ t) = a == b && bytes_eq s t
bytes_eq _ _ = false

pub bytes_eq_sound : (s t : List ℕ) → bytes_eq s t ≡ true → s ≡ t
unfolding bytes_eq
bytes_eq_sound [] [] h = refl
bytes_eq_sound [] (b ∷ t) h = cc
bytes_eq_sound (a ∷ s) [] h = cc
bytes_eq_sound (a ∷ s) (b ∷ t) h = ground (arith, bytes_eq_sound s t)

pub bytes_eq_refl : (s : List ℕ) → bytes_eq s s ≡ true
unfolding bytes_eq
bytes_eq_refl [] = refl
bytes_eq_refl (a ∷ s) = ground (arith, bytes_eq_refl s)

-- `iter().all(|&b| b == 0)`
unfoldable pub all_zero : List ℕ → Bool
all_zero [] = true
all_zero (b ∷ s) = b == 0 && all_zero s

-- `QEMU_MODEL`: "QEMU NVMe Ctrl"
abbrev pub qemu_model : List ℕ
qemu_model =
    b'Q' ∷ b'E' ∷ b'M' ∷ b'U' ∷ b' ' ∷ b'N' ∷ b'V' ∷ b'M' ∷ b'e' ∷ b' ' ∷ b'C' ∷ b't' ∷ b'r' ∷ b'l'
    ∷ []

padded_model :
    trim (b' ' ∷ b'Q' ∷ b'x' ∷ 0xe3 ∷ 0x80 ∷ 0x80 ∷ 0xc2 ∷ 0xa0 ∷ b' ' ∷ []) ≡ b'Q' ∷ b'x' ∷ []
unfolding trim
padded_model = refl
