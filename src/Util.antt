-- ===== src/Util.antt =====
-- libnvme/src/util.rs: C strings and padded fields as text. A `&str` is the list of its bytes, and
-- a pointer to a C string the bytes from there on, of which those before the first NUL count.
pub mod Utf8
pub mod Laws
use Utf8.{from_utf8}
use libnvme_rs.Base.{
  ℕ, suc, ◌+◌, Bool, not, ◌&&◌, ◌||◌, ◌==◌, if◌then◌else◌, Option, none, some, List, [], ◌∷◌, ◌++◌,
  take,
}
use libnvme_rs.Error.{Result, ok, err, not_available, invalid_argument, interior_nul}

-- `u8::is_ascii_whitespace`: space, tab, line feed, form feed and carriage return.
unfoldable pub is_ascii_whitespace : ℕ → Bool
is_ascii_whitespace b = b == 0x20 || b == 0x09 || b == 0x0a || b == 0x0c || b == 0x0d

-- `iter().rposition(p)`: the index of the last element with `p`.
unfoldable pub rposition : (ℕ → Bool) → List ℕ → Option ℕ
rposition p [] = none
rposition p (b ∷ bs) = elim (rposition p bs) [
  | some i ↦ some (suc i)
  | none ↦ if p b then some 0 else none
]

-- The test of `trim_trailing_padding`.
unfoldable pub is_content : ℕ → Bool
is_content b = not (b == 0) && not (is_ascii_whitespace b)

unfoldable pub trim_trailing_padding : List ℕ → List ℕ
trim_trailing_padding s = take (elim (rposition is_content s) [ none ↦ 0 | some i ↦ i + 1 ]) s

-- `CStr::from_ptr(ptr).to_bytes()`
unfoldable pub until_nul : List ℕ → List ℕ
until_nul [] = []
until_nul (b ∷ bs) = if b == 0 then [] else b ∷ until_nul bs

unfoldable pub cstr_to_str : Option (List ℕ) → Result (List ℕ)
cstr_to_str none = err not_available
cstr_to_str (some memory) = from_utf8 (trim_trailing_padding (until_nul memory))

unfoldable pub fixed_ascii_to_str : List ℕ → Result (List ℕ)
fixed_ascii_to_str bytes = from_utf8 (trim_trailing_padding bytes)

unfoldable pub has_nul : List ℕ → Bool
has_nul [] = Bool.false
has_nul (b ∷ bs) = b == 0 || has_nul bs

-- `str_to_cstring`: the memory of the `CString`, its NUL included. The message is the caller's.
unfoldable pub str_to_cstring : List ℕ → Result (List ℕ)
str_to_cstring s = if has_nul s then err (invalid_argument interior_nul) else ok (s ++ 0 ∷ [])
