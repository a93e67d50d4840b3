-- ===== src/Fabrics/DiscoveryLog/Laws.antt =====
-- The entries of a discovery log, the text of their character fields, and who owns the log's memory.
use libnvme_rs.Util.Utf8.{from_utf8}
use libnvme_rs.Base.{
  ℕ, zero, suc, ◌+◌, ◌*◌, ◌≤◌, ◌<◌, ◌≡◌, refl, ◌↔◌, ℤ, ap, ◌∙◌, subst, true, some, List, [], ◌∷◌,
  length, take, drop, arith, length-drop, ◌++◌, map, All, if◌then◌else◌, sym,
}
use libnvme_rs.Util.{until_nul, has_nul, trim_trailing_padding, cstr_to_str}
use libnvme_rs.Error.{ok, Result}
use libnvme_rs.Ffi.{Call, Libnvme, outcome, nvmf_get_discovery_log}
use libnvme_rs.Controller.{Controller}
use libnvme_rs.Root.{non_null}
use libnvme_rs.Root.Ownership.{owned, IsClean}
use libnvme_rs.Fabrics.DiscoveryLog.{
  DiscoveryLog, num_records, entry_size, entry_at, entries, entries_from, trsvcid_ptr, subnqn_ptr,
  traddr_ptr, log_from_raw, discovery_log, transport_service_id, subnqn, traddr,
}

-- A C string that is read from a memory ends within its first `w` bytes exactly if a NUL is among them.
until_nul_within_iff :
    (w : ℕ) (memory : List ℕ)
    → w ≤ length memory
    → (length (until_nul memory) < w) ↔ (has_nul (take w memory) ≡ true)
unfolding until_nul has_nul
until_nul_within_iff zero memory h = ground arith
until_nul_within_iff (suc w) [] h = elim h [ ]
until_nul_within_iff (suc w) (b ∷ memory) h =
    ground (arith, until_nul_within_iff w memory (omega arith))

-- The texts of an entry end inside their fields of 32, 256 and 256 bytes exactly if each field has a NUL of
-- its own; without one the text runs on into the bytes behind the field.
pub entry_texts_within_iff :
    (e : List ℕ)
    → 768 ≤ length e
    → ((length (until_nul (trsvcid_ptr e)) < 32) ↔ (has_nul (take 32 (trsvcid_ptr e)) ≡ true))
      × ((length (until_nul (subnqn_ptr e)) < 256) ↔ (has_nul (take 256 (subnqn_ptr e)) ≡ true))
      × ((length (until_nul (traddr_ptr e)) < 256) ↔ (has_nul (take 256 (traddr_ptr e)) ≡ true))
unfolding trsvcid_ptr subnqn_ptr traddr_ptr
entry_texts_within_iff e h = (
  until_nul_within_iff 32 (drop 32 e) (omega (arith, length-drop 32 e)),
  until_nul_within_iff 256 (drop 256 e) (omega (arith, length-drop 256 e)),
  until_nul_within_iff 256 (drop 512 e) (omega (arith, length-drop 512 e)),
)

drop-++ {ℓ} : {A : Type ℓ} (xs ys : List A) → drop (length xs) (xs ++ ys) ≡ ys
drop-++ [] ys = refl
drop-++ (x ∷ xs) ys = drop-++ xs ys

drop_append {ℓ} : {A : Type ℓ} (n : ℕ) (xs ys : List A) → length xs ≡ n → drop n (xs ++ ys) ≡ ys
drop_append n xs ys h = subst (λ k. drop k (xs ++ ys) ≡ ys) h (drop-++ xs ys)

take-++ {ℓ} : {A : Type ℓ} (xs ys : List A) → take (length xs) (xs ++ ys) ≡ xs
take-++ [] ys = refl
take-++ (x ∷ xs) ys = ap (λ r. x ∷ r) (take-++ xs ys)

take_append {ℓ} : {A : Type ℓ} (n : ℕ) (xs ys : List A) → length xs ≡ n → take n (xs ++ ys) ≡ xs
take_append n xs ys h = subst (λ k. take k (xs ++ ys) ≡ xs) h (take-++ xs ys)

drop_nil {ℓ} : {A : Type ℓ} (n : ℕ) → drop {A = A} n [] ≡ []
drop_nil zero = refl
drop_nil (suc n) = refl

drop-drop {ℓ} : {A : Type ℓ} (m n : ℕ) (xs : List A) → drop n (drop m xs) ≡ drop (m + n) xs
drop-drop zero n xs = ap (λ k. drop k xs) (omega arith)
drop-drop (suc m) n [] = drop_nil n ∙ sym (drop_nil (suc m + n))
drop-drop (suc m) n (x ∷ xs) =
    let next : suc (m + n) ≡ suc m + n = omega arith in
    drop-drop m n xs ∙ ap (λ k. drop k (x ∷ xs)) next

abbrev pub concat {ℓ} : {A : Type ℓ} → List (List A) → List A
concat [] = []
concat (xs ∷ xss) = xs ++ concat xss

entries_from_blocks :
    (log : DiscoveryLog) (start : ℕ) (blocks : List (List ℕ))
    → drop (entry_size + start * entry_size) log.memory ≡ concat blocks
    → All (λ b. length b ≡ entry_size) blocks
    → map (take entry_size) (entries_from log start (length blocks)) ≡ blocks
unfolding entry_at
entries_from_blocks log start [] h sized = refl
entries_from_blocks log start (b ∷ bs) h sized =
    let at = entry_size + start * entry_size in
    let first : take entry_size (drop at log.memory) ≡ b =
      ap (take entry_size) h ∙ take_append entry_size b (concat bs) sized.0 in
    let past : at + entry_size ≡ entry_size + suc start * entry_size = omega arith in
    let behind : drop (entry_size + suc start * entry_size) log.memory ≡ concat bs =
      ap (λ k. drop k log.memory) (sym past)
      ∙ sym (drop-drop at entry_size log.memory)
      ∙ ap (drop entry_size) h
      ∙ drop_append entry_size b (concat bs) sized.0 in
    let rest = entries_from_blocks log (suc start) bs behind sized.1 in
    ap (λ c. c ∷ map (take entry_size) (entries_from log (suc start) (length bs))) first
    ∙ ap (λ cs. b ∷ cs) rest

-- From a log of a header of 1024 bytes and blocks of 1024 bytes, as many as the header's record count says, the iterator
-- yields one entry for each block, in order, and the block is what stands in the first 1024 bytes of its entry.
pub entries_blocks :
    (log : DiscoveryLog) (header : List ℕ) (blocks : List (List ℕ))
    → log.memory ≡ header ++ concat blocks
    → length header ≡ 1024
    → All (λ b. length b ≡ 1024) blocks
    → num_records log ≡ length blocks
    → map (take 1024) (entries log) ≡ blocks
unfolding entries
entries_blocks log header blocks whole head sized counted = rw counted (
    entries_from_blocks log 0 blocks (rw whole (drop_append 1024 header (concat blocks) head))
      sized)

-- The text that begins in a field and, if no NUL is in the field, goes on in what is behind it.
abbrev pub running_text : List ℕ → List ℕ → List ℕ
running_text field behind = if has_nul field then until_nul field else field ++ until_nul behind

until_nul-append : (field behind : List ℕ) → until_nul (field ++ behind) ≡ running_text field behind
unfolding until_nul has_nul
until_nul-append [] behind = refl
until_nul-append (b ∷ bs) behind = ground (arith, until_nul-append bs behind)

-- What is behind the first `m + n` of a list, in two steps.
past :
    (xs : List ℕ) (m n : ℕ) {ys zs : List ℕ}
    → drop m xs ≡ ys
    → drop n ys ≡ zs
    → drop (m + n) xs ≡ zs
past xs m n h k = sym (drop-drop m n xs) ∙ ap (drop n) h ∙ k

-- The texts of an entry are those of the fields which `nvmf_disc_log_entry` has behind its first 32 bytes, 32 bytes
-- long, behind 192 more, 256 bytes long, and next to that: the text before the field's NUL, or, if the field has none, its bytes and
-- then the text that begins behind it.
pub entry_texts_run_on :
    (lead trsvcid_field reserved subnqn_field traddr_field rest : List ℕ)
    → length lead ≡ 32
    → length trsvcid_field ≡ 32
    → length reserved ≡ 192
    → length subnqn_field ≡ 256
    → let after_subnqn = traddr_field ++ rest in
      let after_trsvcid = reserved ++ (subnqn_field ++ after_subnqn) in
      let e = lead ++ (trsvcid_field ++ after_trsvcid) in
      let text : List ℕ → List ℕ → Result (List ℕ) =
        λ field behind. from_utf8 (trim_trailing_padding (running_text field behind)) in
      (transport_service_id e ≡ text trsvcid_field after_trsvcid)
      × (subnqn e ≡ text subnqn_field after_subnqn)
      × (traddr e ≡ text traddr_field rest)
unfolding transport_service_id subnqn traddr trsvcid_ptr subnqn_ptr traddr_ptr cstr_to_str
entry_texts_run_on lead trsvcid_field reserved subnqn_field traddr_field rest a b c d =
    let after_subnqn = traddr_field ++ rest in
    let after_reserved = subnqn_field ++ after_subnqn in
    let after_trsvcid = reserved ++ after_reserved in
    let e = lead ++ (trsvcid_field ++ after_trsvcid) in
    let at_trsvcid : drop 32 e ≡ trsvcid_field ++ after_trsvcid =
      drop_append 32 lead (trsvcid_field ++ after_trsvcid) a in
    let at_reserved : drop 64 e ≡ after_trsvcid =
      past e 32 32 at_trsvcid (drop_append 32 trsvcid_field after_trsvcid b) in
    let at_subnqn : drop 256 e ≡ after_reserved =
      past e 64 192 at_reserved (drop_append 192 reserved after_reserved c) in
    let at_traddr : drop 512 e ≡ after_subnqn =
      past e 256 256 at_subnqn (drop_append 256 subnqn_field after_subnqn d) in
    (
      rw (at_trsvcid, until_nul-append trsvcid_field after_trsvcid) refl,
      rw (at_subnqn, until_nul-append subnqn_field after_subnqn) refl,
      rw (at_traddr, until_nul-append traddr_field rest) refl,
    )

module _ (lib : Libnvme) (c : Controller) where
  fetched :
      (n : ℤ) (t t1 : List Call) (log : DiscoveryLog)
      → discovery_log lib c n t ≡ (ok log, t1)
      → let fetch = nvmf_get_discovery_log c.inner n in
        (t1 ≡ fetch ∷ t) × ((lib.answer t fetch).pointer ≡ some log.inner)
  unfolding discovery_log outcome log_from_raw non_null
  fetched n t t1 log h = ground (arith, h)

  -- A discovery log that was fetched is the caller's, in addition to what it owned before.
  pub discovery_log-owned :
      (n : ℤ) (t t1 : List Call) (log : DiscoveryLog)
      → discovery_log lib c n t ≡ (ok log, t1)
      → (owned lib t1 ≡ log.inner ∷ owned lib t) × (IsClean lib t → IsClean lib t1)
  discovery_log-owned n t t1 log h =
      let (e, p) = fetched n t t1 log h in rw (e, p) (refl, λ clean. (tt, clean))
