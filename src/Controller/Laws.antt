-- ===== src/Controller/Laws.antt =====
-- What the admin commands of libnvme/src/controller.rs pass to libnvme, and what they return.
use libnvme_rs.Keeps.{lift->>=-Keeps, >>=-Keeps, if-Keeps}
use libnvme_rs.Headers.ApiTypes.{NvmeGetLogArgs}
use libnvme_rs.Base.{
  ℕ, ◌-◌, ◌*◌, ◌^◌, ◌≤◌, ◌<◌, ◌≡◌, refl, ◌↔◌, ℤ, List, [], ◌∷◌, length, get_elem?, Bool, true,
  false, if◌then◌else◌, ◌⊎◌, inl, inr, ap, sym, ◌∙◌, u32, length-replicate, length-append,
  length-overwrite, get_elem?-append_left, arith, ◌==◌,
}
use libnvme_rs.Error.{Result, ok, err, invalid_argument, too_many_controllers}
use libnvme_rs.Ffi.{
  Libnvme, M, Call, Reply, ◌>>=◌, pure, lift, call, issue, outcome, >>=-eq-ok, nvme_get_log,
  nvme_ns_attach,
}
use libnvme_rs.Safety.{IsSafe, KeepsSafe, issue-KeepsSafe}
use libnvme_rs.Controller.{
  Controller, open_fd, get_log_page, raw_get_log_args, filled, error_entry_size, all_namespaces,
  entries_len, fetch_error_log, error_log, zeros, ctrl_list, check_controllers, raw_ns_attach_args,
  ns_attach_op,
}

length-zeros : (n : ℕ) → length (zeros n) ≡ n
length-zeros n = length-replicate n 0

length-filled : (len : ℕ) (buf : List ℕ) (r : Reply) → length (filled len buf r) ≡ length buf
unfolding filled
length-filled len buf r = length-overwrite len buf r.data_bytes

-- The length that the error log announces is that of all its entries exactly when fewer than 2^26 are
-- asked for.
pub entries_len_iff :
    (max_entries n : ℕ)
    → entries_len max_entries ≡ ok n
    → (u32 n ≡ error_entry_size * max_entries) ↔ (max_entries < 2 ^ 26)
unfolding entries_len
entries_len_iff max_entries n h = ground arith

entries_len-value :
    (max_entries n : ℕ) → entries_len max_entries ≡ ok n → n ≡ error_entry_size * max_entries
unfolding entries_len
entries_len-value max_entries n h = ground arith

check_controllers_iff : (ids : List ℕ) → (check_controllers ids ≡ ok tt) ↔ (length ids ≤ 2047)
unfolding check_controllers
check_controllers_iff ids = ground arith

if-cases :
    {A : Type 0} (b : Bool) (x y : M A) (t : List Call) {p : Result A × List Call}
    → (if b then x else y) t ≡ p
    → ((b ≡ true) × (x t ≡ p)) ⊎ (y t ≡ p)
if-cases true x y t h = inl (refl, h)
if-cases false x y t h = inr h

zero_or_not : (n : ℕ) → 0 < n → ¬ ((n == 0) ≡ true)
zero_or_not n h e = ground (arith, h, e)

module _ (lib : Libnvme) (c : Controller) where
  pub open_fd-KeepsSafe : KeepsSafe lib (open_fd lib c)
  unfolding open_fd
  open_fd-KeepsSafe = record { keeps = λ t h. (tt, tt, h) }

  log_args-IsSafe :
      (fd : ℤ) (lid nsid size n : ℕ)
      → n ≡ size
      → IsSafe (nvme_get_log (raw_get_log_args lib fd lid nsid (zeros size) (u32 n)))
  unfolding raw_get_log_args
  log_args-IsSafe fd lid nsid size n e = omega (arith, e, length-zeros size)

  -- A log page is read into a buffer of the size that libnvme is told of.
  pub get_log_page-KeepsSafe :
      (size lid nsid : ℕ) → KeepsSafe lib (get_log_page lib c size lid nsid)
  unfolding get_log_page
  get_log_page-KeepsSafe size lid nsid = >>=-Keeps open_fd-KeepsSafe λ fd.
      issue-KeepsSafe lib (nvme_get_log (raw_get_log_args lib fd lid nsid (zeros size) (u32 size)))
        (filled (u32 size) (zeros size)) tt (log_args-IsSafe fd lid nsid size size refl)

  fetch_error_log-KeepsSafe : (max_entries : ℕ) → KeepsSafe lib (fetch_error_log lib c max_entries)
  unfolding fetch_error_log
  fetch_error_log-KeepsSafe max_entries =
      let size = error_entry_size * max_entries in
      >>=-Keeps open_fd-KeepsSafe λ fd. lift->>=-Keeps λ n e.
        issue-KeepsSafe lib
          (nvme_get_log (raw_get_log_args lib fd 0x01 all_namespaces (zeros size) (u32 n)))
          (filled (u32 n) (zeros size)) tt
          (log_args-IsSafe fd 0x01 all_namespaces size n (entries_len-value max_entries n e))

  -- The error log is read into a buffer at least as long as libnvme is told, however many entries are
  -- asked for.
  pub error_log-KeepsSafe : (max_entries : ℕ) → KeepsSafe lib (error_log lib c max_entries)
  unfolding error_log
  error_log-KeepsSafe max_entries =
      if-Keeps (max_entries == 0) (record { keeps = λ t h. h })
        (fetch_error_log-KeepsSafe max_entries)

  issue-eq-ok :
      (call : Call) (g : Reply → List ℕ) (t : List Call) {a : List ℕ} {t' : List Call}
      → issue lib call g t ≡ (ok a, t')
      → (r : Reply) × (g r ≡ a)
  unfolding issue outcome
  issue-eq-ok call g t h = (lib.answer t call, ground (arith, h))

  fetch_error_log-length :
      (max_entries : ℕ) (t : List Call) (entries : List ℕ) (t' : List Call)
      → fetch_error_log lib c max_entries t ≡ (ok entries, t')
      → length entries ≡ error_entry_size * max_entries
  unfolding fetch_error_log
  fetch_error_log-length max_entries t entries t' h =
      let size = error_entry_size * max_entries in
      let read : ℤ → ℕ → M (List ℕ) = λ fd n.
        issue lib (nvme_get_log (raw_get_log_args lib fd 0x01 all_namespaces (zeros size) (u32 n)))
          (filled (u32 n) (zeros size)) in
      let (fd, t1, _, h1) =
        >>=-eq-ok (open_fd lib c) (λ fd. lift (entries_len max_entries) >>= read fd) t h in
      let (n, t2, _, h2) = >>=-eq-ok (lift (entries_len max_entries)) (read fd) t1 h1 in
      let (r, e) =
        issue-eq-ok
          (nvme_get_log (raw_get_log_args lib fd 0x01 all_namespaces (zeros size) (u32 n)))
          (filled (u32 n) (zeros size)) t2 h2 in
      ap length (sym e) ∙ length-filled (u32 n) (zeros size) r ∙ length-zeros size

  -- Every read of the error log that succeeds returns all the entries that were asked for.
  pub error_log_length :
      (max_entries : ℕ) (t : List Call) (entries : List ℕ) (t' : List Call)
      → error_log lib c max_entries t ≡ (ok entries, t')
      → length entries ≡ error_entry_size * max_entries
  unfolding error_log
  error_log_length max_entries t entries t' h =
      elim (if-cases (max_entries == 0) (pure []) (fetch_error_log lib c max_entries) t h) [
        | inl (e, q) ↦ ground (arith, e, q)
        | inr q ↦ fetch_error_log-length max_entries t entries t' q
      ]

  issue_made :
      (call : Call) (g : Reply → List ℕ) (t : List Call) {a : List ℕ} {t' : List Call}
      → issue lib call g t ≡ (ok a, t')
      → t' ≡ call ∷ t
  unfolding issue
  issue_made call g t h = sym (ap (λ p. p.1) h)

  -- The latest call is one for a log page, and announces `len` bytes.
  abbrev pub Announces : List Call → ℕ → Type 0
  Announces t len =
      (args : NvmeGetLogArgs) × (t1 : List Call) × (t ≡ nvme_get_log args ∷ t1) × (args.len ≡ len)

  fetch_error_log-Announces :
      (max_entries : ℕ) (t : List Call) (entries : List ℕ) (t' : List Call)
      → fetch_error_log lib c max_entries t ≡ (ok entries, t')
      → Announces t' (u32 (error_entry_size * max_entries))
  unfolding fetch_error_log raw_get_log_args
  fetch_error_log-Announces max_entries t entries t' h =
      let size = error_entry_size * max_entries in
      let ask : ℤ → ℕ → Call =
        λ fd n. nvme_get_log (raw_get_log_args lib fd 0x01 all_namespaces (zeros size) (u32 n)) in
      let read : ℤ → ℕ → M (List ℕ) = λ fd n. issue lib (ask fd n) (filled (u32 n) (zeros size)) in
      let (fd, t1, _, h1) =
        >>=-eq-ok (open_fd lib c) (λ fd. lift (entries_len max_entries) >>= read fd) t h in
      let (n, t2, e, h2) = >>=-eq-ok (lift (entries_len max_entries)) (read fd) t1 h1 in
      let counted = entries_len-value max_entries n (ap (λ p. p.0) e) in
      (
        raw_get_log_args lib fd 0x01 all_namespaces (zeros size) (u32 n),
        t2,
        issue_made (ask fd n) (filled (u32 n) (zeros size)) t2 h2,
        ap u32 counted,
      )

  -- A read of the error log for one or more entries that succeeds returns all the entries that were asked for, and the
  -- length that its last call announced to libnvme is that of what it returns exactly when fewer than 2^26 were asked for.
  pub error_log-Announces_iff :
      (max_entries : ℕ) (t : List Call) (entries : List ℕ) (t' : List Call)
      → 0 < max_entries
      → error_log lib c max_entries t ≡ (ok entries, t')
      → (length entries ≡ 64 * max_entries)
        × ((len : ℕ) × Announces t' len × ((len ≡ length entries) ↔ (max_entries < 2 ^ 26)))
  unfolding error_log
  error_log-Announces_iff max_entries t entries t' some_entry h =
      let whole = error_log_length max_entries t entries t' h in
      let len = u32 (error_entry_size * max_entries) in
      let fetched : Announces t' len =
        elim (if-cases (max_entries == 0) (pure []) (fetch_error_log lib c max_entries) t h) [
          | inl (e, q) ↦ absurd (zero_or_not max_entries some_entry e)
          | inr q ↦ fetch_error_log-Announces max_entries t entries t' q
        ] in
      (whole, (len, fetched, ground (arith, whole)))

  -- A list of more than 2047 controllers is refused before libnvme is called.
  pub ns_attach_op_refuses :
      (nsid : ℕ) (ids : List ℕ) (sel : ℕ) (t : List Call)
      → 2047 < length ids
      → ns_attach_op lib c nsid ids sel t ≡ (err (invalid_argument too_many_controllers), t)
  unfolding ns_attach_op check_controllers
  ns_attach_op_refuses nsid ids sel t h = ground arith

  attach_args-IsSafe :
      (fd : ℤ) (nsid : ℕ) (ids : List ℕ) (sel : ℕ)
      → length ids ≤ 2047
      → IsSafe (nvme_ns_attach (raw_ns_attach_args lib fd nsid ids sel))
  unfolding raw_ns_attach_args ctrl_list
  attach_args-IsSafe fd nsid ids sel h =
      let pad = 2047 - length ids in
      (omega (arith, length-append ids (zeros pad), length-zeros pad), omega arith)

  -- Attaching and detaching pass a controller list of the wire format, whatever the caller's list.
  pub ns_attach_op-KeepsSafe :
      (nsid : ℕ) (ids : List ℕ) (sel : ℕ) → KeepsSafe lib (ns_attach_op lib c nsid ids sel)
  unfolding ns_attach_op
  ns_attach_op-KeepsSafe nsid ids sel = lift->>=-Keeps λ _ e. >>=-Keeps open_fd-KeepsSafe λ fd.
      issue-KeepsSafe lib (nvme_ns_attach (raw_ns_attach_args lib fd nsid ids sel)) (λ _. tt) tt
        (attach_args-IsSafe fd nsid ids sel ((check_controllers_iff ids).0 e))

-- The list that is passed names just the caller's controllers: their number, and each in its place.
pub ctrl_list_lem :
    (ids : List ℕ) (i : ℕ)
    → length ids ≤ 2047
    → i < length ids
    → ((ctrl_list ids).num ≡ length ids)
      × (get_elem? (ctrl_list ids).identifier i ≡ get_elem? ids i)
unfolding ctrl_list
ctrl_list_lem ids i h k = (omega arith, get_elem?-append_left ids (zeros (2047 - length ids)) i k)
