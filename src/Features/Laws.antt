-- ===== src/Features/Laws.antt =====
-- The host identifier of libnvme/src/features: the buffer is checked before libnvme is called.
use libnvme_rs.Keeps.{>>=-Keeps, Keeps}
use libnvme_rs.Base.{ℕ, ◌==◌, ◌≡◌, ◌≢◌, refl, Bool, true, false, if◌then◌else◌, List, length, arith}
use libnvme_rs.Error.{err, invalid_input}
use libnvme_rs.Ffi.{Libnvme, Call, M}
use libnvme_rs.Safety.{KeepsSafe, issue-KeepsSafe, hostid_size}
use libnvme_rs.Admin.{FeatureSelect}
use libnvme_rs.Controller.{Controller}
use libnvme_rs.Controller.Laws.{open_fd-KeepsSafe}
use libnvme_rs.Features.Get.{run_get, written, get_host_id}
use libnvme_rs.Features.Set.{run_set, set_host_id}

if_true-Keeps :
    {P : List Call → Type 0} {A : Type 0} (b : Bool) {x y : M A}
    → (b ≡ true → Keeps P x)
    → Keeps P y
    → Keeps P (if b then x else y)
if_true-Keeps true hx hy = hx refl
if_true-Keeps false hx hy = hy

if_eq-Keeps :
    {P : List Call → Type 0} {A : Type 0} (m n : ℕ) {x y : M A}
    → (m ≡ n → Keeps P x)
    → Keeps P y
    → Keeps P (if m == n then x else y)
if_eq-Keeps m n hx hy = if_true-Keeps (m == n) (λ e. hx (ground (arith, e))) hy

module _ (lib : Libnvme) (c : Controller) where
  -- The host identifier is read into a buffer of the size that its kind has, and libnvme is told that size.
  pub get_host_id-KeepsSafe :
      (sel : FeatureSelect) (exhid : Bool) (hostid : List ℕ)
      → KeepsSafe lib (get_host_id lib c sel exhid hostid)
  unfolding get_host_id run_get
  get_host_id-KeepsSafe sel exhid hostid =
      if_eq-Keeps (length hostid) (if exhid then 16 else 8)
        (λ e.
          >>=-Keeps (open_fd-KeepsSafe lib c)
            λ fd. issue-KeepsSafe lib _ (written hostid) tt (omega (arith, e), omega arith))
        (record { keeps = λ t h. h })

  -- The host identifier is written from a buffer of the size that its kind has.
  pub set_host_id-KeepsSafe :
      (exhid save : Bool) (hostid : List ℕ) → KeepsSafe lib (set_host_id lib c exhid save hostid)
  unfolding set_host_id run_set
  set_host_id-KeepsSafe exhid save hostid =
      if_eq-Keeps (length hostid) (if exhid then 16 else 8)
        (λ e.
          >>=-Keeps (open_fd-KeepsSafe lib c) λ fd. issue-KeepsSafe lib _ _ tt (omega (arith, e)))
        (record { keeps = λ t h. h })

  -- A buffer of another size than the host identifier is refused before libnvme is called, whether it is to be read
  -- or written.
  pub host_id_refuses :
      (sel : FeatureSelect) (exhid save : Bool) (hostid : List ℕ) (t : List Call)
      → length hostid ≢ hostid_size exhid
      → (get_host_id lib c sel exhid hostid t ≡ (err invalid_input, t))
        × (set_host_id lib c exhid save hostid t ≡ (err invalid_input, t))
  unfolding get_host_id set_host_id
  host_id_refuses sel exhid save hostid t h = (ground arith, ground arith)
