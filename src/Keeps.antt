-- ===== src/Keeps.antt =====
-- Invariants of the history of calls that a program of the crate keeps, one rule for each way to build a program.
use libnvme_rs.Base.{◌≡◌, refl, Bool, true, false, if◌then◌else◌, List, []}
use libnvme_rs.Error.{Result, ok, err}
use libnvme_rs.Ffi.{M, ◌>>=◌, lift, pure, Call}

-- `m` keeps `P`, whether it succeeds or fails.
pub record Keeps {A : Type 0} (P : List Call → Type 0) (m : M A) : Type 0 where
  pub keeps : (t : List Call) → P t → P (m t).1

module _ {P : List Call → Type 0} where
  bind_from :
      {A B : Type 0} (f : A → M B) (p : Result A × List Call)
      → ((a : A) → Keeps P (f a))
      → P p.1
      → P (((λ _. p) >>= f) []).1
  bind_from f (ok a, t1) hf g = (hf a).keeps t1 g
  bind_from f (err e, t1) hf g = g

  pub >>=-Keeps :
      {A B : Type 0} {m : M A} {f : A → M B}
      → Keeps P m
      → ((a : A) → Keeps P (f a))
      → Keeps P (m >>= f)
  >>=-Keeps {m} {f} hm hf = record { keeps = λ t h. bind_from f (m t) hf (hm.keeps t h) }

  pub lift->>=-Keeps :
      {A B : Type 0} {r : Result A} {f : A → M B}
      → ((a : A) → r ≡ ok a → Keeps P (f a))
      → Keeps P (lift r >>= f)
  lift->>=-Keeps {r = ok a} hf = record { keeps = λ t h. (hf a refl).keeps t h }
  lift->>=-Keeps {r = err e} hf = record { keeps = λ t h. h }

  pub pure-Keeps : {A : Type 0} (a : A) → Keeps P (pure a)
  pure-Keeps a = record { keeps = λ t h. h }

  pub if-Keeps :
      {A : Type 0} (b : Bool) {x y : M A} → Keeps P x → Keeps P y → Keeps P (if b then x else y)
  if-Keeps true hx hy = hx
  if-Keeps false hx hy = hy
