-- ===== src/Examples/Program/Invariants.antt =====
-- Invariants of the history of calls that a program of libnvme/examples keeps, however it ends.
use libnvme_rs.Base.{
  ℕ, zero, suc, ◌≡◌, refl, Bool, true, false, if◌then◌else◌, Option, none, some, List, [],
}
use libnvme_rs.Error.{Result}
use libnvme_rs.Ffi.{Call, Libnvme, M}
use libnvme_rs.Keeps.{Keeps}
use libnvme_rs.Root.{Root, drop_root}
use libnvme_rs.Examples.Program.{
  Outcome, done, exit, Program, ◌>>=◌, pure, question, run, assert, for_in, dropping,
}

pub record Preserves {A : Type 0} (P : List Call → Type 0) (m : Program A) : Type 0 where
  pub keeps : (t : List Call) → P t → P (m t).1

module _ {P : List Call → Type 0} where
  pub pure-Preserves : {A : Type 0} (a : A) → Preserves P (pure a)
  pure-Preserves a = record { keeps = λ t h. h }

  pub question-Preserves : {A : Type 0} (r : Result A) → Preserves P (question r)
  question-Preserves r = record { keeps = λ t h. h }

  pub run-Preserves : {A : Type 0} {m : M A} → Keeps P m → Preserves P (run m)
  unfolding run
  run-Preserves hm = record { keeps = hm.keeps }

  pub assert-Preserves : (b : Bool) → Preserves P (assert b)
  unfolding assert
  assert-Preserves true = record { keeps = λ t h. h }
  assert-Preserves false = record { keeps = λ t h. h }

  bind_from :
      {A B : Type 0} (f : A → Program B) (p : Outcome A × List Call)
      → ((a : A) → Preserves P (f a))
      → P p.1
      → P (((λ _. p) >>= f) []).1
  bind_from f (done a, t) hf g = (hf a).keeps t g
  bind_from f (exit e, t) hf g = g

  pub >>=-Preserves :
      {A B : Type 0} {m : Program A} {f : A → Program B}
      → Preserves P m
      → ((a : A) → Preserves P (f a))
      → Preserves P (m >>= f)
  >>=-Preserves {m} {f} hm hf = record { keeps = λ t h. bind_from f (m t) hf (hm.keeps t h) }

  pub if-Preserves :
      {A : Type 0} (b : Bool) {m n : Program A}
      → (b ≡ true → Preserves P m)
      → Preserves P n
      → Preserves P (if b then m else n)
  if-Preserves true hm hn = hm refl
  if-Preserves false hm hn = hn

  pub dropping-Preserves :
      {A : Type 0} (lib : Libnvme) (root : Root) {m : Program A}
      → Preserves P m
      → Keeps P (drop_root lib root)
      → Preserves P (dropping lib root m)
  unfolding dropping
  dropping-Preserves lib root {m} hm hd = record { keeps = λ t h. hd.keeps (m t).1 (hm.keeps t h) }

  -- A loop, with an invariant of the iterator that says what it yields.
  for_in_from :
      {S A B : Type 0} (Inv : S → Type 0) (next : S → Option A × S) (body : A → B → Program B)
      (k : ℕ) (b : B) (p : Option A × S)
      → ((a : A) → p.0 ≡ some a → ((b : B) → Preserves P (body a b)) × Inv p.1)
      → ((s : S) (b : B) → Inv s → Preserves P (for_in next body k s b))
      → Preserves P
          (elim p.0 [ none ↦ pure b | some a ↦ (body a b >>= λ b1. for_in next body k p.1 b1) ])
  for_in_from Inv next body k b (none, s) step rest = pure-Preserves b
  for_in_from Inv next body k b (some a, s) step rest =
      let (keeps_body, inv) = step a refl in >>=-Preserves (keeps_body b) (λ b1. rest s b1 inv)

  pub for_in-Preserves :
      {S A B : Type 0} (Inv : S → Type 0) (next : S → Option A × S) (body : A → B → Program B)
      → ((s : S) (a : A)
          → Inv s
          → (next s).0 ≡ some a
          → ((b : B) → Preserves P (body a b)) × Inv (next s).1)
      → (k : ℕ) (s : S) (b : B) → Inv s
      → Preserves P (for_in next body k s b)
  unfolding for_in
  for_in-Preserves Inv next body step zero s b inv = record { keeps = λ t h. h }
  for_in-Preserves Inv next body step (suc k) s b inv =
      for_in_from Inv next body k b (next s) (λ a e. step s a inv e)
        (λ s1 b1 i. for_in-Preserves Inv next body step k s1 b1 i)
