-- ===== src/Examples/Program/Laws.antt =====
-- Programs of libnvme/examples that do not end in a given way, one rule for each way to build a program.
use libnvme_rs.Base.{
  ℕ, zero, suc, ◌<◌, ◌≡◌, ◌≢◌, refl, ap, Bool, true, false, if◌then◌else◌, Option, none, some, List,
  [], ◌∷◌, length, All, arith,
}
use libnvme_rs.Error.{Error, Result, ok, err}
use libnvme_rs.Ffi.{Handle, Call, Libnvme, M}
use libnvme_rs.Root.{Root}
use libnvme_rs.Tree.Cursor.{Cursor, Chain}
use libnvme_rs.Examples.Program.{
  Exit, failed, panicked, endless, Outcome, done, exit, outcome_of, Program, ◌>>=◌, pure, question,
  run, assert, for_in, dropping,
}

-- The ends that are no error of the crate.
pub data IsFatal : Exit → Type 0 where
  panics : IsFatal panicked
  runs_on : IsFatal endless

failed-not-fatal : {e : Exit} → IsFatal e → (x : Error) → failed x ≢ e
failed-not-fatal panics x h = cc
failed-not-fatal runs_on x h = cc

-- From any history, `m` does not end in `e`.
pub record Avoids {A : Type 0} (e : Exit) (m : Program A) : Type 0 where
  pub avoids : (t : List Call) → (m t).0 ≢ exit e

pub for_in_end :
    {S A B : Type 0} (next : S → Option A × S) (body : A → B → Program B) (k : ℕ) (s : S) (b : B)
    {s1 : S}
    → next s ≡ (none, s1)
    → for_in next body (suc k) s b ≡ pure b
unfolding for_in
for_in_end next body k s b h = rw (h, for_in) refl

pub for_in_item :
    {S A B : Type 0} (next : S → Option A × S) (body : A → B → Program B) (k : ℕ) (s : S) (b : B)
    {s1 : S} {a : A}
    → next s ≡ (some a, s1)
    → for_in next body (suc k) s b ≡ (body a b >>= λ b1. for_in next body k s1 b1)
unfolding for_in
for_in_item {S} {A} {B} next body k s b h =
    let enter : Option A × S → Program B =
      λ p. elim p.0 [ none ↦ pure b | some a ↦ (body a b >>= λ b1. for_in next body k p.1 b1) ] in
    ap enter h

module _ {e : Exit} where
  pub pure-Avoids : {A : Type 0} (a : A) → Avoids e (pure a)
  pure-Avoids a = record { avoids = λ t h. cc }

  bind_from :
      {A B : Type 0} (f : A → Program B) (p : Outcome A × List Call)
      → p.0 ≢ exit e
      → ((a : A) → p.0 ≡ done a → (f a p.1).0 ≢ exit e)
      → (((λ _. p) >>= f) []).0 ≢ exit e
  bind_from f (done a, t) first next = next a refl
  bind_from f (exit x, t) first next = λ h. first (cc)

  pub >>=-Avoids :
      {A B : Type 0} {m : Program A} {f : A → Program B}
      → Avoids e m
      → ((a : A) → Avoids e (f a))
      → Avoids e (m >>= f)
  >>=-Avoids {m} {f} hm hf = record {
    avoids = λ t. bind_from f (m t) (hm.avoids t) (λ a _. (hf a).avoids (m t).1);
  }

  outcome_of-Avoids : {A : Type 0} → IsFatal e → (r : Result A) → outcome_of r ≢ exit e
  outcome_of-Avoids fatal (ok a) h = cc
  outcome_of-Avoids fatal (err x) h = failed-not-fatal fatal x (cc)

  pub question-Avoids : {A : Type 0} → IsFatal e → (r : Result A) → Avoids e (question r)
  question-Avoids fatal r = record { avoids = λ t. outcome_of-Avoids fatal r }

  pub run-Avoids : {A : Type 0} → IsFatal e → (m : M A) → Avoids e (run m)
  unfolding run
  run-Avoids fatal m = record { avoids = λ t. outcome_of-Avoids fatal (m t).0 }

  run_from :
      {A B : Type 0} (f : A → Program B) (p : Result A × List Call)
      → IsFatal e
      → ((a : A) (t1 : List Call) → p ≡ (ok a, t1) → (f a t1).0 ≢ exit e)
      → ((run (λ _. p) >>= f) []).0 ≢ exit e
  unfolding run
  run_from f (ok a, t) fatal next = next a t refl
  run_from f (err x, t) fatal next = λ h. failed-not-fatal fatal x (cc)

  -- After a method of the crate: the rest may use what it returned, and to which history.
  pub run->>= :
      {A B : Type 0} (m : M A) (f : A → Program B) (t : List Call)
      → IsFatal e
      → ((a : A) (t1 : List Call) → m t ≡ (ok a, t1) → (f a t1).0 ≢ exit e)
      → ((run m >>= f) t).0 ≢ exit e
  unfolding run
  run->>= m f t fatal next = unfold run in run_from f (m t) fatal next

  pub assert->>= :
      {B : Type 0} (b : Bool) (f : Unit {0} → Program B) (t : List Call)
      → b ≡ true
      → (f tt t).0 ≢ exit e
      → ((assert b >>= f) t).0 ≢ exit e
  unfolding assert
  assert->>= true f t h next = next
  assert->>= false f t h next = cc

  pub if-Avoids :
      {A : Type 0} (b : Bool) {m n : Program A}
      → Avoids e m
      → Avoids e n
      → Avoids e (if b then m else n)
  if-Avoids true hm hn = hm
  if-Avoids false hm hn = hn

  pub dropping-Avoids :
      {A : Type 0} (lib : Libnvme) (root : Root) (m : Program A)
      → Avoids e m
      → Avoids e (dropping lib root m)
  unfolding dropping
  dropping-Avoids lib root m h = record { avoids = h.avoids }

  -- A loop over a finite list, with fuel for all of it.
  pub for_in-Avoids :
      {S A N B : Type 0} (it : Cursor S A) (key : N → Handle) (body : A → B → Program B)
      (cur : Option Handle) (ns : List N) (k : ℕ) (b : B)
      → Chain key it.succ cur ns
      → All (λ n. (b : B) → Avoids e (body (it.wrap (key n)) b)) ns
      → length ns < k
      → Avoids e (for_in it.next body k (it.at cur) b)
  for_in-Avoids it key body cur ns zero b c bs h = elim h [ ]
  for_in-Avoids it key body cur [] (suc k) b c bs h =
      rw (c, for_in_end it.next body k (it.at none) b it.next_at_none) (pure-Avoids b)
  for_in-Avoids it key body cur (n ∷ ns) (suc k) b c bs h =
      rw (c.0, for_in_item it.next body k (it.at (some (key n))) b (it.next_at_some (key n)))
        (>>=-Avoids (bs.0 b)
          (λ b1. for_in-Avoids it key body (it.succ (key n)) ns k b1 c.1 bs.1 (omega arith)))
