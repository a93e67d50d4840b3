-- ===== src/Examples/Program.antt =====
-- The `main` of a program of libnvme/examples: it returns an error by `?`, or an assertion in it fails. Each `for` loop
-- over the tree has fuel, and a program whose fuel is used up is `endless`.
pub mod Laws
pub mod Invariants
use libnvme_rs.Base.{ℕ, zero, suc, Bool, true, false, Option, none, some, List}
use libnvme_rs.Error.{Error, Result, ok, err}
use libnvme_rs.Ffi.{Call, Libnvme, M}
use libnvme_rs.Root.{Root, drop_root}

-- How a program ends early.
pub data Exit : Type 0 where
  failed : Error → Exit
  panicked endless : Exit

pub data Outcome (A : Type 0) : Type 0 where
  done : A → Outcome A
  exit : Exit → Outcome A

abbrev pub Program : Type 0 → Type 0
Program A = List Call → Outcome A × List Call

infixl 5 ◌>>=◌ ◌>>◌
abbrev pub ◌>>=◌ : {A B : Type 0} → Program A → (A → Program B) → Program B
◌>>=◌ m f t = let (o, t1) = m t in elim o [ done a ↦ f a t1 | exit e ↦ (exit e, t1) ]

abbrev pub ◌>>◌ : {A B : Type 0} → Program A → Program B → Program B
m >> k = m >>= λ _. k

abbrev pub pure : {A : Type 0} → A → Program A
pure a t = (done a, t)

abbrev pub stop : {A : Type 0} → Exit → Program A
stop e t = (exit e, t)

abbrev pub outcome_of : {A : Type 0} → Result A → Outcome A
outcome_of (ok a) = done a
outcome_of (err e) = exit (failed e)

-- A method of the crate, and `?`.
unfoldable pub run : {A : Type 0} → M A → Program A
run m t = let (r, t1) = m t in (outcome_of r, t1)

-- `?` on a result that needed no call.
abbrev pub question : {A : Type 0} → Result A → Program A
question r t = (outcome_of r, t)

-- `assert!`
unfoldable pub assert : Bool → Program (Unit {0})
assert true = pure tt
assert false = stop panicked

-- `for a in it { body }` over the variables `B` of the loop.
unfoldable pub for_in :
    {S A B : Type 0} → (S → Option A × S) → (A → B → Program B) → ℕ → S → B → Program B
for_in next body zero s b = stop endless
for_in next body (suc k) s b =
    let (o, s1) = next s in
    elim o [ none ↦ pure b | some a ↦ (body a b >>= λ b1. for_in next body k s1 b1) ]

-- A block with a `Root` of its own, which is dropped however the block is left.
unfoldable pub dropping : {A : Type 0} → Libnvme → Root → Program A → Program A
dropping lib root m t = let (o, t1) = m t in (o, (drop_root lib root t1).1)
