-- ===== src/Tree/Cursor.antt =====
-- What the iterators over the tree share: a cursor that walks a linked list of children, and the `for` loop that
-- pulls one until it has no more.
use libnvme_rs.Base.{
  ℕ, zero, suc, ◌<◌, ◌≡◌, refl, ◌∙◌, Option, none, some, List, [], ◌∷◌, ◌++◌, map, length, All,
  arith,
}
use libnvme_rs.Ffi.{Handle}

-- An iterator with the state `S` and the items `A`: at a handle it yields that handle's item and moves on to
-- `succ`, and at NULL it yields nothing and stays.
pub record Cursor (S A : Type 0) : Type 0 where
  pub next : S → Option A × S
  pub at : Option Handle → S
  pub wrap : Handle → A
  pub succ : Handle → Option Handle
  pub next_at_none : next (at none) ≡ (none, at none)
  pub next_at_some : (h : Handle) → next (at (some h)) ≡ (some (wrap h), at (succ h))

-- The list that starts at `cur` and is linked by `succ` is `ns`, in which each node knows its handle.
abbrev pub Chain :
    {N : Type 0} → (N → Handle) → (Handle → Option Handle) → Option Handle → List N → Type 0
Chain key succ cur [] = cur ≡ none
Chain key succ cur (n ∷ ns) = (cur ≡ some (key n)) × Chain key succ (succ (key n)) ns

-- `for a in it { body }` over the variables `B` of the loop: `none` when the fuel is used up.
unfoldable pub for_each :
    {S A B : Type 0} → (S → Option A × S) → (A → B → Option B) → ℕ → S → B → Option B
for_each next body zero s b = none
for_each next body (suc k) s b =
    let (o, s1) = next s in
    elim o [
      | none ↦ some b
      | some a ↦ elim (body a b) [ none ↦ none | some b1 ↦ for_each next body k s1 b1 ]
    ]

-- What the body of a loop makes of its variables over a whole list.
abbrev pub fold : {N B : Type 0} → (N → B → B) → List N → B → B
fold push [] b = b
fold push (n ∷ ns) b = fold push ns (push n b)

-- A sequence of calls of `next`, each of which yields an item.
pub data Pulls {S A : Type 0} (next : S → Option A × S) : S → List A → S → Type 0 where
  stop : {s : S} → Pulls next s [] s
  pull :
      {s s1 s2 : S} {a : A} {xs : List A}
      → next s ≡ (some a, s1)
      → Pulls next s1 xs s2
      → Pulls next s (a ∷ xs) s2

for_each_end :
    {S A B : Type 0} (next : S → Option A × S) (body : A → B → Option B) (k : ℕ) (s : S) (b : B)
    {s1 : S}
    → next s ≡ (none, s1)
    → for_each next body (suc k) s b ≡ some b
unfolding for_each
for_each_end next body k s b h = ground (arith, h)

for_each_item :
    {S A B : Type 0} (next : S → Option A × S) (body : A → B → Option B) (k : ℕ) (s : S) (b : B)
    {s1 : S} {a : A} {b1 : B}
    → next s ≡ (some a, s1)
    → body a b ≡ some b1
    → for_each next body (suc k) s b ≡ for_each next body k s1 b1
unfolding for_each
for_each_item next body k s b h g = ground (arith, h, g)

module _ {S A N : Type 0} (it : Cursor S A) (key : N → Handle) where
  -- The loop visits the nodes of the list in order, each once, and ends.
  pub for_each-Chain :
      {B : Type 0} (body : A → B → Option B) (push : N → B → B) (cur : Option Handle) (ns : List N)
      (k : ℕ) (b : B)
      → Chain key it.succ cur ns
      → All (λ n. (c : B) → body (it.wrap (key n)) c ≡ some (push n c)) ns
      → length ns < k
      → for_each it.next body k (it.at cur) b ≡ some (fold push ns b)
  unfolding for_each
  for_each-Chain body push cur ns zero b c bs h = elim h [ ]
  for_each-Chain body push cur [] (suc k) b c bs h =
      rw c (for_each_end it.next body k (it.at none) b it.next_at_none)
  for_each-Chain body push cur (n ∷ ns) (suc k) b c bs h = rw c.0 (
      for_each_item it.next body k (it.at (some (key n))) b (it.next_at_some (key n)) (bs.0 b)
      ∙ for_each-Chain body push (it.succ (key n)) ns k (push n b) c.1 bs.1 (omega arith))

  pulled :
      (n : N) {s s1 : S} {a : A} {cur : Option Handle}
      → it.next s ≡ (some a, s1)
      → s ≡ it.at cur
      → cur ≡ some (key n)
      → (it.wrap (key n) ≡ a) × (s1 ≡ it.at (it.succ (key n)))
  pulled n p e c = let q = it.next_at_some (key n) in (cc, cc)

  none-not-pulled :
      {s s1 : S} {a : A} {cur : Option Handle}
      → it.next s ≡ (some a, s1)
      → s ≡ it.at cur
      → cur ≡ none
      → ⊥
  none-not-pulled p e c = let q = it.next_at_none in cc

  -- What an iterator has yielded, followed by what it still holds, is its whole list.
  pub Pulls-Chain :
      {s s1 : S} {xs : List A}
      → Pulls it.next s xs s1
      → (cur : Option Handle) (ns : List N) → s ≡ it.at cur
      → Chain key it.succ cur ns
      → (cur1 : Option Handle) × (rest : List N) × (s1 ≡ it.at cur1)
        × (Chain key it.succ cur1 rest
            × (map (λ n. it.wrap (key n)) ns ≡ xs ++ map (λ n. it.wrap (key n)) rest))
  Pulls-Chain stop cur ns e c = (cur, ns, e, (c, refl))
  Pulls-Chain (pull p ps) cur [] e c = absurd (none-not-pulled p e c)
  Pulls-Chain (pull p ps) cur (n ∷ ns) e c =
      let (same, moved) = pulled n p e c.0 in
      let (cur1, rest, e1, (c1, whole)) = Pulls-Chain ps (it.succ (key n)) ns moved c.1 in
      (cur1, rest, e1, (c1, cc))

  -- A finite list is yielded whole, after which nothing more comes.
  pub Chain-Pulls :
      (cur : Option Handle) (ns : List N)
      → Chain key it.succ cur ns
      → Pulls it.next (it.at cur) (map (λ n. it.wrap (key n)) ns) (it.at none)
  Chain-Pulls cur [] c = rw c stop
  Chain-Pulls cur (n ∷ ns) c =
      rw c.0 (pull (it.next_at_some (key n)) (Chain-Pulls (it.succ (key n)) ns c.1))
