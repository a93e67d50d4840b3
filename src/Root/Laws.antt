-- ===== src/Root/Laws.antt =====
-- Programs that give back what they were given, and no more: the strings of libnvme/src/root.rs.
use libnvme_rs.Base.{◌≡◌, refl, ap, ◌∙◌, Option, none, some, List, [], ◌∷◌, inl, arith}
use libnvme_rs.Error.{Result, ok, err}
use libnvme_rs.Ffi.{
  Handle, Call, Libnvme, Reply, M, ◌>>=◌, call, free, nvmf_hostnqn_generate, nvmf_hostid_generate,
  nvmf_hostnqn_from_file, nvmf_hostid_from_file,
}
use libnvme_rs.Root.{
  non_null, take_owned_cstr, generate_hostnqn, generate_hostid, hostnqn_from_file, hostid_from_file,
}
use libnvme_rs.Root.Ownership.{gives, takes, with_handle, without, owned, IsClean}

-- A program after which the caller owns what it owned before, whatever comes of it.
pub record KeepsOwned (lib : Libnvme) {A : Type 0} (m : M A) : Type 0 where
  pub same : (t : List Call) → owned lib (m t).1 ≡ owned lib t
  pub clean : (t : List Call) → IsClean lib t → IsClean lib (m t).1

-- A call that neither gives nor takes.
pub record IsPlain (c : Call) : Type 0 where
  pub no_gift : (r : Reply) → gives c r ≡ none
  pub no_release : (r : Reply) → takes c r ≡ none

module _ (lib : Libnvme) where
  pub plain-owned : (c : Call) (t : List Call) → IsPlain c → owned lib (c ∷ t) ≡ owned lib t
  plain-owned c t p = rw (p.no_gift, p.no_release) refl

  pub plain-IsClean : (c : Call) (t : List Call) → IsPlain c → IsClean lib t → IsClean lib (c ∷ t)
  plain-IsClean c t p h = (rw p.no_release tt, h)

  -- The history after `take_owned_cstr`: the pointer, when there is one, is freed whatever the text is.
  take_owned_history : Option Handle → List Call → List Call
  take_owned_history none t = t
  take_owned_history (some p) t = free p ∷ t

  take_owned_cstr-history :
      (r : Reply) (t : List Call) → (take_owned_cstr lib r t).1 ≡ take_owned_history r.pointer t
  unfolding take_owned_cstr non_null take_owned_history
  take_owned_cstr-history r t = ground arith

  pub without-head : (p : Handle) (ps : List Handle) → without p (p ∷ ps) ≡ ps
  without-head p ps = ground arith

  given_back :
      (c : Call) (p : Option Handle) (t : List Call)
      → owned lib (c ∷ t) ≡ with_handle p (owned lib t)
      → owned lib (take_owned_history p (c ∷ t)) ≡ owned lib t
  unfolding take_owned_history
  given_back c none t h = h
  given_back c (some p) t h = ap (without p) h ∙ without-head p (owned lib t)

  given-IsClean :
      (c : Call) (p : Option Handle) (t : List Call)
      → owned lib (c ∷ t) ≡ with_handle p (owned lib t)
      → IsClean lib (c ∷ t)
      → IsClean lib (take_owned_history p (c ∷ t))
  unfolding take_owned_history
  given-IsClean c none t h k = k
  given-IsClean c (some p) t h k = (rw h (inl refl), k)

bind_owned :
    (lib : Libnvme) {A B : Type 0} (f : A → M B) (p : Result A × List Call)
    → ((a : A) → KeepsOwned lib (f a))
    → owned lib (((λ _. p) >>= f) []).1 ≡ owned lib p.1
bind_owned lib f (ok a, t1) hf = (hf a).same t1
bind_owned lib f (err e, t1) hf = refl

bind-IsClean :
    (lib : Libnvme) {A B : Type 0} (f : A → M B) (p : Result A × List Call)
    → ((a : A) → KeepsOwned lib (f a))
    → IsClean lib p.1
    → IsClean lib (((λ _. p) >>= f) []).1
bind-IsClean lib f (ok a, t1) hf h = (hf a).clean t1 h
bind-IsClean lib f (err e, t1) hf h = h

pub >>=-KeepsOwned :
    (lib : Libnvme) {A B : Type 0} {m : M A} {f : A → M B}
    → KeepsOwned lib m
    → ((a : A) → KeepsOwned lib (f a))
    → KeepsOwned lib (m >>= f)
>>=-KeepsOwned lib {m} {f} hm hf = record {
  same = λ t. bind_owned lib f (m t) hf ∙ hm.same t;
  clean = λ t h. bind-IsClean lib f (m t) hf (hm.clean t h);
}

-- A call that gives its caller the string that it returns, unless that is NULL.
record GivesString (c : Call) : Type 0 where
  gift : (r : Reply) → gives c r ≡ r.pointer
  nothing_taken : (r : Reply) → takes c r ≡ none

module _ (lib : Libnvme) where
  string_given :
      (c : Call) (t : List Call)
      → GivesString c
      → owned lib (c ∷ t) ≡ with_handle (lib.answer t c).pointer (owned lib t)
  string_given c t g = rw (g.gift, g.nothing_taken) refl

  string-KeepsOwned :
      (c : Call) → GivesString c → KeepsOwned lib (call lib c >>= take_owned_cstr lib)
  string-KeepsOwned c g = record {
    same = λ t.
        let r = lib.answer t c in
        ap (owned lib) (take_owned_cstr-history lib r (c ∷ t))
        ∙ given_back lib c r.pointer t (string_given c t g);
    clean = λ t h.
        let r = lib.answer t c in
        rw (take_owned_cstr-history lib r (c ∷ t))
          (given-IsClean lib c r.pointer t (string_given c t g) (rw (g.nothing_taken r) tt, h));
  }

  -- However the generation of a HostNQN ends (no string, a string that is not text, or the text), the caller owns
  -- what it owned before, and nothing was freed that it did not own.
  pub generate_hostnqn-KeepsOwned : KeepsOwned lib (generate_hostnqn lib)
  unfolding generate_hostnqn
  generate_hostnqn-KeepsOwned =
      string-KeepsOwned nvmf_hostnqn_generate
        (record { gift = λ r. refl; nothing_taken = λ r. refl })

  pub generate_hostid-KeepsOwned : KeepsOwned lib (generate_hostid lib)
  unfolding generate_hostid
  generate_hostid-KeepsOwned =
      string-KeepsOwned nvmf_hostid_generate
        (record { gift = λ r. refl; nothing_taken = λ r. refl })

  pub hostnqn_from_file-KeepsOwned : KeepsOwned lib (hostnqn_from_file lib)
  unfolding hostnqn_from_file
  hostnqn_from_file-KeepsOwned =
      string-KeepsOwned nvmf_hostnqn_from_file
        (record { gift = λ r. refl; nothing_taken = λ r. refl })

  pub hostid_from_file-KeepsOwned : KeepsOwned lib (hostid_from_file lib)
  unfolding hostid_from_file
  hostid_from_file-KeepsOwned =
      string-KeepsOwned nvmf_hostid_from_file
        (record { gift = λ r. refl; nothing_taken = λ r. refl })
