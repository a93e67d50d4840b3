-- ===== src/Fabrics/Laws.antt =====
-- What connecting a controller (libnvme/src/fabrics.rs) refuses, and what it owns afterwards.
use libnvme_rs.Base.{
  ℕ, ◌||◌, pos, negsuc, ◌≡◌, refl, sym, ap, ◌∙◌, Bool, true, false, Option, none, some, List, [],
  ◌∷◌, arith, inl, subst, if◌then◌else◌, ◌==◌,
}
use libnvme_rs.Error.{
  Result, ok, err, invalid_argument, interior_nul, check_ret, Error, os, neg_i32,
}
use libnvme_rs.Util.{has_nul, str_to_cstring}
use libnvme_rs.Ffi.{
  Handle, Call, Libnvme, Reply, CtrlParams, M, ◌>>=◌, lift, call, issue, outcome, >>=-ok, >>=-eq-ok,
  nvme_create_ctrl, nvme_ctrl_set_discovery_ctrl, nvme_ctrl_set_unique_discovery_ctrl,
  nvme_ctrl_set_persistent,
}
use libnvme_rs.Controller.{Controller}
use libnvme_rs.Root.{optional_cstring, non_null}
use libnvme_rs.Root.Ownership.{owned, IsClean, without}
use libnvme_rs.Root.Laws.{
  IsPlain, plain-owned, plain-IsClean, KeepsOwned, >>=-KeepsOwned, without-head,
}
use libnvme_rs.Fabrics.{Connect, connect_params, set_if, set_flags, add_ctrl, connect_execute}

-- Whether one of the six texts has an interior NUL.
abbrev pub optional_nul : Option (List ℕ) → Bool
optional_nul none = false
optional_nul (some s) = has_nul s

abbrev pub any_nul : Connect → Bool
any_nul c =
    has_nul c.subsysnqn
    || has_nul c.transport
    || optional_nul c.traddr
    || optional_nul c.trsvcid
    || optional_nul c.host_traddr
    || optional_nul c.host_iface

-- A connection with a NUL inside one of its texts is refused before libnvme is called.
pub connect_execute_refuses :
    (lib : Libnvme) (c : Connect) (t : List Call)
    → any_nul c ≡ true
    → connect_execute lib c t ≡ (err (invalid_argument interior_nul), t)
unfolding connect_execute connect_params optional_cstring str_to_cstring
connect_execute_refuses lib c t h = ground arith

-- A program that makes no call.
record IsQuiet {A : Type 0} (m : M A) : Type 0 where
  quiet : (t : List Call) → (m t).1 ≡ t

quiet_from :
    {A B : Type 0} (f : A → M B) (p : Result A × List Call) (t : List Call)
    → ((a : A) → IsQuiet (f a))
    → p.1 ≡ t
    → (((λ _. p) >>= f) []).1 ≡ t
quiet_from f (ok a, t1) t q e = (q a).quiet t1 ∙ e
quiet_from f (err x, t1) t q e = e

lift->>=-IsQuiet :
    {A B : Type 0} (r : Result A) {f : A → M B} → ((a : A) → IsQuiet (f a)) → IsQuiet (lift r >>= f)
lift->>=-IsQuiet r {f} q = record { quiet = λ t. quiet_from f (r, t) t q refl }

connect_params-IsQuiet : (c : Connect) → IsQuiet (connect_params c)
unfolding connect_params
connect_params-IsQuiet c = lift->>=-IsQuiet (str_to_cstring c.subsysnqn) λ _.
    lift->>=-IsQuiet (str_to_cstring c.transport) λ _.
      lift->>=-IsQuiet (optional_cstring c.traddr) λ _.
        lift->>=-IsQuiet (optional_cstring c.trsvcid) λ _.
          lift->>=-IsQuiet (optional_cstring c.host_traddr)
            λ _. lift->>=-IsQuiet (optional_cstring c.host_iface) λ _. record { quiet = λ t. refl }

module _ (lib : Libnvme) where
  set_if-KeepsOwned :
      (flag : Bool) (setter : Call) → IsPlain setter → KeepsOwned lib (set_if lib flag setter)
  unfolding set_if
  set_if-KeepsOwned true setter p = record {
    same = λ t. plain-owned lib setter t p;
    clean = λ t h. plain-IsClean lib setter t p h;
  }
  set_if-KeepsOwned false setter p = record { same = λ t. refl; clean = λ t h. h }

  set_if_ok : (flag : Bool) (setter : Call) (t : List Call) → (set_if lib flag setter t).0 ≡ ok tt
  unfolding set_if
  set_if_ok true setter t = refl
  set_if_ok false setter t = refl

  set_flags-KeepsOwned : (c : Connect) (ctrl : Handle) → KeepsOwned lib (set_flags lib c ctrl)
  unfolding set_flags
  set_flags-KeepsOwned c ctrl =
      >>=-KeepsOwned lib
        (set_if-KeepsOwned c.discovery (nvme_ctrl_set_discovery_ctrl ctrl true)
          (record { no_gift = λ r. refl; no_release = λ r. refl }))
        λ _.
          >>=-KeepsOwned lib
            (set_if-KeepsOwned c.unique_discovery (nvme_ctrl_set_unique_discovery_ctrl ctrl true)
              (record { no_gift = λ r. refl; no_release = λ r. refl }))
            λ _.
              set_if-KeepsOwned c.persistent (nvme_ctrl_set_persistent ctrl true)
                (record { no_gift = λ r. refl; no_release = λ r. refl })

  set_flags_ok : (c : Connect) (ctrl : Handle) (t : List Call) → (set_flags lib c ctrl t).0 ≡ ok tt
  unfolding set_flags set_if
  set_flags_ok c ctrl t = ground arith

  -- After the parameters are built, the rest of a connection.
  connect_rest : Connect → CtrlParams → M Controller
  connect_rest c params = call lib (nvme_create_ctrl params) >>= λ created.
      lift (non_null created) >>= λ ctrl. set_flags lib c ctrl >>= λ _.
      issue lib (add_ctrl lib c params ctrl) (λ _. record { inner = ctrl })

  -- The history when the controller is about to be added.
  abbrev pub before_add : Connect → CtrlParams → Handle → List Call → List Call
  before_add c params ctrl t = (set_flags lib c ctrl (nvme_create_ctrl params ∷ t)).1

  connect_rest_created :
      (c : Connect) (params : CtrlParams) (ctrl : Handle) (t : List Call)
      → (lib.answer t (nvme_create_ctrl params)).pointer ≡ some ctrl
      → let add = add_ctrl lib c params ctrl in
        let t1 = before_add c params ctrl t in
        connect_rest c params t ≡ (outcome (lib.answer t1 add) (record { inner = ctrl }), add ∷ t1)
  unfolding connect_rest issue non_null
  connect_rest_created c params ctrl t h =
      let t0 = nvme_create_ctrl params ∷ t in
      let t1 = before_add c params ctrl t in
      let flagged : set_flags lib c ctrl t0 ≡ (ok tt, t1) =
        ap (λ r. (r, t1)) (set_flags_ok c ctrl t0) in
      rw h (
        >>=-ok (set_flags lib c ctrl)
          (λ _. issue lib (add_ctrl lib c params ctrl) (λ _. record { inner = ctrl })) t0 flagged)

  connect_rest-not_created :
      (c : Connect) (params : CtrlParams) (t : List Call)
      → (lib.answer t (nvme_create_ctrl params)).pointer ≡ none
      → (connect_rest c params t).1 ≡ nvme_create_ctrl params ∷ t
  unfolding connect_rest non_null
  connect_rest-not_created c params t h = rw h refl

  -- A connection for which libnvme gives no controller ends with that call.
  pub connect_execute-not_created :
      (c : Connect) (params : CtrlParams) (t : List Call)
      → connect_params c t ≡ (ok params, t)
      → (lib.answer t (nvme_create_ctrl params)).pointer ≡ none
      → (connect_execute lib c t).1 ≡ nvme_create_ctrl params ∷ t
  unfolding connect_execute connect_rest
  connect_execute-not_created c params t p h =
      ap (λ r. r.1) (>>=-ok (connect_params c) (connect_rest c) t p)
      ∙ connect_rest-not_created c params t h

  connect_created :
      (c : Connect) (params : CtrlParams) (ctrl : Handle) (t : List Call)
      → connect_params c t ≡ (ok params, t)
      → (lib.answer t (nvme_create_ctrl params)).pointer ≡ some ctrl
      → let add = add_ctrl lib c params ctrl in
        let t1 = before_add c params ctrl t in
        connect_execute lib c t ≡ (outcome (lib.answer t1 add) (record { inner = ctrl }), add ∷ t1)
  unfolding connect_execute connect_rest
  connect_created c params ctrl t p h =
      >>=-ok (connect_params c) (connect_rest c) t p ∙ connect_rest_created c params ctrl t h

  owned-before_add :
      (c : Connect) (params : CtrlParams) (ctrl : Handle) (t : List Call)
      → (lib.answer t (nvme_create_ctrl params)).pointer ≡ some ctrl
      → owned lib (before_add c params ctrl t) ≡ ctrl ∷ owned lib t
  owned-before_add c params ctrl t h =
      (set_flags-KeepsOwned c ctrl).same (nvme_create_ctrl params ∷ t) ∙ rw h refl

  either_err :
      {A : Type 0} (b : Bool) (x y : Error)
      → (e : Error) × (Path (Result A) (if b then err x else err y) (err e))
  either_err true x y = (x, refl)
  either_err false x y = (y, refl)

  check_fails : (n errno : ℕ) → (e : Error) × (check_ret (negsuc n) errno ≡ err e)
  unfolding check_ret
  check_fails n errno = either_err (n == 0) (os (pos errno)) (os (neg_i32 (negsuc n)))

  outcome_fails :
      (k : Controller) (r : Reply) (n : ℕ) → r.ret ≡ negsuc n → (e : Error) × (outcome r k ≡ err e)
  unfolding outcome
  outcome_fails k r n h =
      let (e, fails) = check_fails n r.errno in
      let pass : Result (Unit {0}) → Result Controller =
        λ c. elim c [ ok x ↦ ok k | err x ↦ err x ] in
      (e, ap pass (ap (λ z. check_ret z r.errno) h ∙ fails))

  -- When libnvme has created the controller but cannot connect it, its handle is lost: `execute` returns an error, and what
  -- the caller owns afterwards is what it owned before and the controller, which nothing frees.
  pub connect_execute_leaks :
      (c : Connect) (params : CtrlParams) (ctrl : Handle) (t : List Call) (n : ℕ)
      → connect_params c t ≡ (ok params, t)
      → (lib.answer t (nvme_create_ctrl params)).pointer ≡ some ctrl
      → (lib.answer (before_add c params ctrl t) (add_ctrl lib c params ctrl)).ret ≡ negsuc n
      → ((e : Error) × ((connect_execute lib c t).0 ≡ err e))
        × (owned lib (connect_execute lib c t).1 ≡ ctrl ∷ owned lib t)
  unfolding add_ctrl
  connect_execute_leaks c params ctrl t n p h e =
      let add = add_ctrl lib c params ctrl in
      let done = connect_created c params ctrl t p h in
      let (x, fails) =
        outcome_fails (record { inner = ctrl }) (lib.answer (before_add c params ctrl t) add) n e in
      (
        (x, ap (λ r. r.0) done ∙ fails),
        ap (λ r. owned lib r.1) done ∙ rw e (owned-before_add c params ctrl t h),
      )

  outcome-ok-zero : (r : Reply) (k k1 : Controller) → outcome r k ≡ ok k1 → r.ret ≡ pos 0
  unfolding outcome check_ret
  outcome-ok-zero r k k1 h = ground arith

  -- A controller that was created and connected is the tree's.
  connected_owned :
      (c : Connect) (params : CtrlParams) (ctrl : Handle) (t : List Call)
      → (lib.answer t (nvme_create_ctrl params)).pointer ≡ some ctrl
      → let add = add_ctrl lib c params ctrl in
        let t1 = before_add c params ctrl t in
        (lib.answer t1 add).ret ≡ pos 0
        → (owned lib (add ∷ t1) ≡ owned lib t) × (IsClean lib t → IsClean lib (add ∷ t1))
  unfolding add_ctrl
  connected_owned c params ctrl t h z =
      let before = owned-before_add c params ctrl t h in
      (
        rw z (ap (without ctrl) before ∙ without-head lib ctrl (owned lib t)),
        λ clean. (
          rw (z, before) (inl refl),
          (set_flags-KeepsOwned c ctrl).clean (nvme_create_ctrl params ∷ t) (tt, clean),
        ),
      )

  connect_rest-KeepsOwned :
      (c : Connect) (params : CtrlParams) (t : List Call) (p : Option Handle) (k : Controller)
      (t1 : List Call)
      → (lib.answer t (nvme_create_ctrl params)).pointer ≡ p
      → connect_rest c params t ≡ (ok k, t1)
      → (owned lib t1 ≡ owned lib t) × (IsClean lib t → IsClean lib t1)
  unfolding connect_rest non_null
  connect_rest-KeepsOwned c params t none k t1 e h = ground (arith, e, h)
  connect_rest-KeepsOwned c params t (some ctrl) k t1 e h =
      let add = add_ctrl lib c params ctrl in
      let r = lib.answer (before_add c params ctrl t) add in
      let done = sym (connect_rest_created c params ctrl t e) ∙ h in
      let z = outcome-ok-zero r (record { inner = ctrl }) k (ap (λ q. q.0) done) in
      subst (λ t1. (owned lib t1 ≡ owned lib t) × (IsClean lib t → IsClean lib t1))
        (ap (λ q. q.1) done) (connected_owned c params ctrl t e z)

  -- A connection that succeeds leaves its caller with what it owned before, since the controller belongs to the
  -- tree, and frees nothing that the caller did not own.
  pub connect_execute-KeepsOwned :
      (c : Connect) (t : List Call) (k : Controller) (t1 : List Call)
      → connect_execute lib c t ≡ (ok k, t1)
      → (owned lib t1 ≡ owned lib t) × (IsClean lib t → IsClean lib t1)
  unfolding connect_execute connect_rest
  connect_execute-KeepsOwned c t k t1 h =
      let (params, t2, p, h2) = >>=-eq-ok (connect_params c) (connect_rest c) t h in
      let e : t ≡ t2 = sym ((connect_params-IsQuiet c).quiet t) ∙ ap (λ q. q.1) p in
      subst (λ t. (owned lib t1 ≡ owned lib t) × (IsClean lib t → IsClean lib t1)) (sym e)
        (connect_rest-KeepsOwned c params t2 (lib.answer t2 (nvme_create_ctrl params)).pointer k t1
          refl h2)
