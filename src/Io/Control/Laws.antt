-- ===== src/Io/Control/Laws.antt =====
-- What a chain of setter calls leaves in the control word and in the tags.
use libnvme_rs.Base.{
  ℕ, zero, suc, ◌/◌, ◌^◌, max, bit_or, test_bit, test_bit-bit_or, ◌≡◌, refl, Bool, false, ◌||◌,
  ◌==◌, if◌then◌else◌, List, [], ◌∷◌, Option, none, some, arith, ap, ◌∙◌,
}
use native.Mathlib.Nat.{pow-suc}
use libnvme_rs.Io.Control.{
  IoOpts, default_opts, Setter, fua, limited_retry, protection_action, check_reftag, check_apptag,
  check_guard, streams, check_storage_tag, ref_tag, ref_tag_u64, app_tag, app_mask, dataset_mgmt,
  directive, storage_tag, storage_tag_size, pi_format, timeout_ms, apply_setter, configure,
}

test_bit-zero : (k : ℕ) → test_bit 0 k ≡ 0
unfolding test_bit
test_bit-zero zero = refl
test_bit-zero (suc k) = test_bit-zero k

-- A power of two has one bit.
test_bit-pow : (j k : ℕ) → test_bit (2 ^ j) k ≡ (if j == k then 1 else 0)
unfolding test_bit
test_bit-pow zero zero = refl
test_bit-pow zero (suc k) = ground (arith, test_bit-zero k)
test_bit-pow (suc j) zero = ground (arith, pow-suc 2 j)
test_bit-pow (suc j) (suc k) =
    let half : 2 ^ suc j / 2 ≡ 2 ^ j = omega (arith, pow-suc 2 j) in
    rw half (ground (arith, test_bit-pow j k))

-- The bit of the control word that a setter is documented to set, if it is one that sets a flag: a
-- table beside the code, from the NVMe layout of CDW12.
abbrev pub flag_bit : Setter → Option ℕ
flag_bit streams = some 4
flag_bit check_storage_tag = some 8
flag_bit check_reftag = some 10
flag_bit check_apptag = some 11
flag_bit check_guard = some 12
flag_bit protection_action = some 13
flag_bit fua = some 14
flag_bit limited_retry = some 15
flag_bit _ = none

abbrev pub sets_bit : ℕ → Setter → Bool
sets_bit k s = elim (flag_bit s) [ none ↦ false | some j ↦ j == k ]

abbrev pub any_sets : ℕ → List Setter → Bool
any_sets k [] = false
any_sets k (s ∷ ss) = sets_bit k s || any_sets k ss

or_bit : (c j k : ℕ) → test_bit (bit_or c (2 ^ j)) k ≡ max (test_bit c k) (if j == k then 1 else 0)
or_bit c j k = rw (test_bit-bit_or, test_bit-pow)

apply_setter_bit :
    (s : Setter) (o : IoOpts) (k : ℕ)
    → test_bit (apply_setter s o).control k
      ≡ max (test_bit o.control k) (if sets_bit k s then 1 else 0)
unfolding apply_setter
apply_setter_bit fua o k = or_bit o.control 14 k
apply_setter_bit limited_retry o k = or_bit o.control 15 k
apply_setter_bit protection_action o k = or_bit o.control 13 k
apply_setter_bit check_reftag o k = or_bit o.control 10 k
apply_setter_bit check_apptag o k = or_bit o.control 11 k
apply_setter_bit check_guard o k = or_bit o.control 12 k
apply_setter_bit streams o k = or_bit o.control 4 k
apply_setter_bit check_storage_tag o k = or_bit o.control 8 k
apply_setter_bit _ o k = omega arith

configure_bit_from :
    (ss : List Setter) (o : IoOpts) (k : ℕ)
    → test_bit (configure ss o).control k
      ≡ max (test_bit o.control k) (if any_sets k ss then 1 else 0)
unfolding configure
configure_bit_from [] o k = omega arith
configure_bit_from (s ∷ ss) o k =
    ground (arith, configure_bit_from ss (apply_setter s o) k, apply_setter_bit s o k)

-- After any chain of setter calls on a fresh Read, Write or Compare builder, bit `k` of the control
-- word is set exactly when one of the calls is a setter of that flag, in any order and however often.
pub configure_bit :
    (ss : List Setter) (k : ℕ)
    → test_bit (configure ss default_opts).control k ≡ (if any_sets k ss then 1 else 0)
configure_bit ss k = ground (arith, configure_bit_from ss default_opts k, test_bit-zero k)

-- The last value that a chain of calls gives through `selects`, or the one before the chain.
abbrev pub last_value : (Setter → Option ℕ) → List Setter → ℕ → ℕ
last_value selects [] d = d
last_value selects (s ∷ ss) d = last_value selects ss (elim (selects s) [ none ↦ d | some v ↦ v ])

-- What a setter stores in each field that is not the control word, by its documentation.
abbrev pub selects_reftag : Setter → Option ℕ
selects_reftag (ref_tag v) = some v
selects_reftag _ = none

abbrev pub selects_reftag_u64 : Setter → Option ℕ
selects_reftag_u64 (ref_tag_u64 v) = some v
selects_reftag_u64 _ = none

abbrev pub selects_apptag : Setter → Option ℕ
selects_apptag (app_tag v) = some v
selects_apptag _ = none

abbrev pub selects_appmask : Setter → Option ℕ
selects_appmask (app_mask v) = some v
selects_appmask _ = none

abbrev pub selects_dsm : Setter → Option ℕ
selects_dsm (dataset_mgmt v) = some v
selects_dsm _ = none

abbrev pub selects_dspec : Setter → Option ℕ
selects_dspec (directive v) = some v
selects_dspec _ = none

abbrev pub selects_storage_tag : Setter → Option ℕ
selects_storage_tag (storage_tag v) = some v
selects_storage_tag _ = none

abbrev pub selects_sts : Setter → Option ℕ
selects_sts (storage_tag_size v) = some v
selects_sts _ = none

abbrev pub selects_pif : Setter → Option ℕ
selects_pif (pi_format v) = some v
selects_pif _ = none

abbrev pub selects_timeout : Setter → Option ℕ
selects_timeout (timeout_ms v) = some v
selects_timeout _ = none

-- A field that each setter leaves alone or replaces ends as the last replacement.
module _ (field : IoOpts → ℕ) (selects : Setter → Option ℕ)
    (step : (s : Setter) (o : IoOpts)
      → field (apply_setter s o) ≡ elim (selects s) [ none ↦ field o | some v ↦ v ]) where
  last_value_from :
      (ss : List Setter) (o : IoOpts) → field (configure ss o) ≡ last_value selects ss (field o)
  unfolding configure
  last_value_from [] o = refl
  last_value_from (s ∷ ss) o =
      last_value_from ss (apply_setter s o) ∙ ap (last_value selects ss) (step s o)

-- After any chain of setter calls on a fresh builder each tag, mask, hint, format and timeout is the
-- last one that its own setter was given, and zero if that setter was not called: no setter touches
-- another's field.
pub configure_values :
    (ss : List Setter)
    → let o = configure ss default_opts in
      (o.reftag ≡ last_value selects_reftag ss 0)
      × (o.reftag_u64 ≡ last_value selects_reftag_u64 ss 0)
      × (o.apptag ≡ last_value selects_apptag ss 0)
      × (o.appmask ≡ last_value selects_appmask ss 0)
      × (o.dsm_hint ≡ last_value selects_dsm ss 0)
      × (o.dspec ≡ last_value selects_dspec ss 0)
      × (o.storage_tag ≡ last_value selects_storage_tag ss 0)
      × (o.sts ≡ last_value selects_sts ss 0)
      × (o.pif ≡ last_value selects_pif ss 0)
      × (o.timeout_ms ≡ last_value selects_timeout ss 0)
unfolding apply_setter
configure_values ss = (
  last_value_from (λ o. o.reftag) selects_reftag (λ s o. ground arith) ss default_opts,
  last_value_from (λ o. o.reftag_u64) selects_reftag_u64 (λ s o. ground arith) ss default_opts,
  last_value_from (λ o. o.apptag) selects_apptag (λ s o. ground arith) ss default_opts,
  last_value_from (λ o. o.appmask) selects_appmask (λ s o. ground arith) ss default_opts,
  last_value_from (λ o. o.dsm_hint) selects_dsm (λ s o. ground arith) ss default_opts,
  last_value_from (λ o. o.dspec) selects_dspec (λ s o. ground arith) ss default_opts,
  last_value_from (λ o. o.storage_tag) selects_storage_tag (λ s o. ground arith) ss default_opts,
  last_value_from (λ o. o.sts) selects_sts (λ s o. ground arith) ss default_opts,
  last_value_from (λ o. o.pif) selects_pif (λ s o. ground arith) ss default_opts,
  last_value_from (λ o. o.timeout_ms) selects_timeout (λ s o. ground arith) ss default_opts,
)
