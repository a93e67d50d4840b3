-- ===== src/Io/RangeCommands/Laws.antt =====
-- What Dataset Management and Copy of libnvme/src/io.rs pass to libnvme.
use libnvme_rs.Keeps.{lift->>=-Keeps, >>=-Keeps}
use libnvme_rs.Base.{
  ℕ, ◌+◌, ◌≤◌, ◌≡◌, refl, ◌↔◌, ℤ, pos, some, List, [], ◌∷◌, map, length, get_elem?, length-map,
  get_elem?-map, arith, if◌then◌else◌, ◌==◌,
}
use libnvme_rs.Error.{ok, err, invalid_argument, no_dsm_range, too_many_dsm_ranges, Reason}
use libnvme_rs.Headers.WireTypes.{NvmeDsmRange, NvmeCopyRange}
use libnvme_rs.Ffi.{Libnvme, Call, nvme_dsm, nvme_copy, nvme_ns_get_fd, outcome, issue, result_u32}
use libnvme_rs.Namespace.{ns_fd_ok}
use libnvme_rs.Io.Ranges.{DsmRange, raw_dsm_range, CopyRange, raw_copy_range}
use libnvme_rs.Io.RangeCommands.{
  Dsm, given_ranges, check_dsm_ranges, raw_dsm_args, dsm_execute, Copy, check_copy_ranges,
  raw_copy_args, copy_execute,
}
use libnvme_rs.Safety.{IsSafe, KeepsSafe, issue-KeepsSafe, ns_fd-KeepsSafe}

check_dsm_ranges_iff :
    (rs : List DsmRange) → (check_dsm_ranges rs ≡ ok tt) ↔ ((1 ≤ length rs) × (length rs ≤ 256))
unfolding check_dsm_ranges
check_dsm_ranges_iff rs = ground arith

check_copy_ranges_iff :
    (rs : List CopyRange) → (check_copy_ranges rs ≡ ok tt) ↔ ((1 ≤ length rs) × (length rs ≤ 128))
unfolding check_copy_ranges
check_copy_ranges_iff rs = ground arith

module _ (lib : Libnvme) (c : Dsm) where
  -- Dataset Management announces exactly the ranges that it was given: their number fits the field, and
  -- range `i` of the buffer is the wire form of range `i` of the request.
  pub raw_dsm_args_lem :
      (fd : ℤ) (i : ℕ) (r : DsmRange)
      → length (given_ranges c) ≤ 256
      → get_elem? (given_ranges c) i ≡ some r
      → let a = raw_dsm_args lib c fd in
        (a.nr_ranges ≡ length (given_ranges c))
        × (raws : List NvmeDsmRange) × (a.dsm ≡ some raws)
        × (get_elem? raws i ≡ some (raw_dsm_range r))
  unfolding raw_dsm_args
  raw_dsm_args_lem fd i r h e = (
    omega (arith, length-map raw_dsm_range (given_ranges c)),
    map raw_dsm_range (given_ranges c),
    refl,
    get_elem?-map raw_dsm_range (given_ranges c) i r e,
  )

  -- A number of ranges other than 1 to 256 is refused before libnvme is called.
  pub dsm_execute_refuses :
      (t : List Call)
      → ¬ ((1 ≤ length (given_ranges c)) × (length (given_ranges c) ≤ 256))
      → (e : Reason) × (dsm_execute lib c t ≡ (err (invalid_argument e), t))
  unfolding dsm_execute check_dsm_ranges
  dsm_execute_refuses t h = (
    if length (given_ranges c) == 0
        then no_dsm_range
        else too_many_dsm_ranges (length (given_ranges c)),
    ground
        (arith, λ (a : 1 ≤ length (given_ranges c)) (b : length (given_ranges c) ≤ 256). h (a, b)),
  )

  -- Any other number reaches libnvme, in one call after that for the descriptor.
  pub dsm_execute_issues :
      (t : List Call) (fd : ℕ)
      → 1 ≤ length (given_ranges c)
      → length (given_ranges c) ≤ 256
      → (lib.answer t (nvme_ns_get_fd c.ns.inner)).ret ≡ pos fd
      → let t1 = nvme_ns_get_fd c.ns.inner ∷ t in
        let command = nvme_dsm (raw_dsm_args lib c (pos fd)) in
        let r = lib.answer t1 command in
        dsm_execute lib c t ≡ (outcome r (result_u32 r), command ∷ t1)
  unfolding dsm_execute issue
  dsm_execute_issues t fd p q e =
      ground (arith, (check_dsm_ranges_iff (given_ranges c)).1 (p, q), ns_fd_ok lib c.ns t fd e)

  -- Dataset Management passes a buffer, never NULL, that holds as many ranges as it announces, whatever
  -- the request.
  pub dsm_execute-KeepsSafe : KeepsSafe lib (dsm_execute lib c)
  unfolding dsm_execute
  dsm_execute-KeepsSafe = lift->>=-Keeps λ _ _. >>=-Keeps (ns_fd-KeepsSafe lib c.ns) λ fd.
      issue-KeepsSafe lib (nvme_dsm (raw_dsm_args lib c fd)) result_u32 tt
        (unfold raw_dsm_args in (omega arith, λ h. cc))

some_element {ℓ} :
    {A : Type ℓ} (xs : List A) (i : ℕ) (a : A) → get_elem? xs i ≡ some a → 1 ≤ length xs
some_element [] i a e = cc
some_element (x ∷ xs) i a e = omega arith

module _ (lib : Libnvme) (c : Copy) where
  -- Copy announces exactly the source ranges that it was given, by a 0's based count that fits the
  -- field, and range `i` of the buffer is the wire form of range `i` of the request.
  pub raw_copy_args_lem :
      (fd : ℤ) (i : ℕ) (r : CopyRange)
      → length c.ranges ≤ 128
      → get_elem? c.ranges i ≡ some r
      → let a = raw_copy_args lib c fd in
        (a.nr + 1 ≡ length c.ranges)
        × (raws : List NvmeCopyRange) × (a.copy ≡ some raws)
        × (get_elem? raws i ≡ some (raw_copy_range r))
  unfolding raw_copy_args
  raw_copy_args_lem fd i r h e = (
    omega (arith, length-map raw_copy_range c.ranges, some_element c.ranges i r e),
    map raw_copy_range c.ranges,
    refl,
    get_elem?-map raw_copy_range c.ranges i r e,
  )

  -- Copy passes as many source ranges as it announces, whatever the request.
  pub copy_execute-KeepsSafe : KeepsSafe lib (copy_execute lib c)
  unfolding copy_execute
  copy_execute-KeepsSafe = lift->>=-Keeps λ _ e. >>=-Keeps (ns_fd-KeepsSafe lib c.ns) λ fd.
      issue-KeepsSafe lib (nvme_copy (raw_copy_args lib c fd)) result_u32 tt
        (safe fd ((check_copy_ranges_iff c.ranges).0 e))
    where
      safe :
          (fd : ℤ)
          → (1 ≤ length c.ranges) × (length c.ranges ≤ 128)
          → IsSafe (nvme_copy (raw_copy_args lib c fd))
      safe fd h = unfold raw_copy_args in omega (arith, length-map raw_copy_range c.ranges)
