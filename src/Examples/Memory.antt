-- ===== src/Examples/Memory.antt =====
-- io_smoke and format_smoke of libnvme/examples give back the tree that they scan, and nothing else.
use libnvme_rs.Base.{ℕ, ◌≡◌, refl, ap, ◌∙◌, ℤ, pos, some, inl, List, [], ◌∷◌}
use libnvme_rs.Error.{Result, ok, err}
use libnvme_rs.Ffi.{
  Handle, Call, Libnvme, nvme_ns_get_fd, nvme_io, nvme_dsm, nvme_io_passthru, nvme_format_nvm,
}
use libnvme_rs.Namespace.{Namespace}
use libnvme_rs.Root.{Root, scan, drop_root}
use libnvme_rs.Root.Ownership.{without, owned, IsClean}
use libnvme_rs.Root.Laws.{IsPlain, plain-owned, plain-IsClean, without-head}
use libnvme_rs.Session.Laws.{scan_history, scan_failed_history}
use libnvme_rs.Tree.{NvmeTree, hosts, next_of_hosts}
use libnvme_rs.Tree.Fields.{TreeFields}
use libnvme_rs.Examples.Program.{Program, ◌>>=◌, for_in, run, dropping, outcome_of}
use libnvme_rs.Examples.Program.Invariants.{Preserves}
use libnvme_rs.Examples.Smoke.{exercise, visit_host, reformat, smoke_main, io_smoke, format_smoke}
use libnvme_rs.Examples.Smoke.Invariants.{exercise-Preserves, reformat-Preserves, loop-Kept}
use libnvme_rs.Examples.Rules.{command_fd, Admits, opened-Admits}

command-IsPlain : (c : Call) (fd : ℤ) → command_fd c ≡ some fd → IsPlain c
command-IsPlain (nvme_io a _) fd e = record { no_gift = λ r. refl; no_release = λ r. refl }
command-IsPlain (nvme_dsm a) fd e = record { no_gift = λ r. refl; no_release = λ r. refl }
command-IsPlain (nvme_io_passthru z _ _) fd e = record {
  no_gift = λ r. refl;
  no_release = λ r. refl;
}
command-IsPlain (nvme_format_nvm a) fd e = record { no_gift = λ r. refl; no_release = λ r. refl }
command-IsPlain _ fd e = cc

module _ (lib : Libnvme) where
  -- `ps` are the allocations of the caller, and nothing was given back that was not.
  abbrev pub Holds : List Handle → List Call → Type 0
  Holds ps t = (owned lib t ≡ ps) × IsClean lib t

  plain-Holds :
      (ps : List Handle) (c : Call) (t : List Call) → IsPlain c → Holds ps t → Holds ps (c ∷ t)
  plain-Holds ps c t plain (o, clean) =
      (plain-owned lib c t plain ∙ o, plain-IsClean lib c t plain clean)

  memory-Admits : (ps : List Handle) (ns : Namespace) → Admits lib (Holds ps) ns
  memory-Admits ps ns =
      opened-Admits lib (Holds ps) ns
        (λ t h.
          plain-Holds ps (nvme_ns_get_fd ns.inner) t
            (record { no_gift = λ r. refl; no_release = λ r. refl }) h)
        (λ c n t fits e h.
          plain-Holds ps c (nvme_ns_get_fd ns.inner ∷ t) (command-IsPlain c (pos n) fits) h)

  -- A tree that was scanned is given back by the drop of its root.
  dropping-Holds :
      {A : Type 0} (ps : List Handle) (root : Root) (m : Program A) (t : List Call)
      → Preserves (Holds (root.inner ∷ ps)) m
      → Holds (root.inner ∷ ps) t
      → Holds ps (dropping lib root m t).1
  unfolding dropping drop_root
  dropping-Holds ps root m t kept h =
      let (o, clean) = kept.keeps t h in
      (ap (without root.inner) o ∙ without-head lib root.inner ps, (rw o (inl refl), clean))

  -- After the scan, whether or not it found a tree.
  after_scan :
      {A : Type 0} (ps : List Handle) (f : Root → Program A) (t : List Call)
      (p : Result Root × List Call)
      → scan lib t ≡ p
      → ((root : Root) (u : List Call) → Holds (root.inner ∷ ps) u → Holds ps (f root u).1)
      → Holds ps t
      → Holds ps (((λ _. (outcome_of p.0, p.1)) >>= f) []).1
  after_scan ps f t (ok root, t1) e hf (o, clean) =
      let (same, given) = scan_history lib t t1 root e in
      hf root t1 (rw (same, given, o) (refl, (tt, clean)))
  after_scan ps f t (err x, t1) e hf (o, clean) =
      let (same, given) = scan_failed_history lib t t1 x e in
      rw (same, given, o) (refl, (tt, clean))

  smoke_main-Holds :
      (tree : NvmeTree) (fields : TreeFields) (treat : Namespace → Program (Unit {0})) (k : ℕ)
      (ps : List Handle) (t : List Call)
      → ((qs : List Handle) (ns : Namespace) → Preserves (Holds qs) (treat ns))
      → Holds ps t
      → Holds ps (smoke_main tree fields treat k lib t).1
  unfolding smoke_main run
  smoke_main-Holds tree fields treat k ps t guarded h =
      let body : Root → Program ℕ = λ root.
        for_in (next_of_hosts tree) (visit_host tree fields treat k) k (hosts tree root.inner) 0 in
      after_scan ps (λ root. dropping lib root (body root)) t (scan lib t) refl
        (λ root u held.
          dropping-Holds ps root (body root) u
            (loop-Kept (Holds (root.inner ∷ ps)) tree fields treat k
              (λ ns _. guarded (root.inner ∷ ps) ns) root.inner)
            held)
        h

-- However io_smoke and format_smoke end, by an error, a failed assertion or the last host, their caller owns the allocations
-- of libnvme that it owned before, and they have given back nothing that was not theirs at the time.
pub smoke_gives_back :
    (lib : Libnvme) (tree : NvmeTree) (fields : TreeFields) (k : ℕ) (t : List Call)
    → IsClean lib t
    → ((owned lib (io_smoke lib tree fields k t).1 ≡ owned lib t)
        × IsClean lib (io_smoke lib tree fields k t).1)
      × ((owned lib (format_smoke lib tree fields k t).1 ≡ owned lib t)
          × IsClean lib (format_smoke lib tree fields k t).1)
unfolding io_smoke format_smoke
smoke_gives_back lib tree fields k t clean =
    let admits = memory-Admits lib in
    (
      smoke_main-Holds lib tree fields (exercise lib fields) k (owned lib t) t
          (λ qs ns. exercise-Preserves lib fields (Holds lib qs) ns (admits qs ns)) (refl, clean),
      smoke_main-Holds lib tree fields (reformat lib fields) k (owned lib t) t
          (λ qs ns. reformat-Preserves lib fields (Holds lib qs) ns (admits qs ns)) (refl, clean),
    )
