-- ===== src/Examples/Latch/Laws.antt =====
-- io_smoke and format_smoke of libnvme/examples touch nothing but QEMU's disks.
use libnvme_rs.Base.{ℕ, subst, ◌≡◌, ℤ, pos, some, List, [], ◌∷◌}
use libnvme_rs.Error.{ok}
use libnvme_rs.Ffi.{
  Call, Libnvme, call, lift, nvme_scan, nvme_ns_get_fd, nvme_io, nvme_dsm, nvme_io_passthru,
  nvme_format_nvm,
}
use libnvme_rs.Keeps.{Keeps, >>=-Keeps, lift->>=-Keeps}
use libnvme_rs.Namespace.{Namespace}
use libnvme_rs.Root.{Root, non_null, scan, drop_root}
use libnvme_rs.Tree.{NvmeTree}
use libnvme_rs.Tree.Fields.{TreeFields}
use libnvme_rs.Examples.Program.{Program}
use libnvme_rs.Examples.Program.Invariants.{
  Preserves, run-Preserves, >>=-Preserves, dropping-Preserves,
}
use libnvme_rs.Examples.Smoke.{exercise, reformat, smoke_main, io_smoke, format_smoke}
use libnvme_rs.Examples.Smoke.Invariants.{exercise-Preserves, reformat-Preserves, loop-Kept}
use libnvme_rs.Examples.Rules.{command_fd, Admits, opened-Admits}
use libnvme_rs.Examples.Latch.{OnQemu, Opened, IsLet, Latched}

some_eq : {a b : ℤ} → some a ≡ some b → b ≡ a
some_eq h = cc

module _ (lib : Libnvme) (tree : NvmeTree) (fields : TreeFields) where
  -- A command through a descriptor is let through if the descriptor was just got.
  command-IsLet :
      (c : Call) (fd : ℤ) (t : List Call)
      → command_fd c ≡ some fd
      → Opened lib fd t
      → IsLet lib tree fields c t
  command-IsLet (nvme_io a _) fd t e h = subst (λ z. Opened lib z t) (some_eq e) h
  command-IsLet (nvme_dsm a) fd t e h = subst (λ z. Opened lib z t) (some_eq e) h
  command-IsLet (nvme_io_passthru z _ _) fd t e h = subst (λ z. Opened lib z t) (some_eq e) h
  command-IsLet (nvme_format_nvm a) fd t e h = subst (λ z. Opened lib z t) (some_eq e) h
  command-IsLet _ fd t e h = cc

  -- On QEMU a command through the descriptor of a namespace is let through.
  latch-Admits :
      (ns : Namespace) → OnQemu tree fields ns.inner → Admits lib (Latched lib tree fields) ns
  latch-Admits ns on =
      opened-Admits lib (Latched lib tree fields) ns (λ t h. (on, h))
        (λ c n t fits e h. (command-IsLet c (pos n) (nvme_ns_get_fd ns.inner ∷ t) fits e, h))

  scan-Latch : Keeps (Latched lib tree fields) (scan lib)
  unfolding scan
  scan-Latch =
      >>=-Keeps {m = call lib nvme_scan} (record { keeps = λ t h. (tt, h) })
        λ r.
          lift->>=-Keeps {r = non_null r} {f = λ p. lift (ok (record { inner = p }))}
            λ p _. record { keeps = λ t h. h }

  drop-Latch : (root : Root) → Keeps (Latched lib tree fields) (drop_root lib root)
  unfolding drop_root
  drop-Latch root = record { keeps = λ t h. (tt, h) }

  smoke_main-Latch :
      (treat : Namespace → Program (Unit {0})) (k : ℕ)
      → ((ns : Namespace)
          → OnQemu tree fields ns.inner
          → Preserves (Latched lib tree fields) (treat ns))
      → Preserves (Latched lib tree fields) (smoke_main tree fields treat k lib)
  unfolding smoke_main
  smoke_main-Latch treat k guarded = >>=-Preserves (run-Preserves scan-Latch) λ root.
      dropping-Preserves lib root
        (loop-Kept (Latched lib tree fields) tree fields treat k guarded root.inner)
        (drop-Latch root)

-- Whatever libnvme answers and wherever they end, io_smoke and format_smoke open only namespaces of controllers whose model,
-- trimmed, is "QEMU NVMe Ctrl", and but for scanning and freeing the tree they make no call except through the descriptor
-- of the namespace just opened.
pub smoke-Latched :
    (lib : Libnvme) (tree : NvmeTree) (fields : TreeFields) (k : ℕ)
    → Latched lib tree fields (io_smoke lib tree fields k []).1
      × Latched lib tree fields (format_smoke lib tree fields k []).1
unfolding io_smoke format_smoke
smoke-Latched lib tree fields k =
    let P = Latched lib tree fields in
    let admits = latch-Admits lib tree fields in
    (
      (smoke_main-Latch lib tree fields (exercise lib fields) k
            (λ ns on. exercise-Preserves lib fields P ns (admits ns on))).keeps
          [] tt,
      (smoke_main-Latch lib tree fields (reformat lib fields) k
            (λ ns on. reformat-Preserves lib fields P ns (admits ns on))).keeps
          [] tt,
    )
