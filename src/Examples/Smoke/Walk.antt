-- ===== src/Examples/Smoke/Walk.antt =====
-- The loops of libnvme/examples/{format_smoke,io_smoke}.rs over a finite tree: they end, and only as the treatment of a
-- namespace does.
use libnvme_rs.Base.{ℕ, ◌<◌, ◌≡◌, ◌≢◌, some, List, arith}
use libnvme_rs.Error.{ok}
use libnvme_rs.Ffi.{Handle, Libnvme, Call, nvme_scan}
use libnvme_rs.Namespace.{Namespace}
use libnvme_rs.Root.{Root, scan, non_null}
use libnvme_rs.Tree.{NvmeTree, next_of_hosts, hosts, subsystems, controllers, namespaces}
use libnvme_rs.Tree.Fields.{TreeFields}
use libnvme_rs.Tree.CtrlText
use libnvme_rs.Tree.Iterators.{
  hosts_cursor, subsystems_cursor, controllers_cursor, namespaces_cursor,
}
use libnvme_rs.Tree.Spec.{
  CtrlNode, SubsystemNode, HostNode, HoldsCtrl, HoldsSubsystem, HoldsHost, HoldsRoot, ctrl_width,
  subsystem_width, host_width, width,
}
use libnvme_rs.Tree.Laws.{All-narrow, All-always}
use libnvme_rs.Examples.Program.{Program, Exit, exit, endless, panicked, dropping, for_in}
use libnvme_rs.Examples.Program.Laws.{
  IsFatal, panics, runs_on, Avoids, >>=-Avoids, pure-Avoids, question-Avoids, if-Avoids,
  dropping-Avoids, for_in-Avoids, run->>=,
}
use libnvme_rs.Examples.Text.{bytes_eq, qemu_model}
use libnvme_rs.Examples.Smoke.{
  model_text, count_one, visit_namespace, visit_controller, visit_subsystem, visit_host, smoke_main,
  io_smoke, exercise,
}
use libnvme_rs.Storage.{StoresBlocks}
use libnvme_rs.Examples.Smoke.Passes.{exercise-Avoids}

scan-root :
    (lib : Libnvme) (t : List Call) (r : Root) (t1 : List Call) (root : Handle)
    → (lib.answer t nvme_scan).pointer ≡ some root
    → scan lib t ≡ (ok r, t1)
    → r ≡ record { inner = root }
unfolding scan non_null
scan-root lib t r t1 root scanned found = ground arith

module _ (tree : NvmeTree) (fields : TreeFields) (treat : Namespace → Program (Unit {0})) (k : ℕ)
    {e : Exit} (fatal : IsFatal e) (treat-Avoids : (ns : Namespace) → Avoids e (treat ns)) where
  visit_namespace-Avoids :
      (ns : Namespace) (n : ℕ) → Avoids e (visit_namespace tree fields treat k ns n)
  unfolding visit_namespace
  visit_namespace-Avoids ns n = >>=-Avoids (treat-Avoids ns) (λ _. pure-Avoids (count_one n))

  visit_controller-Avoids :
      (c : CtrlNode) (n : ℕ)
      → HoldsCtrl tree c
      → ctrl_width c < k
      → Avoids e (visit_controller tree fields treat k (record { inner = c.handle }) n)
  unfolding visit_controller namespaces namespaces_cursor
  visit_controller-Avoids c n holds narrow =
      if-Avoids (bytes_eq (model_text fields (record { inner = c.handle })) qemu_model)
        (for_in-Avoids (namespaces_cursor tree c.handle) (λ h. h)
          (visit_namespace tree fields treat k) (tree.ctrl_first_ns c.handle) c.children k n holds
          (All-always (λ h b. visit_namespace-Avoids (record { inner = h }) b) c.children) narrow)
        (>>=-Avoids (question-Avoids fatal (CtrlText.name fields (record { inner = c.handle })))
          (λ _. pure-Avoids n))

  visit_subsystem-Avoids :
      (s : SubsystemNode) (n : ℕ)
      → HoldsSubsystem tree s
      → subsystem_width s < k
      → Avoids e (visit_subsystem tree fields treat k (record { inner = s.handle }) n)
  unfolding visit_subsystem controllers controllers_cursor
  visit_subsystem-Avoids s n holds narrow =
      for_in-Avoids (controllers_cursor tree s.handle) (λ c. c.handle)
        (visit_controller tree fields treat k) (tree.subsystem_first_ctrl s.handle) s.children k n
        holds.0
        (All-narrow ctrl_width k (λ c p w b. visit_controller-Avoids c b p w) s.children holds.1
          (omega arith))
        (omega arith)

  visit_host-Avoids :
      (root : Handle) (h : HostNode) (n : ℕ)
      → HoldsHost tree h
      → host_width h < k
      → Avoids e (visit_host tree fields treat k (record { inner = h.handle; root = root }) n)
  unfolding visit_host subsystems subsystems_cursor
  visit_host-Avoids root h n holds narrow =
      for_in-Avoids (subsystems_cursor tree h.handle) (λ s. s.handle)
        (visit_subsystem tree fields treat k) (tree.first_subsystem h.handle) h.children k n holds.0
        (All-narrow subsystem_width k (λ s p w b. visit_subsystem-Avoids s b p w) h.children holds.1
          (omega arith))
        (omega arith)

  smoke_main-avoids :
      (lib : Libnvme) (t : List Call) (root : Handle) (hs : List HostNode)
      → (lib.answer t nvme_scan).pointer ≡ some root
      → HoldsRoot tree root hs
      → width hs < k
      → (smoke_main tree fields treat k lib t).0 ≢ exit e
  unfolding smoke_main hosts hosts_cursor
  smoke_main-avoids lib t root hs scanned holds narrow =
      let rest : Root → Program ℕ = λ r.
        dropping lib r
          (for_in (next_of_hosts tree) (visit_host tree fields treat k) k (hosts tree r.inner) 0) in
      run->>= (scan lib) rest t fatal λ r t1 found.
        let the_root : r ≡ record { inner = root } = scan-root lib t r t1 root scanned found in
        rw the_root (
          (dropping-Avoids lib (record { inner = root }) _
              (for_in-Avoids (hosts_cursor tree root) (λ h. h.handle)
                (visit_host tree fields treat k) (tree.first_host root) hs k 0 holds.0
                (All-narrow host_width k (λ h p w b. visit_host-Avoids root h b p w) hs holds.1
                  (omega arith))
                (omega arith))).avoids
            t1)

-- On a device that stores blocks, when the scan finds a finite tree and there is more fuel than the longest of its lists, io_smoke
-- ends and none of its assertions fails.
pub io_smoke_passes :
    (lib : Libnvme) (tree : NvmeTree) (fields : TreeFields) (k : ℕ) (t : List Call) (root : Handle)
    (hs : List HostNode)
    → StoresBlocks lib
    → (lib.answer t nvme_scan).pointer ≡ some root
    → HoldsRoot tree root hs
    → width hs < k
    → let end = (io_smoke lib tree fields k t).0 in (end ≢ exit panicked) × (end ≢ exit endless)
unfolding io_smoke
io_smoke_passes lib tree fields k t root hs device scanned holds narrow =
    let passes : (e : Exit)
        → IsFatal e
        → (smoke_main tree fields (exercise lib fields) k lib t).0 ≢ exit e =
      λ e fatal.
        smoke_main-avoids tree fields (exercise lib fields) k fatal
          (exercise-Avoids lib fields device fatal) lib t root hs scanned holds narrow in
    (passes panicked panics, passes endless runs_on)
