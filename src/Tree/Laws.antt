-- ===== src/Tree/Laws.antt =====
-- What the loops of libnvme/examples/list_nvme.rs collect from a finite tree.
use libnvme_rs.Base.{
  ℕ, ◌<◌, ◌≡◌, refl, sym, ap, ◌∙◌, Bool, true, false, none, some, List, [], ◌∷◌, ◌++◌, map, All,
  arith, append_assoc, append-nil,
}
use libnvme_rs.Ffi.{Handle}
use libnvme_rs.Tree.{NvmeTree, hosts, subsystems, controllers, namespaces}
use libnvme_rs.Tree.Iterators.{
  hosts_cursor, subsystems_cursor, controllers_cursor, namespaces_cursor,
}
use libnvme_rs.Tree.Cursor.{fold, for_each-Chain}
use libnvme_rs.Tree.Spec.{
  CtrlNode, SubsystemNode, HostNode, HoldsCtrl, HoldsSubsystem, HoldsHost, HoldsRoot, flat,
  greatest, namespace_row, rows_among, ctrl_rows, subsystem_rows, host_rows, ctrl_width,
  subsystem_width, host_width, width,
}
use libnvme_rs.Tree.ListNvme.{
  push_row, Row, list_namespace, list_empty, list_controller, list_subsystem, list_host, list_nvme,
}

fold-flat :
    {N R : Type 0} (f : N → List R) (ns : List N) (acc : List R)
    → fold (λ n acc. acc ++ f n) ns acc ≡ acc ++ flat f ns
fold-flat f [] acc = sym (append-nil acc)
fold-flat f (n ∷ ns) acc = fold-flat f ns (acc ++ f n) ∙ append_assoc acc (f n) (flat f ns)

-- What holds of a node that is narrow enough holds of all nodes of a list of narrow ones.
pub All-narrow :
    {N : Type 0} {P Q : N → Type 0} (w : N → ℕ) (k : ℕ)
    → ((n : N) → P n → w n < k → Q n)
    → (ns : List N) → All P ns
    → greatest w ns < k
    → All Q ns
All-narrow w k step [] a h = tt
All-narrow w k step (n ∷ ns) a h =
    (step n a.0 (omega arith), All-narrow w k step ns a.1 (omega arith))

pub All-always : {N : Type 0} {Q : N → Type 0} → ((n : N) → Q n) → (ns : List N) → All Q ns
All-always q [] = tt
All-always q (n ∷ ns) = (q n, All-always q ns)

-- The loop over the namespaces of a controller.
abbrev push_namespace : Handle → Handle → List Row × Bool → List Row × Bool
push_namespace c n b = (push_row (record { inner = c }) (some (record { inner = n })) b.0, true)

fold-push_namespace :
    (c : Handle) (ns : List Handle) (rows : List Row) (seen : Bool)
    → (fold (push_namespace c) ns (rows, seen)).0 ≡ rows ++ map (namespace_row c) ns
fold-push_namespace c [] rows seen = sym (append-nil rows)
fold-push_namespace c (n ∷ ns) rows seen =
    fold-push_namespace c ns (rows ++ namespace_row c n ∷ []) true
    ∙ append_assoc rows (namespace_row c n ∷ []) (map (namespace_row c) ns)

fold-push_namespace_seen :
    (c : Handle) (ns : List Handle) (rows : List Row)
    → (fold (push_namespace c) ns (rows, true)).1 ≡ true
fold-push_namespace_seen c [] rows = refl
fold-push_namespace_seen c (n ∷ ns) rows =
    fold-push_namespace_seen c ns (rows ++ namespace_row c n ∷ [])

fold-list_empty :
    (c : Handle) (ns : List Handle) (rows : List Row)
    → list_empty (record { inner = c }) (fold (push_namespace c) ns (rows, false))
      ≡ rows ++ rows_among c ns
unfolding list_empty
fold-list_empty c [] rows = refl
fold-list_empty c (n ∷ ns) rows =
    rw (fold-push_namespace_seen c ns (rows ++ namespace_row c n ∷ []))
      (fold-push_namespace c (n ∷ ns) rows false)

module _ (tree : NvmeTree) where
  list_controller_lem :
      (k : ℕ) (c : CtrlNode) (rows : List Row)
      → HoldsCtrl tree c
      → ctrl_width c < k
      → list_controller tree k (record { inner = c.handle }) rows ≡ some (rows ++ ctrl_rows c)
  unfolding list_controller list_namespace namespaces namespaces_cursor
  list_controller_lem k c rows holds narrow =
      ap (λ o. elim o [ none ↦ none | some b ↦ some (list_empty (record { inner = c.handle }) b) ])
        (for_each-Chain (namespaces_cursor tree c.handle) (λ h. h)
          (list_namespace (record { inner = c.handle })) (push_namespace c.handle)
          (tree.ctrl_first_ns c.handle) c.children k (rows, false) holds
          (All-always (λ n b. refl) c.children) narrow)
      ∙ ap some (fold-list_empty c.handle c.children rows)

  list_subsystem_lem :
      (k : ℕ) (s : SubsystemNode) (rows : List Row)
      → HoldsSubsystem tree s
      → subsystem_width s < k
      → list_subsystem tree k (record { inner = s.handle }) rows ≡ some (rows ++ subsystem_rows s)
  unfolding list_subsystem controllers controllers_cursor
  list_subsystem_lem k s rows holds narrow =
      for_each-Chain (controllers_cursor tree s.handle) (λ n. n.handle) (list_controller tree k)
        (λ n acc. acc ++ ctrl_rows n) (tree.subsystem_first_ctrl s.handle) s.children k rows holds.0
        (All-narrow ctrl_width k (λ n p w acc. list_controller_lem k n acc p w) s.children holds.1
          (omega arith))
        (omega arith)
      ∙ ap some (fold-flat ctrl_rows s.children rows)

  list_host_lem :
      (root : Handle) (k : ℕ) (h : HostNode) (rows : List Row)
      → HoldsHost tree h
      → host_width h < k
      → list_host tree k (record { inner = h.handle; root = root }) rows
        ≡ some (rows ++ host_rows h)
  unfolding list_host subsystems subsystems_cursor
  list_host_lem root k h rows holds narrow =
      for_each-Chain (subsystems_cursor tree h.handle) (λ n. n.handle) (list_subsystem tree k)
        (λ n acc. acc ++ subsystem_rows n) (tree.first_subsystem h.handle) h.children k rows holds.0
        (All-narrow subsystem_width k (λ n p w acc. list_subsystem_lem k n acc p w) h.children
          holds.1 (omega arith))
        (omega arith)
      ∙ ap some (fold-flat subsystem_rows h.children rows)

  -- On a finite tree the nested loops of the listing end, with more fuel than the longest of its lists, and give
  -- one row for each namespace and one for each controller without any, in the order of the tree.
  pub list_nvme_refines :
      (root : Handle) (hs : List HostNode) (k : ℕ)
      → HoldsRoot tree root hs
      → width hs < k
      → list_nvme tree k root ≡ some (flat host_rows hs)
  unfolding list_nvme hosts hosts_cursor
  list_nvme_refines root hs k holds narrow =
      for_each-Chain (hosts_cursor tree root) (λ n. n.handle) (list_host tree k)
        (λ n acc. acc ++ host_rows n) (tree.first_host root) hs k [] holds.0
        (All-narrow host_width k (λ n p w acc. list_host_lem root k n acc p w) hs holds.1
          (omega arith))
        (omega arith)
      ∙ ap some (fold-flat host_rows hs [])
