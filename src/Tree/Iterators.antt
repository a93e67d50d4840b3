-- ===== src/Tree/Iterators.antt =====
-- The iterators of libnvme/src/{host,subsystem,controller,namespace,path}.rs as cursors over the links of the tree.
use libnvme_rs.Base.{◌≡◌, refl, Option, none, List, ◌++◌, map}
use libnvme_rs.Ffi.{Handle}
use libnvme_rs.Controller.{Controller}
use libnvme_rs.Namespace.{Namespace}
use libnvme_rs.Tree.{
  controllers, NvmeTree, Host, Subsystem, TreePath, PathParent, Hosts, Subsystems, Controllers,
  Namespaces, Paths, next_of_hosts, subsystems, next_of_subsystems, next_of_controllers,
  next_of_namespaces, next_path, next_of_paths, paths, of_controller, of_namespace,
}
use libnvme_rs.Tree.Cursor.{Cursor, Chain, Pulls, Pulls-Chain, Chain-Pulls}

module _ (tree : NvmeTree) where
  -- The iterators, each with its parent fixed.
  unfoldable pub hosts_cursor : Handle → Cursor Hosts Host
  unfolding next_of_hosts
  hosts_cursor root = record {
    next = next_of_hosts tree;
    at = λ cur. record { root = root; cursor = cur };
    wrap = λ h. record { inner = h; root = root };
    succ = tree.next_host root;
    next_at_none = refl;
    next_at_some = λ h. refl;
  }

  unfoldable pub subsystems_cursor : Handle → Cursor Subsystems Subsystem
  unfolding next_of_subsystems
  subsystems_cursor p = record {
    next = next_of_subsystems tree;
    at = λ cur. record { host = p; cursor = cur };
    wrap = λ h. record { inner = h };
    succ = tree.next_subsystem p;
    next_at_none = refl;
    next_at_some = λ h. refl;
  }

  unfoldable pub controllers_cursor : Handle → Cursor Controllers Controller
  unfolding next_of_controllers
  controllers_cursor p = record {
    next = next_of_controllers tree;
    at = λ cur. record { subsystem = p; cursor = cur };
    wrap = λ h. record { inner = h };
    succ = tree.subsystem_next_ctrl p;
    next_at_none = refl;
    next_at_some = λ h. refl;
  }

  unfoldable pub namespaces_cursor : Handle → Cursor Namespaces Namespace
  unfolding next_of_namespaces
  namespaces_cursor p = record {
    next = next_of_namespaces tree;
    at = λ cur. record { ctrl = p; cursor = cur };
    wrap = λ h. record { inner = h };
    succ = tree.ctrl_next_ns p;
    next_at_none = refl;
    next_at_some = λ h. refl;
  }

  unfoldable pub paths_cursor : PathParent → Cursor Paths TreePath
  unfolding next_of_paths
  paths_cursor p = record {
    next = next_of_paths tree;
    at = λ cur. record { parent = p; cursor = cur };
    wrap = λ h. record { inner = h };
    succ = next_path tree p;
    next_at_none = refl;
    next_at_some = λ h. refl;
  }

  -- The iterator `it`, from which the paths `xs` have been pulled, goes on to the rest of `hs`, in order, and then to
  -- nothing.
  abbrev pub Finishes : List Handle → List TreePath → Paths → Type 0
  Finishes hs xs it =
      (ys : List TreePath) × (it1 : Paths) × Pulls (next_of_paths tree) it ys it1
      × (next_of_paths tree it1 ≡ (none, it1))
      × (map (λ h. record { inner = h }) hs ≡ xs ++ ys)

  Finishes-from :
      (p : PathParent) (cur : Option Handle) (hs : List Handle) (xs : List TreePath) (it : Paths)
      → Chain (λ h. h) (next_path tree p) cur hs
      → Pulls (next_of_paths tree) (record { parent = p; cursor = cur }) xs it
      → Finishes hs xs it
  unfolding paths_cursor
  Finishes-from p cur hs xs it c ps =
      let cursor = paths_cursor p in
      let (cur1, rest, e, (c1, whole)) = Pulls-Chain cursor (λ h. h) ps cur hs refl c in
      (
        map (λ h. record { inner = h }) rest,
        cursor.at none,
        rw e (Chain-Pulls cursor (λ h. h) cur1 rest c1),
        cursor.next_at_none,
        whole,
      )

  -- However many paths have been pulled from the iterator of a controller whose paths, by libnvme's links, are `hs`, or
  -- from that of a namespace whose paths are `ks`, pulling on yields the others, in their order, and then nothing.
  pub paths_finish :
      (ctrl ns : Handle) (hs ks : List Handle) (xs ys : List TreePath) (it jt : Paths)
      → Chain (λ h. h) (tree.ctrl_next_path ctrl) (tree.ctrl_first_path ctrl) hs
      → Chain (λ h. h) (tree.namespace_next_path ns) (tree.namespace_first_path ns) ks
      → Pulls (next_of_paths tree) (paths tree (of_controller ctrl)) xs it
      → Pulls (next_of_paths tree) (paths tree (of_namespace ns)) ys jt
      → Finishes hs xs it × Finishes ks ys jt
  unfolding paths next_path
  paths_finish ctrl ns hs ks xs ys it jt c d ps qs = (
    Finishes-from (of_controller ctrl) (tree.ctrl_first_path ctrl) hs xs it c ps,
    Finishes-from (of_namespace ns) (tree.namespace_first_path ns) ks ys jt d qs,
  )

  -- The iterator over a finite list of subsystems yields all of it, and from then on nothing, however often it
  -- is asked.
  pub subsystems_end :
      (h : Host) (hs : List Handle)
      → Chain (λ s. s) (tree.next_subsystem h.inner) (tree.first_subsystem h.inner) hs
      → (it : Subsystems) × Pulls
          (next_of_subsystems tree)
          (subsystems tree h)
          (map (λ s. record { inner = s }) hs)
          it
        × (next_of_subsystems tree it ≡ (none, it))
  unfolding subsystems subsystems_cursor
  subsystems_end h hs c =
      let it = subsystems_cursor h.inner in
      (it.at none, Chain-Pulls it (λ s. s) (tree.first_subsystem h.inner) hs c, it.next_at_none)

  -- However many controllers of a subsystem with finitely many have been pulled, pulling on yields the others, in
  -- their order, and then nothing more.
  pub controllers_finish :
      (s : Subsystem) (hs : List Handle) (xs : List Controller) (it : Controllers)
      → Chain (λ c. c) (tree.subsystem_next_ctrl s.inner) (tree.subsystem_first_ctrl s.inner) hs
      → Pulls (next_of_controllers tree) (controllers tree s) xs it
      → (ys : List Controller) × (it1 : Controllers) × Pulls (next_of_controllers tree) it ys it1
        × (next_of_controllers tree it1 ≡ (none, it1))
        × (map (λ c. record { inner = c }) hs ≡ xs ++ ys)
  unfolding controllers controllers_cursor
  controllers_finish s hs xs it c ps =
      let cursor = controllers_cursor s.inner in
      let (cur1, rest, e, (c1, whole)) =
        Pulls-Chain cursor (λ c. c) ps (tree.subsystem_first_ctrl s.inner) hs refl c in
      (
        map (λ c. record { inner = c }) rest,
        cursor.at none,
        rw e (Chain-Pulls cursor (λ c. c) cur1 rest c1),
        cursor.next_at_none,
        whole,
      )
