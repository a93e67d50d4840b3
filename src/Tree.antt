-- ===== src/Tree.antt =====
-- libnvme/src/{host,subsystem,controller,namespace,path}.rs: the iterators over libnvme's tree. The tree is a
-- parameter: the functions that lead from a parent to its first child and from a child to the next one,
-- where NULL is `none`.
pub mod Cursor
pub mod ListNvme
pub mod Fields
pub mod CtrlText
pub mod NamespaceText
pub mod SubsystemText
pub mod HostText
pub mod PathText
pub mod NamespaceFields
pub mod Iterators
pub mod Spec
pub mod Laws
use libnvme_rs.Base.{Option, none, some}
use libnvme_rs.Ffi.{Handle}
use libnvme_rs.Controller.{Controller}
use libnvme_rs.Namespace.{Namespace}

-- `nvme_first_host`, `nvme_next_host` and so on; a function for the next child takes the parent first.
pub record NvmeTree : Type 0 where
  pub first_host : Handle → Option Handle
  pub next_host : Handle → Handle → Option Handle
  pub first_subsystem : Handle → Option Handle
  pub next_subsystem : Handle → Handle → Option Handle
  pub subsystem_first_ctrl : Handle → Option Handle
  pub subsystem_next_ctrl : Handle → Handle → Option Handle
  pub ctrl_first_ns : Handle → Option Handle
  pub ctrl_next_ns : Handle → Handle → Option Handle
  pub ctrl_first_path : Handle → Option Handle
  pub ctrl_next_path : Handle → Handle → Option Handle
  pub namespace_first_path : Handle → Option Handle
  pub namespace_next_path : Handle → Handle → Option Handle

pub record Host : Type 0 where
  pub inner : Handle
  pub root : Handle

pub record Subsystem : Type 0 where
  pub inner : Handle

pub record TreePath : Type 0 where
  pub inner : Handle

pub record Hosts : Type 0 where
  pub root : Handle
  pub cursor : Option Handle

pub record Subsystems : Type 0 where
  pub host : Handle
  pub cursor : Option Handle

pub record Controllers : Type 0 where
  pub subsystem : Handle
  pub cursor : Option Handle

pub record Namespaces : Type 0 where
  pub ctrl : Handle
  pub cursor : Option Handle

pub data PathParent : Type 0 where
  of_controller of_namespace : Handle → PathParent

pub record Paths : Type 0 where
  pub parent : PathParent
  pub cursor : Option Handle

module _ (tree : NvmeTree) where
  -- `Hosts::new` and `Root::hosts`
  unfoldable pub hosts : Handle → Hosts
  hosts root = record { root = root; cursor = tree.first_host root }

  unfoldable pub next_of_hosts : Hosts → Option Host × Hosts
  next_of_hosts it = elim it.cursor [
    | none ↦ (none, it)
    | some current ↦ (
      some (record { inner = current; root = it.root }),
      record it { cursor = tree.next_host it.root current },
    )
  ]

  unfoldable pub subsystems : Host → Subsystems
  subsystems h = record { host = h.inner; cursor = tree.first_subsystem h.inner }

  unfoldable pub next_of_subsystems : Subsystems → Option Subsystem × Subsystems
  next_of_subsystems it = elim it.cursor [
    | none ↦ (none, it)
    | some current ↦ (
      some (record { inner = current }),
      record it { cursor = tree.next_subsystem it.host current },
    )
  ]

  unfoldable pub controllers : Subsystem → Controllers
  controllers s = record { subsystem = s.inner; cursor = tree.subsystem_first_ctrl s.inner }

  unfoldable pub next_of_controllers : Controllers → Option Controller × Controllers
  next_of_controllers it = elim it.cursor [
    | none ↦ (none, it)
    | some current ↦ (
      some (record { inner = current }),
      record it { cursor = tree.subsystem_next_ctrl it.subsystem current },
    )
  ]

  unfoldable pub namespaces : Controller → Namespaces
  namespaces c = record { ctrl = c.inner; cursor = tree.ctrl_first_ns c.inner }

  unfoldable pub next_of_namespaces : Namespaces → Option Namespace × Namespaces
  next_of_namespaces it = elim it.cursor [
    | none ↦ (none, it)
    | some current ↦ (
      some (record { inner = current }),
      record it { cursor = tree.ctrl_next_ns it.ctrl current },
    )
  ]

  -- `Paths::from_controller` and `Paths::from_namespace`
  unfoldable pub paths : PathParent → Paths
  paths (of_controller c) = record { parent = of_controller c; cursor = tree.ctrl_first_path c }
  paths (of_namespace n) = record { parent = of_namespace n; cursor = tree.namespace_first_path n }

  -- The `match` on the parent in `Paths::next`.
  unfoldable pub next_path : PathParent → Handle → Option Handle
  next_path (of_controller c) current = tree.ctrl_next_path c current
  next_path (of_namespace n) current = tree.namespace_next_path n current

  unfoldable pub next_of_paths : Paths → Option TreePath × Paths
  next_of_paths it = elim it.cursor [
    | none ↦ (none, it)
    | some current ↦
        (some (record { inner = current }), record it { cursor = next_path it.parent current })
  ]
