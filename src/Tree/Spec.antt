-- ===== src/Tree/Spec.antt =====
-- libnvme's tree as a list of lists, how it is held by the links between the nodes, and the rows that a listing of
-- it has.
use libnvme_rs.Base.{ℕ, max, none, some, List, [], ◌∷◌, ◌++◌, map, length, All}
use libnvme_rs.Ffi.{Handle}
use libnvme_rs.Tree.{NvmeTree}
use libnvme_rs.Tree.Cursor.{Chain}
use libnvme_rs.Tree.ListNvme.{Row}

-- The tree as libnvme means it: each node with the list of its children.
pub record CtrlNode : Type 0 where
  pub handle : Handle
  pub children : List Handle

pub record SubsystemNode : Type 0 where
  pub handle : Handle
  pub children : List CtrlNode

pub record HostNode : Type 0 where
  pub handle : Handle
  pub children : List SubsystemNode

module _ (tree : NvmeTree) where
  -- The links of the tree lead through just these children.
  abbrev pub HoldsCtrl : CtrlNode → Type 0
  HoldsCtrl c = Chain (λ h. h) (tree.ctrl_next_ns c.handle) (tree.ctrl_first_ns c.handle) c.children

  abbrev pub HoldsSubsystem : SubsystemNode → Type 0
  HoldsSubsystem s =
      Chain (λ c. c.handle) (tree.subsystem_next_ctrl s.handle) (tree.subsystem_first_ctrl s.handle)
        s.children
      × All HoldsCtrl s.children

  abbrev pub HoldsHost : HostNode → Type 0
  HoldsHost h =
      Chain (λ s. s.handle) (tree.next_subsystem h.handle) (tree.first_subsystem h.handle)
        h.children
      × All HoldsSubsystem h.children

  abbrev pub HoldsRoot : Handle → List HostNode → Type 0
  HoldsRoot root hs =
      Chain (λ h. h.handle) (tree.next_host root) (tree.first_host root) hs × All HoldsHost hs

abbrev pub flat {ℓ κ} : {A : Type ℓ} {B : Type κ} → (A → List B) → List A → List B
flat f [] = []
flat f (x ∷ xs) = f x ++ flat f xs

-- The greatest value of a function on a list.
abbrev pub greatest {ℓ} : {A : Type ℓ} → (A → ℕ) → List A → ℕ
greatest f [] = 0
greatest f (x ∷ xs) = max (f x) (greatest f xs)

-- One row for each namespace, or one for the controller alone.
abbrev pub namespace_row : Handle → Handle → Row
namespace_row c n = record { ctrl = record { inner = c }; ns = some (record { inner = n }) }

abbrev pub rows_among : Handle → List Handle → List Row
rows_among c [] = record { ctrl = record { inner = c }; ns = none } ∷ []
rows_among c (n ∷ ns) = map (namespace_row c) (n ∷ ns)

abbrev pub ctrl_rows : CtrlNode → List Row
ctrl_rows c = rows_among c.handle c.children

abbrev pub subsystem_rows : SubsystemNode → List Row
subsystem_rows s = flat ctrl_rows s.children

abbrev pub host_rows : HostNode → List Row
host_rows h = flat subsystem_rows h.children

-- The length of the longest list in the tree.
abbrev pub ctrl_width : CtrlNode → ℕ
ctrl_width c = length c.children

abbrev pub subsystem_width : SubsystemNode → ℕ
subsystem_width s = max (length s.children) (greatest ctrl_width s.children)

abbrev pub host_width : HostNode → ℕ
host_width h = max (length h.children) (greatest subsystem_width h.children)

abbrev pub width : List HostNode → ℕ
width hs = max (length hs) (greatest host_width hs)
