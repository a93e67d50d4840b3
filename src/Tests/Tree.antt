-- ===== src/Tests/Tree.antt =====
-- A tree of one host, two subsystems, two controllers and one namespace, and the theorems at it.
use libnvme_rs.Base.{◌==◌, if◌then◌else◌, ◌≡◌, refl, none, some, List, [], ◌∷◌, ◌++◌, map, arith}
use libnvme_rs.Ffi.{Handle}
use libnvme_rs.Controller.{Controller}
use libnvme_rs.Tree.{
  NvmeTree, Host, Subsystem, TreePath, of_namespace, Subsystems, Controllers, Paths,
  next_of_subsystems, subsystems, next_of_controllers, controllers, next_path, next_of_paths, paths,
  of_controller,
}
use libnvme_rs.Tree.Cursor.{Pulls, stop, pull}
use libnvme_rs.Tree.ListNvme.{list_nvme}
use libnvme_rs.Tree.Spec.{HoldsRoot, HostNode, host_rows, flat}
use libnvme_rs.Tree.Laws.{list_nvme_refines}
use libnvme_rs.Tree.Iterators.{paths_finish, Finishes, subsystems_end, controllers_finish}

-- Root 1, host 2, subsystems 3 and 4, controllers 5 and 6 under 3, namespace 7 under 5, paths 8 and 9 under 7.
abbrev pub small_tree : NvmeTree
small_tree = record {
  first_host = λ r. some 2;
  next_host = λ r h. none;
  first_subsystem = λ h. some 3;
  next_subsystem = λ h s. if s == 3 then some 4 else none;
  subsystem_first_ctrl = λ s. if s == 3 then some 5 else none;
  subsystem_next_ctrl = λ s c. if c == 5 then some 6 else none;
  ctrl_first_ns = λ c. if c == 5 then some 7 else none;
  ctrl_next_ns = λ c n. none;
  ctrl_first_path = λ c. none;
  ctrl_next_path = λ c p. none;
  namespace_first_path = λ n. some 8;
  namespace_next_path = λ n p. if p == 8 then some 9 else none;
}

abbrev pub small_hosts : List HostNode
small_hosts =
    record {
      handle = 2;
      children =
          record {
            handle = 3;
            children =
                record { handle = 5; children = 7 ∷ [] }
                ∷ record { handle = 6; children = [] }
                ∷ [];
          }
          ∷ record { handle = 4; children = [] }
          ∷ [];
    }
    ∷ []

pub small_hosts_held : HoldsRoot small_tree 1 small_hosts
small_hosts_held = (
  (refl, refl),
  (
    ((refl, (refl, refl)), (((refl, (refl, refl)), ((refl, refl), (refl, tt))), ((refl, tt), tt))),
    tt,
  ),
)

list_nvme_refines_example : list_nvme small_tree 3 1 ≡ some (flat host_rows small_hosts)
list_nvme_refines_example =
    list_nvme_refines small_tree 1 small_hosts 3 small_hosts_held (omega arith)

abbrev tree_path : Handle → TreePath
tree_path h = record { inner = h }

-- The paths of namespace 7 after the first one, and those of controller 5 before any.
abbrev one_pulled : Paths
one_pulled = record { parent = of_namespace 7; cursor = some 9 }

paths_finish_example :
    Finishes small_tree [] [] (paths small_tree (of_controller 5))
    × Finishes small_tree (8 ∷ 9 ∷ []) (tree_path 8 ∷ []) one_pulled
unfolding next_path next_of_paths paths
paths_finish_example =
    paths_finish small_tree 5 7 [] (8 ∷ 9 ∷ []) [] (tree_path 8 ∷ [])
      (paths small_tree (of_controller 5)) one_pulled refl (refl, (refl, refl)) stop
      (pull refl stop)

abbrev host2 : Host
host2 = record { inner = 2; root = 1 }

abbrev subsystem : Handle → Subsystem
subsystem h = record { inner = h }

subsystems_end_example :
    (it : Subsystems) × Pulls
      (next_of_subsystems small_tree)
      (subsystems small_tree host2)
      (map subsystem (3 ∷ 4 ∷ []))
      it
    × (next_of_subsystems small_tree it ≡ (none, it))
subsystems_end_example = subsystems_end small_tree host2 (3 ∷ 4 ∷ []) (refl, (refl, refl))

abbrev ctrl : Handle → Controller
ctrl h = record { inner = h }

abbrev ctrl_pulled : Controllers
ctrl_pulled = record { subsystem = 3; cursor = some 6 }

controllers_finish_example :
    (ys : List Controller) × (it1 : Controllers) × Pulls
      (next_of_controllers small_tree)
      ctrl_pulled
      ys
      it1
    × (next_of_controllers small_tree it1 ≡ (none, it1))
    × (map ctrl (5 ∷ 6 ∷ []) ≡ (ctrl 5 ∷ []) ++ ys)
unfolding next_of_controllers controllers
controllers_finish_example =
    controllers_finish small_tree (subsystem 3) (5 ∷ 6 ∷ []) (ctrl 5 ∷ []) ctrl_pulled
      (refl, (refl, refl)) (pull refl stop)
