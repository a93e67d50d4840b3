-- ===== src/Tree/ListNvme.antt =====
-- libnvme/examples/list_nvme.rs: the four nested loops over hosts, subsystems, controllers and namespaces, with one
-- row for each namespace and one for a controller that has none. The text of a row is not rendered: it is
-- the controller and the namespace that it is made from.
use libnvme_rs.Base.{ℕ, Bool, true, false, if◌then◌else◌, Option, none, some, List, [], ◌∷◌, ◌++◌}
use libnvme_rs.Ffi.{Handle}
use libnvme_rs.Controller.{Controller}
use libnvme_rs.Namespace.{Namespace}
use libnvme_rs.Tree.{
  NvmeTree, Host, Subsystem, hosts, next_of_hosts, subsystems, next_of_subsystems, controllers,
  next_of_controllers, namespaces, next_of_namespaces,
}
use libnvme_rs.Tree.Cursor.{for_each}

pub record Row : Type 0 where
  pub ctrl : Controller
  pub ns : Option Namespace

-- `rows.push(Row::from(&ctrl, ns))`
abbrev pub push_row : Controller → Option Namespace → List Row → List Row
push_row c ns rows = rows ++ record { ctrl = c; ns = ns } ∷ []

-- The body of the innermost loop, on `rows` and `had_namespace`.
unfoldable pub list_namespace : Controller → Namespace → List Row × Bool → Option (List Row × Bool)
list_namespace c ns b = some (push_row c (some ns) b.0, true)

-- `if !had_namespace { .. }`
unfoldable pub list_empty : Controller → List Row × Bool → List Row
list_empty c b = if b.1 then b.0 else push_row c none b.0

module _ (tree : NvmeTree) (fuel : ℕ) where
  unfoldable pub list_controller : Controller → List Row → Option (List Row)
  list_controller c rows =
      elim (for_each (next_of_namespaces tree) (list_namespace c) fuel (namespaces tree c)
        (rows, false)) [ none ↦ none | some b ↦ some (list_empty c b) ]

  unfoldable pub list_subsystem : Subsystem → List Row → Option (List Row)
  list_subsystem s rows =
      for_each (next_of_controllers tree) list_controller fuel (controllers tree s) rows

  unfoldable pub list_host : Host → List Row → Option (List Row)
  list_host h rows = for_each (next_of_subsystems tree) list_subsystem fuel (subsystems tree h) rows

  -- The rows that `main` collects from the root.
  unfoldable pub list_nvme : Handle → Option (List Row)
  list_nvme root = for_each (next_of_hosts tree) list_host fuel (hosts tree root) []
