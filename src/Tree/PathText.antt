-- ===== src/Tree/PathText.antt =====
-- libnvme/src/path.rs: the texts of a path.
use libnvme_rs.Base.{ℕ, List}
use libnvme_rs.Error.{Result}
use libnvme_rs.Util.{cstr_to_str}
use libnvme_rs.Tree.{TreePath}
use libnvme_rs.Tree.Fields.{
  TreeFields, nvme_path_get_name, nvme_path_get_ana_state, nvme_path_get_numa_nodes,
}

module _ (fields : TreeFields) where
  unfoldable pub name : TreePath → Result (List ℕ)
  name p = cstr_to_str (fields.text nvme_path_get_name p.inner)

  unfoldable pub ana_state : TreePath → Result (List ℕ)
  ana_state p = cstr_to_str (fields.text nvme_path_get_ana_state p.inner)

  unfoldable pub numa_nodes : TreePath → Result (List ℕ)
  numa_nodes p = cstr_to_str (fields.text nvme_path_get_numa_nodes p.inner)
