-- ===== src/Tree/NamespaceText.antt =====
-- libnvme/src/namespace.rs: the texts of a namespace.
use libnvme_rs.Base.{ℕ, List}
use libnvme_rs.Error.{Result}
use libnvme_rs.Util.{cstr_to_str}
use libnvme_rs.Namespace.{Namespace}
use libnvme_rs.Tree.Fields.{
  TreeFields, nvme_ns_get_name, nvme_ns_get_generic_name, nvme_ns_get_model, nvme_ns_get_serial,
  nvme_ns_get_firmware,
}

module _ (fields : TreeFields) where
  unfoldable pub name : Namespace → Result (List ℕ)
  name ns = cstr_to_str (fields.text nvme_ns_get_name ns.inner)

  unfoldable pub generic_name : Namespace → Result (List ℕ)
  generic_name ns = cstr_to_str (fields.text nvme_ns_get_generic_name ns.inner)

  unfoldable pub model : Namespace → Result (List ℕ)
  model ns = cstr_to_str (fields.text nvme_ns_get_model ns.inner)

  unfoldable pub serial : Namespace → Result (List ℕ)
  serial ns = cstr_to_str (fields.text nvme_ns_get_serial ns.inner)

  unfoldable pub firmware : Namespace → Result (List ℕ)
  firmware ns = cstr_to_str (fields.text nvme_ns_get_firmware ns.inner)
