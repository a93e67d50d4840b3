-- ===== src/Tree/SubsystemText.antt =====
-- libnvme/src/subsystem.rs: the texts of a subsystem.
use libnvme_rs.Base.{ℕ, List}
use libnvme_rs.Error.{Result}
use libnvme_rs.Util.{cstr_to_str}
use libnvme_rs.Tree.{Subsystem}
use libnvme_rs.Tree.Fields.{
  TreeFields, nvme_subsystem_get_name, nvme_subsystem_get_nqn, nvme_subsystem_get_type,
  nvme_subsystem_get_serial, nvme_subsystem_get_model, nvme_subsystem_get_fw_rev,
  nvme_subsystem_get_iopolicy, nvme_subsystem_get_application,
}

module _ (fields : TreeFields) where
  unfoldable pub name : Subsystem → Result (List ℕ)
  name s = cstr_to_str (fields.text nvme_subsystem_get_name s.inner)

  unfoldable pub nqn : Subsystem → Result (List ℕ)
  nqn s = cstr_to_str (fields.text nvme_subsystem_get_nqn s.inner)

  unfoldable pub subsystem_type : Subsystem → Result (List ℕ)
  subsystem_type s = cstr_to_str (fields.text nvme_subsystem_get_type s.inner)

  unfoldable pub serial : Subsystem → Result (List ℕ)
  serial s = cstr_to_str (fields.text nvme_subsystem_get_serial s.inner)

  unfoldable pub model : Subsystem → Result (List ℕ)
  model s = cstr_to_str (fields.text nvme_subsystem_get_model s.inner)

  unfoldable pub firmware : Subsystem → Result (List ℕ)
  firmware s = cstr_to_str (fields.text nvme_subsystem_get_fw_rev s.inner)

  unfoldable pub iopolicy : Subsystem → Result (List ℕ)
  iopolicy s = cstr_to_str (fields.text nvme_subsystem_get_iopolicy s.inner)

  unfoldable pub application : Subsystem → Result (List ℕ)
  application s = cstr_to_str (fields.text nvme_subsystem_get_application s.inner)
