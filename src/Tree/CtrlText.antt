-- ===== src/Tree/CtrlText.antt =====
-- libnvme/src/controller.rs: the texts of a controller.
use libnvme_rs.Base.{ℕ, List}
use libnvme_rs.Error.{Result}
use libnvme_rs.Util.{cstr_to_str}
use libnvme_rs.Controller.{Controller}
use libnvme_rs.Tree.Fields.{
  TreeFields, nvme_ctrl_get_name, nvme_ctrl_get_model, nvme_ctrl_get_serial, nvme_ctrl_get_firmware,
  nvme_ctrl_get_transport, nvme_ctrl_get_address, nvme_ctrl_get_state, nvme_ctrl_get_numa_node,
  nvme_ctrl_get_queue_count, nvme_ctrl_get_sqsize, nvme_ctrl_get_phy_slot, nvme_ctrl_get_subsysnqn,
  nvme_ctrl_get_traddr, nvme_ctrl_get_trsvcid, nvme_ctrl_get_host_traddr, nvme_ctrl_get_host_iface,
}

module _ (fields : TreeFields) where
  unfoldable pub name : Controller → Result (List ℕ)
  name c = cstr_to_str (fields.text nvme_ctrl_get_name c.inner)

  unfoldable pub model : Controller → Result (List ℕ)
  model c = cstr_to_str (fields.text nvme_ctrl_get_model c.inner)

  unfoldable pub serial : Controller → Result (List ℕ)
  serial c = cstr_to_str (fields.text nvme_ctrl_get_serial c.inner)

  unfoldable pub firmware : Controller → Result (List ℕ)
  firmware c = cstr_to_str (fields.text nvme_ctrl_get_firmware c.inner)

  unfoldable pub transport : Controller → Result (List ℕ)
  transport c = cstr_to_str (fields.text nvme_ctrl_get_transport c.inner)

  unfoldable pub address : Controller → Result (List ℕ)
  address c = cstr_to_str (fields.text nvme_ctrl_get_address c.inner)

  unfoldable pub state : Controller → Result (List ℕ)
  state c = cstr_to_str (fields.text nvme_ctrl_get_state c.inner)

  unfoldable pub numa_node : Controller → Result (List ℕ)
  numa_node c = cstr_to_str (fields.text nvme_ctrl_get_numa_node c.inner)

  unfoldable pub queue_count : Controller → Result (List ℕ)
  queue_count c = cstr_to_str (fields.text nvme_ctrl_get_queue_count c.inner)

  unfoldable pub sq_size : Controller → Result (List ℕ)
  sq_size c = cstr_to_str (fields.text nvme_ctrl_get_sqsize c.inner)

  unfoldable pub phy_slot : Controller → Result (List ℕ)
  phy_slot c = cstr_to_str (fields.text nvme_ctrl_get_phy_slot c.inner)

  unfoldable pub subsystem_nqn : Controller → Result (List ℕ)
  subsystem_nqn c = cstr_to_str (fields.text nvme_ctrl_get_subsysnqn c.inner)

  unfoldable pub transport_address : Controller → Result (List ℕ)
  transport_address c = cstr_to_str (fields.text nvme_ctrl_get_traddr c.inner)

  unfoldable pub transport_service_id : Controller → Result (List ℕ)
  transport_service_id c = cstr_to_str (fields.text nvme_ctrl_get_trsvcid c.inner)

  unfoldable pub host_transport_address : Controller → Result (List ℕ)
  host_transport_address c = cstr_to_str (fields.text nvme_ctrl_get_host_traddr c.inner)

  unfoldable pub host_interface : Controller → Result (List ℕ)
  host_interface c = cstr_to_str (fields.text nvme_ctrl_get_host_iface c.inner)
