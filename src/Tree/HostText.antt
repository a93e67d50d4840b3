-- ===== src/Tree/HostText.antt =====
-- libnvme/src/host.rs: the texts of a host.
use libnvme_rs.Base.{ℕ, List}
use libnvme_rs.Error.{Result}
use libnvme_rs.Util.{cstr_to_str}
use libnvme_rs.Tree.{Host}
use libnvme_rs.Tree.Fields.{TreeFields, nvme_host_get_hostnqn, nvme_host_get_hostid}

module _ (fields : TreeFields) where
  unfoldable pub hostnqn : Host → Result (List ℕ)
  hostnqn h = cstr_to_str (fields.text nvme_host_get_hostnqn h.inner)

  unfoldable pub hostid : Host → Result (List ℕ)
  hostid h = cstr_to_str (fields.text nvme_host_get_hostid h.inner)
