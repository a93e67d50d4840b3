-- ===== src/Identify/NsFields.antt =====
-- libnvme/src/identify.rs: the fields of Identify Namespace, as their accessors read them.
use libnvme_rs.Base.{ℕ, List, from_le_bytes}
use libnvme_rs.Headers.DeviceTypes.{NvmeIdNs}

unfoldable pub size_lbas : NvmeIdNs → ℕ
size_lbas id = id.nsze

unfoldable pub capacity_lbas : NvmeIdNs → ℕ
capacity_lbas id = id.ncap

unfoldable pub utilization_lbas : NvmeIdNs → ℕ
utilization_lbas id = id.nuse

unfoldable pub features : NvmeIdNs → ℕ
features id = id.nsfeat

unfoldable pub num_lba_formats : NvmeIdNs → ℕ
num_lba_formats id = id.nlbaf

unfoldable pub formatted_lba_size : NvmeIdNs → ℕ
formatted_lba_size id = id.flbas

unfoldable pub metadata_capabilities : NvmeIdNs → ℕ
metadata_capabilities id = id.mc

unfoldable pub data_protection_capabilities : NvmeIdNs → ℕ
data_protection_capabilities id = id.dpc

unfoldable pub data_protection_setting : NvmeIdNs → ℕ
data_protection_setting id = id.dps

unfoldable pub multipath_capabilities : NvmeIdNs → ℕ
multipath_capabilities id = id.nmic

unfoldable pub reservation_capabilities : NvmeIdNs → ℕ
reservation_capabilities id = id.rescap

unfoldable pub nvm_capacity_bytes : NvmeIdNs → ℕ
nvm_capacity_bytes id = from_le_bytes id.nvmcap

unfoldable pub atomic_write_unit_normal : NvmeIdNs → ℕ
atomic_write_unit_normal id = id.nawun

unfoldable pub nguid : NvmeIdNs → List ℕ
nguid id = id.nguid

unfoldable pub eui64 : NvmeIdNs → List ℕ
eui64 id = id.eui64
