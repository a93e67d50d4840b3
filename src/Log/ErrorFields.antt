-- ===== src/Log/ErrorFields.antt =====
-- libnvme/src/log.rs: the fields of an entry of the error log, as their accessors read them.
use libnvme_rs.Base.{ℕ}
use libnvme_rs.Headers.DeviceTypes.{NvmeErrorLogPage}

unfoldable pub error_count : NvmeErrorLogPage → ℕ
error_count entry = entry.error_count

unfoldable pub submission_queue_id : NvmeErrorLogPage → ℕ
submission_queue_id entry = entry.sqid

unfoldable pub command_id : NvmeErrorLogPage → ℕ
command_id entry = entry.cmdid

unfoldable pub status_field : NvmeErrorLogPage → ℕ
status_field entry = entry.status_field

unfoldable pub parameter_error_location : NvmeErrorLogPage → ℕ
parameter_error_location entry = entry.parm_error_location

unfoldable pub lba : NvmeErrorLogPage → ℕ
lba entry = entry.lba

unfoldable pub nsid : NvmeErrorLogPage → ℕ
nsid entry = entry.nsid

unfoldable pub vendor_specific : NvmeErrorLogPage → ℕ
vendor_specific entry = entry.vs

unfoldable pub transport_type : NvmeErrorLogPage → ℕ
transport_type entry = entry.trtype

unfoldable pub csi : NvmeErrorLogPage → ℕ
csi entry = entry.csi

unfoldable pub opcode : NvmeErrorLogPage → ℕ
opcode entry = entry.opcode
