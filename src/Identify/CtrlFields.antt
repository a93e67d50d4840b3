-- ===== src/Identify/CtrlFields.antt =====
-- libnvme/src/identify.rs: the fields of Identify Controller, as their accessors read them.
use libnvme_rs.Base.{ℕ, List, from_le_bytes}
use libnvme_rs.Headers.DeviceTypes.{NvmeIdCtrl}
use libnvme_rs.Error.{Result}
use libnvme_rs.Util.{fixed_ascii_to_str}
use libnvme_rs.Identify.{NvmeVersion, version_from_raw}

unfoldable pub vendor_id : NvmeIdCtrl → ℕ
vendor_id id = id.vid

unfoldable pub subsystem_vendor_id : NvmeIdCtrl → ℕ
subsystem_vendor_id id = id.ssvid

unfoldable pub serial_number : NvmeIdCtrl → Result (List ℕ)
serial_number id = fixed_ascii_to_str id.sn

unfoldable pub model_number : NvmeIdCtrl → Result (List ℕ)
model_number id = fixed_ascii_to_str id.mn

unfoldable pub firmware_revision : NvmeIdCtrl → Result (List ℕ)
firmware_revision id = fixed_ascii_to_str id.fr

unfoldable pub ieee_oui : NvmeIdCtrl → List ℕ
ieee_oui id = id.ieee

unfoldable pub max_data_transfer_size_exp : NvmeIdCtrl → ℕ
max_data_transfer_size_exp id = id.mdts

unfoldable pub controller_id : NvmeIdCtrl → ℕ
controller_id id = id.cntlid

unfoldable pub nvme_version : NvmeIdCtrl → NvmeVersion
nvme_version id = version_from_raw id.ver

unfoldable pub controller_type : NvmeIdCtrl → ℕ
controller_type id = id.cntrltype

unfoldable pub fru_guid : NvmeIdCtrl → List ℕ
fru_guid id = id.fguid

unfoldable pub optional_admin_command_support : NvmeIdCtrl → ℕ
optional_admin_command_support id = id.oacs

unfoldable pub abort_command_limit : NvmeIdCtrl → ℕ
abort_command_limit id = id.acl

unfoldable pub async_event_request_limit : NvmeIdCtrl → ℕ
async_event_request_limit id = id.aerl

unfoldable pub firmware_updates : NvmeIdCtrl → ℕ
firmware_updates id = id.frmw

unfoldable pub log_page_attributes : NvmeIdCtrl → ℕ
log_page_attributes id = id.lpa

unfoldable pub error_log_page_entries : NvmeIdCtrl → ℕ
error_log_page_entries id = id.elpe

unfoldable pub num_power_states : NvmeIdCtrl → ℕ
num_power_states id = id.npss

unfoldable pub warning_temp_threshold_kelvin : NvmeIdCtrl → ℕ
warning_temp_threshold_kelvin id = id.wctemp

unfoldable pub critical_temp_threshold_kelvin : NvmeIdCtrl → ℕ
critical_temp_threshold_kelvin id = id.cctemp

unfoldable pub host_memory_buffer_preferred_size : NvmeIdCtrl → ℕ
host_memory_buffer_preferred_size id = id.hmpre

unfoldable pub host_memory_buffer_min_size : NvmeIdCtrl → ℕ
host_memory_buffer_min_size id = id.hmmin

unfoldable pub total_nvm_capacity_bytes : NvmeIdCtrl → ℕ
total_nvm_capacity_bytes id = from_le_bytes id.tnvmcap

unfoldable pub unallocated_nvm_capacity_bytes : NvmeIdCtrl → ℕ
unallocated_nvm_capacity_bytes id = from_le_bytes id.unvmcap

unfoldable pub submission_queue_entry_size : NvmeIdCtrl → ℕ
submission_queue_entry_size id = id.sqes

unfoldable pub completion_queue_entry_size : NvmeIdCtrl → ℕ
completion_queue_entry_size id = id.cqes

unfoldable pub max_commands_outstanding : NvmeIdCtrl → ℕ
max_commands_outstanding id = id.maxcmd

unfoldable pub num_namespaces : NvmeIdCtrl → ℕ
num_namespaces id = id.nn
