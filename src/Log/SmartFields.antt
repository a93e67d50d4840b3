-- ===== src/Log/SmartFields.antt =====
-- libnvme/src/log.rs: the fields of the SMART log, as their accessors read them.
use libnvme_rs.Base.{ℕ, from_le_bytes}
use libnvme_rs.Headers.DeviceTypes.{NvmeSmartLog}

unfoldable pub critical_warning : NvmeSmartLog → ℕ
critical_warning log = log.critical_warning

unfoldable pub available_spare : NvmeSmartLog → ℕ
available_spare log = log.avail_spare

unfoldable pub available_spare_threshold : NvmeSmartLog → ℕ
available_spare_threshold log = log.spare_thresh

unfoldable pub percentage_used : NvmeSmartLog → ℕ
percentage_used log = log.percent_used

unfoldable pub endurance_group_critical_warning : NvmeSmartLog → ℕ
endurance_group_critical_warning log = log.endu_grp_crit_warn_sumry

unfoldable pub data_units_read : NvmeSmartLog → ℕ
data_units_read log = from_le_bytes log.data_units_read

unfoldable pub data_units_written : NvmeSmartLog → ℕ
data_units_written log = from_le_bytes log.data_units_written

unfoldable pub host_read_commands : NvmeSmartLog → ℕ
host_read_commands log = from_le_bytes log.host_reads

unfoldable pub host_write_commands : NvmeSmartLog → ℕ
host_write_commands log = from_le_bytes log.host_writes

unfoldable pub controller_busy_time_minutes : NvmeSmartLog → ℕ
controller_busy_time_minutes log = from_le_bytes log.ctrl_busy_time

unfoldable pub power_cycles : NvmeSmartLog → ℕ
power_cycles log = from_le_bytes log.power_cycles

unfoldable pub power_on_hours : NvmeSmartLog → ℕ
power_on_hours log = from_le_bytes log.power_on_hours

unfoldable pub unsafe_shutdowns : NvmeSmartLog → ℕ
unsafe_shutdowns log = from_le_bytes log.unsafe_shutdowns

unfoldable pub media_errors : NvmeSmartLog → ℕ
media_errors log = from_le_bytes log.media_errors

unfoldable pub num_error_log_entries : NvmeSmartLog → ℕ
num_error_log_entries log = from_le_bytes log.num_err_log_entries

unfoldable pub warning_temp_time_minutes : NvmeSmartLog → ℕ
warning_temp_time_minutes log = log.warning_temp_time

unfoldable pub critical_temp_time_minutes : NvmeSmartLog → ℕ
critical_temp_time_minutes log = log.critical_comp_time
