-- ===== src/Log/Layout.antt =====
-- The SMART log as the device sends it: the fields of `nvme_smart_log` (libnvme-sys/vendored-headers/nvme/types.h) in the
-- page's bytes, which `Controller::smart_log` (libnvme/src/controller.rs) returns. The numbers are little-endian, as on
-- the machine.
pub mod Laws
use libnvme_rs.Base.{ℕ, zero, suc, ◌+◌, List, [], ◌∷◌, take, drop, from_le_bytes}
use libnvme_rs.Headers.DeviceTypes.{NvmeSmartLog}

-- A field of `width` bytes at an offset, as bytes and as a number.
abbrev pub field_bytes : ℕ → ℕ → List ℕ → List ℕ
field_bytes offset width page = take width (drop offset page)

abbrev pub le_field : ℕ → ℕ → List ℕ → ℕ
le_field offset width page = from_le_bytes (field_bytes offset width page)

-- `count` numbers of two bytes from an offset on.
abbrev pub words_from : ℕ → ℕ → List ℕ → List ℕ
words_from offset zero page = []
words_from offset (suc count) page = le_field offset 2 page ∷ words_from (offset + 2) count page

unfoldable pub smart_log_of : List ℕ → NvmeSmartLog
smart_log_of page = record {
  critical_warning = le_field 0 1 page;
  temperature = field_bytes 1 2 page;
  avail_spare = le_field 3 1 page;
  spare_thresh = le_field 4 1 page;
  percent_used = le_field 5 1 page;
  endu_grp_crit_warn_sumry = le_field 6 1 page;
  data_units_read = field_bytes 32 16 page;
  data_units_written = field_bytes 48 16 page;
  host_reads = field_bytes 64 16 page;
  host_writes = field_bytes 80 16 page;
  ctrl_busy_time = field_bytes 96 16 page;
  power_cycles = field_bytes 112 16 page;
  power_on_hours = field_bytes 128 16 page;
  unsafe_shutdowns = field_bytes 144 16 page;
  media_errors = field_bytes 160 16 page;
  num_err_log_entries = field_bytes 176 16 page;
  warning_temp_time = le_field 192 4 page;
  critical_comp_time = le_field 196 4 page;
  temp_sensor = words_from 200 8 page;
  thm_temp1_trans_count = le_field 216 4 page;
  thm_temp2_trans_count = le_field 220 4 page;
  thm_temp1_total_time = le_field 224 4 page;
  thm_temp2_total_time = le_field 228 4 page;
}
