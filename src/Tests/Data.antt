-- ===== src/Tests/Data.antt =====
-- The theorems on the decoders at concrete payloads: libnvme/src/util.rs, identify.rs and log.rs, and
-- libnvme-sys/vendored-headers/nvme.
use libnvme_rs.Base.{
  ℕ, ◌/◌, ◌%◌, ◌<◌, ◌^◌, ◌≤◌, ◌≡◌, refl, ◌↔◌, some, List, [], ◌∷◌, ◌++◌, from_le_bytes, arith, All,
  inl, inr,
}
use libnvme_rs.Error.{ok}
use libnvme_rs.Util.{
  fixed_ascii_to_str, cstr_to_str, str_to_cstring, is_content, is_ascii_whitespace, has_nul,
}
use libnvme_rs.Util.Laws.{
  EndsInContent, fixed_ascii_to_str_round_trip, cstr_to_str-str_to_cstring, EndsInGraphic,
  IsNulOrSpace,
}
use libnvme_rs.Headers.WireTypes.{NvmeLbaf}
use libnvme_rs.Headers.DeviceTypes.{NvmeSmartLog}
use libnvme_rs.Identify.{format_from_raw, current_index, nvme_id_ns_flbas_to_lbaf_inuse}
use libnvme_rs.Identify.Laws.{format_from_raw_size_iff, current_index_iff}
use libnvme_rs.Log.{temperature_kelvin}

-- "A1" padded with a space and a NUL.
abbrev text : List ℕ
text = 0x41 ∷ 0x31 ∷ []

abbrev pads : List ℕ
pads = 0x20 ∷ 0 ∷ []

text_ascii : All (λ b. b < 128) text
text_ascii = (omega arith, (omega arith, tt))

text_ends : EndsInContent text
unfolding is_content is_ascii_whitespace
text_ends = refl

text_ends_graphic : EndsInGraphic text
text_ends_graphic = omega arith

pads-IsNulOrSpace : All IsNulOrSpace pads
pads-IsNulOrSpace = (inr refl, (inl refl, tt))

fixed_ascii_to_str_round_trip_example : fixed_ascii_to_str (text ++ pads) ≡ ok text
fixed_ascii_to_str_round_trip_example =
    fixed_ascii_to_str_round_trip text pads text_ascii text_ends_graphic pads-IsNulOrSpace

text_cstring : str_to_cstring text ≡ ok (0x41 ∷ 0x31 ∷ 0 ∷ [])
unfolding str_to_cstring has_nul
text_cstring = refl

cstr_to_str-str_to_cstring_example : cstr_to_str (some (0x41 ∷ 0x31 ∷ 0 ∷ [])) ≡ ok text
cstr_to_str-str_to_cstring_example =
    cstr_to_str-str_to_cstring text (0x41 ∷ 0x31 ∷ 0 ∷ []) text_ascii text_ends text_cstring

abbrev lbaf_4k : NvmeLbaf
lbaf_4k = record { ms = 8; ds = 12; rp = 1 }

format_from_raw_size_iff_example :
    ((format_from_raw lbaf_4k).data_size_bytes ≡ 2 ^ 12) ↔ ((1 ≤ 12) × (12 < 32))
format_from_raw_size_iff_example = format_from_raw_size_iff lbaf_4k

current_index_iff_example :
    (current_index 0x31 ≡ nvme_id_ns_flbas_to_lbaf_inuse 0x31) ↔ (0x31 / 2 ^ 5 % 4 ≡ 0)
current_index_iff_example = current_index_iff 0x31

abbrev smart : NvmeSmartLog
smart = record {
  critical_warning = 0;
  temperature = 0x2c ∷ 1 ∷ [];
  avail_spare = 0;
  spare_thresh = 0;
  percent_used = 0;
  endu_grp_crit_warn_sumry = 0;
  data_units_read = [];
  data_units_written = [];
  host_reads = [];
  host_writes = [];
  ctrl_busy_time = [];
  power_cycles = [];
  power_on_hours = [];
  unsafe_shutdowns = [];
  media_errors = [];
  num_err_log_entries = [];
  warning_temp_time = 0;
  critical_comp_time = 0;
  temp_sensor = 300 ∷ 301 ∷ 0 ∷ 0 ∷ 0 ∷ 0 ∷ 0 ∷ 0 ∷ [];
  thm_temp1_trans_count = 0;
  thm_temp2_trans_count = 0;
  thm_temp1_total_time = 0;
  thm_temp2_total_time = 0;
}

room : temperature_kelvin smart < 2 ^ 16
unfolding temperature_kelvin from_le_bytes
room = omega arith
