-- ===== src/Log/Layout/Laws.antt =====
-- The values that the accessors of libnvme/src/log.rs read from a SMART log fit the types that they return.
use libnvme_rs.Base.{
  ℕ, zero, suc, ◌^◌, ◌<◌, ◌≤◌, List, [], ◌∷◌, length, All, take, drop, from_le_bytes, length-take,
  IsByte, arith,
}
use native.Mathlib.Nat.{one-le-pow, pow-suc}
use libnvme_rs.Log.{temperature_kelvin}
use libnvme_rs.Log.SmartFields.{
  critical_warning, available_spare, percentage_used, data_units_read, data_units_written,
  host_read_commands, host_write_commands, controller_busy_time_minutes, power_cycles,
  power_on_hours, unsafe_shutdowns, media_errors, num_error_log_entries, warning_temp_time_minutes,
  critical_temp_time_minutes,
}
use libnvme_rs.Log.Layout.{field_bytes, le_field, smart_log_of}

abbrev pub AreBytes : List ℕ → Type 0
AreBytes page = All IsByte page

take-AreBytes : (n : ℕ) (page : List ℕ) → AreBytes page → AreBytes (take n page)
take-AreBytes zero page h = tt
take-AreBytes (suc n) [] h = tt
take-AreBytes (suc n) (b ∷ page) h = (h.0, take-AreBytes n page h.1)

drop-AreBytes : (n : ℕ) (page : List ℕ) → AreBytes page → AreBytes (drop n page)
drop-AreBytes zero page h = h
drop-AreBytes (suc n) [] h = tt
drop-AreBytes (suc n) (b ∷ page) h = drop-AreBytes n page h.1

-- A number of at most `n` bytes.
from_le_bytes_bound :
    (n : ℕ) (bs : List ℕ) → AreBytes bs → length bs ≤ n → from_le_bytes bs < 256 ^ n
unfolding from_le_bytes
from_le_bytes_bound n [] h k = one-le-pow n 256 (omega arith)
from_le_bytes_bound zero (b ∷ bs) h k = elim k [ ]
from_le_bytes_bound (suc n) (b ∷ bs) h k =
    let rest = from_le_bytes_bound n bs h.1 (omega arith) in
    rw (pow-suc 256 n) (omega (arith, h.0, rest))

field_bound :
    (offset width : ℕ) (page : List ℕ) → AreBytes page → le_field offset width page < 256 ^ width
field_bound offset width page h =
    from_le_bytes_bound width (field_bytes offset width page)
      (take-AreBytes width (drop offset page) (drop-AreBytes offset page h))
      (omega (arith, length-take width (drop offset page)))

-- From the bytes of a page the accessors of the SMART log read values that fit the types which they return: bytes,
-- a temperature of 16 bits, counters of 128 bits and times of 32 bits.
pub smart_values_fit :
    (page : List ℕ)
    → AreBytes page
    → let log = smart_log_of page in
      (critical_warning log < 2 ^ 8)
      × (available_spare log < 2 ^ 8)
      × (percentage_used log < 2 ^ 8)
      × (temperature_kelvin log < 2 ^ 16)
      × (data_units_read log < 2 ^ 128)
      × (data_units_written log < 2 ^ 128)
      × (host_read_commands log < 2 ^ 128)
      × (host_write_commands log < 2 ^ 128)
      × (controller_busy_time_minutes log < 2 ^ 128)
      × (power_cycles log < 2 ^ 128)
      × (power_on_hours log < 2 ^ 128)
      × (unsafe_shutdowns log < 2 ^ 128)
      × (media_errors log < 2 ^ 128)
      × (num_error_log_entries log < 2 ^ 128)
      × (warning_temp_time_minutes log < 2 ^ 32)
      × (critical_temp_time_minutes log < 2 ^ 32)
unfolding smart_log_of critical_warning available_spare percentage_used temperature_kelvin
    data_units_read data_units_written host_read_commands host_write_commands
    controller_busy_time_minutes power_cycles power_on_hours unsafe_shutdowns media_errors
    num_error_log_entries warning_temp_time_minutes critical_temp_time_minutes
smart_values_fit page h = (
  field_bound 0 1 page h,
  field_bound 3 1 page h,
  field_bound 5 1 page h,
  field_bound 1 2 page h,
  field_bound 32 16 page h,
  field_bound 48 16 page h,
  field_bound 64 16 page h,
  field_bound 80 16 page h,
  field_bound 96 16 page h,
  field_bound 112 16 page h,
  field_bound 128 16 page h,
  field_bound 144 16 page h,
  field_bound 160 16 page h,
  field_bound 176 16 page h,
  field_bound 192 4 page h,
  field_bound 196 4 page h,
)
