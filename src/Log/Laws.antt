-- ===== src/Log/Laws.antt =====
-- What libnvme/src/log.rs reads out of the log pages.
use libnvme_rs.Base.{
  ℕ, ◌-◌, ◌/◌, ◌%◌, ◌^◌, ◌≤◌, ◌<◌, ◌≡◌, ◌≢◌, ◌↔◌, some, List, ◌++◌, get_elem?, bit_and_mask, sub_ℕ,
  arith, All,
}
use libnvme_rs.Error.{ok}
use libnvme_rs.Headers.DeviceTypes.{NvmeSmartLog, NvmeFirmwareSlot}
use libnvme_rs.Util.Laws.{fixed_ascii_to_str_round_trip, EndsInGraphic, IsNulOrSpace}
use libnvme_rs.Log.{
  temperature_kelvin, temperature_celsius, reported, temperature_sensor_kelvin, active_slot,
  next_slot_to_activate, revision, slot_firmware,
}

-- The temperature in Celsius is the one in Kelvin less 273 exactly up to 33040 K, above which the 16-bit
-- value wraps.
pub temperature_celsius_iff :
    (log : NvmeSmartLog)
    → temperature_kelvin log < 2 ^ 16
    → (temperature_celsius log ≡ sub_ℕ (temperature_kelvin log) 273)
      ↔ (temperature_kelvin log ≤ 33040)
unfolding temperature_celsius
temperature_celsius_iff log h = ground arith

-- A sensor reads as `v` exactly when its index is from 1 to 8 and its entry is `v` and not zero.
pub temperature_sensor_kelvin_iff :
    (log : NvmeSmartLog) (index v : ℕ)
    → (temperature_sensor_kelvin log index ≡ some v)
      ↔ ((1 ≤ index) × (index ≤ 8) × (get_elem? log.temp_sensor (index - 1) ≡ some v) × (v ≢ 0))
unfolding temperature_sensor_kelvin reported
temperature_sensor_kelvin_iff log index v = ground arith

-- The slot in use and the slot of the next reset are the bits 0 to 2 and 4 to 6 of the page's first byte,
-- where zero in the latter stands for none.
pub next_slot_to_activate_iff :
    (log : NvmeFirmwareSlot) (slot : ℕ)
    → (active_slot log ≡ log.afi % 8)
      × ((next_slot_to_activate log ≡ some slot) ↔ ((slot ≡ log.afi / 16 % 8) × (slot ≢ 0)))
unfolding active_slot next_slot_to_activate
next_slot_to_activate_iff log slot =
    ground (arith, bit_and_mask 3 log.afi, bit_and_mask 3 (log.afi / 2 ^ 4))

-- A slot from 1 to 7 gives the revision that its field holds, less the padding.
pub slot_firmware_lem :
    (log : NvmeFirmwareSlot) (slot : ℕ) (text pads : List ℕ)
    → 1 ≤ slot
    → slot ≤ 7
    → get_elem? log.frs (slot - 1) ≡ some (text ++ pads)
    → All (λ b. b < 128) text
    → EndsInGraphic text
    → All IsNulOrSpace pads
    → slot_firmware log slot ≡ ok text
unfolding slot_firmware revision
slot_firmware_lem log slot text pads lo hi e a c p =
    ground (arith, fixed_ascii_to_str_round_trip text pads a c p)
