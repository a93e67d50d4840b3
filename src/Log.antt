-- ===== src/Log.antt =====
-- libnvme/src/log.rs: the decoding of the SMART and firmware slot log pages; the accessors that return a field are in
-- SmartFields and ErrorFields.
pub mod SmartFields
pub mod ErrorFields
pub mod Layout
pub mod Laws
use libnvme_rs.Base.{
  ℕ, ◌-◌, ℤ, sub_ℕ, wrap_ℤ, signed, ◌>>>◌, ◌==◌, ltb, ◌||◌, if◌then◌else◌, bit_and, from_le_bytes,
  Option, none, some, get_elem?, List,
}
use libnvme_rs.Error.{Result, err, not_available}
use libnvme_rs.Headers.DeviceTypes.{NvmeSmartLog, NvmeFirmwareSlot}
use libnvme_rs.Util.{fixed_ascii_to_str}

unfoldable pub temperature_kelvin : NvmeSmartLog → ℕ
temperature_kelvin log = from_le_bytes log.temperature

-- `(kelvin as i32 - 273) as i16`
unfoldable pub temperature_celsius : NvmeSmartLog → ℤ
temperature_celsius log = signed 15 (wrap_ℤ 16 (sub_ℕ (temperature_kelvin log) 273))

-- A sensor of the array, of which the page has 8: the index is in range when it is read.
unfoldable pub reported : Option ℕ → Option ℕ
reported none = none
reported (some value) = if value == 0 then none else some value

unfoldable pub temperature_sensor_kelvin : NvmeSmartLog → ℕ → Option ℕ
temperature_sensor_kelvin log index =
    if ltb index 1 || ltb 8 index then none else reported (get_elem? log.temp_sensor (index - 1))

unfoldable pub active_slot : NvmeFirmwareSlot → ℕ
active_slot log = bit_and log.afi 0x07

unfoldable pub next_slot_to_activate : NvmeFirmwareSlot → Option ℕ
next_slot_to_activate log =
    let next = bit_and (log.afi >>> 4) 0x07 in if next == 0 then none else some next

-- The revision in a slot of the array, of which the page has 7.
unfoldable pub revision : Option (List ℕ) → Result (List ℕ)
revision none = err not_available
revision (some field) = fixed_ascii_to_str field

unfoldable pub slot_firmware : NvmeFirmwareSlot → ℕ → Result (List ℕ)
slot_firmware log slot =
    if ltb slot 1 || ltb 7 slot then err not_available else revision (get_elem? log.frs (slot - 1))
