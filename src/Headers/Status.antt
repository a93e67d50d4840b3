-- ===== src/Headers/Status.antt =====
-- libnvme-sys/vendored-headers/nvme/types.h: the parts of a status. A `u16` status field and a non-negative
-- `int` return value are their numbers.
pub mod Laws
use libnvme_rs.Base.{ℕ, ◌-◌, ◌^◌, ◌==◌, ◌&&◌, Bool, false, u16, u32, bit_and, ℤ, pos, negsuc}
use libnvme_rs.Headers.Fields.{Field, nvme_get, nvme_set}

-- `NVME_SCT_SHIFT` and the others of `enum nvme_status_field`.
abbrev pub sct : Field
sct = record { shift = 8; mask = 0x7 }

abbrev pub sc : Field
sc = record { shift = 0; mask = 0xff }

unfoldable pub nvme_status_code_type : ℕ → ℕ
nvme_status_code_type status_field = u16 (nvme_get status_field sct)

unfoldable pub nvme_status_code : ℕ → ℕ
nvme_status_code status_field = u16 (nvme_get status_field sc)

abbrev pub status_type : Field
status_type = record { shift = 27; mask = 0x7 }

abbrev pub status_type_nvme : ℕ
status_type_nvme = 0

abbrev pub status_type_mi : ℕ
status_type_mi = 1

unfoldable pub nvme_status_get_type : ℕ → ℕ
nvme_status_get_type status = u32 (nvme_get status status_type)

-- `~x` on a `u32`
abbrev pub complement : ℕ → ℕ
complement x = 2 ^ 32 - 1 - x

unfoldable pub nvme_status_get_value : ℕ → ℕ
nvme_status_get_value status = bit_and status (complement (nvme_set status_type.mask status_type))

unfoldable pub nvme_status_equals : ℤ → ℕ → ℕ → Bool
nvme_status_equals (pos status) type value =
    nvme_status_get_type status == type && nvme_status_get_value status == value
nvme_status_equals (negsuc n) type value = false
