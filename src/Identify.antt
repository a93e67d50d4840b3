-- ===== src/Identify.antt =====
-- libnvme/src/identify.rs: the decoding of the Identify payloads; the accessors that return a field are in CtrlFields
-- and NsFields.
pub mod CtrlFields
pub mod NsFields
pub mod Laws
use libnvme_rs.Base.{
  ℕ, u8, u16, u32, ◌<<<◌, ◌>>>◌, ◌%◌, ◌==◌, if◌then◌else◌, bit_and, bit_or, Option, none, some,
  get_elem?,
}
use libnvme_rs.Headers.WireTypes.{NvmeLbaf}
use libnvme_rs.Headers.DeviceTypes.{NvmeIdNs}
use libnvme_rs.Headers.Fields.{Field, nvme_get}

pub record NvmeVersion : Type 0 where
  pub major : ℕ
  pub minor : ℕ
  pub tertiary : ℕ

unfoldable pub version_from_raw : ℕ → NvmeVersion
version_from_raw ver = record {
  major = u16 (ver >>> 16);
  minor = u8 (ver >>> 8);
  tertiary = u8 ver;
}

pub record LbaFormat : Type 0 where
  pub metadata_size : ℕ
  pub data_size_bytes : ℕ
  pub relative_performance : ℕ

-- `1u32 << ds` of a release build, which takes the shift modulo 32; a debug build stops there when `ds`
-- is 32 or more.
unfoldable pub format_from_raw : NvmeLbaf → LbaFormat
format_from_raw raw = record {
  metadata_size = raw.ms;
  data_size_bytes = if raw.ds == 0 then 0 else 1 <<< (raw.ds % 32);
  relative_performance = bit_and raw.rp 0x3;
}

-- A slot of the table that is in range, unless its block size is zero.
unfoldable pub supported : Option NvmeLbaf → Option LbaFormat
supported none = none
supported (some raw) =
    let format = format_from_raw raw in if format.data_size_bytes == 0 then none else some format

unfoldable pub lba_format : NvmeIdNs → ℕ → Option LbaFormat
lba_format id index = supported (get_elem? id.lbaf index)

-- `self.formatted_lba_size() & 0x0F`
unfoldable pub current_index : ℕ → ℕ
current_index flbas = bit_and flbas 0x0f

unfoldable pub current_lba_format : NvmeIdNs → Option LbaFormat
current_lba_format id = lba_format id (current_index id.flbas)

-- `NVME_FLBAS_LOWER` and `NVME_FLBAS_HIGHER`
abbrev pub flbas_lower : Field
flbas_lower = record { shift = 0; mask = 0xf }

abbrev pub flbas_higher : Field
flbas_higher = record { shift = 5; mask = 0x3 }

-- `nvme_id_ns_flbas_to_lbaf_inuse` of libnvme-sys/vendored-headers/nvme/util.h
unfoldable pub nvme_id_ns_flbas_to_lbaf_inuse : ℕ → ℕ
nvme_id_ns_flbas_to_lbaf_inuse flbas =
    u8 (bit_or (nvme_get flbas flbas_higher <<< 4) (nvme_get flbas flbas_lower))
