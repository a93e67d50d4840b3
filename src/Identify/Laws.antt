-- ===== src/Identify/Laws.antt =====
-- What libnvme/src/identify.rs reads out of the Identify payloads, and where it differs from libnvme.
use libnvme_rs.Base.{
  ℕ, ◌+◌, ◌*◌, ◌/◌, ◌%◌, ◌^◌, ◌≤◌, ◌<◌, ◌≡◌, refl, ap, ◌≢◌, ◌↔◌, Option, none, some, bit_and_mask,
  bit_or_low, get_elem?, arith,
}
use libnvme_rs.Headers.WireTypes.{NvmeLbaf}
use libnvme_rs.Headers.DeviceTypes.{NvmeIdNs}
use libnvme_rs.Headers.Fields.Laws.{nvme_get_lem}
use libnvme_rs.Identify.{
  version_from_raw, LbaFormat, format_from_raw, supported, lba_format, current_index,
  current_lba_format, flbas_lower, flbas_higher, nvme_id_ns_flbas_to_lbaf_inuse,
}
use native.Mathlib.Nat.{pow-le-pow_right}

-- The three numbers of a version hold the whole register: they give it back, and each fits its type.
pub version_from_raw_round_trip :
    (ver : ℕ)
    → ver < 2 ^ 32
    → let v = version_from_raw ver in
      (v.major * 2 ^ 16 + v.minor * 2 ^ 8 + v.tertiary ≡ ver)
      × (v.major < 2 ^ 16)
      × (v.minor < 2 ^ 8)
      × (v.tertiary < 2 ^ 8)
unfolding version_from_raw
version_from_raw_round_trip ver h = omega arith

pow_bounds :
    (ds : ℕ)
    → ((ds < 32 → 2 ^ (ds % 32) ≡ 2 ^ ds) × (32 ≤ ds → 2 ^ 32 ≤ 2 ^ ds)) × (2 ^ (ds % 32) ≤ 2 ^ 31)
pow_bounds ds = (
  (λ h. ap (λ (k : ℕ). 2 ^ k) (omega (arith, h)), λ h. pow-le-pow_right {n = 2} (omega arith) h),
  pow-le-pow_right {n = 2} (omega arith) {j = 31} (omega arith),
)

-- An LBA format reports the block size `2 ^ ds` exactly for exponents from 1 to 31.
pub format_from_raw_size_iff :
    (raw : NvmeLbaf)
    → ((format_from_raw raw).data_size_bytes ≡ 2 ^ raw.ds) ↔ ((1 ≤ raw.ds) × (raw.ds < 32))
unfolding format_from_raw
format_from_raw_size_iff raw = ground (arith, pow_bounds raw.ds)

-- The index that libnvme reads from `flbas`: its bits 5 and 6 above its bits 0 to 3.
inuse_lem : (flbas : ℕ) → nvme_id_ns_flbas_to_lbaf_inuse flbas ≡ flbas / 2 ^ 5 % 4 * 16 + flbas % 16
unfolding nvme_id_ns_flbas_to_lbaf_inuse
inuse_lem flbas =
    rw
      (
        nvme_get_lem flbas flbas_higher 2 refl,
        nvme_get_lem flbas flbas_lower 4 refl,
        bit_or_low 4 (flbas / 2 ^ 5 % 4) (flbas / 1 % 16) (omega arith),
      )
      (omega arith)

-- The crate looks at the format that libnvme names as the one in use exactly when bits 5 and 6 of
-- `flbas` are clear, as they are on a namespace with at most 16 formats.
pub current_index_iff :
    (flbas : ℕ)
    → (current_index flbas ≡ nvme_id_ns_flbas_to_lbaf_inuse flbas) ↔ (flbas / 2 ^ 5 % 4 ≡ 0)
unfolding current_index
current_index_iff flbas = omega (arith, bit_and_mask 4 flbas, inuse_lem flbas)

pub current_lba_format-eq-inuse :
    (id : NvmeIdNs)
    → id.flbas / 2 ^ 5 % 4 ≡ 0
    → current_lba_format id ≡ lba_format id (nvme_id_ns_flbas_to_lbaf_inuse id.flbas)
unfolding current_lba_format
current_lba_format-eq-inuse id h = rw ((current_index_iff id.flbas).1 h) refl

supported_iff :
    (slot : Option NvmeLbaf) (f : LbaFormat)
    → (supported slot ≡ some f)
      ↔ ((raw : NvmeLbaf) × (slot ≡ some raw) × (format_from_raw raw ≡ f) × (f.data_size_bytes ≢ 0))
unfolding supported
supported_iff none f = (λ h. cc, λ (raw, e, _, _). cc)
supported_iff (some raw) f =
    (λ h. (raw, refl, ground arith, ground arith), λ (raw', e, s, nz). ground arith)

-- A format is found exactly in a slot of the table whose block size is not zero, and then it is that
-- slot's.
pub lba_format_iff :
    (id : NvmeIdNs) (index : ℕ) (f : LbaFormat)
    → (lba_format id index ≡ some f) ↔ (
        (raw : NvmeLbaf) × (get_elem? id.lbaf index ≡ some raw)
        × (format_from_raw raw ≡ f)
        × (f.data_size_bytes ≢ 0))
unfolding lba_format
lba_format_iff id index f = supported_iff (get_elem? id.lbaf index) f
