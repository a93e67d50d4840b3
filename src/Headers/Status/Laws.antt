-- ===== src/Headers/Status/Laws.antt =====
-- What the status functions of libnvme-sys/vendored-headers/nvme/types.h read, and what libnvme/src/error.rs
-- keeps of it.
use libnvme_rs.Base.{
  ℕ, ◌+◌, ◌*◌, ◌/◌, ◌%◌, ◌^◌, ◌<◌, ◌≡◌, refl, ◌↔◌, true, pos, bit_and, bit_and_step, bit_and_ones,
  ap, arith,
}
use libnvme_rs.Headers.Fields.{nvme_set}
use libnvme_rs.Headers.Fields.Laws.{nvme_get_lem}
use libnvme_rs.Headers.Status.{
  sct, sc, nvme_status_code_type, nvme_status_code, status_type, nvme_status_get_type,
  nvme_status_get_value, nvme_status_equals,
}

-- A status field put together from a code, a type and more flags gives back the code and the type.
pub nvme_status_code_round_trip :
    (code type flags : ℕ)
    → code < 2 ^ 8
    → type < 2 ^ 3
    → let field = code + type * 2 ^ 8 + flags * 2 ^ 11 in
      (nvme_status_code field ≡ code) × (nvme_status_code_type field ≡ type)
unfolding nvme_status_code nvme_status_code_type
nvme_status_code_round_trip code type flags h k =
    let field = code + type * 2 ^ 8 + flags * 2 ^ 11 in
    omega (arith, nvme_get_lem field sc 8 refl, nvme_get_lem field sct 3 refl)

high_bits : (x : ℕ) → x < 8 → bit_and x 24 ≡ 0
high_bits x h = omega (
  arith,
  bit_and_step x 24,
  bit_and_step (x / 2) 12,
  bit_and_step (x / 2 / 2) 6,
  ap (λ (y : ℕ). bit_and y 3) (gone x h),
)
  where
    gone : (x : ℕ) → x < 8 → x / 2 / 2 / 2 ≡ 0
    gone x h = omega arith

-- What remains of a return value below 2^30 without its type bits: its low 27 bits and no others.
value_lem : (status : ℕ) → status < 2 ^ 30 → nvme_status_get_value status ≡ status % 2 ^ 27
unfolding nvme_status_get_value nvme_set
value_lem status h =
    omega (arith, bit_and_ones 27 status 24, high_bits (status / 2 ^ 27) (omega arith))

-- A return value that carries the type `type` and the value `value` equals just that type and value.
pub nvme_status_equals_iff :
    (value type v t : ℕ)
    → value < 2 ^ 27
    → type < 2 ^ 3
    → (nvme_status_equals (pos (value + type * 2 ^ 27)) t v ≡ true) ↔ ((t ≡ type) × (v ≡ value))
unfolding nvme_status_equals nvme_status_get_type
nvme_status_equals_iff value type v t h k =
    let status = value + type * 2 ^ 27 in
    ground (arith, value_lem status (omega arith), nvme_get_lem status status_type 3 refl)
