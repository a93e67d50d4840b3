-- ===== src/Error.antt =====
-- libnvme/src/error.rs: the crate's errors and the reading of libnvme's return values.
-- The text of a message is not rendered: each reason for `InvalidArgument` is a constructor, with the
-- numbers that the source formats into its text.
pub mod Laws
use libnvme_rs.Base.{ℕ, suc, ◌-◌, ◌^◌, ◌==◌, if◌then◌else◌, ℤ, pos, negsuc}

-- Why an argument was refused before libnvme was called.
pub data Reason : Type 0 where
  nlb_out_of_range : ℕ → Reason
  -- buffer length, nlb, lba_size and the length wanted
  buffer_length_mismatch : ℕ → ℕ → ℕ → ℕ → Reason
  -- buffer length and the length wanted (Zone Append)
  append_length_mismatch : ℕ → ℕ → Reason
  length_overflows_usize : Reason
  no_dsm_range no_copy_range : Reason
  too_many_dsm_ranges too_many_copy_ranges : ℕ → Reason
  missing_buffer short_report_buffer : Reason
  too_many_controllers : Reason
  entries_overflow_usize : Reason
  interior_nul : Reason

-- An `io::Error` made from an operating system's error number is that number, and a `Utf8Error` the
-- length of the valid prefix.
pub data Error : Type 0 where
  os : ℤ → Error
  nvme : ℕ → Error
  not_available : Error
  utf8 : ℕ → Error
  invalid_argument : Reason → Error
  -- `Os` of an `io::Error` of the kind `InvalidInput`, which has no number
  invalid_input : Error

pub data Result {ℓ} (A : Type ℓ) : Type ℓ where
  ok : A → Result A
  err : Error → Result A

-- `-ret` on an `i32`: the least value is its own negation when the addition wraps.
abbrev pub neg_i32 : ℤ → ℤ
neg_i32 (pos n) = if n == 0 then pos 0 else negsuc (n - 1)
neg_i32 (negsuc n) = if n == 2 ^ 31 - 1 then negsuc n else pos (suc n)

-- `check_ret`: zero is success, a negative value an error of the system, a positive one the NVMe
-- status. `errno` is what `last_os_error` reads after the call.
unfoldable pub check_ret : ℤ → ℕ → Result (Unit {0})
check_ret (pos n) errno = if n == 0 then ok tt else err (nvme n)
check_ret (negsuc n) errno = if n == 0 then err (os (pos errno)) else err (os (neg_i32 (negsuc n)))
