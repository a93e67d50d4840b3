-- ===== src/Io/Validate.antt =====
-- libnvme/src/io.rs: the checks on a caller's block count and buffer.
pub mod Laws
use libnvme_rs.Base.{ℕ, ◌-◌, ◌*◌, ◌==◌, ltb, u16, not, ◌||◌, if◌then◌else◌}
use libnvme_rs.Error.{Result, ok, err, invalid_argument, nlb_out_of_range, buffer_length_mismatch}

-- The 1-based count as the 0's based field.
unfoldable pub encode_nlb : ℕ → Result ℕ
encode_nlb nlb =
    if nlb == 0 || ltb 65536 nlb
    then err (invalid_argument (nlb_out_of_range nlb))
    else ok (u16 (nlb - 1))

-- The product of two `u32` values fits the `u64` in which the source takes it.
unfoldable pub check_buf_len : ℕ → ℕ → ℕ → Result (Unit {0})
check_buf_len buf_len nlb lba_size =
    let want = nlb * lba_size in
    if buf_len == want
    then ok tt
    else err (invalid_argument (buffer_length_mismatch buf_len nlb lba_size want))
