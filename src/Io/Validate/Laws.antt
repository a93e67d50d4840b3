-- ===== src/Io/Validate/Laws.antt =====
-- Which counts and buffers the checks of libnvme/src/io.rs accept.
use libnvme_rs.Base.{ℕ, ◌+◌, ◌*◌, ◌<◌, ◌^◌, ◌≡◌, ◌↔◌, arith}
use libnvme_rs.Error.{ok}
use libnvme_rs.Io.Validate.{encode_nlb, check_buf_len}

-- A block count is encoded as `e` exactly when it is `e + 1` and `e` fits the 16-bit field: every
-- encodable count is accepted, every other one refused, and the field gives the count back.
pub encode_nlb_iff : (nlb e : ℕ) → (encode_nlb nlb ≡ ok e) ↔ ((nlb ≡ e + 1) × (e < 2 ^ 16))
unfolding encode_nlb
encode_nlb_iff nlb e = ground arith

pub check_buf_len_iff :
    (buf_len nlb lba_size : ℕ)
    → (check_buf_len buf_len nlb lba_size ≡ ok tt) ↔ (buf_len ≡ nlb * lba_size)
unfolding check_buf_len
check_buf_len_iff buf_len nlb lba_size = ground arith
