-- ===== src/Error/Laws.antt =====
-- How `check_ret` of libnvme/src/error.rs sorts the values that libnvme returns.
use libnvme_rs.Base.{ℕ, suc, ◌<◌, ◌^◌, ℤ, pos, negsuc, ◌≡◌, ◌↔◌, ◌≢◌, arith, if◌then◌else◌, ◌==◌}
use libnvme_rs.Error.{ok, err, os, nvme, check_ret}

-- A call succeeds exactly when libnvme returns zero, whatever `errno` holds.
pub check_ret-eq-ok_iff : (ret : ℤ) (errno : ℕ) → (check_ret ret errno ≡ ok tt) ↔ (ret ≡ pos 0)
unfolding check_ret
check_ret-eq-ok_iff ret errno = ground arith

-- The status that the device reported is kept whole: a call ends in `Nvme(s)` exactly when libnvme
-- returned `s` and `s` is positive.
pub check_ret-eq-nvme_iff :
    (ret : ℤ) (errno s : ℕ) → (check_ret ret errno ≡ err (nvme s)) ↔ ((ret ≡ pos s) × (s ≢ 0))
unfolding check_ret
check_ret-eq-nvme_iff ret errno s = ground arith

-- A negative value other than -1 carries the error number itself, -1 refers to `errno`.
pub check_ret_negative :
    (n errno : ℕ)
    → suc n < 2 ^ 31
    → check_ret (negsuc n) errno ≡ err (os (pos (if n == 0 then errno else suc n)))
unfolding check_ret
check_ret_negative n errno h = ground arith
