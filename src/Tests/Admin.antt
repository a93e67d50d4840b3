-- ===== src/Tests/Admin.antt =====
-- The theorems on libnvme/src/error.rs, libnvme/src/controller.rs and the Format builder of
-- libnvme/src/namespace.rs at concrete inputs.
use libnvme_rs.Base.{ℕ, ◌<◌, ◌^◌, pos, ◌≡◌, refl, ◌≢◌, ◌↔◌, List, [], ◌∷◌, overwrite, length, arith}
use libnvme_rs.Error.{ok, err, nvme, check_ret}
use libnvme_rs.Error.Laws.{check_ret-eq-nvme_iff}
use libnvme_rs.Ffi.{nvme_ctrl_get_fd, nvme_get_log, fd_of, issue, outcome}
use libnvme_rs.Admin.{user_data, no_erase, cryptographic}
use libnvme_rs.Controller.{
  error_log, fetch_error_log, open_fd, entries_len, filled, raw_get_log_args, all_namespaces, zeros,
}
use libnvme_rs.Controller.Laws.{error_log-Announces_iff, Announces}
use libnvme_rs.Format.{FormatSetter, set_secure_erase, set_lba_format, new_format, raw_format_args}
use libnvme_rs.Format.Laws.{build, format_ses_iff}
use libnvme_rs.Tests.{working, ns0, ctrl0}

abbrev status : ℕ
status = 6

check_ret-eq-nvme_iff_example :
    (check_ret (pos status) 13 ≡ err (nvme status)) ↔ ((pos status ≡ pos status) × (status ≢ 0))
check_ret-eq-nvme_iff_example = check_ret-eq-nvme_iff (pos status) 13 status

abbrev entry : List ℕ
entry = 1 ∷ 2 ∷ zeros 62

one_entry_read : error_log working ctrl0 1 [] ≡ (
  ok entry,
  nvme_get_log (raw_get_log_args working (pos 3) 0x01 all_namespaces (zeros 64) 64)
      ∷ nvme_ctrl_get_fd 9
      ∷ [],
)
unfolding error_log fetch_error_log open_fd fd_of entries_len filled overwrite issue outcome
    check_ret
one_entry_read = refl

error_log-Announces_iff_example :
    (length entry ≡ 64)
    × ((len : ℕ) × Announces working ctrl0
          (nvme_get_log (raw_get_log_args working (pos 3) 0x01 all_namespaces (zeros 64) 64)
            ∷ nvme_ctrl_get_fd 9
            ∷ [])
          len
        × ((len ≡ length entry) ↔ (1 < 2 ^ 26)))
error_log-Announces_iff_example =
    error_log-Announces_iff working ctrl0 1 [] entry _ (omega arith) one_entry_read

abbrev erasing : List FormatSetter
erasing = set_secure_erase user_data ∷ set_lba_format 1 ∷ []

format_ses_iff_example :
    let ses = (raw_format_args working (build erasing (new_format ns0)) (pos 3)).ses in
    ((ses ≡ 0) ↔ (user_data ≡ no_erase))
    × ((ses ≡ 1) ↔ (user_data ≡ user_data))
    × ((ses ≡ 2) ↔ (user_data ≡ cryptographic))
format_ses_iff_example = format_ses_iff working ns0 erasing (pos 3)
