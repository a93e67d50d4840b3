-- ===== src/Tests/Commands.antt =====
-- The raw commands and the directives with a library that answers every call.
use libnvme_rs.Base.{ℕ, ◌≤◌, ◌↔◌, refl, pos, List, [], ◌∷◌, length}
use libnvme_rs.Ffi.{nvme_ctrl_get_fd, fd_of}
use libnvme_rs.Safety.{AllSafe}
use libnvme_rs.Controller.{open_fd}
use libnvme_rs.Commands.{GetLbaStatusArgs, get_lba_status}
use libnvme_rs.Commands.Laws.{get_lba_status_safe_iff}
use libnvme_rs.Tests.{working, ctrl0}

-- Four dwords are asked for, and the buffer has eight bytes.
abbrev four_dwords : GetLbaStatusArgs
four_dwords = record { nsid = 1; slba = 0; mndw = 4; atype = 0x10; rl = 0; timeout_ms = 0 }

abbrev eight_bytes : List ℕ
eight_bytes = 0 ∷ 0 ∷ 0 ∷ 0 ∷ 0 ∷ 0 ∷ 0 ∷ 0 ∷ []

get_lba_status_safe_iff_example :
    AllSafe working (get_lba_status working ctrl0 four_dwords eight_bytes []).1
    ↔ (16 ≤ length eight_bytes)
unfolding open_fd fd_of
get_lba_status_safe_iff_example =
    get_lba_status_safe_iff working ctrl0 four_dwords eight_bytes (pos 3) []
      (nvme_ctrl_get_fd 9 ∷ []) refl (tt, tt, tt)
