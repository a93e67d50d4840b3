-- ===== src/Tests/Reservations.antt =====
-- The theorems on libnvme/src/reservations.rs at a concrete report.
use libnvme_rs.Base.{ℕ, ◌≡◌, refl, pos, false, some, List, [], ◌∷◌, replicate, overwrite}
use libnvme_rs.Error.{ok, check_ret}
use libnvme_rs.Ffi.{issue, outcome, fd_of, nvme_ns_get_fd, nvme_resv_report}
use libnvme_rs.Namespace.{ns_fd}
use libnvme_rs.Reservations.{
  ReservationReport, ReportDone, report_buffer, report_done, raw_report_args, report_execute,
}
use libnvme_rs.Tests.{working, ns0}

abbrev blank : List ℕ
blank = replicate 64 0

abbrev request : ReservationReport
request = record { ns = ns0; buf = some blank; eds = false; timeout_ms = 0 }

abbrev answer : ReportDone
answer = record { result = 7; buf = 1 ∷ 2 ∷ replicate 62 0 }

report_read : report_execute working request [] ≡ (
  ok answer,
  nvme_resv_report (raw_report_args working request blank (pos 3)) ∷ nvme_ns_get_fd 5 ∷ [],
)
unfolding report_execute report_buffer report_done ns_fd fd_of issue outcome check_ret overwrite
report_read = refl
