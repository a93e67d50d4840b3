-- ===== src/Reservations/Laws.antt =====
-- What the reservation commands of libnvme/src/reservations.rs pass to libnvme.
use libnvme_rs.Keeps.{lift->>=-Keeps, >>=-Keeps}
use libnvme_rs.Base.{
  ℕ, ◌≤◌, ◌≡◌, ap, ◌↔◌, ℤ, Option, some, List, length, u32, length-overwrite, arith,
}
use libnvme_rs.Error.{Result, ok}
use libnvme_rs.Ffi.{
  Libnvme, M, Call, Reply, ◌>>=◌, lift, issue, outcome, >>=-eq-ok, nvme_resv_report,
}
use libnvme_rs.Namespace.{ns_fd}
use libnvme_rs.Safety.{IsSafe, KeepsSafe, issue-KeepsSafe, ns_fd-KeepsSafe}
use libnvme_rs.Reservations.{
  ReservationReport, resv_status_size, report_buffer, report_done, ReportDone, raw_report_args,
  report_execute,
}

-- A report is accepted exactly with a buffer that holds the status structure.
pub report_buffer_iff :
    (given : Option (List ℕ)) (buf : List ℕ)
    → (report_buffer given ≡ ok buf) ↔ ((given ≡ some buf) × (resv_status_size ≤ length buf))
unfolding report_buffer
report_buffer_iff given buf = ground arith

module _ (lib : Libnvme) (c : ReservationReport) where
  report_args-IsSafe :
      (buf : List ℕ) (fd : ℤ) → IsSafe (nvme_resv_report (raw_report_args lib c buf fd))
  unfolding raw_report_args
  report_args-IsSafe buf fd = (omega arith, λ h. cc)

  -- A report passes a buffer, never NULL, that covers the length that it announces.
  pub report_execute-KeepsSafe : KeepsSafe lib (report_execute lib c)
  unfolding report_execute
  report_execute-KeepsSafe = lift->>=-Keeps λ buf _. >>=-Keeps (ns_fd-KeepsSafe lib c.ns) λ fd.
      issue-KeepsSafe lib (nvme_resv_report (raw_report_args lib c buf fd)) (report_done buf) tt
        (report_args-IsSafe buf fd)

  -- A report that succeeds was given room for the status structure, and returns a buffer of the caller's
  -- length.
  pub report_execute_length :
      (buf : List ℕ) (t : List Call) (d : ReportDone) (t' : List Call)
      → c.buf ≡ some buf
      → report_execute lib c t ≡ (ok d, t')
      → (resv_status_size ≤ length buf) × (length d.buf ≡ length buf)
  unfolding report_execute
  report_execute_length buf t d t' g h =
      let send : List ℕ → ℤ → M ReportDone =
        λ b fd. issue lib (nvme_resv_report (raw_report_args lib c b fd)) (report_done b) in
      let (b, t1, e, h1) =
        >>=-eq-ok (lift (report_buffer c.buf)) (λ b. ns_fd lib c.ns >>= send b) t h in
      let (fd, t2, _, h2) = >>=-eq-ok (ns_fd lib c.ns) (send b) t1 h1 in
      let accepted = (report_buffer_iff c.buf b).0 (accepted_value e) in
      let (r, done) = issued b fd t2 d t' h2 in
      ground (arith, accepted.0, accepted.1, g, done, length-done b r)
    where
      accepted_value :
          {x : Result (List ℕ)} {b : List ℕ} {t t1 : List Call} → lift x t ≡ (ok b, t1) → x ≡ ok b
      accepted_value h = ap (λ p. p.0) h

      length-done : (b : List ℕ) (r : Reply) → length (report_done b r).buf ≡ length b
      length-done b r = unfold report_done in length-overwrite (u32 (length b)) b r.data_bytes

      issued :
          (b : List ℕ) (fd : ℤ) (t : List Call) (d : ReportDone) (t' : List Call)
          → issue lib (nvme_resv_report (raw_report_args lib c b fd)) (report_done b) t ≡ (ok d, t')
          → (r : Reply) × (report_done b r ≡ d)
      issued b fd t d t' h =
          let r = lib.answer t (nvme_resv_report (raw_report_args lib c b fd)) in
          (r, unfold issue outcome in ground (arith, h))
