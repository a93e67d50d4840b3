-- ===== src/Reservations.antt =====
-- libnvme/src/reservations.rs: the reservation commands. The builders' setters store one field each and are the
-- fields of the records.
pub mod Laws
use libnvme_rs.Base.{
  ℕ, ℤ, Bool, ltb, if◌then◌else◌, u32, Option, none, some, List, length, replicate, overwrite,
}
use libnvme_rs.Error.{Result, ok, err, invalid_argument, missing_buffer, short_report_buffer}
use libnvme_rs.Headers.ApiTypes.{
  NvmeResvAcquireArgs, NvmeResvRegisterArgs, NvmeResvReleaseArgs, NvmeResvReportArgs,
}
use libnvme_rs.Ffi.{
  Libnvme, M, ◌>>=◌, ◌>>◌, pure, lift, issue, Reply, result_u32, nvme_resv_acquire,
  nvme_resv_register, nvme_resv_release, nvme_resv_report, resv_acquire_args, resv_register_args,
  resv_release_args, resv_report_args,
}
use libnvme_rs.Namespace.{Namespace, nsid, ns_fd}

pub data ReservationType : Type 0 where
  write_exclusive exclusive_access write_exclusive_registrants_only
        exclusive_access_registrants_only write_exclusive_all_registrants
        exclusive_access_all_registrants :
      ReservationType

pub data AcquireAction : Type 0 where
  acquire preempt preempt_and_abort : AcquireAction

pub data RegisterAction : Type 0 where
  register unregister replace_key : RegisterAction

pub data ReleaseAction : Type 0 where
  release clear : ReleaseAction

pub data PtplChange : Type 0 where
  no_change clear_state persist : PtplChange

unfoldable pub reservation_type_raw : ReservationType → ℕ
reservation_type_raw write_exclusive = 1
reservation_type_raw exclusive_access = 2
reservation_type_raw write_exclusive_registrants_only = 3
reservation_type_raw exclusive_access_registrants_only = 4
reservation_type_raw write_exclusive_all_registrants = 5
reservation_type_raw exclusive_access_all_registrants = 6

unfoldable pub acquire_action_raw : AcquireAction → ℕ
acquire_action_raw acquire = 0
acquire_action_raw preempt = 1
acquire_action_raw preempt_and_abort = 2

unfoldable pub register_action_raw : RegisterAction → ℕ
register_action_raw register = 0
register_action_raw unregister = 1
register_action_raw replace_key = 2

unfoldable pub release_action_raw : ReleaseAction → ℕ
release_action_raw release = 0
release_action_raw clear = 1

unfoldable pub ptpl_change_raw : PtplChange → ℕ
ptpl_change_raw no_change = 0
ptpl_change_raw clear_state = 2
ptpl_change_raw persist = 3

pub record ReservationAcquire : Type 0 where
  pub ns : Namespace
  pub crkey : ℕ
  pub nrkey : ℕ
  pub rtype : ReservationType
  pub action : AcquireAction
  pub iekey : Bool
  pub timeout_ms : ℕ

pub record ReservationRegister : Type 0 where
  pub ns : Namespace
  pub crkey : ℕ
  pub nrkey : ℕ
  pub action : RegisterAction
  pub cptpl : PtplChange
  pub iekey : Bool
  pub timeout_ms : ℕ

pub record ReservationRelease : Type 0 where
  pub ns : Namespace
  pub crkey : ℕ
  pub rtype : ReservationType
  pub action : ReleaseAction
  pub iekey : Bool
  pub timeout_ms : ℕ

pub record ReservationReport : Type 0 where
  pub ns : Namespace
  pub buf : Option (List ℕ)
  pub eds : Bool
  pub timeout_ms : ℕ

-- `size_of::<nvme_resv_status>()`: the header of 24 bytes, and the 40 that the extended layout reserves
-- before its list of controllers.
abbrev pub resv_status_size : ℕ
resv_status_size = 64

-- The two checks of `ReservationReport::execute`.
unfoldable pub report_buffer : Option (List ℕ) → Result (List ℕ)
report_buffer none = err (invalid_argument missing_buffer)
report_buffer (some buf) =
    if ltb (length buf) resv_status_size then err (invalid_argument short_report_buffer) else ok buf

-- What a report returns: the result dword and the buffer.
pub record ReportDone : Type 0 where
  pub result : ℕ
  pub buf : List ℕ

unfoldable pub report_done : List ℕ → Reply → ReportDone
report_done buf r = record {
  result = result_u32 r;
  buf = overwrite (u32 (length buf)) buf r.data_bytes;
}

module _ (lib : Libnvme) where
  unfoldable pub raw_acquire_args : ReservationAcquire → ℤ → NvmeResvAcquireArgs
  raw_acquire_args c fd = record {
    crkey = c.crkey;
    nrkey = c.nrkey;
    result = some 0;
    args_size = lib.size_of resv_acquire_args;
    fd = fd;
    timeout = c.timeout_ms;
    nsid = nsid lib c.ns;
    rtype = reservation_type_raw c.rtype;
    racqa = acquire_action_raw c.action;
    iekey = c.iekey;
  }

  unfoldable pub acquire_execute : ReservationAcquire → M ℕ
  acquire_execute c = do
    fd ← ns_fd lib c.ns
    issue lib (nvme_resv_acquire (raw_acquire_args c fd)) result_u32

  unfoldable pub raw_register_args : ReservationRegister → ℤ → NvmeResvRegisterArgs
  raw_register_args c fd = record {
    crkey = c.crkey;
    nrkey = c.nrkey;
    result = some 0;
    args_size = lib.size_of resv_register_args;
    fd = fd;
    timeout = c.timeout_ms;
    nsid = nsid lib c.ns;
    rrega = register_action_raw c.action;
    cptpl = ptpl_change_raw c.cptpl;
    iekey = c.iekey;
  }

  unfoldable pub register_execute : ReservationRegister → M ℕ
  register_execute c = do
    fd ← ns_fd lib c.ns
    issue lib (nvme_resv_register (raw_register_args c fd)) result_u32

  unfoldable pub raw_release_args : ReservationRelease → ℤ → NvmeResvReleaseArgs
  raw_release_args c fd = record {
    crkey = c.crkey;
    result = some 0;
    args_size = lib.size_of resv_release_args;
    fd = fd;
    timeout = c.timeout_ms;
    nsid = nsid lib c.ns;
    rtype = reservation_type_raw c.rtype;
    rrela = release_action_raw c.action;
    iekey = c.iekey;
  }

  unfoldable pub release_execute : ReservationRelease → M ℕ
  release_execute c = do
    fd ← ns_fd lib c.ns
    issue lib (nvme_resv_release (raw_release_args c fd)) result_u32

  unfoldable pub raw_report_args : ReservationReport → List ℕ → ℤ → NvmeResvReportArgs
  raw_report_args c buf fd = record {
    result = some 0;
    report = some buf;
    args_size = lib.size_of resv_report_args;
    fd = fd;
    timeout = c.timeout_ms;
    nsid = nsid lib c.ns;
    len = u32 (length buf);
    eds = c.eds;
  }

  unfoldable pub report_execute : ReservationReport → M ReportDone
  report_execute c = do
    buf ← lift (report_buffer c.buf)
    fd ← ns_fd lib c.ns
    issue lib (nvme_resv_report (raw_report_args c buf fd)) (report_done buf)

  unfoldable pub report_execute_to_vec : ReservationReport → M (List ℕ)
  report_execute_to_vec c = do
    done ← report_execute (record c { buf = some (replicate 4096 0) })
    pure done.buf
