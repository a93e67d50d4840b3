-- ===== src/Requests.antt =====
-- Every command that libnvme/src offers on a namespace or a controller, as one type of requests, and a caller that makes
-- any number of them in any order. Left out are the methods for features other than the host identifier, whose buffers
-- are structures of a fixed size.
pub mod Commands
pub mod Laws
use libnvme_rs.Base.{◌*◌, ◌≤◌, length, ℕ, ℤ, Bool, List, [], ◌∷◌}
use libnvme_rs.Ffi.{Libnvme, Call}
use libnvme_rs.Namespace.{Namespace}
use libnvme_rs.Admin.{FeatureSelect, FirmwareAction, SelfTestAction}
use libnvme_rs.Io.Commands.{
  Transfer, BlockRange, read_execute, write_execute, compare_execute, verify_execute,
  write_zeroes_execute, write_uncorrectable_execute, flush,
}
use libnvme_rs.Io.RangeCommands.{Dsm, Copy, dsm_execute, copy_execute}
use libnvme_rs.Io.ReadToVec.{read_to_vec}
use libnvme_rs.Zns.{
  ZnsMgmtSend, ZnsMgmtRecv, ZnsAppend, mgmt_send_execute, mgmt_recv_execute, append_execute,
}
use libnvme_rs.Reservations.{
  ReservationAcquire, ReservationRegister, ReservationRelease, ReservationReport, acquire_execute,
  register_execute, release_execute, report_execute, report_execute_to_vec,
}
use libnvme_rs.Directives.{
  DirectiveSend, DirectiveRecv, directive_send_execute, directive_recv_execute,
}
use libnvme_rs.Format.{Format, format_execute}
use libnvme_rs.Tree.NamespaceFields.{ns_identify}
use libnvme_rs.Controller.{
  Controller, get_log_page, error_log, fw_download, fw_commit, create_namespace, delete_namespace,
  ns_attach_op, disconnect, reset,
}
use libnvme_rs.Controller.Setters.{ctrl_identify}
use libnvme_rs.Commands.{
  Sanitize, LockdownArgs, Security, sanitize_execute, self_test, lockdown, security_send,
  security_receive, set_property, get_property, GetLbaStatusArgs, get_lba_status,
}
use libnvme_rs.Commands.Passthru.{PassthruArgs, admin_passthru, io_passthru}
use libnvme_rs.Features.Get.{get_host_id}
use libnvme_rs.Features.Set.{set_host_id}

pub data NamespaceRequest : Type 0 where
  reading writing comparing : Transfer → NamespaceRequest
  verifying zeroing spoiling : BlockRange → NamespaceRequest
  flushing identifying : Namespace → NamespaceRequest
  reading_to_vec : Namespace → ℕ → ℕ → NamespaceRequest
  managing : Dsm → NamespaceRequest
  copying : Copy → NamespaceRequest
  zone_sending : ZnsMgmtSend → NamespaceRequest
  zone_receiving : ZnsMgmtRecv → NamespaceRequest
  appending : ZnsAppend → NamespaceRequest
  acquiring : ReservationAcquire → NamespaceRequest
  registering : ReservationRegister → NamespaceRequest
  releasing : ReservationRelease → NamespaceRequest
  reporting reporting_to_vec : ReservationReport → NamespaceRequest
  directing : DirectiveSend → NamespaceRequest
  asking : DirectiveRecv → NamespaceRequest
  formatting : Format → NamespaceRequest

pub data ControllerRequest : Type 0 where
  identifying resetting disconnecting : ControllerRequest
  -- `get_log_page`: the size, the page and the namespace
  logging : ℕ → ℕ → ℕ → ControllerRequest
  logging_errors : ℕ → ControllerRequest
  downloading creating : List ℕ → ControllerRequest
  committing : ℕ → FirmwareAction → Bool → ControllerRequest
  deleting : ℕ → ControllerRequest
  -- the namespace, the controllers, and whether to attach or to detach
  attaching : ℕ → List ℕ → ℕ → ControllerRequest
  testing : ℕ → SelfTestAction → ControllerRequest
  locking : LockdownArgs → ControllerRequest
  securing inquiring : Security → ControllerRequest
  setting_property : ℤ → ℕ → ControllerRequest
  getting_property : ℤ → ControllerRequest
  passing_admin passing_io : PassthruArgs → ControllerRequest
  asking_status : GetLbaStatusArgs → List ℕ → ControllerRequest
  getting_host_id : FeatureSelect → Bool → List ℕ → ControllerRequest
  setting_host_id : Bool → Bool → List ℕ → ControllerRequest

pub data Request : Type 0 where
  on_namespace : NamespaceRequest → Request
  on_controller : Controller → ControllerRequest → Request
  -- with the build flag `has_sanitize_emvs`
  sanitizing : Bool → Sanitize → Request

-- What a caller has to see to: for Get LBA Status four bytes for each dword that it asks for, as its documentation says,
-- and for Security Send and Receive, which take the buffer and its length apart, that the length is not beyond the
-- buffer.
abbrev pub IsSized : ControllerRequest → Type 0
IsSized (asking_status args buf) = args.mndw * 4 ≤ length buf
IsSized (securing s) = s.len ≤ length s.buf
IsSized (inquiring s) = s.len ≤ length s.buf
IsSized _ = Unit

abbrev pub IsFitting : Request → Type 0
IsFitting (on_controller c r) = IsSized r
IsFitting _ = Unit

module _ (lib : Libnvme) where
  -- The history of calls after a request, whatever became of it.
  unfoldable pub after_namespace : NamespaceRequest → List Call → List Call
  after_namespace (reading c) t = (read_execute lib c t).1
  after_namespace (writing c) t = (write_execute lib c t).1
  after_namespace (comparing c) t = (compare_execute lib c t).1
  after_namespace (verifying c) t = (verify_execute lib c t).1
  after_namespace (zeroing c) t = (write_zeroes_execute lib c t).1
  after_namespace (spoiling c) t = (write_uncorrectable_execute lib c t).1
  after_namespace (flushing ns) t = (flush lib ns t).1
  after_namespace (NamespaceRequest.identifying ns) t = (ns_identify lib ns t).1
  after_namespace (reading_to_vec ns slba nlb) t = (read_to_vec lib ns slba nlb t).1
  after_namespace (managing c) t = (dsm_execute lib c t).1
  after_namespace (copying c) t = (copy_execute lib c t).1
  after_namespace (zone_sending c) t = (mgmt_send_execute lib c t).1
  after_namespace (zone_receiving c) t = (mgmt_recv_execute lib c t).1
  after_namespace (appending c) t = (append_execute lib c t).1
  after_namespace (acquiring c) t = (acquire_execute lib c t).1
  after_namespace (registering c) t = (register_execute lib c t).1
  after_namespace (releasing c) t = (release_execute lib c t).1
  after_namespace (reporting c) t = (report_execute lib c t).1
  after_namespace (reporting_to_vec c) t = (report_execute_to_vec lib c t).1
  after_namespace (directing c) t = (directive_send_execute lib c t).1
  after_namespace (asking c) t = (directive_recv_execute lib c t).1
  after_namespace (formatting c) t = (format_execute lib c t).1

  unfoldable pub after_controller : Controller → ControllerRequest → List Call → List Call
  after_controller c ControllerRequest.identifying t = (ctrl_identify lib c t).1
  after_controller c resetting t = (reset lib c t).1
  after_controller c disconnecting t = (disconnect lib c t).1
  after_controller c (logging size lid nsid) t = (get_log_page lib c size lid nsid t).1
  after_controller c (logging_errors n) t = (error_log lib c n t).1
  after_controller c (downloading image) t = (fw_download lib c image t).1
  after_controller c (creating template) t = (create_namespace lib c template t).1
  after_controller c (committing slot action bpid) t = (fw_commit lib c slot action bpid t).1
  after_controller c (deleting nsid) t = (delete_namespace lib c nsid t).1
  after_controller c (attaching nsid ids sel) t = (ns_attach_op lib c nsid ids sel t).1
  after_controller c (testing nsid action) t = (self_test lib c nsid action t).1
  after_controller c (locking args) t = (lockdown lib c args t).1
  after_controller c (securing s) t = (security_send lib c s t).1
  after_controller c (inquiring s) t = (security_receive lib c s t).1
  after_controller c (setting_property offset value) t = (set_property lib c offset value t).1
  after_controller c (getting_property offset) t = (get_property lib c offset t).1
  after_controller c (passing_admin args) t = (admin_passthru lib c args t).1
  after_controller c (passing_io args) t = (io_passthru lib c args t).1
  after_controller c (asking_status args buf) t = (get_lba_status lib c args buf t).1
  after_controller c (getting_host_id sel exhid hostid) t = (get_host_id lib c sel exhid hostid t).1
  after_controller c (setting_host_id exhid save hostid) t =
      (set_host_id lib c exhid save hostid t).1

  unfoldable pub after_request : Request → List Call → List Call
  after_request (on_namespace r) t = after_namespace r t
  after_request (on_controller c r) t = after_controller c r t
  after_request (sanitizing has_emvs c) t = (sanitize_execute lib has_emvs c t).1

  -- A caller that makes one request after the other, the first at the head.
  unfoldable pub after_all : List Request → List Call → List Call
  after_all [] t = t
  after_all (r ∷ rs) t = after_all rs (after_request r t)
