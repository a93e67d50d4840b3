-- ===== src/Requests/Laws.antt =====
-- What any sequence of the commands of libnvme/src passes to libnvme.
use libnvme_rs.Base.{All, List, [], ◌∷◌}
use libnvme_rs.Ffi.{Libnvme, Call}
use libnvme_rs.Safety.{AllSafe}
use libnvme_rs.Controller.{Controller}
use libnvme_rs.Controller.Laws.{get_log_page-KeepsSafe, error_log-KeepsSafe, ns_attach_op-KeepsSafe}
use libnvme_rs.Commands.Laws.{
  security_send-KeepsSafe, security_receive-KeepsSafe, admin_passthru-KeepsSafe,
  io_passthru-KeepsSafe,
}
use libnvme_rs.Features.Laws.{get_host_id-KeepsSafe, set_host_id-KeepsSafe}
use libnvme_rs.Io.Commands.{opc_verify, opc_write_zeroes, opc_write_uncor}
use libnvme_rs.Io.Commands.Safe.{submit_range-KeepsSafe, flush-KeepsSafe}
use libnvme_rs.Io.RangeCommands.Laws.{dsm_execute-KeepsSafe, copy_execute-KeepsSafe}
use libnvme_rs.Zns.Laws.{
  mgmt_send_execute-KeepsSafe, mgmt_recv_execute-KeepsSafe, append_execute-KeepsSafe,
}
use libnvme_rs.Reservations.Laws.{report_execute-KeepsSafe}
use libnvme_rs.Directives.Laws.{directive_send_execute-KeepsSafe, directive_recv_execute-KeepsSafe}
use libnvme_rs.Requests.Commands.{
  get_lba_status-KeepsSafe, fw_download-KeepsSafe, sanitize_execute-KeepsSafe, self_test-KeepsSafe,
  lockdown-KeepsSafe, set_property-KeepsSafe, get_property-KeepsSafe, fw_commit-KeepsSafe,
  create_namespace-KeepsSafe, delete_namespace-KeepsSafe, reset-KeepsSafe,
  acquire_execute-KeepsSafe, register_execute-KeepsSafe, release_execute-KeepsSafe,
  format_execute-KeepsSafe, ctrl_identify-KeepsSafe, disconnect-KeepsSafe, ns_identify-KeepsSafe,
  read_execute-KeepsSafe, write_execute-KeepsSafe, compare_execute-KeepsSafe, read_to_vec-KeepsSafe,
  report_execute_to_vec-KeepsSafe,
}
use libnvme_rs.Requests.{
  NamespaceRequest, ControllerRequest, Request, reading, writing, comparing, verifying, zeroing,
  spoiling, flushing, reading_to_vec, managing, copying, zone_sending, zone_receiving, appending,
  acquiring, registering, releasing, reporting, reporting_to_vec, directing, asking, formatting,
  resetting, disconnecting, logging, logging_errors, downloading, creating, committing, deleting,
  attaching, testing, locking, securing, inquiring, setting_property, getting_property,
  passing_admin, passing_io, getting_host_id, setting_host_id, on_namespace, on_controller,
  sanitizing, after_namespace, after_controller, after_request, after_all, IsSized, IsFitting,
  asking_status,
}

module _ (lib : Libnvme) where
  after_namespace-AllSafe :
      (r : NamespaceRequest) (t : List Call) → AllSafe lib t → AllSafe lib (after_namespace lib r t)
  unfolding after_namespace
  after_namespace-AllSafe (reading c) t h = (read_execute-KeepsSafe lib c).keeps t h
  after_namespace-AllSafe (writing c) t h = (write_execute-KeepsSafe lib c).keeps t h
  after_namespace-AllSafe (comparing c) t h = (compare_execute-KeepsSafe lib c).keeps t h
  after_namespace-AllSafe (verifying c) t h = (submit_range-KeepsSafe lib c opc_verify).keeps t h
  after_namespace-AllSafe (zeroing c) t h =
      (submit_range-KeepsSafe lib c opc_write_zeroes).keeps t h
  after_namespace-AllSafe (spoiling c) t h =
      (submit_range-KeepsSafe lib c opc_write_uncor).keeps t h
  after_namespace-AllSafe (flushing ns) t h = (flush-KeepsSafe lib ns).keeps t h
  after_namespace-AllSafe (NamespaceRequest.identifying ns) t h =
      (ns_identify-KeepsSafe lib ns).keeps t h
  after_namespace-AllSafe (reading_to_vec ns slba nlb) t h =
      (read_to_vec-KeepsSafe lib ns slba nlb).keeps t h
  after_namespace-AllSafe (managing c) t h = (dsm_execute-KeepsSafe lib c).keeps t h
  after_namespace-AllSafe (copying c) t h = (copy_execute-KeepsSafe lib c).keeps t h
  after_namespace-AllSafe (zone_sending c) t h = (mgmt_send_execute-KeepsSafe lib c).keeps t h
  after_namespace-AllSafe (zone_receiving c) t h = (mgmt_recv_execute-KeepsSafe lib c).keeps t h
  after_namespace-AllSafe (appending c) t h = (append_execute-KeepsSafe lib c).keeps t h
  after_namespace-AllSafe (acquiring c) t h = (acquire_execute-KeepsSafe lib c).keeps t h
  after_namespace-AllSafe (registering c) t h = (register_execute-KeepsSafe lib c).keeps t h
  after_namespace-AllSafe (releasing c) t h = (release_execute-KeepsSafe lib c).keeps t h
  after_namespace-AllSafe (reporting c) t h = (report_execute-KeepsSafe lib c).keeps t h
  after_namespace-AllSafe (reporting_to_vec c) t h =
      (report_execute_to_vec-KeepsSafe lib c).keeps t h
  after_namespace-AllSafe (directing c) t h = (directive_send_execute-KeepsSafe lib c).keeps t h
  after_namespace-AllSafe (asking c) t h = (directive_recv_execute-KeepsSafe lib c).keeps t h
  after_namespace-AllSafe (formatting c) t h = (format_execute-KeepsSafe lib c).keeps t h

  after_controller-AllSafe :
      (c : Controller) (r : ControllerRequest) (t : List Call)
      → IsSized r
      → AllSafe lib t
      → AllSafe lib (after_controller lib c r t)
  unfolding after_controller
  after_controller-AllSafe c ControllerRequest.identifying t f h =
      (ctrl_identify-KeepsSafe lib c).keeps t h
  after_controller-AllSafe c resetting t f h = (reset-KeepsSafe lib c).keeps t h
  after_controller-AllSafe c disconnecting t f h = (disconnect-KeepsSafe lib c).keeps t h
  after_controller-AllSafe c (logging size lid nsid) t f h =
      (get_log_page-KeepsSafe lib c size lid nsid).keeps t h
  after_controller-AllSafe c (logging_errors n) t f h = (error_log-KeepsSafe lib c n).keeps t h
  after_controller-AllSafe c (downloading image) t f h =
      (fw_download-KeepsSafe lib c image).keeps t h
  after_controller-AllSafe c (creating template) t f h =
      (create_namespace-KeepsSafe lib c template).keeps t h
  after_controller-AllSafe c (committing slot action bpid) t f h =
      (fw_commit-KeepsSafe lib c slot action bpid).keeps t h
  after_controller-AllSafe c (deleting nsid) t f h =
      (delete_namespace-KeepsSafe lib c nsid).keeps t h
  after_controller-AllSafe c (attaching nsid ids sel) t f h =
      (ns_attach_op-KeepsSafe lib c nsid ids sel).keeps t h
  after_controller-AllSafe c (testing nsid action) t f h =
      (self_test-KeepsSafe lib c nsid action).keeps t h
  after_controller-AllSafe c (locking args) t f h = (lockdown-KeepsSafe lib c args).keeps t h
  after_controller-AllSafe c (securing s) t f h = (security_send-KeepsSafe lib c s f).keeps t h
  after_controller-AllSafe c (inquiring s) t f h = (security_receive-KeepsSafe lib c s f).keeps t h
  after_controller-AllSafe c (setting_property offset value) t f h =
      (set_property-KeepsSafe lib c offset value).keeps t h
  after_controller-AllSafe c (getting_property offset) t f h =
      (get_property-KeepsSafe lib c offset).keeps t h
  after_controller-AllSafe c (passing_admin args) t f h =
      (admin_passthru-KeepsSafe lib c args).keeps t h
  after_controller-AllSafe c (passing_io args) t f h = (io_passthru-KeepsSafe lib c args).keeps t h
  after_controller-AllSafe c (asking_status args buf) t f h =
      (get_lba_status-KeepsSafe lib c args buf f).keeps t h
  after_controller-AllSafe c (getting_host_id sel exhid hostid) t f h =
      (get_host_id-KeepsSafe lib c sel exhid hostid).keeps t h
  after_controller-AllSafe c (setting_host_id exhid save hostid) t f h =
      (set_host_id-KeepsSafe lib c exhid save hostid).keeps t h

  after_request-AllSafe :
      (r : Request) (t : List Call)
      → IsFitting r
      → AllSafe lib t
      → AllSafe lib (after_request lib r t)
  unfolding after_request
  after_request-AllSafe (on_namespace r) t f h = after_namespace-AllSafe r t h
  after_request-AllSafe (on_controller c r) t f h = after_controller-AllSafe c r t f h
  after_request-AllSafe (sanitizing has_emvs c) t f h =
      (sanitize_execute-KeepsSafe lib has_emvs c).keeps t h

  -- After safe calls, and whatever commands a caller then makes, in any number and order and with any arguments, all calls
  -- of libnvme are safe, if only each Get LBA Status has a buffer for the dwords that it asks for and each Security Send
  -- and Receive one for the transfer or allocation length that it gives: each length or count that is passed is covered by the
  -- buffer that goes with it, and a count of blocks that goes with data is a count of blocks of the namespace just opened
  -- which together are as long as the buffer. The features are not among the commands, but for the host identifier.
  pub after_all-AllSafe :
      (rs : List Request) (t : List Call)
      → All IsFitting rs
      → AllSafe lib t
      → AllSafe lib (after_all lib rs t)
  unfolding after_all
  after_all-AllSafe [] t f h = h
  after_all-AllSafe (r ∷ rs) t f h =
      after_all-AllSafe rs (after_request lib r t) f.1 (after_request-AllSafe r t f.0 h)
