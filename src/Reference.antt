-- ===== src/Reference.antt =====
-- The crate's commands beside libnvme's own functions for the same purpose, the inline functions of
-- libnvme-sys/vendored-headers/nvme/ioctl.h.
pub mod Zones
use libnvme_rs.Error.{ok}
use libnvme_rs.Base.{
  ℕ, ℤ, ◌*◌, ◌%◌, ◌^◌, ◌≡◌, refl, Bool, false, true, if◌then◌else◌, u32, Option, none, some, List,
  length, arith, ◌<◌, ◌==◌, ap, ◌∙◌,
}
use libnvme_rs.Ffi.{
  Libnvme, ◌>>=◌, lift, issue, result_u32, nvme_io, nvme_get_log_page, nvme_directive_send,
  nvme_directive_recv, nvme_zns_mgmt_recv, Call, M, nvme_get_log,
}
use libnvme_rs.Headers.ApiTypes.{NvmeIoArgs}
use libnvme_rs.Headers.Ioctl.Logs.{
  nvme_get_nsid_log, nvme_get_log_error, nvme_get_log_smart, nvme_get_log_fw_slot,
}
use libnvme_rs.Headers.Ioctl.Namespaces.{
  nvme_ns_mgmt_create, nvme_ns_mgmt_delete, nvme_ns_mgmt_delete_timeout, nvme_ns_attach_ctrls,
  nvme_ns_detach_ctrls,
}
use libnvme_rs.Headers.Ioctl.Directives.{
  nvme_directive_send_stream_release_identifier, nvme_directive_send_stream_release_resource,
  nvme_directive_recv_identify_parameters, nvme_directive_recv_stream_parameters,
  nvme_directive_recv_stream_allocate,
}
use libnvme_rs.Headers.Ioctl.Transfers.{
  nvme_read, nvme_write, nvme_compare, nvme_write_zeros, nvme_write_uncorrectable, nvme_verify,
  nvme_zns_report_zones,
}
use libnvme_rs.Namespace.{Namespace, nsid}
use libnvme_rs.Headers.Ioctl.Constants.{
  nvme_zns_zra_extended_report_zones, nvme_zns_zra_report_zones, nvme_nsid_all,
  size_of_nvme_error_log_page, size_of_nvme_smart_log, size_of_nvme_firmware_slot,
  nvme_zns_zras_report_all, nvme_zns_zras_report_empty, nvme_zns_zras_report_impl_opened,
  nvme_zns_zras_report_expl_opened, nvme_zns_zras_report_closed, nvme_zns_zras_report_full,
  nvme_zns_zras_report_read_only, nvme_zns_zras_report_offline,
}
use libnvme_rs.Io.Commands.{
  opc_read, opc_write, opc_compare, opc_write_zeroes, opc_write_uncor, opc_verify,
}
use libnvme_rs.Zns.{
  ZoneRecvAction, report, extended_report, ZoneReportFilter, all_zones, empty, implicitly_opened,
  explicitly_opened, closed, full, read_only, offline_zones, ZnsMgmtRecv, recv_action_raw,
  report_filter_raw, raw_recv_args,
}
use libnvme_rs.Controller.{
  Controller, open_fd, all_namespaces, raw_get_log_args, ctrl_list, check_controllers,
  raw_ns_mgmt_args, raw_ns_attach_args, create_namespace, delete_namespace, ns_attach_op,
  attach_namespace, detach_namespace, zeros, filled, smart_log, fw_slot_log, error_log,
  fetch_error_log, get_log_page, entries_len,
}
use libnvme_rs.Directives.{
  DirectiveType, DirectiveSendOp, DirectiveRecvOp, DirectiveSend, DirectiveRecv, streams, identify,
  streams_release_identifier, streams_release_resource, identify_return_parameters,
  streams_return_parameters, streams_allocate_resources, directive_type_raw, send_op_raw,
  recv_op_raw, buf_len, raw_directive_send_args, raw_directive_recv_args,
}

module _ (lib : Libnvme) (c : Controller) where
  -- Creating, deleting, attaching and detaching a namespace open the controller and then make the call that
  -- libnvme's function of that name makes, for attaching and detaching after the check of the list.
  pub namespace_commands_equal :
      (template : List ℕ) (id : ℕ) (ids : List ℕ)
      → (create_namespace lib c template ≡ (
          open_fd lib c >>= λ fd.
          issue lib (nvme_ns_mgmt_create lib fd (some template) (some 0) 0 0 none) result_u32))
        × (delete_namespace lib c id
            ≡ (open_fd lib c >>= λ fd. issue lib (nvme_ns_mgmt_delete lib fd id) (λ _. tt)))
        × (attach_namespace lib c id ids ≡ (
            lift (check_controllers ids) >>= λ _. open_fd lib c >>= λ fd.
            issue lib (nvme_ns_attach_ctrls lib fd id (some (ctrl_list ids))) (λ _. tt)))
        × (detach_namespace lib c id ids ≡ (
            lift (check_controllers ids) >>= λ _. open_fd lib c >>= λ fd.
            issue lib (nvme_ns_detach_ctrls lib fd id (some (ctrl_list ids))) (λ _. tt)))
  unfolding create_namespace delete_namespace ns_attach_op raw_ns_mgmt_args raw_ns_attach_args
      nvme_ns_mgmt_create nvme_ns_mgmt_delete nvme_ns_mgmt_delete_timeout nvme_ns_attach_ctrls
      nvme_ns_detach_ctrls
  namespace_commands_equal template id ids = (refl, refl, refl, refl)

-- The same request for a log page, in one piece instead of the pieces of 4096 bytes that libnvme's functions ask for.
abbrev pub in_one_piece : Call → Call
in_one_piece (nvme_get_log_page _ args) = nvme_get_log args
in_one_piece c = c

module _ (lib : Libnvme) (c : Controller) where
  -- A log page of `size` bytes, by a call that libnvme's function makes: the controller is opened, the page is
  -- asked for in one piece, and what the device leaves in the buffer is the result.
  abbrev pub log_of : ℕ → (ℤ → Option (List ℕ) → Call) → M (List ℕ)
  log_of size ask = open_fd lib c >>= λ fd.
      issue lib (in_one_piece (ask fd (some (zeros size)))) (filled size (zeros size))

  entries_len-small :
      (n : ℕ)
      → size_of_nvme_error_log_page * n < 2 ^ 32
      → entries_len n ≡ ok (size_of_nvme_error_log_page * n)
  unfolding entries_len
  entries_len-small n small = ground arith

  is_some_entry : (n : ℕ) → 0 < n → (n == 0) ≡ false
  is_some_entry n h = ground arith

  error_log_asks :
      (n : ℕ)
      → 0 < n
      → size_of_nvme_error_log_page * n < 2 ^ 32
      → error_log lib c n
        ≡ log_of (size_of_nvme_error_log_page * n) (λ fd buf. nvme_get_log_error lib fd n false buf)
  unfolding error_log fetch_error_log nvme_get_nsid_log nvme_get_log_error raw_get_log_args
  error_log_asks n some_entry small =
      let size = size_of_nvme_error_log_page * n in
      let whole : size % 2 ^ 32 ≡ size = omega (arith, small) in
      let fetch : ℕ → M (List ℕ) = λ told. open_fd lib c >>= λ fd.
      issue lib (nvme_get_log (raw_get_log_args lib fd 0x01 all_namespaces (zeros size) (u32 size)))
        (filled told (zeros size)) in
      let asked : error_log lib c n ≡ fetch (u32 size) =
        rw (is_some_entry n some_entry, entries_len-small n small) refl in
      asked ∙ ap fetch whole

  -- The SMART and firmware logs, and the error log of one or more entries that together have fewer than 4 GiB, open the
  -- controller and then ask for their pages as libnvme's own functions for them do, but in one piece.
  pub log_commands_equal :
      (n : ℕ)
      → 0 < n
      → size_of_nvme_error_log_page * n < 2 ^ 32
      → (smart_log lib c size_of_nvme_smart_log
          ≡ log_of size_of_nvme_smart_log
              (λ fd buf. nvme_get_log_smart lib fd nvme_nsid_all false buf))
        × (fw_slot_log lib c size_of_nvme_firmware_slot
            ≡ log_of size_of_nvme_firmware_slot (λ fd buf. nvme_get_log_fw_slot lib fd false buf))
        × (error_log lib c n
            ≡ log_of
                (size_of_nvme_error_log_page * n)
                (λ fd buf. nvme_get_log_error lib fd n false buf))
  unfolding nvme_get_nsid_log nvme_get_log_smart nvme_get_log_fw_slot nvme_get_log_error
      raw_get_log_args get_log_page
  log_commands_equal n some_entry small = (refl, refl, error_log_asks n some_entry small)

-- The builders for the directives of streams, as they stand without further setters.
abbrev pub stream_send : Namespace → DirectiveSendOp → ℕ → DirectiveSend
stream_send ns op spec = record {
  ns = ns;
  dtype = streams;
  doper = op;
  payload = none;
  dspec = spec;
  cdw12 = 0;
  timeout_ms = 0;
}

abbrev pub stream_recv :
    Namespace → DirectiveType → DirectiveRecvOp → Option (List ℕ) → ℕ → DirectiveRecv
stream_recv ns dtype op buf cdw12 = record {
  ns = ns;
  dtype = dtype;
  doper = op;
  payload = buf;
  dspec = 0;
  cdw12 = cdw12;
  timeout_ms = 0;
}

module _ (lib : Libnvme) (ns : Namespace) (fd : ℤ) where
  -- Releasing a stream, releasing all resources of streams, and reading the parameters of directives and of streams
  -- into buffers of the size of these structures pass what libnvme's own functions pass, but for a pointer
  -- to the result, which those leave out; allocating streams passes the same.
  pub directive_args_equal :
      (stream_id nsr : ℕ) (parameters stream_parameters : List ℕ)
      → length parameters ≡ 4096
      → length stream_parameters ≡ 32
      → (nvme_directive_send_stream_release_identifier lib fd (nsid lib ns) stream_id
          ≡ nvme_directive_send
              (record (raw_directive_send_args lib
                (stream_send ns streams_release_identifier stream_id)
                fd) { result = none }))
        × (nvme_directive_send_stream_release_resource lib fd (nsid lib ns)
            ≡ nvme_directive_send
                (record (raw_directive_send_args lib
                  (stream_send ns streams_release_resource 0)
                  fd) { result = none }))
        × (nvme_directive_recv_identify_parameters lib fd (nsid lib ns) (some parameters)
            ≡ nvme_directive_recv
                (record (raw_directive_recv_args lib
                  (stream_recv ns identify identify_return_parameters (some parameters) 0)
                  fd) { result = none }))
        × (nvme_directive_recv_stream_parameters lib fd (nsid lib ns) (some stream_parameters)
            ≡ nvme_directive_recv
                (record (raw_directive_recv_args lib
                  (stream_recv ns streams streams_return_parameters (some stream_parameters) 0)
                  fd) { result = none }))
        × (nvme_directive_recv_stream_allocate lib fd (nsid lib ns) nsr (some 0)
            ≡ nvme_directive_recv (
                raw_directive_recv_args lib
                  (stream_recv ns streams streams_allocate_resources none nsr)
                  fd))
  unfolding nvme_directive_send_stream_release_identifier
      nvme_directive_send_stream_release_resource nvme_directive_recv_identify_parameters
      nvme_directive_recv_stream_parameters nvme_directive_recv_stream_allocate
      raw_directive_send_args raw_directive_recv_args directive_type_raw send_op_raw recv_op_raw
      buf_len
  directive_args_equal stream_id nsr parameters stream_parameters h k =
      (refl, refl, rw h refl, rw k refl, refl)
