-- ===== src/Tests/Reference.antt =====
-- The crate's commands and libnvme's functions at concrete arguments, and the checks of texts and identifiers.
use libnvme_rs.Reference.Zones.{report_option, zone_report_equal}
use libnvme_rs.Util.Utf8.{from_utf8, utf8_error}
use libnvme_rs.Headers.Ioctl.Constants.{nvme_nsid_all}
use libnvme_rs.Base.{
  ℕ, ◌≡◌, refl, pos, false, true, none, some, List, [], ◌∷◌, length, replicate, u32, arith, ◌++◌,
  All, ◌≤◌, ◌≢◌,
}
use libnvme_rs.Error.{err, invalid_input, ok}
use libnvme_rs.Ffi.{
  ◌>>=◌, lift, issue, result_u32, nvme_directive_send, nvme_directive_recv, nvme_zns_mgmt_recv,
}
use libnvme_rs.Headers.Ioctl.Logs.{nvme_get_log_error, nvme_get_log_smart, nvme_get_log_fw_slot}
use libnvme_rs.Headers.Ioctl.Namespaces.{
  nvme_ns_mgmt_create, nvme_ns_mgmt_delete, nvme_ns_attach_ctrls, nvme_ns_detach_ctrls,
}
use libnvme_rs.Headers.Ioctl.Directives.{
  nvme_directive_send_stream_release_identifier, nvme_directive_send_stream_release_resource,
  nvme_directive_recv_identify_parameters, nvme_directive_recv_stream_parameters,
  nvme_directive_recv_stream_allocate,
}
use libnvme_rs.Headers.Ioctl.Transfers.{nvme_zns_report_zones}
use libnvme_rs.Namespace.{nsid}
use libnvme_rs.Util.{
  cstr_to_str, trim_trailing_padding, until_nul, rposition, is_content, is_ascii_whitespace,
}
use libnvme_rs.Admin.{current}
use libnvme_rs.Controller.{
  open_fd, ctrl_list, check_controllers, create_namespace, delete_namespace, attach_namespace,
  detach_namespace, smart_log, fw_slot_log, error_log,
}
use libnvme_rs.Directives.{
  streams, identify, streams_release_identifier, streams_release_resource,
  identify_return_parameters, streams_return_parameters, streams_allocate_resources,
  raw_directive_send_args, raw_directive_recv_args,
}
use libnvme_rs.Zns.{ZnsMgmtRecv, extended_report, empty, raw_recv_args}
use libnvme_rs.Reference.{
  stream_send, stream_recv, namespace_commands_equal, log_commands_equal, log_of,
  directive_args_equal,
}
use libnvme_rs.Features.Get.{get_host_id}
use libnvme_rs.Features.Set.{set_host_id}
use libnvme_rs.Features.Laws.{host_id_refuses}
use libnvme_rs.Tree.Fields.Laws.{cstr_to_str_reads, IsEnd}
use libnvme_rs.Tests.{working, ctrl0, ns0}

abbrev template_bytes : List ℕ
template_bytes = replicate 4096 0

abbrev two_ids : List ℕ
two_ids = 1 ∷ 4 ∷ []

namespace_commands_equal_example :
    (create_namespace working ctrl0 template_bytes ≡ (
      open_fd working ctrl0 >>= λ fd.
      issue working
        (nvme_ns_mgmt_create working fd (some template_bytes) (some 0) 0 0 none)
        result_u32))
    × (delete_namespace working ctrl0 2 ≡ (
        open_fd working ctrl0 >>= λ fd. issue working (nvme_ns_mgmt_delete working fd 2) (λ _. tt)))
    × (attach_namespace working ctrl0 2 two_ids ≡ (
        lift (check_controllers two_ids) >>= λ _. open_fd working ctrl0 >>= λ fd.
        issue working (nvme_ns_attach_ctrls working fd 2 (some (ctrl_list two_ids))) (λ _. tt)))
    × (detach_namespace working ctrl0 2 two_ids ≡ (
        lift (check_controllers two_ids) >>= λ _. open_fd working ctrl0 >>= λ fd.
        issue working (nvme_ns_detach_ctrls working fd 2 (some (ctrl_list two_ids))) (λ _. tt)))
namespace_commands_equal_example = namespace_commands_equal working ctrl0 template_bytes 2 two_ids

log_commands_equal_example :
    (smart_log working ctrl0 512
      ≡ log_of working ctrl0 512 (λ fd buf. nvme_get_log_smart working fd nvme_nsid_all false buf))
    × (fw_slot_log working ctrl0 512
        ≡ log_of working ctrl0 512 (λ fd buf. nvme_get_log_fw_slot working fd false buf))
    × (error_log working ctrl0 5
        ≡ log_of working ctrl0 320 (λ fd buf. nvme_get_log_error working fd 5 false buf))
log_commands_equal_example = log_commands_equal working ctrl0 5 (omega arith) (omega arith)

abbrev stream_bytes : List ℕ
stream_bytes = replicate 32 0

directive_args_equal_example :
    (nvme_directive_send_stream_release_identifier working (pos 3) (nsid working ns0) 5
      ≡ nvme_directive_send
          (record (raw_directive_send_args working
            (stream_send ns0 streams_release_identifier 5)
            (pos 3)) { result = none }))
    × (nvme_directive_send_stream_release_resource working (pos 3) (nsid working ns0)
        ≡ nvme_directive_send
            (record (raw_directive_send_args working
              (stream_send ns0 streams_release_resource 0)
              (pos 3)) { result = none }))
    × (nvme_directive_recv_identify_parameters working
          (pos 3)
          (nsid working ns0)
          (some template_bytes)
        ≡ nvme_directive_recv
            (record (raw_directive_recv_args working
              (stream_recv ns0 identify identify_return_parameters (some template_bytes) 0)
              (pos 3)) { result = none }))
    × (nvme_directive_recv_stream_parameters working (pos 3) (nsid working ns0) (some stream_bytes)
        ≡ nvme_directive_recv
            (record (raw_directive_recv_args working
              (stream_recv ns0 streams streams_return_parameters (some stream_bytes) 0)
              (pos 3)) { result = none }))
    × (nvme_directive_recv_stream_allocate working (pos 3) (nsid working ns0) 2 (some 0)
        ≡ nvme_directive_recv (
            raw_directive_recv_args working
              (stream_recv ns0 streams streams_allocate_resources none 2)
              (pos 3)))
directive_args_equal_example =
    directive_args_equal working ns0 (pos 3) 5 2 template_bytes stream_bytes refl refl

abbrev empty_zones : ZnsMgmtRecv
empty_zones = record {
  ns = ns0;
  slba = 0;
  action = extended_report;
  filter = empty;
  is_partial = true;
  payload = some stream_bytes;
  timeout_ms = 0;
}

zone_report_equal_example :
    nvme_zns_report_zones working
      (pos 3)
      (nsid working ns0)
      0
      (report_option empty)
      true
      true
      (u32 (length stream_bytes))
      (some stream_bytes)
      0
      (some 0)
    ≡ nvme_zns_mgmt_recv (raw_recv_args working empty_zones stream_bytes (pos 3))
zone_report_equal_example = zone_report_equal working empty_zones stream_bytes (pos 3)

-- Eight bytes for an extended host identifier.
host_id_refuses_example :
    (get_host_id working ctrl0 current true (replicate 8 0) [] ≡ (err invalid_input, []))
    × (set_host_id working ctrl0 true false (replicate 8 0) [] ≡ (err invalid_input, []))
host_id_refuses_example =
    host_id_refuses working ctrl0 current true false (replicate 8 0) [] (omega arith)

-- "nvme" and a space, before a NUL and a byte that is none of the text.
abbrev name_text : List ℕ
name_text = 0x6e ∷ 0x76 ∷ 0x6d ∷ 0x65 ∷ []

abbrev name_memory : List ℕ
name_memory = name_text ++ (0x20 ∷ 0 ∷ 0xff ∷ [])

name_read : cstr_to_str (some name_memory) ≡ ok name_text
unfolding cstr_to_str from_utf8 utf8_error trim_trailing_padding until_nul rposition is_content
    is_ascii_whitespace
name_read = refl

cstr_to_str_reads_example :
    (m : List ℕ) × (pads : List ℕ) × (rest : List ℕ) × (some name_memory ≡ some m)
    × (m ≡ (name_text ++ pads) ++ rest)
    × All (λ b. b ≤ 0x20) pads
    × All (λ b. b ≢ 0) (name_text ++ pads)
    × IsEnd rest
cstr_to_str_reads_example = cstr_to_str_reads (some name_memory) name_text name_read
