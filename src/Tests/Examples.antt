-- ===== src/Tests/Examples.antt =====
-- A disk that remembers what is written, and the examples of the crate on it.
use libnvme_rs.Base.{
  ℕ, ◌==◌, if◌then◌else◌, ◌≡◌, ◌≢◌, refl, pos, none, some, List, [], ◌∷◌, ◌++◌, replicate, Bool,
  true, false, arith,
}
use libnvme_rs.Error.{ok}
use libnvme_rs.Headers.ApiTypes.{NvmeIoArgs}
use libnvme_rs.Ffi.{Call, Reply, Libnvme, nvme_scan, nvme_io, nvme_ns_get_fd}
use libnvme_rs.Safety.{AllSafe}
use libnvme_rs.Io.Commands.{Transfer, write_execute}
use libnvme_rs.Io.ReadToVec.{read_to_vec}
use libnvme_rs.Tree.Fields.{TreeFields, TextGetter, nvme_ctrl_get_model}
use libnvme_rs.Storage.{Content, unknown, zeroes, bytes, stored, after_io, Reads, StoresBlocks}
use libnvme_rs.Storage.ReadBack.{read_to_vec-after_write}
use libnvme_rs.Commands.{GetLbaStatusArgs}
use libnvme_rs.Requests.{
  Request, asking_status, writing, managing, logging_errors, attaching, on_namespace, on_controller,
  after_all,
}
use libnvme_rs.Requests.Laws.{after_all-AllSafe}
use libnvme_rs.Examples.Program.{panicked, endless, done, exit}
use libnvme_rs.Examples.Text.{qemu_model}
use libnvme_rs.Examples.Smoke.{trim_first, io_smoke, format_smoke}
use libnvme_rs.Examples.Smoke.Walk.{io_smoke_passes}
use libnvme_rs.Examples.Latch.{Latched}
use libnvme_rs.Examples.Latch.Laws.{smoke-Latched}
use libnvme_rs.Examples.Memory.{smoke_gives_back}
use libnvme_rs.Root.Ownership.{owned, IsClean}
use libnvme_rs.Error.{check_ret}
use libnvme_rs.Base.{overwrite}
use libnvme_rs.Ffi.{fd_of, issue, outcome}
use libnvme_rs.Namespace.{lba_size, ns_fd, nsid}
use libnvme_rs.Io.Validate.{check_buf_len, encode_nlb}
use libnvme_rs.Io.Args.{base_args, apply_to, attach_metadata, point_result}
use libnvme_rs.Io.Control.{apply_setter}
use libnvme_rs.Io.Commands.{
  transfer_args, submit_transfer, read_done, read_execute, range_args, submit_range,
  compare_execute, flush, flush_cmd, opc_write,
}
use libnvme_rs.Io.Ranges.{new_dsm_range, raw_dsm_range}
use libnvme_rs.Io.RangeCommands.{check_dsm_ranges, dsm_execute, raw_dsm_args}
use libnvme_rs.Io.ReadToVec.{vec_len}
use libnvme_rs.Storage.{same_range, payload}
use libnvme_rs.Root.{scan, non_null, drop_root}
use libnvme_rs.Tree.{
  hosts, next_of_hosts, subsystems, next_of_subsystems, controllers, next_of_controllers,
  namespaces, next_of_namespaces,
}
use libnvme_rs.Tree.CtrlText
use libnvme_rs.Tree.NamespaceText
use libnvme_rs.Util.{
  cstr_to_str, is_ascii_whitespace, is_content, rposition, trim_trailing_padding, until_nul,
}
use libnvme_rs.Util.Utf8.{from_utf8, utf8_error}
use libnvme_rs.Examples.Program.{run, assert, for_in, dropping}
use libnvme_rs.Examples.Text.{trim, bytes_eq, all_zero}
use libnvme_rs.Examples.Smoke.{
  pattern_from, model_text, exercise, visit_namespace, visit_controller, visit_subsystem,
  visit_host, smoke_main,
}
use libnvme_rs.Tests.{reply, working, ns0, ctrl0, two_blocks}
use libnvme_rs.Tests.Tree.{small_tree, small_hosts, small_hosts_held}

abbrev bytes_of : Content → ℕ → List ℕ
bytes_of unknown n = []
bytes_of zeroes n = replicate n 0
bytes_of (bytes b) n = b

-- Every call succeeds, and a command gives back what the calls before it have stored.
abbrev disk_answer : List Call → Call → Reply
disk_answer t nvme_scan = record (reply (pos 0)) { pointer = some 1 }
disk_answer t (nvme_ns_get_fd h) = reply (pos 3)
disk_answer t (nvme_io a opcode) = record (reply (pos 0)) {
  data_bytes = bytes_of (stored (λ _ _. reply (pos 0)) t a) a.data_len;
}
disk_answer t _ = reply (pos 0)

abbrev disk : Libnvme
disk = record working { answer = disk_answer }

stored_cong :
    (f g : List Call → Call → Reply) (a : NvmeIoArgs)
    → ((t : List Call) (w : NvmeIoArgs) (opcode : ℕ)
        → (f t (nvme_io w opcode)).ret ≡ (g t (nvme_io w opcode)).ret)
    → (t : List Call) → stored f t a ≡ stored g t a
unfolding stored
stored_cong f g a same [] = refl
stored_cong f g a same (nvme_ns_get_fd h ∷ t) = stored_cong f g a same t
stored_cong f g a same (nvme_io w opcode ∷ t) = rw (same t w opcode, stored_cong f g a same t) refl
stored_cong f g a same (_ ∷ t) = refl

bytes_of-Reads : (c : Content) (n : ℕ) → Reads c n (bytes_of c n)
bytes_of-Reads unknown n = tt
bytes_of-Reads zeroes n = refl
bytes_of-Reads (bytes b) n = λ _. refl

disk-StoresBlocks : StoresBlocks disk
disk-StoresBlocks = record {
  fd_cached = λ t u ns fd h k. h;
  reads_stored = λ t a h.
      rw (stored_cong disk_answer (λ _ _. reply (pos 0)) a (λ t w opcode. refl) t)
        (bytes_of-Reads (stored (λ _ _. reply (pos 0)) t a) a.data_len);
}

-- Controller 5 is QEMU's, its model padded by spaces; no other has a model.
abbrev is_model : TextGetter → Bool
is_model nvme_ctrl_get_model = true
is_model _ = false

abbrev lab : TreeFields
lab = record {
  text = λ g h.
      if is_model g
      then (if h == 5 then some (b' ' ∷ qemu_model ++ b' ' ∷ 0 ∷ []) else none)
      else some (b'n' ∷ 0 ∷ []);
  ctrl_is_discovery_ctrl = λ h. false;
  ctrl_is_discovered = λ h. false;
  ctrl_is_unique_discovery_ctrl = λ h. false;
  ctrl_is_persistent = λ h. false;
  ns_get_lba_util = λ h. 0;
  ns_get_csi = λ h. 0;
  ns_get_uuid = λ h. [];
  ns_get_nguid = λ h. none;
  ns_get_eui64 = λ h. none;
  path_get_queue_depth = λ h. pos 0;
}

smoke-Latched_example :
    Latched disk small_tree lab (io_smoke disk small_tree lab 3 []).1
    × Latched disk small_tree lab (format_smoke disk small_tree lab 3 []).1
smoke-Latched_example = smoke-Latched disk small_tree lab 3

smoke_gives_back_example :
    let t : List Call = nvme_scan ∷ [] in
    ((owned disk (io_smoke disk small_tree lab 3 t).1 ≡ owned disk t)
      × IsClean disk (io_smoke disk small_tree lab 3 t).1)
    × ((owned disk (format_smoke disk small_tree lab 3 t).1 ≡ owned disk t)
        × IsClean disk (format_smoke disk small_tree lab 3 t).1)
smoke_gives_back_example = smoke_gives_back disk small_tree lab 3 (nvme_scan ∷ []) (tt, tt)

abbrev asked : GetLbaStatusArgs
asked = record { nsid = 1; slba = 0; mndw = 2; atype = 0x10; rl = 0; timeout_ms = 0 }

abbrev requests : List Request
requests =
    on_namespace (writing two_blocks)
    ∷ on_namespace (managing (trim_first ns0))
    ∷ on_controller ctrl0 (logging_errors 5)
    ∷ on_controller ctrl0 (asking_status asked (replicate 8 0))
    ∷ on_controller ctrl0 (attaching 1 (4 ∷ []) 0)
    ∷ []

after_all-AllSafe_example : AllSafe disk (after_all disk requests [])
after_all-AllSafe_example =
    after_all-AllSafe disk requests [] (tt, (tt, (tt, (omega arith, (tt, tt))))) tt

io_smoke_passes_example :
    let end = (io_smoke disk small_tree lab 3 []).0 in (end ≢ exit panicked) × (end ≢ exit endless)
io_smoke_passes_example =
    io_smoke_passes disk small_tree lab 3 [] 1 small_hosts disk-StoresBlocks refl small_hosts_held
      (omega arith)

abbrev counted_blocks : Transfer
counted_blocks = record two_blocks { buf = 1 ∷ 2 ∷ 3 ∷ 4 ∷ 5 ∷ 6 ∷ 7 ∷ 8 ∷ [] }

abbrev counted_io : Call
counted_io = nvme_io (transfer_args disk counted_blocks (pos 3) 1) opc_write

counted_written : write_execute disk counted_blocks [] ≡ (ok 7, counted_io ∷ nvme_ns_get_fd 5 ∷ [])
unfolding write_execute submit_transfer check_buf_len lba_size encode_nlb ns_fd fd_of issue outcome
    check_ret transfer_args base_args apply_to attach_metadata point_result nsid
counted_written = refl

-- What a Read gives back after that.
abbrev read_history : List Call
read_history = (read_to_vec disk ns0 10 2 (counted_io ∷ nvme_ns_get_fd 5 ∷ [])).1

counted_read :
    read_to_vec disk ns0 10 2 (counted_io ∷ nvme_ns_get_fd 5 ∷ [])
    ≡ (ok (1 ∷ 2 ∷ 3 ∷ 4 ∷ 5 ∷ 6 ∷ 7 ∷ 8 ∷ []), read_history)
unfolding read_to_vec vec_len read_execute read_done overwrite stored after_io same_range payload
    submit_transfer check_buf_len lba_size encode_nlb ns_fd fd_of issue outcome check_ret
    transfer_args base_args apply_to attach_metadata point_result nsid
counted_read = refl

read_to_vec-after_write_example : 1 ∷ 2 ∷ 3 ∷ 4 ∷ 5 ∷ 6 ∷ 7 ∷ 8 ∷ [] ≡ counted_blocks.buf
read_to_vec-after_write_example =
    read_to_vec-after_write disk disk-StoresBlocks counted_blocks [] (omega arith) counted_written
      counted_read

-- One namespace is exercised.
io_smoke_on_disk : (io_smoke disk small_tree lab 3 []).0 ≡ done 1
unfolding io_smoke smoke_main run scan non_null dropping for_in next_of_hosts hosts visit_host
    next_of_subsystems subsystems visit_subsystem next_of_controllers controllers visit_controller
    bytes_eq model_text overwrite assert exercise pattern_from visit_namespace all_zero trim
    compare_execute flush flush_cmd range_args read_done read_execute submit_range write_execute
    apply_setter check_dsm_ranges dsm_execute raw_dsm_args new_dsm_range raw_dsm_range read_to_vec
    vec_len drop_root CtrlText.model CtrlText.name NamespaceText.name namespaces next_of_namespaces
    from_utf8 utf8_error cstr_to_str is_ascii_whitespace is_content rposition trim_trailing_padding
    until_nul stored after_io same_range payload submit_transfer check_buf_len lba_size encode_nlb
    ns_fd fd_of issue outcome check_ret transfer_args base_args apply_to attach_metadata
    point_result nsid
io_smoke_on_disk = refl
