-- ===== src/Tests/Io.antt =====
-- The theorems on the transfers of libnvme/src/io.rs at concrete requests.
use libnvme_rs.Base.{
  ◌+◌, ◌*◌, ◌<◌, ◌^◌, pos, ◌≡◌, refl, ◌↔◌, none, some, List, [], ◌∷◌, overwrite, test_bit, arith,
  replicate, length-replicate, length, ℕ, sym, ap, ◌∙◌,
}
use libnvme_rs.Error.{ok, err, invalid_argument, check_ret}
use libnvme_rs.Ffi.{outcome, issue, fd_of, nvme_ns_get_fd, nvme_io, ◌>>=◌, pure, Libnvme}
use libnvme_rs.Namespace.{lba_size, nsid, ns_fd}
use libnvme_rs.Safety.{KeepsSafe}
use libnvme_rs.Io.Validate.{encode_nlb, check_buf_len}
use libnvme_rs.Io.Validate.Laws.{encode_nlb_iff}
use libnvme_rs.Io.Control.{default_opts, Setter, fua, check_guard, ref_tag, configure}
use libnvme_rs.Io.Control.Laws.{configure_bit}
use libnvme_rs.Io.Commands.{
  opc_read, opc_write, submit_transfer, transfer_args, read_execute, read_done, Transfer,
}
use libnvme_rs.Io.Commands.Laws.{
  IsAcceptable, refusal, submit_transfer_refuses, submit_transfer_issues,
}
use libnvme_rs.Io.Commands.Safe.{
  submit_transfer-KeepsSafe, transfer_args_lem, transfer_args_announce_none,
}
use libnvme_rs.Io.ReadToVec.{read_to_vec, read_zeros, vec_len}
use libnvme_rs.Io.ReadToVec.Laws.{read_to_vec_reads}
use libnvme_rs.Tests.{working, denied, ns0, two_blocks, short_buffer, reply}

two_blocks-IsAcceptable : IsAcceptable working two_blocks
unfolding lba_size
two_blocks-IsAcceptable = record { some_block = omega arith; encodable = omega arith; sized = refl }

two_blocks-denied-IsAcceptable : IsAcceptable denied two_blocks
unfolding lba_size
two_blocks-denied-IsAcceptable = record {
  some_block = omega arith;
  encodable = omega arith;
  sized = refl;
}

short_buffer_refused : ¬ IsAcceptable working short_buffer
unfolding lba_size
short_buffer_refused a = absurd (omega (arith, a.sized))

submit_transfer-KeepsSafe_example : KeepsSafe working (submit_transfer working opc_write two_blocks)
submit_transfer-KeepsSafe_example = submit_transfer-KeepsSafe working two_blocks opc_write

submit_transfer_refuses_example :
    submit_transfer working opc_read short_buffer []
    ≡ (err (invalid_argument (refusal working short_buffer)), [])
submit_transfer_refuses_example =
    submit_transfer_refuses working opc_read short_buffer [] short_buffer_refused

submit_transfer_issues_example :
    let io = nvme_io (transfer_args working two_blocks (pos 3) 1) opc_read in
    submit_transfer working opc_read two_blocks []
    ≡ (outcome (reply (pos 0)) (reply (pos 0)), io ∷ nvme_ns_get_fd 5 ∷ [])
submit_transfer_issues_example =
    submit_transfer_issues working opc_read two_blocks [] 3 two_blocks-IsAcceptable refl

small_blocks : lba_size working ns0 < 65536
unfolding lba_size
small_blocks = omega arith

transfer_args_lem_example :
    let a = transfer_args working two_blocks (pos 3) 1 in
    (a.data_ptr ≡ some two_blocks.buf)
    × (a.data_len ≡ (a.nlb + 1) * lba_size working ns0)
    × (a.nlb + 1 ≡ 2)
    × (a.slba ≡ 10)
    × (a.nsid ≡ nsid working ns0)
    × (a.metadata ≡ none)
    × (a.control ≡ 0)
    × (a.dsm ≡ 0)
    × (a.dspec ≡ 0)
    × (a.apptag ≡ 0)
    × (a.appmask ≡ 0)
    × (a.reftag ≡ 0)
    × (a.reftag_u64 ≡ 0)
    × (a.storage_tag ≡ 0)
    × (a.sts ≡ 0)
    × (a.pif ≡ 0)
    × (a.timeout ≡ 0)
    × (a.fd ≡ pos 3)
transfer_args_lem_example =
    transfer_args_lem working two_blocks (pos 3) two_blocks-IsAcceptable small_blocks

-- 65536 blocks of 65536 bytes.
abbrev large_blocks : Libnvme
large_blocks = record working { ns_get_lba_size = λ h. pos 65536 }

-- A buffer of `n` zeros, which is not computed.
zero_buffer : (n : ℕ) → (buf : List ℕ) × (length buf ≡ n)
zero_buffer n = (replicate n 0, length-replicate n 0)

abbrev whole_range : Transfer
whole_range = record two_blocks { nlb = 65536; buf = (zero_buffer (65536 * 65536)).0 }

large_block_size : lba_size large_blocks ns0 ≡ 65536
unfolding lba_size
large_block_size = refl

whole_range-IsAcceptable : IsAcceptable large_blocks whole_range
whole_range-IsAcceptable = record {
  some_block = omega arith;
  encodable = omega arith;
  sized = (zero_buffer (65536 * 65536)).1 ∙ sym (ap (λ size. 65536 * size) large_block_size);
}

transfer_args_announce_none_example :
    let a = transfer_args large_blocks whole_range (pos 3) 65535 in
    (length whole_range.buf ≡ 2 ^ 32)
    × (a.nlb + 1 ≡ 65536)
    × (a.data_ptr ≡ some whole_range.buf)
    × (a.data_len ≡ 0)
transfer_args_announce_none_example =
    transfer_args_announce_none large_blocks whole_range (pos 3) whole_range-IsAcceptable refl
      large_block_size

encode_nlb_iff_example : (encode_nlb 65536 ≡ ok 65535) ↔ ((65536 ≡ 65535 + 1) × (65535 < 2 ^ 16))
encode_nlb_iff_example = encode_nlb_iff 65536 65535

abbrev setters : List Setter
setters = fua ∷ ref_tag 7 ∷ check_guard ∷ ref_tag 9 ∷ []

configure_bit_example : test_bit (configure setters default_opts).control 12 ≡ 1
configure_bit_example = configure_bit setters 12

-- Succeeding at a Read of two blocks, of which the device fills two bytes.
read_two_blocks : (read_execute working two_blocks []) ≡ (
  ok (record { result = 7; buf = 1 ∷ 2 ∷ 0 ∷ 0 ∷ 0 ∷ 0 ∷ 0 ∷ 0 ∷ []; metadata = none }),
  nvme_io (transfer_args working two_blocks (pos 3) 1) opc_read ∷ nvme_ns_get_fd 5 ∷ [],
)
unfolding read_execute submit_transfer check_buf_len lba_size encode_nlb ns_fd fd_of issue outcome
    read_done check_ret overwrite
read_two_blocks = refl

read_vec : read_to_vec working ns0 10 2 [] ≡ (
  ok (1 ∷ 2 ∷ 0 ∷ 0 ∷ 0 ∷ 0 ∷ 0 ∷ 0 ∷ []),
  nvme_io (transfer_args working two_blocks (pos 3) 1) opc_read ∷ nvme_ns_get_fd 5 ∷ [],
)
unfolding read_execute submit_transfer check_buf_len lba_size encode_nlb ns_fd fd_of issue outcome
    read_done check_ret overwrite read_to_vec vec_len
read_vec = refl

read_to_vec_reads_example :
    let c = read_zeros ns0 10 2 (2 * lba_size working ns0) in
    IsAcceptable working c
    × (read_to_vec working ns0 10 2 ≡ (read_execute working c >>= λ done. pure done.buf))
read_to_vec_reads_example = read_to_vec_reads working ns0 10 2 (omega arith) (omega arith)
