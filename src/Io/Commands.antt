-- ===== src/Io/Commands.antt =====
-- libnvme/src/io.rs: Read, Write, Compare, Verify, Write Zeroes, Write Uncorrectable and Flush.
-- A buffer that the device fills is part of the result; what a failed command left in it is not kept.
pub mod Laws
pub mod Safe
pub mod Done
use libnvme_rs.Base.{ℕ, ℤ, Option, none, some, List, length, u32, overwrite}
use libnvme_rs.Error.{Result}
use libnvme_rs.Headers.ApiTypes.{NvmeIoArgs, NvmePassthruCmd}
use libnvme_rs.Ffi.{
  Libnvme, M, ◌>>=◌, ◌>>◌, pure, lift, issue, result_u32, nvme_io, nvme_io_passthru, Reply,
}
use libnvme_rs.Namespace.{Namespace, nsid, lba_size, ns_fd}
use libnvme_rs.Io.Control.{IoOpts}
use libnvme_rs.Io.Validate.{encode_nlb, check_buf_len}
use libnvme_rs.Io.Args.{base_args, apply_to, attach_metadata, point_result}

-- `OPC_FLUSH` and the others, from `enum nvme_io_opcode`.
abbrev pub opc_flush : ℕ
opc_flush = 0x00

abbrev pub opc_write : ℕ
opc_write = 0x01

abbrev pub opc_read : ℕ
opc_read = 0x02

abbrev pub opc_write_uncor : ℕ
opc_write_uncor = 0x04

abbrev pub opc_compare : ℕ
opc_compare = 0x05

abbrev pub opc_write_zeroes : ℕ
opc_write_zeroes = 0x08

abbrev pub opc_verify : ℕ
opc_verify = 0x0c

-- The builders `Read`, `Write` and `Compare`, which have the same fields.
pub record Transfer : Type 0 where
  pub ns : Namespace
  pub slba : ℕ
  pub nlb : ℕ
  pub buf : List ℕ
  pub metadata : Option (List ℕ)
  pub opts : IoOpts

-- The builders `Verify`, `WriteZeroes` and `WriteUncorrectable`.
pub record BlockRange : Type 0 where
  pub ns : Namespace
  pub slba : ℕ
  pub nlb : ℕ
  pub opts : IoOpts

-- What a Read returns: the result dword and the two buffers.
pub record ReadDone : Type 0 where
  pub result : ℕ
  pub buf : List ℕ
  pub metadata : Option (List ℕ)

-- The buffers after a Read: the library wrote at most the lengths that it was told.
unfoldable pub read_done : Transfer → Reply → ReadDone
read_done c r = record {
  result = result_u32 r;
  buf = overwrite (u32 (length c.buf)) c.buf r.data_bytes;
  metadata = elim c.metadata [
    | none ↦ none
    | some md ↦ some (overwrite (u32 (length md)) md r.metadata_bytes)
  ];
}

module _ (lib : Libnvme) where
  -- The arguments that Read, Write and Compare build once their checks have passed.
  unfoldable pub transfer_args : Transfer → ℤ → ℕ → NvmeIoArgs
  transfer_args c fd nlb_enc =
      let base =
        base_args lib fd (nsid lib c.ns) c.slba nlb_enc (some c.buf) (u32 (length c.buf)) in
      apply_to c.opts (point_result (attach_metadata c.metadata base))

  -- The body that the three `execute` methods share, to the check of the return value.
  unfoldable pub submit_transfer : ℕ → Transfer → M Reply
  submit_transfer opcode c = do
    lift (check_buf_len (length c.buf) c.nlb (lba_size lib c.ns))
    nlb_enc ← lift (encode_nlb c.nlb)
    fd ← ns_fd lib c.ns
    issue lib (nvme_io (transfer_args c fd nlb_enc) opcode) (λ r. r)

  unfoldable pub read_execute : Transfer → M ReadDone
  read_execute c = do r ← submit_transfer opc_read c; pure (read_done c r)

  unfoldable pub write_execute : Transfer → M ℕ
  write_execute c = do r ← submit_transfer opc_write c; pure (result_u32 r)

  unfoldable pub compare_execute : Transfer → M ℕ
  compare_execute c = do r ← submit_transfer opc_compare c; pure (result_u32 r)

  unfoldable pub range_args : BlockRange → ℤ → ℕ → NvmeIoArgs
  range_args c fd nlb_enc =
      apply_to c.opts (point_result (base_args lib fd (nsid lib c.ns) c.slba nlb_enc none 0))

  -- The body of the three `execute` methods that carry no buffer.
  unfoldable pub submit_range : ℕ → BlockRange → M ℕ
  submit_range opcode c = do
    nlb_enc ← lift (encode_nlb c.nlb)
    fd ← ns_fd lib c.ns
    issue lib (nvme_io (range_args c fd nlb_enc) opcode) result_u32

  abbrev pub verify_execute : BlockRange → M ℕ
  verify_execute = submit_range opc_verify

  abbrev pub write_zeroes_execute : BlockRange → M ℕ
  write_zeroes_execute = submit_range opc_write_zeroes

  abbrev pub write_uncorrectable_execute : BlockRange → M ℕ
  write_uncorrectable_execute = submit_range opc_write_uncor

  -- The command that `flush` passes to `nvme_io_passthru`.
  unfoldable pub flush_cmd : Namespace → NvmePassthruCmd
  flush_cmd ns = record {
    opcode = opc_flush;
    flags = 0;
    rsvd1 = 0;
    nsid = nsid lib ns;
    cdw2 = 0;
    cdw3 = 0;
    metadata = none;
    addr = none;
    metadata_len = 0;
    data_len = 0;
    cdw10 = 0;
    cdw11 = 0;
    cdw12 = 0;
    cdw13 = 0;
    cdw14 = 0;
    cdw15 = 0;
    timeout_ms = 0;
    result = 0;
  }

  unfoldable pub flush : Namespace → M (Unit {0})
  flush ns = do fd ← ns_fd lib ns; issue lib (nvme_io_passthru fd (flush_cmd ns) (some 0)) (λ _. tt)
