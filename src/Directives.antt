-- ===== src/Directives.antt =====
-- libnvme/src/directives.rs: Directive Send and Directive Receive. The builders' setters store one field each
-- and are the fields of the records.
pub mod Laws
use libnvme_rs.Base.{ℕ, ℤ, u32, Option, none, some, List, length, overwrite}
use libnvme_rs.Headers.ApiTypes.{NvmeDirectiveSendArgs, NvmeDirectiveRecvArgs}
use libnvme_rs.Ffi.{
  Libnvme, M, ◌>>=◌, issue, Reply, result_u32, nvme_directive_send, nvme_directive_recv,
  directive_send_args, directive_recv_args,
}
use libnvme_rs.Namespace.{Namespace, nsid, ns_fd}

pub data DirectiveType : Type 0 where
  identify streams : DirectiveType
  raw_type : ℕ → DirectiveType

pub data DirectiveSendOp : Type 0 where
  identify_enable streams_release_identifier streams_release_resource : DirectiveSendOp
  raw_send_op : ℕ → DirectiveSendOp

pub data DirectiveRecvOp : Type 0 where
  identify_return_parameters streams_return_parameters streams_get_status
        streams_allocate_resources :
      DirectiveRecvOp
  raw_recv_op : ℕ → DirectiveRecvOp

unfoldable pub directive_type_raw : DirectiveType → ℕ
directive_type_raw identify = 0
directive_type_raw streams = 1
directive_type_raw (raw_type v) = v

unfoldable pub send_op_raw : DirectiveSendOp → ℕ
send_op_raw identify_enable = 0x01
send_op_raw streams_release_identifier = 0x01
send_op_raw streams_release_resource = 0x02
send_op_raw (raw_send_op v) = v

unfoldable pub recv_op_raw : DirectiveRecvOp → ℕ
recv_op_raw identify_return_parameters = 0x01
recv_op_raw streams_return_parameters = 0x01
recv_op_raw streams_get_status = 0x02
recv_op_raw streams_allocate_resources = 0x03
recv_op_raw (raw_recv_op v) = v

pub record DirectiveSend : Type 0 where
  pub ns : Namespace
  pub dtype : DirectiveType
  pub doper : DirectiveSendOp
  pub payload : Option (List ℕ)
  pub dspec : ℕ
  pub cdw12 : ℕ
  pub timeout_ms : ℕ

pub record DirectiveRecv : Type 0 where
  pub ns : Namespace
  pub dtype : DirectiveType
  pub doper : DirectiveRecvOp
  pub payload : Option (List ℕ)
  pub dspec : ℕ
  pub cdw12 : ℕ
  pub timeout_ms : ℕ

-- The `match` on an optional buffer: the length that goes with its pointer, zero with NULL.
unfoldable pub buf_len : Option (List ℕ) → ℕ
buf_len none = 0
buf_len (some buf) = u32 (length buf)

-- An optional buffer after a call that was told of its length.
unfoldable pub filled_buf : Option (List ℕ) → List ℕ → Option (List ℕ)
filled_buf none written = none
filled_buf (some buf) written = some (overwrite (u32 (length buf)) buf written)

-- What a Directive Receive returns: the result dword and the buffer.
pub record DirectiveDone : Type 0 where
  pub result : ℕ
  pub payload : Option (List ℕ)

unfoldable pub directive_done : Option (List ℕ) → Reply → DirectiveDone
directive_done buf r = record { result = result_u32 r; payload = filled_buf buf r.data_bytes }

module _ (lib : Libnvme) where
  unfoldable pub raw_directive_send_args : DirectiveSend → ℤ → NvmeDirectiveSendArgs
  raw_directive_send_args c fd = record {
    result = some 0;
    data_ptr = c.payload;
    args_size = lib.size_of directive_send_args;
    fd = fd;
    timeout = c.timeout_ms;
    nsid = nsid lib c.ns;
    doper = send_op_raw c.doper;
    dtype = directive_type_raw c.dtype;
    cdw12 = c.cdw12;
    data_len = buf_len c.payload;
    dspec = c.dspec;
  }

  unfoldable pub directive_send_execute : DirectiveSend → M ℕ
  directive_send_execute c = do
    fd ← ns_fd lib c.ns
    issue lib (nvme_directive_send (raw_directive_send_args c fd)) result_u32

  unfoldable pub raw_directive_recv_args : DirectiveRecv → ℤ → NvmeDirectiveRecvArgs
  raw_directive_recv_args c fd = record {
    result = some 0;
    data_ptr = c.payload;
    args_size = lib.size_of directive_recv_args;
    fd = fd;
    timeout = c.timeout_ms;
    nsid = nsid lib c.ns;
    doper = recv_op_raw c.doper;
    dtype = directive_type_raw c.dtype;
    cdw12 = c.cdw12;
    data_len = buf_len c.payload;
    dspec = c.dspec;
  }

  unfoldable pub directive_recv_execute : DirectiveRecv → M DirectiveDone
  directive_recv_execute c = do
    fd ← ns_fd lib c.ns
    issue lib (nvme_directive_recv (raw_directive_recv_args c fd)) (directive_done c.payload)
