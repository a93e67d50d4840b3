-- ===== src/Zns.antt =====
-- libnvme/src/zns.rs: the commands of zoned namespaces.
pub mod Laws
use libnvme_rs.Base.{
  ℕ, ◌-◌, ◌*◌, ◌==◌, ltb, ◌||◌, if◌then◌else◌, ℤ, Bool, u16, u32, Option, none, some, List, length,
  overwrite,
}
use libnvme_rs.Error.{
  Result, ok, err, invalid_argument, nlb_out_of_range, append_length_mismatch, missing_buffer,
}
use libnvme_rs.Headers.ApiTypes.{NvmeZnsMgmtSendArgs, NvmeZnsMgmtRecvArgs, NvmeZnsAppendArgs}
use libnvme_rs.Ffi.{
  Libnvme, M, ◌>>=◌, ◌>>◌, lift, issue, Reply, result_u32, result_u64, nvme_zns_mgmt_send,
  nvme_zns_mgmt_recv, nvme_zns_append, zns_mgmt_send_args, zns_mgmt_recv_args, zns_append_args,
}
use libnvme_rs.Namespace.{Namespace, nsid, lba_size, ns_fd}

pub data ZoneSendAction : Type 0 where
  close finish open_zone reset_zone offline set_descriptor_extension zrwa_flush : ZoneSendAction

pub data ZoneRecvAction : Type 0 where
  report extended_report : ZoneRecvAction

pub data ZoneReportFilter : Type 0 where
  all_zones empty implicitly_opened explicitly_opened closed full read_only offline_zones :
      ZoneReportFilter

unfoldable pub send_action_raw : ZoneSendAction → ℕ
send_action_raw close = 0x1
send_action_raw finish = 0x2
send_action_raw open_zone = 0x3
send_action_raw reset_zone = 0x4
send_action_raw offline = 0x5
send_action_raw set_descriptor_extension = 0x10
send_action_raw zrwa_flush = 0x11

unfoldable pub recv_action_raw : ZoneRecvAction → ℕ
recv_action_raw report = 0x0
recv_action_raw extended_report = 0x1

unfoldable pub report_filter_raw : ZoneReportFilter → ℕ
report_filter_raw all_zones = 0x0
report_filter_raw empty = 0x1
report_filter_raw implicitly_opened = 0x2
report_filter_raw explicitly_opened = 0x3
report_filter_raw closed = 0x4
report_filter_raw full = 0x5
report_filter_raw read_only = 0x6
report_filter_raw offline_zones = 0x7

pub record ZnsMgmtSend : Type 0 where
  pub ns : Namespace
  pub slba : ℕ
  pub action : ZoneSendAction
  pub payload : Option (List ℕ)
  pub select_all : Bool
  pub zsaso : ℕ
  pub timeout_ms : ℕ

pub record ZnsMgmtRecv : Type 0 where
  pub ns : Namespace
  pub slba : ℕ
  pub action : ZoneRecvAction
  pub filter : ZoneReportFilter
  pub is_partial : Bool
  pub payload : Option (List ℕ)
  pub timeout_ms : ℕ

pub record ZnsAppend : Type 0 where
  pub ns : Namespace
  pub zslba : ℕ
  pub nlb : ℕ
  pub payload : List ℕ
  pub metadata : Option (List ℕ)
  pub ilbrt : ℕ
  pub ilbrt_u64 : ℕ
  pub lbat : ℕ
  pub lbatm : ℕ
  pub control : ℕ
  pub timeout_ms : ℕ

-- The length that goes with a pointer, zero with NULL.
unfoldable pub len_of : Option (List ℕ) → ℕ
len_of none = 0
len_of (some buf) = u32 (length buf)

-- `ok_or(..)` on the builder's buffer.
unfoldable pub given_buffer : Option (List ℕ) → Result (List ℕ)
given_buffer none = err (invalid_argument missing_buffer)
given_buffer (some buf) = ok buf

-- What a Zone Management Receive returns: the result dword and the buffer.
pub record RecvDone : Type 0 where
  pub result : ℕ
  pub buf : List ℕ

unfoldable pub recv_done : List ℕ → Reply → RecvDone
recv_done buf r = record {
  result = result_u32 r;
  buf = overwrite (u32 (length buf)) buf r.data_bytes;
}

-- The two checks of `ZnsAppend::execute`, the count before the length.
unfoldable pub check_append : ℕ → ℕ → ℕ → Result ℕ
check_append buf_len nlb lba_size =
    if nlb == 0 || ltb 65536 nlb
    then err (invalid_argument (nlb_out_of_range nlb))
    else let want = nlb * lba_size in
      if buf_len == want
      then ok (u16 (nlb - 1))
      else err (invalid_argument (append_length_mismatch buf_len want))

module _ (lib : Libnvme) where
  unfoldable pub raw_send_args : ZnsMgmtSend → ℤ → NvmeZnsMgmtSendArgs
  raw_send_args c fd = record {
    slba = c.slba;
    result = some 0;
    data_ptr = c.payload;
    args_size = lib.size_of zns_mgmt_send_args;
    fd = fd;
    timeout = c.timeout_ms;
    nsid = nsid lib c.ns;
    zsa = send_action_raw c.action;
    data_len = len_of c.payload;
    select_all = c.select_all;
    zsaso = c.zsaso;
  }

  unfoldable pub mgmt_send_execute : ZnsMgmtSend → M ℕ
  mgmt_send_execute c = do
    fd ← ns_fd lib c.ns
    issue lib (nvme_zns_mgmt_send (raw_send_args c fd)) result_u32

  unfoldable pub raw_recv_args : ZnsMgmtRecv → List ℕ → ℤ → NvmeZnsMgmtRecvArgs
  raw_recv_args c buf fd = record {
    slba = c.slba;
    result = some 0;
    data_ptr = some buf;
    args_size = lib.size_of zns_mgmt_recv_args;
    fd = fd;
    timeout = c.timeout_ms;
    nsid = nsid lib c.ns;
    zra = recv_action_raw c.action;
    data_len = u32 (length buf);
    zrasf = report_filter_raw c.filter;
    zras_feat = c.is_partial;
  }

  unfoldable pub mgmt_recv_execute : ZnsMgmtRecv → M RecvDone
  mgmt_recv_execute c = do
    buf ← lift (given_buffer c.payload)
    fd ← ns_fd lib c.ns
    issue lib (nvme_zns_mgmt_recv (raw_recv_args c buf fd)) (recv_done buf)

  unfoldable pub raw_append_args : ZnsAppend → ℤ → ℕ → NvmeZnsAppendArgs
  raw_append_args c fd nlb_enc = record {
    zslba = c.zslba;
    result = some 0;
    data_ptr = some c.payload;
    metadata = c.metadata;
    args_size = lib.size_of zns_append_args;
    fd = fd;
    timeout = c.timeout_ms;
    nsid = nsid lib c.ns;
    ilbrt = c.ilbrt;
    data_len = u32 (length c.payload);
    metadata_len = len_of c.metadata;
    nlb = nlb_enc;
    control = c.control;
    lbat = c.lbat;
    lbatm = c.lbatm;
    ilbrt_u64 = c.ilbrt_u64;
  }

  unfoldable pub append_execute : ZnsAppend → M ℕ
  append_execute c = do
    nlb_enc ← lift (check_append (length c.payload) c.nlb (lba_size lib c.ns))
    fd ← ns_fd lib c.ns
    issue lib (nvme_zns_append (raw_append_args c fd nlb_enc)) result_u64
