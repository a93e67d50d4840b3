-- ===== src/Io/Args.antt =====
-- libnvme/src/io.rs: filling `nvme_io_args`.
use libnvme_rs.Base.{ℕ, ℤ, Option, none, some, List, length, u32}
use libnvme_rs.Headers.ApiTypes.{NvmeIoArgs}
use libnvme_rs.Ffi.{Libnvme, io_args}
use libnvme_rs.Io.Control.{IoOpts}

-- `base_args`: the other fields are zero, and the pointers among them NULL.
unfoldable pub base_args : Libnvme → ℤ → ℕ → ℕ → ℕ → Option (List ℕ) → ℕ → NvmeIoArgs
base_args lib fd nsid slba nlb_enc buf buf_len = record {
  slba = slba;
  storage_tag = 0;
  result = none;
  data_ptr = buf;
  metadata = none;
  args_size = lib.size_of io_args;
  fd = fd;
  timeout = 0;
  nsid = nsid;
  reftag = 0;
  data_len = buf_len;
  metadata_len = 0;
  nlb = nlb_enc;
  control = 0;
  apptag = 0;
  appmask = 0;
  dspec = 0;
  dsm = 0;
  reftag_u64 = 0;
  sts = 0;
  pif = 0;
}

-- `IoOpts::apply_to`
unfoldable pub apply_to : IoOpts → NvmeIoArgs → NvmeIoArgs
apply_to o args = record args {
  control = o.control;
  dsm = o.dsm_hint;
  dspec = o.dspec;
  apptag = o.apptag;
  appmask = o.appmask;
  reftag = o.reftag;
  reftag_u64 = o.reftag_u64;
  storage_tag = o.storage_tag;
  sts = o.sts;
  pif = o.pif;
  timeout = o.timeout_ms;
}

-- The `if let Some(md)` of the commands that carry data.
unfoldable pub attach_metadata : Option (List ℕ) → NvmeIoArgs → NvmeIoArgs
attach_metadata none args = args
attach_metadata (some md) args = record args { metadata = some md; metadata_len = u32 (length md) }

-- `args.result = &mut result`, where `result` is 0.
unfoldable pub point_result : NvmeIoArgs → NvmeIoArgs
point_result args = record args { result = some 0 }
