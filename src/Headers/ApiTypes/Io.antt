-- ===== src/Headers/ApiTypes/Io.antt =====
-- The argument structures of the I/O commands in libnvme-sys/vendored-headers/nvme/api-types.h.
-- A pointer is an option, NULL is `none`, and a buffer is the list of its bytes; `result` points to a
-- number. Reserved bytes are left out.
use libnvme_rs.Base.{ℕ, ℤ, Option, List}
use libnvme_rs.Headers.WireTypes.{NvmeDsmRange, NvmeCopyRange}

pub record NvmeIoArgs : Type 0 where
  pub slba : ℕ
  pub storage_tag : ℕ
  pub result : Option ℕ
  pub data_ptr : Option (List ℕ)
  pub metadata : Option (List ℕ)
  pub args_size : ℤ
  pub fd : ℤ
  pub timeout : ℕ
  pub nsid : ℕ
  pub reftag : ℕ
  pub data_len : ℕ
  pub metadata_len : ℕ
  pub nlb : ℕ
  pub control : ℕ
  pub apptag : ℕ
  pub appmask : ℕ
  pub dspec : ℕ
  pub dsm : ℕ
  pub reftag_u64 : ℕ
  pub sts : ℕ
  pub pif : ℕ

pub record NvmeDsmArgs : Type 0 where
  pub result : Option ℕ
  pub dsm : Option (List NvmeDsmRange)
  pub args_size : ℤ
  pub fd : ℤ
  pub timeout : ℕ
  pub nsid : ℕ
  pub attrs : ℕ
  pub nr_ranges : ℕ

pub record NvmeCopyArgs : Type 0 where
  pub sdlba : ℕ
  pub result : Option ℕ
  pub copy : Option (List NvmeCopyRange)
  pub args_size : ℤ
  pub fd : ℤ
  pub timeout : ℕ
  pub nsid : ℕ
  pub ilbrt : ℕ
  pub lr : ℤ
  pub fua : ℤ
  pub nr : ℕ
  pub dspec : ℕ
  pub lbatm : ℕ
  pub lbat : ℕ
  pub prinfor : ℕ
  pub prinfow : ℕ
  pub dtype : ℕ
  pub format : ℕ
  pub ilbrt_u64 : ℕ

pub record NvmePassthruCmd : Type 0 where
  pub opcode : ℕ
  pub flags : ℕ
  pub rsvd1 : ℕ
  pub nsid : ℕ
  pub cdw2 : ℕ
  pub cdw3 : ℕ
  pub metadata : Option (List ℕ)
  pub addr : Option (List ℕ)
  pub metadata_len : ℕ
  pub data_len : ℕ
  pub cdw10 : ℕ
  pub cdw11 : ℕ
  pub cdw12 : ℕ
  pub cdw13 : ℕ
  pub cdw14 : ℕ
  pub cdw15 : ℕ
  pub timeout_ms : ℕ
  pub result : ℕ
