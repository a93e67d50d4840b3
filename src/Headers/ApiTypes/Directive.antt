-- ===== src/Headers/ApiTypes/Directive.antt =====
-- The argument structures of the directive commands in
-- libnvme-sys/vendored-headers/nvme/api-types.h, in the conventions of `ApiTypes.Io`.
use libnvme_rs.Base.{ℕ, ℤ, Option, List}

pub record NvmeDirectiveSendArgs : Type 0 where
  pub result : Option ℕ
  pub data_ptr : Option (List ℕ)
  pub args_size : ℤ
  pub fd : ℤ
  pub timeout : ℕ
  pub nsid : ℕ
  pub doper : ℕ
  pub dtype : ℕ
  pub cdw12 : ℕ
  pub data_len : ℕ
  pub dspec : ℕ

pub record NvmeDirectiveRecvArgs : Type 0 where
  pub result : Option ℕ
  pub data_ptr : Option (List ℕ)
  pub args_size : ℤ
  pub fd : ℤ
  pub timeout : ℕ
  pub nsid : ℕ
  pub doper : ℕ
  pub dtype : ℕ
  pub cdw12 : ℕ
  pub data_len : ℕ
  pub dspec : ℕ
