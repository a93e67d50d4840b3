-- ===== src/Headers/ApiTypes/Zns.antt =====
-- The argument structures of the zoned namespace commands in
-- libnvme-sys/vendored-headers/nvme/api-types.h, in the conventions of `ApiTypes.Io`.
use libnvme_rs.Base.{ℕ, ℤ, Bool, Option, List}

pub record NvmeZnsMgmtSendArgs : Type 0 where
  pub slba : ℕ
  pub result : Option ℕ
  pub data_ptr : Option (List ℕ)
  pub args_size : ℤ
  pub fd : ℤ
  pub timeout : ℕ
  pub nsid : ℕ
  pub zsa : ℕ
  pub data_len : ℕ
  pub select_all : Bool
  pub zsaso : ℕ

pub record NvmeZnsMgmtRecvArgs : Type 0 where
  pub slba : ℕ
  pub result : Option ℕ
  pub data_ptr : Option (List ℕ)
  pub args_size : ℤ
  pub fd : ℤ
  pub timeout : ℕ
  pub nsid : ℕ
  pub zra : ℕ
  pub data_len : ℕ
  pub zrasf : ℕ
  pub zras_feat : Bool

pub record NvmeZnsAppendArgs : Type 0 where
  pub zslba : ℕ
  pub result : Option ℕ
  pub data_ptr : Option (List ℕ)
  pub metadata : Option (List ℕ)
  pub args_size : ℤ
  pub fd : ℤ
  pub timeout : ℕ
  pub nsid : ℕ
  pub ilbrt : ℕ
  pub data_len : ℕ
  pub metadata_len : ℕ
  pub nlb : ℕ
  pub control : ℕ
  pub lbat : ℕ
  pub lbatm : ℕ
  pub ilbrt_u64 : ℕ
