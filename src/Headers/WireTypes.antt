-- ===== src/Headers/WireTypes.antt =====
-- The structures of libnvme-sys/vendored-headers/nvme/types.h that the device reads from host
-- memory, field by field. Little-endian fields hold the number that they stand for; reserved bytes,
-- which the crate always sends as zero, are left out.
use libnvme_rs.Base.{ℕ, List}

pub record NvmeDsmRange : Type 0 where
  pub cattr : ℕ
  pub nlb : ℕ
  pub slba : ℕ

pub record NvmeCopyRange : Type 0 where
  pub slba : ℕ
  pub nlb : ℕ
  pub eilbrt : ℕ
  pub elbat : ℕ
  pub elbatm : ℕ

pub record NvmeCtrlList : Type 0 where
  pub num : ℕ
  pub identifier : List ℕ

pub record NvmeLbaf : Type 0 where
  pub ms : ℕ
  pub ds : ℕ
  pub rp : ℕ
