-- ===== src/Headers/ApiTypes/Reservation.antt =====
-- The argument structures of the reservation commands in
-- libnvme-sys/vendored-headers/nvme/api-types.h, in the conventions of `ApiTypes.Io`.
use libnvme_rs.Base.{ℕ, ℤ, Bool, Option, List}

pub record NvmeResvAcquireArgs : Type 0 where
  pub crkey : ℕ
  pub nrkey : ℕ
  pub result : Option ℕ
  pub args_size : ℤ
  pub fd : ℤ
  pub timeout : ℕ
  pub nsid : ℕ
  pub rtype : ℕ
  pub racqa : ℕ
  pub iekey : Bool

pub record NvmeResvRegisterArgs : Type 0 where
  pub crkey : ℕ
  pub nrkey : ℕ
  pub result : Option ℕ
  pub args_size : ℤ
  pub fd : ℤ
  pub timeout : ℕ
  pub nsid : ℕ
  pub rrega : ℕ
  pub cptpl : ℕ
  pub iekey : Bool

pub record NvmeResvReleaseArgs : Type 0 where
  pub crkey : ℕ
  pub result : Option ℕ
  pub args_size : ℤ
  pub fd : ℤ
  pub timeout : ℕ
  pub nsid : ℕ
  pub rtype : ℕ
  pub rrela : ℕ
  pub iekey : Bool

pub record NvmeResvReportArgs : Type 0 where
  pub result : Option ℕ
  pub report : Option (List ℕ)
  pub args_size : ℤ
  pub fd : ℤ
  pub timeout : ℕ
  pub nsid : ℕ
  pub len : ℕ
  pub eds : Bool
