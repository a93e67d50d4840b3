-- ===== src/Headers/ApiTypes/Admin.antt =====
-- The argument structures of the admin commands in
-- libnvme-sys/vendored-headers/nvme/api-types.h, in the conventions of `ApiTypes.Io`.
use libnvme_rs.Base.{ℕ, ℤ, Bool, Option, List}
use libnvme_rs.Headers.WireTypes.{NvmeCtrlList}

pub record NvmeGetLogArgs : Type 0 where
  pub lpo : ℕ
  pub result : Option ℕ
  pub log : Option (List ℕ)
  pub args_size : ℤ
  pub fd : ℤ
  pub timeout : ℕ
  pub lid : ℕ
  pub len : ℕ
  pub nsid : ℕ
  pub csi : ℕ
  pub lsi : ℕ
  pub lsp : ℕ
  pub uuidx : ℕ
  pub rae : Bool
  pub ot : Bool

pub record NvmeFormatNvmArgs : Type 0 where
  pub result : Option ℕ
  pub args_size : ℤ
  pub fd : ℤ
  pub timeout : ℕ
  pub nsid : ℕ
  pub mset : ℕ
  pub pi : ℕ
  pub pil : ℕ
  pub ses : ℕ
  pub lbaf : ℕ
  pub lbafu : ℕ

pub record NvmeNsMgmtArgs : Type 0 where
  pub result : Option ℕ
  pub ns : Option (List ℕ)
  pub args_size : ℤ
  pub fd : ℤ
  pub timeout : ℕ
  pub nsid : ℕ
  pub sel : ℕ
  pub csi : ℕ
  pub data_ptr : Option (List ℕ)

pub record NvmeNsAttachArgs : Type 0 where
  pub result : Option ℕ
  pub ctrlist : Option NvmeCtrlList
  pub args_size : ℤ
  pub fd : ℤ
  pub timeout : ℕ
  pub nsid : ℕ
  pub sel : ℕ

pub record NvmeFwCommitArgs : Type 0 where
  pub result : Option ℕ
  pub args_size : ℤ
  pub fd : ℤ
  pub timeout : ℕ
  pub action : ℕ
  pub slot : ℕ
  pub bpid : Bool

pub record NvmeSecuritySendArgs : Type 0 where
  pub result : Option ℕ
  pub data_ptr : Option (List ℕ)
  pub args_size : ℤ
  pub fd : ℤ
  pub timeout : ℕ
  pub nsid : ℕ
  pub tl : ℕ
  pub data_len : ℕ
  pub nssf : ℕ
  pub spsp0 : ℕ
  pub spsp1 : ℕ
  pub secp : ℕ

pub record NvmeSecurityReceiveArgs : Type 0 where
  pub result : Option ℕ
  pub data_ptr : Option (List ℕ)
  pub args_size : ℤ
  pub fd : ℤ
  pub timeout : ℕ
  pub nsid : ℕ
  pub al : ℕ
  pub data_len : ℕ
  pub nssf : ℕ
  pub spsp0 : ℕ
  pub spsp1 : ℕ
  pub secp : ℕ

pub record NvmeGetLbaStatusArgs : Type 0 where
  pub slba : ℕ
  pub result : Option ℕ
  pub lbas : Option (List ℕ)
  pub args_size : ℤ
  pub fd : ℤ
  pub timeout : ℕ
  pub nsid : ℕ
  pub mndw : ℕ
  pub atype : ℕ
  pub rl : ℕ

pub record NvmeLockdownArgs : Type 0 where
  pub result : Option ℕ
  pub args_size : ℤ
  pub fd : ℤ
  pub timeout : ℕ
  pub scp : ℕ
  pub prhbt : ℕ
  pub ifc : ℕ
  pub ofi : ℕ
  pub uuidx : ℕ

pub record NvmeSetPropertyArgs : Type 0 where
  pub value : ℕ
  pub result : Option ℕ
  pub args_size : ℤ
  pub fd : ℤ
  pub timeout : ℕ
  pub offset : ℤ

pub record NvmeGetPropertyArgs : Type 0 where
  pub value : Option ℕ
  pub args_size : ℤ
  pub fd : ℤ
  pub timeout : ℕ
  pub offset : ℤ

pub record NvmeSanitizeNvmArgs : Type 0 where
  pub result : Option ℕ
  pub args_size : ℤ
  pub fd : ℤ
  pub timeout : ℕ
  pub sanact : ℕ
  pub ovrpat : ℕ
  pub ause : Bool
  pub owpass : ℕ
  pub oipbp : Bool
  pub nodas : Bool
  pub emvs : Bool

pub record NvmeDevSelfTestArgs : Type 0 where
  pub result : Option ℕ
  pub args_size : ℤ
  pub fd : ℤ
  pub timeout : ℕ
  pub nsid : ℕ
  pub stc : ℕ

pub record NvmeIdentifyArgs : Type 0 where
  pub result : Option ℕ
  pub data_ptr : Option (List ℕ)
  pub args_size : ℤ
  pub fd : ℤ
  pub timeout : ℕ
  pub cns : ℕ
  pub csi : ℕ
  pub nsid : ℕ
  pub cntid : ℕ
  pub cns_specific_id : ℕ
  pub uuidx : ℕ
