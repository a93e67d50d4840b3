-- ===== src/Headers/DeviceTypes.antt =====
-- The structures of libnvme-sys/vendored-headers/nvme/types.h that the device writes: Identify and log
-- page payloads. An array is a list of its elements; reserved and vendor
-- specific bytes and the power state descriptors are left out.
use libnvme_rs.Base.{ℕ, List}
use libnvme_rs.Headers.WireTypes.{NvmeLbaf}

pub record NvmeIdCtrl : Type 0 where
  pub vid : ℕ
  pub ssvid : ℕ
  pub sn : List ℕ
  pub mn : List ℕ
  pub fr : List ℕ
  pub rab : ℕ
  pub ieee : List ℕ
  pub cmic : ℕ
  pub mdts : ℕ
  pub cntlid : ℕ
  pub ver : ℕ
  pub rtd3r : ℕ
  pub rtd3e : ℕ
  pub oaes : ℕ
  pub ctratt : ℕ
  pub rrls : ℕ
  pub bpcap : ℕ
  pub nssl : ℕ
  pub plsi : ℕ
  pub cntrltype : ℕ
  pub fguid : List ℕ
  pub crdt1 : ℕ
  pub crdt2 : ℕ
  pub crdt3 : ℕ
  pub crcap : ℕ
  pub nvmsr : ℕ
  pub vwci : ℕ
  pub mec : ℕ
  pub oacs : ℕ
  pub acl : ℕ
  pub aerl : ℕ
  pub frmw : ℕ
  pub lpa : ℕ
  pub elpe : ℕ
  pub npss : ℕ
  pub avscc : ℕ
  pub apsta : ℕ
  pub wctemp : ℕ
  pub cctemp : ℕ
  pub mtfa : ℕ
  pub hmpre : ℕ
  pub hmmin : ℕ
  pub tnvmcap : List ℕ
  pub unvmcap : List ℕ
  pub rpmbs : ℕ
  pub edstt : ℕ
  pub dsto : ℕ
  pub fwug : ℕ
  pub kas : ℕ
  pub hctma : ℕ
  pub mntmt : ℕ
  pub mxtmt : ℕ
  pub sanicap : ℕ
  pub hmminds : ℕ
  pub hmmaxd : ℕ
  pub nsetidmax : ℕ
  pub endgidmax : ℕ
  pub anatt : ℕ
  pub anacap : ℕ
  pub anagrpmax : ℕ
  pub nanagrpid : ℕ
  pub pels : ℕ
  pub domainid : ℕ
  pub kpioc : ℕ
  pub mptfawr : ℕ
  pub megcap : List ℕ
  pub tmpthha : ℕ
  pub cqt : ℕ
  pub sqes : ℕ
  pub cqes : ℕ
  pub maxcmd : ℕ
  pub nn : ℕ
  pub oncs : ℕ
  pub fuses : ℕ
  pub fna : ℕ
  pub vwc : ℕ
  pub awun : ℕ
  pub awupf : ℕ
  pub icsvscc : ℕ
  pub nwpc : ℕ
  pub acwu : ℕ
  pub ocfs : ℕ
  pub sgls : ℕ
  pub mnan : ℕ
  pub maxdna : List ℕ
  pub maxcna : ℕ
  pub oaqd : ℕ
  pub rhiri : ℕ
  pub hirt : ℕ
  pub cmmrtd : ℕ
  pub nmmrtd : ℕ
  pub minmrtg : ℕ
  pub maxmrtg : ℕ
  pub trattr : ℕ
  pub mcudmq : ℕ
  pub mnsudmq : ℕ
  pub mcmr : ℕ
  pub nmcmr : ℕ
  pub mcdqpc : ℕ
  pub subnqn : List ℕ
  pub ioccsz : ℕ
  pub iorcsz : ℕ
  pub icdoff : ℕ
  pub fcatt : ℕ
  pub msdbd : ℕ
  pub ofcs : ℕ
  pub dctype : ℕ

pub record NvmeIdNs : Type 0 where
  pub nsze : ℕ
  pub ncap : ℕ
  pub nuse : ℕ
  pub nsfeat : ℕ
  pub nlbaf : ℕ
  pub flbas : ℕ
  pub mc : ℕ
  pub dpc : ℕ
  pub dps : ℕ
  pub nmic : ℕ
  pub rescap : ℕ
  pub fpi : ℕ
  pub dlfeat : ℕ
  pub nawun : ℕ
  pub nawupf : ℕ
  pub nacwu : ℕ
  pub nabsn : ℕ
  pub nabo : ℕ
  pub nabspf : ℕ
  pub noiob : ℕ
  pub nvmcap : List ℕ
  pub npwg : ℕ
  pub npwa : ℕ
  pub npdg : ℕ
  pub npda : ℕ
  pub nows : ℕ
  pub mssrl : ℕ
  pub mcl : ℕ
  pub msrc : ℕ
  pub kpios : ℕ
  pub nulbaf : ℕ
  pub kpiodaag : ℕ
  pub anagrpid : ℕ
  pub nsattr : ℕ
  pub nvmsetid : ℕ
  pub endgid : ℕ
  pub nguid : List ℕ
  pub eui64 : List ℕ
  pub lbaf : List NvmeLbaf

pub record NvmeSmartLog : Type 0 where
  pub critical_warning : ℕ
  pub temperature : List ℕ
  pub avail_spare : ℕ
  pub spare_thresh : ℕ
  pub percent_used : ℕ
  pub endu_grp_crit_warn_sumry : ℕ
  pub data_units_read : List ℕ
  pub data_units_written : List ℕ
  pub host_reads : List ℕ
  pub host_writes : List ℕ
  pub ctrl_busy_time : List ℕ
  pub power_cycles : List ℕ
  pub power_on_hours : List ℕ
  pub unsafe_shutdowns : List ℕ
  pub media_errors : List ℕ
  pub num_err_log_entries : List ℕ
  pub warning_temp_time : ℕ
  pub critical_comp_time : ℕ
  pub temp_sensor : List ℕ
  pub thm_temp1_trans_count : ℕ
  pub thm_temp2_trans_count : ℕ
  pub thm_temp1_total_time : ℕ
  pub thm_temp2_total_time : ℕ

pub record NvmeFirmwareSlot : Type 0 where
  pub afi : ℕ
  pub frs : List (List ℕ)

pub record NvmeErrorLogPage : Type 0 where
  pub error_count : ℕ
  pub sqid : ℕ
  pub cmdid : ℕ
  pub status_field : ℕ
  pub parm_error_location : ℕ
  pub lba : ℕ
  pub nsid : ℕ
  pub vs : ℕ
  pub trtype : ℕ
  pub csi : ℕ
  pub opcode : ℕ
  pub cs : ℕ
  pub trtype_spec_info : ℕ
  pub log_page_version : ℕ
