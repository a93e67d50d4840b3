-- ===== src/Tree/Fields.antt =====
-- The fields of libnvme's tree, which its getters read. They are a parameter: a text is the memory from its start on,
-- NULL is `none`.
pub mod Laws
use libnvme_rs.Base.{ℕ, ℤ, Bool, Option, List}
use libnvme_rs.Ffi.{Handle}

-- The getters that give a C string.
pub data TextGetter : Type 0 where
  nvme_ctrl_get_name nvme_ctrl_get_model nvme_ctrl_get_serial nvme_ctrl_get_firmware
        nvme_ctrl_get_transport nvme_ctrl_get_address nvme_ctrl_get_state nvme_ctrl_get_numa_node
        nvme_ctrl_get_queue_count nvme_ctrl_get_sqsize nvme_ctrl_get_phy_slot
        nvme_ctrl_get_subsysnqn nvme_ctrl_get_traddr nvme_ctrl_get_trsvcid nvme_ctrl_get_host_traddr
        nvme_ctrl_get_host_iface :
      TextGetter
  nvme_ns_get_name nvme_ns_get_generic_name nvme_ns_get_model nvme_ns_get_serial
        nvme_ns_get_firmware :
      TextGetter
  nvme_subsystem_get_name nvme_subsystem_get_nqn nvme_subsystem_get_type nvme_subsystem_get_serial
        nvme_subsystem_get_model nvme_subsystem_get_fw_rev nvme_subsystem_get_iopolicy
        nvme_subsystem_get_application :
      TextGetter
  nvme_host_get_hostnqn nvme_host_get_hostid : TextGetter
  nvme_path_get_name nvme_path_get_ana_state nvme_path_get_numa_nodes : TextGetter

pub record TreeFields : Type 0 where
  pub text : TextGetter → Handle → Option (List ℕ)
  pub ctrl_is_discovery_ctrl : Handle → Bool
  pub ctrl_is_discovered : Handle → Bool
  pub ctrl_is_unique_discovery_ctrl : Handle → Bool
  pub ctrl_is_persistent : Handle → Bool
  pub ns_get_lba_util : Handle → ℕ
  pub ns_get_csi : Handle → ℕ
  -- what `nvme_ns_get_uuid` writes
  pub ns_get_uuid : Handle → List ℕ
  pub ns_get_nguid : Handle → Option (List ℕ)
  pub ns_get_eui64 : Handle → Option (List ℕ)
  pub path_get_queue_depth : Handle → ℤ
