-- ===== src/Headers/Ioctl/Constants.antt =====
-- The constants of libnvme-sys/vendored-headers/nvme/types.h and ioctl.h that the inline functions of ioctl.h name, and
-- the sizes of the structures that they fill.
use libnvme_rs.Base.{ℕ}

abbrev pub nvme_cnsspecid_none : ℕ
nvme_cnsspecid_none = 0

abbrev pub nvme_cntlid_none : ℕ
nvme_cntlid_none = 0

abbrev pub nvme_csi_nvm : ℕ
nvme_csi_nvm = 0

abbrev pub nvme_csi_zns : ℕ
nvme_csi_zns = 2

abbrev pub nvme_default_ioctl_timeout : ℕ
nvme_default_ioctl_timeout = 0

abbrev pub nvme_directive_dtype_identify : ℕ
nvme_directive_dtype_identify = 0

abbrev pub nvme_directive_dtype_streams : ℕ
nvme_directive_dtype_streams = 1

abbrev pub nvme_directive_receive_identify_doper_param : ℕ
nvme_directive_receive_identify_doper_param = 1

abbrev pub nvme_directive_receive_streams_doper_param : ℕ
nvme_directive_receive_streams_doper_param = 1

abbrev pub nvme_directive_receive_streams_doper_resource : ℕ
nvme_directive_receive_streams_doper_resource = 3

abbrev pub nvme_directive_receive_streams_doper_status : ℕ
nvme_directive_receive_streams_doper_status = 2

abbrev pub nvme_directive_send_streams_doper_release_identifier : ℕ
nvme_directive_send_streams_doper_release_identifier = 1

abbrev pub nvme_directive_send_streams_doper_release_resource : ℕ
nvme_directive_send_streams_doper_release_resource = 2

abbrev pub nvme_identify_cns_allocated_ns : ℕ
nvme_identify_cns_allocated_ns = 17

abbrev pub nvme_identify_cns_allocated_ns_list : ℕ
nvme_identify_cns_allocated_ns_list = 16

abbrev pub nvme_identify_cns_command_set_structure : ℕ
nvme_identify_cns_command_set_structure = 28

abbrev pub nvme_identify_cns_csi_allocated_ns_list : ℕ
nvme_identify_cns_csi_allocated_ns_list = 26

abbrev pub nvme_identify_cns_csi_ctrl : ℕ
nvme_identify_cns_csi_ctrl = 6

abbrev pub nvme_identify_cns_csi_independent_id_ns : ℕ
nvme_identify_cns_csi_independent_id_ns = 8

abbrev pub nvme_identify_cns_csi_ns : ℕ
nvme_identify_cns_csi_ns = 5

abbrev pub nvme_identify_cns_csi_ns_active_list : ℕ
nvme_identify_cns_csi_ns_active_list = 7

abbrev pub nvme_identify_cns_csi_ns_user_data_format : ℕ
nvme_identify_cns_csi_ns_user_data_format = 10

abbrev pub nvme_identify_cns_ctrl : ℕ
nvme_identify_cns_ctrl = 1

abbrev pub nvme_identify_cns_ctrl_list : ℕ
nvme_identify_cns_ctrl_list = 19

abbrev pub nvme_identify_cns_domain_list : ℕ
nvme_identify_cns_domain_list = 24

abbrev pub nvme_identify_cns_endurance_group_id : ℕ
nvme_identify_cns_endurance_group_id = 25

abbrev pub nvme_identify_cns_ns : ℕ
nvme_identify_cns_ns = 0

abbrev pub nvme_identify_cns_ns_active_list : ℕ
nvme_identify_cns_ns_active_list = 2

abbrev pub nvme_identify_cns_ns_ctrl_list : ℕ
nvme_identify_cns_ns_ctrl_list = 18

abbrev pub nvme_identify_cns_ns_desc_list : ℕ
nvme_identify_cns_ns_desc_list = 3

abbrev pub nvme_identify_cns_ns_granularity : ℕ
nvme_identify_cns_ns_granularity = 22

abbrev pub nvme_identify_cns_ns_user_data_format : ℕ
nvme_identify_cns_ns_user_data_format = 9

abbrev pub nvme_identify_cns_nvmset_list : ℕ
nvme_identify_cns_nvmset_list = 4

abbrev pub nvme_identify_cns_primary_ctrl_cap : ℕ
nvme_identify_cns_primary_ctrl_cap = 20

abbrev pub nvme_identify_cns_secondary_ctrl_list : ℕ
nvme_identify_cns_secondary_ctrl_list = 21

abbrev pub nvme_identify_cns_uuid_list : ℕ
nvme_identify_cns_uuid_list = 23

abbrev pub nvme_log_ana_lsp_rgo_groups_only : ℕ
nvme_log_ana_lsp_rgo_groups_only = 1

abbrev pub nvme_log_lid_ana : ℕ
nvme_log_lid_ana = 12

abbrev pub nvme_log_lid_ave_discover : ℕ
nvme_log_lid_ave_discover = 114

abbrev pub nvme_log_lid_boot_partition : ℕ
nvme_log_lid_boot_partition = 21

abbrev pub nvme_log_lid_changed_alloc_ns_list : ℕ
nvme_log_lid_changed_alloc_ns_list = 28

abbrev pub nvme_log_lid_changed_ns : ℕ
nvme_log_lid_changed_ns = 4

abbrev pub nvme_log_lid_cmd_and_feat_lockdown : ℕ
nvme_log_lid_cmd_and_feat_lockdown = 20

abbrev pub nvme_log_lid_cmd_effects : ℕ
nvme_log_lid_cmd_effects = 5

abbrev pub nvme_log_lid_device_self_test : ℕ
nvme_log_lid_device_self_test = 6

abbrev pub nvme_log_lid_discover : ℕ
nvme_log_lid_discover = 112

abbrev pub nvme_log_lid_dispersed_ns_participating_nss : ℕ
nvme_log_lid_dispersed_ns_participating_nss = 23

abbrev pub nvme_log_lid_endurance_group : ℕ
nvme_log_lid_endurance_group = 9

abbrev pub nvme_log_lid_endurance_grp_evt : ℕ
nvme_log_lid_endurance_grp_evt = 15

abbrev pub nvme_log_lid_error : ℕ
nvme_log_lid_error = 1

abbrev pub nvme_log_lid_fdp_configs : ℕ
nvme_log_lid_fdp_configs = 32

abbrev pub nvme_log_lid_fdp_events : ℕ
nvme_log_lid_fdp_events = 35

abbrev pub nvme_log_lid_fdp_ruh_usage : ℕ
nvme_log_lid_fdp_ruh_usage = 33

abbrev pub nvme_log_lid_fdp_stats : ℕ
nvme_log_lid_fdp_stats = 34

abbrev pub nvme_log_lid_fid_supported_effects : ℕ
nvme_log_lid_fid_supported_effects = 18

abbrev pub nvme_log_lid_fw_slot : ℕ
nvme_log_lid_fw_slot = 3

abbrev pub nvme_log_lid_host_discover : ℕ
nvme_log_lid_host_discover = 113

abbrev pub nvme_log_lid_lba_status : ℕ
nvme_log_lid_lba_status = 14

abbrev pub nvme_log_lid_media_unit_status : ℕ
nvme_log_lid_media_unit_status = 16

abbrev pub nvme_log_lid_mgmt_addr_list : ℕ
nvme_log_lid_mgmt_addr_list = 24

abbrev pub nvme_log_lid_mi_cmd_supported_effects : ℕ
nvme_log_lid_mi_cmd_supported_effects = 19

abbrev pub nvme_log_lid_persistent_event : ℕ
nvme_log_lid_persistent_event = 13

abbrev pub nvme_log_lid_phy_rx_eom : ℕ
nvme_log_lid_phy_rx_eom = 25

abbrev pub nvme_log_lid_predictable_lat_agg : ℕ
nvme_log_lid_predictable_lat_agg = 11

abbrev pub nvme_log_lid_predictable_lat_nvmset : ℕ
nvme_log_lid_predictable_lat_nvmset = 10

abbrev pub nvme_log_lid_pull_model_ddc_req : ℕ
nvme_log_lid_pull_model_ddc_req = 115

abbrev pub nvme_log_lid_reachability_associations : ℕ
nvme_log_lid_reachability_associations = 27

abbrev pub nvme_log_lid_reachability_groups : ℕ
nvme_log_lid_reachability_groups = 26

abbrev pub nvme_log_lid_reservation : ℕ
nvme_log_lid_reservation = 128

abbrev pub nvme_log_lid_rotational_media_info : ℕ
nvme_log_lid_rotational_media_info = 22

abbrev pub nvme_log_lid_sanitize : ℕ
nvme_log_lid_sanitize = 129

abbrev pub nvme_log_lid_smart : ℕ
nvme_log_lid_smart = 2

abbrev pub nvme_log_lid_supported_cap_config_list : ℕ
nvme_log_lid_supported_cap_config_list = 17

abbrev pub nvme_log_lid_supported_log_pages : ℕ
nvme_log_lid_supported_log_pages = 0

abbrev pub nvme_log_lid_telemetry_ctrl : ℕ
nvme_log_lid_telemetry_ctrl = 8

abbrev pub nvme_log_lid_telemetry_host : ℕ
nvme_log_lid_telemetry_host = 7

abbrev pub nvme_log_lid_zns_changed_zones : ℕ
nvme_log_lid_zns_changed_zones = 191

abbrev pub nvme_log_lsi_none : ℕ
nvme_log_lsi_none = 0

abbrev pub nvme_log_lsp_none : ℕ
nvme_log_lsp_none = 0

abbrev pub nvme_log_page_pdu_size : ℕ
nvme_log_page_pdu_size = 4096

abbrev pub nvme_log_telem_host_lsp_create : ℕ
nvme_log_telem_host_lsp_create = 1

abbrev pub nvme_log_telem_host_lsp_retain : ℕ
nvme_log_telem_host_lsp_retain = 0

abbrev pub nvme_nsid_all : ℕ
nvme_nsid_all = 4294967295

abbrev pub nvme_nsid_none : ℕ
nvme_nsid_none = 0

abbrev pub nvme_ns_attach_sel_ctrl_attach : ℕ
nvme_ns_attach_sel_ctrl_attach = 0

abbrev pub nvme_ns_attach_sel_ctrl_deattach : ℕ
nvme_ns_attach_sel_ctrl_deattach = 1

abbrev pub nvme_ns_mgmt_sel_create : ℕ
nvme_ns_mgmt_sel_create = 0

abbrev pub nvme_ns_mgmt_sel_delete : ℕ
nvme_ns_mgmt_sel_delete = 1

abbrev pub nvme_stream_id_max : ℕ
nvme_stream_id_max = 65535

abbrev pub nvme_telemetry_da_ctrl_determine : ℕ
nvme_telemetry_da_ctrl_determine = 0

abbrev pub nvme_uuid_none : ℕ
nvme_uuid_none = 0

abbrev pub nvme_zns_zra_extended_report_zones : ℕ
nvme_zns_zra_extended_report_zones = 1

abbrev pub nvme_zns_zra_report_zones : ℕ
nvme_zns_zra_report_zones = 0

abbrev pub nvme_cmd_compare : ℕ
nvme_cmd_compare = 5

abbrev pub nvme_cmd_read : ℕ
nvme_cmd_read = 2

abbrev pub nvme_cmd_verify : ℕ
nvme_cmd_verify = 12

abbrev pub nvme_cmd_write : ℕ
nvme_cmd_write = 1

abbrev pub nvme_cmd_write_uncor : ℕ
nvme_cmd_write_uncor = 4

abbrev pub nvme_cmd_write_zeroes : ℕ
nvme_cmd_write_zeroes = 8

abbrev pub size_of_nvme_supported_log_pages : ℕ
size_of_nvme_supported_log_pages = 1024

abbrev pub nvme_zns_zras_report_all : ℕ
nvme_zns_zras_report_all = 0

abbrev pub nvme_zns_zras_report_empty : ℕ
nvme_zns_zras_report_empty = 1

abbrev pub nvme_zns_zras_report_impl_opened : ℕ
nvme_zns_zras_report_impl_opened = 2

abbrev pub nvme_zns_zras_report_expl_opened : ℕ
nvme_zns_zras_report_expl_opened = 3

abbrev pub nvme_zns_zras_report_closed : ℕ
nvme_zns_zras_report_closed = 4

abbrev pub nvme_zns_zras_report_full : ℕ
nvme_zns_zras_report_full = 5

abbrev pub nvme_zns_zras_report_read_only : ℕ
nvme_zns_zras_report_read_only = 6

abbrev pub nvme_zns_zras_report_offline : ℕ
nvme_zns_zras_report_offline = 7

abbrev pub size_of_nvme_error_log_page : ℕ
size_of_nvme_error_log_page = 64

abbrev pub size_of_nvme_smart_log : ℕ
size_of_nvme_smart_log = 512

abbrev pub size_of_nvme_firmware_slot : ℕ
size_of_nvme_firmware_slot = 512

abbrev pub size_of_nvme_ns_list : ℕ
size_of_nvme_ns_list = 4096

abbrev pub size_of_nvme_cmd_effects_log : ℕ
size_of_nvme_cmd_effects_log = 4096

abbrev pub size_of_nvme_self_test_log : ℕ
size_of_nvme_self_test_log = 564

abbrev pub size_of_nvme_telemetry_log : ℕ
size_of_nvme_telemetry_log = 512

abbrev pub size_of_nvme_endurance_group_log : ℕ
size_of_nvme_endurance_group_log = 512

abbrev pub size_of_nvme_nvmset_predictable_lat_log : ℕ
size_of_nvme_nvmset_predictable_lat_log = 512

abbrev pub size_of_nvme_fid_supported_effects_log : ℕ
size_of_nvme_fid_supported_effects_log = 1024

abbrev pub size_of_nvme_mi_cmd_supported_effects_log : ℕ
size_of_nvme_mi_cmd_supported_effects_log = 4096

abbrev pub size_of_nvme_media_unit_stat_log : ℕ
size_of_nvme_media_unit_stat_log = 16

abbrev pub size_of_nvme_supported_cap_config_list_log : ℕ
size_of_nvme_supported_cap_config_list_log = 16

abbrev pub size_of_nvme_resv_notification_log : ℕ
size_of_nvme_resv_notification_log = 64

abbrev pub size_of_nvme_sanitize_log_page : ℕ
size_of_nvme_sanitize_log_page = 512

abbrev pub size_of_nvme_zns_changed_zone_log : ℕ
size_of_nvme_zns_changed_zone_log = 4096

abbrev pub size_of_nvme_lockdown_log : ℕ
size_of_nvme_lockdown_log = 512

abbrev pub size_of_nvme_id_directives : ℕ
size_of_nvme_id_directives = 4096

abbrev pub size_of_nvme_streams_directive_params : ℕ
size_of_nvme_streams_directive_params = 32

abbrev pub size_of_nvme_streams_directive_status : ℕ
size_of_nvme_streams_directive_status = 2
