-- ===== src/Headers/Ioctl/LogTelemetry.antt =====
-- libnvme-sys/vendored-headers/nvme/ioctl.h: the inline functions for the telemetry log pages and their like. Each is the call that it makes.
use libnvme_rs.Base.{ℕ, ℤ, ◌*◌, ◌%◌, ◌^◌, bit_or, Bool, false, Option, none, List}
use libnvme_rs.Ffi.{Libnvme, Call, get_log_args, nvme_get_log_page}
use libnvme_rs.Headers.Ioctl.Constants.{
  nvme_csi_nvm, nvme_default_ioctl_timeout, nvme_log_lid_cmd_effects, nvme_log_lid_device_self_test,
  nvme_log_lid_telemetry_ctrl, nvme_log_lid_telemetry_host, nvme_log_lsi_none, nvme_log_lsp_none,
  nvme_log_page_pdu_size, nvme_log_telem_host_lsp_create, nvme_log_telem_host_lsp_retain,
  nvme_nsid_all, nvme_nsid_none, nvme_telemetry_da_ctrl_determine, nvme_uuid_none,
  size_of_nvme_cmd_effects_log, size_of_nvme_self_test_log, size_of_nvme_telemetry_log,
}
use libnvme_rs.Headers.Ioctl.Logs.{nvme_get_nsid_log}

module _ (lib : Libnvme) where
  unfoldable pub nvme_get_log_cmd_effects : ℤ → ℕ → Option (List ℕ) → Call
  nvme_get_log_cmd_effects fd csi effects_log = nvme_get_log_page nvme_log_page_pdu_size (record {
    lpo = 0;
    result = none;
    log = effects_log;
    args_size = lib.size_of get_log_args;
    fd = fd;
    timeout = nvme_default_ioctl_timeout;
    lid = nvme_log_lid_cmd_effects;
    len = size_of_nvme_cmd_effects_log;
    nsid = nvme_nsid_all;
    csi = csi;
    lsi = nvme_log_lsi_none;
    lsp = nvme_log_lsp_none;
    uuidx = nvme_uuid_none;
    rae = false;
    ot = false;
  })

  unfoldable pub nvme_get_log_device_self_test : ℤ → Option (List ℕ) → Call
  nvme_get_log_device_self_test fd buf =
      nvme_get_nsid_log lib fd false nvme_log_lid_device_self_test nvme_nsid_all
        size_of_nvme_self_test_log buf

  unfoldable pub nvme_get_log_create_telemetry_host_mcda : ℤ → ℕ → Option (List ℕ) → Call
  nvme_get_log_create_telemetry_host_mcda fd mcda buf =
      nvme_get_log_page nvme_log_page_pdu_size (record {
        lpo = 0;
        result = none;
        log = buf;
        args_size = lib.size_of get_log_args;
        fd = fd;
        timeout = nvme_default_ioctl_timeout;
        lid = nvme_log_lid_telemetry_host;
        len = size_of_nvme_telemetry_log;
        nsid = nvme_nsid_none;
        csi = nvme_csi_nvm;
        lsi = nvme_log_lsi_none;
        lsp = (bit_or (mcda * 2) nvme_log_telem_host_lsp_create) % 2 ^ 8;
        uuidx = nvme_uuid_none;
        rae = false;
        ot = false;
      })

  unfoldable pub nvme_get_log_create_telemetry_host : ℤ → Option (List ℕ) → Call
  nvme_get_log_create_telemetry_host fd buf =
      nvme_get_log_create_telemetry_host_mcda fd nvme_telemetry_da_ctrl_determine buf

  unfoldable pub nvme_get_log_telemetry_host : ℤ → ℕ → ℕ → Option (List ℕ) → Call
  nvme_get_log_telemetry_host fd offset len buf = nvme_get_log_page nvme_log_page_pdu_size (record {
    lpo = offset;
    result = none;
    log = buf;
    args_size = lib.size_of get_log_args;
    fd = fd;
    timeout = nvme_default_ioctl_timeout;
    lid = nvme_log_lid_telemetry_host;
    len = len;
    nsid = nvme_nsid_none;
    csi = nvme_csi_nvm;
    lsi = nvme_log_lsi_none;
    lsp = nvme_log_telem_host_lsp_retain;
    uuidx = nvme_uuid_none;
    rae = false;
    ot = false;
  })

  unfoldable pub nvme_get_log_telemetry_ctrl : ℤ → Bool → ℕ → ℕ → Option (List ℕ) → Call
  nvme_get_log_telemetry_ctrl fd rae offset len buf =
      nvme_get_log_page nvme_log_page_pdu_size (record {
        lpo = offset;
        result = none;
        log = buf;
        args_size = lib.size_of get_log_args;
        fd = fd;
        timeout = nvme_default_ioctl_timeout;
        lid = nvme_log_lid_telemetry_ctrl;
        len = len;
        nsid = nvme_nsid_none;
        csi = nvme_csi_nvm;
        lsi = nvme_log_lsi_none;
        lsp = nvme_log_lsp_none;
        uuidx = nvme_uuid_none;
        rae = rae;
        ot = false;
      })
