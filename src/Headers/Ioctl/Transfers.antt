-- ===== src/Headers/Ioctl/Transfers.antt =====
-- libnvme-sys/vendored-headers/nvme/ioctl.h: the inline functions for reading and writing, and the report of zones. Each is the call that it makes.
use libnvme_rs.Base.{ℕ, ℤ, ◌%◌, ◌^◌, Bool, if◌then◌else◌, Option, List}
use libnvme_rs.Headers.ApiTypes.{NvmeIoArgs}
use libnvme_rs.Ffi.{Libnvme, Call, nvme_io, nvme_zns_mgmt_recv, zns_mgmt_recv_args}
use libnvme_rs.Headers.Ioctl.Constants.{
  nvme_cmd_compare, nvme_cmd_read, nvme_cmd_verify, nvme_cmd_write, nvme_cmd_write_uncor,
  nvme_cmd_write_zeroes, nvme_zns_zra_extended_report_zones, nvme_zns_zra_report_zones,
}

unfoldable pub nvme_read : NvmeIoArgs → Call
nvme_read args = nvme_io args nvme_cmd_read

unfoldable pub nvme_write : NvmeIoArgs → Call
nvme_write args = nvme_io args nvme_cmd_write

unfoldable pub nvme_compare : NvmeIoArgs → Call
nvme_compare args = nvme_io args nvme_cmd_compare

unfoldable pub nvme_write_zeros : NvmeIoArgs → Call
nvme_write_zeros args = nvme_io args nvme_cmd_write_zeroes

unfoldable pub nvme_write_uncorrectable : NvmeIoArgs → Call
nvme_write_uncorrectable args = nvme_io args nvme_cmd_write_uncor

unfoldable pub nvme_verify : NvmeIoArgs → Call
nvme_verify args = nvme_io args nvme_cmd_verify

module _ (lib : Libnvme) where
  unfoldable pub nvme_zns_report_zones :
      ℤ → ℕ → ℕ → ℕ → Bool → Bool → ℕ → Option (List ℕ) → ℕ → Option ℕ → Call
  nvme_zns_report_zones fd nsid slba opts extended_ partial_ data_len buf timeout result =
      nvme_zns_mgmt_recv (record {
        slba = slba;
        result = result;
        data_ptr = buf;
        args_size = lib.size_of zns_mgmt_recv_args;
        fd = fd;
        timeout = timeout;
        nsid = nsid;
        zra = if extended_ then nvme_zns_zra_extended_report_zones else nvme_zns_zra_report_zones;
        data_len = data_len;
        zrasf = opts % 2 ^ 16;
        zras_feat = partial_;
      })
