-- ===== src/Reference/Zones.antt =====
-- The zone reports of libnvme/src/zns.rs and the opcodes of libnvme/src/io.rs beside the functions of
-- libnvme-sys/vendored-headers/nvme/ioctl.h.
use libnvme_rs.Base.{
  ℕ, ℤ, ◌%◌, ◌^◌, ◌≡◌, refl, Bool, false, true, if◌then◌else◌, u32, some, List, length,
}
use libnvme_rs.Ffi.{Libnvme, nvme_io, nvme_zns_mgmt_recv}
use libnvme_rs.Headers.ApiTypes.{NvmeIoArgs}
use libnvme_rs.Headers.Ioctl.Transfers.{
  nvme_read, nvme_write, nvme_compare, nvme_write_zeros, nvme_write_uncorrectable, nvme_verify,
  nvme_zns_report_zones,
}
use libnvme_rs.Namespace.{nsid}
use libnvme_rs.Headers.Ioctl.Constants.{
  nvme_zns_zra_extended_report_zones, nvme_zns_zra_report_zones, nvme_zns_zras_report_all,
  nvme_zns_zras_report_empty, nvme_zns_zras_report_impl_opened, nvme_zns_zras_report_expl_opened,
  nvme_zns_zras_report_closed, nvme_zns_zras_report_full, nvme_zns_zras_report_read_only,
  nvme_zns_zras_report_offline,
}
use libnvme_rs.Io.Commands.{
  opc_read, opc_write, opc_compare, opc_write_zeroes, opc_write_uncor, opc_verify,
}
use libnvme_rs.Zns.{
  ZoneRecvAction, report, extended_report, ZoneReportFilter, all_zones, empty, implicitly_opened,
  explicitly_opened, closed, full, read_only, offline_zones, ZnsMgmtRecv, recv_action_raw,
  report_filter_raw, raw_recv_args,
}

-- Whether a report of zones is extended.
abbrev pub is_extended : ZoneRecvAction → Bool
is_extended report = false
is_extended extended_report = true

extended-lem :
    (a : ZoneRecvAction)
    → (if is_extended a then nvme_zns_zra_extended_report_zones else nvme_zns_zra_report_zones)
      ≡ recv_action_raw a
unfolding recv_action_raw
extended-lem report = refl
extended-lem extended_report = refl

-- The value of `enum nvme_zns_report_options` for the zones that a filter lists.
abbrev pub report_option : ZoneReportFilter → ℕ
report_option all_zones = nvme_zns_zras_report_all
report_option empty = nvme_zns_zras_report_empty
report_option implicitly_opened = nvme_zns_zras_report_impl_opened
report_option explicitly_opened = nvme_zns_zras_report_expl_opened
report_option closed = nvme_zns_zras_report_closed
report_option full = nvme_zns_zras_report_full
report_option read_only = nvme_zns_zras_report_read_only
report_option offline_zones = nvme_zns_zras_report_offline

option-lem : (f : ZoneReportFilter) → report_option f % 2 ^ 16 ≡ report_filter_raw f
unfolding report_filter_raw
option-lem all_zones = refl
option-lem empty = refl
option-lem implicitly_opened = refl
option-lem explicitly_opened = refl
option-lem closed = refl
option-lem full = refl
option-lem read_only = refl
option-lem offline_zones = refl

-- A report of zones passes what libnvme's own function passes for the option of libnvme that lists the same zones, for
-- every filter, extended or not, partial or not.
pub zone_report_equal :
    (lib : Libnvme) (c : ZnsMgmtRecv) (buf : List ℕ) (fd : ℤ)
    → nvme_zns_report_zones lib fd
        (nsid lib c.ns)
        c.slba
        (report_option c.filter)
        (is_extended c.action)
        c.is_partial
        (u32 (length buf))
        (some buf)
        c.timeout_ms
        (some 0)
      ≡ nvme_zns_mgmt_recv (raw_recv_args lib c buf fd)
unfolding nvme_zns_report_zones raw_recv_args
zone_report_equal lib c buf fd = rw (extended-lem c.action, option-lem c.filter) refl

-- The opcodes that the crate gives to `nvme_io` are those of libnvme's functions for the commands.
pub opcodes_equal :
    (args : NvmeIoArgs)
    → (nvme_io args opc_read ≡ nvme_read args)
      × (nvme_io args opc_write ≡ nvme_write args)
      × (nvme_io args opc_compare ≡ nvme_compare args)
      × (nvme_io args opc_write_zeroes ≡ nvme_write_zeros args)
      × (nvme_io args opc_write_uncor ≡ nvme_write_uncorrectable args)
      × (nvme_io args opc_verify ≡ nvme_verify args)
unfolding nvme_read nvme_write nvme_compare nvme_write_zeros nvme_write_uncorrectable nvme_verify
opcodes_equal args = (refl, refl, refl, refl, refl, refl)
