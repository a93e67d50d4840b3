-- ===== src/Io/RangeCommands.antt =====
-- libnvme/src/io.rs: the builders `Dsm` and `Copy` and their `execute`.
pub mod Laws
use libnvme_rs.Base.{
  ℕ, ℤ, pos, ◌-◌, Bool, true, false, Option, none, some, List, [], ◌∷◌, map, length, u16, ltb, ◌==◌,
  if◌then◌else◌,
}
use libnvme_rs.Error.{
  Result, ok, err, invalid_argument, no_dsm_range, too_many_dsm_ranges, no_copy_range,
  too_many_copy_ranges,
}
use libnvme_rs.Headers.ApiTypes.{NvmeDsmArgs, NvmeCopyArgs}
use libnvme_rs.Ffi.{
  Libnvme, M, ◌>>=◌, ◌>>◌, lift, issue, result_u32, nvme_dsm, nvme_copy, dsm_args, copy_args,
}
use libnvme_rs.Namespace.{Namespace, nsid, ns_fd}
use libnvme_rs.Io.Ranges.{DsmAttr, DsmRange, raw_dsm_range, CopyRange, raw_copy_range}

pub record Dsm : Type 0 where
  pub ns : Namespace
  pub attrs : DsmAttr
  pub ranges : Option (List DsmRange)
  pub timeout_ms : ℕ

-- `self.ranges.unwrap_or(&[])`
abbrev pub given_ranges : Dsm → List DsmRange
given_ranges c = elim c.ranges [ none ↦ [] | some rs ↦ rs ]

unfoldable pub check_dsm_ranges : List DsmRange → Result (Unit {0})
check_dsm_ranges rs =
    if length rs == 0
    then err (invalid_argument no_dsm_range)
    else if ltb 256 (length rs)
    then err (invalid_argument (too_many_dsm_ranges (length rs)))
    else ok tt

pub record Copy : Type 0 where
  pub ns : Namespace
  pub sdlba : ℕ
  pub ranges : List CopyRange
  pub ilbrt : ℕ
  pub ilbrt_u64 : ℕ
  pub lbat : ℕ
  pub lbatm : ℕ
  pub prinfor : ℕ
  pub prinfow : ℕ
  pub fua : Bool
  pub lr : Bool
  pub dtype : ℕ
  pub dspec : ℕ
  pub format : ℕ
  pub timeout_ms : ℕ

unfoldable pub check_copy_ranges : List CopyRange → Result (Unit {0})
check_copy_ranges rs =
    if length rs == 0
    then err (invalid_argument no_copy_range)
    else if ltb 128 (length rs)
    then err (invalid_argument (too_many_copy_ranges (length rs)))
    else ok tt

-- `b as i32`
abbrev int_of_bool : Bool → ℤ
int_of_bool true = pos 1
int_of_bool false = pos 0

module _ (lib : Libnvme) where
  unfoldable pub raw_dsm_args : Dsm → ℤ → NvmeDsmArgs
  raw_dsm_args c fd =
      let raw = map raw_dsm_range (given_ranges c) in
      record {
        result = some 0;
        dsm = some raw;
        args_size = lib.size_of dsm_args;
        fd = fd;
        timeout = c.timeout_ms;
        nsid = nsid lib c.ns;
        attrs = c.attrs;
        nr_ranges = u16 (length raw);
      }

  -- `Dsm::execute`
  unfoldable pub dsm_execute : Dsm → M ℕ
  dsm_execute c = do
    lift (check_dsm_ranges (given_ranges c))
    fd ← ns_fd lib c.ns
    issue lib (nvme_dsm (raw_dsm_args c fd)) result_u32

  unfoldable pub raw_copy_args : Copy → ℤ → NvmeCopyArgs
  raw_copy_args c fd =
      let raw = map raw_copy_range c.ranges in
      record {
        sdlba = c.sdlba;
        result = some 0;
        copy = some raw;
        args_size = lib.size_of copy_args;
        fd = fd;
        timeout = c.timeout_ms;
        nsid = nsid lib c.ns;
        ilbrt = c.ilbrt;
        lr = int_of_bool c.lr;
        fua = int_of_bool c.fua;
        nr = u16 (length raw - 1);
        dspec = c.dspec;
        lbatm = c.lbatm;
        lbat = c.lbat;
        prinfor = c.prinfor;
        prinfow = c.prinfow;
        dtype = c.dtype;
        format = c.format;
        ilbrt_u64 = c.ilbrt_u64;
      }

  -- `Copy::execute`
  unfoldable pub copy_execute : Copy → M ℕ
  copy_execute c = do
    lift (check_copy_ranges c.ranges)
    fd ← ns_fd lib c.ns
    issue lib (nvme_copy (raw_copy_args c fd)) result_u32
