-- ===== src/Tests/Ranges.antt =====
-- The theorems on the range commands of libnvme/src/io.rs and on libnvme/src/zns.rs at concrete requests.
use libnvme_rs.Base.{◌+◌, pos, true, false, ◌≡◌, refl, ◌≢◌, some, List, [], ◌∷◌, get_elem?, arith}
use libnvme_rs.Headers.WireTypes.{NvmeCopyRange}
use libnvme_rs.Io.Ranges.{
  new_dsm_range, with_context, raw_dsm_range, new_copy_range, raw_copy_range,
}
use libnvme_rs.Io.Ranges.Laws.{raw_dsm_range_short}
use libnvme_rs.Io.RangeCommands.{Copy, raw_copy_args}
use libnvme_rs.Io.RangeCommands.Laws.{raw_copy_args_lem}
use libnvme_rs.Tests.{working, ns0}

raw_dsm_range_short_example :
    let r = raw_dsm_range (with_context 6 (new_dsm_range 100 8)) in
    (r.nlb + 1 ≡ 8) × (r.nlb ≢ 8) × (r.slba ≡ 100) × (r.cattr ≡ 6)
raw_dsm_range_short_example = raw_dsm_range_short 100 8 6 (omega arith)

abbrev copy_one : Copy
copy_one = record {
  ns = ns0;
  sdlba = 50;
  ranges = new_copy_range 10 4 ∷ [];
  ilbrt = 0;
  ilbrt_u64 = 0;
  lbat = 0;
  lbatm = 0;
  prinfor = 0;
  prinfow = 0;
  fua = true;
  lr = false;
  dtype = 0;
  dspec = 0;
  format = 0;
  timeout_ms = 0;
}

raw_copy_args_lem_example :
    let a = raw_copy_args working copy_one (pos 3) in
    (a.nr + 1 ≡ 1)
    × (raws : List NvmeCopyRange) × (a.copy ≡ some raws)
    × (get_elem? raws 0 ≡ some (raw_copy_range (new_copy_range 10 4)))
raw_copy_args_lem_example =
    raw_copy_args_lem working copy_one (pos 3) 0 (new_copy_range 10 4) (omega arith) refl
