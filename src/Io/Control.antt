-- ===== src/Io/Control.antt =====
-- libnvme/src/io.rs: the options that the builders collect. A call of a builder's setter is a value
-- of `Setter`, so that a chain of calls is a list of them.
pub mod Laws
use libnvme_rs.Base.{ℕ, bit_or, List, [], ◌∷◌}
use libnvme_rs.Io.IoControl

-- `IoOpts`; the words are below 2 ^ their width in the source.
pub record IoOpts : Type 0 where
  pub control : ℕ
  pub dsm_hint : ℕ
  pub dspec : ℕ
  pub apptag : ℕ
  pub appmask : ℕ
  pub reftag : ℕ
  pub reftag_u64 : ℕ
  pub storage_tag : ℕ
  pub sts : ℕ
  pub pif : ℕ
  pub timeout_ms : ℕ

-- `IoOpts::default()`
abbrev pub default_opts : IoOpts
default_opts = record {
  control = 0;
  dsm_hint = 0;
  dspec = 0;
  apptag = 0;
  appmask = 0;
  reftag = 0;
  reftag_u64 = 0;
  storage_tag = 0;
  sts = 0;
  pif = 0;
  timeout_ms = 0;
}

-- The methods of the macro `io_data_setters`, on the builders of Read, Write and Compare.
pub data Setter : Type 0 where
  fua limited_retry protection_action check_reftag check_apptag check_guard : Setter
  streams check_storage_tag : Setter
  ref_tag ref_tag_u64 app_tag app_mask dataset_mgmt directive storage_tag : ℕ → Setter
  storage_tag_size pi_format timeout_ms : ℕ → Setter

-- `self.opts.control |= bit`
abbrev pub or_control : ℕ → IoOpts → IoOpts
or_control bit o = record o { control = bit_or o.control bit }

-- One call of a setter of `io_data_setters`.
unfoldable pub apply_setter : Setter → IoOpts → IoOpts
apply_setter fua o = or_control IoControl.fua o
apply_setter limited_retry o = or_control IoControl.lr o
apply_setter protection_action o = or_control IoControl.prinfo_pract o
apply_setter check_reftag o = or_control IoControl.prinfo_prchk_ref o
apply_setter check_apptag o = or_control IoControl.prinfo_prchk_app o
apply_setter check_guard o = or_control IoControl.prinfo_prchk_guard o
apply_setter streams o = or_control IoControl.dtype_streams o
apply_setter check_storage_tag o = or_control IoControl.stc o
apply_setter (ref_tag tag) o = record o { reftag = tag }
apply_setter (ref_tag_u64 tag) o = record o { reftag_u64 = tag }
apply_setter (app_tag tag) o = record o { apptag = tag }
apply_setter (app_mask mask) o = record o { appmask = mask }
apply_setter (dataset_mgmt dsm) o = record o { dsm_hint = dsm }
apply_setter (directive value) o = record o { dspec = value }
apply_setter (storage_tag tag) o = record o { storage_tag = tag }
apply_setter (storage_tag_size bits) o = record o { sts = bits }
apply_setter (pi_format format) o = record o { pif = format }
apply_setter (timeout_ms ms) o = record o { timeout_ms = ms }

-- The methods of the macro `io_nodata_setters` (Verify and Write Zeroes), and the two that
-- `WriteZeroes` adds.
pub data NoDataSetter : Type 0 where
  fua limited_retry protection_action check_reftag check_apptag check_guard : NoDataSetter
  ref_tag app_tag app_mask timeout_ms : ℕ → NoDataSetter
  deallocate no_deallocate_after_zero : NoDataSetter

unfoldable pub apply_nodata_setter : NoDataSetter → IoOpts → IoOpts
apply_nodata_setter NoDataSetter.fua o = or_control IoControl.fua o
apply_nodata_setter NoDataSetter.limited_retry o = or_control IoControl.lr o
apply_nodata_setter NoDataSetter.protection_action o = or_control IoControl.prinfo_pract o
apply_nodata_setter NoDataSetter.check_reftag o = or_control IoControl.prinfo_prchk_ref o
apply_nodata_setter NoDataSetter.check_apptag o = or_control IoControl.prinfo_prchk_app o
apply_nodata_setter NoDataSetter.check_guard o = or_control IoControl.prinfo_prchk_guard o
apply_nodata_setter (NoDataSetter.ref_tag tag) o = record o { reftag = tag }
apply_nodata_setter (NoDataSetter.app_tag tag) o = record o { apptag = tag }
apply_nodata_setter (NoDataSetter.app_mask mask) o = record o { appmask = mask }
apply_nodata_setter (NoDataSetter.timeout_ms ms) o = record o { timeout_ms = ms }
apply_nodata_setter NoDataSetter.deallocate o = or_control IoControl.deac o
apply_nodata_setter NoDataSetter.no_deallocate_after_zero o = or_control IoControl.nsz o

-- A chain of setter calls, the first at the head.
unfoldable pub configure : List Setter → IoOpts → IoOpts
configure [] o = o
configure (s ∷ ss) o = configure ss (apply_setter s o)

unfoldable pub configure_nodata : List NoDataSetter → IoOpts → IoOpts
configure_nodata [] o = o
configure_nodata (s ∷ ss) o = configure_nodata ss (apply_nodata_setter s o)
