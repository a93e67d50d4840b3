-- ===== src/Format.antt =====
-- libnvme/src/namespace.rs: the Format NVM builder.
pub mod Laws
use libnvme_rs.Base.{ℕ, ℤ, none, List}
use libnvme_rs.Headers.ApiTypes.{NvmeFormatNvmArgs}
use libnvme_rs.Ffi.{Libnvme, M, ◌>>=◌, issue, nvme_format_nvm, format_nvm_args}
use libnvme_rs.Namespace.{Namespace, nsid, ns_fd}
use libnvme_rs.Admin.{
  SecureErase, no_erase, ProtectionInfo, disabled, ProtectionLocation, last, MetadataSettings,
  separate, secure_erase_raw, protection_info_raw, protection_location_raw, metadata_settings_raw,
}

pub record Format : Type 0 where
  pub ns : Namespace
  pub lba_format : ℕ
  pub secure_erase : SecureErase
  pub protection_info : ProtectionInfo
  pub protection_location : ProtectionLocation
  pub metadata : MetadataSettings
  pub lba_format_upper : ℕ
  pub timeout_ms : ℕ

unfoldable pub new_format : Namespace → Format
new_format ns = record {
  ns = ns;
  lba_format = 0;
  secure_erase = no_erase;
  protection_info = disabled;
  protection_location = last;
  metadata = separate;
  lba_format_upper = 0;
  timeout_ms = 0;
}

-- The builder's methods.
pub data FormatSetter : Type 0 where
  set_lba_format set_lba_format_upper set_timeout_ms : ℕ → FormatSetter
  set_secure_erase : SecureErase → FormatSetter
  set_protection_info : ProtectionInfo → FormatSetter
  set_protection_location : ProtectionLocation → FormatSetter
  set_metadata : MetadataSettings → FormatSetter

unfoldable pub apply_format_setter : FormatSetter → Format → Format
apply_format_setter (set_lba_format index) c = record c { lba_format = index }
apply_format_setter (set_lba_format_upper upper) c = record c { lba_format_upper = upper }
apply_format_setter (set_timeout_ms ms) c = record c { timeout_ms = ms }
apply_format_setter (set_secure_erase mode) c = record c { secure_erase = mode }
apply_format_setter (set_protection_info pi) c = record c { protection_info = pi }
apply_format_setter (set_protection_location location) c = record c {
  protection_location = location;
}
apply_format_setter (set_metadata settings) c = record c { metadata = settings }

module _ (lib : Libnvme) where
  unfoldable pub raw_format_args : Format → ℤ → NvmeFormatNvmArgs
  raw_format_args c fd = record {
    result = none;
    args_size = lib.size_of format_nvm_args;
    fd = fd;
    timeout = c.timeout_ms;
    nsid = nsid lib c.ns;
    mset = metadata_settings_raw c.metadata;
    pi = protection_info_raw c.protection_info;
    pil = protection_location_raw c.protection_location;
    ses = secure_erase_raw c.secure_erase;
    lbaf = c.lba_format;
    lbafu = c.lba_format_upper;
  }

  unfoldable pub format_execute : Format → M (Unit {0})
  format_execute c = do
    fd ← ns_fd lib c.ns
    issue lib (nvme_format_nvm (raw_format_args c fd)) (λ _. tt)
