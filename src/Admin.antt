-- ===== src/Admin.antt =====
-- libnvme/src/admin.rs: the parameters of the admin commands and the field values that they stand for.
pub mod Laws
use libnvme_rs.Base.{ℕ}

pub data SecureErase : Type 0 where
  no_erase user_data cryptographic : SecureErase

pub data ProtectionInfo : Type 0 where
  disabled type1 type2 type3 : ProtectionInfo

pub data ProtectionLocation : Type 0 where
  last first : ProtectionLocation

pub data MetadataSettings : Type 0 where
  separate extended : MetadataSettings

pub data FirmwareAction : Type 0 where
  replace replace_and_activate set_active replace_and_activate_immediate replace_boot_partition
        activate_boot_partition :
      FirmwareAction

pub data FeatureSelect : Type 0 where
  current default saved supported : FeatureSelect

pub data SanitizeAction : Type 0 where
  exit_failure block_erase overwrite_media crypto_erase exit_media_verification : SanitizeAction

pub data SelfTestAction : Type 0 where
  short extended_test host_initiated vendor_specific abort : SelfTestAction

unfoldable pub feature_select_raw : FeatureSelect → ℕ
feature_select_raw current = 0
feature_select_raw default = 1
feature_select_raw saved = 2
feature_select_raw supported = 3

unfoldable pub sanitize_action_raw : SanitizeAction → ℕ
sanitize_action_raw exit_failure = 1
sanitize_action_raw block_erase = 2
sanitize_action_raw overwrite_media = 3
sanitize_action_raw crypto_erase = 4
sanitize_action_raw exit_media_verification = 5

unfoldable pub self_test_action_raw : SelfTestAction → ℕ
self_test_action_raw short = 1
self_test_action_raw extended_test = 2
self_test_action_raw host_initiated = 3
self_test_action_raw vendor_specific = 14
self_test_action_raw abort = 15

unfoldable pub secure_erase_raw : SecureErase → ℕ
secure_erase_raw no_erase = 0
secure_erase_raw user_data = 1
secure_erase_raw cryptographic = 2

unfoldable pub protection_info_raw : ProtectionInfo → ℕ
protection_info_raw disabled = 0
protection_info_raw type1 = 1
protection_info_raw type2 = 2
protection_info_raw type3 = 3

unfoldable pub protection_location_raw : ProtectionLocation → ℕ
protection_location_raw last = 0
protection_location_raw first = 1

unfoldable pub metadata_settings_raw : MetadataSettings → ℕ
metadata_settings_raw separate = 0
metadata_settings_raw extended = 1

unfoldable pub firmware_action_raw : FirmwareAction → ℕ
firmware_action_raw replace = 0
firmware_action_raw replace_and_activate = 1
firmware_action_raw set_active = 2
firmware_action_raw replace_and_activate_immediate = 3
firmware_action_raw replace_boot_partition = 6
firmware_action_raw activate_boot_partition = 7
