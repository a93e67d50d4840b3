-- ===== src/Admin/Laws.antt =====
-- The field values of the firmware actions of libnvme/src/admin.rs tell them apart and fit their field.
use libnvme_rs.Base.{◌≡◌, ◌<◌, ◌^◌, arith}
use libnvme_rs.Admin.{FirmwareAction, firmware_action_raw}

-- Different actions have different values, all of which fit the 3-bit commit action.
pub firmware_action_raw_injective :
    (a b : FirmwareAction)
    → (firmware_action_raw a < 2 ^ 3) × (firmware_action_raw a ≡ firmware_action_raw b → a ≡ b)
unfolding firmware_action_raw
firmware_action_raw_injective a b = ground arith
