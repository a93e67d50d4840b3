-- ===== src/Headers/Ioctl.antt =====
-- libnvme-sys/vendored-headers/nvme/ioctl.h: the inline functions.
pub mod Constants
pub mod Identify
pub mod IdentifyLists
pub mod IdentifyCsi
pub mod IdentifyFormats
pub mod Logs
pub mod LogTelemetry
pub mod LogEndurance
pub mod LogStatus
pub mod LogParts
pub mod LogDiscovery
pub mod LogEvents
pub mod Namespaces
pub mod Directives
pub mod Transfers
