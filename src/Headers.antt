-- ===== src/Headers.antt =====
-- The C header layer.
pub mod WireTypes
pub mod ApiTypes
pub mod DeviceTypes
pub mod Fields
pub mod Features
pub mod Status
pub mod Fabrics
pub mod FeatureCalls
pub mod Ioctl
