-- ===== src/Headers/Features.antt =====
-- libnvme-sys/vendored-headers/nvme/util.h: the decoders of feature values.
pub mod Layout
pub mod Basic
pub mod Optional
pub mod Laws
