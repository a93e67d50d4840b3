-- ===== src/Io.antt =====
-- libnvme/src/io.rs: the NVM I/O commands.
pub mod IoControl
pub mod Control
pub mod Validate
pub mod Args
pub mod Commands
pub mod Ranges
pub mod RangeCommands
pub mod ReadToVec
