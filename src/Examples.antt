-- ===== src/Examples.antt =====
-- libnvme/examples: the programs that change what is on a disk, format_smoke and io_smoke, with what they share
-- (Program, Text).
pub mod Program
pub mod Text
pub mod Smoke
pub mod Rules
pub mod Latch
pub mod Memory
