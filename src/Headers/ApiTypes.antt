-- ===== src/Headers/ApiTypes.antt =====
-- The argument structures through which the crate calls libnvme.
mod Io
mod Zns
mod Reservation
mod Directive
mod Admin
pub use Io.*
pub use Zns.*
pub use Reservation.*
pub use Directive.*
pub use Admin.*
