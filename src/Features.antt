-- ===== src/Features.antt =====
-- libnvme/src/features: what every method has in common. The methods of `Features` take its controller.
pub mod Get
pub mod Set
pub mod Laws
