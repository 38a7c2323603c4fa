-- ===== src/I2c.antt =====
-- The bus driver of the LTC2991 chips, i2c/i2c_ltc2991.c: what a call sees of the kernel (`Kernel`), the
-- four transfer routines (`Transfer`), the life of the character device (`Driver`), and their laws.
mod Kernel
mod Transfer
mod Driver
pub mod Laws
pub mod Lifecycle
unfoldable pub use Kernel.*
unfoldable pub use Transfer.*
unfoldable pub use Driver.*
