-- ===== src/Ltc2991.antt =====
-- The chip library, i2c/LTC2991.c with the register map of i2c/LTC2991.h: reads of a converter (`Adc`),
-- control registers (`Control`), and the conversion of codes to values (`Convert`).
pub mod Registers
pub mod Volts
pub mod Polling
pub mod Chip
pub mod Reads
pub mod Fresh
mod Adc
mod Control
mod Convert
unfoldable pub use Adc.*
unfoldable pub use Control.*
unfoldable pub use Convert.*
