-- ===== src/Sensor.antt =====
-- The sensor module, i2c/ThreadMain.c: it configures the two chips when it is loaded, and each read of its
-- device samples ten values.
mod Defs
unfoldable pub use Defs.*
pub mod Values
pub mod Sampling
pub mod Setup
pub mod Module
