-- ===== src/Fpga.antt =====
-- The FPGA register driver, fpga/fpga.c: `ioctl` reads and writes one register, `read` and `write` a
-- buffer of 20 bytes.
mod Defs
unfoldable pub use Defs.*
pub mod Access
pub mod Buffer
