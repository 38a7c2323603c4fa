-- ===== src/Rio.antt =====
-- The RapidIO controller, rapidio/fsl_rio.c: accesses to the configuration space and the address windows (`Windows`), the
-- set-up of the controller (`Setup`), and what holds of them (`Addressing`, `Tables`, `Unwinding`).
pub mod Windows
pub mod Addressing
pub mod Setup
pub mod Tables
pub mod Unwinding
