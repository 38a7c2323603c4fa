-- ===== src/Console.antt =====
-- The console of the RapidIO driver: what is written to the character device of rapidio/rionet.c is a command, whose
-- arguments the functions of rapidio/fsl_rio.c read.
pub mod Text
pub mod Squeeze
pub mod Joins
pub mod Bounds
pub mod Commands
pub mod Parsing
pub mod Running
