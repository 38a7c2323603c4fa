-- ===== src/Bmc.antt =====
-- The board management process, app/bmc/ibmc.c: its register calls (`Registers`), the network address of
-- the slot (`Slot`, `Net`), and the periodic updates (`Updates`).
mod Registers
unfoldable pub use Registers.*
pub mod RegisterLaws
mod Slot
unfoldable pub use Slot.*
pub mod Address
mod Net
unfoldable pub use Net.*
pub mod NetLaws
mod Updates
unfoldable pub use Updates.*
mod Stores
mod Display
pub mod Panel
pub mod Rounds
pub mod AutoConfig
pub mod Ipset
pub mod Main
