-- ===== src/Rmu.antt =====
-- The message unit of the RapidIO controller, rapidio/fsl_rmu.c: what it works on (`Machine`), the mailboxes
-- (`Outbound`, `Inbound`), the doorbells and the port writes (`Doorbell`, `PortWrite`), and what holds of them.
pub mod Machine
pub mod Outbound
pub mod Inbound
pub mod Entries
pub mod Mailbox
pub mod Fifo
pub mod Sent
pub mod Opening
pub mod Leaks
pub mod Doorbell
pub mod Dispatch
pub mod PortWrite
pub mod Burst
