-- ===== src/Dma.antt =====
-- The DMA driver of the RapidIO board, dma/fsldma.c: what it works on (`Kernel`, `Bits`), the helpers for
-- registers and descriptors (`Hardware`, `Words`), the two queues of a channel (`Queue`, `Watched`, `Fifo`,
-- `Links`, `Walk`), the preparation of transfers (`Prepare`, `Pieces`, `Copy`, `Transfer`), interrupts (`Irq`,
-- `IrqLaws`, `CtrlIrq`), the transfers over RapidIO (`Rio`, `RioLaws`), and the probe (`Probe`, `ProbeLaws`).
pub mod Kernel
pub mod Bits
pub mod Hardware
pub mod Queue
pub mod Prepare
pub mod Irq
pub mod Rio
pub mod Words
pub mod Watched
pub mod Fifo
pub mod Links
pub mod Walk
pub mod Pieces
pub mod Copy
pub mod Transfer
pub mod RioLaws
pub mod IrqLaws
pub mod CtrlIrq
pub mod Probe
pub mod ProbeLaws
