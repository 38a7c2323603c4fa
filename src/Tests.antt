-- ===== src/Tests.antt =====
-- Runs of the code on concrete machines (`Bench`), and for each result one application to a concrete input:
-- the bus driver (`Bus`), the chip library and the sensor module (`Chip`), the FPGA and the card (`Card`),
-- the tools (`Tools`), the DMA driver (`Channel`, `Controller`), and the network driver over RapidIO (`Network`, `Receive`),
-- its message unit (`Messages`), its controller (`Rapid`) and its console (`Commands`).
mod Bench
mod Bus
mod Chip
mod Card
mod Tools
mod Channel
mod Controller
mod Network
mod Receive
mod Commands
mod Messages
mod Rapid
