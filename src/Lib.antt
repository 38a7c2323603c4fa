-- ===== src/Lib.antt =====
-- The board management software of a PowerPC card (VPX3-SSD1), from the I2C bus to the FPGA registers.
--
-- The card has two LTC2991 chips on an I2C bus, one for four temperatures and one for six voltages, and an
-- FPGA whose registers are mapped into memory. Five programs work on them, each a module here:
--
-- * `I2c`, for i2c/i2c_ltc2991.c: the kernel driver whose `lct2991_probe` keeps the client in the global
--   `new_client`, and the transfer routines (`i2c_read_word_data` and three others) that go through it.
--   `World` is the globals with the state of the bus; `M` is a call, and its value `none` is a
--   dereference of a null `new_client`. `Adapter` is the kernel's `i2c_transfer` and `msleep`, a parameter.
-- * `Ltc2991`, for i2c/LTC2991.c and LTC2991.h: reads of a converter with a time limit, control
--   registers, and the conversion of codes to microvolts and 1/10000 degrees. `adc_read`,
--   `register_read` and the others are the functions `LTC2991_adc_read`, `LTC2991_register_read` and so on.
-- * `Sensor`, for i2c/ThreadMain.c: the character device whose `sensor_read` samples ten values into an
--   array and copies it to the process; `creat_thread_main` is `CreatThreadMain`, which sets the chips up
--   when the module is loaded (`thread_main_init`).
-- * `Fpga`, for fpga/fpga.c and fpga.h: the character device that reads and writes one FPGA register by an
--   `ioctl`, whose command word carries the address, and a buffer of 20 bytes by `read` and `write`.
-- * `Bmc`, for app/bmc/ibmc.c: the process that uses both devices. `fpga_reg_read` and `fpga_reg_write`
--   are the register calls (`fpgaRegRead`, `fpgaRegWrite`) on top of `Fpga`'s `ioctl`; `slot_ip` and
--   `ip_auto_set` configure the network by the slot number (`bmcAutoConfigEth`, `ipAutoSet`); `round` is
--   a turn of the endless loop of `main` (`ibmc_main`): disk sizes, samples of `Sensor` and the state of
--   the NFS server go to the FPGA. `App` joins the states of the modules. `Bmc.Ipset`, for app/bmc/ipset.c, is the tool
--   that makes the requests of `ipAutoSet` for an address set by hand.
--
-- `Dma`, for dma/fsldma.c and fsldma.h, is the DMA driver of the RapidIO board. `Chan` is `struct fsldma_chan`:
-- its two queues `ld_pending` and `ld_running` of descriptors (`Desc`), its flag `idle`, and the state of
-- the hardware and the kernel, which `Platform` works on (registers, descriptor pool, cookies,
-- mappings). A transaction comes from `prep_memcpy` (`fsl_dma_prep_memcpy`) as a linked chain, `tx_submit`
-- puts it behind the pending ones, `xfer_ld_queue` starts them, and `dma_do_tasklet` cleans up after
-- the interrupt and starts the next ones. `nread` and `nwrite` are the transfers over RapidIO
-- (`fsl_rio_dma_nread` and `fsl_rio_dma_nwrite`), with the registers of the board's channel in `Board`. `chan_irq`
-- and `ctrl_irq` are the interrupt handlers, and `of_probe` and `chan_probe` set up the controller and its channels. What
-- runs under the lock of the channel is one step, and a callback does not reach the channel. The loop of
-- `prep_memcpy` has fuel for one piece more than whole pieces of the counter's width fit in, which
-- is enough; the loop over scatterlists takes its fuel from the caller. `Watched` keeps a record of
-- the descriptor pool and of the CDAR beside a platform.
--
-- `Rionet`, for rapidio/rionet.c, is the network driver over RapidIO. `Net` joins the ring of
-- packets of `struct rionet_private` with the table of active peers: `start_xmit` (`rionet_start_xmit`) puts
-- packets into the ring, `outb_msg_event` takes acknowledged ones out, and `dbell_event` lets peers join and
-- leave. The ring has `2 ^ w` slots, and the identifiers of the known peers are an argument. Each
-- function is one step, though in the code the two that change the ring take different locks. `Rionet/Receive` is the
-- receive side: `inb_msg_event` (`rionet_inb_msg_event`) takes the waiting messages out (`rx_clean`) and fills the
-- ring again (`rx_fill`). Its loops run at most once for each of the `n` slots, which is enough because the code stops
-- when it is back at the first slot. The mailbox is a parameter, with what the RapidIO core promises as laws, `Mailbox`;
-- `Watched` keeps a record of the packets that are handed on and made beside it.
-- `Rionet/Lifecycle` opens and closes the device (`rionet_open`, `rionet_close`).
--
-- `Rmu`, for rapidio/fsl_rmu.c, is the message unit below it: the outbound mailbox (`TxRing`, with `add_outb_message` for
-- `fsl_add_outb_message`, and the functions that open and close it), the inbound one (`RxRing`, `add_inb_buffer`,
-- `get_inb_message`), the doorbells (`dbell_handler`) and the port writes (`port_write_handler`, `pw_dpc`), with the
-- interrupt handlers. What happened is a `Log` of register accesses, allocations and calls, and `Machine` is what
-- answers: the value of a register, memory, an interrupt line. `Mailbox.Queue` states what the manual says of the
-- inbound queue. The loop that clears an interrupt status and the deferred work take the number of rounds.
--
-- `Rio`, for rapidio/fsl_rio.c, is the controller: accesses to the configuration space of a device (`config_read`,
-- `config_write`), the address windows (`set_riooutb`, `set_rioinb`), and `rio_setup` (`fsl_rio_setup`), which finds the
-- units and ports in the device tree and undoes its steps when one fails. It is the first call of `fsl_rio_setup`; an access
-- outside a table is marked in the state (`outside`), and references to nodes of the device tree, which the code never
-- puts, are counted (`node_refs`).
--
-- `Console`, for the character device in rapidio/rionet.c, reads commands: `Text` is `format_space` on the buffer, with what
-- stands after the text in it, and `Commands` has `wan_write` and the functions of rapidio/fsl_rio.c that read arguments,
-- down to the call that is made (`Call`). The loop of `format_space` has fuel for two rounds for each byte of the buffer and
-- one more, which is enough: a round passes a byte, or takes out a space after which the next round passes a byte.
--
-- `Str2hex`, for fun_test/str2hex.c, reads a hexadecimal text.
--
-- `Prelude` has what all share: lists and tests on native numbers, integers, machine words as bit patterns,
-- and laws of bit operations. `Tests` runs the code on concrete machines.
--
-- Numbers are natural numbers; every cast to 8, 16, 32 or 64 bits is a remainder. `int` values of the
-- conversions are integers, without overflow: their products stay below 2^31 for every code and scale of
-- the program. An `int16_t` or `int8_t` is its bit pattern. The machine is big-endian. A variable with no
-- initialiser, and the result of a function that ends without a `return`, are parameters or `none`. The other
-- loops are recursions on the number of rounds left, so that no fuel is needed; the endless loop of `main` is
-- run for any number of rounds.
--
-- Not modelled: printed messages, the sleeps of the FPGA driver and of `main`, the kernel's tables of
-- character devices, concurrent callers of the drivers, the probe, removal and set-up of the RapidIO network driver,
-- the board's own send and receive functions of the message unit, the machine check and the memory tests of the
-- controller (rapidio/fsl_rio.c), the patched copies of kernel code (fs/nfsd, debug), and the benchmarks.
pub mod Prelude
pub mod I2c
pub mod Ltc2991
pub mod Sensor
pub mod Fpga
pub mod Bmc
pub mod Dma
pub mod Rionet
pub mod Rmu
pub mod Rio
pub mod Console
pub mod Str2hex
pub mod Tests
