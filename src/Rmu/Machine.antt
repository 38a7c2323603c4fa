-- ===== src/Rmu/Machine.antt =====
-- What rapidio/fsl_rmu.c and fsl_rio.c work on: registers, coherent memory, interrupt lines, and the functions that it calls. What
-- happened so far is a log, the last event first, and the machine is a function of it: what a register reads as,
-- whether memory is given out, and how a request for an interrupt line is answered.
use powerpc_i2c_temp.Prelude.{ℕ, Bool, Option, List, ◌∷◌, bit_or}
use powerpc_i2c_temp.Prelude.Int.{ℤ}

-- The registers of `struct rio_msg_regs`, `struct rio_dbell_regs`, `struct rio_pw_regs`, those of
-- the two windows, and by port those that rapidio/fsl_rio.c names; the registers of a port's address windows go by their
-- distance from the first one.
pub data RmuReg : Type 0 where
  omr osr odqdpar osar odpr odatr odcr odqepar imr isr ifqdpar ifqepar : RmuReg
  odmr odsr oddpr oddatr odretcr dmr dsr dqdpar dqepar : RmuReg
  pwmr pwsr epwqbar pwqbar : RmuReg
  epwisr ltledcsr ltleecsr im0sr im1sr om0sr om1sr : RmuReg
  port_edcsr port_iecsr port_escsr : (port : ℕ) → RmuReg
  gccsr pef_car : RmuReg
  ccsr escsr aacr : (port : ℕ) → RmuReg
  atmu : (port offset : ℕ) → RmuReg

-- An allocation, of `dma_alloc_coherent` or `kmalloc`, has its size and answer; `copy` is a `memcpy` to a
-- buffer of the client, `outb_event` and `inb_event` the event functions of the two mailboxes, `dinb` that of a doorbell.
pub data Event : Type 0 where
  read : RmuReg → Event
  write : RmuReg → ℕ → Event
  alloc : (size : ℕ) → (answer : Option ℕ) → Event
  free : (size : ℕ) → (address : Option ℕ) → Event
  irq_on : (line : ℕ) → (answer : ℤ) → Event
  irq_off : (line : ℕ) → Event
  copy : (target source len : ℕ) → Event
  outb_event : (slot : ℕ) → Event
  inb_event : Event
  dinb : (port handler sid tid info : ℕ) → Event
  schedule_work : Event
  fifo_alloc : (size : ℕ) → (answer : Bool) → Event
  inb_pwrite : (message : ℕ) → Event

abbrev pub Log : Type 0
Log = List Event

-- The kernel and the hardware. The last two are the kernel's functions on numbers.
pub record Machine : Type 0 where
  pub reg_value : Log → RmuReg → ℕ
  pub memory : Log → ℕ → Option ℕ
  pub irq_answer : Log → ℕ → ℤ
  pub fifo_answer : Log → Bool
  pub is_power_of_2 : ℕ → Bool
  pub get_bitmask_order : ℕ → ℕ

module _ (k : Machine) where
  abbrev pub in_be32 : RmuReg → Log → ℕ × Log
  in_be32 r l = (k.reg_value l r, read r ∷ l)

  abbrev pub out_be32 : RmuReg → ℕ → Log → Log
  out_be32 r v l = write r v ∷ l

  -- `setbits32`.
  abbrev pub setbits32 : RmuReg → ℕ → Log → Log
  setbits32 r v l = write r (bit_or (k.reg_value l r) v) ∷ read r ∷ l

  abbrev pub dma_alloc : ℕ → Log → Option ℕ × Log
  dma_alloc size l = (k.memory l size, alloc size (k.memory l size) ∷ l)

  abbrev pub request_irq : ℕ → Log → ℤ × Log
  request_irq line l = (k.irq_answer l line, irq_on line (k.irq_answer l line) ∷ l)
