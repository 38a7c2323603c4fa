-- ===== src/Dma/Irq.antt =====
-- Interrupts of dma/fsldma.c: the handler of a channel, the handler of the controller, and how the interrupt
-- lines are requested and given back. Log messages are left out, the register reads that decide
-- about them are not.
use powerpc_i2c_temp.Prelude.{
  ℕ, zero, suc, ◌+◌, bit_or, ◌==◌, ltb, if◌then◌else◌, Bool, true, false, Option, none, some, List,
  [], ◌∷◌,
}
use powerpc_i2c_temp.Prelude.Int.{ℤ, pos, negsuc}
use powerpc_i2c_temp.Prelude.Word.{◌>>>◌}
use powerpc_i2c_temp.Dma.Kernel.{sr, bcr, Platform}
use powerpc_i2c_temp.Dma.Bits.{sr_cb, sr_ch, sr_pe}
use powerpc_i2c_temp.Dma.Hardware.{clear, has, dma_is_idle}

-- `FSL_DMA_BIG_ENDIAN`.
abbrev pub big_endian : ℕ
big_endian = 0x00000001

abbrev pub enodev : ℤ
enodev = negsuc 18

-- Whether the interrupt was the channel's.
unfoldable pub chan_irq : {E : Type 0} → Platform E → E → Bool × E
chan_irq k e =
    let (stat, e1) = k.dma_in sr e in
    let e2 = k.dma_out sr stat e1 in
    let e3 = if has stat sr_pe then (k.dma_in bcr e2).1 else e2 in
    if clear stat (bit_or sr_cb sr_ch) == 0
    then (false, e2)
    else (true, k.tasklet_schedule (dma_is_idle k e3).1)

-- The loop of `ctrl_irq` over the table of channels, a channel by its platform; it counts what it handles.
unfoldable pub ctrl_irq_loop : {E : Type 0} → ℕ → ℕ → ℕ → List (Option (Platform E)) → E → ℕ × E
ctrl_irq_loop handled gsr mask [] e = (handled, e)
ctrl_irq_loop handled gsr mask (none ∷ chans) e = ctrl_irq_loop handled gsr mask chans e
ctrl_irq_loop handled gsr mask (some k ∷ chans) e =
    ctrl_irq_loop (if has gsr mask then handled + 1 else handled) (clear gsr mask) (mask >>> 8)
      chans (if has gsr mask then (chan_irq k e).1 else e)

-- The two reads of the general status register are the kernel's.
unfoldable pub ctrl_irq :
    {E : Type 0} → (in_be32 in_le32 : E → ℕ × E) → ℕ → List (Option (Platform E)) → E → Bool × E
ctrl_irq in_be32 in_le32 feature chans e =
    let (gsr, e') = if has feature big_endian then in_be32 e else in_le32 e in
    let (handled, e'') = ctrl_irq_loop 0 gsr 0xff000000 chans e' in (ltb 0 handled, e'')

-- The kernel's registration of handlers; a request answers 0 or an error.
pub record Irqs (E : Type 0) : Type 0 where
  pub request_irq : ℕ → E → ℤ × E
  pub free_irq : ℕ → E → E

-- The entry of a channel: none, one without a line (`NO_IRQ`), or one with its line.
pub data Entry : Type 0 where
  absent no_irq : Entry
  line : ℕ → Entry

module _ {E : Type 0} (s : Irqs E) where
  -- What both loops do to a table entry.
  unfoldable pub free_line : Entry → E → E
  free_line absent e = e
  free_line no_irq e = e
  free_line (line irq) e = s.free_irq irq e

  unfoldable pub free_lines : List Entry → E → E
  free_lines [] e = e
  free_lines (c ∷ cs) e = free_lines cs (free_line c e)

  unfoldable pub free_irqs : Option ℕ → List Entry → E → E
  free_irqs (some irq) chans e = s.free_irq irq e
  free_irqs none chans e = free_lines chans e

  -- On the answer to one request: `rest` goes on, or the lines of `failed` are freed.
  abbrev pub after_request : (E → ℤ × E) → List Entry → ℤ → E → ℤ × E
  after_request rest failed (pos zero) e = rest e
  after_request rest failed (pos (suc n)) e = (pos (suc n), free_lines failed e)
  after_request rest failed (negsuc n) e = (negsuc n, free_lines failed e)

  -- `visited` holds the entries before, the last one first; the unwinding starts at the one that failed.
  unfoldable pub request_loop : List Entry → List Entry → E → ℤ × E
  request_loop visited [] e = (pos 0, e)
  request_loop visited (absent ∷ cs) e = request_loop (absent ∷ visited) cs e
  request_loop visited (no_irq ∷ cs) e = (enodev, free_lines (no_irq ∷ visited) e)
  request_loop visited (line irq ∷ cs) e =
      let (ret, e') = s.request_irq irq e in
      after_request (request_loop (line irq ∷ visited) cs) (line irq ∷ visited) ret e'

  unfoldable pub request_irqs : Option ℕ → List Entry → E → ℤ × E
  request_irqs (some irq) chans e = s.request_irq irq e
  request_irqs none chans e = request_loop [] chans e
