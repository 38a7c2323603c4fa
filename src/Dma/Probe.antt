-- ===== src/Dma/Probe.antt =====
-- How dma/fsldma.c sets its devices up and takes them away: the probe of a channel and of a controller. A channel
-- is known by the number of its node. The kernel's answers are arguments.
use powerpc_i2c_temp.Prelude.{
  ℕ, suc, ◌+◌, ◌-◌, ◌^◌, leb, ◌==◌, bit_and, bit_or, if◌then◌else◌, not, ◌||◌, Bool, true, false,
  Option, none, some, List, [], ◌∷◌, ◌++◌, set,
}
use powerpc_i2c_temp.Prelude.Int.{ℤ, pos, negsuc}
use powerpc_i2c_temp.Prelude.Word.{u64, ◌>>>◌}
use powerpc_i2c_temp.Dma.Kernel.{Platform, Chan}
use powerpc_i2c_temp.Dma.Bits.{ip_85xx, ip_83xx}
use powerpc_i2c_temp.Dma.Hardware.{is_85xx, is_83xx, dma_init, set_cdar}
use powerpc_i2c_temp.Dma.Queue.{enomem, einval}
use powerpc_i2c_temp.Dma.Irq.{
  big_endian, Irqs, Entry, absent, no_irq, line, free_irqs, request_irqs,
}

-- `FSL_DMA_MAX_CHANS_PER_DEVICE`.
abbrev pub max_chans : ℕ
max_chans = 4

-- The part of `struct fsldma_device` and of the globals that the probe sets: `channels` is the list of the DMA
-- engine, `griodma_chan` the channel of the RapidIO transfers.
pub record Device : Type 0 where
  pub feature : ℕ
  pub chan : List Entry
  pub channels : List ℕ
  pub griodma_chan : Option ℕ

-- What the kernel answers for one channel: memory, mapped registers, the result and the start of its
-- resource, and its interrupt line.
pub record ProbeAnswers : Type 0 where
  pub memory : Bool
  pub regs : Bool
  pub err : ℤ
  pub res_start : ℕ
  pub irq : Option ℕ

-- A node below the controller, and which channels it is compatible with.
pub record Node : Type 0 where
  pub number : ℕ
  pub eloplus : Bool
  pub elo : Bool
  pub answers : ProbeAnswers

abbrev pub entry_of : Option ℕ → Entry
entry_of none = no_irq
entry_of (some irq) = line irq

abbrev pub chan_id : ℕ → ℕ
chan_id res_start = bit_and (u64 (res_start + (2 ^ 64 - 0x100))) 0xfff >>> 7

-- A channel as the probe leaves it.
unfoldable pub new_chan : {E : Type 0} → ℕ → E → Chan E
new_chan feature e = record {
  feature = feature;
  idle = true;
  desc_pool = false;
  ld_pending = [];
  ld_running = [];
  set_request_count = is_85xx feature || is_83xx feature;
  toggle_ext_start = is_85xx feature || is_83xx feature;
  env = e;
}

abbrev pub is_zero : ℤ → Bool
is_zero (pos n) = n == 0
is_zero (negsuc n) = false

abbrev pub new_device : Option ℕ → Device
new_device griodma_chan = record {
  feature = 0;
  chan = absent ∷ absent ∷ absent ∷ absent ∷ [];
  channels = [];
  griodma_chan = griodma_chan;
}

module _ {E : Type 0} (k : ℕ → Platform E) where
  -- `fsl_dma_chan_probe`; the last component is the state of the hardware.
  unfoldable pub chan_probe : ℕ → ℕ → ProbeAnswers → Device → E → ℤ × Device × E
  chan_probe n feature ans d e =
      let d1 = record d { griodma_chan = some n } in
      let d2 = record d1 { feature = if d.feature == 0 then feature else d.feature } in
      let id = chan_id ans.res_start in
      let d3 = record d2 {
        chan = set d.chan id (entry_of ans.irq);
        channels = d.channels ++ n ∷ [];
      } in
      if not ans.memory
      then (enomem, d, e)
      else (if not ans.regs
          then (enomem, d1, e)
          else (if not (is_zero ans.err)
              then (ans.err, d1, e)
              else (if leb max_chans id
                  then (einval, d2, e)
                  else (pos 0, d3, set_cdar (k n) 0 (dma_init (k n) feature e)))))

  -- One node: each kind of channel that it is compatible with is probed, and the result is dropped.
  unfoldable pub probe_node : Node → Device → E → Device × E
  probe_node node d e =
      let (r1, d1, e1) = chan_probe node.number (bit_or ip_85xx big_endian) node.answers d e in
      let d' = if node.eloplus then d1 else d in
      let e' = if node.eloplus then e1 else e in
      let (r2, d2, e2) = chan_probe node.number ip_83xx node.answers d' e' in
      if node.elo then (d2, e2) else (d', e')

  unfoldable pub probe_nodes : List Node → Device → E → Device × E
  probe_nodes [] d e = (d, e)
  probe_nodes (node ∷ nodes) d e = let (d', e') = probe_node node d e in probe_nodes nodes d' e'

  -- `fsldma_of_probe`: memory and registers of the controller, its line, and its nodes. The result has the device if
  -- it was registered, which `rio_fdev` then is.
  unfoldable pub of_probe :
      Irqs E → Bool → Bool → Option ℕ → List Node → Option ℕ → E → ℤ × Option Device × E
  of_probe s memory regs irq nodes griodma_chan e =
      let (d, e1) = probe_nodes nodes (new_device griodma_chan) e in
      let (err, e2) = request_irqs s irq d.chan e1 in
      if not memory
      then (enomem, none, e)
      else (if not regs
          then (enomem, none, e)
          else (if is_zero err then (pos 0, some d, e2) else (err, none, e2)))

-- `fsldma_of_remove`: the lines are freed, and every channel of the table is removed by the kernel's
-- `remove`, which stands for `fsl_dma_chan_remove`.
unfoldable pub remove_chans : {E : Type 0} → (ℕ → E → E) → ℕ → List Entry → E → E
remove_chans remove i [] e = e
remove_chans remove i (absent ∷ cs) e = remove_chans remove (suc i) cs e
remove_chans remove i (no_irq ∷ cs) e = remove_chans remove (suc i) cs (remove i e)
remove_chans remove i (line irq ∷ cs) e = remove_chans remove (suc i) cs (remove i e)

unfoldable pub of_remove : {E : Type 0} → Irqs E → (ℕ → E → E) → Option ℕ → Device → E → ℤ × E
of_remove s remove irq d e = (pos 0, remove_chans remove 0 d.chan (free_irqs s irq d.chan e))
