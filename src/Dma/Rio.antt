-- ===== src/Dma/Rio.antt =====
-- The transfers over RapidIO of dma/fsldma.c: `fsl_rio_dma_nread` and `fsl_rio_dma_nwrite`. They work on two
-- channels: the queues of the first channel of `rio_fdev`, and the registers of `griodma_chan`, which is
-- the channel probed last.
use powerpc_i2c_temp.Prelude.{
  ℕ, zero, suc, ◌*◌, leb, ◌==◌, bit_and, bit_or, if◌then◌else◌, not, ◌&&◌, ◌||◌, Bool, Option, none,
  some, List, [], ◌∷◌,
}
use powerpc_i2c_temp.Prelude.Int.{ℤ, pos, negsuc, ltb_ℤ}
use powerpc_i2c_temp.Prelude.Word.{◌<<<◌}
use powerpc_i2c_temp.Dma.Kernel.{Reg, mr, sr, sar, dar, bcr, Desc, Platform, Chan}
use powerpc_i2c_temp.Dma.Bits.{mr_bwc, mr_eosie, mr_cs, sr_cb}
use powerpc_i2c_temp.Dma.Hardware.{has}
use powerpc_i2c_temp.Dma.Queue.{
  ctrl_ack, src_unmap_single, dest_unmap_single, tx_submit, alloc_chan_resources,
  free_chan_resources, issue_pending, tx_status,
}
use powerpc_i2c_temp.Dma.Prepare.{prep_memcpy}
use powerpc_i2c_temp.Dma.Irq.{enodev}

abbrev pub prep_interrupt_flag : ℕ
prep_interrupt_flag = 0x01

-- `DMA8641_MR_CTM_DIRECT` and the mode word of both transfers.
abbrev pub mr_ctm_direct : ℕ
mr_ctm_direct = 0x4

abbrev pub direct_mode : ℕ
direct_mode = bit_or (bit_or mr_bwc mr_ctm_direct) mr_eosie

-- Bypass, high priority, RapidIO, and `NREAD` or `NWRITE`: the same four fields in both words.
abbrev pub rapidio_attrib : ℕ
rapidio_attrib =
    bit_or
      (bit_or (bit_or 0x20000000 (bit_or 0x08000000 0x20000000)) (bit_or 0x00c00000 0x20000000))
      (bit_or 0x00040000 0x20000000)

-- `LOCAL_DST_ATTRIB_SNOOP`, and `DMA8641_SATR_SREADTTYPE_RD_SNOOP`.
abbrev pub local_attrib_snoop : ℕ
local_attrib_snoop = 0x00050000

abbrev pub max_bytes : ℕ
max_bytes = 64 * 1024 * 1024

abbrev pub target : ℕ → ℕ
target destid = bit_and (destid <<< 2) (0xff <<< 2)

-- An address word: attributes above, address below.
unfoldable pub address_word : ℕ → ℕ → ℕ
address_word attributes addr = bit_or (attributes <<< 32) addr

-- The arguments of a transfer.
pub record Request : Type 0 where
  pub destid : ℕ
  pub loal_addr : ℕ
  pub rio_addr : ℕ
  pub bytecnt : ℕ

-- The registers of `griodma_chan`, and the kernel. During `wait`, interrupts and the tasklet change the
-- channel; it answers what is left of the time.
pub record Board (E : Type 0) : Type 0 where
  pub reg_in : Reg → E → ℕ × E
  pub reg_out : Reg → ℕ → E → E
  pub virt_to_phys : ℕ → ℕ
  pub map_single : ℕ → ℕ → E → ℕ × E
  pub wait : Chan E → ℕ × Chan E

module _ {E : Type 0} (b : Board E) where
  -- The first steps of both: mode 0, and at most `left` looks at the status for the channel not to be busy.
  unfoldable pub poll : ℕ → E → E
  poll zero e = e
  poll (suc left) e = let (stat, e') = b.reg_in sr e in if has stat sr_cb then poll left e' else e'

  unfoldable pub rewrite_reg : Reg → ℕ → E → E
  rewrite_reg r value e = b.reg_out r value (b.reg_in r e).1

  -- Mode, source, destination and count for a transfer in direct mode.
  unfoldable pub program : ℕ → ℕ → ℕ → E → E
  program source dest bytecnt e =
      b.reg_out bcr bytecnt
        (rewrite_reg dar dest (rewrite_reg sar source (rewrite_reg mr direct_mode e)))

  unfoldable pub nread_program : Request → E → E
  nread_program r =
      program (address_word (bit_or rapidio_attrib (target r.destid)) r.rio_addr)
        (address_word local_attrib_snoop (b.virt_to_phys r.loal_addr)) r.bytecnt

  unfoldable pub nwrite_program : Request → E → E
  nwrite_program r =
      program (address_word local_attrib_snoop (b.virt_to_phys r.loal_addr))
        (address_word (bit_or rapidio_attrib (target r.destid)) r.rio_addr) r.bytecnt

  -- Whether the channel shows the start bit after `mode` was written.
  unfoldable pub start : ℕ → E → Bool × E
  start mode e =
      let (mode', e') = b.reg_in mr (b.reg_out mr (bit_or mode mr_cs) e) in (has mode' mr_cs, e')

unfoldable pub accepts : Request → Bool
accepts r = not ((r.bytecnt == 0) || leb max_bytes r.bytecnt) && not (r.loal_addr == 0)

abbrev pub nread_flags : ℕ
nread_flags = bit_or (bit_or ctrl_ack dest_unmap_single) prep_interrupt_flag

abbrev pub nwrite_flags : ℕ
nwrite_flags = bit_or (bit_or src_unmap_single ctrl_ack) prep_interrupt_flag

-- `err`, with the resources given back.
abbrev pub released : {E : Type 0} → Platform E → ℤ → Chan E → ℤ × Chan E
released k err c = (err, free_chan_resources k c)

module _ {E : Type 0} (k : Platform E) (b : Board E) where
  -- The wait for the completion, and the look at the cookie.
  unfoldable pub complete : ℤ → Chan E → ℤ × Chan E
  complete cookie c =
      let (tmo, c') = b.wait c in
      if (tmo == 0) || not (tx_status k cookie c')
      then released k enodev c'
      else released k (pos 0) c'

  -- On what the preparation returned: submission with the callback on the first descriptor, as both transfers do
  -- it; `next` goes on with the cookie. `none` stands for fuel that ran out and for an empty chain.
  abbrev pub on_tx :
      (ℤ → Chan E → ℤ × Chan E) → Chan E → Option (Option (List Desc) × E) → Option (ℤ × Chan E)
  on_tx next c none = none
  on_tx next c (some (none, e)) = some (released k enodev (record c { env = e }))
  on_tx next c (some (some [], e)) = none
  on_tx next c (some (some (d ∷ ds), e)) =
      let (cookie, c') = tx_submit k (record d { callback = some 0 }) ds (record c { env = e }) in
      some (if ltb_ℤ cookie (pos 0) then released k enodev c' else next cookie (issue_pending k c'))

  unfoldable pub with_tx : ℕ → ℕ → ℕ → ℕ → (ℤ → Chan E → ℤ × Chan E) → Chan E → Option (ℤ × Chan E)
  with_tx dst src len flags next c =
      on_tx next c (prep_memcpy k (some c.feature) dst src len flags c.env)

  -- The order of `nread`: the queue is started first, then the registers.
  unfoldable pub nread_start : ℤ → Chan E → ℤ × Chan E
  nread_start cookie c =
      let (mode, e) = b.reg_in mr c.env in
      let (started, e') = start b mode e in
      let c' = record c { env = e' } in if started then complete cookie c' else (negsuc 0, c')

  unfoldable pub nread_transfer : Request → Chan E → Option (ℤ × Chan E)
  nread_transfer r c =
      let (dest, e) = b.map_single r.loal_addr r.bytecnt (nread_program b r c.env) in
      with_tx dest r.rio_addr r.bytecnt nread_flags nread_start (record c { env = e })

  -- The order of `nwrite`: the registers are started first, then the queue.
  unfoldable pub nwrite_transfer : Request → Chan E → Option (ℤ × Chan E)
  nwrite_transfer r c =
      let (source, e) = b.map_single r.loal_addr r.bytecnt (nwrite_program b r c.env) in
      let (started, e') = start b direct_mode e in
      if started
      then with_tx r.rio_addr source r.bytecnt nwrite_flags complete (record c { env = e' })
      else some (negsuc 0, record c { env = e' })

  -- What comes before the transfer, and the way out without resources.
  unfoldable pub guarded :
      (Request → Chan E → Option (ℤ × Chan E)) → Request → Chan E → Option (ℤ × Chan E)
  guarded transfer r c =
      let (n, c') =
        alloc_chan_resources k (record c { env = poll b 0x100 (b.reg_out mr 0 c.env) }) in
      if not (accepts r)
      then some (negsuc 0, c)
      else (if ltb_ℤ n (pos 1) then some (enodev, c') else transfer r c')

  unfoldable pub nread : Request → Chan E → Option (ℤ × Chan E)
  nread = guarded nread_transfer

  unfoldable pub nwrite : Request → Chan E → Option (ℤ × Chan E)
  nwrite = guarded nwrite_transfer
