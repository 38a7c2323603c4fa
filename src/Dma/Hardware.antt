-- ===== src/Dma/Hardware.antt =====
-- The register and descriptor helpers of dma/fsldma.c. A mask is cleared from a 32-bit word by `& ~mask`.
use powerpc_i2c_temp.Prelude.{
  ℕ, zero, suc, ◌*◌, ◌-◌, ◌^◌, bit_and, bit_or, ◌==◌, if◌then◌else◌, not, ◌||◌, Bool, true, false,
}
use powerpc_i2c_temp.Prelude.Word.{u32, not32, ◌<<<◌}
use powerpc_i2c_temp.Dma.Kernel.{mr, sr, cdar, bcr, Desc, Platform}
use powerpc_i2c_temp.Dma.Bits.{
  mr_cs, mr_ca, mr_eie, mr_eolnie, mr_emp_en, mr_ems_en, mr_dahe, mr_sahe, mr_bwc, mr_eotie,
  mr_prc_rm, sr_ch, sr_cb, satr_snoop_read, datr_snoop_write, eol, snen, ip_mask, ip_85xx, ip_83xx,
  pause_ext, start_ext,
}

abbrev pub clear : ℕ → ℕ → ℕ
clear word mask = bit_and word (not32 mask)

abbrev pub is_85xx : ℕ → Bool
is_85xx feature = bit_and feature ip_mask == ip_85xx

abbrev pub is_83xx : ℕ → Bool
is_83xx feature = bit_and feature ip_mask == ip_83xx

-- Whether a bit of a mask is set.
abbrev pub has : ℕ → ℕ → Bool
has word mask = not (bit_and word mask == 0)

-- The attribute halves of the address words, and the snoop bit of a link.
abbrev pub src_snoop : ℕ → ℕ
src_snoop feature = if is_85xx feature then satr_snoop_read * 2 ^ 32 else 0

abbrev pub dst_snoop : ℕ → ℕ
dst_snoop feature = if is_85xx feature then datr_snoop_write * 2 ^ 32 else 0

abbrev pub link_snoop : ℕ → ℕ
link_snoop feature = if is_83xx feature then snen else 0

abbrev pub not64 : ℕ → ℕ
not64 x = 2 ^ 64 - 1 - x

abbrev pub set_desc_cnt : ℕ → Desc → Desc
set_desc_cnt count d = record d { count = u32 count }

unfoldable pub set_desc_src : ℕ → ℕ → Desc → Desc
set_desc_src feature src d = record d { src_addr = bit_or (src_snoop feature) src }

unfoldable pub get_desc_src : ℕ → Desc → ℕ
get_desc_src feature d = bit_and d.src_addr (not64 (src_snoop feature))

unfoldable pub set_desc_dst : ℕ → ℕ → Desc → Desc
set_desc_dst feature dst d = record d { dst_addr = bit_or (dst_snoop feature) dst }

unfoldable pub get_desc_dst : ℕ → Desc → ℕ
get_desc_dst feature d = bit_and d.dst_addr (not64 (dst_snoop feature))

unfoldable pub set_desc_next : ℕ → ℕ → Desc → Desc
set_desc_next feature next d = record d { next_ln_addr = bit_or (link_snoop feature) next }

unfoldable pub set_ld_eol : ℕ → Desc → Desc
set_ld_eol feature d = record d {
  next_ln_addr = bit_or (bit_or d.next_ln_addr eol) (link_snoop feature);
}

-- The `case` labels 1, 2, 4 and 8.
abbrev pub is_loop_size : ℕ → Bool
is_loop_size size = (size == 1) || (size == 2) || (size == 4) || (size == 8)

module _ {E : Type 0} (k : Platform E) where
  -- `mode = DMA_IN(mr); …; DMA_OUT(mr, mode)`
  abbrev pub update_mode : (ℕ → ℕ) → E → E
  update_mode change e = let (mode, e') = k.dma_in mr e in k.dma_out mr (change mode) e'

  abbrev pub set_cdar : ℕ → E → E
  set_cdar addr e = k.dma_out cdar (bit_or addr snen) e

  unfoldable pub dma_is_idle : E → Bool × E
  dma_is_idle e = let (stat, e') = k.dma_in sr e in (not (has stat sr_cb) || has stat sr_ch, e')

  -- The loop of `dma_halt`, with `left` rounds to go; the result tells whether the channel was seen idle.
  unfoldable pub wait_idle : ℕ → E → Bool × E
  wait_idle zero e = dma_is_idle e
  wait_idle (suc left) e =
      let (idle, e') = dma_is_idle e in
      elim idle [ true ↦ (true, e') | false ↦ wait_idle left (k.udelay 10 e') ]

  -- What the two `set_…_loop_size` functions make of the mode: enable bit and position of the size.
  abbrev pub loop_mode : ℕ → ℕ → ℕ → ℕ → ℕ
  loop_mode enable shift size mode =
      if size == 0
      then clear mode enable
      else (if is_loop_size size
          then bit_or mode (bit_or enable (k.ilog2 size <<< shift))
          else mode)

  unfoldable pub set_src_loop_size : ℕ → E → E
  set_src_loop_size size = update_mode (loop_mode mr_sahe 14 size)

  unfoldable pub set_dst_loop_size : ℕ → E → E
  set_dst_loop_size size = update_mode (loop_mode mr_dahe 16 size)

module _ {E : Type 0} (k : Platform E) (feature : ℕ) where
  unfoldable pub dma_init : E → E
  dma_init e =
      let e' = k.dma_out mr 0 e in
      if is_85xx feature
      then k.dma_out mr (bit_or (bit_or mr_bwc mr_eie) mr_eolnie) e'
      else (if is_83xx feature then k.dma_out mr (bit_or mr_eotie mr_prc_rm) e' else e')

  -- The mode that `dma_start` writes, from the one that it read.
  abbrev pub start_mode : ℕ → ℕ
  start_mode mode =
      let mode' = if has feature pause_ext then bit_or mode mr_emp_en else clear mode mr_emp_en in
      if has feature start_ext then bit_or mode' mr_ems_en else bit_or (clear mode' mr_ems_en) mr_cs

  unfoldable pub dma_start : E → E
  dma_start e =
      let (mode, e') = k.dma_in mr e in
      k.dma_out mr (start_mode mode) (if has feature pause_ext then k.dma_out bcr 0 e' else e')

  unfoldable pub dma_halt : E → Bool × E
  dma_halt e =
      let (mode, e') = k.dma_in mr e in
      let aborting = bit_or mode mr_ca in
      let mode' = if is_85xx feature then clear aborting mr_ca else mode in
      let e'' = if is_85xx feature then k.dma_out mr aborting e' else e' in
      wait_idle k 100 (k.dma_out mr (clear mode' (bit_or mr_cs mr_ems_en)) e'')

-- `fsl_chan_toggle_ext_pause` and `fsl_chan_toggle_ext_start`, on the features of the channel.
unfoldable pub toggle_ext_pause : Bool → ℕ → ℕ
toggle_ext_pause enable feature =
    if enable then bit_or feature pause_ext else clear feature pause_ext

unfoldable pub toggle_ext_start : Bool → ℕ → ℕ
toggle_ext_start enable feature =
    if enable then bit_or feature start_ext else clear feature start_ext
