-- ===== src/Rmu/Outbound.antt =====
-- The outbound mailbox of rapidio/fsl_rmu.c.
use powerpc_i2c_temp.Prelude.{
  ℕ, zero, suc, ◌+◌, ◌-◌, ◌*◌, ◌^◌, ltb, ◌==◌, bit_and, bit_or, if◌then◌else◌, not, ◌||◌, Bool,
  true, false, Option, none, some, ◌∷◌,
}
use powerpc_i2c_temp.Prelude.Int.{ℤ, pos, negsuc, ltb_ℤ}
use powerpc_i2c_temp.Prelude.Word.{u32, ◌<<<◌, ◌>>>◌}
use powerpc_i2c_temp.Rmu.Machine.{
  omr, osr, odqdpar, osar, odqepar, free, irq_off, outb_event, Log, Machine, in_be32, out_be32,
  dma_alloc, request_irq,
}

abbrev pub min_tx_ring_size : ℕ
min_tx_ring_size = 2

abbrev pub max_tx_ring_size : ℕ
max_tx_ring_size = 2048

abbrev pub msg_desc_size : ℕ
msg_desc_size = 32

abbrev pub msg_buffer_size : ℕ
msg_buffer_size = 4096

-- `RIO_MAX_MSG_SIZE`, of the kernel.
abbrev pub max_msg_size : ℕ
max_msg_size = 4096

abbrev pub omr_mui : ℕ
omr_mui = 0x2

abbrev pub osr_te : ℕ
osr_te = 0x80

abbrev pub osr_qoi : ℕ
osr_qoi = 0x20

abbrev pub osr_eomi : ℕ
osr_eomi = 0x2

-- `-EINVAL` and `-ENOMEM`.
abbrev pub einval : ℤ
einval = negsuc 21

abbrev pub enomem : ℤ
enomem = negsuc 11

-- `struct rio_tx_desc`, without the padding.
pub record TxDesc : Type 0 where
  pub saddr : ℕ
  pub dport : ℕ
  pub dattr : ℕ
  pub dwcnt : ℕ

-- `struct rio_msg_tx_ring`. `virt` and `phys` are the descriptors and where they lie; a buffer has its address, the same in
-- `virt_buffer` and `phys_buffer`, and what is in it.
pub record TxRing : Type 0 where
  pub virt : ℕ → TxDesc
  pub phys : ℕ
  pub virt_buffer : ℕ → Option ℕ
  pub contents : ℕ → ℕ → ℕ
  pub tx_slot : ℕ
  pub size : ℕ

-- A write into an array.
abbrev pub put {ℓ} : {A : Type ℓ} → (ℕ → A) → ℕ → A → ℕ → A
put f i v j = if j == i then v else f j

abbrev pub address : Option ℕ → ℕ
address none = 0
address (some a) = a

-- `memcpy` to the start of a buffer, and `memset` of what follows to zero.
abbrev pub memcpy : (ℕ → ℕ) → (ℕ → ℕ) → ℕ → ℕ → ℕ
memcpy old from len j = if ltb j len then from j else old j

abbrev pub memset_from : (ℕ → ℕ) → ℕ → ℕ → ℕ → ℕ
memset_from old start len j =
    if ltb j start then old j else (if ltb j (start + len) then 0 else old j)

-- A test of bits: `value & mask`.
abbrev pub has : ℕ → ℕ → Bool
has value mask = not (bit_and value mask == 0)

module _ (k : Machine) where
  unfoldable pub double_words : ℕ → ℕ
  double_words len = if k.is_power_of_2 len then len else u32 (1 <<< k.get_bitmask_order len)

  -- The descriptor of a message, with the number of the port.
  unfoldable pub describe : (index destid mbox len : ℕ) → Option ℕ → TxDesc
  unfolding double_words
  describe index destid mbox len buffer = record {
    saddr = bit_or 0x4 (address buffer);
    dport = bit_or (u32 (destid <<< 16)) (bit_and mbox 0x3);
    dattr = bit_or 0x28000000 (u32 (index <<< 20));
    dwcnt = double_words len;
  }

  -- What the buffer holds after a message was copied into it.
  unfoldable pub filled_buffer : (ℕ → ℕ) → (ℕ → ℕ) → ℕ → ℕ → ℕ
  filled_buffer old message len =
      let copied = memcpy old message len in
      if ltb len (max_msg_size - 4) then memset_from copied len (max_msg_size - len) else copied

  unfoldable pub next_slot : ℕ → ℕ → ℕ
  next_slot slot size = if slot + 1 == size then 0 else slot + 1

  unfoldable pub add_outb_message :
      (index destid mbox : ℕ) → (ℕ → ℕ) → ℕ → TxRing → Log → ℤ × TxRing × Log
  unfolding filled_buffer next_slot
  add_outb_message index destid mbox message len ring l =
      if ltb len 8 || ltb max_msg_size len
      then (einval, ring, l)
      else (let slot = ring.tx_slot in
          let (value, l') = in_be32 k omr l in
          (
            pos 0,
            record ring {
              contents = put ring.contents slot (filled_buffer (ring.contents slot) message len);
              virt = put ring.virt slot (describe index destid mbox len (ring.virt_buffer slot));
              tx_slot = next_slot slot ring.size;
            },
            out_be32 k omr (bit_or value omr_mui) l',
          ))

  -- The buffers that there are among the first `n`, given back from index `j` on.
  unfoldable pub free_present : (n j : ℕ) → (ℕ → Option ℕ) → Log → Log
  free_present zero j buffers l = l
  free_present (suc n) j buffers l =
      free_present n (suc j) buffers
        (elim (buffers j) [ none ↦ l | some a ↦ free msg_buffer_size (some a) ∷ l ])

  unfoldable pub free_all : (n j : ℕ) → (ℕ → Option ℕ) → Log → Log
  free_all zero j buffers l = l
  free_all (suc n) j buffers l = free_all n (suc j) buffers (free msg_buffer_size (buffers j) ∷ l)

  -- The buffers from `i` on, `n` of them; `none` stops.
  unfoldable pub alloc_buffers : (n i : ℕ) → (ℕ → Option ℕ) → Log → Bool × (ℕ → Option ℕ) × Log
  alloc_buffers zero i buffers l = (true, buffers, l)
  alloc_buffers (suc n) i buffers l =
      let (a, l') = dma_alloc k msg_buffer_size l in
      let buffers' = put buffers i a in
      let rest = alloc_buffers n (suc i) buffers' l' in
      elim a [ none ↦ (false, buffers', l') | some b ↦ rest ]

  abbrev pub empty_desc : TxDesc
  empty_desc = record { saddr = 0; dport = 0; dattr = 0; dwcnt = 0 }

  -- The registers once the interrupt is granted.
  unfoldable pub enable_outb : ℕ → Log → Log
  enable_outb entries l =
      let l1 = out_be32 k omr 0x00100220 l in
      let (v, l2) = in_be32 k omr l1 in
      let l3 = out_be32 k omr (bit_or v (u32 ((k.get_bitmask_order entries - 2) <<< 12))) l2 in
      let (v', l4) = in_be32 k omr l3 in out_be32 k omr (bit_or v' 0x1) l4

  -- What follows the allocation of the buffers.
  unfoldable pub start_outb : ℕ → TxRing → Log → ℤ × TxRing × Log
  unfolding enable_outb
  start_outb line ring l =
      let bytes = ring.size * msg_desc_size in
      let (a, l1) = dma_alloc k bytes l in
      elim a [
        | none ↦ (enomem, ring, free_all ring.size 0 ring.virt_buffer l1)
        | some phys ↦
            let ring' = record ring { virt = λ i. empty_desc; phys = phys; tx_slot = 0 } in
            let l2 = out_be32 k odqepar phys (out_be32 k odqdpar phys l1) in
            let l3 = out_be32 k osr 0xb3 (out_be32 k osar 0x4 l2) in
            let (rc, l4) = request_irq k line l3 in
            if ltb_ℤ rc (pos 0)
            then (rc, ring', free_all ring.size 0 ring.virt_buffer (free bytes (some phys) ∷ l4))
            else (rc, ring', enable_outb ring.size l4)
      ]

  unfoldable pub open_outb_mbox : (line entries : ℕ) → TxRing → Log → ℤ × TxRing × Log
  unfolding start_outb
  open_outb_mbox line entries ring l =
      if ltb entries min_tx_ring_size
        || ltb max_tx_ring_size entries
        || not (k.is_power_of_2 entries)
      then (einval, ring, l)
      else (let (ready, buffers, l') = alloc_buffers entries 0 ring.virt_buffer l in
          let ring' = record ring { size = entries; virt_buffer = buffers } in
          let start = start_outb line ring' l' in
          if ready then start else (enomem, ring', free_present entries 0 buffers l'))

  unfoldable pub close_outb_mbox : ℕ → TxRing → Log → Log
  close_outb_mbox line ring l =
      irq_off line ∷ free (ring.size * msg_desc_size) (some ring.phys) ∷ out_be32 k omr 0 l

  -- The interrupt handler; `registered` tells whether there is an event function.
  unfoldable pub tx_handler : Bool → TxRing → Log → Log
  tx_handler registered ring l =
      let (value, l1) = in_be32 k osr l in
      if has value osr_te
      then out_be32 k osr osr_te l1
      else (if has value osr_qoi
          then out_be32 k osr osr_qoi l1
          else (if has value osr_eomi
              then (let (dqp, l2) = in_be32 k odqdpar l1 in
                  let slot = u32 (dqp + 2 ^ 32 - ring.phys) >>> 5 in
                  out_be32 k osr osr_eomi (if registered then outb_event slot ∷ l2 else l2))
              else l1))
