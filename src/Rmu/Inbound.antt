-- ===== src/Rmu/Inbound.antt =====
-- The inbound mailbox of rapidio/fsl_rmu.c.
use powerpc_i2c_temp.Prelude.{
  ℕ, zero, suc, ◌+◌, ◌-◌, ◌*◌, ◌/◌, ◌^◌, ltb, ◌==◌, if◌then◌else◌, not, ◌||◌, Bool, Option, none,
  some, ◌∷◌,
}
use powerpc_i2c_temp.Prelude.Int.{ℤ, pos, ltb_ℤ}
use powerpc_i2c_temp.Prelude.Word.{u32, ◌<<<◌}
use powerpc_i2c_temp.Rmu.Machine.{
  imr, isr, ifqdpar, ifqepar, free, irq_off, copy, inb_event, Log, Machine, in_be32, out_be32,
  setbits32, dma_alloc, request_irq,
}
use powerpc_i2c_temp.Rmu.Outbound.{
  TxRing, einval, enomem, max_msg_size, msg_buffer_size, put, has, next_slot,
}

abbrev pub min_rx_ring_size : ℕ
min_rx_ring_size = 2

abbrev pub max_rx_ring_size : ℕ
max_rx_ring_size = 2048

abbrev pub imr_mi : ℕ
imr_mi = 0x2

abbrev pub isr_te : ℕ
isr_te = 0x80

abbrev pub isr_diqi : ℕ
isr_diqi = 0x1

-- `struct rio_msg_rx_ring`: `phys` is where the entries lie, and `virt_buffer` has the client's buffers.
pub record RxRing : Type 0 where
  pub phys : ℕ
  pub virt_buffer : ℕ → Option ℕ
  pub rx_slot : ℕ
  pub size : ℕ

module _ (k : Machine) where
  unfoldable pub add_inb_buffer : ℕ → RxRing → ℤ × RxRing
  unfolding next_slot
  add_inb_buffer buf ring = elim (ring.virt_buffer ring.rx_slot) [
    | some b ↦ (einval, ring)
    | none ↦ (
      pos 0,
      record ring {
        virt_buffer = put ring.virt_buffer ring.rx_slot (some buf);
        rx_slot = next_slot k ring.rx_slot ring.size;
      },
    )
  ]

  -- `phys_buf - phys`, and the entry that it stands for.
  abbrev pub entry_offset : ℕ → RxRing → ℕ
  entry_offset phys_buf ring = u32 (phys_buf + 2 ^ 32 - ring.phys)

  -- The message at an entry_offset, if there is a buffer for it.
  unfoldable pub take_message : RxRing → ℕ → Log → Option ℕ × RxRing × Log
  take_message ring at l =
      let buf_idx = at / max_msg_size in
      elim (ring.virt_buffer buf_idx) [
        | none ↦ (none, ring, setbits32 k imr imr_mi l)
        | some buf ↦ (
          some buf,
          record ring { virt_buffer = put ring.virt_buffer buf_idx none },
          setbits32 k imr imr_mi (copy buf (ring.phys + at) max_msg_size ∷ l),
        )
      ]

  unfoldable pub get_inb_message : RxRing → Log → Option ℕ × RxRing × Log
  get_inb_message ring l =
      let (phys_buf, l1) = in_be32 k ifqdpar l in
      let (last, l2) = in_be32 k ifqepar l1 in
      if phys_buf == last
      then (none, ring, l2)
      else take_message ring (entry_offset phys_buf ring) l2

  -- A message is dropped: the board's own step before the event function. The read of the first byte of the
  -- buffer has no effect here.
  unfoldable pub inbound_recv_msg_pro : RxRing → Log → Log
  inbound_recv_msg_pro ring l =
      let (phys_buf, l1) = in_be32 k ifqdpar l in
      let (last, l2) = in_be32 k ifqepar l1 in
      if phys_buf == last then l2 else setbits32 k imr imr_mi l2

  unfoldable pub enable_inb : ℕ → Log → Log
  enable_inb entries l = setbits32 k imr 0x1 (
      setbits32 k imr (u32 ((k.get_bitmask_order entries - 2) <<< 12))
        (out_be32 k imr 0x001b0060 l))

  -- The outbound ring is there for what is freed when the interrupt is refused.
  unfoldable pub open_inb_mbox : (line entries : ℕ) → TxRing → RxRing → Log → ℤ × RxRing × Log
  unfolding enable_inb
  open_inb_mbox line entries tx ring l =
      if ltb entries min_rx_ring_size
        || ltb max_rx_ring_size entries
        || not (k.is_power_of_2 entries)
      then (einval, ring, l)
      else (let ring' = record ring {
        size = entries;
        rx_slot = 0;
        virt_buffer = λ i. if ltb i entries then none else ring.virt_buffer i;
      } in
          let (a, l1) = dma_alloc k (entries * max_msg_size) l in
          elim a [
            | none ↦ (enomem, ring', l1)
            | some phys ↦
                let opened = record ring' { phys = phys } in
                let l2 =
                  out_be32 k isr 0x91 (out_be32 k ifqepar phys (out_be32 k ifqdpar phys l1)) in
                let (rc, l3) = request_irq k line l2 in
                if ltb_ℤ rc (pos 0)
                then (rc, opened, free msg_buffer_size (tx.virt_buffer entries) ∷ l3)
                else (rc, opened, enable_inb entries l3)
          ])

  unfoldable pub close_inb_mbox : ℕ → RxRing → Log → Log
  close_inb_mbox line ring l =
      irq_off line ∷ free (ring.size * max_msg_size) (some ring.phys) ∷ out_be32 k imr 0 l

  -- The loop that clears the queueing interrupt until it reads as clear, `left` rounds of it.
  unfoldable pub clear_diqi : ℕ → Log → Log
  clear_diqi zero l = l
  clear_diqi (suc left) l =
      let (value, l') = in_be32 k isr l in
      let rest = clear_diqi left (out_be32 k isr isr_diqi l') in
      if has value isr_diqi then rest else l'

  unfoldable pub rx_handler : (rounds : ℕ) → Bool → RxRing → Log → Log
  unfolding clear_diqi inbound_recv_msg_pro
  rx_handler rounds registered ring l =
      let (value, l1) = in_be32 k isr l in
      if has value isr_te
      then out_be32 k isr isr_te l1
      else (let l2 = inbound_recv_msg_pro ring l1 in
          if has value isr_diqi
          then (let l3 = out_be32 k isr isr_diqi (if registered then inb_event ∷ l2 else l2) in
              clear_diqi rounds (in_be32 k isr l3).1)
          else l2)
