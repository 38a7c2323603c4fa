-- ===== src/Rmu/Leaks.antt =====
-- The inbound mailbox of rapidio/fsl_rmu.c when its interrupt is refused.
use mathlib.Core.Path.{subst}
use powerpc_i2c_temp.Prelude.{
  ℕ, suc, ◌*◌, ◌≤◌, ltb, ◌≡◌, sym, ap, ◌∙◌, arith, if◌then◌else◌, not, ◌||◌, true, Option, none,
  some, ◌∷◌,
}
use powerpc_i2c_temp.Prelude.Int.{ℤ, pos, ltb_ℤ}
use powerpc_i2c_temp.Rmu.Machine.{isr, ifqdpar, ifqepar, write, alloc, free, irq_on, Log, Machine}
use powerpc_i2c_temp.Rmu.Entries.{if-eq_true, if-eq_false}
use powerpc_i2c_temp.Rmu.Outbound.{TxRing, enomem}
use powerpc_i2c_temp.Rmu.Inbound.{RxRing, enable_inb, open_inb_mbox}
use powerpc_i2c_temp.Rmu.Opening.{taken, given}

module _ (k : Machine) (line entries : ℕ) (tx : TxRing) (ring : RxRing) (l : Log) where
  abbrev emptied : RxRing
  emptied = record ring {
    size = entries;
    rx_slot = 0;
    virt_buffer = λ i. if ltb i entries then none else ring.virt_buffer i;
  }

  abbrev opened : ℕ → RxRing
  opened phys = record emptied { phys = phys }

  abbrev asked : Option ℕ → ℕ → Log
  asked o phys =
      write isr 0x91 ∷ write ifqepar phys ∷ write ifqdpar phys ∷ alloc (entries * 4096) o ∷ l

  -- What follows the allocation.
  abbrev after : Option ℕ → ℤ × RxRing × Log
  after o =
      let lost : ℤ × RxRing × Log = (enomem, emptied, alloc (entries * 4096) o ∷ l) in
      let go = λ (phys : ℕ).
        let rc = k.irq_answer (asked o phys) line in
        let l3 = irq_on line rc ∷ asked o phys in
        let lost : ℤ × RxRing × Log = (rc, opened phys, free 4096 (tx.virt_buffer entries) ∷ l3) in
        let good : ℤ × RxRing × Log = (rc, opened phys, enable_inb k entries l3) in
        if ltb_ℤ rc (pos 0) then lost else good in
      elim o [ none ↦ lost | some phys ↦ go phys ]

  open_lem :
      (o : Option ℕ)
      → 2 ≤ entries
      → entries ≤ 2048
      → k.is_power_of_2 entries ≡ true
      → k.memory l (entries * 4096) ≡ o
      → open_inb_mbox k line entries tx ring l ≡ after o
  unfolding open_inb_mbox
  open_lem o h2 h2048 p m =
      if-eq_false (ltb entries 2 || ltb 2048 entries || not (k.is_power_of_2 entries)) _ _
        (ground arith)
      ∙ ap after m

  -- When the interrupt of the inbound mailbox is refused, the call fails, and the memory of the ring was taken and is not
  -- given back; what is given back is a buffer of the outbound ring, the one after the last of as many.
  pub open_inb_mbox_leaks :
      (phys b : ℕ)
      → 2 ≤ entries
      → entries ≤ 2048
      → k.is_power_of_2 entries ≡ true
      → k.memory l (entries * 4096) ≡ some phys
      → ((l' : Log) → ltb_ℤ (k.irq_answer l' line) (pos 0) ≡ true)
      → tx.virt_buffer entries ≡ some b
      → let (rc, ring', l') = open_inb_mbox k line entries tx ring l in
        (ltb_ℤ rc (pos 0) ≡ true)
        × (taken (entries * 4096) phys l' ≡ suc (taken (entries * 4096) phys l))
        × (given (entries * 4096) phys l' ≡ given (entries * 4096) phys l)
        × (given 4096 b l' ≡ suc (given 4096 b l))
  open_inb_mbox_leaks phys b h2 h2048 p m refused other =
      let rc = k.irq_answer (asked (some phys) phys) line in
      let log = irq_on line rc ∷ asked (some phys) phys in
      let e =
        open_lem (some phys) h2 h2048 p m
        ∙ if-eq_true (ltb_ℤ rc (pos 0)) _ _ (refused (asked (some phys) phys))
        ∙ ap (λ (o : Option ℕ). (rc, opened phys, free 4096 o ∷ log)) other in
      subst
        (λ (r : ℤ × RxRing × Log).
          (ltb_ℤ r.0 (pos 0) ≡ true)
          × (taken (entries * 4096) phys r.2 ≡ suc (taken (entries * 4096) phys l))
          × (given (entries * 4096) phys r.2 ≡ given (entries * 4096) phys l)
          × (given 4096 b r.2 ≡ suc (given 4096 b l)))
        (sym e) (refused (asked (some phys) phys), ground arith, ground arith, ground arith)
