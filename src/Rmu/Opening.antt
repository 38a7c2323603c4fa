-- ===== src/Rmu/Opening.antt =====
-- What opening a mailbox of rapidio/fsl_rmu.c takes and gives back.
use mathlib.Core.Path.{subst}
use native.Mathlib.Decide.{dec_lt}
use powerpc_i2c_temp.Prelude.{
  ℕ, zero, suc, ◌+◌, ◌*◌, ◌≤◌, ◌<◌, ltb, ◌==◌, ◌≡◌, ◌≢◌, refl, sym, ap, ◌∙◌, arith, if◌then◌else◌,
  not, ◌&&◌, ◌||◌, Bool, Bool-cases, true, false, inl, inr, Option, Option-cases, none, some, [],
  ◌∷◌,
}
use powerpc_i2c_temp.Prelude.Int.{ℤ, pos, ltb_ℤ}
use powerpc_i2c_temp.Rmu.Machine.{
  Event, osr, osar, odqepar, odqdpar, alloc, free, write, irq_on, Log, Machine,
}
use powerpc_i2c_temp.Rmu.Entries.{put_self, put_ne, if-eq_true, if-eq_false}
use powerpc_i2c_temp.Rmu.Outbound.{
  TxRing, msg_buffer_size, put, enomem, free_present, free_all, alloc_buffers, empty_desc,
  enable_outb, start_outb, open_outb_mbox,
}

-- One piece of memory, by its size and address.
module _ (size a : ℕ) where
  abbrev one : ℕ → Option ℕ → ℕ
  one s none = 0
  one s (some b) = if s == size && b == a then 1 else 0

  abbrev takes : Event → ℕ
  takes e = elim e [ alloc s o ↦ one s o | _ ↦ 0 ]

  abbrev gives : Event → ℕ
  gives e = elim e [ free s o ↦ one s o | _ ↦ 0 ]

  -- How often it was given out and taken back.
  abbrev pub taken : Log → ℕ
  taken [] = 0
  taken (e ∷ l) = takes e + taken l

  abbrev pub given : Log → ℕ
  given [] = 0
  given (e ∷ l) = gives e + given l

  -- How often it stands among `n` buffers from `j` on.
  abbrev present : ℕ → ℕ → (ℕ → Option ℕ) → ℕ
  present zero j buffers = 0
  present (suc n) j buffers = one msg_buffer_size (buffers j) + present n (suc j) buffers

  free_present_lem :
      (k : Machine) (n j : ℕ) (b : ℕ → Option ℕ) (l : Log)
      → (taken (free_present k n j b l) ≡ taken l)
        × (given (free_present k n j b l) ≡ given l + present n j b)
  unfolding free_present
  free_present_lem k zero j b l = (refl, omega arith)
  free_present_lem k (suc n) j b l = elim (Option-cases (b j)) [
    | inl e ↦ let ih = free_present_lem k n (suc j) b l in ground (arith, e, ih)
    | inr (x, e) ↦
        let ih = free_present_lem k n (suc j) b (free msg_buffer_size (some x) ∷ l) in
        ground (arith, e, ih)
  ]

  free_all_lem :
      (k : Machine) (n j : ℕ) (b : ℕ → Option ℕ) (l : Log)
      → (taken (free_all k n j b l) ≡ taken l)
        × (given (free_all k n j b l) ≡ given l + present n j b)
  unfolding free_all
  free_all_lem k zero j b l = (refl, omega arith)
  free_all_lem k (suc n) j b l =
      omega (arith, free_all_lem k n (suc j) b (free msg_buffer_size (b j) ∷ l))

  present-none :
      (n j : ℕ) (b : ℕ → Option ℕ) → ((i : ℕ) → j ≤ i → i < j + n → b i ≡ none) → present n j b ≡ 0
  present-none zero j b h = refl
  present-none (suc n) j b h =
      let here = ap (one msg_buffer_size) (h j (omega arith) (omega arith)) in
      omega (arith, here, present-none n (suc j) b (λ i hi lt. h i (omega arith) (omega arith)))

module _ (k : Machine) where
  -- What the loop does once the allocator has answered.
  abbrev answered : ℕ → ℕ → (ℕ → Option ℕ) → Log → Option ℕ → Bool × (ℕ → Option ℕ) × Log
  answered n i b l o =
      let l' = alloc msg_buffer_size o ∷ l in
      let b' = put b i o in
      let rest = alloc_buffers k n (suc i) b' l' in
      elim o [ none ↦ (false, b', l') | some x ↦ rest ]

  alloc_step :
      (n i : ℕ) (b : ℕ → Option ℕ) (l : Log) (o : Option ℕ)
      → k.memory l msg_buffer_size ≡ o
      → alloc_buffers k (suc n) i b l ≡ answered n i b l o
  unfolding alloc_buffers
  alloc_step n i b l o e = ap (answered n i b l) e

  -- The loop writes no entry before its first one.
  alloc_frame :
      (n i j : ℕ) (b : ℕ → Option ℕ) (l : Log) → j < i → (alloc_buffers k n i b l).1 j ≡ b j
  unfolding alloc_buffers
  alloc_frame zero i j b l h = refl
  alloc_frame (suc n) i j b l h =
      let P : Bool × (ℕ → Option ℕ) × Log → Type 0 = λ r. r.1 j ≡ b j in
      elim (Option-cases (k.memory l msg_buffer_size)) [
        | inl e ↦ subst P (sym (alloc_step n i b l none e)) (put_ne b i j none (omega arith))
        | inr (x, e) ↦ subst P (sym (alloc_step n i b l (some x) e)) (
            alloc_frame n (suc i) j (put b i (some x)) (alloc msg_buffer_size (some x) ∷ l)
              (omega arith)
            ∙ put_ne b i j (some x) (omega arith))
      ]

  abbrev Allocated : ℕ → ℕ → Log → Bool × (ℕ → Option ℕ) × Log → Type 0
  Allocated n i l (ready, b, l') =
      ((size a : ℕ)
        → (taken size a l' ≡ taken size a l + present size a n i b)
          × (given size a l' ≡ given size a l))
      × (ready ≡ true → (j : ℕ) → i ≤ j → j < i + n → b j ≢ none)

  alloc_lem :
      (n i : ℕ) (b : ℕ → Option ℕ) (l : Log)
      → ((m : ℕ) → i ≤ m → m < i + n → b m ≡ none)
      → Allocated n i l (alloc_buffers k n i b l)
  unfolding alloc_buffers
  alloc_lem zero i b l h = ((λ size a. (omega arith, refl)), λ t j le lt. absurd (omega arith))
  alloc_lem (suc n) i b l h = elim (Option-cases (k.memory l msg_buffer_size)) [
    | inl e ↦ subst (Allocated (suc n) i l) (sym (alloc_step n i b l none e)) (
      (λ size a.
          let nothing =
            present-none size a (suc n) i (put b i none) (λ m le lt. ground (arith, h m le lt)) in
          (omega (arith, nothing), omega arith)),
      λ t j le lt e. cc,
    )
    | inr (x, e) ↦
        let l' = alloc msg_buffer_size (some x) ∷ l in
        let b' = put b i (some x) in
        let ih =
          alloc_lem n (suc i) b' l'
            (λ m le lt. put_ne b i m (some x) (omega arith) ∙ h m (omega arith) (omega arith)) in
        let at = alloc_frame n (suc i) i b' l' (omega arith) ∙ put_self b i (some x) in
        subst (Allocated (suc n) i l) (sym (alloc_step n i b l (some x) e)) (
          (λ size a. omega (arith, ih.0 size a, ap (one size a msg_buffer_size) at)),
          λ t j le lt. elim (dec_lt i j) [
            | yes p ↦ ih.1 t j (omega arith) (omega arith)
            | no p ↦ λ gone. let same : i ≡ j = omega arith in cc (at, gone, same)
          ],
        )
  ]

-- Between two logs, every piece of memory that was given out was taken back.
abbrev pub IsBalanced : Log → Log → Type 0
IsBalanced l l' = (size a : ℕ) → taken size a l' + given size a l ≡ taken size a l + given size a l'

impossible {ℓ} : {A : Type ℓ} → true ≡ false → A
impossible h = absurd (cc)

module _ (k : Machine) (line : ℕ) where
  -- A negative answer leaves nothing behind, any other a ring with its buffers, at the first slot.
  abbrev pub Opened : ℕ → Log → ℤ × TxRing × Log → Type 0
  Opened entries l (rc, ring, l') =
      (ltb_ℤ rc (pos 0) ≡ true → IsBalanced l l')
      × (ltb_ℤ rc (pos 0) ≡ false
          → (ring.size ≡ entries)
            × (ring.tx_slot ≡ 0)
            × ((j : ℕ) → j < entries → ring.virt_buffer j ≢ none))

  -- The request for the line, and what follows.
  abbrev requested : TxRing → ℕ → Log → ℤ × TxRing × Log
  requested ring phys l1 =
      let ring' = record ring { virt = λ i. empty_desc k; phys = phys; tx_slot = 0 } in
      let l3 = write osr 0xb3 ∷ write osar 0x4 ∷ write odqepar phys ∷ write odqdpar phys ∷ l1 in
      let rc = k.irq_answer l3 line in
      let l4 = irq_on line rc ∷ l3 in
      if ltb_ℤ rc (pos 0)
      then (
        rc,
        ring',
        free_all k ring.size 0 ring.virt_buffer (free (ring.size * 32) (some phys) ∷ l4),
      )
      else (rc, ring', enable_outb k ring.size l4)

  abbrev begun : TxRing → Log → Option ℕ → ℤ × TxRing × Log
  begun ring l o =
      let l1 = alloc (ring.size * 32) o ∷ l in
      let lost : ℤ × TxRing × Log = (enomem, ring, free_all k ring.size 0 ring.virt_buffer l1) in
      elim o [ none ↦ lost | some phys ↦ requested ring phys l1 ]

  start_step :
      (ring : TxRing) (l : Log) (o : Option ℕ)
      → k.memory l (ring.size * 32) ≡ o
      → start_outb k line ring l ≡ begun ring l o
  unfolding start_outb
  start_step ring l o e = ap (begun ring l) e

  requested_lem :
      (ring : TxRing) (phys : ℕ) (l0 l1 : Log)
      → ((size a : ℕ)
          → (taken size a l1
              ≡ one size a (ring.size * 32) (some phys)
                + taken size a l0
                + present size a ring.size 0 ring.virt_buffer)
            × (given size a l1 ≡ given size a l0))
      → ((j : ℕ) → j < ring.size → ring.virt_buffer j ≢ none)
      → Opened ring.size l0 (requested ring phys l1)
  unfolding enable_outb
  requested_lem ring phys l0 l1 h all =
      let l3 = write osr 0xb3 ∷ write osar 0x4 ∷ write odqepar phys ∷ write odqdpar phys ∷ l1 in
      let rc = k.irq_answer l3 line in
      let l4 = irq_on line rc ∷ l3 in
      elim (Bool-cases (ltb_ℤ rc (pos 0))) [
        | inl t ↦ subst (Opened ring.size l0) (sym (if-eq_true (ltb_ℤ rc (pos 0)) _ _ t)) (
          (λ _ size a. omega (
            arith,
            h size a,
            free_all_lem size a k ring.size 0 ring.virt_buffer
                (free (ring.size * 32) (some phys) ∷ l4),
          )),
          λ f. impossible (sym t ∙ f),
        )
        | inr f ↦
            subst (Opened ring.size l0) (sym (if-eq_false (ltb_ℤ rc (pos 0)) _ _ f))
              ((λ t. impossible (sym t ∙ f)), λ _. (refl, refl, all))
      ]

  start_lem :
      (ring : TxRing) (l0 l : Log)
      → ((size a : ℕ)
          → (taken size a l ≡ taken size a l0 + present size a ring.size 0 ring.virt_buffer)
            × (given size a l ≡ given size a l0))
      → ((j : ℕ) → j < ring.size → ring.virt_buffer j ≢ none)
      → Opened ring.size l0 (start_outb k line ring l)
  start_lem ring l0 l h all = elim (Option-cases (k.memory l (ring.size * 32))) [
    | inl e ↦ subst (Opened ring.size l0) (sym (start_step ring l none e)) (
      (λ t size a. omega (
        arith,
        h size a,
        free_all_lem size a k ring.size 0 ring.virt_buffer (alloc (ring.size * 32) none ∷ l),
      )),
      λ t. impossible t,
    )
    | inr (phys, e) ↦ subst (Opened ring.size l0) (sym (start_step ring l (some phys) e)) (
        requested_lem ring phys l0 (alloc (ring.size * 32) (some phys) ∷ l)
          (λ size a. omega (arith, h size a)) all)
  ]

  open_lem :
      (entries : ℕ) (ring : TxRing) (l : Log)
      → ((j : ℕ) → j < entries → ring.virt_buffer j ≡ none)
      → Opened entries l (open_outb_mbox k line entries ring l)
  unfolding open_outb_mbox
  open_lem entries ring l fresh =
      let (got, ready) =
        alloc_lem k entries 0 ring.virt_buffer l (λ m le lt. fresh m (omega arith)) in
      let bad = ltb entries 2 || ltb 2048 entries || not (k.is_power_of_2 entries) in
      let (have, buffers, l') = alloc_buffers k entries 0 ring.virt_buffer l in
      let ring' = record ring { size = entries; virt_buffer = buffers } in
      elim (Bool-cases bad) [
        | inl t ↦
            subst (Opened entries l) (sym (if-eq_true bad _ _ t))
              ((λ _ size a. refl), λ f. impossible f)
        | inr f ↦ subst (Opened entries l) (sym (if-eq_false bad _ _ f)) (elim (Bool-cases have) [
          | inl y ↦ subst (Opened entries l) (sym (if-eq_true have _ _ y)) (
              start_lem ring' l l' (λ size a. got size a)
                (λ j lt. ready y j (omega arith) (omega arith)))
          | inr n ↦ subst (Opened entries l) (sym (if-eq_false have _ _ n)) (
            (λ _ size a. omega (arith, got size a, free_present_lem size a k entries 0 buffers l')),
            λ f. impossible f,
          )
        ])
      ]

  -- Opening the outbound mailbox, when its ring holds no buffer yet: if the answer is negative, whether the number of entries
  -- is refused, a buffer or the descriptors cannot be had, or the interrupt is refused, every piece of memory that was
  -- taken was given back; otherwise the ring has that many entries, each with a buffer, and begins at slot 0.
  pub open_outb_mbox-Opened :
      (entries : ℕ) (ring : TxRing) (l : Log)
      → ((j : ℕ) → j < entries → ring.virt_buffer j ≡ none)
      → let (rc, ring', l') = open_outb_mbox k line entries ring l in
        (ltb_ℤ rc (pos 0) ≡ true → IsBalanced l l')
        × (ltb_ℤ rc (pos 0) ≡ false
            → (ring'.size ≡ entries)
              × (ring'.tx_slot ≡ 0)
              × ((j : ℕ) → j < entries → ring'.virt_buffer j ≢ none))
  open_outb_mbox-Opened entries ring l fresh = open_lem entries ring l fresh
