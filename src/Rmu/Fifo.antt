-- ===== src/Rmu/Fifo.antt =====
-- The inbound ring of rapidio/fsl_rmu.c over many calls, and the messages that are lost.
use mathlib.Core.List.{append_assoc, append-nil}
use mathlib.Core.Path.{subst}
use native.Mathlib.Nat.{mod-add-mod}
use native.Mathlib.Decide.{dec_lt}
use powerpc_i2c_temp.Prelude.{
  ℕ, ◌+◌, ◌*◌, ◌%◌, ◌^◌, ◌≤◌, ◌<◌, ◌≡◌, ◌≢◌, refl, sym, ap, ◌∙◌, arith, if◌then◌else◌, Bool,
  Bool-cases, true, false, inl, inr, Option, none, some, List, [], ◌∷◌, ◌++◌, length,
}
use powerpc_i2c_temp.Prelude.Int.{ℤ, pos, negsuc}
use powerpc_i2c_temp.Rmu.Machine.{RmuReg, imr, read, Log, Machine, setbits32}
use powerpc_i2c_temp.Rmu.Outbound.{max_msg_size}
use powerpc_i2c_temp.Rmu.Inbound.{
  RxRing, imr_mi, add_inb_buffer, get_inb_message, inbound_recv_msg_pro,
}
use powerpc_i2c_temp.Rmu.Entries.{get_elem?, if-eq_true, if-eq_false, not_inj, mod_inj}
use powerpc_i2c_temp.Rmu.Mailbox.{
  Queue, Holds, waits, looked, first_entry, deq-setbits, deq-looked, looks, added-Holds, add-room,
  add-full, no_message, taken-Holds, deq-fetched, fetch_lem, drop_lem, message_at, take_lem,
}

-- A mailbox in use, with the buffers that were accepted and those that came back so far.
pub record State : Type 0 where
  pub ring : RxRing
  pub log : Log
  pub accepted : List ℕ
  pub delivered : List ℕ

abbrev pub is_ok : ℤ → Bool
is_ok (pos n) = true
is_ok (negsuc n) = false

abbrev pub to_list : Option ℕ → List ℕ
to_list none = []
to_list (some b) = b ∷ []

module _ (k : Machine) (phys size : ℕ) (hw : Queue k phys size)
    (small : size * max_msg_size ≤ 2 ^ 32) where
  abbrev pub after_add : ℕ → State → State
  after_add buf s =
      let (rc, ring) = add_inb_buffer k buf s.ring in
      record s { ring = ring; accepted = if is_ok rc then s.accepted ++ buf ∷ [] else s.accepted }

  abbrev pub after_get : State → State
  after_get s =
      let (o, ring, l) = get_inb_message k s.ring s.log in
      record s { ring = ring; log = l; delivered = s.delivered ++ to_list o }

  -- A buffer is added, a message is asked for while no message waits without a buffer, or a register is read.
  pub data Step (s : State) : State → Type 0 where
    adds : (buf : ℕ) → Step s (after_add buf s)
    gets :
        (waits k phys size hw small s.log ≡ true → s.ring.virt_buffer (hw.deq s.log) ≢ none)
        → Step s (after_get s)
    reads : (r : RmuReg) → Step s (record s { log = read r ∷ s.log })

  pub data Reach (s : State) : State → Type 0 where
    here : Reach s s
    next : {s1 s2 : State} → Reach s s1 → Step s1 s2 → Reach s s2

  -- The buffers that were accepted are those that came back, then those that the ring holds.
  abbrev pub IsFifo : State → Type 0
  IsFifo s =
      (q : List ℕ) × Holds k phys size hw small q s.ring s.log × (s.accepted ≡ s.delivered ++ q)

  add-IsFifo :
      (buf : ℕ) (s : State) (q : List ℕ)
      → Holds k phys size hw small q s.ring s.log
      → s.accepted ≡ s.delivered ++ q
      → IsFifo (after_add buf s)
  add-IsFifo buf s q h e =
      let P : ℤ × RxRing → Type 0 = λ t. IsFifo (record s {
        ring = t.1;
        accepted = if is_ok t.0 then s.accepted ++ buf ∷ [] else s.accepted;
      }) in
      elim (dec_lt (length q) size) [
        | yes room ↦ subst P (sym (add-room k phys size hw small buf q s.ring s.log room h)) (
          q ++ buf ∷ [],
          added-Holds k phys size hw small buf q s.ring s.log room h,
          ap (λ (xs : List ℕ). xs ++ buf ∷ []) e ∙ append_assoc s.delivered q (buf ∷ []),
        )
        | no full ↦
            subst P
              (sym (add-full k phys size hw small buf q s.ring s.log (omega (arith, h.room)) h))
              (q, h, e)
      ]

  moved-Holds :
      (q : List ℕ) (ring : RxRing) (l l' : Log)
      → hw.deq l' ≡ hw.deq l
      → Holds k phys size hw small q ring l
      → Holds k phys size hw small q ring l'
  moved-Holds q ring l l' e h = record {
    sized = h.sized;
    placed = h.placed;
    room = h.room;
    slot = h.slot ∙ ap (λ (d : ℕ). (d + length q) % size) (sym e);
    entries = λ i hi. ap (λ (d : ℕ). ring.virt_buffer ((d + i) % size)) e ∙ h.entries i hi;
  }

  get-IsFifo :
      (s : State) (q : List ℕ)
      → (waits k phys size hw small s.log ≡ true → s.ring.virt_buffer (hw.deq s.log) ≢ none)
      → Holds k phys size hw small q s.ring s.log
      → s.accepted ≡ s.delivered ++ q
      → IsFifo (after_get s)
  get-IsFifo s q some_buffer h e =
      let P : Option ℕ × RxRing × Log → Type 0 =
        λ t. IsFifo (record s { ring = t.1; log = t.2; delivered = s.delivered ++ to_list t.0 }) in
      elim (Bool-cases (waits k phys size hw small s.log)) [
        | inr none_waits ↦ subst P (sym (no_message k phys size hw small s.ring s.log none_waits)) (
          q,
          moved-Holds q s.ring s.log _ (deq-looked k phys size hw small s.log) h,
          e ∙ ap (λ (xs : List ℕ). xs ++ q) (sym (append-nil s.delivered)),
        )
        | inl one_waits ↦ from_first q h e one_waits
      ]
    where
      from_first :
          (q : List ℕ)
          → Holds k phys size hw small q s.ring s.log
          → s.accepted ≡ s.delivered ++ q
          → waits k phys size hw small s.log ≡ true
          → IsFifo (after_get s)
      from_first [] h e t = absurd (
          some_buffer t (
            ap s.ring.virt_buffer (sym (first_entry k phys size hw small s.log))
            ∙ h.entries 0 (omega (arith, hw.deq_in s.log))))
      from_first (b ∷ q) h e t =
          subst
            (λ (t : Option ℕ × RxRing × Log).
              IsFifo (record s { ring = t.1; log = t.2; delivered = s.delivered ++ to_list t.0 }))
            (sym (fetch_lem k phys size hw small b q s.ring s.log t h))
            (
              q,
              taken-Holds k phys size hw small b q s.ring s.log _
                  (deq-fetched k phys size hw small b s.ring s.log) h,
              e ∙ sym (append_assoc s.delivered (b ∷ []) q),
            )

  Step-IsFifo : {s s' : State} → Step s s' → IsFifo s → IsFifo s'
  Step-IsFifo {s} (adds buf) (q, h, e) = add-IsFifo buf s q h e
  Step-IsFifo {s} (gets some_buffer) (q, h, e) = get-IsFifo s q some_buffer h e
  Step-IsFifo {s} (reads r) (q, h, e) = (q, moved-Holds q s.ring s.log _ (hw.deq-read r s.log) h, e)

  -- The inbound mailbox is a queue: over any sequence of calls that add a buffer, which the ring accepts or refuses, that
  -- ask for a message, and that read registers, where no message waits without a buffer, the buffers that were accepted
  -- are those that came back with a message, in the same order and each once, and then those that the ring holds, which
  -- are never more than its size.
  pub Reach-IsFifo : {s s' : State} → Reach s s' → IsFifo s → IsFifo s'
  Reach-IsFifo here f = f
  Reach-IsFifo (next r st) f = Step-IsFifo st (Reach-IsFifo r f)

  first_of : (q : List ℕ) → get_elem? q 0 ≡ none → q ≡ []
  first_of [] h = refl
  first_of (b ∷ q) h = cc

  deq-dropped :
      (l : Log)
      → hw.deq (setbits32 k imr imr_mi (looked k phys size hw small l)) ≡ (hw.deq l + 1) % size
  deq-dropped l =
      deq-setbits k phys size hw small (looked k phys size hw small l)
      ∙ ap (λ (d : ℕ). (d + 1) % size) (deq-looked k phys size hw small l)

  -- The first entry from the next dequeue pointer on.
  second_entry :
      (l l' : Log)
      → hw.deq l' ≡ (hw.deq l + 1) % size
      → (hw.deq l' + 0) % size ≡ (hw.deq l + 1) % size
  second_entry l l' e =
      ap (λ (d : ℕ). (d + 0) % size) e
      ∙ mod-add-mod (hw.deq l + 1) size 0
      ∙ ap (λ (t : ℕ). t % size) (omega arith)

  not_empty_any_more :
      (q : List ℕ) (ring : RxRing) (l l' : Log)
      → 1 < size
      → hw.deq l' ≡ (hw.deq l + 1) % size
      → Holds k phys size hw small [] ring l
      → ¬ Holds k phys size hw small q ring l'
  not_empty_any_more q ring l l' big e h r =
      let none_there =
        sym (r.entries 0 (omega arith))
        ∙ ap ring.virt_buffer (second_entry l l' e)
        ∙ h.entries 1 big in
      let empty : length q ≡ 0 = ap length (first_of q none_there) in
      let same : (hw.deq l + 1) % size ≡ (hw.deq l + 0) % size =
        sym (second_entry l l' e)
        ∙ ap (λ (n : ℕ). (hw.deq l' + n) % size) (sym empty)
        ∙ sym r.slot
        ∙ h.slot in
      absurd (omega (arith, mod_inj size (hw.deq l) 1 0 (hw.deq_in l) big (omega arith) same))

  -- The driver and the queue disagree once a message came while the ring was empty: the message is dropped, and from
  -- then on no queue of buffers describes the ring.
  pub drop_breaks :
      (ring : RxRing) (l : Log)
      → 1 < size
      → waits k phys size hw small l ≡ true
      → Holds k phys size hw small [] ring l
      → ((get_inb_message k ring l).0 ≡ none)
        × ((q : List ℕ)
            → ¬ Holds k phys size hw small q
                (get_inb_message k ring l).1
                (get_inb_message k ring l).2)
  drop_breaks ring l big t h =
      let e = drop_lem k phys size hw small ring l t h in
      (
        ap (λ (r : Option ℕ × RxRing × Log). r.0) e,
        λ q r.
            not_empty_any_more q ring l _ big (deq-dropped l) h
              (subst (λ (r : Option ℕ × RxRing × Log). Holds k phys size hw small q r.1 r.2) e r),
      )

  recv_pro_lem :
      (ring : RxRing) (l : Log)
      → waits k phys size hw small l ≡ true
      → inbound_recv_msg_pro k ring l ≡ setbits32 k imr imr_mi (looked k phys size hw small l)
  unfolding inbound_recv_msg_pro
  recv_pro_lem ring l t = if-eq_false _ _ _ (looks k phys size hw small l ∙ not_inj _ false t)

  next_message :
      (c : ℕ) (ring : RxRing) (l : Log)
      → ring.phys ≡ phys
      → ring.virt_buffer (hw.deq l) ≡ some c
      → (get_inb_message k ring l).0 ≡ (if waits k phys size hw small l then some c else none)
  next_message c ring l p e = elim (Bool-cases (waits k phys size hw small l)) [
    | inl t ↦
        ap (λ (r : Option ℕ × RxRing × Log). r.0)
          (message_at k phys size hw small ring l t p
            ∙ take_lem k phys size hw small ring (hw.deq l) _ (some c) e)
        ∙ sym (if-eq_true _ _ _ t)
    | inr f ↦
        ap (λ (r : Option ℕ × RxRing × Log). r.0) (no_message k phys size hw small ring l f)
        ∙ sym (if-eq_false _ _ _ f)
  ]

  -- The board's handler passes the first message over before the client is told: when a message waits and the ring holds
  -- two buffers or more, the client gets the second buffer with the next message, or nothing if none waits then.
  pub recv_pro_skips :
      (b c : ℕ) (q : List ℕ) (ring : RxRing) (l : Log)
      → waits k phys size hw small l ≡ true
      → Holds k phys size hw small (b ∷ c ∷ q) ring l
      → let l' = inbound_recv_msg_pro k ring l in
        (get_inb_message k ring l').0 ≡ (if waits k phys size hw small l' then some c else none)
  recv_pro_skips b c q ring l t h =
      let l' = inbound_recv_msg_pro k ring l in
      let e : hw.deq l' ≡ (hw.deq l + 1) % size =
        ap hw.deq (recv_pro_lem ring l t) ∙ deq-dropped l in
      next_message c ring l' h.placed (ap ring.virt_buffer e ∙ h.entries 1 (omega (arith, h.room)))
