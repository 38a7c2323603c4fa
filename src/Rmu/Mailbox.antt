-- ===== src/Rmu/Mailbox.antt =====
-- The inbound ring of rapidio/fsl_rmu.c as a queue of the client's buffers.
use native.Mathlib.Nat.{mod-add-mod}
use native.Mathlib.Decide.{dec_lt}
use powerpc_i2c_temp.Prelude.{
  ℕ, suc, ◌+◌, ◌*◌, ◌/◌, ◌%◌, ◌^◌, ◌≤◌, ◌<◌, ◌==◌, bit_or, ◌≡◌, refl, sym, ap, ◌∙◌, arith, not,
  Bool, true, false, Option, none, some, List, [], ◌∷◌, ◌++◌, length,
}
use powerpc_i2c_temp.Prelude.Int.{pos}
use powerpc_i2c_temp.Rmu.Machine.{
  RmuReg, imr, ifqdpar, ifqepar, read, write, copy, Log, Machine, setbits32,
}
use powerpc_i2c_temp.Rmu.Entries.{
  get_elem?, get_elem?-past, get_elem?-snoc, length-snoc, if-eq_true, if-eq_false, not_inj,
  mod_cases, mod_inj, next_slot_lem,
}
use powerpc_i2c_temp.Rmu.Outbound.{einval, max_msg_size, put, next_slot}
use powerpc_i2c_temp.Rmu.Inbound.{
  RxRing, imr_mi, entry_offset, take_message, add_inb_buffer, get_inb_message,
}

-- What the manual says of the inbound queue: the two pointers are addresses of entries, an event of the driver leaves the
-- dequeue pointer alone, and setting `MI` moves it to the next entry. Messages may arrive at any time.
pub record Queue (k : Machine) (phys size : ℕ) : Type 0 where
  pub deq : Log → ℕ
  pub enq : Log → ℕ
  pub deq_in : (l : Log) → deq l < size
  pub enq_in : (l : Log) → enq l < size
  pub deq_address : (l : Log) → k.reg_value l ifqdpar ≡ phys + deq l * max_msg_size
  pub enq_address : (l : Log) → k.reg_value l ifqepar ≡ phys + enq l * max_msg_size
  pub deq-read : (r : RmuReg) (l : Log) → deq (read r ∷ l) ≡ deq l
  pub deq-copy : (target source len : ℕ) (l : Log) → deq (copy target source len ∷ l) ≡ deq l
  pub deq-mi : (v : ℕ) (l : Log) → deq (write imr (bit_or v imr_mi) ∷ l) ≡ (deq l + 1) % size

module _ (k : Machine) (phys size : ℕ) (hw : Queue k phys size)
    (small : size * max_msg_size ≤ 2 ^ 32) where
  -- The ring holds the buffers `q`, the first one at the dequeue pointer.
  pub record Holds (q : List ℕ) (ring : RxRing) (l : Log) : Type 0 where
    pub sized : ring.size ≡ size
    pub placed : ring.phys ≡ phys
    pub room : length q ≤ size
    pub slot : ring.rx_slot ≡ (hw.deq l + length q) % size
    pub entries : (i : ℕ) → i < size → ring.virt_buffer ((hw.deq l + i) % size) ≡ get_elem? q i

  -- Whether a message waits when the two pointers are read.
  abbrev pub waits : Log → Bool
  waits l = not (hw.deq l == hw.enq (read ifqdpar ∷ l))

  -- The log after a message was fetched into a buffer.
  abbrev pub fetched : ℕ → RxRing → Log → Log
  fetched buf ring l =
      setbits32 k imr imr_mi
        (copy buf (phys + hw.deq l * max_msg_size) max_msg_size ∷ read ifqepar ∷ read ifqdpar ∷ l)

  pub deq-looked : (l : Log) → hw.deq (read ifqepar ∷ read ifqdpar ∷ l) ≡ hw.deq l
  deq-looked l = hw.deq-read ifqepar (read ifqdpar ∷ l) ∙ hw.deq-read ifqdpar l

  pub deq-setbits : (l : Log) → hw.deq (setbits32 k imr imr_mi l) ≡ (hw.deq l + 1) % size
  deq-setbits l =
      hw.deq-mi (k.reg_value l imr) (read imr ∷ l)
      ∙ ap (λ (d : ℕ). (d + 1) % size) (hw.deq-read imr l)

  abbrev pub added : ℕ → RxRing → RxRing
  added buf ring = record ring {
    virt_buffer = put ring.virt_buffer ring.rx_slot (some buf);
    rx_slot = next_slot k ring.rx_slot ring.size;
  }

  pub added-Holds :
      (buf : ℕ) (q : List ℕ) (ring : RxRing) (l : Log)
      → length q < size
      → Holds q ring l
      → Holds (q ++ buf ∷ []) (added buf ring) l
  added-Holds buf q ring l h r = record {
    sized = r.sized;
    placed = r.placed;
    room = omega (arith, length-snoc q buf);
    slot =
        ap (next_slot k ring.rx_slot) r.sized
        ∙ next_slot_lem k ring.rx_slot size (
            omega (arith, r.slot, mod_cases size (hw.deq l) (length q) (hw.deq_in l) (omega arith)))
        ∙ ap (λ (t : ℕ). (t + 1) % size) r.slot
        ∙ mod-add-mod (hw.deq l + length q) size 1
        ∙ ap (λ (t : ℕ). t % size) (omega (arith, length-snoc q buf));
    entries = λ i hi. ground (
      arith,
      get_elem?-snoc q buf i,
      r.entries i hi,
      r.slot,
      mod_inj size (hw.deq l) i (length q) (hw.deq_in l) hi h,
    );
  }

  add_lem :
      (buf : ℕ) (ring : RxRing)
      → ring.virt_buffer ring.rx_slot ≡ none
      → add_inb_buffer k buf ring ≡ (pos 0, added buf ring)
  unfolding add_inb_buffer
  add_lem buf ring e = rw (e, add_inb_buffer)

  -- A buffer is added at the end.
  pub add-room :
      (buf : ℕ) (q : List ℕ) (ring : RxRing) (l : Log)
      → length q < size
      → Holds q ring l
      → add_inb_buffer k buf ring ≡ (pos 0, added buf ring)
  add-room buf q ring l h r = add_lem buf ring (
      ap ring.virt_buffer r.slot
      ∙ r.entries (length q) h
      ∙ get_elem?-past q (length q) (omega arith))

  get_elem?-some : (q : List ℕ) → 0 < length q → (b : ℕ) × (get_elem? q 0 ≡ some b)
  get_elem?-some [] h = elim h [ ]
  get_elem?-some (b ∷ q) h = (b, refl)

  add_refused :
      (buf b : ℕ) (ring : RxRing)
      → ring.virt_buffer ring.rx_slot ≡ some b
      → add_inb_buffer k buf ring ≡ (einval, ring)
  unfolding add_inb_buffer
  add_refused buf b ring e = rw (e, add_inb_buffer)

  pub add-full :
      (buf : ℕ) (q : List ℕ) (ring : RxRing) (l : Log)
      → length q ≡ size
      → Holds q ring l
      → add_inb_buffer k buf ring ≡ (einval, ring)
  add-full buf q ring l h r =
      let d = hw.deq_in l in
      let (b, e) = get_elem?-some q (omega arith) in
      let wrap : ring.rx_slot ≡ (hw.deq l + 0) % size =
        r.slot
        ∙ ap (λ (n : ℕ). (hw.deq l + n) % size) h
        ∙ omega (
          arith,
          mod_cases size (hw.deq l) size d (omega arith),
          mod_cases size (hw.deq l) 0 d (omega arith),
        ) in
      add_refused buf b ring (ap ring.virt_buffer wrap ∙ r.entries 0 (omega arith) ∙ e)

  -- The entry that is read is the one at the dequeue pointer.
  entry_offset_lem :
      (ring : RxRing) (l : Log)
      → ring.phys ≡ phys
      → entry_offset k (k.reg_value l ifqdpar) ring ≡ hw.deq l * max_msg_size
  entry_offset_lem ring l e = omega (arith, hw.deq_address l, hw.deq_in l)

  pub looks :
      (l : Log)
      → (k.reg_value l ifqdpar == k.reg_value (read ifqdpar ∷ l) ifqepar)
        ≡ (hw.deq l == hw.enq (read ifqdpar ∷ l))
  looks l = ground (arith, hw.deq_address l, hw.enq_address (read ifqdpar ∷ l))

  -- The log after the two pointers were read.
  abbrev pub looked : Log → Log
  looked l = read ifqepar ∷ read ifqdpar ∷ l

  -- Without a message nothing changes.
  pub no_message :
      (ring : RxRing) (l : Log)
      → waits l ≡ false
      → get_inb_message k ring l ≡ (none, ring, looked l)
  unfolding get_inb_message
  no_message ring l h = if-eq_true _ _ _ (looks l ∙ not_inj _ true h)

  pub message_at :
      (ring : RxRing) (l : Log)
      → waits l ≡ true
      → ring.phys ≡ phys
      → get_inb_message k ring l ≡ take_message k ring (hw.deq l * max_msg_size) (looked l)
  unfolding get_inb_message
  message_at ring l h p =
      if-eq_false _ _ _ (looks l ∙ not_inj _ false h)
      ∙ ap (λ (at : ℕ). take_message k ring at (looked l)) (entry_offset_lem ring l p)

  pub take_lem :
      (ring : RxRing) (d : ℕ) (l : Log) (o : Option ℕ)
      → ring.virt_buffer d ≡ o
      → take_message k ring (d * max_msg_size) l ≡ elim o [
        | none ↦ (none, ring, setbits32 k imr imr_mi l)
        | some buf ↦ (
          some buf,
          record ring { virt_buffer = put ring.virt_buffer d none },
          setbits32 k imr imr_mi (copy buf (ring.phys + d * max_msg_size) max_msg_size ∷ l),
        )
      ]
  unfolding take_message
  take_lem ring d l o e =
      let q : d * max_msg_size / max_msg_size ≡ d = omega arith in ground (arith, q)

  -- One entry further.
  further : (d i : ℕ) → ((d + 1) % size + i) % size ≡ (d + suc i) % size
  further d i = mod-add-mod (d + 1) size i ∙ ap (λ (t : ℕ). t % size) (omega arith)

  pub first_entry : (l : Log) → (hw.deq l + 0) % size ≡ hw.deq l
  first_entry l =
      omega (arith, mod_cases size (hw.deq l) 0 (hw.deq_in l) (omega arith), hw.deq_in l)

  -- Without its first buffer, the ring is the rest of the queue, from the next entry on.
  pub taken-Holds :
      (b : ℕ) (q : List ℕ) (ring : RxRing) (l l' : Log)
      → hw.deq l' ≡ (hw.deq l + 1) % size
      → Holds (b ∷ q) ring l
      → Holds q (record ring { virt_buffer = put ring.virt_buffer (hw.deq l) none }) l'
  taken-Holds b q ring l l' e r = record {
    sized = r.sized;
    placed = r.placed;
    room = omega (arith, r.room);
    slot =
        r.slot
        ∙ sym (further (hw.deq l) (length q))
        ∙ ap (λ (d : ℕ). (d + length q) % size) (sym e);
    entries = λ i hi.
        let at : (hw.deq l' + i) % size ≡ (hw.deq l + suc i) % size =
          ap (λ (d : ℕ). (d + i) % size) e ∙ further (hw.deq l) i in
        let there = put ring.virt_buffer (hw.deq l) none in
        ap there at ∙ elim (dec_lt (suc i) size) [
          | yes p ↦ ground (
            arith,
            r.entries (suc i) p,
            first_entry l,
            mod_inj size (hw.deq l) (suc i) 0 (hw.deq_in l) p (omega arith),
          )
          | no p ↦ ground (
            arith,
            get_elem?-past q i (omega (arith, r.room)),
            mod_cases size (hw.deq l) (suc i) (hw.deq_in l) hi,
            hw.deq_in l,
          )
        ];
  }

  pub deq-fetched :
      (buf : ℕ) (ring : RxRing) (l : Log) → hw.deq (fetched buf ring l) ≡ (hw.deq l + 1) % size
  deq-fetched buf ring l =
      deq-setbits (copy buf (phys + hw.deq l * max_msg_size) max_msg_size ∷ looked l)
      ∙ ap (λ (d : ℕ). (d + 1) % size)
          (hw.deq-copy buf (phys + hw.deq l * max_msg_size) max_msg_size (looked l) ∙ deq-looked l)

  -- A message goes into the first buffer.
  pub fetch_lem :
      (b : ℕ) (q : List ℕ) (ring : RxRing) (l : Log)
      → waits l ≡ true
      → Holds (b ∷ q) ring l
      → get_inb_message k ring l ≡ (
        some b,
        record ring { virt_buffer = put ring.virt_buffer (hw.deq l) none },
        fetched b ring l,
      )
  fetch_lem b q ring l h r =
      message_at ring l h r.placed
      ∙ take_lem ring (hw.deq l) (looked l) (some b)
          (ap ring.virt_buffer (sym (first_entry l)) ∙ r.entries 0 (omega (arith, hw.deq_in l)))
      ∙ ap
          (λ (p : ℕ). (
            some b,
            record ring { virt_buffer = put ring.virt_buffer (hw.deq l) none },
            setbits32 k imr imr_mi (copy b (p + hw.deq l * max_msg_size) max_msg_size ∷ looked l),
          ))
          r.placed

  -- A message for which there is no buffer is dropped.
  pub drop_lem :
      (ring : RxRing) (l : Log)
      → waits l ≡ true
      → Holds [] ring l
      → get_inb_message k ring l ≡ (none, ring, setbits32 k imr imr_mi (looked l))
  drop_lem ring l h r =
      message_at ring l h r.placed
      ∙ take_lem ring (hw.deq l) (looked l) none
          (ap ring.virt_buffer (sym (first_entry l)) ∙ r.entries 0 (omega (arith, hw.deq_in l)))
