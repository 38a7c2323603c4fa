-- ===== src/Rmu/Sent.antt =====
-- What `fsl_add_outb_message` of rapidio/fsl_rmu.c puts into the outbound ring.
use mathlib.Core.Path.{subst}
use native.Mathlib.Nat.{pow-suc, one-le-pow}
use native.Mathlib.Numerals.{towards_suc}
use powerpc_i2c_temp.Prelude.{
  ℕ, zero, suc, ◌+◌, ◌*◌, ◌%◌, ◌^◌, ◌≤◌, ◌<◌, ltb, bit_and, bit_or, ◌≡◌, ◌≢◌, refl, sym, ap, ◌∙◌,
  arith, ◌||◌, Bool-cases, true, false, inl, inr, ◌∷◌,
}
use powerpc_i2c_temp.Prelude.Int.{ℤ, pos}
use powerpc_i2c_temp.Prelude.Word.{u32, ◌<<<◌}
use powerpc_i2c_temp.Prelude.Bits.{bit_and_mask, bit_or_fields}
use powerpc_i2c_temp.Rmu.Machine.{Machine, Log, omr, read, write}
use powerpc_i2c_temp.Rmu.Entries.{put_self, put_ne, if-eq_true, if-eq_false, next_slot_lem}
use powerpc_i2c_temp.Rmu.Outbound.{
  TxDesc, TxRing, put, omr_mui, double_words, describe, filled_buffer, next_slot, add_outb_message,
}

-- What the kernel documents of its two functions, at a number: `is_power_of_2` answers for powers of two, and
-- `get_bitmask_order` is the number of the highest bit, counted from 1.
pub record Powers (k : Machine) (n : ℕ) : Type 0 where
  pub some_power : k.is_power_of_2 n ≡ true → (e : ℕ) × (n ≡ 2 ^ e)
  pub no_power : (e : ℕ) → k.is_power_of_2 n ≡ false → n ≢ 2 ^ e
  pub highest : ℕ
  pub order : k.get_bitmask_order n ≡ highest + 1
  pub above : n < 2 ^ (highest + 1)
  pub below : 2 ^ highest ≤ n

-- The smallest power of two that is not below `n`.
abbrev pub IsSmallest : ℕ → ℕ → Type 0
IsSmallest m n = ((e : ℕ) × (m ≡ 2 ^ e)) × (n ≤ m) × (m < n + n)

-- Two powers of two that are less than twice each other are the same.
pub pow_gap : (n e : ℕ) → 2 ^ n < 2 * 2 ^ e → 2 ^ e < 2 * 2 ^ n → 2 ^ e ≡ 2 ^ n
pow_gap zero zero h l = refl
pow_gap zero (suc e) h l = absurd (omega (arith, pow-suc 2 e, one-le-pow e 2))
pow_gap (suc n) zero h l = absurd (omega (arith, pow-suc 2 n, one-le-pow n 2))
pow_gap (suc n) (suc e) h l = omega (
  arith,
  pow-suc 2 n,
  pow-suc 2 e,
  pow_gap n e (omega (arith, pow-suc 2 n, pow-suc 2 e)) (omega (arith, pow-suc 2 n, pow-suc 2 e)),
)

module _ (k : Machine) where
  double_words-IsSmallest :
      (len : ℕ) → 0 < len → len ≤ 4096 → Powers k len → IsSmallest (double_words k len) len
  unfolding double_words
  double_words-IsSmallest len h l p = elim (Bool-cases (k.is_power_of_2 len)) [
    | inl t ↦
        let e : double_words k len ≡ len = if-eq_true _ _ _ t in
        let (x, q) = p.some_power t in ((x, e ∙ q), omega arith, omega arith)
    | inr f ↦
        let two : 2 ^ (p.highest + 1) ≡ 2 * 2 ^ p.highest = simp towards_suc (omega arith) in
        let e : double_words k len ≡ 2 ^ (p.highest + 1) =
          if-eq_false _ _ _ f ∙ ap (λ (o : ℕ). u32 (1 * 2 ^ o)) p.order ∙ omega arith in
        let no = p.no_power p.highest f in ((p.highest + 1, e), omega arith, ground arith)
  ]

  -- The message in the slot of the ring, and the slot moved on.
  abbrev pub IsSent : (destid mbox : ℕ) → (ℕ → ℕ) → ℕ → TxRing → ℤ × TxRing × Log → Type 0
  IsSent destid mbox message len ring (rc, ring', l') =
      let slot = ring.tx_slot in
      let desc = ring'.virt slot in
      (rc ≡ pos 0)
      × (desc.dport ≡ destid * 2 ^ 16 + mbox % 4)
      × IsSmallest desc.dwcnt len
      × ((j : ℕ) → j < len → ring'.contents slot j ≡ message j)
      × ((j : ℕ) → len < 4092 → len ≤ j → j < 4096 → ring'.contents slot j ≡ 0)
      × ((i : ℕ) → i ≢ slot → (ring'.virt i ≡ ring.virt i) × (ring'.contents i ≡ ring.contents i))
      × (ring'.tx_slot ≡ (slot + 1) % ring.size)

  dport_lem :
      (destid mbox : ℕ)
      → destid < 2 ^ 16
      → bit_or (u32 (destid <<< 16)) (bit_and mbox 0x3) ≡ destid * 2 ^ 16 + mbox % 4
  dport_lem destid mbox h =
      ap (λ (d : ℕ). bit_or d (bit_and mbox 0x3)) (omega arith)
      ∙ ap (bit_or (destid * 2 ^ 16)) (bit_and_mask 2 mbox)
      ∙ bit_or_fields 16 destid (mbox % 4) (omega arith)

  filled_message :
      (old message : ℕ → ℕ) (len j : ℕ) → j < len → filled_buffer k old message len j ≡ message j
  unfolding filled_buffer
  filled_message old message len j h = ground arith

  filled_rest :
      (old message : ℕ → ℕ) (len j : ℕ)
      → len < 4092
      → len ≤ j
      → j < 4096
      → filled_buffer k old message len j ≡ 0
  unfolding filled_buffer
  filled_rest old message len j h le lt = ground arith

  -- The ring after a message was accepted.
  abbrev sent : (index destid mbox : ℕ) → (ℕ → ℕ) → ℕ → TxRing → TxRing
  sent index destid mbox message len ring =
      let slot = ring.tx_slot in
      record ring {
        contents = put ring.contents slot (filled_buffer k (ring.contents slot) message len);
        virt = put ring.virt slot (describe k index destid mbox len (ring.virt_buffer slot));
        tx_slot = next_slot k slot ring.size;
      }

  sent_lem :
      (index destid mbox : ℕ) (message : ℕ → ℕ) (len : ℕ) (ring : TxRing) (l : Log)
      → 8 ≤ len
      → len ≤ 4096
      → add_outb_message k index destid mbox message len ring l ≡ (
        pos 0,
        sent index destid mbox message len ring,
        write omr (bit_or (k.reg_value l omr) omr_mui) ∷ read omr ∷ l,
      )
  unfolding add_outb_message
  sent_lem index destid mbox message len ring l h8 h4096 =
      if-eq_false (ltb len 8 || ltb 4096 len) _ _ (ground arith)

  filled_stale :
      (old message : ℕ → ℕ) (len j : ℕ)
      → 4092 ≤ len
      → len ≤ j
      → filled_buffer k old message len j ≡ old j
  unfolding filled_buffer
  filled_stale old message len j h le = ground arith

  -- A message of 8 to 4096 bytes is accepted. The descriptor of the slot gets the destination and the mailbox and, as its
  -- length, the smallest power of two that is not below the message's; the buffer of the slot begins with the message and,
  -- when the message is shorter than 4092 bytes, ends with zeros; no other slot changes; and the slot moves on by one
  -- round the ring.
  pub add_outb_message-IsSent :
      (index destid mbox : ℕ) (message : ℕ → ℕ) (len : ℕ) (ring : TxRing) (l : Log)
      → 8 ≤ len
      → len ≤ 4096
      → destid < 2 ^ 16
      → ring.tx_slot < ring.size
      → Powers k len
      → IsSent destid mbox message len ring
          (add_outb_message k index destid mbox message len ring l)
  unfolding describe
  add_outb_message-IsSent index destid mbox message len ring l h8 h4096 hd hs p =
      let d = describe k index destid mbox len (ring.virt_buffer ring.tx_slot) in
      let f = filled_buffer k (ring.contents ring.tx_slot) message len in
      let desc = put_self ring.virt ring.tx_slot d in
      let buffer = put_self ring.contents ring.tx_slot f in
      subst (IsSent destid mbox message len ring)
        (sym (sent_lem index destid mbox message len ring l h8 h4096))
        (
          refl,
          ap (λ (t : TxDesc). t.dport) desc ∙ dport_lem destid mbox hd,
          subst (λ (m : ℕ). IsSmallest m len) (sym (ap (λ (t : TxDesc). t.dwcnt) desc))
              (double_words-IsSmallest len (omega arith) h4096 p),
          (λ j hj.
              ap (λ (g : ℕ → ℕ). g j) buffer
              ∙ filled_message (ring.contents ring.tx_slot) message len j hj),
          (λ j short le lt.
              ap (λ (g : ℕ → ℕ). g j) buffer
              ∙ filled_rest (ring.contents ring.tx_slot) message len j short le lt),
          (λ i ne.
              (put_ne ring.virt ring.tx_slot i d ne, put_ne ring.contents ring.tx_slot i f ne)),
          next_slot_lem k ring.tx_slot ring.size hs,
        )

  -- The last bytes are those of an earlier message: when a message of at least 4092 bytes is shorter than the buffer, the
  -- controller is told to send all 4096 bytes, and the ones after the message are left as they were.
  pub add_outb_message_stale :
      (index destid mbox : ℕ) (message : ℕ → ℕ) (len : ℕ) (ring : TxRing) (l : Log) (j : ℕ)
      → 4092 ≤ len
      → len ≤ j
      → j < 4096
      → Powers k len
      → let ring' = (add_outb_message k index destid mbox message len ring l).1 in
        ((ring'.virt ring.tx_slot).dwcnt ≡ 4096)
        × (ring'.contents ring.tx_slot j ≡ ring.contents ring.tx_slot j)
  unfolding describe
  add_outb_message_stale index destid mbox message len ring l j h le lt p =
      let d = describe k index destid mbox len (ring.virt_buffer ring.tx_slot) in
      let f = filled_buffer k (ring.contents ring.tx_slot) message len in
      let e = sent_lem index destid mbox message len ring l (omega arith) (omega arith) in
      let whole = double_words-IsSmallest len (omega arith) (omega arith) p in
      let (x, q) = whole.0 in
      let power : double_words k len ≡ 4096 =
        q ∙ pow_gap 12 x (omega (arith, whole)) (omega (arith, whole)) in
      (
        ap (λ (r : ℤ × TxRing × Log). (r.1.virt ring.tx_slot).dwcnt) e
            ∙ ap (λ (t : TxDesc). t.dwcnt) (put_self ring.virt ring.tx_slot d)
            ∙ power,
        ap (λ (r : ℤ × TxRing × Log). r.1.contents ring.tx_slot j) e
            ∙ ap (λ (g : ℕ → ℕ). g j) (put_self ring.contents ring.tx_slot f)
            ∙ filled_stale (ring.contents ring.tx_slot) message len j h le,
      )
