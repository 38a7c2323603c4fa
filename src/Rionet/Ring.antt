-- ===== src/Rionet/Ring.antt =====
-- The ring of packets of rapidio/rionet.c through transmissions and acknowledgements, and the count of active peers
-- on which it relies.
use native.Mathlib.Nat.{mod-add-mod}
use powerpc_i2c_temp.Prelude.{
  ℕ, zero, suc, ◌+◌, ◌%◌, ◌^◌, ◌≤◌, ◌<◌, ltb, ◌==◌, ◌≡◌, refl, ap, sym, ◌∙◌, arith, if◌then◌else◌,
  ◌&&◌, Bool, true, false, none, List, [], ◌∷◌, ◌++◌,
}
use powerpc_i2c_temp.Prelude.Bits.{bit_and_mask}
use powerpc_i2c_temp.Prelude.Int.{ℤ, pos, ◌+ℤ◌, ltb_ℤ}
use powerpc_i2c_temp.Rionet.{
  Skb, Net, Xmit, numbers_of, update, advance, count_active, is_active, queue_tx_msg, take,
  send_all, send, start_xmit, ack_loop, outb_msg_event,
}

-- At most as many packets as slots, and the next slot lies that far behind the first one.
pub record IsRing (w : ℕ) (s : Net) : Type 0 where
  pub room : s.tx_cnt ≤ 2 ^ w
  pub slot : s.tx_slot ≡ (s.ack_slot + s.tx_cnt) % 2 ^ w

-- The count of active peers is that of the table.
abbrev pub IsCounted : Net → Type 0
IsCounted s = s.nact ≡ pos (count_active s.active)

module _ (w : ℕ) where
  advance_lem : (slot : ℕ) → advance w slot ≡ (slot + 1) % 2 ^ w
  advance_lem slot = bit_and_mask w (slot + 1)

  queue-IsRing :
      (skb : Skb) (dest : ℕ) (s : Net)
      → s.tx_cnt < 2 ^ w
      → IsRing w s
      → IsRing w (queue_tx_msg w skb dest s)
  unfolding queue_tx_msg
  queue-IsRing skb dest s h r = record {
    room = omega arith;
    slot =
        advance_lem s.tx_slot
        ∙ ap (λ (t : ℕ). (t + 1) % 2 ^ w) r.slot
        ∙ mod-add-mod (s.ack_slot + s.tx_cnt) (2 ^ w) 1
        ∙ ap (λ (t : ℕ). t % 2 ^ w) (omega arith);
  }

  -- What the transmission leaves alone.
  abbrev Keeps : Net → Net → Type 0
  Keeps s s' = (s'.active ≡ s.active) × (s'.nact ≡ s.nact)

  -- One message and, after the first, one reference.
  one_more :
      (count i : ℕ) (skb : Skb) (s : Net)
      → s.tx_cnt < 2 ^ w
      → IsRing w s
      → let s' = take count skb (queue_tx_msg w skb i s) in
        IsRing w s' × Keeps s s' × (s'.tx_cnt ≡ s.tx_cnt + 1)
  unfolding queue_tx_msg
  one_more zero i skb s h r = (queue-IsRing skb i s h r, (refl, refl), refl)
  one_more (suc count) i skb s h r =
      let r' = queue-IsRing skb i s h r in
      (record { room = r'.room; slot = r'.slot }, (refl, refl), refl)

  send_all-IsRing :
      (skb : Skb) (count i : ℕ) (active : List Bool) (s : Net)
      → s.tx_cnt + count_active active ≤ 2 ^ w
      → IsRing w s
      → IsRing w (send_all w skb count i active s) × Keeps s (send_all w skb count i active s)
  unfolding send_all
  send_all-IsRing skb count i [] s h r = (r, (refl, refl))
  send_all-IsRing skb count i (false ∷ active) s h r =
      send_all-IsRing skb count (suc i) active s h r
  send_all-IsRing skb count i (true ∷ active) s h r =
      let (r', k, n) = one_more count i skb s (omega arith) r in
      let (r'', k') =
        send_all-IsRing skb (suc count) (suc i) active (take count skb (queue_tx_msg w skb i s))
          (omega arith) r' in
      (r'', (k'.0 ∙ k.0, k'.1 ∙ k.1))

  -- A well-formed ring that differs in the ring only.
  abbrev Follows : Net → Net → Type 0
  Follows s s' = IsRing w s' × Keeps s s'

  Follows-if :
      (s : Net) (t : Bool) (x y : Net)
      → (t ≡ true → Follows s x)
      → (t ≡ false → Follows s y)
      → Follows s (if t then x else y)
  Follows-if s true x y hx hy = hx refl
  Follows-if s false x y hx hy = hy refl

  send-IsRing :
      (skb : Skb) (s : Net)
      → s.tx_cnt + (if skb.multicast then count_active s.active else 1) ≤ 2 ^ w
      → IsRing w s
      → Follows s (send w skb s)
  unfolding send
  send-IsRing skb s h r =
      let one = λ (t : skb.multicast ≡ false).
        let room : s.tx_cnt + 1 ≤ 2 ^ w = ground arith in
        let (r', k, n) = one_more 0 skb.destid skb s (omega arith) r in
        let q : Follows s (queue_tx_msg w skb skb.destid s) = (r', k) in q in
      Follows-if s skb.multicast _ _ (λ t. send_all-IsRing skb 0 0 s.active s (ground arith) r)
        (λ t.
          Follows-if s (skb.mac_match && is_active s.active skb.destid) _ _ (λ there. one t)
            (λ away. (r, (refl, refl))))

  lt-add : (a b c : ℕ) → ltb_ℤ (pos a) (pos b +ℤ pos c) ≡ ltb a (b + c)
  lt-add a b c = ground arith

  -- The test for room, when the count of active peers is `k`.
  room_lem :
      (multicast : Bool) (nact : ℤ) (k cnt : ℕ)
      → nact ≡ pos k
      → ltb_ℤ (pos (2 ^ w)) (pos cnt +ℤ (if multicast then nact else pos 1)) ≡ false
      → cnt + (if multicast then k else 1) ≤ 2 ^ w
  room_lem true nact k cnt e h =
      let h' =
        sym (lt-add (2 ^ w) cnt k)
        ∙ sym (ap (λ (n : ℤ). ltb_ℤ (pos (2 ^ w)) (pos cnt +ℤ n)) e)
        ∙ h in
      ground arith
  room_lem false nact k cnt e h = let h' = sym (lt-add (2 ^ w) cnt 1) ∙ h in ground arith

  pair-if :
      (s : Net) (t : Bool) (x y : Xmit × Net)
      → (t ≡ true → Follows s x.1)
      → (t ≡ false → Follows s y.1)
      → Follows s (if t then x else y).1
  pair-if s true x y hx hy = hx refl
  pair-if s false x y hx hy = hy refl

  counted : (s s' : Net) → IsCounted s → Keeps s s' → IsCounted s'
  counted s s' c k = k.1 ∙ c ∙ sym (ap (λ (a : List Bool). pos (count_active a)) k.0)

  start_xmit-Follows :
      (got_lock : Bool) (skb : Skb) (s : Net)
      → IsCounted s
      → IsRing w s
      → Follows s (start_xmit w got_lock skb s).1
  unfolding start_xmit
  start_xmit-Follows false skb s c r = (r, (refl, refl))
  start_xmit-Follows true skb s c r =
      pair-if s (ltb_ℤ (pos (2 ^ w)) (pos s.tx_cnt +ℤ (if skb.multicast then s.nact else pos 1))) _
        _ (λ full. (record { room = r.room; slot = r.slot }, (refl, refl)))
        (λ fits.
          send-IsRing skb s (room_lem skb.multicast s.nact (count_active s.active) s.tx_cnt c fits)
            r)

  -- When the count of active peers is that of the table, a transmission keeps the ring well-formed, so that it never
  -- holds more packets than it has slots, whether the packet is accepted, refused because the ring is full, or sent
  -- back because the lock is taken; and the count stays that of the table.
  pub start_xmit-IsRing :
      (got_lock : Bool) (skb : Skb) (s : Net)
      → IsCounted s
      → IsRing w s
      → IsRing w (start_xmit w got_lock skb s).1 × IsCounted (start_xmit w got_lock skb s).1
  start_xmit-IsRing got_lock skb s c r =
      let (r', k) = start_xmit-Follows got_lock skb s c r in
      (r', counted s (start_xmit w got_lock skb s).1 c k)

  -- The acknowledgement of one packet.
  abbrev one_less : ℕ → Net → Net
  one_less left s = record s {
    freed = s.freed ++ numbers_of (s.tx_skb s.ack_slot);
    tx_skb = update s.tx_skb s.ack_slot none;
    ack_slot = advance w s.ack_slot;
    tx_cnt = left;
  }

  one_less-IsRing :
      (left : ℕ) (s : Net) → suc left ≡ s.tx_cnt → IsRing w s → IsRing w (one_less left s)
  one_less-IsRing left s e r = record {
    room = let h = r.room in omega arith;
    slot =
        r.slot
        ∙ ap (λ (t : ℕ). t % 2 ^ w) (omega arith)
        ∙ sym (mod-add-mod (s.ack_slot + 1) (2 ^ w) left)
        ∙ ap (λ (t : ℕ). (t + left) % 2 ^ w) (sym (advance_lem s.ack_slot));
  }

  ack_loop-IsRing :
      (left slot : ℕ) (s : Net) → left ≡ s.tx_cnt → IsRing w s → Follows s (ack_loop w left slot s)
  unfolding ack_loop
  ack_loop-IsRing zero slot s e r = (r, (refl, refl))
  ack_loop-IsRing (suc left) slot s e r =
      Follows-if s (s.ack_slot == slot) _ _ (λ here. (r, (refl, refl)))
        (λ there. ack_loop-IsRing left slot (one_less left s) refl (one_less-IsRing left s e r))

  -- An acknowledgement keeps the ring well-formed and the count of active peers that of the table.
  pub outb_msg_event-IsRing :
      (slot : ℕ) (s : Net)
      → IsCounted s
      → IsRing w s
      → IsRing w (outb_msg_event w slot s) × IsCounted (outb_msg_event w slot s)
  unfolding outb_msg_event
  outb_msg_event-IsRing slot s c r =
      let (r', k) = ack_loop-IsRing s.tx_cnt slot s refl r in
      (record { room = r'.room; slot = r'.slot }, counted s (ack_loop w s.tx_cnt slot s) c k)
