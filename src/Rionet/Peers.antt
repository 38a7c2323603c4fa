-- ===== src/Rionet/Peers.antt =====
-- The peers of rapidio/rionet.c: doorbells that say a peer joins or leaves, and runs of the transmit side.
use powerpc_i2c_temp.Prelude.{
  ℕ, zero, suc, ◌+◌, ◌≤◌, ◌<◌, ◌==◌, ◌≡◌, ◌≢◌, refl, ap, sym, ◌∙◌, arith, if◌then◌else◌, Bool, true,
  false, List, [], ◌∷◌, set, length,
}
use powerpc_i2c_temp.Prelude.Int.{ℤ, pos, negsuc, ◌+ℤ◌}
use powerpc_i2c_temp.Rionet.{
  Skb, Net, count_active, is_active, start_xmit, outb_msg_event, doorbell_join, doorbell_leave,
  join_all, dbell_event,
}
use powerpc_i2c_temp.Rionet.Ring.{IsRing, IsCounted, start_xmit-IsRing, outb_msg_event-IsRing}

pred_ne : (k : ℕ) → pos k +ℤ negsuc 0 ≡ pos k → ⊥
pred_ne k h = ground arith

-- To clear an entry that is clear changes no count.
count_active-set :
    (active : List Bool) (i : ℕ)
    → is_active active i ≡ false
    → count_active (set active i false) ≡ count_active active
count_active-set [] i h = refl
count_active-set (a ∷ active) zero h = ap (λ (b : Bool). count_active (b ∷ active)) (sym h)
count_active-set (true ∷ active) (suc i) h = ap suc (count_active-set active i h)
count_active-set (false ∷ active) (suc i) h = count_active-set active i h

-- When a peer that is not active sends the doorbell that says it leaves, and the count of active peers was that of
-- the table, it no longer is: the event takes one from it all the same.
pub leave_inactive :
    (peers : List ℕ) (sid : ℕ) (s : Net)
    → IsCounted s
    → is_active s.active sid ≡ false
    → ¬ IsCounted (dbell_event peers sid doorbell_leave s)
unfolding dbell_event
leave_inactive peers sid s c h e =
    pred_ne (count_active s.active)
      (ap (λ (n : ℤ). n +ℤ negsuc 0) (sym c) ∙ e ∙ ap pos (count_active-set s.active sid h))

count_active-join :
    (active : List Bool) (i : ℕ)
    → is_active active i ≡ false
    → i < length active
    → count_active (set active i true) ≡ suc (count_active active)
count_active-join [] i h l = absurd (ground arith)
count_active-join (a ∷ active) zero h l = ap (λ (b : Bool). suc (count_active (b ∷ active))) (sym h)
count_active-join (true ∷ active) (suc i) h l = ap suc (count_active-join active i h (ground arith))
count_active-join (false ∷ active) (suc i) h l = count_active-join active i h (ground arith)

count_active-leave :
    (active : List Bool) (i : ℕ)
    → is_active active i ≡ true
    → suc (count_active (set active i false)) ≡ count_active active
count_active-leave [] i h = absurd (ground arith)
count_active-leave (a ∷ active) zero h = ap (λ (b : Bool). count_active (b ∷ active)) (sym h)
count_active-leave (true ∷ active) (suc i) h = ap suc (count_active-leave active i h)
count_active-leave (false ∷ active) (suc i) h = count_active-leave active i h

pos-suc : (k : ℕ) → pos k +ℤ pos 1 ≡ pos (suc k)
pos-suc k = ground arith

pos-pred : (k : ℕ) → pos (suc k) +ℤ negsuc 0 ≡ pos k
pos-pred k = ground arith

-- How often an identifier stands in the list of peers.
abbrev pub occurs : ℕ → List ℕ → ℕ
occurs sid [] = 0
occurs sid (peer ∷ peers) = (if peer == sid then 1 else 0) + occurs sid peers

if-holds :
    (P : Net → Type 0) (t : Bool) (x y : Net)
    → (t ≡ true → P x)
    → (t ≡ false → P y)
    → P (if t then x else y)
if-holds P true x y hx hy = hx refl
if-holds P false x y hx hy = hy refl

module _ (w : ℕ) where
  abbrev pub IsGood : Net → Type 0
  IsGood s = IsRing w s × IsCounted s

  join_all-absent :
      (sid : ℕ) (peers : List ℕ) (s : Net)
      → occurs sid peers ≡ 0
      → IsGood s
      → IsGood (join_all sid peers s)
  unfolding join_all
  join_all-absent sid [] s n g = g
  join_all-absent sid (peer ∷ peers) s n g =
      if-holds (λ u. IsGood (join_all sid peers u)) (peer == sid) _ _ (λ t. absurd (ground arith))
        (λ t. join_all-absent sid peers s (ground arith) g)

  join_all-IsGood :
      (sid : ℕ) (peers : List ℕ) (s : Net)
      → occurs sid peers ≤ 1
      → sid < length s.active
      → is_active s.active sid ≡ false
      → IsGood s
      → IsGood (join_all sid peers s)
  unfolding join_all
  join_all-IsGood sid [] s n l a g = g
  join_all-IsGood sid (peer ∷ peers) s n l a g =
      if-holds (λ u. IsGood (join_all sid peers u)) (peer == sid) _ _
        (λ t. join_all-absent sid peers _ (ground arith) (
          record { room = g.0.room; slot = g.0.slot },
          ap (λ (n : ℤ). n +ℤ pos 1) g.1
              ∙ pos-suc (count_active s.active)
              ∙ ap pos (sym (count_active-join s.active sid a l)),
        ))
        (λ t. join_all-IsGood sid peers s (ground arith) l a g)

  module _ (peers : List ℕ) where
    -- What happens to the transmit side: a transmission, an acknowledgement, the doorbell of a peer that joins, whose
    -- identifier the table has room for, that of an active peer that leaves, and any other doorbell.
    pub data Step (s : Net) : Net → Type 0 where
      xmit : (got_lock : Bool) (skb : Skb) → Step s (start_xmit w got_lock skb s).1
      acked : (slot : ℕ) → Step s (outb_msg_event w slot s)
      joins : (sid : ℕ) → sid < length s.active → Step s (dbell_event peers sid doorbell_join s)
      leaves :
          (sid : ℕ)
          → is_active s.active sid ≡ true
          → Step s (dbell_event peers sid doorbell_leave s)
      other :
          (sid info : ℕ)
          → info ≢ doorbell_join
          → info ≢ doorbell_leave
          → Step s (dbell_event peers sid info s)

    pub data Reach (s : Net) : Net → Type 0 where
      here : Reach s s
      next : {s1 s2 : Net} → Reach s s1 → Step s1 s2 → Reach s s2

    Step-IsGood :
        {s s' : Net} → ((sid : ℕ) → occurs sid peers ≤ 1) → Step s s' → IsGood s → IsGood s'
    unfolding dbell_event
    Step-IsGood d (xmit got_lock skb) g = start_xmit-IsRing w got_lock skb _ g.1 g.0
    Step-IsGood d (acked slot) g = outb_msg_event-IsRing w slot _ g.1 g.0
    Step-IsGood {s} d (joins sid l) g =
        if-holds IsGood (is_active s.active sid) _ _ (λ a. g)
          (λ a. join_all-IsGood sid peers s (d sid) l a g)
    Step-IsGood {s} d (leaves sid a) g = (
      record { room = g.0.room; slot = g.0.slot },
      ap (λ (n : ℤ). n +ℤ negsuc 0) (g.1 ∙ ap pos (sym (count_active-leave s.active sid a)))
          ∙ pos-pred (count_active (set s.active sid false)),
    )
    Step-IsGood {s} d (other sid info j l) g =
        if-holds IsGood (info == doorbell_join) _ _ (λ t. absurd (ground arith))
          (λ t. if-holds IsGood (info == doorbell_leave) _ _ (λ t. absurd (ground arith)) (λ t. g))

    -- When no two peers have the same identifier, every run of transmissions, acknowledgements and doorbells, in any
    -- order, in which a peer that leaves was active and a peer that joins has an identifier inside the table, keeps the
    -- transmit side well-formed: the ring holds at most as many packets as it has slots, the next slot is as far behind
    -- the first as there are packets, and the count of active peers is that of the table.
    pub Reach-IsGood :
        {s s' : Net} → ((sid : ℕ) → occurs sid peers ≤ 1) → Reach s s' → IsGood s → IsGood s'
    Reach-IsGood d here g = g
    Reach-IsGood d (next r st) g = Step-IsGood d st (Reach-IsGood d r g)
