-- ===== src/Rionet/Delivered.antt =====
-- One event of the receive ring of rapidio/rionet.c from end to end: which packets go to the network layer, and which ones
-- are in the ring afterwards.
use mathlib.Core.Path.{subst}
use native.Mathlib.Nat.{mod-eq_of_lt}
use powerpc_i2c_temp.Prelude.{
  ℕ, zero, suc, ◌+◌, ◌%◌, ◌≤◌, ◌<◌, ◌==◌, ◌≡◌, refl, sym, ap, ◌∙◌, arith, if◌then◌else◌, not, inr,
  true, false, some, List, ◌++◌, length,
}
use powerpc_i2c_temp.Rmu.Entries.{mod_cases, if-eq_true, if-eq_false}
use powerpc_i2c_temp.Rionet.Receive.{
  Kernel, Rx, clean_loop, rx_clean, fill_loop, rx_fill, inb_msg_event,
}
use powerpc_i2c_temp.Rionet.Mailbox.{Mailbox, IsFull, given}
use powerpc_i2c_temp.Rionet.Clean.{CleanedAll, clean_loop_lem}
use powerpc_i2c_temp.Rionet.Refill.{start_place, inb_msg_event-Answered}
use powerpc_i2c_temp.Rionet.Watched.{
  Watched, watched, watched-Mailbox, number_of, Numbered, Holds, addresses,
}
use powerpc_i2c_temp.Rionet.Stored.{Stored, Stored-none, fill_loop-Stored}
use powerpc_i2c_temp.Rionet.Passed.{Passed, clean_loop-Passed}

-- The packets `old` of the first `c` slots were given to the network layer, in order; the packets `new`, which are those
-- that were allocated, are now in these slots, and the mailbox was given their buffers; the other slots have the packets
-- that they had.
pub record Delivered {M : Type 0} (n c : ℕ) (s : Rx) (w : Watched M) (out : Rx × Watched M)
    : Type 0 where
  old : List ℕ
  new : List (ℕ × ℕ)
  passed : length old ≡ c
  numbered : Numbered n s.rx_skb s.rx_slot old
  handed : out.1.handed ≡ w.handed ++ old
  refilled : length new ≡ c
  holds : Holds n out.0.rx_skb s.rx_slot new
  fresh : out.1.fresh ≡ w.fresh ++ new
  supplied : out.1.supplied ≡ w.supplied ++ addresses new
  others :
      (o : ℕ)
      → c ≤ o
      → o < n
      → number_of (out.0.rx_skb ((s.rx_slot + o) % n)) ≡ number_of (s.rx_skb ((s.rx_slot + o) % n))

module _ {M : Type 0} (k : Kernel M) (mb : Mailbox k) (n : ℕ)
    (plenty : (m : M) → (x : ℕ × ℕ) × ((k.dev_alloc_skb m).0 ≡ some x)) where
  filled :
      (d left end : ℕ) (s : Rx) (w : Watched M)
      → d < left
      → suc d < n
      → s.rx_slot < n
      → end ≡ (s.rx_slot + suc d) % n
      → Stored k mb n plenty
          (suc d)
          0
          s.rx_slot
          s
          w
          (fill_loop (watched k) n left end s.rx_slot s w)
  filled d zero end s w hd hj hs he = ground arith
  filled d (suc left) end s w hd hj hs he =
      fill_loop-Stored k mb n plenty d left 0 s.rx_slot end s.rx_slot s w (omega arith)
        (omega arith) hs (start_place n s hs)
        (he ∙ ap (λ (a : ℕ). (s.rx_slot + a) % n) (omega arith))

  joined :
      (c slot i : ℕ) (s : Rx) (w : Watched M) (r f : ℕ × Rx × Watched M)
      → s.rx_slot ≡ slot
      → Passed k mb n c (s.rx_slot + 0) s w r
      → Stored k mb n plenty c 0 slot r.1 r.2 f
      → Delivered n c s w (record f.1 { rx_slot = i }, f.2)
  joined c slot i s w r f at p g = record {
    old = p.numbers;
    new = g.packets;
    passed = p.many;
    numbered = subst (λ (a : ℕ). Numbered n s.rx_skb a p.numbers) (omega arith) p.named;
    handed = g.handed ∙ p.handed;
    refilled = g.many;
    holds = subst (λ (a : ℕ). Holds n f.1.rx_skb a g.packets) (omega arith) g.held;
    fresh = g.fresh ∙ ap (λ l. l ++ g.packets) p.fresh;
    supplied = g.supplied ∙ ap (λ l. l ++ addresses g.packets) p.supplied;
    others = λ o low high.
        let kept =
          subst (λ (a : ℕ). f.1.rx_skb ((a + o) % n) ≡ r.1.rx_skb ((a + o) % n)) (sym at)
            (g.kept o high (inr (omega arith))) in
        ap number_of kept ∙ p.same ((s.rx_slot + o) % n);
  }

  event-Delivered :
      (c : ℕ) (s : Rx) (w : Watched M) (r : ℕ × Rx × Watched M)
      → s.rx_slot < n
      → c < n
      → CleanedAll (watched k) (watched-Mailbox k mb) n c n zero s w r
      → Passed k mb n c (s.rx_slot + 0) s w r
      → Delivered n c s w
          (if not (r.0 == r.1.rx_slot) then rx_fill (watched k) n r.0 r.1 r.2 else (r.1, r.2))
  unfolding rx_fill
  event-Delivered zero s w r hs hc cl p =
      let end : r.0 ≡ s.rx_slot =
        cl.place ∙ ap (λ (a : ℕ). a % n) (ground arith) ∙ mod-eq_of_lt hs in
      let t : (r.0 == r.1.rx_slot) ≡ true = let a = cl.slot in ground arith in
      subst (Delivered n zero s w) (sym (if-eq_false _ _ _ (ap not t))) (
        joined zero s.rx_slot r.1.rx_slot s w r r refl p
          (Stored-none k mb n plenty 0 s.rx_slot r.0 r.1 r.2))
  event-Delivered (suc c) s w r hs hc cl p =
      let end : r.0 ≡ (s.rx_slot + suc c) % n = cl.place ∙ ap (λ (a : ℕ). a % n) (ground arith) in
      let t : (r.0 == r.1.rx_slot) ≡ false =
        let a = cl.slot in ground (arith, mod_cases n s.rx_slot (suc c) hs (omega arith)) in
      let at = cl.slot in
      let g =
        filled c n r.0 r.1 r.2 (omega arith) hc (omega arith)
          (end ∙ ap (λ (a : ℕ). (a + suc c) % n) (sym at)) in
      subst (Delivered n (suc c) s w) (sym (if-eq_true _ _ _ (ap not t)))
        (joined (suc c) r.1.rx_slot _ s w r _ (sym at) p g)

  -- With a packet in every slot, fewer messages waiting than there are slots, and memory for every packet asked for: an
  -- inbound event with `c` messages waiting gives the packets of the first `c` slots to the network layer, in the order of
  -- the slots, and counts each of them as received or dropped; it puts `c` packets from `dev_alloc_skb` into these slots, in
  -- the order in which it got them, and gives their buffers to the mailbox; the other slots keep their packets, no message
  -- waits any longer, the mailbox has as many buffers as before, and the first slot moves forward by `c`.
  pub inb_msg_event-Delivered :
      (s : Rx) (w : Watched M)
      → s.rx_slot < n
      → IsFull n s
      → mb.waiting w.state < n
      → let c = mb.waiting w.state in
        let (s', w') = inb_msg_event (watched k) n s w in
        Delivered n c s w (s', w')
        × (s'.rx_slot ≡ (s.rx_slot + c) % n)
        × (given s' ≡ given s + c)
        × (mb.waiting w'.state ≡ 0)
        × (mb.buffers w'.state ≡ mb.buffers w.state)
  unfolding inb_msg_event rx_clean
  inb_msg_event-Delivered s w hs h hc =
      let kw = watched k in
      let mbw = watched-Mailbox k mb in
      let c = mb.waiting w.state in
      let r = clean_loop kw n n s.rx_slot s w in
      let a = inb_msg_event-Answered kw mbw n (λ v. plenty v.state) s w hs h hc in
      (
        event-Delivered c s w r hs hc
            (clean_loop_lem kw mbw n c n 0 s.rx_slot s w (omega arith) hs (start_place n s hs) h
              refl)
            (clean_loop-Passed k mb n c n 0 s.rx_slot s w (omega arith) (omega arith) hs
              (start_place n s hs) h refl),
        a.0,
        a.2,
        a.3,
        a.4,
      )
