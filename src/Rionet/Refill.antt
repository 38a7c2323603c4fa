-- ===== src/Rionet/Refill.antt =====
-- One event of the receive ring of rapidio/rionet.c: what `rionet_rx_fill` puts back after `rionet_rx_clean`.
use mathlib.Core.Path.{subst}
use native.Mathlib.Nat.{mod-eq_of_lt}
use powerpc_i2c_temp.Prelude.{
  ℕ, zero, suc, min, ◌+◌, ◌%◌, ◌≤◌, ◌<◌, ◌==◌, ◌≡◌, refl, sym, ap, ◌∙◌, arith, if◌then◌else◌, not,
  true, false, some,
}
use powerpc_i2c_temp.Rmu.Entries.{mod_cases, if-eq_true, if-eq_false}
use powerpc_i2c_temp.Rionet.Receive.{
  Kernel, Rx, put_skb, clean_loop, rx_clean, fill_one, fill_loop, rx_fill, inb_msg_event,
}
use powerpc_i2c_temp.Rionet.Mailbox.{Mailbox, IsFull, given, next_place, put-IsFull}
use powerpc_i2c_temp.Rionet.Clean.{CleanedAll, clean_loop_lem}

-- Whether a step further is the end, `d` steps before it.
pub at_end :
    (n slot j d i : ℕ)
    → slot < n
    → j + suc d < n
    → i ≡ (slot + j) % n
    → ((i + 1) % n == (slot + (j + suc d)) % n) ≡ (d == 0)
at_end n slot j d i hs hj hi =
    let next = next_place n slot j i hi in
    ground (
      arith,
      mod_cases n slot (suc j) hs (omega arith),
      mod_cases n slot (j + suc d) hs (omega arith),
    )

pub start_place : (n : ℕ) (s : Rx) → s.rx_slot < n → s.rx_slot ≡ (s.rx_slot + 0) % n
start_place n s hs = sym (ap (λ (a : ℕ). a % n) (omega arith) ∙ mod-eq_of_lt hs)

module _ {M : Type 0} (k : Kernel M) (mb : Mailbox k) (n : ℕ)
    (plenty : (m : M) → (x : ℕ × ℕ) × ((k.dev_alloc_skb m).0 ≡ some x)) where
  record Filled (d end : ℕ) (s : Rx) (m : M) (r : ℕ × Rx × M) : Type 0 where
    place : r.0 ≡ end
    full : IsFull n r.1
    counted : given r.1 ≡ given s
    rest : mb.waiting r.2 ≡ mb.waiting m
    refilled : mb.buffers r.2 ≡ mb.buffers m + d

  pub fill_goes :
      (left end i : ℕ) (s : Rx) (m : M) (x : ℕ × ℕ)
      → (k.dev_alloc_skb m).0 ≡ some x
      → let s' = put_skb i (some x) s in
        let m' = k.add_inb_buffer x.1 (k.dev_alloc_skb m).1 in
        fill_loop k n (suc left) end i s m ≡ (
          if (i + 1) % n == end
          then ((i + 1) % n, s', m')
          else fill_loop k n left end ((i + 1) % n) s' m')
  unfolding fill_loop fill_one
  fill_goes left end i s m x e = rw (fill_loop, fill_one, e)

  -- One slot, with the rest of the loop after it.
  one_back :
      (d end i : ℕ) (s : Rx) (m : M) (x : ℕ × ℕ) (r : ℕ × Rx × M)
      → let m' = k.add_inb_buffer x.1 (k.dev_alloc_skb m).1 in
        Filled d end (put_skb i (some x) s) m' r → Filled (suc d) end s m r
  one_back d end i s m x r f =
      let a = mb.allocated m in
      let b = mb.added x.1 (k.dev_alloc_skb m).1 in
      record {
        place = f.place;
        full = f.full;
        counted = f.counted;
        rest = f.rest ∙ b.0 ∙ a.0;
        refilled = let c = f.refilled in omega (arith, a.1, b.1);
      }

  fill_loop_lem :
      (d left j i end slot : ℕ) (s : Rx) (m : M)
      → d ≤ left
      → j + suc d < n
      → slot < n
      → i ≡ (slot + j) % n
      → end ≡ (slot + (j + suc d)) % n
      → IsFull n s
      → Filled (suc d) end s m (fill_loop k n (suc left) end i s m)
  fill_loop_lem zero left j i end slot s m hd hj hs hi he h =
      let (x, e) = plenty m in
      let t = ap (λ (a : ℕ). (i + 1) % n == a) he ∙ at_end n slot j zero i hs hj hi in
      let here : (i + 1) % n ≡ end =
        next_place n slot j i hi ∙ ap (λ (a : ℕ). a % n) (omega arith) ∙ sym he in
      subst (Filled 1 end s m) (sym (fill_goes left end i s m x e ∙ if-eq_true _ _ _ t)) (
        one_back zero end i s m x _ (record {
          place = here;
          full = put-IsFull n i x s h;
          counted = refl;
          rest = refl;
          refilled = omega arith;
        }))
  fill_loop_lem (suc d) zero j i end slot s m hd hj hs hi he h = ground arith
  fill_loop_lem (suc d) (suc left) j i end slot s m hd hj hs hi he h =
      let (x, e) = plenty m in
      let s' = put_skb i (some x) s in
      let t = ap (λ (a : ℕ). (i + 1) % n == a) he ∙ at_end n slot j (suc d) i hs hj hi in
      let more : (suc d == 0) ≡ false = ground arith in
      let rest =
        fill_loop_lem d left (suc j) ((i + 1) % n) end slot s'
          (k.add_inb_buffer x.1 (k.dev_alloc_skb m).1) (omega arith) (omega arith) hs
          (next_place n slot j i hi) (he ∙ ap (λ (a : ℕ). a % n) (omega arith))
          (put-IsFull n i x s h) in
      subst (Filled (suc (suc d)) end s m)
        (sym (fill_goes (suc left) end i s m x e ∙ if-eq_false _ _ _ (t ∙ more)))
        (one_back (suc d) end i s m x _ rest)

  filled :
      (d left end : ℕ) (s : Rx) (m : M)
      → d < left
      → suc d < n
      → s.rx_slot < n
      → end ≡ (s.rx_slot + suc d) % n
      → IsFull n s
      → Filled (suc d) end s m (fill_loop k n left end s.rx_slot s m)
  filled d zero end s m hd hj hs he h = ground arith
  filled d (suc left) end s m hd hj hs he h =
      fill_loop_lem d left 0 s.rx_slot end s.rx_slot s m (omega arith) (omega arith) hs
        (start_place n s hs) (he ∙ ap (λ (a : ℕ). (s.rx_slot + a) % n) (omega arith)) h

  abbrev Answered : ℕ → Rx → M → Rx × M → Type 0
  Answered c s m out =
      (out.0.rx_slot ≡ (s.rx_slot + c) % n)
      × IsFull n out.0
      × (given out.0 ≡ given s + c)
      × (mb.waiting out.1 ≡ 0)
      × (mb.buffers out.1 ≡ mb.buffers m)

  answered :
      (c : ℕ) (s : Rx) (m : M) (r : ℕ × Rx × M)
      → s.rx_slot < n
      → c < n
      → CleanedAll k mb n c n zero s m r
      → Answered c s m (if not (r.0 == r.1.rx_slot) then rx_fill k n r.0 r.1 r.2 else (r.1, r.2))
  unfolding rx_fill
  answered zero s m r hs hc cl =
      let place : (s.rx_slot + 0) % n ≡ s.rx_slot =
        ap (λ (a : ℕ). a % n) (omega arith) ∙ mod-eq_of_lt hs in
      let end : r.0 ≡ s.rx_slot =
        cl.place ∙ ap (λ (a : ℕ). a % n) (ground arith) ∙ mod-eq_of_lt hs in
      let t : (r.0 == r.1.rx_slot) ≡ true = let a = cl.slot in ground arith in
      subst (Answered zero s m) (sym (if-eq_false _ _ _ (ap not t))) (
        cl.slot ∙ sym place,
        cl.full,
        cl.counted ∙ ground arith,
        cl.rest ∙ ground arith,
        (let a = cl.taken in ground arith),
      )
  answered (suc c) s m r hs hc cl =
      let end : r.0 ≡ (s.rx_slot + suc c) % n = cl.place ∙ ap (λ (a : ℕ). a % n) (ground arith) in
      let t : (r.0 == r.1.rx_slot) ≡ false =
        let a = cl.slot in ground (arith, mod_cases n s.rx_slot (suc c) hs (omega arith)) in
      let at = cl.slot in
      let f =
        filled c n r.0 r.1 r.2 (omega arith) hc (omega arith)
          (end ∙ ap (λ (a : ℕ). (a + suc c) % n) (sym at)) cl.full in
      subst (Answered (suc c) s m) (sym (if-eq_true _ _ _ (ap not t))) (
        f.place ∙ end,
        f.full,
        (let a = cl.counted in let b = f.counted in ground arith),
        (let a = cl.rest in let b = f.rest in ground arith),
        (let a = cl.taken in let b = f.refilled in ground arith),
      )

  -- With a packet in every slot, fewer messages waiting than there are slots, and memory for every packet asked for: an
  -- inbound event counts a packet for each waiting message, leaves none waiting, leaves no slot empty, gives the
  -- mailbox as many buffers as it took out, and moves the first slot forward by the number of messages.
  pub inb_msg_event-Answered :
      (s : Rx) (m : M)
      → s.rx_slot < n
      → IsFull n s
      → mb.waiting m < n
      → let c = mb.waiting m in
        let (s', m') = inb_msg_event k n s m in
        (s'.rx_slot ≡ (s.rx_slot + c) % n)
        × IsFull n s'
        × (given s' ≡ given s + c)
        × (mb.waiting m' ≡ 0)
        × (mb.buffers m' ≡ mb.buffers m)
  unfolding inb_msg_event rx_clean
  inb_msg_event-Answered s m hs h hc =
      answered (mb.waiting m) s m (clean_loop k n n s.rx_slot s m) hs hc (
        clean_loop_lem k mb n (mb.waiting m) n 0 s.rx_slot s m (omega arith) hs (start_place n s hs)
          h refl)

module _ {M : Type 0} (k : Kernel M) (mb : Mailbox k) (n : ℕ) where
  -- With a packet in every slot and at least as many messages waiting as there are slots, an inbound event gives one
  -- message for every slot to the network layer and puts nothing back: the first slot stays, every slot still has a packet,
  -- and the mailbox is short of one buffer for every slot.
  pub inb_msg_event_not_refilled :
      (s : Rx) (m : M)
      → s.rx_slot < n
      → IsFull n s
      → n ≤ mb.waiting m
      → let (s', m') = inb_msg_event k n s m in
        (s'.rx_slot ≡ s.rx_slot)
        × IsFull n s'
        × (given s' ≡ given s + n)
        × (mb.buffers m ≡ mb.buffers m' + n)
  unfolding inb_msg_event rx_clean
  inb_msg_event_not_refilled s m hs h hc =
      let r = clean_loop k n n s.rx_slot s m in
      let cl =
        clean_loop_lem k mb n (mb.waiting m) n 0 s.rx_slot s m (omega arith) hs (start_place n s hs)
          h refl in
      let all : (s.rx_slot + n) % n ≡ s.rx_slot =
        ground (arith, mod_cases n s.rx_slot n hs (omega arith)) in
      let least : 0 + min (mb.waiting m) n ≡ n = ground arith in
      let end : r.0 ≡ s.rx_slot = cl.place ∙ ap (λ (a : ℕ). (s.rx_slot + a) % n) least ∙ all in
      let t : (r.0 == r.1.rx_slot) ≡ true = let a = cl.slot in ground arith in
      subst
        (λ (o : Rx × M).
          (o.0.rx_slot ≡ s.rx_slot)
          × IsFull n o.0
          × (given o.0 ≡ given s + n)
          × (mb.buffers m ≡ mb.buffers o.1 + n))
        (sym (if-eq_false _ _ _ (ap not t)))
        (cl.slot, cl.full, (let a = cl.counted in ground arith), (let a = cl.taken in ground arith))
