-- ===== src/Rionet/Clean.antt =====
-- What the loop of `rionet_rx_clean` of rapidio/rionet.c takes out of the mailbox.
use mathlib.Core.Path.{subst}
use powerpc_i2c_temp.Prelude.{
  ℕ, zero, suc, ◌+◌, ◌-◌, ◌%◌, ◌<◌, min, ◌==◌, ◌≡◌, refl, sym, ap, ◌∙◌, arith, if◌then◌else◌, Bool,
  true, false, none, some,
}
use powerpc_i2c_temp.Rionet.Receive.{
  Kernel, Rx, put_skb, count_dropped, count_packet, receive, clean_one, clean_loop,
}
use powerpc_i2c_temp.Rionet.Mailbox.{
  Mailbox, IsFull, given, put-IsFull, next_place, in_ring, back, min-suc,
}

module _ {M : Type 0} (k : Kernel M) (mb : Mailbox k) (n : ℕ) where
  -- One packet given to the network layer.
  pub record Received (s s' : Rx) (m m' : M) : Type 0 where
    pub slot : s'.rx_slot ≡ s.rx_slot
    pub full : IsFull n s'
    counted : given s' ≡ given s + 1
    pub rest : mb.waiting m' ≡ mb.waiting m
    same : mb.buffers m' ≡ mb.buffers m

  pub receive_lem :
      (i : ℕ) (x : ℕ × ℕ) (b : ℕ) (s : Rx) (m : M)
      → IsFull n s
      → Received s (receive k n i x b s m).0 m (receive k n i x b s m).1
  unfolding receive
  receive_lem i x b s m h =
      elim (k.netif_rx x.0 b m).0
        as (λ (d : Bool).
          Received s
            (if d
              then count_dropped (put_skb i (some (x.0, b)) s)
              else count_packet (put_skb i (some (x.0, b)) s))
            m (k.netif_rx x.0 b m).1) [
              | true ↦ record {
                slot = refl;
                full = put-IsFull n i (x.0, b) s h;
                counted = omega arith;
                rest = (mb.passed x.0 b m).0;
                same = (mb.passed x.0 b m).1;
              }
              | false ↦ record {
                slot = refl;
                full = put-IsFull n i (x.0, b) s h;
                counted = omega arith;
                rest = (mb.passed x.0 b m).0;
                same = (mb.passed x.0 b m).1;
              }
            ]

  pub stops :
      (i : ℕ) (s : Rx) (m : M)
      → i < n
      → IsFull n s
      → (k.get_inb_message m).0 ≡ none
      → clean_one k n i s m ≡ (false, s, (k.get_inb_message m).1)
  unfolding clean_one
  stops i s m hi h e = let (x, p) = h i hi in rw (clean_one, p, e)

  pub goes :
      (i : ℕ) (s : Rx) (m : M) (x : ℕ × ℕ) (b : ℕ)
      → s.rx_skb i ≡ some x
      → (k.get_inb_message m).0 ≡ some b
      → let r = receive k n i x b s (k.get_inb_message m).1 in
        clean_one k n i s m ≡ (true, r.0, r.1)
  unfolding clean_one
  goes i s m x b p e = rw (clean_one, p, e)

  -- What the loop reaches when `c` messages are waiting and `left` slots are left, the first of them `j` after the start.
  pub record Cleaned (c left j : ℕ) (s : Rx) (m : M) (end : ℕ) (s' : Rx) (m' : M) : Type 0 where
    pub place : end ≡ (s.rx_slot + (j + min c left)) % n
    pub slot : s'.rx_slot ≡ s.rx_slot
    pub full : IsFull n s'
    pub counted : given s' ≡ given s + min c left
    pub rest : mb.waiting m' ≡ c - min c left
    pub taken : mb.buffers m ≡ mb.buffers m' + min c left

  abbrev pub CleanedAll : ℕ → ℕ → ℕ → Rx → M → ℕ × Rx × M → Type 0
  CleanedAll c left j s m r = Cleaned c left j s m r.0 r.1 r.2

  -- One more message before the rest of the loop.
  one_more :
      (c left j end : ℕ) (s s' s'' : Rx) (m m1 m' m'' : M)
      → mb.buffers m ≡ suc (mb.buffers m1)
      → Received s s' m1 m'
      → Cleaned c left (suc j) s' m' end s'' m''
      → Cleaned (suc c) (suc left) j s m end s'' m''
  one_more c left j end s s' s'' m m1 m' m'' e r cl =
      let least = min-suc c left in
      record {
        place = cl.place ∙ ap (λ (t : ℕ). t % n) (let a = r.slot in ground arith);
        slot = cl.slot ∙ r.slot;
        full = cl.full;
        counted = let a = cl.counted in let b = r.counted in ground arith;
        rest = let a = cl.rest in ground arith;
        taken = let a = cl.taken in let b = r.same in ground arith;
      }

  pub loop_stops :
      (left i : ℕ) (s s' : Rx) (m m' : M)
      → clean_one k n i s m ≡ (false, s', m')
      → clean_loop k n (suc left) i s m ≡ (i, s', m')
  unfolding clean_loop
  loop_stops left i s s' m m' e = rw (clean_loop, e)

  last :
      (left next : ℕ) (t : Bool) (s : Rx) (m : M)
      → (t ≡ true → left ≡ 0)
      → (if t then (next, s, m) else clean_loop k n left next s m) ≡ clean_loop k n left next s m
  unfolding clean_loop
  last zero next true s m h = refl
  last zero next false s m h = refl
  last (suc left) next true s m h = let e = h refl in ground arith
  last (suc left) next false s m h = refl

  pub loop_goes :
      (left i : ℕ) (s s' : Rx) (m m' : M)
      → clean_one k n i s m ≡ (true, s', m')
      → (((i + 1) % n == s'.rx_slot) ≡ true → left ≡ 0)
      → clean_loop k n (suc left) i s m ≡ clean_loop k n left ((i + 1) % n) s' m'
  unfolding clean_loop
  loop_goes left i s s' m m' e h =
      rw (clean_loop, e, last left ((i + 1) % n) ((i + 1) % n == s'.rx_slot) s' m' h)

  pub clean_loop_lem :
      (c left j i : ℕ) (s : Rx) (m : M)
      → j + left ≡ n
      → s.rx_slot < n
      → i ≡ (s.rx_slot + j) % n
      → IsFull n s
      → mb.waiting m ≡ c
      → CleanedAll c left j s m (clean_loop k n left i s m)
  unfolding clean_loop
  clean_loop_lem c zero j i s m hj hs hi h w = record {
    place = hi ∙ ap (λ (t : ℕ). t % n) (ground arith);
    slot = refl;
    full = h;
    counted = ground arith;
    rest = ground arith;
    taken = ground arith;
  }
  clean_loop_lem zero (suc left) j i s m hj hs hi h w =
      let (e, w', b) = mb.get_none m w in
      let at : i < n = in_ring n (s.rx_slot + j) i (omega arith) hi in
      subst (CleanedAll zero (suc left) j s m)
        (sym (loop_stops left i s s m (k.get_inb_message m).1 (stops i s m at h e)))
        (record {
          place = hi ∙ ap (λ (t : ℕ). t % n) (ground arith);
          slot = refl;
          full = h;
          counted = ground arith;
          rest = ground arith;
          taken = ground arith;
        })
  clean_loop_lem (suc c) (suc left) j i s m hj hs hi h w =
      let at : i < n = in_ring n (s.rx_slot + j) i (omega arith) hi in
      let (x, p) = h i at in
      let (b, e, w', f) = mb.get_some m c w in
      let m1 = (k.get_inb_message m).1 in
      let r = receive k n i x b s m1 in
      let got = receive_lem i x b s m1 h in
      let end = λ (t : ((i + 1) % n == r.0.rx_slot) ≡ true).
        back n s.rx_slot j i left hs (omega arith) hi
          (sym (ap (λ (a : ℕ). (i + 1) % n == a) got.slot) ∙ t) in
      let rest =
        clean_loop_lem c left (suc j) ((i + 1) % n) r.0 r.1 (omega arith)
          (let a = got.slot in omega arith)
          (next_place n s.rx_slot j i hi ∙ ap (λ (t : ℕ). (t + suc j) % n) (sym got.slot)) got.full
          (got.rest ∙ w') in
      subst (CleanedAll (suc c) (suc left) j s m)
        (sym (loop_goes left i s r.0 m r.1 (goes i s m x b p e) end))
        (one_more c left j _ s r.0 _ m m1 r.1 _ f got rest)
