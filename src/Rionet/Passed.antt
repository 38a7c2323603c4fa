-- ===== src/Rionet/Passed.antt =====
-- Which packets `rionet_rx_clean` of rapidio/rionet.c gives to the network layer.
use mathlib.Core.Path.{subst}
use mathlib.Core.List.{append_assoc, append-nil}
use powerpc_i2c_temp.Prelude.{
  ℕ, zero, suc, ◌+◌, ◌%◌, ◌≤◌, ◌<◌, ◌==◌, ◌≡◌, refl, sym, ap, ◌∙◌, arith, if◌then◌else◌, Bool,
  Bool-cases, inl, inr, true, false, some, List, [], ◌∷◌, ◌++◌, length,
}
use powerpc_i2c_temp.Rionet.Receive.{
  Kernel, Rx, put_skb, count_dropped, count_packet, receive, clean_loop,
}
use powerpc_i2c_temp.Rionet.Mailbox.{Mailbox, IsFull, next_place, in_ring, back}
use powerpc_i2c_temp.Rionet.Clean.{receive_lem, stops, goes, loop_stops, loop_goes}
use powerpc_i2c_temp.Rionet.Watched.{Watched, watched, watched-Mailbox, number_of, Numbered}

-- Every slot has the packet that it had.
abbrev pub SameNumbers : Rx → Rx → Type 0
SameNumbers s s' = (o : ℕ) → number_of (s'.rx_skb o) ≡ number_of (s.rx_skb o)

Numbered-same :
    (n : ℕ) (s s' : Rx) (a : ℕ) (xs : List ℕ)
    → SameNumbers s s'
    → Numbered n s'.rx_skb a xs
    → Numbered n s.rx_skb a xs
Numbered-same n s s' a [] same h = tt
Numbered-same n s s' a (x ∷ xs) same (one, rest) =
    (sym (same (a % n)) ∙ one, Numbered-same n s s' (suc a) xs same rest)

-- A message for the packet of a slot leaves it there.
put-SameNumbers :
    (i : ℕ) (x : ℕ × ℕ) (b : ℕ) (s : Rx)
    → s.rx_skb i ≡ some x
    → SameNumbers s (put_skb i (some (x.0, b)) s)
put-SameNumbers i x b s p o = elim (Bool-cases (o == i)) [
  | inl t ↦ let at : o ≡ i = ground arith in rw t (sym (ap number_of (ap s.rx_skb at ∙ p)))
  | inr f ↦ rw f
]

module _ {M : Type 0} (k : Kernel M) (mb : Mailbox k) (n : ℕ) where
  receive-SameNumbers :
      (i : ℕ) (x : ℕ × ℕ) (b : ℕ) (s : Rx) (w : Watched M)
      → s.rx_skb i ≡ some x
      → SameNumbers s (receive (watched k) n i x b s w).0
  unfolding receive
  receive-SameNumbers i x b s w p =
      elim (k.netif_rx x.0 b w.state).0
        as (λ (d : Bool). SameNumbers s (
          if d
          then count_dropped (put_skb i (some (x.0, b)) s)
          else count_packet (put_skb i (some (x.0, b)) s))) [
            | true ↦ put-SameNumbers i x b s p
            | false ↦ put-SameNumbers i x b s p
          ]

  -- The packets of `c` slots were given to the network layer, in order, from the one at `a` on.
  pub record Passed (c a : ℕ) (s : Rx) (w : Watched M) (r : ℕ × Rx × Watched M) : Type 0 where
    pub numbers : List ℕ
    pub many : length numbers ≡ c
    pub named : Numbered n s.rx_skb a numbers
    pub handed : r.2.handed ≡ w.handed ++ numbers
    pub same : SameNumbers s r.1
    pub fresh : r.2.fresh ≡ w.fresh
    pub supplied : r.2.supplied ≡ w.supplied

  Passed-none :
      (a i : ℕ) (s : Rx) (w w' : Watched M)
      → w'.handed ≡ w.handed
      → w'.fresh ≡ w.fresh
      → w'.supplied ≡ w.supplied
      → Passed 0 a s w (i, s, w')
  Passed-none a i s w w' h f p = record {
    numbers = [];
    many = refl;
    named = tt;
    handed = h ∙ sym (append-nil w.handed);
    same = λ o. refl;
    fresh = f;
    supplied = p;
  }

  abbrev got : Watched M → Watched M
  got w = ((watched k).get_inb_message w).1

  Passed-cons :
      (c a i : ℕ) (x : ℕ × ℕ) (b : ℕ) (s : Rx) (w : Watched M) (r : ℕ × Rx × Watched M)
      → s.rx_skb i ≡ some x
      → i ≡ a % n
      → let o = receive (watched k) n i x b s (got w) in
        Passed c (suc a) o.0 o.1 r → Passed (suc c) a s w r
  unfolding receive
  Passed-cons c a i x b s w r p hi f =
      let same = receive-SameNumbers i x b s (got w) p in
      record {
        numbers = x.0 ∷ f.numbers;
        many = ap suc f.many;
        named = (
          ap (λ (o : ℕ). number_of (s.rx_skb o)) (sym hi) ∙ ap number_of p,
          Numbered-same n s (receive (watched k) n i x b s (got w)).0 (suc a) f.numbers same
              f.named,
        );
        handed = f.handed ∙ append_assoc w.handed (x.0 ∷ []) f.numbers;
        same = λ o. f.same o ∙ same o;
        fresh = f.fresh;
        supplied = f.supplied;
      }

  pub clean_loop-Passed :
      (c left j i : ℕ) (s : Rx) (w : Watched M)
      → c ≤ left
      → j + left ≡ n
      → s.rx_slot < n
      → i ≡ (s.rx_slot + j) % n
      → IsFull n s
      → mb.waiting w.state ≡ c
      → Passed c (s.rx_slot + j) s w (clean_loop (watched k) n left i s w)
  unfolding clean_loop
  clean_loop-Passed zero zero j i s w hc hj hs hi h e =
      Passed-none (s.rx_slot + j) i s w w refl refl refl
  clean_loop-Passed (suc c) zero j i s w hc hj hs hi h e = ground arith
  clean_loop-Passed zero (suc left) j i s w hc hj hs hi h e =
      let kw = watched k in
      let mbw = watched-Mailbox k mb in
      let at : i < n = in_ring n (s.rx_slot + j) i (omega arith) hi in
      subst (Passed zero (s.rx_slot + j) s w)
        (sym (
          loop_stops kw mbw n left i s s w (got w)
            (stops kw mbw n i s w at h (mb.get_none w.state e).0)))
        (Passed-none (s.rx_slot + j) i s w (got w) refl refl refl)
  clean_loop-Passed (suc c) (suc left) j i s w hc hj hs hi h e =
      let kw = watched k in
      let mbw = watched-Mailbox k mb in
      let at : i < n = in_ring n (s.rx_slot + j) i (omega arith) hi in
      let (x, p) = h i at in
      let (b, f, fewer, taken) = mb.get_some w.state c e in
      let r = receive kw n i x b s (got w) in
      let one = receive_lem kw mbw n i x b s (got w) h in
      let end = λ (t : ((i + 1) % n == r.0.rx_slot) ≡ true).
        back n s.rx_slot j i left hs (omega arith) hi
          (sym (ap (λ (a : ℕ). (i + 1) % n == a) one.slot) ∙ t) in
      let rest =
        clean_loop-Passed c left (suc j) ((i + 1) % n) r.0 r.1 (omega arith) (omega arith)
          (let a = one.slot in omega arith)
          (next_place n s.rx_slot j i hi ∙ ap (λ (t : ℕ). (t + suc j) % n) (sym one.slot)) one.full
          (one.rest ∙ fewer) in
      let from : r.0.rx_slot + suc j ≡ suc (s.rx_slot + j) = let a = one.slot in omega arith in
      subst (Passed (suc c) (s.rx_slot + j) s w)
        (sym (loop_goes kw mbw n left i s r.0 w r.1 (goes kw mbw n i s w x b p f) end))
        (Passed-cons c (s.rx_slot + j) i x b s w (clean_loop kw n left ((i + 1) % n) r.0 r.1) p hi (
          subst (λ (a : ℕ). Passed c a r.0 r.1 (clean_loop kw n left ((i + 1) % n) r.0 r.1)) from
            rest))
