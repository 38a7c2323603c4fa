-- ===== src/Rionet/Stored.antt =====
-- Which packets `rionet_rx_fill` of rapidio/rionet.c puts into the ring.
use mathlib.Core.Path.{subst}
use mathlib.Core.List.{append_assoc, append-nil}
use powerpc_i2c_temp.Prelude.{
  ℕ, zero, suc, ◌+◌, ◌%◌, ◌≤◌, ◌<◌, ◌==◌, ◌≡◌, ◌≢◌, ◌⊎◌, inl, refl, sym, ap, ◌∙◌, arith, true,
  false, some, List, [], ◌∷◌, ◌++◌, length,
}
use powerpc_i2c_temp.Rmu.Entries.{mod_cases, if-eq_true, if-eq_false}
use powerpc_i2c_temp.Rionet.Receive.{Kernel, Rx, put_skb, fill_loop}
use powerpc_i2c_temp.Rionet.Mailbox.{Mailbox, next_place}
use powerpc_i2c_temp.Rionet.Refill.{at_end, fill_goes}
use powerpc_i2c_temp.Rionet.Watched.{Watched, watched, watched-Mailbox, made_one, Holds, addresses}

-- Two places of the ring.
apart :
    (n slot o j : ℕ) → slot < n → o < n → j < n → o ≢ j → ((slot + o) % n == (slot + j) % n) ≡ false
apart n slot o j hs ho hj ne =
    ground (arith, mod_cases n slot o hs (omega arith), mod_cases n slot j hs (omega arith))

module _ {M : Type 0} (k : Kernel M) (mb : Mailbox k) (n : ℕ)
    (plenty : (m : M) → (x : ℕ × ℕ) × ((k.dev_alloc_skb m).0 ≡ some x)) where
  -- `d` new packets, in the slots from `j` after the first on; the others are as they were.
  pub record Stored (d j slot : ℕ) (s : Rx) (w : Watched M) (r : ℕ × Rx × Watched M) : Type 0 where
    pub packets : List (ℕ × ℕ)
    pub many : length packets ≡ d
    pub held : Holds n r.1.rx_skb (slot + j) packets
    pub kept :
        (o : ℕ)
        → o < n
        → (o < j) ⊎ (j + d ≤ o)
        → r.1.rx_skb ((slot + o) % n) ≡ s.rx_skb ((slot + o) % n)
    pub fresh : r.2.fresh ≡ w.fresh ++ packets
    pub supplied : r.2.supplied ≡ w.supplied ++ addresses packets
    pub handed : r.2.handed ≡ w.handed

  pub Stored-none : (j slot i : ℕ) (s : Rx) (w : Watched M) → Stored 0 j slot s w (i, s, w)
  Stored-none j slot i s w = record {
    packets = [];
    many = refl;
    held = tt;
    kept = λ o h side. refl;
    fresh = sym (append-nil w.fresh);
    supplied = sym (append-nil w.supplied);
    handed = refl;
  }

  abbrev put_back : ℕ × ℕ → Watched M → Watched M
  put_back x w = (watched k).add_inb_buffer x.1 ((watched k).dev_alloc_skb w).1

  Stored-cons :
      (d j slot i : ℕ) (x : ℕ × ℕ) (s : Rx) (w : Watched M) (r : ℕ × Rx × Watched M)
      → (k.dev_alloc_skb w.state).0 ≡ some x
      → slot < n
      → j < n
      → i ≡ (slot + j) % n
      → Stored d (suc j) slot (put_skb i (some x) s) (put_back x w) r
      → Stored (suc d) j slot s w r
  Stored-cons d j slot i x s w r e hs hj hi f =
      let here : ((slot + j) % n == i) ≡ true = ground arith in
      record {
        packets = x ∷ f.packets;
        many = ap suc f.many;
        held = (
          f.kept j hj (inl (omega arith)) ∙ if-eq_true _ _ _ here,
          subst (λ (a : ℕ). Holds n r.1.rx_skb a f.packets) (omega arith) f.held,
        );
        kept = λ o ho side.
            let other : ((slot + o) % n == i) ≡ false =
              ap (λ (a : ℕ). (slot + o) % n == a) hi
              ∙ apart n slot o j hs ho hj (λ q. ground arith) in
            f.kept o ho (ground arith) ∙ if-eq_false _ _ _ other;
        fresh =
            f.fresh
            ∙ ap (λ o. (w.fresh ++ made_one o) ++ f.packets) e
            ∙ append_assoc w.fresh (x ∷ []) f.packets;
        supplied = f.supplied ∙ append_assoc w.supplied (x.1 ∷ []) (addresses f.packets);
        handed = f.handed;
      }

  pub fill_loop-Stored :
      (d left j i end slot : ℕ) (s : Rx) (w : Watched M)
      → d ≤ left
      → j + suc d < n
      → slot < n
      → i ≡ (slot + j) % n
      → end ≡ (slot + (j + suc d)) % n
      → Stored (suc d) j slot s w (fill_loop (watched k) n (suc left) end i s w)
  fill_loop-Stored zero left j i end slot s w hd hj hs hi he =
      let (x, e) = plenty w.state in
      let t = ap (λ (a : ℕ). (i + 1) % n == a) he ∙ at_end n slot j zero i hs hj hi in
      let goes =
        fill_goes (watched k) (watched-Mailbox k mb) n (λ v. plenty v.state) left end i s w x e in
      subst (Stored 1 j slot s w) (sym (goes ∙ if-eq_true _ _ _ t)) (
        Stored-cons zero j slot i x s w _ e hs (omega arith) hi
          (Stored-none (suc j) slot ((i + 1) % n) (put_skb i (some x) s) (put_back x w)))
  fill_loop-Stored (suc d) zero j i end slot s w hd hj hs hi he = ground arith
  fill_loop-Stored (suc d) (suc left) j i end slot s w hd hj hs hi he =
      let (x, e) = plenty w.state in
      let t = ap (λ (a : ℕ). (i + 1) % n == a) he ∙ at_end n slot j (suc d) i hs hj hi in
      let more : (suc d == 0) ≡ false = ground arith in
      let goes =
        fill_goes (watched k) (watched-Mailbox k mb) n (λ v. plenty v.state) (suc left) end i s w x
          e in
      let rest =
        fill_loop-Stored d left (suc j) ((i + 1) % n) end slot (put_skb i (some x) s) (put_back x w)
          (omega arith) (omega arith) hs (next_place n slot j i hi)
          (he ∙ ap (λ (a : ℕ). a % n) (omega arith)) in
      subst (Stored (suc (suc d)) j slot s w) (sym (goes ∙ if-eq_false _ _ _ (t ∙ more)))
        (Stored-cons (suc d) j slot i x s w _ e hs (omega arith) hi rest)
