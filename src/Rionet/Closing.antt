-- ===== src/Rionet/Closing.antt =====
-- What rapidio/rionet.c gives back at the end of what it asked for at the start.
use powerpc_i2c_temp.Prelude.{
  ℕ, zero, suc, ◌+◌, ◌==◌, ◌≡◌, refl, ap, ◌∙◌, arith, if◌then◌else◌, Bool, true, false, Option,
  none, some, List, [], ◌∷◌,
}
use powerpc_i2c_temp.Prelude.Int.{ℤ, pos, ltb_ℤ}
use powerpc_i2c_temp.Rmu.Entries.{if-eq_true, if-eq_false}
use powerpc_i2c_temp.Rionet.{Net, is_active}
use powerpc_i2c_temp.Rionet.Receive.{Kernel}
use powerpc_i2c_temp.Rionet.Lifecycle.{
  Resource, inb_dbell, inb_mbox, outb_mbox, outb_dbell, Deed, requested, released, doorbell,
  freed_skb, OpenAnswers, Link, join_one, join_peers, leave_one, leave_peers, free_ring, start_link,
  did, rionet_open, rionet_close,
}

-- 1 when the two are the same, else 0.
abbrev pub same : Resource → Resource → ℕ
same inb_dbell inb_dbell = 1
same inb_mbox inb_mbox = 1
same outb_mbox outb_mbox = 1
same (outb_dbell d) (outb_dbell e) = if d == e then 1 else 0
same _ _ = 0

-- How often a resource was asked for with success, and how often given back.
abbrev pub requests : Resource → List Deed → ℕ
requests r [] = 0
requests r (requested q ∷ ds) = same r q + requests r ds
requests r (released q ∷ ds) = requests r ds
requests r (doorbell d i ∷ ds) = requests r ds
requests r (freed_skb x ∷ ds) = requests r ds

abbrev pub releases : Resource → List Deed → ℕ
releases r [] = 0
releases r (requested q ∷ ds) = releases r ds
releases r (released q ∷ ds) = same r q + releases r ds
releases r (doorbell d i ∷ ds) = releases r ds
releases r (freed_skb x ∷ ds) = releases r ds

abbrev among : Resource → List (ℕ × Bool) → ℕ
among r [] = 0
among r (p ∷ ps) = same r (outb_dbell p.0) + among r ps

-- Some more was asked for and given back.
abbrev Differ : Resource → List Deed → ℕ → ℕ → List Deed → Type 0
Differ r ds more less ds' =
    (requests r ds' ≡ requests r ds + more) × (releases r ds' ≡ releases r ds + less)

module _ (a : OpenAnswers) (given : (d : ℕ) → a.dbells_given d ≡ true) (r : Resource) where
  join_one_lem :
      (p : ℕ × Bool) (ds : List Deed)
      → join_one a p ds ≡ ((p.0, true), doorbell p.0 0x1000 ∷ requested (outb_dbell p.0) ∷ ds)
  unfolding join_one
  join_one_lem p ds = if-eq_true _ _ _ (given p.0)

  join_lem :
      (ps : List (ℕ × Bool)) (ds : List Deed)
      → (among r (join_peers a ps ds).0 ≡ among r ps)
        × Differ r ds (among r ps) 0 (join_peers a ps ds).1
  unfolding join_peers
  join_lem [] ds = (refl, (omega arith, omega arith))
  join_lem (p ∷ ps) ds =
      let (n, (q, l)) = join_lem ps (join_one a p ds).1 in
      let e = join_one_lem p ds in
      let id = ap (λ (x : (ℕ × Bool) × List Deed). same r (outb_dbell x.0.0)) e in
      let q' = ap (λ (x : (ℕ × Bool) × List Deed). requests r x.1) e in
      let l' = ap (λ (x : (ℕ × Bool) × List Deed). releases r x.1) e in
      (omega arith, (omega arith, omega arith))

module _ (r : Resource) where
  Differ-if :
      (t : Bool) (x y : Net × List Deed) (ds : List Deed) (c : ℕ)
      → Differ r ds 0 c x.1
      → Differ r ds 0 c y.1
      → Differ r ds 0 c (if t then x else y).1
  Differ-if true x y ds c hx hy = hx
  Differ-if false x y ds c hx hy = hy

  leave_one_lem :
      (p : ℕ × Bool) (net : Net) (ds : List Deed)
      → Differ r ds 0 (same r (outb_dbell p.0)) (leave_one p net ds).1
  unfolding leave_one
  leave_one_lem p net ds =
      Differ-if (is_active net.active p.0) _ _ ds _ (omega arith, omega arith)
        (omega arith, omega arith)

  leave_lem :
      (ps : List (ℕ × Bool)) (net : Net) (ds : List Deed)
      → Differ r ds 0 (among r ps) (leave_peers ps net ds).1
  unfolding leave_peers
  leave_lem [] net ds = (omega arith, omega arith)
  leave_lem (p ∷ ps) net ds =
      let (q, l) = leave_one_lem p net ds in
      let (q', l') = leave_lem ps (leave_one p net ds).0 (leave_one p net ds).1 in
      (omega arith, omega arith)

  one_freed :
      (o : Option (ℕ × ℕ)) (ds : List Deed)
      → Differ r ds 0 0 (elim o [ none ↦ ds | some x ↦ freed_skb x.0 ∷ ds ])
  one_freed none ds = (omega arith, omega arith)
  one_freed (some x) ds = (omega arith, omega arith)

  free_lem :
      (left i : ℕ) (ring : ℕ → Option (ℕ × ℕ)) (ds : List Deed)
      → Differ r ds 0 0 (free_ring left i ring ds)
  unfolding free_ring
  free_lem zero i ring ds = (omega arith, omega arith)
  free_lem (suc left) i ring ds =
      let (q, l) = one_freed (ring i) ds in
      let (q', l') =
        free_lem left (suc i) ring (elim (ring i) [ none ↦ ds | some x ↦ freed_skb x.0 ∷ ds ]) in
      (omega arith, omega arith)

-- How often a running device holds a resource.
abbrev pub held : Resource → List (ℕ × Bool) → ℕ
held r ps = same r inb_dbell + same r inb_mbox + same r outb_mbox + among r ps

module _ {M : Type 0} (k : Kernel M) (n : ℕ) (a : OpenAnswers) (r : Resource) where
  close_lem : (s : Link M) → Differ r s.deeds 0 (held r s.peers) (rionet_close n s).1.deeds
  unfolding rionet_close
  close_lem s =
      let ds = free_ring n 0 s.rx.rx_skb s.deeds in
      let (q, l) = free_lem r n 0 s.rx.rx_skb s.deeds in
      let (q', l') = leave_lem r s.peers (record (s.net) { awake = false }) ds in
      (omega arith, omega arith)

  start_lem :
      (s : Link M)
      → ((d : ℕ) → a.dbells_given d ≡ true)
      → (among r (start_link k n a s).peers ≡ among r s.peers)
        × Differ r s.deeds (among r s.peers) 0 (start_link k n a s).deeds
  unfolding start_link
  start_lem s g = join_lem a g r s.peers s.deeds

  -- When the RapidIO core grants the requests for the doorbells, the mailboxes and the doorbells of every peer, opening the
  -- device and then closing it asks for each of them once, and gives each of them back as often.
  pub rionet_close-rionet_open :
      (s : Link M)
      → ltb_ℤ a.dbell_rc (pos 0) ≡ false
      → ltb_ℤ a.inb_rc (pos 0) ≡ false
      → ltb_ℤ a.outb_rc (pos 0) ≡ false
      → ((d : ℕ) → a.dbells_given d ≡ true)
      → let s' = (rionet_close n (rionet_open k n a s).1).1 in
        let c = held r s.peers in
        (requests r s'.deeds ≡ requests r s.deeds + c)
        × (releases r s'.deeds ≡ releases r s.deeds + c)
  unfolding rionet_open
  rionet_close-rionet_open s d i o g =
      let t =
        did k n a (requested outb_mbox)
          (did k n a (requested inb_mbox) (did k n a (requested inb_dbell) s)) in
      let opened : rionet_open k n a s ≡ (a.outb_rc, start_link k n a t) =
        if-eq_false _ _ _ d ∙ if-eq_false _ _ _ i ∙ if-eq_false _ _ _ o in
      let (same_peers, (q, l)) = start_lem t g in
      let s1 = (rionet_open k n a s).1 in
      let e = ap (λ (x : ℤ × Link M). requests r x.1.deeds) opened in
      let f = ap (λ (x : ℤ × Link M). releases r x.1.deeds) opened in
      let h = ap (λ (x : ℤ × Link M). among r x.1.peers) opened in
      let (q', l') = close_lem s1 in
      (omega (arith, q', e, q), omega (arith, l', f, l, h, same_peers))
