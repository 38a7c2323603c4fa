-- ===== src/Rionet/Lifecycle.antt =====
-- Opening and closing the network device of rapidio/rionet.c, `rionet_open` and `rionet_close`. What is asked of the
-- RapidIO core, given back, sent and freed is a list, the last first.
use powerpc_i2c_temp.Prelude.{
  ℕ, zero, suc, if◌then◌else◌, Bool, true, false, Option, none, some, List, [], ◌∷◌, set,
}
use powerpc_i2c_temp.Prelude.Int.{ℤ, pos, ltb_ℤ}
use powerpc_i2c_temp.Rionet.{Net, is_active, doorbell_join, doorbell_leave}
use powerpc_i2c_temp.Rionet.Receive.{Kernel, Rx, rx_fill}

-- The doorbells and mailboxes, and the outbound doorbells of a peer by its identifier.
pub data Resource : Type 0 where
  inb_dbell inb_mbox outb_mbox : Resource
  outb_dbell : (destid : ℕ) → Resource

pub data Deed : Type 0 where
  requested released : Resource → Deed
  doorbell : (destid info : ℕ) → Deed
  freed_skb : (number : ℕ) → Deed

-- How the RapidIO core answers: the results of the first three requests, and whether a peer's doorbells are given.
pub record OpenAnswers : Type 0 where
  pub dbell_rc : ℤ
  pub inb_rc : ℤ
  pub outb_rc : ℤ
  pub dbells_given : ℕ → Bool

-- A peer is its identifier and whether it has `res`.
pub record Link (M : Type 0) : Type 0 where
  pub net : Net
  pub rx : Rx
  pub box : M
  pub carrier : Bool
  pub peers : List (ℕ × Bool)
  pub deeds : List Deed

-- The bodies of the loops over the peers, and the loops.
unfoldable pub join_one : OpenAnswers → ℕ × Bool → List Deed → (ℕ × Bool) × List Deed
join_one a p ds =
    if a.dbells_given p.0
    then ((p.0, true), doorbell p.0 doorbell_join ∷ requested (outb_dbell p.0) ∷ ds)
    else ((p.0, false), ds)

unfoldable pub join_peers : OpenAnswers → List (ℕ × Bool) → List Deed → List (ℕ × Bool) × List Deed
unfolding join_one
join_peers a [] ds = ([], ds)
join_peers a (p ∷ ps) ds =
    let (p', ds') = join_one a p ds in let (ps', ds'') = join_peers a ps ds' in (p' ∷ ps', ds'')

unfoldable pub leave_one : ℕ × Bool → Net → List Deed → Net × List Deed
leave_one p net ds =
    if is_active net.active p.0
    then (
      record net { active = set net.active p.0 false },
      released (outb_dbell p.0) ∷ doorbell p.0 doorbell_leave ∷ ds,
    )
    else (net, released (outb_dbell p.0) ∷ ds)

unfoldable pub leave_peers : List (ℕ × Bool) → Net → List Deed → Net × List Deed
unfolding leave_one
leave_peers [] net ds = (net, ds)
leave_peers (p ∷ ps) net ds = let (net', ds') = leave_one p net ds in leave_peers ps net' ds'

-- The packets of the slots from `i` on are freed.
unfoldable pub free_ring : (left i : ℕ) → (ℕ → Option (ℕ × ℕ)) → List Deed → List Deed
free_ring zero i ring ds = ds
free_ring (suc left) i ring ds =
    free_ring left (suc i) ring (elim (ring i) [ none ↦ ds | some x ↦ freed_skb x.0 ∷ ds ])

module _ {M : Type 0} (k : Kernel M) (n : ℕ) (a : OpenAnswers) where
  -- From the rings on.
  unfoldable pub start_link : Link M → Link M
  unfolding rx_fill join_peers
  start_link s =
      let (rx, box) =
        rx_fill k n 0 (record (s.rx) { rx_skb = λ (i : ℕ). none; rx_slot = 0 }) s.box in
      let (peers, deeds) = join_peers a s.peers s.deeds in
      record {
        net = record (s.net) { tx_slot = 0; tx_cnt = 0; ack_slot = 0; awake = true };
        rx = rx;
        box = box;
        carrier = true;
        peers = peers;
        deeds = deeds;
      }

  abbrev pub did : Deed → Link M → Link M
  did d s = record s { deeds = d ∷ s.deeds }

  unfoldable pub rionet_open : Link M → ℤ × Link M
  unfolding start_link
  rionet_open s =
      if ltb_ℤ a.dbell_rc (pos 0)
      then (a.dbell_rc, s)
      else (let s1 = did (requested inb_dbell) s in
          if ltb_ℤ a.inb_rc (pos 0)
          then (a.inb_rc, s1)
          else (let s2 = did (requested inb_mbox) s1 in
              if ltb_ℤ a.outb_rc (pos 0)
              then (a.outb_rc, s2)
              else (a.outb_rc, start_link (did (requested outb_mbox) s2))))

-- `nact` stays.
unfoldable pub rionet_close : {M : Type 0} → ℕ → Link M → ℤ × Link M
unfolding free_ring leave_peers
rionet_close n s =
    let (net, deeds) =
      leave_peers s.peers (record (s.net) { awake = false }) (free_ring n 0 s.rx.rx_skb s.deeds) in
    (
      pos 0,
      record s {
        net = net;
        carrier = false;
        deeds = released outb_mbox ∷ released inb_mbox ∷ released inb_dbell ∷ deeds;
      },
    )
