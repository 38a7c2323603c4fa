-- ===== src/Rionet/Receive.antt =====
-- The receive side of rapidio/rionet.c, `rionet_rx_clean`, `rionet_rx_fill` and `rionet_inb_msg_event`. The network layer,
-- the allocation of packets and the mailbox of the RapidIO core are a state of type `M` and functions on it; the size of
-- the ring is `n`, from the configuration.
use powerpc_i2c_temp.Prelude.{
  ℕ, zero, suc, ◌+◌, ◌%◌, ◌==◌, if◌then◌else◌, not, Bool, true, false, Option, none, some,
}

-- `rx_dropped` tells that `netif_rx` dropped the packet; a packet is its number and the address of its data.
pub record Kernel (M : Type 0) : Type 0 where
  pub get_inb_message : M → Option ℕ × M
  pub add_inb_buffer : (bytes : ℕ) → M → M
  pub dev_alloc_skb : M → Option (ℕ × ℕ) × M
  pub netif_rx : (skb bytes : ℕ) → M → Bool × M

pub record Rx : Type 0 where
  pub rx_skb : ℕ → Option (ℕ × ℕ)
  pub rx_slot : ℕ
  pub rx_packets : ℕ
  pub rx_dropped : ℕ
  pub rx_bytes : ℕ

abbrev rio_max_msg_size : ℕ
rio_max_msg_size = 0x1000

-- A write into the ring.
abbrev pub put_skb : ℕ → Option (ℕ × ℕ) → Rx → Rx
put_skb i skb s = record s { rx_skb = λ (slot : ℕ). if slot == i then skb else s.rx_skb slot }

abbrev pub count_dropped : Rx → Rx
count_dropped s = record s { rx_dropped = s.rx_dropped + 1 }

abbrev pub count_packet : Rx → Rx
count_packet s = record s {
  rx_packets = s.rx_packets + 1;
  rx_bytes = s.rx_bytes + rio_max_msg_size;
}

module _ {M : Type 0} (k : Kernel M) (n : ℕ) where
  -- A message for the packet of slot `i`. The packet stays in its slot.
  unfoldable pub receive : (i : ℕ) → ℕ × ℕ → (bytes : ℕ) → Rx → M → Rx × M
  receive i skb bytes s m =
      let s' = put_skb i (some (skb.0, bytes)) s in
      let (drop, m') = k.netif_rx skb.0 bytes m in
      ((if drop then count_dropped s' else count_packet s'), m')

  -- The body of the loop of `rionet_rx_clean`; false for its `break`.
  unfoldable pub clean_one : (i : ℕ) → Rx → M → Bool × Rx × M
  unfolding receive
  clean_one i s m = elim (s.rx_skb i) [
    | none ↦ (true, s, m)
    | some skb ↦
        let (message, m') = k.get_inb_message m in
        elim message [
          | none ↦ (false, s, m')
          | some bytes ↦ let (s'', m'') = receive i skb bytes s m' in (true, s'', m'')
        ]
  ]

  -- The loop, at most once for each slot.
  unfoldable pub clean_loop : (left i : ℕ) → Rx → M → ℕ × Rx × M
  unfolding clean_one
  clean_loop zero i s m = (i, s, m)
  clean_loop (suc left) i s m =
      let (go, s', m') = clean_one i s m in
      let next = (i + 1) % n in
      let rest = clean_loop left next s' m' in
      if not go then (i, s', m') else (if next == s'.rx_slot then (next, s', m') else rest)

  unfoldable pub rx_clean : Rx → M → ℕ × Rx × M
  unfolding clean_loop
  rx_clean s m = clean_loop n s.rx_slot s m

  -- The body of the loop of `rionet_rx_fill`, with false for its `break`, and the loop.
  unfoldable pub fill_one : (i : ℕ) → Rx → M → Bool × Rx × M
  fill_one i s m =
      let (skb, m') = k.dev_alloc_skb m in
      elim skb [
        | none ↦ (false, put_skb i none s, m')
        | some x ↦ (true, put_skb i (some x) s, k.add_inb_buffer x.1 m')
      ]

  unfoldable pub fill_loop : (left end i : ℕ) → Rx → M → ℕ × Rx × M
  unfolding fill_one
  fill_loop zero end i s m = (i, s, m)
  fill_loop (suc left) end i s m =
      let (go, s', m') = fill_one i s m in
      let next = (i + 1) % n in
      let rest = fill_loop left end next s' m' in
      if not go then (i, s', m') else (if next == end then (next, s', m') else rest)

  unfoldable pub rx_fill : (end : ℕ) → Rx → M → Rx × M
  unfolding fill_loop
  rx_fill end s m =
      let (i, s', m') = fill_loop n end s.rx_slot s m in (record s' { rx_slot = i }, m')

  -- `rionet_inb_msg_event`.
  unfoldable pub inb_msg_event : Rx → M → Rx × M
  unfolding rx_clean rx_fill
  inb_msg_event s m =
      let (end, s', m') = rx_clean s m in
      if not (end == s'.rx_slot) then rx_fill end s' m' else (s', m')
