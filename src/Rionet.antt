-- ===== src/Rionet.antt =====
-- The transmit side of the network driver over RapidIO, rapidio/rionet.c: the ring of queued packets, the table of
-- active peers, and the events that change them; the receive side is `Receive`. The size of the ring is `2 ^ w`, from
-- the configuration. Each function is one step: the two locks are not modelled.
pub mod Peers
pub mod Ring
pub mod Receive
pub mod Mailbox
pub mod Clean
pub mod Refill
pub mod Watched
pub mod Stored
pub mod Passed
pub mod Delivered
pub mod Lifecycle
pub mod Closing
use powerpc_i2c_temp.Prelude.{
  ℕ, zero, suc, ◌+◌, ◌-◌, ◌^◌, ltb, leb, ◌==◌, bit_and, if◌then◌else◌, not, ◌&&◌, Bool, true, false,
  Option, none, some, List, [], ◌∷◌, ◌++◌, get_or, set,
}
use powerpc_i2c_temp.Prelude.Int.{ℤ, pos, negsuc, ◌+ℤ◌, ltb_ℤ}

-- A packet, `struct sk_buff`: its number and length, and what the driver reads of its header.
pub record Skb : Type 0 where
  pub number : ℕ
  pub len : ℕ
  pub multicast : Bool
  pub mac_match : Bool
  pub destid : ℕ

-- `struct rionet_private` and the globals `rionet_active` and `nact`, as far as transmission uses them, with the
-- statistics, the state of the queue of the network layer, and what was handed out: the messages in
-- order, the references taken, and the packets freed.
pub record Net : Type 0 where
  pub tx_skb : ℕ → Option Skb
  pub tx_slot : ℕ
  pub tx_cnt : ℕ
  pub ack_slot : ℕ
  pub active : List Bool
  pub nact : ℤ
  pub awake : Bool
  pub tx_packets : ℕ
  pub tx_bytes : ℕ
  pub sent : List (ℕ × ℕ)
  pub taken : List ℕ
  pub freed : List ℕ

-- A write into the ring of packets.
abbrev pub update : (ℕ → Option Skb) → ℕ → Option Skb → ℕ → Option Skb
update ring slot v i = if i == slot then v else ring i

-- The next slot: `++slot; slot &= size - 1`.
abbrev pub advance : ℕ → ℕ → ℕ
advance w slot = bit_and (slot + 1) (2 ^ w - 1)

abbrev pub count_active : List Bool → ℕ
count_active [] = 0
count_active (true ∷ active) = suc (count_active active)
count_active (false ∷ active) = count_active active

-- `rionet_active[i]`.
abbrev pub is_active : List Bool → ℕ → Bool
is_active active i = get_or active i false

abbrev pub numbers_of : Option Skb → List ℕ
numbers_of none = []
numbers_of (some skb) = skb.number ∷ []

-- The three answers of the transmission.
pub data Xmit : Type 0 where
  tx_ok tx_busy tx_locked : Xmit

-- One reference for every message after the first.
abbrev pub take : ℕ → Skb → Net → Net
take zero skb s = s
take (suc count) skb s = record s { taken = s.taken ++ skb.number ∷ [] }

module _ (w : ℕ) where
  unfoldable pub queue_tx_msg : Skb → ℕ → Net → Net
  queue_tx_msg skb dest s = record s {
    sent = s.sent ++ (skb.number, dest) ∷ [];
    tx_skb = update s.tx_skb s.tx_slot (some skb);
    tx_packets = s.tx_packets + 1;
    tx_bytes = s.tx_bytes + skb.len;
    tx_cnt = s.tx_cnt + 1;
    awake = if s.tx_cnt + 1 == 2 ^ w then false else s.awake;
    tx_slot = advance w s.tx_slot;
  }

  -- The loop over the table from entry `i` on, after `count` messages.
  unfoldable pub send_all : Skb → ℕ → ℕ → List Bool → Net → Net
  send_all skb count i [] s = s
  send_all skb count i (false ∷ active) s = send_all skb count (suc i) active s
  send_all skb count i (true ∷ active) s =
      send_all skb (suc count) (suc i) active (take count skb (queue_tx_msg skb i s))

  -- What is sent once there is room.
  unfoldable pub send : Skb → Net → Net
  send skb s =
      if skb.multicast
      then send_all skb 0 0 s.active s
      else (if skb.mac_match && is_active s.active skb.destid
          then queue_tx_msg skb skb.destid s
          else s)

  unfoldable pub start_xmit : Bool → Skb → Net → Xmit × Net
  start_xmit got_lock skb s =
      let add_num = if skb.multicast then s.nact else pos 1 in
      if not got_lock
      then (tx_locked, s)
      else (if ltb_ℤ (pos (2 ^ w)) (pos s.tx_cnt +ℤ add_num)
          then (tx_busy, record s { awake = false })
          else (tx_ok, send skb s))

  -- The loop of the outbound message event, on the number of packets in the ring.
  unfoldable pub ack_loop : ℕ → ℕ → Net → Net
  ack_loop zero slot s = s
  ack_loop (suc left) slot s =
      if s.ack_slot == slot
      then s
      else ack_loop left slot (record s {
        freed = s.freed ++ numbers_of (s.tx_skb s.ack_slot);
        tx_skb = update s.tx_skb s.ack_slot none;
        ack_slot = advance w s.ack_slot;
        tx_cnt = left;
      })

  unfoldable pub outb_msg_event : ℕ → Net → Net
  outb_msg_event slot s =
      let s' = ack_loop s.tx_cnt slot s in
      record s' { awake = if ltb s'.tx_cnt (2 ^ w) then true else s'.awake }

-- The doorbells.
abbrev pub doorbell_join : ℕ
doorbell_join = 0x1000

abbrev pub doorbell_leave : ℕ
doorbell_leave = 0x1001

-- The loop over the peers, of which the identifiers are given.
unfoldable pub join_all : ℕ → List ℕ → Net → Net
join_all sid [] s = s
join_all sid (peer ∷ peers) s =
    join_all sid peers (
      if peer == sid
      then record s { active = set s.active sid true; nact = s.nact +ℤ pos 1 }
      else s)

-- Without the answer that is sent to a peer that joins.
unfoldable pub dbell_event : List ℕ → ℕ → ℕ → Net → Net
dbell_event peers sid info s =
    if info == doorbell_join
    then (if is_active s.active sid then s else join_all sid peers s)
    else (if info == doorbell_leave
        then record s { active = set s.active sid false; nact = s.nact +ℤ negsuc 0 }
        else s)
