-- ===== src/Tests/Network.antt =====
-- Runs of the transmit side of the network driver over RapidIO.
use powerpc_i2c_temp.Prelude.{ℕ, ◌≤◌, ◌≡◌, refl, arith, true, false, none, [], ◌∷◌}
use powerpc_i2c_temp.Prelude.Int.{pos}
use powerpc_i2c_temp.Rionet.{
  Skb, Net, tx_busy, queue_tx_msg, send_all, send, start_xmit, ack_loop, outb_msg_event,
  doorbell_join, join_all, dbell_event,
}
use powerpc_i2c_temp.Rionet.Peers.{occurs, here, next, xmit, acked, joins, IsGood, Reach-IsGood}

abbrev pub fresh : Net
fresh = record {
  tx_skb = λ slot. none;
  tx_slot = 0;
  tx_cnt = 0;
  ack_slot = 0;
  active = false ∷ false ∷ false ∷ false ∷ [];
  nact = pos 0;
  awake = true;
  tx_packets = 0;
  tx_bytes = 0;
  sent = [];
  taken = [];
  freed = [];
}

abbrev to_all : Skb
to_all = record { number = 7; len = 60; multicast = true; mac_match = false; destid = 0 }

abbrev two_joined : Net
two_joined =
    dbell_event (1 ∷ 3 ∷ []) 3 doorbell_join (dbell_event (1 ∷ 3 ∷ []) 1 doorbell_join fresh)

abbrev sent_to_two : Net
sent_to_two = (start_xmit 1 true to_all two_joined).1

apart : (sid : ℕ) → occurs sid (1 ∷ 3 ∷ []) ≤ 1
apart sid = ground arith

Reach-IsGood_example : IsGood 1 (outb_msg_event 1 1 sent_to_two)
unfolding dbell_event join_all
Reach-IsGood_example =
    Reach-IsGood 1 (1 ∷ 3 ∷ []) {s = fresh} apart
      (next
        (next (next (next here (joins 1 (omega arith))) (joins 3 (omega arith))) (xmit true to_all))
        (acked 1))
      (record { room = omega arith; slot = refl }, refl)

-- With two slots and two peers, one packet for all of them fills the ring, and the next one is refused.
messages : sent_to_two.sent ≡ (7, 1) ∷ (7, 3) ∷ []
unfolding dbell_event join_all start_xmit send send_all queue_tx_msg
messages = refl

filled : (start_xmit 1 true to_all sent_to_two).0 ≡ tx_busy
unfolding dbell_event join_all start_xmit send send_all queue_tx_msg
filled = refl

-- The packet for two peers is freed once for each, and one reference was taken.
references :
    let s = outb_msg_event 1 0 (outb_msg_event 1 1 sent_to_two) in
    (s.taken ≡ 7 ∷ []) × (s.freed ≡ 7 ∷ 7 ∷ [])
unfolding dbell_event join_all start_xmit send send_all queue_tx_msg outb_msg_event ack_loop
references = (refl, refl)
