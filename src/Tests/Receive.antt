-- ===== src/Tests/Receive.antt =====
-- Runs of the receive side of the network driver over RapidIO: a mailbox with messages waiting in some of its buffers.
use powerpc_i2c_temp.Prelude.{
  ℕ, suc, zero, ◌%◌, ◌≡◌, refl, ap, ◌∙◌, arith, false, Option, none, some,
}
use powerpc_i2c_temp.Rionet.Receive.{
  Kernel, Rx, receive, clean_one, clean_loop, rx_clean, fill_one, fill_loop, rx_fill, inb_msg_event,
}
use powerpc_i2c_temp.Rionet.Mailbox.{Mailbox, IsFull, given}
use powerpc_i2c_temp.Rionet.Refill.{inb_msg_event_not_refilled}
use powerpc_i2c_temp.Rionet.Watched.{Watched, watched}
use powerpc_i2c_temp.Rionet.Delivered.{Delivered, inb_msg_event-Delivered}
use powerpc_i2c_temp.Prelude.{true, ◌+◌, [], ◌∷◌}
use powerpc_i2c_temp.Prelude.Int.{pos}
use powerpc_i2c_temp.Rionet.Lifecycle.{OpenAnswers, Link, outb_dbell, rionet_open, rionet_close}
use powerpc_i2c_temp.Rionet.Closing.{requests, releases, rionet_close-rionet_open}
use powerpc_i2c_temp.Tests.Network.{fresh}

-- How many messages wait, how many buffers are empty, and the number of the next packet.
pub record Box : Type 0 where
  messages : ℕ
  empty : ℕ
  next_skb : ℕ

unfoldable taken_out : ℕ → Box → Option ℕ × Box
taken_out zero m = (none, m)
taken_out (suc c) m = (some 0x100, record m { messages = c })

abbrev box : Kernel Box
box = record {
  get_inb_message = λ m. taken_out m.messages m;
  add_inb_buffer = λ b m. record m { empty = m.empty + 1 };
  dev_alloc_skb = λ m. (some (m.next_skb, 0x200), record m { next_skb = m.next_skb + 1 });
  netif_rx = λ x b m. (false, m);
}

box-Mailbox : Mailbox box
unfolding taken_out
box-Mailbox = record {
  waiting = λ m. m.messages;
  buffers = λ m. m.messages + m.empty;
  get_none = λ m e.
      let q : taken_out m.messages m ≡ (none, m) = ap (λ (a : ℕ). taken_out a m) e in
      (
        ap (λ (r : Option ℕ × Box). r.0) q,
        ap (λ (r : Option ℕ × Box). r.1.messages) q ∙ e,
        ap (λ (r : Option ℕ × Box). r.1.messages + r.1.empty) q,
      );
  get_some = λ m c e.
      let q : taken_out m.messages m ≡ (some 0x100, record m { messages = c }) =
        ap (λ (a : ℕ). taken_out a m) e in
      (
        0x100,
        ap (λ (r : Option ℕ × Box). r.0) q,
        ap (λ (r : Option ℕ × Box). r.1.messages) q,
        (let f = ap (λ (r : Option ℕ × Box). r.1.messages + r.1.empty) q in omega arith),
      );
  passed = λ x b m. (refl, refl);
  allocated = λ m. (refl, refl);
  added = λ b m. (refl, omega arith);
}

-- A ring of four packets, and a mailbox that has their buffers.
abbrev ring : Rx
ring = record {
  rx_skb = λ i. some (i, 0x100);
  rx_slot = 2;
  rx_packets = 0;
  rx_dropped = 0;
  rx_bytes = 0;
}

abbrev three_waiting : Box
three_waiting = record { messages = 3; empty = 1; next_skb = 4 }

abbrev four_waiting : Box
four_waiting = record { messages = 4; empty = 0; next_skb = 4 }

abbrev three_watched : Watched Box
three_watched = record { state = three_waiting; handed = []; fresh = []; supplied = [] }

inb_msg_event-Delivered_example :
    let (s, w) = inb_msg_event (watched box) 4 ring three_watched in
    Delivered 4 3 ring three_watched (s, w)
    × (s.rx_slot ≡ (2 + 3) % 4)
    × (given s ≡ 0 + 3)
    × (w.state.messages ≡ 0)
    × (w.state.messages + w.state.empty ≡ 4)
unfolding box-Mailbox
inb_msg_event-Delivered_example =
    inb_msg_event-Delivered box box-Mailbox 4 (λ m. ((m.next_skb, 0x200), refl)) ring three_watched
      (omega arith) (λ i h. ((i, 0x100), refl)) (omega arith)

-- The packets 2, 3 and 0 are handed on, and 4, 5 and 6 take their places.
delivered_three :
    let (s, w) = inb_msg_event (watched box) 4 ring three_watched in
    (w.handed ≡ 2 ∷ 3 ∷ 0 ∷ [])
    × (w.fresh ≡ (4, 0x200) ∷ (5, 0x200) ∷ (6, 0x200) ∷ [])
    × (s.rx_skb 0 ≡ some (6, 0x200))
unfolding inb_msg_event rx_clean clean_loop clean_one receive rx_fill fill_loop fill_one taken_out
delivered_three = (refl, refl, refl)

inb_msg_event_not_refilled_example :
    let (s, m) = inb_msg_event box 4 ring four_waiting in
    (s.rx_slot ≡ 2) × IsFull 4 s × (given s ≡ 0 + 4) × (4 ≡ m.messages + m.empty + 4)
unfolding box-Mailbox
inb_msg_event_not_refilled_example =
    inb_msg_event_not_refilled box box-Mailbox 4 ring four_waiting (omega arith)
      (λ i h. ((i, 0x100), refl)) (omega arith)

-- After the event the first slot has a new packet, or still the one that was given away.
new_packet : let s = (inb_msg_event box 4 ring three_waiting).0 in s.rx_skb 2 ≡ some (4, 0x200)
unfolding inb_msg_event rx_clean clean_loop clean_one receive rx_fill fill_loop fill_one taken_out
new_packet = refl

old_packet : let s = (inb_msg_event box 4 ring four_waiting).0 in s.rx_skb 2 ≡ some (2, 0x100)
unfolding inb_msg_event rx_clean clean_loop clean_one receive rx_fill fill_loop fill_one taken_out
old_packet = refl

-- A device with two peers, which the RapidIO core grants everything.
abbrev granting : OpenAnswers
granting = record { dbell_rc = pos 0; inb_rc = pos 0; outb_rc = pos 0; dbells_given = λ d. true }

abbrev down : Link Box
down = record {
  net = fresh;
  rx = ring;
  box = four_waiting;
  carrier = false;
  peers = (1, false) ∷ (3, false) ∷ [];
  deeds = [];
}

rionet_close-rionet_open_example :
    let s = (rionet_close 4 (rionet_open box 4 granting down).1).1 in
    (requests (outb_dbell 3) s.deeds ≡ 0 + 1) × (releases (outb_dbell 3) s.deeds ≡ 0 + 1)
rionet_close-rionet_open_example =
    rionet_close-rionet_open box 4 granting (outb_dbell 3) down refl refl refl (λ d. refl)
