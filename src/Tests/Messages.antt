-- ===== src/Tests/Messages.antt =====
-- Runs of the message unit of the RapidIO controller on concrete machines.
use powerpc_i2c_temp.Prelude.{
  ℕ, zero, suc, ◌+◌, ◌-◌, ◌*◌, ◌/◌, ◌%◌, ◌^◌, ◌≤◌, ◌<◌, ◌==◌, ◌≡◌, ◌≢◌, refl, ap, arith,
  if◌then◌else◌, true, false, Option, none, some, List, [], ◌∷◌, ◌++◌, length,
}
use powerpc_i2c_temp.Prelude.Int.{ℤ, pos, ltb_ℤ}
use powerpc_i2c_temp.Rmu.Machine.{RmuReg, imr, ifqdpar, ifqepar, write, Log, Machine}
use powerpc_i2c_temp.Rmu.Outbound.{TxRing, next_slot, add_outb_message, open_outb_mbox}
use powerpc_i2c_temp.Rmu.Inbound.{RxRing, add_inb_buffer, get_inb_message, inbound_recv_msg_pro}
use powerpc_i2c_temp.Rmu.Entries.{get_elem?}
use powerpc_i2c_temp.Rmu.Mailbox.{Queue, Holds, waits}
use powerpc_i2c_temp.Rmu.Fifo.{
  State, here, next, adds, gets, after_add, after_get, IsFifo, Reach-IsFifo, recv_pro_skips,
}
use powerpc_i2c_temp.Rmu.Sent.{Powers, pow_gap, IsSent, add_outb_message-IsSent}
use powerpc_i2c_temp.Rmu.Opening.{IsBalanced, open_outb_mbox-Opened}
use powerpc_i2c_temp.Rmu.Doorbell.{DbellMsg, Dbell, dispatch}
use powerpc_i2c_temp.Rmu.Dispatch.{registered, first_call, dispatch_first}
use powerpc_i2c_temp.Rmu.PortWrite.{Kfifo, Pw, pw_dpc}
use powerpc_i2c_temp.Rmu.Burst.{FifoLaws, passed, arrive, burst_passed}

-- The number of the highest bit, counted from 1, of a number below `2 ^ fuel`.
abbrev pub bits : ℕ → ℕ → ℕ
bits zero n = 0
bits (suc fuel) n = if n == 0 then 0 else suc (bits fuel (n / 2))

-- How often the mode register of the inbound mailbox was written.
abbrev moves : Log → ℕ
moves [] = 0
moves (e ∷ l) = elim e [ write r v ↦ elim r [ imr ↦ suc (moves l) | _ ↦ moves l ] | _ ↦ moves l ]

-- Four entries from address 0x10000 on; messages wait in the first three.
abbrev bench_reg : Log → RmuReg → ℕ
bench_reg l r = elim r [
  | ifqdpar ↦ 0x10000 + moves l % 4 * 4096
  | ifqepar ↦ 0x10000 + 3 * 4096
  | _ ↦ 0
]

abbrev bench_with : ℤ → Machine
bench_with answer = record {
  reg_value = bench_reg;
  memory = λ l size. some (0x20000 + length l * 0x10000);
  irq_answer = λ l line. answer;
  fifo_answer = λ l. true;
  is_power_of_2 = λ n. 2 ^ (bits 13 n - 1) == n;
  get_bitmask_order = bits 13;
}

abbrev pub bench : Machine
bench = bench_with (pos 0)

abbrev bench_queue : Queue bench 0x10000 4
bench_queue = record {
  deq = λ l. moves l % 4;
  enq = λ l. 3;
  deq_in = λ l. omega arith;
  enq_in = λ l. omega arith;
  deq_address = λ l. refl;
  enq_address = λ l. refl;
  deq-read = λ r l. refl;
  deq-copy = λ target source len l. refl;
  deq-mi = λ v l. omega arith;
}

-- A ring with the buffers `q` from its first entry on.
abbrev ring_of : List ℕ → RxRing
ring_of q = record { phys = 0x10000; virt_buffer = get_elem? q; rx_slot = length q; size = 4 }

abbrev fits : 4 * 4096 ≤ 2 ^ 32
fits = omega arith

ring_of-Holds :
    (q : List ℕ) → length q ≤ 3 → Holds bench 0x10000 4 bench_queue fits q (ring_of q) []
ring_of-Holds q h = record {
  sized = refl;
  placed = refl;
  room = omega arith;
  slot = omega arith;
  entries = λ i hi. ap (get_elem? q) (omega arith);
}

abbrev start : State
start = record { ring = ring_of []; log = []; accepted = []; delivered = [] }

abbrev two_added : State
two_added =
    after_add bench 0x10000 4 bench_queue fits 8
      (after_add bench 0x10000 4 bench_queue fits 7 start)

first_buffer : two_added.ring.virt_buffer (bench_queue.deq two_added.log) ≢ none
unfolding add_inb_buffer next_slot
first_buffer e = cc

Reach-IsFifo_example :
    IsFifo bench 0x10000 4 bench_queue fits (after_get bench 0x10000 4 bench_queue fits two_added)
Reach-IsFifo_example =
    Reach-IsFifo bench 0x10000 4 bench_queue fits {s = start}
      (next (next (next here (adds 7)) (adds 8)) (gets (λ t. first_buffer)))
      ([], ring_of-Holds [] (omega arith), refl)

recv_pro_skips_example :
    let l' = inbound_recv_msg_pro bench (ring_of (7 ∷ 8 ∷ [])) [] in
    (get_inb_message bench (ring_of (7 ∷ 8 ∷ [])) l').0
    ≡ (if waits bench 0x10000 4 bench_queue fits l' then some 8 else none)
recv_pro_skips_example =
    recv_pro_skips bench 0x10000 4 bench_queue fits 7 8 [] (ring_of (7 ∷ 8 ∷ [])) [] refl
      (ring_of-Holds (7 ∷ 8 ∷ []) (omega arith))

bench-Powers_100 : Powers bench 100
bench-Powers_100 = record {
  some_power = λ t. absurd (cc);
  no_power = λ e t h. absurd (omega (arith, pow_gap 6 e (omega arith) (omega arith)));
  highest = 6;
  order = refl;
  above = omega arith;
  below = omega arith;
}

bench-Powers_4093 : Powers bench 4093
bench-Powers_4093 = record {
  some_power = λ t. absurd (cc);
  no_power = λ e t h. absurd (omega (arith, pow_gap 11 e (omega arith) (omega arith)));
  highest = 11;
  order = refl;
  above = omega arith;
  below = omega arith;
}

-- An outbound ring of two slots whose buffers hold ones.
abbrev outbound : TxRing
outbound = record {
  virt = λ i. record { saddr = 0; dport = 0; dattr = 0; dwcnt = 0 };
  phys = 0x40000;
  virt_buffer = λ i. some (0x50000 + i * 4096);
  contents = λ i j. 1;
  tx_slot = 1;
  size = 2;
}

abbrev text : ℕ → ℕ
text j = j % 256

add_outb_message-IsSent_example :
    IsSent bench 5 0 text 100 outbound (add_outb_message bench 0 5 0 text 100 outbound [])
add_outb_message-IsSent_example =
    add_outb_message-IsSent bench 0 5 0 text 100 outbound [] (omega arith) (omega arith)
      (omega arith) (omega arith) bench-Powers_100

abbrev closed : TxRing
closed = record outbound { virt_buffer = λ i. none; tx_slot = 0; size = 0 }

open_outb_mbox-Opened_example :
    let (rc, ring', l') = open_outb_mbox bench 40 2 closed [] in
    (ltb_ℤ rc (pos 0) ≡ true → IsBalanced [] l')
    × (ltb_ℤ rc (pos 0) ≡ false
        → (ring'.size ≡ 2) × (ring'.tx_slot ≡ 0) × ((j : ℕ) → j < 2 → ring'.virt_buffer j ≢ none))
open_outb_mbox-Opened_example = open_outb_mbox-Opened bench 40 2 closed [] (λ j h. refl)

abbrev ports : List (Option (List Dbell))
ports =
    some (record { start = 0; end_ = 0xfff; handler = some 3 } ∷ [])
    ∷ none
    ∷ some (
        record { start = 0x1000; end_ = 0x1001; handler = some 4 }
        ∷ record { start = 0; end_ = 0xffff; handler = some 5 }
        ∷ [])
    ∷ []

abbrev joining : DbellMsg
joining = record { tid = 1; sid = 5; info = 0x1000 }

dispatch_first_example :
    dispatch joining 0 false ports [] ≡ some (first_call joining (registered 0 ports) [])
dispatch_first_example =
    dispatch_first joining ports [] (((λ e. cc), tt), (((λ e. cc), ((λ e. cc), tt)), tt))

abbrev fifo : Kfifo (List ℕ)
fifo = record {
  avail = λ x. 2048 - length x * 64;
  put_in = λ m x. x ++ m ∷ [];
  take_out = λ x. elim x [ [] ↦ none | y ∷ ys ↦ some (y, ys) ];
}

take_some_lem :
    (m : ℕ) (ms x : List ℕ)
    → x ≡ m ∷ ms
    → (x' : List ℕ) × (fifo.take_out x ≡ some (m, x')) × (x' ≡ ms)
take_some_lem m ms [] e = absurd (cc)
take_some_lem m ms (y ∷ ys) e = (ys, ground (arith, e), ground (arith, e))

take_none_lem : (x : List ℕ) → x ≡ [] → fifo.take_out x ≡ none
take_none_lem [] e = refl
take_none_lem (y ∷ ys) e = absurd (cc)

abbrev fifo_laws : FifoLaws fifo
fifo_laws = record {
  contents = λ x. x;
  avail_lem = λ x. refl;
  put_lem = λ m x h. refl;
  take_none = take_none_lem;
  take_some = take_some_lem;
}

abbrev no_writes : Pw (List ℕ)
no_writes = record { message = 0; msg_count = 0; err_count = 0; discard_count = 0; pw_fifo = [] }

burst_passed_example :
    let pw' = arrive bench fifo fifo_laws (8 ∷ 9 ∷ []) no_writes in
    ((pw_dpc bench fifo 32 pw' []).1 ≡ passed (8 ∷ 9 ∷ []) []) × (pw'.discard_count ≡ 0)
burst_passed_example =
    burst_passed bench fifo fifo_laws (8 ∷ 9 ∷ []) no_writes [] refl (omega arith)
