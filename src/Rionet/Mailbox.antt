-- ===== src/Rionet/Mailbox.antt =====
-- The mailbox that rapidio/rionet.c receives from, as the RapidIO core promises it, and places in the ring of packets.
use native.Mathlib.Nat.{mod-add-mod, mod-lt}
use powerpc_i2c_temp.Prelude.{
  ℕ, zero, suc, ◌+◌, ◌%◌, ◌<◌, min, ◌==◌, ◌≡◌, refl, ap, ◌∙◌, arith, if◌then◌else◌, Bool, true,
  false, Option, none, some,
}
use powerpc_i2c_temp.Rmu.Entries.{mod_cases}
use powerpc_i2c_temp.Rionet.Receive.{Kernel, Rx, put_skb}

-- What the RapidIO core promises: a message is got when one is waiting, in one of the buffers that the mailbox was
-- given, which is then the driver's again; the network layer and the allocation leave the mailbox alone.
pub record Mailbox {M : Type 0} (k : Kernel M) : Type 0 where
  pub waiting : M → ℕ
  pub buffers : M → ℕ
  pub get_none :
      (m : M)
      → waiting m ≡ 0
      → ((k.get_inb_message m).0 ≡ none)
        × (waiting (k.get_inb_message m).1 ≡ 0)
        × (buffers (k.get_inb_message m).1 ≡ buffers m)
  pub get_some :
      (m : M) (c : ℕ)
      → waiting m ≡ suc c
      → (b : ℕ) × ((k.get_inb_message m).0 ≡ some b)
        × (waiting (k.get_inb_message m).1 ≡ c)
        × (buffers m ≡ suc (buffers (k.get_inb_message m).1))
  pub passed :
      (skb bytes : ℕ) (m : M)
      → (waiting (k.netif_rx skb bytes m).1 ≡ waiting m)
        × (buffers (k.netif_rx skb bytes m).1 ≡ buffers m)
  pub allocated :
      (m : M)
      → (waiting (k.dev_alloc_skb m).1 ≡ waiting m) × (buffers (k.dev_alloc_skb m).1 ≡ buffers m)
  pub added :
      (bytes : ℕ) (m : M)
      → (waiting (k.add_inb_buffer bytes m) ≡ waiting m)
        × (buffers (k.add_inb_buffer bytes m) ≡ suc (buffers m))

-- Every slot has a packet.
abbrev pub IsFull : ℕ → Rx → Type 0
IsFull n s = (i : ℕ) → i < n → (x : ℕ × ℕ) × (s.rx_skb i ≡ some x)

-- How many packets the network layer was given.
abbrev pub given : Rx → ℕ
given s = s.rx_packets + s.rx_dropped

either :
    {A : Type 0} (t : Bool) (x : A) (o : Option A)
    → (y : A) × (o ≡ some y)
    → (y : A) × ((if t then some x else o) ≡ some y)
either true x o h = (x, refl)
either false x o h = h

pub next_place : (n slot j i : ℕ) → i ≡ (slot + j) % n → (i + 1) % n ≡ (slot + suc j) % n
next_place n slot j i hi =
    ap (λ (t : ℕ). (t + 1) % n) hi
    ∙ mod-add-mod (slot + j) n 1
    ∙ ap (λ (t : ℕ). t % n) (omega arith)

pub in_ring : (n a i : ℕ) → zero < n → i ≡ a % n → i < n
in_ring n a i h hi = let b = mod-lt a h in ground arith

-- The place in the ring comes back to the start after `n` steps, and not before.
pub back :
    (n slot j i left : ℕ)
    → slot < n
    → suc j + left ≡ n
    → i ≡ (slot + j) % n
    → ((i + 1) % n == slot) ≡ true
    → left ≡ 0
back n slot j i left hs hj hi e =
    let next = next_place n slot j i hi in ground (arith, mod_cases n slot (suc j) hs (omega arith))

-- The count that is reached: all that are waiting, or as many as there are slots.
pub min-suc : (c left : ℕ) → min (suc c) (suc left) ≡ suc (min c left)
min-suc c left = ground arith

-- A packet in one more slot leaves none empty.
pub put-IsFull : (n i : ℕ) (x : ℕ × ℕ) (s : Rx) → IsFull n s → IsFull n (put_skb i (some x) s)
put-IsFull n i x s h j hj = either (j == i) x (s.rx_skb j) (h j hj)
