-- ===== src/Rionet/Watched.antt =====
-- The kernel of the receive side of rapidio/rionet.c, watched: the packets that it is given by `netif_rx`, the packets that
-- `dev_alloc_skb` makes, and the buffers that the mailbox is given, each in order.
use powerpc_i2c_temp.Prelude.{ℕ, suc, ◌%◌, ◌≡◌, Option, none, some, List, [], ◌∷◌, ◌++◌}
use powerpc_i2c_temp.Rionet.Receive.{Kernel}
use powerpc_i2c_temp.Rionet.Mailbox.{Mailbox}

pub record Watched (M : Type 0) : Type 0 where
  pub state : M
  pub handed : List ℕ
  pub fresh : List (ℕ × ℕ)
  pub supplied : List ℕ

abbrev pub made_one : Option (ℕ × ℕ) → List (ℕ × ℕ)
made_one none = []
made_one (some x) = x ∷ []

abbrev pub watched : {M : Type 0} → Kernel M → Kernel (Watched M)
watched k = record {
  get_inb_message = λ w. let (b, m) = k.get_inb_message w.state in (b, record w { state = m });
  add_inb_buffer =
      λ b w. record w { state = k.add_inb_buffer b w.state; supplied = w.supplied ++ (b ∷ []) };
  dev_alloc_skb = λ w.
      let (o, m) = k.dev_alloc_skb w.state in
      (o, record w { state = m; fresh = w.fresh ++ made_one o });
  netif_rx = λ x b w.
      let (drop, m) = k.netif_rx x b w.state in
      (drop, record w { state = m; handed = w.handed ++ (x ∷ []) });
}

-- The mailbox is the same.
abbrev pub watched-Mailbox : {M : Type 0} (k : Kernel M) → Mailbox k → Mailbox (watched k)
watched-Mailbox k mb = record {
  waiting = λ w. mb.waiting w.state;
  buffers = λ w. mb.buffers w.state;
  get_none = λ w e. mb.get_none w.state e;
  get_some = λ w c e. mb.get_some w.state c e;
  passed = λ x b w. mb.passed x b w.state;
  allocated = λ w. mb.allocated w.state;
  added = λ b w. mb.added b w.state;
}

-- The number of the packet in a slot.
abbrev pub number_of : Option (ℕ × ℕ) → Option ℕ
number_of none = none
number_of (some x) = some x.0

-- These are the numbers of the packets in the slots of a ring from `a` on, one after the other.
abbrev pub Numbered : ℕ → (ℕ → Option (ℕ × ℕ)) → ℕ → List ℕ → Type 0
Numbered n ring a [] = Unit
Numbered n ring a (x ∷ xs) = (number_of (ring (a % n)) ≡ some x) × Numbered n ring (suc a) xs

-- These packets are in the slots of a ring from `a` on, one after the other.
abbrev pub Holds : ℕ → (ℕ → Option (ℕ × ℕ)) → ℕ → List (ℕ × ℕ) → Type 0
Holds n ring a [] = Unit
Holds n ring a (x ∷ xs) = (ring (a % n) ≡ some x) × Holds n ring (suc a) xs

abbrev pub addresses : List (ℕ × ℕ) → List ℕ
addresses [] = []
addresses (x ∷ xs) = x.1 ∷ addresses xs
