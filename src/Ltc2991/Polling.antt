-- ===== src/Ltc2991/Polling.antt =====
-- How long `LTC2991_adc_read_timeout` polls and what it returns. An adapter that meters the bus counts the
-- transfers and the milliseconds slept; the code runs on it as on any other.
use powerpc_i2c_temp.Prelude.{
  ℕ, zero, suc, ◌+◌, ◌^◌, ◌≤◌, ◌<◌, ◌≡◌, ◌⊎◌, inl, inr, refl, arith, bit_and, some, true, false,
  Bool, ◌==◌,
}
use powerpc_i2c_temp.Prelude.Bits.{bit_and_mask}
use powerpc_i2c_temp.I2c.{Adapter, World, M, ◌>>◌, Ensures, Ensures-bind, Ensures-mono, sleep}
use powerpc_i2c_temp.Ltc2991.Adc.{
  Reading, join_ack, adc_read, adc_read_timeout_loop, adc_read_timeout, adc_read_new_data,
}

pub record Meter (E : Type 0) : Type 0 where
  pub state : E
  pub transfers : ℕ
  pub slept : ℕ

abbrev pub metered : {E : Type 0} → Adapter E → Adapter (Meter E)
metered k = record {
  i2c_transfer = λ msgs m.
      let (ret, bufs, e) = k.i2c_transfer msgs m.state in
      (ret, bufs, record m { state = e; transfers = m.transfers + 1 });
  msleep = λ ms m. record m { state = k.msleep ms m.state; slept = m.slept + ms };
  uninit = λ m. k.uninit m.state;
}

code_lt : (x : ℕ) → bit_and x 0x7FFF < 2 ^ 15
code_lt x = omega (arith, bit_and_mask 15 x)

module _ {E : Type 0} (k : Adapter E) (a reg : ℕ) where
  -- One read is one transfer, and leaves the client addressed.
  abbrev OneRead : World (Meter E) → Reading → World (Meter E) → Type 0
  OneRead w r v =
      (v.new_client ≡ some a)
      × (v.bus.transfers ≡ w.bus.transfers + 1)
      × (v.bus.slept ≡ w.bus.slept)
      × (r.adc_code < 2 ^ 15)

  adc_read-OneRead :
      (w : World (Meter E)) {c : ℕ}
      → w.new_client ≡ some c
      → Ensures (adc_read (metered k) a reg w) (OneRead w)
  unfolding adc_read
  adc_read-OneRead w h = grind (arith, code_lt)

  -- With `left` rounds to go, the loop ends at a valid reading, and then it slept once less than it
  -- read; or it has read and slept `left` times.
  abbrev pub Polled : ℕ → World (Meter E) → Reading → World (Meter E) → Type 0
  Polled left w r v =
      ((r.data_valid ≡ 1)
        × (v.bus.transfers ≤ w.bus.transfers + left)
        × (v.bus.transfers + w.bus.slept ≡ w.bus.transfers + v.bus.slept + 1))
      ⊎ ((v.bus.transfers ≡ w.bus.transfers + left) × (v.bus.slept ≡ w.bus.slept + left))

  -- With that, the client is there and the code fits 15 bits, unless nothing was read.
  abbrev Settled : ℕ → Reading → World (Meter E) → Reading → World (Meter E) → Type 0
  Settled left s w r v =
      Polled left w r v
      × ((d : ℕ) × (v.new_client ≡ some d))
      × ((r.adc_code < 2 ^ 15) ⊎ (r.adc_code ≡ s.adc_code))

  abbrev round : ℕ → Reading → Reading → Bool → M (Meter E) Reading
  round left s r valid = elim valid [
    | true ↦ (λ w. some (join_ack s.ack r, w))
    | false ↦ (do
      sleep (metered k) 1
      adc_read_timeout_loop (metered k) a reg left (join_ack s.ack r))
  ]

  round-Settled :
      (left : ℕ) (s r : Reading) (w v : World (Meter E))
      → ((s' : Reading) (u : World (Meter E))
          → u.new_client ≡ some a
          → Ensures (adc_read_timeout_loop (metered k) a reg left s' u) (Settled left s' u))
      → OneRead w r v
      → Ensures (round left s r (r.data_valid == 1) v) (Settled (suc left) s w)
  unfolding sleep
  round-Settled left s r w v ih one =
      (elim (r.data_valid == 1)
          as (λ b.
            (r.data_valid == 1) ≡ b → Ensures (round left s r b v) (Settled (suc left) s w)) [
              | true ↦
                  λ valid. (inl (ground arith, ground arith, ground arith), (a, one.0), inl one.3)
              | false ↦ λ stale.
                  let u = record v { bus = (metered k).msleep 1 v.bus } in
                  Ensures-mono (adc_read_timeout_loop (metered k) a reg left (join_ack s.ack r) u)
                    (Settled left (join_ack s.ack r) u) (Settled (suc left) s w)
                    (ih (join_ack s.ack r) u one.0) (λ r' x p. ground arith)
            ])
        refl

  loop-Settled :
      (left : ℕ) (s : Reading) (w : World (Meter E)) {c : ℕ}
      → w.new_client ≡ some c
      → Ensures (adc_read_timeout_loop (metered k) a reg left s w) (Settled left s w)
  unfolding adc_read_timeout_loop
  loop-Settled zero s w {c} h = (inr (omega arith, omega arith), (c, h), inr refl)
  loop-Settled (suc left) s w h =
      Ensures-bind (adc_read (metered k) a reg) (λ r. round left s r (r.data_valid == 1)) w
        (OneRead w) (Settled (suc left) s w) (adc_read-OneRead w h)
        (λ r v one. round-Settled left s r w v (λ s' u h'. loop-Settled left s' u h') one)

  -- From a driver that has its client, `LTC2991_adc_read_timeout` always returns, after at most `timeout`
  -- reads and milliseconds. It stops early only at a valid reading, whatever the acknowledges say.
  pub adc_read_timeout_polls :
      (code valid timeout : ℕ) (w : World (Meter E)) {c : ℕ}
      → w.new_client ≡ some c
      → Ensures (adc_read_timeout (metered k) a reg code valid timeout w) (Polled timeout w)
  unfolding adc_read_timeout
  adc_read_timeout_polls code valid timeout w h =
      Ensures-mono (adc_read_timeout (metered k) a reg code valid timeout w) _ _
        (loop-Settled timeout _ w h) (λ r v p. p.0)

  -- From a driver that has its client, `LTC2991_adc_read_new_data` always returns too, after at most
  -- `timeout + 1` reads and `timeout` milliseconds; its code fits 15 bits, and the client is still there.
  pub adc_read_new_data_polls :
      (timeout : ℕ) (w : World (Meter E)) {c : ℕ}
      → w.new_client ≡ some c
      → Ensures (adc_read_new_data (metered k) a reg timeout w) (λ r v.
        (v.bus.transfers ≤ w.bus.transfers + 1 + timeout)
        × (v.bus.slept ≤ w.bus.slept + timeout)
        × ((d : ℕ) × (v.new_client ≡ some d))
        × (r.adc_code < 2 ^ 15))
  unfolding adc_read_new_data adc_read_timeout
  adc_read_new_data_polls timeout w h =
      Ensures-bind (adc_read (metered k) a reg) _ w _ _ (adc_read-OneRead w h) (λ old u one.
        Ensures-bind (adc_read_timeout_loop (metered k) a reg timeout _) _ u _ _
          (loop-Settled timeout _ u one.0)
          (λ new v p. (ground arith, ground arith, p.1, ground arith)))
