-- ===== src/Ltc2991/Fresh.antt =====
-- Which reading `LTC2991_adc_read_timeout` returns: the first valid one, if it comes in time.
use powerpc_i2c_temp.Prelude.{
  ℕ, zero, suc, ◌<◌, ◌≡◌, ◌≢◌, inl, inr, sym, ◌∙◌, arith, bit_or, none, some, Option-cases,
}
use powerpc_i2c_temp.I2c.{Adapter, World, M, ◌>>=◌, ◌>>◌, sleep}
use powerpc_i2c_temp.Ltc2991.Adc.{
  Reading, join_ack, adc_read, adc_read_timeout_loop, adc_read_timeout,
}

module _ {E : Type 0} (k : Adapter E) (a reg : ℕ) where
  -- The outcome of the read that follows `n` reads, each with its pause of a millisecond.
  unfoldable pub attempt : ℕ → M E Reading
  unfolding adc_read sleep
  attempt zero = adc_read k a reg
  attempt (suc n) = do r ← adc_read k a reg; sleep k 1; attempt n

  abbrev pause : World E → World E
  pause v = record v { bus = k.msleep 1 v.bus }

  loop_hit :
      (left : ℕ) (s r : Reading) (w v : World E)
      → adc_read k a reg w ≡ some (r, v)
      → r.data_valid ≡ 1
      → adc_read_timeout_loop k a reg (suc left) s w ≡ some (join_ack s.ack r, v)
  unfolding adc_read_timeout_loop
  loop_hit left s r w v e h = ground arith

  loop_miss :
      (left : ℕ) (s r : Reading) (w v : World E)
      → adc_read k a reg w ≡ some (r, v)
      → r.data_valid ≢ 1
      → adc_read_timeout_loop k a reg (suc left) s w
        ≡ adc_read_timeout_loop k a reg left (join_ack s.ack r) (pause v)
  unfolding adc_read_timeout_loop
  loop_miss left s r w v e h = ground arith

  attempt-suc :
      (n : ℕ) (r : Reading) (w v : World E)
      → adc_read k a reg w ≡ some (r, v)
      → attempt (suc n) w ≡ attempt n (pause v)
  unfolding attempt
  attempt-suc n r w v e = ground arith

  attempt-suc_fault : (n : ℕ) (w : World E) → adc_read k a reg w ≡ none → attempt (suc n) w ≡ none
  unfolding attempt
  attempt-suc_fault n w e = ground arith

  -- No attempt before number `n` finds a valid reading.
  abbrev pub StaleBefore : ℕ → World E → Type 0
  StaleBefore n w =
      (m : ℕ) → m < n → (r : Reading) (v : World E) → attempt m w ≡ some (r, v) → r.data_valid ≢ 1

  loop-first_valid :
      (n timeout : ℕ) (s r : Reading) (w v : World E)
      → n < timeout
      → StaleBefore n w
      → attempt n w ≡ some (r, v)
      → r.data_valid ≡ 1
      → (ack : ℕ) × (adc_read_timeout_loop k a reg timeout s w ≡ some (record r { ack = ack }, v))
  loop-first_valid n zero s r w v h stale e valid = absurd (omega arith)
  loop-first_valid zero (suc left) s r w v h stale e valid =
      (bit_or s.ack r.ack, loop_hit left s r w v (unfold attempt in e) valid)
  loop-first_valid (suc n) (suc left) s r w v h stale e valid =
      elim (Option-cases (adc_read k a reg w)) [
        | inl fault ↦ cc (attempt-suc_fault n w fault)
        | inr (now, e') ↦
            let miss = stale 0 (omega arith) now.0 now.1 (unfold attempt in e') in
            let (ack, run) =
              loop-first_valid n left (join_ack s.ack now.0) r (pause now.1) v (omega arith)
                (λ m below r' v' q.
                  stale (suc m) (omega arith) r' v' (attempt-suc m now.0 w now.1 e' ∙ q))
                (sym (attempt-suc n now.0 w now.1 e') ∙ e) valid in
            (ack, loop_miss left s now.0 w now.1 e' miss ∙ run)
      ]

  -- If the first attempt with the valid bit set comes within the time limit, its code and the state
  -- that it left are what `LTC2991_adc_read_timeout` returns.
  pub adc_read_timeout-first_valid :
      (code valid n timeout : ℕ) (r : Reading) (w v : World E)
      → n < timeout
      → StaleBefore n w
      → attempt n w ≡ some (r, v)
      → r.data_valid ≡ 1
      → (ack : ℕ) × (adc_read_timeout k a reg code valid timeout w
          ≡ some (record r { ack = ack }, v))
  unfolding adc_read_timeout
  adc_read_timeout-first_valid code valid n timeout r w v = loop-first_valid n timeout _ r w v
