-- ===== src/Ltc2991/Adc.antt =====
-- `LTC2991_adc_read`, `LTC2991_adc_read_timeout` and `LTC2991_adc_read_new_data`. What the C functions
-- return through `adc_code` and `data_valid` is returned beside the acknowledge.
use powerpc_i2c_temp.Prelude.{ℕ, zero, suc, bit_and, bit_or, ◌==◌, true, false}
use powerpc_i2c_temp.Prelude.Word.{◌>>>◌}
use powerpc_i2c_temp.I2c.{Adapter, M, pure, ◌>>=◌, ◌>>◌, fresh, sleep, i2c_read_word_data}

pub record Reading : Type 0 where
  pub ack : ℕ
  pub adc_code : ℕ
  pub data_valid : ℕ

-- The valid bit and the code of a word that was read.
abbrev pub split : ℕ → ℕ → Reading
split ack code = record {
  ack = ack;
  adc_code = bit_and code 0x7FFF;
  data_valid = bit_and (code >>> 15) 0x01;
}

-- `ack |= …` before a read that writes the other two.
abbrev pub join_ack : ℕ → Reading → Reading
join_ack ack r = record r { ack = bit_or ack r.ack }

module _ {E : Type 0} (k : Adapter E) (i2c_address msb_register_address : ℕ) where
  unfoldable pub adc_read : M E Reading
  unfolding i2c_read_word_data fresh
  adc_read = do
    code ← fresh k
    r ← i2c_read_word_data k i2c_address msb_register_address code
    pure (split r.0 r.1)

  -- The `for` loop with `left` rounds to go; `s` holds the variables.
  unfoldable pub adc_read_timeout_loop : ℕ → Reading → M E Reading
  unfolding adc_read sleep
  adc_read_timeout_loop zero s = pure s
  adc_read_timeout_loop (suc left) s = do
    r ← adc_read
    elim (r.data_valid == 1) [
      | true ↦ pure (join_ack s.ack r)
      | false ↦ (do sleep k 1; adc_read_timeout_loop left (join_ack s.ack r))
    ]

  -- `code` and `valid` are what the caller's variables hold before.
  unfoldable pub adc_read_timeout : ℕ → ℕ → ℕ → M E Reading
  unfolding adc_read_timeout_loop
  adc_read_timeout code valid timeout =
      adc_read_timeout_loop timeout (record { ack = 0; adc_code = code; data_valid = valid })

  unfoldable pub adc_read_new_data : ℕ → M E Reading
  adc_read_new_data timeout = do
    old ← adc_read
    new ← adc_read_timeout old.adc_code old.data_valid timeout
    pure (join_ack old.ack new)
