-- ===== src/Ltc2991/Control.antt =====
-- `LTC2991_register_read`, `LTC2991_register_write` and `LTC2991_register_set_clear_bits`.
use powerpc_i2c_temp.Prelude.{ℕ, bit_and, bit_or}
use powerpc_i2c_temp.Prelude.Word.{u8, not32}
use powerpc_i2c_temp.I2c.{Adapter, M, pure, ◌>>=◌, fresh, i2c_read_byte_data, i2c_write_byte_data}

-- `register_data & (~bits_to_clear)`, then `| bits_to_set`; each result is stored in a `uint8_t`.
abbrev pub set_clear : ℕ → ℕ → ℕ → ℕ
set_clear register_data bits_to_set bits_to_clear =
    u8 (bit_or (u8 (bit_and register_data (not32 bits_to_clear))) bits_to_set)

module _ {E : Type 0} (k : Adapter E) (i2c_address register_address : ℕ) where
  unfoldable pub register_read : ℕ → M E (ℕ × ℕ)
  unfolding i2c_read_byte_data
  register_read register_data = i2c_read_byte_data k i2c_address register_address register_data

  unfoldable pub register_write : ℕ → M E ℕ
  unfolding i2c_write_byte_data
  register_write register_data = i2c_write_byte_data k i2c_address register_address register_data

  unfoldable pub register_set_clear_bits : ℕ → ℕ → M E ℕ
  unfolding register_read register_write fresh
  register_set_clear_bits bits_to_set bits_to_clear = do
    before ← fresh k
    r ← register_read before
    ack ← register_write (set_clear r.1 bits_to_set bits_to_clear)
    pure (bit_or r.0 ack)
