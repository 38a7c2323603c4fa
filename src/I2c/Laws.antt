-- ===== src/I2c/Laws.antt =====
-- What holds of the four transfer routines, whatever the bus answers.
use powerpc_i2c_temp.Prelude.{ℕ, ◌%◌, ◌≡◌, ◌↔◌, ◌⊎◌, none, refl, arith, bit_and}
use powerpc_i2c_temp.Prelude.Int.{ℤ}
use powerpc_i2c_temp.Prelude.Bits.{bit_and_mask}
use powerpc_i2c_temp.Prelude.Word.{u8, ◌>>>◌}
use powerpc_i2c_temp.I2c.Kernel.{Adapter, World}
use powerpc_i2c_temp.I2c.Transfer.{
  ack_error, ack_of, i2c_write_byte_data, i2c_write_word_data, i2c_read_byte_data,
  i2c_read_word_data,
}

pub ack_of_cases : (ret : ℤ) → (ack_of ret ≡ 0) ⊎ (ack_of ret ≡ ack_error)
ack_of_cases ret = ground arith

module _ {E : Type 0} (k : Adapter E) (a c v : ℕ) (w : World E) where
  -- Each of the four transfer routines faults (it dereferences a null client) exactly if `new_client`
  -- is null.
  pub transfers_fault_iff :
      ((i2c_write_byte_data k a c v w ≡ none) ↔ (w.new_client ≡ none))
      × ((i2c_write_word_data k a c v w ≡ none) ↔ (w.new_client ≡ none))
      × ((i2c_read_byte_data k a c v w ≡ none) ↔ (w.new_client ≡ none))
      × ((i2c_read_word_data k a c v w ≡ none) ↔ (w.new_client ≡ none))
  unfolding i2c_write_byte_data i2c_write_word_data i2c_read_byte_data i2c_read_word_data
  transfers_fault_iff = (ground arith, ground arith, ground arith, ground arith)

-- The two bytes of a word as `i2c_write_word_data` computes them: the high one is always 0.
sent_bytes : (v : ℕ) → (u8 v >>> 8 ≡ 0) × (u8 (bit_and v 0x00ff) ≡ v % 256)
sent_bytes v = (omega arith, omega (arith, bit_and_mask 8 v))

-- Words that agree in the low byte are written alike: the high byte of `value` never reaches the bus.
pub write_word-low_byte :
    {E : Type 0} (k : Adapter E) (a c v v' : ℕ) (w : World E)
    → v % 256 ≡ v' % 256
    → i2c_write_word_data k a c v w ≡ i2c_write_word_data k a c v' w
unfolding i2c_write_word_data
write_word-low_byte k a c v v' w same =
    rw ((sent_bytes v).0, (sent_bytes v).1, (sent_bytes v').0, (sent_bytes v').1, same) refl
