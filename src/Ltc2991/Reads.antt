-- ===== src/Ltc2991/Reads.antt =====
-- What one `LTC2991_adc_read` returns, also when the transfer fails.
use powerpc_i2c_temp.Prelude.{ℕ, ◌+◌, ◌*◌, ◌%◌, ◌/◌, ◌^◌, ◌<◌, ◌≡◌, arith, some, [], ◌∷◌}
use powerpc_i2c_temp.Prelude.Int.{negsuc}
use powerpc_i2c_temp.Prelude.Bits.{bit_and_mask}
use powerpc_i2c_temp.I2c.{
  Adapter, World, Ensures, ◌>>=◌, ack_error, send, receive, word_bytes, i2c_read_word_data,
}
use powerpc_i2c_temp.Ltc2991.Adc.{split, adc_read}

split_lem :
    (ack code : ℕ)
    → ((split ack code).adc_code ≡ code % 2 ^ 15)
      × ((split ack code).data_valid ≡ code / 2 ^ 15 % 2)
split_lem ack code = (bit_and_mask 15 code, bit_and_mask 1 (code / 2 ^ 15))

module _ {E : Type 0} (k : Adapter E) (a reg : ℕ) where
  -- The code of a read fits 15 bits and its valid bit is 0 or 1; with the bit on top they are the 16-bit
  -- word that the transfer brought.
  pub adc_read_splits :
      (ack raw : ℕ) (w v : World E)
      → i2c_read_word_data k a reg (k.uninit w.bus) w ≡ some ((ack, raw), v)
      → raw < 2 ^ 16
      → Ensures (adc_read k a reg w) (λ r u.
        (r.ack ≡ ack)
        × (r.data_valid * 2 ^ 15 + r.adc_code ≡ raw)
        × (r.adc_code < 2 ^ 15)
        × (r.data_valid < 2)
        × (u ≡ v))
  unfolding adc_read
  adc_read_splits ack raw w v e h = rw (e, ◌>>=◌, Ensures) (ground (arith, split_lem ack raw))

  -- A failed transfer that leaves the buffers as they were is acknowledged by -1, and the code and the
  -- valid bit are those of an uninitialised variable.
  pub adc_read_failed :
      (c n : ℕ) (w : World E) (e : E)
      → w.new_client ≡ some c
      → k.i2c_transfer (send a 1 (reg ∷ []) ∷ receive a 2 (word_bytes (k.uninit w.bus)) ∷ []) w.bus
        ≡ (negsuc n, (reg ∷ []) ∷ word_bytes (k.uninit w.bus) ∷ [], e)
      → Ensures (adc_read k a reg w) (λ r v.
        (r.ack ≡ ack_error)
        × (r.adc_code ≡ k.uninit w.bus % 2 ^ 15)
        × (r.data_valid ≡ k.uninit w.bus / 2 ^ 15 % 2)
        × (v.bus ≡ e))
  unfolding adc_read
  adc_read_failed c n w e has fail = ground (arith, split_lem ack_error (k.uninit w.bus % 2 ^ 16))
