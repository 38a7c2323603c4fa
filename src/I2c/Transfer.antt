-- ===== src/I2c/Transfer.antt =====
-- `i2c_write_byte_data`, `i2c_write_word_data`, `i2c_read_byte_data` and `i2c_read_word_data`. An `int8_t`
-- result is its bit pattern, so -1 is 0xff. A result through a pointer is returned beside it; the
-- argument `value` of a read is what the caller's variable held before. The PowerPC is big-endian.
use powerpc_i2c_temp.Prelude.{
  ℕ, ◌+◌, ◌*◌, ◌%◌, ◌/◌, bit_and, none, some, List, [], ◌∷◌, if◌then◌else◌, get_or,
}
use powerpc_i2c_temp.Prelude.Int.{ℤ, pos, ltb_ℤ}
use powerpc_i2c_temp.Prelude.Word.{u8, ◌>>>◌}
use powerpc_i2c_temp.I2c.Kernel.{Msg, i2c_m_rd, Adapter, M, pure, ◌>>=◌, ◌>>◌}

-- `-1` as an `int8_t`
abbrev pub ack_error : ℕ
ack_error = 0xff

-- `if (ret < 0) return -1; else return 0;`
abbrev pub ack_of : ℤ → ℕ
ack_of ret = if ltb_ℤ ret (pos 0) then ack_error else 0

-- The message that sends `buf`, and the one that receives into it.
abbrev pub send : ℕ → ℕ → List ℕ → Msg
send address len buf = record { addr = address; flags = 0; len = len; buf = buf }

abbrev pub receive : ℕ → ℕ → List ℕ → Msg
receive address len buf = record { addr = address; flags = i2c_m_rd; len = len; buf = buf }

-- The bytes of a `uint16_t` in memory, and the value of two bytes.
abbrev pub word_bytes : ℕ → List ℕ
word_bytes v = (v / 256) ∷ (v % 256) ∷ []

abbrev pub bytes_word : List ℕ → ℕ
bytes_word b = u8 (get_or b 0 0) * 256 + u8 (get_or b 1 0)

module _ {E : Type 0} where
  -- `new_client->addr = address;`
  unfoldable pub set_addr : ℕ → M E (Unit {0})
  set_addr address w = elim w.new_client [
    | none ↦ none
    | some _ ↦ some (tt, record w { new_client = some address })
  ]

  module _ (k : Adapter E) where
    -- `ret = i2c_transfer(new_client->adapter, msgs, n);`
    unfoldable pub transfer : List Msg → M E (ℤ × List (List ℕ))
    transfer msgs w =
        let (ret, bufs, bus) = k.i2c_transfer msgs w.bus in
        some ((ret, bufs), record w { bus = bus })

    unfoldable pub i2c_write_byte_data : ℕ → ℕ → ℕ → M E ℕ
    unfolding set_addr transfer
    i2c_write_byte_data address command value = do
      set_addr address
      r ← transfer (send address 2 (command ∷ value ∷ []) ∷ [])
      pure (ack_of r.0)

    -- In `(uint8_t)value>>8` the cast comes first.
    unfoldable pub i2c_write_word_data : ℕ → ℕ → ℕ → M E ℕ
    unfolding set_addr transfer
    i2c_write_word_data address command value = do
      set_addr address
      r ← transfer (send address 3 (command ∷ u8 value >>> 8 ∷ u8 (bit_and value 0x00ff) ∷ []) ∷ [])
      pure (ack_of r.0)

    unfoldable pub i2c_read_byte_data : ℕ → ℕ → ℕ → M E (ℕ × ℕ)
    unfolding set_addr transfer
    i2c_read_byte_data address command value = do
      set_addr address
      r ← transfer (send address 1 (command ∷ []) ∷ receive address 1 (value ∷ []) ∷ [])
      pure (ack_of r.0, u8 (get_or (get_or r.1 1 []) 0 0))

    unfoldable pub i2c_read_word_data : ℕ → ℕ → ℕ → M E (ℕ × ℕ)
    unfolding set_addr transfer
    i2c_read_word_data address command value = do
      set_addr address
      r ← transfer (send address 1 (command ∷ []) ∷ receive address 2 (word_bytes value) ∷ [])
      pure (ack_of r.0, bytes_word (get_or r.1 1 []))
