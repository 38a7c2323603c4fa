-- ===== src/Ltc2991/Chip.antt =====
-- `LTC2991_register_set_clear_bits` on chips that keep their control registers.
use powerpc_i2c_temp.Prelude.{
  ℕ, ◌-◌, ◌/◌, ◌^◌, ◌<◌, ◌≡◌, ◌≢◌, ◌⊎◌, refl, ap, ◌∙◌, arith, bit_and, bit_or, some, [], ◌∷◌,
  get_or, min, max,
}
use powerpc_i2c_temp.Prelude.Int.{pos}
use powerpc_i2c_temp.Prelude.Bits.{bit_at, bit_at-and, bit_at-or, bit_at-mod, bit_at-complement}
use powerpc_i2c_temp.Prelude.Word.{u8, not32}
use powerpc_i2c_temp.I2c.{Adapter, World, Ensures, Ensures-bind, send, receive}
use powerpc_i2c_temp.Ltc2991.Registers.{control_v1234_reg, control_v5678_reg, channel_enable_reg}
use powerpc_i2c_temp.Ltc2991.Control.{
  set_clear, register_read, register_write, register_set_clear_bits,
}

-- Each bit of the new value is set, or else kept unless it is to be cleared.
pub bit_at-set_clear :
    (d s c i : ℕ)
    → c < 2 ^ 8
    → i < 8
    → bit_at (set_clear d s c) i ≡ max (min (bit_at d i) (1 - bit_at c i)) (bit_at s i)
bit_at-set_clear d s c i hc hi = omega (
  arith,
  bit_at-mod 8 (bit_or (u8 (bit_and d (not32 c))) s) i hi,
  bit_at-or (u8 (bit_and d (not32 c))) s i,
  bit_at-mod 8 (bit_and d (not32 c)) i hi,
  bit_at-and d (not32 c) i,
  bit_at-complement 32 c i (omega arith) (omega arith),
)

-- The control registers, which hold what is written.
abbrev pub IsControl : ℕ → Type 0
IsControl c = (c ≡ control_v1234_reg) ⊎ (c ≡ control_v5678_reg)

-- The documented behaviour of chips that answer: `reg e a c` is control register `c` of chip `a` in
-- state `e`. Channel enables, with that of Vcc and the internal temperature, are the upper five bits of a register whose
-- other bits the chip writes.
pub record IsRegisterFile {E : Type 0} (k : Adapter E) (reg : E → ℕ → ℕ → ℕ) : Type 0 where
  pub write_ok :
      (a c v : ℕ) (e : E)
      → IsControl c
      → v < 2 ^ 8
      → let (ret, _, e') = k.i2c_transfer (send a 2 (c ∷ v ∷ []) ∷ []) e in
        (ret ≡ pos 1) × (reg e' a c ≡ v) × ((b d : ℕ) → (b ≢ a) ⊎ (d ≢ c) → reg e' b d ≡ reg e b d)
  pub enable_ok :
      (a v : ℕ) (e : E)
      → v < 2 ^ 8
      → let (ret, _, e') = k.i2c_transfer (send a 2 (channel_enable_reg ∷ v ∷ []) ∷ []) e in
        (ret ≡ pos 1)
        × (reg e' a channel_enable_reg / 8 ≡ v / 8)
        × ((b d : ℕ) → (b ≢ a) ⊎ (d ≢ channel_enable_reg) → reg e' b d ≡ reg e b d)
  pub read_ok :
      (a c old : ℕ) (e : E)
      → IsControl c
      → let (ret, bufs, e') = k.i2c_transfer (send a 1 (c ∷ []) ∷ receive a 1 (old ∷ []) ∷ []) e in
        (ret ≡ pos 2)
        × (get_or (get_or bufs 1 []) 0 0 ≡ reg e a c)
        × ((b d : ℕ) → reg e' b d ≡ reg e b d)
  pub byte : (a c : ℕ) (e : E) → reg e a c < 2 ^ 8

module _ {E : Type 0} (k : Adapter E) (reg : E → ℕ → ℕ → ℕ) (chip : IsRegisterFile k reg) where
  -- What a change of register `c` of chip `a` to `x` means for all registers.
  abbrev pub Changed : ℕ → ℕ → ℕ → E → E → Type 0
  Changed a c x e e' = (reg e' a c ≡ x) × ((b d : ℕ) → (b ≢ a) ⊎ (d ≢ c) → reg e' b d ≡ reg e b d)

  byte_write :
      (a c v : ℕ) (w : World E) {d : ℕ}
      → IsControl c
      → v < 2 ^ 8
      → w.new_client ≡ some d
      → Ensures
          (register_write k a c v w)
          (λ ack u. (ack ≡ 0) × (u.new_client ≡ some a) × Changed a c v w.bus u.bus)
  unfolding register_write
  byte_write a c v w r l h = ground (arith, chip.write_ok a c v w.bus r l)

  byte_read :
      (a c old : ℕ) (w : World E) {d : ℕ}
      → IsControl c
      → w.new_client ≡ some d
      → Ensures (register_read k a c old w) (λ r u.
        (r.0 ≡ 0)
        × (r.1 ≡ reg w.bus a c)
        × (u.new_client ≡ some a)
        × ((b d : ℕ) → reg u.bus b d ≡ reg w.bus b d))
  unfolding register_read
  byte_read a c old w r h = ground (arith, chip.read_ok a c old w.bus r, chip.byte a c w.bus)

  -- On chips that answer, and with the driver's client in place, `LTC2991_register_set_clear_bits` on one
  -- of the two control registers acknowledges, writes the register's own value with the bits set and
  -- cleared, and changes no other register of either chip.
  pub set_clear_bits-Changed :
      (a c s cl : ℕ) (w : World E) {d : ℕ}
      → IsControl c
      → w.new_client ≡ some d
      → Ensures (register_set_clear_bits k a c s cl w) (λ ack u.
        (ack ≡ 0)
        × (u.new_client ≡ some a)
        × Changed a c (set_clear (reg w.bus a c) s cl) w.bus u.bus)
  unfolding register_set_clear_bits
  set_clear_bits-Changed a c s cl w r h =
      Ensures-bind (register_read k a c (k.uninit w.bus)) _ w _ _
        (byte_read a c (k.uninit w.bus) w r h)
        (λ x u p.
          Ensures-bind (register_write k a c (set_clear x.1 s cl)) _ u _ _
            (byte_write a c (set_clear x.1 s cl) u r (omega arith) p.2)
            (λ ack v q. (
              rw (p.0, q.0) refl,
              q.1,
              (q.2.0 ∙ ap (λ x. set_clear x s cl) p.1, λ b d ne. q.2.1 b d ne ∙ p.3 b d),
            )))
