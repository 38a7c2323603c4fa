-- ===== src/Sensor/Setup.antt =====
-- What `CreatThreadMain` does to the two chips when the module is loaded, if they answer.
use powerpc_i2c_temp.Prelude.{
  ℕ, ◌-◌, ◌/◌, ◌^◌, ◌<◌, ◌≡◌, ◌≢◌, ◌⊎◌, inl, inr, refl, ap, ◌∙◌, arith, some, min, max,
}
use powerpc_i2c_temp.Prelude.Int.{pos}
use powerpc_i2c_temp.Prelude.Bits.{bit_at}
use powerpc_i2c_temp.I2c.{Adapter, World, Ensures, Ensures-bind, Ensures-mono, i2c_write_byte_data}
use powerpc_i2c_temp.Ltc2991.{register_set_clear_bits, set_clear}
use powerpc_i2c_temp.Ltc2991.Chip.{IsRegisterFile, set_clear_bits-Changed, bit_at-set_clear}
use powerpc_i2c_temp.Ltc2991.Registers.{
  temp_address, v_address, channel_enable_reg, control_v1234_reg, control_v5678_reg,
}
use powerpc_i2c_temp.Sensor.Defs.{creat_thread_main}

module _ {E : Type 0} (k : Adapter E) (reg : E → ℕ → ℕ → ℕ) (chip : IsRegisterFile k reg) where
  enable_write :
      (a v : ℕ) (w : World E) {d : ℕ}
      → v < 2 ^ 8
      → w.new_client ≡ some d
      → Ensures (i2c_write_byte_data k a channel_enable_reg v w) (λ ack u.
        (ack ≡ 0)
        × (u.new_client ≡ some a)
        × (reg u.bus a channel_enable_reg / 8 ≡ v / 8)
        × ((b d : ℕ) → (b ≢ a) ⊎ (d ≢ channel_enable_reg) → reg u.bus b d ≡ reg w.bus b d))
  unfolding i2c_write_byte_data
  enable_write a v w l h = ground (arith, chip.enable_ok a v w.bus l)

  -- The registers after the set-up, from those before it.
  abbrev AreSetUp : E → E → Type 0
  AreSetUp e e' =
      (reg e' v_address control_v1234_reg ≡ set_clear (reg e v_address control_v1234_reg) 0 0x33)
      × (reg e' v_address control_v5678_reg ≡ set_clear (reg e v_address control_v5678_reg) 0 0x03)
      × (reg e' temp_address control_v1234_reg
          ≡ set_clear (reg e temp_address control_v1234_reg) 0x22 0)
      × (reg e' temp_address control_v5678_reg
          ≡ set_clear (reg e temp_address control_v5678_reg) 0x22 0)
      × (reg e' v_address channel_enable_reg / 8 ≡ 0x1e)
      × (reg e' temp_address channel_enable_reg / 8 ≡ 0x1e)

  set_up :
      (w : World E) {d : ℕ}
      → w.new_client ≡ some d
      → Ensures (creat_thread_main k w) (λ r v. (r ≡ pos 0) × AreSetUp w.bus v.bus)
  unfolding creat_thread_main
  set_up w h =
      Ensures-bind (register_set_clear_bits k v_address 6 0 0x33) _ w _ _
        (set_clear_bits-Changed k reg chip v_address 6 0 0x33 w (inl refl) h)
        (λ _ w1 p1.
          Ensures-bind (register_set_clear_bits k v_address 7 0 0x03) _ w1 _ _
            (set_clear_bits-Changed k reg chip v_address 7 0 0x03 w1 (inr refl) p1.1)
            (λ _ w2 p2.
              Ensures-bind (register_set_clear_bits k temp_address 6 0x22 0) _ w2 _ _
                (set_clear_bits-Changed k reg chip temp_address 6 0x22 0 w2 (inl refl) p2.1)
                (λ _ w3 p3.
                  Ensures-bind (register_set_clear_bits k temp_address 7 0x22 0) _ w3 _ _
                    (set_clear_bits-Changed k reg chip temp_address 7 0x22 0 w3 (inr refl) p3.1)
                    (λ _ w4 p4.
                      Ensures-bind (i2c_write_byte_data k v_address channel_enable_reg 0xf0) _ w4 _
                        _ (enable_write v_address 0xf0 w4 (omega arith) p4.1)
                        (λ _ w5 p5.
                          Ensures-bind (i2c_write_byte_data k temp_address channel_enable_reg 0xf0)
                            _ w5 _ _ (enable_write temp_address 0xf0 w5 (omega arith) p5.1)
                            (λ _ w6 p6. (
                              refl,
                              (
                                p6.3 v_address 6 (inr (omega arith))
                                    ∙ p5.3 v_address 6 (inr (omega arith))
                                    ∙ p4.2.1 v_address 6 (inl (omega arith))
                                    ∙ p3.2.1 v_address 6 (inl (omega arith))
                                    ∙ p2.2.1 v_address 6 (inr (omega arith))
                                    ∙ p1.2.0,
                                p6.3 v_address 7 (inr (omega arith))
                                    ∙ p5.3 v_address 7 (inr (omega arith))
                                    ∙ p4.2.1 v_address 7 (inl (omega arith))
                                    ∙ p3.2.1 v_address 7 (inl (omega arith))
                                    ∙ p2.2.0
                                    ∙ ap (λ x. set_clear x 0 0x03)
                                        (p1.2.1 v_address 7 (inr (omega arith))),
                                p6.3 temp_address 6 (inr (omega arith))
                                    ∙ p5.3 temp_address 6 (inr (omega arith))
                                    ∙ p4.2.1 temp_address 6 (inr (omega arith))
                                    ∙ p3.2.0
                                    ∙ ap (λ x. set_clear x 0x22 0)
                                        (p2.2.1 temp_address 6 (inl (omega arith))
                                          ∙ p1.2.1 temp_address 6 (inl (omega arith))),
                                p6.3 temp_address 7 (inr (omega arith))
                                    ∙ p5.3 temp_address 7 (inr (omega arith))
                                    ∙ p4.2.0
                                    ∙ ap (λ x. set_clear x 0x22 0)
                                        (p3.2.1 temp_address 7 (inr (omega arith))
                                          ∙ p2.2.1 temp_address 7 (inl (omega arith))
                                          ∙ p1.2.1 temp_address 7 (inl (omega arith))),
                                ap (λ x. x / 8)
                                      (p6.3 v_address channel_enable_reg (inl (omega arith)))
                                    ∙ p5.2,
                                p6.2,
                              ),
                            )))))))

  -- What the set-up asks of one control register: the bits of `set` are 1, those of `clear` that are not
  -- set are 0, and all others are as before.
  abbrev pub Configured : ℕ → ℕ → ℕ → ℕ → E → E → Type 0
  Configured a c set clear e e' =
      (i : ℕ)
      → i < 8
      → bit_at (reg e' a c) i ≡ max (min (bit_at (reg e a c) i) (1 - bit_at clear i)) (bit_at set i)

  Configured-set_clear :
      (a c set clear : ℕ) (e e' : E)
      → clear < 2 ^ 8
      → reg e' a c ≡ set_clear (reg e a c) set clear
      → Configured a c set clear e e'
  Configured-set_clear a c set clear e e' h new i l =
      ap (λ x. bit_at x i) new ∙ bit_at-set_clear (reg e a c) set clear i h l

  -- With two chips that answer and a driver that has its client, `CreatThreadMain` returns 0. The voltage chip then has bits 0, 1, 4 and 5
  -- of its first control register and bits 0 and 1 of its second one cleared (single-ended voltages),
  -- the temperature chip has bits 1 and 5 of both set (temperatures), every other bit of the four
  -- registers is as before, and of both chips the channels V1 to V8 are enabled and that of Vcc and the internal
  -- temperature is not.
  pub creat_thread_main-Configured :
      (w : World E) {d : ℕ}
      → w.new_client ≡ some d
      → Ensures (creat_thread_main k w) (λ r v.
        (r ≡ pos 0)
        × Configured v_address control_v1234_reg 0 0x33 w.bus v.bus
        × Configured v_address control_v5678_reg 0 0x03 w.bus v.bus
        × Configured temp_address control_v1234_reg 0x22 0 w.bus v.bus
        × Configured temp_address control_v5678_reg 0x22 0 w.bus v.bus
        × (reg v.bus v_address channel_enable_reg / 8 ≡ 0x1e)
        × (reg v.bus temp_address channel_enable_reg / 8 ≡ 0x1e))
  creat_thread_main-Configured w h = Ensures-mono (creat_thread_main k w) _ _ (set_up w h) (λ r v p.
      (
        p.0,
        Configured-set_clear v_address control_v1234_reg 0 0x33 w.bus v.bus (omega arith) p.1.0,
        Configured-set_clear v_address control_v5678_reg 0 0x03 w.bus v.bus (omega arith) p.1.1,
        Configured-set_clear temp_address control_v1234_reg 0x22 0 w.bus v.bus (omega arith) p.1.2,
        Configured-set_clear temp_address control_v5678_reg 0x22 0 w.bus v.bus (omega arith) p.1.3,
        p.1.4,
        p.1.5,
      ))
