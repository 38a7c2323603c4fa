-- ===== src/Ltc2991/Volts.antt =====
-- The conversions read a code as the two's complement number that the chip sends, times the scale.
use powerpc_i2c_temp.Prelude.{
  ℕ, suc, ◌+◌, ◌-◌, ◌%◌, ◌^◌, ◌≤◌, ◌<◌, ◌≡◌, ◌≢◌, ◌⊎◌, inl, inr, refl, arith, bit_and, bit_or, ltb,
  ◌==◌, if◌then◌else◌, true, false,
}
use native.Mathlib.Decide.{dec_lt, ℕ_discrete}
use powerpc_i2c_temp.Prelude.Int.{ℤ, pos, negsuc, ◌+ℤ◌, ◌*ℤ◌}
use powerpc_i2c_temp.Prelude.Bits.{bit_and_mask, bit_xor_ones, bit_or_fields, bit_or_comm}
use powerpc_i2c_temp.Prelude.Word.{u16, int16, asr16}
use powerpc_i2c_temp.Ltc2991.Convert.{
  magnitude, sign_of, code_to_single_ended_voltage, code_to_vcc_voltage,
  code_to_differential_voltage, temperature, code_to_diode_voltage,
}

-- The number that a 15-bit, and a 13-bit, two's complement pattern stands for.
abbrev pub signed15 : ℕ → ℤ
signed15 c = if ltb c (2 ^ 14) then pos c else negsuc (2 ^ 15 - 1 - c)

abbrev pub signed13 : ℕ → ℤ
signed13 c = if ltb c (2 ^ 12) then pos c else negsuc (2 ^ 13 - 1 - c)

magnitude_low : (c : ℕ) → c < 2 ^ 14 → magnitude c ≡ c
magnitude_low c h = ground arith

magnitude_high : (c : ℕ) → 2 ^ 14 ≤ c → c < 2 ^ 15 → magnitude c ≡ 2 ^ 15 - c
magnitude_high c l h = ground (arith, bit_xor_ones 15 c)

mul-one : (c : ℕ) (lsb : ℤ) → pos c *ℤ lsb *ℤ pos 1 ≡ pos c *ℤ lsb
mul-one c (pos n) = ground arith
mul-one c (negsuc n) = ground arith

mul-minus_one : (c : ℕ) (lsb : ℤ) → pos (suc c) *ℤ lsb *ℤ negsuc 0 ≡ negsuc c *ℤ lsb
mul-minus_one c (pos n) = ground arith
mul-minus_one c (negsuc n) = ground arith

-- The factors of a code in each half of the range.
factors_low :
    (c : ℕ)
    → c < 2 ^ 14
    → (int16 (magnitude c) ≡ pos c) × (sign_of c ≡ pos 1) × (signed15 c ≡ pos c)
factors_low c h = ground (arith, magnitude_low c h)

factors_high :
    (c d : ℕ)
    → c + suc d ≡ 2 ^ 15
    → suc d ≤ 2 ^ 14
    → (int16 (magnitude c) ≡ pos (suc d)) × (sign_of c ≡ negsuc 0) × (signed15 c ≡ negsuc d)
factors_high c d e h = ground (arith, magnitude_high c (omega arith) (omega arith))

signed_product :
    (c : ℕ) (lsb : ℤ) → c < 2 ^ 15 → int16 (magnitude c) *ℤ lsb *ℤ sign_of c ≡ signed15 c *ℤ lsb
signed_product c lsb h = elim (dec_lt c (2 ^ 14)) [
  | yes low ↦ let f = factors_low c low in rw (f.0, f.1, f.2) (mul-one c lsb)
  | no high ↦
      let f = factors_high c (2 ^ 15 - 1 - c) (omega arith) (omega arith) in
      rw (f.0, f.1, f.2) (mul-minus_one (2 ^ 15 - 1 - c) lsb)
]

-- A differential voltage is the signed code times the scale, for every code that `LTC2991_adc_read`
-- can return.
pub differential_voltage-signed15 :
    (c : ℕ) (lsb : ℤ) → c < 2 ^ 15 → code_to_differential_voltage c lsb ≡ signed15 c *ℤ lsb
unfolding code_to_differential_voltage
differential_voltage-signed15 c lsb h = signed_product c lsb h

-- The supply voltage is that, plus 2.
pub vcc_voltage-signed15 :
    (c : ℕ) (lsb : ℤ) → c < 2 ^ 15 → code_to_vcc_voltage c lsb ≡ signed15 c *ℤ lsb +ℤ pos 2
unfolding code_to_vcc_voltage
vcc_voltage-signed15 c lsb h = rw (signed_product c lsb h)

mask_of_magnitude : (c : ℕ) → c < 2 ^ 15 → c ≢ 2 ^ 14 → bit_and (magnitude c) 0x3FFF ≡ magnitude c
mask_of_magnitude c h ne = elim (dec_lt c (2 ^ 14)) [
  | yes low ↦ omega (arith, bit_and_mask 14 (magnitude c), magnitude_low c low)
  | no high ↦ omega (arith, bit_and_mask 14 (magnitude c), magnitude_high c (omega arith) h)
]

zero-mul : (lsb s : ℤ) → pos 0 *ℤ lsb *ℤ s ≡ pos 0
zero-mul lsb s = ground arith

-- A single-ended voltage is the signed code times the scale for every code but the most negative one,
-- which reads as 0.
pub single_ended_voltage-signed15 :
    (c : ℕ) (lsb : ℤ)
    → c < 2 ^ 15
    → ((c ≢ 2 ^ 14) × (code_to_single_ended_voltage c lsb ≡ signed15 c *ℤ lsb))
      ⊎ ((c ≡ 2 ^ 14) × (code_to_single_ended_voltage c lsb ≡ pos 0))
unfolding code_to_single_ended_voltage
single_ended_voltage-signed15 c lsb h = elim (ℕ_discrete c (2 ^ 14)) [
  | yes e ↦ inr (e, rw e (zero-mul lsb (negsuc 0)))
  | no ne ↦ inl (ne, rw (mask_of_magnitude c h ne) (signed_product c lsb h))
]

low13 : (c : ℕ) → bit_and c 0x1FFF ≡ c % 2 ^ 13
low13 c = bit_and_mask 13 c

int16_low : (d : ℕ) → d < 2 ^ 15 → int16 d ≡ pos d
int16_low d h = ground arith

extend13 :
    (d : ℕ) → d < 2 ^ 13 → int16 (if asr16 d 12 == 0 then d else u16 (bit_or d 0xE000)) ≡ signed13 d
extend13 d h = elim (dec_lt d (2 ^ 12)) [
  | yes low ↦ ground arith
  | no high ↦ ground (arith, bit_or_comm d 0xE000, bit_or_fields 13 7 d)
]

-- A temperature in Kelvin is the low 13 bits of the code times the scale; in Celsius it is those bits
-- as a signed number times the scale.
pub temperature_lem :
    (c : ℕ) (lsb : ℤ)
    → (temperature c lsb true ≡ pos (c % 2 ^ 13) *ℤ lsb)
      × (temperature c lsb false ≡ signed13 (c % 2 ^ 13) *ℤ lsb)
unfolding temperature
temperature_lem c lsb = (
  rw (low13 c, int16_low (c % 2 ^ 13) (omega arith)) refl,
  rw (low13 c, extend13 (c % 2 ^ 13) (omega arith)) refl,
)

-- A diode voltage is the low 13 bits of the code times the scale.
diode_voltage_lem : (c : ℕ) (lsb : ℤ) → code_to_diode_voltage c lsb ≡ pos (c % 2 ^ 13) *ℤ lsb
unfolding code_to_diode_voltage
diode_voltage_lem c lsb = rw (low13 c, int16_low (c % 2 ^ 13) (omega arith)) refl
