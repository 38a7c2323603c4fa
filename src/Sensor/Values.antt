-- ===== src/Sensor/Values.antt =====
-- What the sensor module makes of an ADC code: sign, whole part and hundredths.
use powerpc_i2c_temp.Prelude.{
  ℕ, suc, ◌-◌, ◌*◌, ◌/◌, ◌%◌, ◌^◌, ◌≤◌, ◌<◌, ◌≡◌, ◌⊎◌, inl, inr, refl, ap, ◌∙◌, arith, true, false,
}
use native.Mathlib.Decide.{dec_lt}
use powerpc_i2c_temp.Prelude.Int.{ℤ, pos, negsuc, ◌*ℤ◌, ltb_ℤ, neg_ℤ}
use powerpc_i2c_temp.Ltc2991.{code_to_single_ended_voltage}
use powerpc_i2c_temp.Ltc2991.Volts.{signed15, temperature_lem, single_ended_voltage-signed15}
use powerpc_i2c_temp.Sensor.Defs.{
  SensorInfo, positive, negative, temperature_lsb, single_ended_lsb, record_value, temp_info,
  volt_info,
}

-- A sample that stands for `n` in units of which `unit` make a whole one: hundredths are cut off.
abbrev pub sample_of : ℕ → ℕ → ℕ → ℕ → SensorInfo
sample_of sign n unit cent = record {
  sign = sign;
  hvtemp = pos (n / unit);
  lvtemp = pos (n % unit / cent);
}

not_negative : (n : ℕ) → ltb_ℤ (pos n) (pos 0) ≡ false
not_negative n = ground arith

is_negative : (n : ℕ) → ltb_ℤ (negsuc n) (pos 0) ≡ true
is_negative n = ground arith

negated : (n : ℕ) → neg_ℤ (negsuc n) ≡ pos (suc n)
negated n = ground arith

record_pos : (n unit cent : ℕ) → record_value (pos n) unit cent ≡ sample_of positive n unit cent
unfolding record_value
record_pos n unit cent = rw (not_negative n) refl

record_neg :
    (n unit cent : ℕ) → record_value (negsuc n) unit cent ≡ sample_of negative (suc n) unit cent
unfolding record_value
record_neg n unit cent = rw (is_negative n, negated n) refl

pos_mul : (a b : ℕ) → pos a *ℤ pos b ≡ pos (a * b)
pos_mul a b = ground arith

neg_mul : (d b : ℕ) → negsuc d *ℤ pos (suc b) ≡ negsuc (suc d * suc b - 1)
neg_mul d b = ground arith

signed15_high : (c : ℕ) → 2 ^ 14 ≤ c → c < 2 ^ 15 → signed15 c ≡ negsuc (2 ^ 15 - 1 - c)
signed15_high c l h = ground arith

signed15_low : (c : ℕ) → c < 2 ^ 14 → signed15 c ≡ pos c
signed15_low c h = ground arith

-- A temperature is the low 13 bits of the code in units of 1/16 degree, as an unsigned number: its sign is
-- always that of a positive value.
pub temp_info_lem : (c : ℕ) → temp_info c ≡ sample_of positive (c % 2 ^ 13 * 625) 10000 100
unfolding temp_info
temp_info_lem c =
    rw ((temperature_lem c temperature_lsb).0, pos_mul (c % 2 ^ 13) 625)
      (record_pos (c % 2 ^ 13 * 625) 10000 100)

volt_of_voltage :
    (c : ℕ) (v : ℤ)
    → code_to_single_ended_voltage c single_ended_lsb ≡ v
    → volt_info c ≡ record_value v 1000000 10000
unfolding volt_info
volt_of_voltage c v e = rw e refl

-- A voltage is the signed 15-bit code in units of 305 microvolts: its sign and its magnitude. The most
-- negative code gives 0.
pub volt_info_lem :
    (c : ℕ)
    → c < 2 ^ 15
    → ((c < 2 ^ 14) × (volt_info c ≡ sample_of positive (c * 305) 1000000 10000))
      ⊎ ((c ≡ 2 ^ 14) × (volt_info c ≡ sample_of positive 0 1000000 10000))
      ⊎ ((2 ^ 14 < c) × (volt_info c ≡ sample_of negative ((2 ^ 15 - c) * 305) 1000000 10000))
volt_info_lem c h = elim (single_ended_voltage-signed15 c single_ended_lsb h) [
  | inr (e, v) ↦ inr (inl (e, volt_of_voltage c _ v ∙ record_pos 0 1000000 10000))
  | inl (ne, v) ↦ elim (dec_lt c (2 ^ 14)) [
    | yes low ↦ inl (
      low,
      volt_of_voltage c _ (v ∙ rw (signed15_low c low) (pos_mul c 305))
          ∙ record_pos (c * 305) 1000000 10000,
    )
    | no high ↦
        let d = 2 ^ 15 - 1 - c in
        let size : suc (suc d * 305 - 1) ≡ (2 ^ 15 - c) * 305 = omega arith in
        inr (
          inr (
            omega arith,
            volt_of_voltage c _ (v ∙ rw (signed15_high c (omega arith) h) (neg_mul d 304))
                ∙ record_neg (suc d * 305 - 1) 1000000 10000
                ∙ ap (λ n. sample_of negative n 1000000 10000) size,
          ))
  ]
]
