-- ===== src/Bmc/Display.antt =====
-- How `TempVInfoUpdata` packs a sample into a word.
use powerpc_i2c_temp.Prelude.{
  ℕ, ◌+◌, ◌-◌, ◌*◌, ◌/◌, ◌%◌, ◌^◌, ◌<◌, ◌≤◌, ◌≡◌, ◌⊎◌, inl, inr, refl, ap, ◌∙◌, arith, bit_or,
}
use powerpc_i2c_temp.Prelude.Int.{pos}
use powerpc_i2c_temp.Prelude.Word.{u32, to_u32, ◌<<<◌}
use powerpc_i2c_temp.Prelude.Bits.{bit_or_fields, bit_and_high}
use powerpc_i2c_temp.Sensor.{SensorInfo, positive, negative, temp_info, volt_info}
use powerpc_i2c_temp.Sensor.Values.{sample_of, temp_info_lem, volt_info_lem}
use powerpc_i2c_temp.Bmc.Updates.{vtemp_word}

-- A word that shows a value: the whole part in the high bytes, the hundredths in the lowest one.
pub record IsShown (word : ℕ) (v : SensorInfo) : Type 0 where
  pub whole : ℕ
  pub hundredths : ℕ
  pub whole_of : v.hvtemp ≡ pos whole
  pub hundredths_of : v.lvtemp ≡ pos hundredths
  pub below : hundredths < 100
  pub word_of_value : word ≡ whole * 256 + hundredths

word_bits :
    (v : SensorInfo) (a b : ℕ)
    → v.hvtemp ≡ pos a
    → v.lvtemp ≡ pos b
    → a < 2 ^ 10
    → b < 100
    → bit_or (u32 (to_u32 v.hvtemp <<< 8)) (to_u32 v.lvtemp) ≡ a * 256 + b
word_bits v a b h l p q =
    let high : a % 2 ^ 32 * 2 ^ 8 % 2 ^ 32 ≡ a * 2 ^ 8 = omega arith in
    let low : b % 2 ^ 32 ≡ b = omega arith in
    let fields : bit_or (a * 2 ^ 8) b ≡ a * 256 + b = bit_or_fields 8 a b (omega arith) in
    rw (h, l, high, low) fields

vtemp_word-positive :
    (v : SensorInfo) (a b : ℕ)
    → v.hvtemp ≡ pos a
    → v.lvtemp ≡ pos b
    → a < 2 ^ 10
    → b < 100
    → u32 (vtemp_word positive v) ≡ a * 256 + b
unfolding vtemp_word
vtemp_word-positive v a b h l p q = omega (arith, word_bits v a b h l p q)

vtemp_word-negative :
    (v : SensorInfo) (a b : ℕ)
    → v.hvtemp ≡ pos a
    → v.lvtemp ≡ pos b
    → a < 2 ^ 6
    → b < 100
    → u32 (vtemp_word negative v) ≡ 0
unfolding vtemp_word
vtemp_word-negative v a b h l p q =
    rw (word_bits v a b h l (omega arith) q, bit_and_high 15 (a * 256 + b) (omega arith)) refl

-- The two words of a sample, by the sign that is tested.
module _ (v : SensorInfo) (sign n unit cent : ℕ) (e : v ≡ sample_of sign n unit cent) where
  IsShown-value :
      n / unit < 2 ^ 10
      → n % unit / cent < 100
      → (v.sign ≡ sign) × IsShown (u32 (vtemp_word positive v)) v
  IsShown-value p q = (
    ap (λ x. x.sign) e,
    record {
      whole = n / unit;
      hundredths = n % unit / cent;
      whole_of = ap (λ x. x.hvtemp) e;
      hundredths_of = ap (λ x. x.lvtemp) e;
      below = q;
      word_of_value = vtemp_word-positive v _ _ (ap (λ x. x.hvtemp) e) (ap (λ x. x.lvtemp) e) p q;
    },
  )

  hidden_value : n / unit < 2 ^ 6 → n % unit / cent < 100 → u32 (vtemp_word negative v) ≡ 0
  hidden_value p q = vtemp_word-negative v _ _ (ap (λ x. x.hvtemp) e) (ap (λ x. x.lvtemp) e) p q

pub temp-IsShown :
    (v : SensorInfo) (c : ℕ)
    → v ≡ temp_info c
    → (v.sign ≡ positive) × IsShown (u32 (vtemp_word positive v)) v
temp-IsShown v c e =
    IsShown-value v positive (c % 2 ^ 13 * 625) 10000 100 (e ∙ temp_info_lem c) (omega arith)
      (omega arith)

-- What is shown of a voltage, by the sign that is tested.
abbrev pub VoltShown : SensorInfo → Type 0
VoltShown v =
    ((v.sign ≡ positive) ⊎ (v.sign ≡ negative))
    × IsShown (u32 (vtemp_word positive v)) v
    × (u32 (vtemp_word negative v) ≡ 0)

volts_shown :
    (v : SensorInfo) (sign n : ℕ)
    → n ≤ 2 ^ 14 * 305
    → (sign ≡ positive) ⊎ (sign ≡ negative)
    → v ≡ sample_of sign n 1000000 10000
    → VoltShown v
volts_shown v sign n l s e =
    let p = IsShown-value v sign n 1000000 10000 e (omega arith) (omega arith) in
    (rw p.0 s, p.1, hidden_value v sign n 1000000 10000 e (omega arith) (omega arith))

pub volt_shown : (v : SensorInfo) (c : ℕ) → c < 2 ^ 15 → v ≡ volt_info c → VoltShown v
volt_shown v c h e = elim (volt_info_lem c h) [
  | inl (low, i) ↦ volts_shown v positive (c * 305) (omega arith) (inl refl) (e ∙ i)
  | inr (inl (mid, i)) ↦ volts_shown v positive 0 (omega arith) (inl refl) (e ∙ i)
  | inr (inr (high, i)) ↦
      volts_shown v negative ((2 ^ 15 - c) * 305) (omega arith) (inr refl) (e ∙ i)
]
