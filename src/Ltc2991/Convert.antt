-- ===== src/Ltc2991/Convert.antt =====
-- The conversions of i2c/LTC2991.c from an ADC code to a value. An `int16_t` is its bit pattern until it is
-- cast to `int`; the scale `lsb` is an `int`.
use powerpc_i2c_temp.Prelude.{ℕ, ◌+◌, bit_and, bit_or, bit_xor, ◌==◌, if◌then◌else◌, Bool}
use powerpc_i2c_temp.Prelude.Int.{ℤ, pos, negsuc, ◌+ℤ◌, ◌*ℤ◌}
use powerpc_i2c_temp.Prelude.Word.{u16, asr16, int16}

-- `if (adc_code >> 14) { adc_code = (adc_code ^ 0x7FFF) + 1; sign = -1; }`
abbrev pub magnitude : ℕ → ℕ
magnitude adc_code = if asr16 adc_code 14 == 0 then adc_code else u16 (bit_xor adc_code 0x7FFF + 1)

abbrev pub sign_of : ℕ → ℤ
sign_of adc_code = if asr16 adc_code 14 == 0 then pos 1 else negsuc 0

unfoldable pub code_to_single_ended_voltage : ℕ → ℤ → ℤ
code_to_single_ended_voltage adc_code lsb =
    int16 (bit_and (magnitude adc_code) 0x3FFF) *ℤ lsb *ℤ sign_of adc_code

unfoldable pub code_to_vcc_voltage : ℕ → ℤ → ℤ
code_to_vcc_voltage adc_code lsb = int16 (magnitude adc_code) *ℤ lsb *ℤ sign_of adc_code +ℤ pos 2

unfoldable pub code_to_differential_voltage : ℕ → ℤ → ℤ
code_to_differential_voltage adc_code lsb = int16 (magnitude adc_code) *ℤ lsb *ℤ sign_of adc_code

-- `unit` is true for Kelvin.
unfoldable pub temperature : ℕ → ℤ → Bool → ℤ
temperature adc_code lsb unit =
    let code = bit_and adc_code 0x1FFF in
    let extended =
      if unit then code else (if asr16 code 12 == 0 then code else u16 (bit_or code 0xE000)) in
    int16 extended *ℤ lsb

unfoldable pub code_to_diode_voltage : ℕ → ℤ → ℤ
code_to_diode_voltage adc_code lsb = int16 (bit_and adc_code 0x1FFF) *ℤ lsb
