-- ===== src/Sensor/Defs.antt =====
-- `CreatThreadMain` and `sensor_read`. The module's global array is passed along and returned.
use powerpc_i2c_temp.Prelude.{
  ℕ, zero, suc, ◌+◌, bit_or, ◌==◌, if◌then◌else◌, true, Option, none, some, List, [], ◌∷◌, set,
}
use powerpc_i2c_temp.Prelude.Int.{ℤ, pos, negsuc, ltb_ℤ, neg_ℤ, div_ℤ, mod_ℤ}
use powerpc_i2c_temp.Prelude.Word.{u8}
use powerpc_i2c_temp.I2c.{Adapter, M, pure, ◌>>=◌, i2c_write_byte_data}
use powerpc_i2c_temp.Ltc2991.{
  adc_read_new_data, register_set_clear_bits, temperature, code_to_single_ended_voltage,
}
use powerpc_i2c_temp.Ltc2991.Registers.{
  temp_address, v_address, channel_enable_reg, control_v1234_reg, control_v5678_reg, v1_msb_reg,
  v3_v4_temp_enable, v3_v4_differential_enable, v1_v2_temp_enable, v1_v2_differential_enable,
  v7_v8_temp_enable, v5_v6_temp_enable, v5_v6_differential_enable,
}

abbrev pub positive : ℕ
positive = 0

abbrev pub negative : ℕ
negative = 1

abbrev pub single_ended_lsb : ℤ
single_ended_lsb = pos 305

abbrev pub temperature_lsb : ℤ
temperature_lsb = pos 625

abbrev pub temp_delay_ms : ℕ
temp_delay_ms = 10

abbrev pub v_delay_ms : ℕ
v_delay_ms = 2

abbrev pub sensor_t_max_num : ℕ
sensor_t_max_num = 4

abbrev pub sensor_v_max_num : ℕ
sensor_v_max_num = 6

abbrev pub sensor_temp_total : ℕ
sensor_temp_total = 4

-- `st_sensorinfo`; the two `int` fields are integers.
pub record SensorInfo : Type 0 where
  pub sign : ℕ
  pub hvtemp : ℤ
  pub lvtemp : ℤ

abbrev pub no_value : SensorInfo
no_value = record { sign = positive; hvtemp = pos 0; lvtemp = pos 0 }

-- `stasensor_value` as the module is loaded.
abbrev pub initial_values : List SensorInfo
initial_values =
    no_value ∷ no_value ∷ no_value ∷ no_value ∷ no_value ∷ no_value ∷ no_value ∷ no_value ∷ no_value
    ∷ no_value ∷ []

-- The sign of a sample, and its magnitude split at `unit`; `cent` is a hundredth of `unit`.
unfoldable pub record_value : ℤ → ℕ → ℕ → SensorInfo
record_value v unit cent =
    let size = if ltb_ℤ v (pos 0) then neg_ℤ v else v in
    record {
      sign = if ltb_ℤ v (pos 0) then negative else positive;
      hvtemp = div_ℤ size unit;
      lvtemp = div_ℤ (mod_ℤ size unit) cent;
    }

-- A temperature in units of 1/10000 degree, and a voltage in microvolts.
unfoldable pub temp_info : ℕ → SensorInfo
temp_info adc_code = record_value (temperature adc_code temperature_lsb true) 10000 100

unfoldable pub volt_info : ℕ → SensorInfo
volt_info adc_code =
    record_value (code_to_single_ended_voltage adc_code single_ended_lsb) 1000000 10000

-- What a read of the device hands to the process: `-EFAULT`, which is -14, if the copy fails, else the
-- buffer's new content and no return value, since the function ends without a `return`. After a failed
-- copy nothing is said of the buffer.
pub record ReadResult : Type 0 where
  pub ret : Option ℤ
  pub buffer : Option (List SensorInfo)
  pub values : List SensorInfo

module _ {E : Type 0} (k : Adapter E) where
  -- The two loops, with `left` rounds to go.
  unfoldable pub read_temps : ℕ → ℕ → ℕ → List SensorInfo → M E (List SensorInfo)
  read_temps zero index reg values = pure values
  read_temps (suc left) index reg values = do
    r ← adc_read_new_data k temp_address reg temp_delay_ms
    read_temps left (index + 1) (u8 (reg + 0x04)) (set values index (temp_info r.adc_code))

  unfoldable pub read_volts : ℕ → ℕ → ℕ → List SensorInfo → M E (List SensorInfo)
  read_volts zero index reg values = pure values
  read_volts (suc left) index reg values = do
    r ← adc_read_new_data k v_address reg v_delay_ms
    read_volts left (index + 1) (u8 (reg + 0x02))
        (set values (index + sensor_temp_total) (volt_info r.adc_code))

  -- All samples, in the order in which the two loops take them.
  unfoldable pub sample : List SensorInfo → M E (List SensorInfo)
  sample values = do
    temps ← read_temps sensor_t_max_num 0 v1_msb_reg values
    read_volts sensor_v_max_num 0 v1_msb_reg temps

  unfoldable pub creat_thread_main : M E ℤ
  creat_thread_main = do
    a ← register_set_clear_bits k v_address control_v1234_reg 0x00 (
        bit_or
          (bit_or (bit_or v1_v2_differential_enable v1_v2_temp_enable) v3_v4_differential_enable)
          v3_v4_temp_enable)
    b ←
        register_set_clear_bits k v_address control_v5678_reg 0x00
          (bit_or v5_v6_differential_enable v5_v6_temp_enable)
    c ←
        register_set_clear_bits k temp_address control_v1234_reg
          (bit_or v1_v2_temp_enable v3_v4_temp_enable) 0x00
    d ←
        register_set_clear_bits k temp_address control_v5678_reg
          (bit_or v5_v6_temp_enable v7_v8_temp_enable) 0x00
    e ← i2c_write_byte_data k v_address channel_enable_reg 0xf0
    f ← i2c_write_byte_data k temp_address channel_enable_reg 0xf0
    pure (pos 0)

  -- `copy_to_user` answers the number of bytes that it could not copy.
  unfoldable pub sensor_read : ℕ → List SensorInfo → M E ReadResult
  sensor_read uncopied values = do
    now ← sample values
    pure (
        if uncopied == 0
        then record { ret = none; buffer = some now; values = now }
        else record { ret = some (negsuc 13); buffer = none; values = now })
