-- ===== src/Tests/Chip.antt =====
-- Runs of the chip library and of the sensor module.
use powerpc_i2c_temp.Prelude.{ℕ, zero, suc, Option, ap, ◌/◌, ◌≡◌, ◌≢◌, refl, arith, none, some}
use powerpc_i2c_temp.Prelude.Int.{pos}
use powerpc_i2c_temp.I2c.{World, Ensures, i2c_read_word_data, fresh, sleep}
use powerpc_i2c_temp.Ltc2991.{Reading, adc_read, adc_read_timeout, temperature}
use powerpc_i2c_temp.Ltc2991.Registers.{
  v_address, temp_address, control_v1234_reg, control_v5678_reg, channel_enable_reg,
}
use powerpc_i2c_temp.Ltc2991.Polling.{Meter, metered, Polled, adc_read_timeout_polls}
use powerpc_i2c_temp.Ltc2991.Fresh.{attempt, StaleBefore, adc_read_timeout-first_valid}
use powerpc_i2c_temp.Sensor.{
  initial_values, temp_info, sample, record_value, sensor_read, creat_thread_main, positive,
}
use powerpc_i2c_temp.Sensor.Sampling.{
  Within, Sampled, Delivered, sample_completes, sensor_read_delivers,
}
use powerpc_i2c_temp.Sensor.Setup.{Configured, creat_thread_main-Configured}
use powerpc_i2c_temp.Tests.Bench.{steady, late, probed, chips, chips-IsRegisterFile, reg, Registers}

abbrev clocked : World (Meter ℕ)
clocked = probed (record { state = 0; transfers = 0; slept = 0 })

abbrev old_registers : Registers
old_registers a c = 0x5a

-- 25.00 degrees above 0 K, and -0.02 volts.
temp_25 : temp_info 400 ≡ record { sign = positive; hvtemp = pos 25; lvtemp = pos 0 }
unfolding temp_info temperature record_value
temp_25 = refl

adc_read_timeout_polls_example :
    Ensures
      (adc_read_timeout (metered late) 0x4D 0x0A 7 0 10 clocked)
      (Polled late 0x4D 0x0A 10 clocked)
adc_read_timeout_polls_example = adc_read_timeout_polls late 0x4D 0x0A 7 0 10 clocked refl

-- The valid bit of an outcome.
abbrev valid_of : Option (Reading × World ℕ) → ℕ
valid_of none = 0
valid_of (some (r, _)) = r.data_valid

stale_valid :
    (o : Option (Reading × World ℕ)) (r : Reading) (v : World ℕ)
    → valid_of o ≡ 0
    → o ≡ some (r, v)
    → r.data_valid ≢ 1
stale_valid o r v z e one = let same : valid_of o ≡ r.data_valid = ap valid_of e in omega arith

late_stale : StaleBefore late 0x4D 0x0A 2 (probed 0)
unfolding attempt adc_read i2c_read_word_data fresh sleep
late_stale zero l r v e = stale_valid (attempt late 0x4D 0x0A 0 (probed 0)) r v refl e
late_stale (suc zero) l r v e = stale_valid (attempt late 0x4D 0x0A 1 (probed 0)) r v refl e
late_stale (suc (suc m)) l r v e = absurd (omega arith)

adc_read_timeout-first_valid_example :
    (ack : ℕ) × (adc_read_timeout late 0x4D 0x0A 7 0 10 (probed 0)
      ≡ some (
        record { ack = ack; adc_code = 400; data_valid = 1 },
        record (probed 3) { new_client = some 0x4D },
      ))
unfolding attempt adc_read i2c_read_word_data fresh sleep
adc_read_timeout-first_valid_example =
    adc_read_timeout-first_valid late 0x4D 0x0A 7 0 2 10
      (record { ack = 0; adc_code = 400; data_valid = 1 }) (probed 0)
      (record (probed 3) { new_client = some 0x4D }) (omega arith) late_stale refl refl

creat_thread_main-Configured_example :
    Ensures (creat_thread_main chips (probed old_registers)) (λ r v.
      let configured = Configured chips reg chips-IsRegisterFile in
      (r ≡ pos 0)
      × configured v_address control_v1234_reg 0 0x33 old_registers v.bus
      × configured v_address control_v5678_reg 0 0x03 old_registers v.bus
      × configured temp_address control_v1234_reg 0x22 0 old_registers v.bus
      × configured temp_address control_v5678_reg 0x22 0 old_registers v.bus
      × (reg v.bus v_address channel_enable_reg / 8 ≡ 0x1e)
      × (reg v.bus temp_address channel_enable_reg / 8 ≡ 0x1e))
creat_thread_main-Configured_example =
    creat_thread_main-Configured chips reg chips-IsRegisterFile (probed old_registers) refl

sample_completes_example :
    Ensures
      (sample (metered steady) initial_values clocked)
      (λ vs v. Within steady 62 52 clocked v × Sampled steady vs)
sample_completes_example = sample_completes steady initial_values clocked refl refl

sensor_read_delivers_example :
    Ensures
      (sensor_read (metered steady) 4 initial_values clocked)
      (λ r v. Within steady 62 52 clocked v × Delivered steady 4 r)
sensor_read_delivers_example = sensor_read_delivers steady 4 initial_values clocked refl refl
