-- ===== src/Sensor/Module.antt =====
-- `ThreadMain_init` and `ThreadMain_exit`: the life of the sensor module, and its place after the bus driver.
use powerpc_i2c_temp.Prelude.{ℕ, ◌≡◌, Bool, true, false, if◌then◌else◌, none, List, arith}
use powerpc_i2c_temp.Prelude.Int.{ℤ, pos}
use powerpc_i2c_temp.I2c.{
  Adapter, World, M, pure, ◌>>=◌, fresh, i2c_read_byte_data, i2c_read_word_data,
}
use powerpc_i2c_temp.Ltc2991.{register_set_clear_bits, register_read, adc_read_new_data, adc_read}
use powerpc_i2c_temp.Sensor.Defs.{SensorInfo, creat_thread_main, sensor_read, sample, read_temps}

module _ {E : Type 0} (k : Adapter E) where
  -- `granted` tells whether `register_chrdev` grants the number, `registered` whether the module holds it;
  -- the answer is not read, and the result is always 0.
  unfoldable pub thread_main_init : Bool → Bool → M E (ℤ × Bool)
  thread_main_init granted registered = do
    r ← creat_thread_main k
    pure (pos 0, if granted then true else registered)

-- `unregister_chrdev`
pub thread_main_exit : Bool → Bool
thread_main_exit registered = false

-- If the bus driver has no client yet, loading the sensor module faults, and so does a read of its device:
-- both dereference the null `new_client` at the first transfer.
pub loaded_too_early :
    {E : Type 0} (k : Adapter E) (granted registered : Bool) (uncopied : ℕ)
    (values : List SensorInfo) (w : World E)
    → w.new_client ≡ none
    → (thread_main_init k granted registered w ≡ none) × (sensor_read k uncopied values w ≡ none)
unfolding thread_main_init creat_thread_main register_set_clear_bits register_read sensor_read
    sample read_temps adc_read_new_data adc_read i2c_read_byte_data i2c_read_word_data fresh
loaded_too_early k granted registered uncopied values w h = (ground arith, ground arith)
