-- ===== src/Tests/Bus.antt =====
-- Runs of the bus driver on concrete kernels.
use powerpc_i2c_temp.Prelude.{◌≡◌, refl, some}
use powerpc_i2c_temp.Tests.Bench.{steady, idle}
use powerpc_i2c_temp.I2c.{i2c_read_word_data}

read_word :
    i2c_read_word_data steady 0x4D 0x0A 0 (record idle { new_client = some 0 })
    ≡ some ((0, 0x8190), record idle { new_client = some 0x4D; bus = 1 })
unfolding i2c_read_word_data
read_word = refl
