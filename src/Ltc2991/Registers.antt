-- ===== src/Ltc2991/Registers.antt =====
-- The constants of i2c/LTC2991.h that the program uses.
use powerpc_i2c_temp.Prelude.{ℕ}

-- Addresses of the two chips on the bus.
abbrev pub temp_address : ℕ
temp_address = 0x4D

abbrev pub v_address : ℕ
v_address = 0x4B

-- Registers.
abbrev pub channel_enable_reg : ℕ
channel_enable_reg = 0x01

abbrev pub control_v1234_reg : ℕ
control_v1234_reg = 0x06

abbrev pub control_v5678_reg : ℕ
control_v5678_reg = 0x07

abbrev pub v1_msb_reg : ℕ
v1_msb_reg = 0x0A

-- Bits of `control_v1234_reg`.
abbrev pub v3_v4_temp_enable : ℕ
v3_v4_temp_enable = 0x20

abbrev pub v3_v4_differential_enable : ℕ
v3_v4_differential_enable = 0x10

abbrev pub v1_v2_temp_enable : ℕ
v1_v2_temp_enable = 0x02

abbrev pub v1_v2_differential_enable : ℕ
v1_v2_differential_enable = 0x01

-- Bits of `control_v5678_reg`.
abbrev pub v7_v8_temp_enable : ℕ
v7_v8_temp_enable = 0x20

abbrev pub v5_v6_temp_enable : ℕ
v5_v6_temp_enable = 0x02

abbrev pub v5_v6_differential_enable : ℕ
v5_v6_differential_enable = 0x01
