-- ===== src/Prelude/Word.antt =====
-- Machine words: a `w`-bit value is its bit pattern, a number below `2 ^ w`. Casts cut bits off, and a
-- signed reading of a pattern is an integer.
use powerpc_i2c_temp.Prelude.{ℕ, ◌-◌, ◌*◌, ◌/◌, ◌%◌, ◌^◌, ltb, if◌then◌else◌}
use powerpc_i2c_temp.Prelude.Int.{ℤ, pos, negsuc}

abbrev pub u8 : ℕ → ℕ
u8 n = n % 2 ^ 8

abbrev pub u16 : ℕ → ℕ
u16 n = n % 2 ^ 16

abbrev pub u32 : ℕ → ℕ
u32 n = n % 2 ^ 32

abbrev pub u64 : ℕ → ℕ
u64 n = n % 2 ^ 64

infixl 75 ◌<<<◌ ◌>>>◌
abbrev pub ◌<<<◌ : ℕ → ℕ → ℕ
x <<< k = x * 2 ^ k

abbrev pub ◌>>>◌ : ℕ → ℕ → ℕ
x >>> k = x / 2 ^ k

-- `~x` of a 32-bit value.
abbrev pub not32 : ℕ → ℕ
not32 x = 2 ^ 32 - 1 - x

-- The `int16_t` that a pattern below `2 ^ 16` stands for, and the `int` of a 32-bit pattern.
abbrev pub int16 : ℕ → ℤ
int16 p = if ltb p (2 ^ 15) then pos p else negsuc (2 ^ 16 - 1 - p)

-- `x >> k` of an `int16_t`: the sign is shifted in.
abbrev pub asr16 : ℕ → ℕ → ℕ
asr16 p k = if ltb p (2 ^ 15) then p / 2 ^ k else 2 ^ 16 - 1 - (2 ^ 16 - 1 - p) / 2 ^ k

-- The conversion of an `int` to `unsigned int`.
abbrev pub to_u32 : ℤ → ℕ
to_u32 (pos n) = n % 2 ^ 32
to_u32 (negsuc n) = 2 ^ 32 - 1 - n % 2 ^ 32
