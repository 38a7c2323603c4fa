-- ===== src/Tests/Commands.antt =====
-- Runs of the console of the RapidIO driver.
use powerpc_i2c_temp.Prelude.{
  ℕ, ◌≡◌, refl, arith, true, some, List, [], ◌∷◌, ◌++◌, ◌+◌, ◌*◌, length,
}
use powerpc_i2c_temp.Str2hex.{str2hex}
use powerpc_i2c_temp.Console.Text.{codes, format_loop, format_space}
use powerpc_i2c_temp.Console.Squeeze.{format_space-squeeze}
use powerpc_i2c_temp.Console.Joins.{format_space_joins}
use powerpc_i2c_temp.Console.Bounds.{format_loop-within}
use powerpc_i2c_temp.Console.Commands.{Console, wrote, riooutb, wan_write}
use powerpc_i2c_temp.Console.Running.{setoutb, wan_write-Command}

abbrev console : Console
console = record { copied = true; kmalloc = λ size. some 0xc0001000; ioremap = λ addr size. true }

abbrev wide : List ℕ
wide = codes " ab  c " ++ 0 ∷ []

-- The word after a gap of three spaces is joined with the next one.
formatted : format_space wide ≡ some (codes "ab c" ++ 0 ∷ 0 ∷ 0 ∷ 0 ∷ [])
unfolding format_space
formatted = refl

joined :
    format_space (codes "a   b c" ++ 0 ∷ 0 ∷ []) ≡ some (codes "a bc" ++ 0 ∷ 0 ∷ 99 ∷ 0 ∷ 0 ∷ [])
unfolding format_space
joined = refl

format_space-squeeze_example : (z' : List ℕ) × (format_space wide ≡ some (codes "ab c" ++ 0 ∷ z'))
format_space-squeeze_example = format_space-squeeze (codes " ab  c ") [] refl refl (λ e. cc)

format_space_joins_example :
    (y : List ℕ) × (format_space (codes "a   b c" ++ 0 ∷ 0 ∷ []) ≡ some (codes "a bc" ++ 0 ∷ y))
format_space_joins_example = format_space_joins 96 97 (codes "c") (0 ∷ []) refl refl refl refl

format_loop-within_example :
    (b : List ℕ) × (format_loop (2 * 8 + 1) true wide ≡ some b) × (length b ≡ 8)
format_loop-within_example = format_loop-within wide refl

-- The window 1 for device 2, and the same by the result on all commands.
abbrev map_window : List ℕ
map_window = codes "setoutb c0400000 e0000000 100000 2 1" ++ 10 ∷ []

wan_write-Command_example :
    wan_write console map_window ≡ wrote 37 (some (riooutb 0xc0400000 0xe0000000 0x100000 2 1))
unfolding str2hex
wan_write-Command_example =
    wan_write-Command console
      (setoutb (codes "c0400000") (codes "e0000000") (codes "100000") (codes "2") (codes "1")) refl
      refl (omega arith)
