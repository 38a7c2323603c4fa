-- ===== src/Str2hex.antt =====
-- fun_test/str2hex.c: the number that a hexadecimal text stands for. `value` is the pattern of an `int` of 32
-- bits; a text is its bytes before the final 0.
use native.Mathlib.Nat.{pow-suc, mod-add-div, add-mul, mul_assoc}
use powerpc_i2c_temp.Prelude.{
  ℕ, suc, sym, ◌/◌, ◌+◌, ◌-◌, ◌*◌, ◌%◌, ◌^◌, ◌<◌, ◌≡◌, ap, ◌∙◌, arith, bit_or, leb, ◌&&◌,
  if◌then◌else◌, List, [], ◌∷◌, length,
}
use powerpc_i2c_temp.Prelude.Word.{u32, ◌<<<◌}
use powerpc_i2c_temp.Prelude.Bits.{bit_or_fields}

str2hexnum : ℕ → ℕ
str2hexnum c =
    if leb b'0' c && leb c b'9'
    then c - b'0'
    else (if leb b'a' c && leb c b'f'
        then c - b'a' + 10
        else (if leb b'A' c && leb c b'F' then c - b'A' + 10 else 0))

-- The loop, with `value` so far.
str2hex_loop : ℕ → List ℕ → ℕ
str2hex_loop value [] = value
str2hex_loop value (c ∷ str) = str2hex_loop (bit_or (u32 (value <<< 4)) (str2hexnum c)) str

unfoldable pub str2hex : List ℕ → ℕ
unfolding str2hex_loop str2hexnum
str2hex str = str2hex_loop 0 str

-- A hexadecimal digit and its value.
pub data IsHexDigit : ℕ → ℕ → Type 0 where
  decimal_digit : (d : ℕ) → d < 10 → IsHexDigit (b'0' + d) d
  lower_digit : (d : ℕ) → d < 6 → IsHexDigit (b'a' + d) (10 + d)
  upper_digit : (d : ℕ) → d < 6 → IsHexDigit (b'A' + d) (10 + d)

-- A text with its value in base 16, the most significant digit first.
pub data IsHexText : List ℕ → ℕ → Type 0 where
  empty_text : IsHexText [] 0
  next_digit :
      (c d : ℕ) (str : List ℕ) (n : ℕ)
      → IsHexDigit c d
      → IsHexText str n
      → IsHexText (c ∷ str) (d * 16 ^ length str + n)

str2hexnum-IsHexDigit : (c d : ℕ) → IsHexDigit c d → (str2hexnum c ≡ d) × (d < 16)
unfolding str2hexnum
str2hexnum-IsHexDigit c d (decimal_digit e h) = ground arith
str2hexnum-IsHexDigit c d (lower_digit e h) = ground arith
str2hexnum-IsHexDigit c d (upper_digit e h) = ground arith

shift_in : (value d : ℕ) → d < 16 → bit_or (u32 (value <<< 4)) d ≡ u32 (value * 16 + d)
shift_in value d h =
    let e : value * 16 % 2 ^ 32 ≡ value % 2 ^ 28 * 2 ^ 4 = omega arith in
    rw e (bit_or_fields 4 (value % 2 ^ 28) d h ∙ omega arith)

-- What is above 32 bits does not come back.
mod_scale : (x k n : ℕ) → u32 (u32 x * k + n) ≡ u32 (x * k + n)
mod_scale x k n =
    let split : x % 2 ^ 32 * k + 2 ^ 32 * (x / 2 ^ 32 * k) ≡ x * k = sym (
      ap (λ (t : ℕ). t * k) (sym (mod-add-div x (2 ^ 32)))
      ∙ add-mul (x % 2 ^ 32) (2 ^ 32 * (x / 2 ^ 32)) k
      ∙ ap (λ (t : ℕ). x % 2 ^ 32 * k + t) (mul_assoc (2 ^ 32) (x / 2 ^ 32) k)) in
    omega (arith, split)

horner : (value d l n : ℕ) → (value * 16 + d) * 16 ^ l + n ≡ value * 16 ^ suc l + (d * 16 ^ l + n)
horner value d l n =
    let power : 16 ^ suc l ≡ 16 * 16 ^ l = omega (arith, pow-suc 16 l) in
    rw (power, add-mul (value * 16) d (16 ^ l), mul_assoc value 16 (16 ^ l)) (omega arith)

str2hex_loop-IsHexText :
    (value n : ℕ) (str : List ℕ)
    → IsHexText str n
    → value < 2 ^ 32
    → str2hex_loop value str ≡ u32 (value * 16 ^ length str + n)
unfolding str2hex_loop
str2hex_loop-IsHexText value n str empty_text h = omega arith
str2hex_loop-IsHexText value n str (next_digit c d rest m digit text) h =
    let (number, small) = str2hexnum-IsHexDigit c d digit in
    let next : bit_or (u32 (value <<< 4)) (str2hexnum c) ≡ u32 (value * 16 + d) =
      rw number (shift_in value d small) in
    ap (λ v. str2hex_loop v rest) next
    ∙ str2hex_loop-IsHexText (u32 (value * 16 + d)) m rest text (omega arith)
    ∙ mod_scale (value * 16 + d) (16 ^ length rest) m
    ∙ ap u32 (horner value d (length rest) m)

-- `str2hex` of a text of hexadecimal digits, with or without "0x" before it, is the number that the text
-- writes in base 16, modulo 2^32.
pub str2hex-IsHexText :
    (n : ℕ) (str : List ℕ)
    → IsHexText str n
    → (str2hex str ≡ u32 n) × (str2hex (b'0' ∷ b'x' ∷ str) ≡ u32 n)
unfolding str2hex str2hex_loop str2hexnum
str2hex-IsHexText n str text = (
  str2hex_loop-IsHexText 0 n str text (omega arith) ∙ ap u32 (omega arith),
  str2hex_loop-IsHexText 0 n str text (omega arith) ∙ ap u32 (omega arith),
)
