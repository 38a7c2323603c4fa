-- ===== src/Prelude/Bits.antt =====
-- Laws of `&`, `|`, `^` and `~` on bit patterns, which the library gives at numerals only: masks, disjoint
-- fields, complement, and each binary digit of a result.
mod Digit
use Digit.{bit_and-digit, bit_or-digit, bit_xor-digit, bit_or-zero}
pub use Digit.{bit_or_comm, bit_and-zero}
use Prim.Native.Nat.{differ}
use native.Mathlib.Nat.{pow-suc, one-le-pow, div-add-mod'}
use powerpc_i2c_temp.Prelude.{
  ℕ, zero, suc, ◌+◌, ◌-◌, ◌*◌, ◌/◌, ◌%◌, ◌^◌, ◌≤◌, ◌<◌, min, max, bit_and, bit_or, bit_xor, ◌≡◌,
  refl, ap, arith,
}

differ-one : (d : ℕ) → d < 2 → differ d 1 ≡ 1 - d
differ-one zero h = refl
differ-one (suc zero) h = refl
differ-one (suc (suc d)) h = absurd (omega arith)

-- What one step of an induction on the width uses.
two_pow-suc : (k q : ℕ) → (2 ^ suc k ≡ 2 * 2 ^ k) × (1 ≤ 2 ^ k) × (q * 2 ^ suc k ≡ 2 * (q * 2 ^ k))
two_pow-suc k q = (
  omega (arith, pow-suc 2 k),
  one-le-pow k 2 (omega arith),
  omega (arith, ap (λ (t : ℕ). q * t) (pow-suc 2 k)),
)

and_low : (k q r : ℕ) → r < 2 ^ k → bit_and (q * 2 ^ k + r) (2 ^ k - 1) ≡ r
and_low zero q r h = rw bit_and-zero (omega arith)
and_low (suc k) q r h = ground (
  arith,
  bit_and-digit (q * 2 ^ suc k + r) (2 ^ suc k - 1),
  two_pow-suc k q,
  and_low k q (r / 2) (omega (arith, two_pow-suc k q)),
)

-- `x & 0b1…1` with `k` ones is the remainder by `2 ^ k`.
pub bit_and_mask : (k x : ℕ) → bit_and x (2 ^ k - 1) ≡ x % 2 ^ k
bit_and_mask k x =
    ground (arith, one-le-pow k 2, div-add-mod' x (2 ^ k), and_low k (x / 2 ^ k) (x % 2 ^ k))

quarter : (x y : ℕ) → bit_and x y / 4 ≡ bit_and (x / 4) (y / 4)
quarter x y =
    let a : x / 2 / 2 ≡ x / 4 = omega arith in
    let b : y / 2 / 2 ≡ y / 4 = omega arith in
    let half : bit_and (x / 2) (y / 2) / 2 ≡ bit_and (x / 2 / 2) (y / 2 / 2) =
      omega (arith, bit_and-digit (x / 2) (y / 2)) in
    let half' : bit_and (x / 2) (y / 2) / 2 ≡ bit_and (x / 4) (y / 4) = rw (a, b) at half in
    omega (arith, bit_and-digit x y, half')

-- `(x & y) >> 8` is the same of both numbers shifted.
pub bit_and_byte : (x y : ℕ) → bit_and x y / 256 ≡ bit_and (x / 256) (y / 256)
bit_and_byte x y =
    let a : x / 4 / 4 / 4 / 4 ≡ x / 256 = omega arith in
    let b : y / 4 / 4 / 4 / 4 ≡ y / 256 = omega arith in
    let last : bit_and (x / 4 / 4 / 4) (y / 4 / 4 / 4) / 4 ≡ bit_and (x / 256) (y / 256) =
      rw (a, b) at (quarter (x / 4 / 4 / 4) (y / 4 / 4 / 4)) in
    omega (arith, quarter x y, quarter (x / 4) (y / 4), quarter (x / 4 / 4) (y / 4 / 4), last)

-- Bit `k` of a `k`-bit pattern is clear.
pub bit_and_high : (k x : ℕ) → x < 2 ^ k → bit_and x (2 ^ k) ≡ 0
bit_and_high zero zero h = refl
bit_and_high zero (suc x) h = absurd (omega arith)
bit_and_high (suc k) x h = ground (
  arith,
  bit_and-digit x (2 ^ suc k),
  two_pow-suc k 0,
  bit_and_high k (x / 2) (omega (arith, two_pow-suc k 0)),
)

-- `(q << k) | r` is a sum when `r` has at most `k` bits.
pub bit_or_fields : (k q r : ℕ) → r < 2 ^ k → bit_or (q * 2 ^ k) r ≡ q * 2 ^ k + r
bit_or_fields zero q zero h = rw bit_or-zero (omega arith)
bit_or_fields zero q (suc r) h = absurd (omega arith)
bit_or_fields (suc k) q r h = ground (
  arith,
  bit_or-digit (q * 2 ^ suc k) r,
  two_pow-suc k q,
  bit_or_fields k q (r / 2) (omega (arith, two_pow-suc k q)),
)

-- `&` of two words with fields below and above bit `k` goes field by field.
pub bit_and_fields :
    (k a b r s : ℕ)
    → r < 2 ^ k
    → s < 2 ^ k
    → bit_and (a * 2 ^ k + r) (b * 2 ^ k + s) ≡ bit_and a b * 2 ^ k + bit_and r s
bit_and_fields zero a b zero zero h l =
    let whole : (n : ℕ) → n * 2 ^ 0 + 0 ≡ n = λ n. omega arith in
    rw (whole a, whole b, bit_and-zero) (omega arith)
bit_and_fields zero a b zero (suc s) h l = absurd (omega arith)
bit_and_fields zero a b (suc r) s h l = absurd (omega arith)
bit_and_fields (suc k) a b r s h l = ground (
  arith,
  bit_and-digit (a * 2 ^ suc k + r) (b * 2 ^ suc k + s),
  bit_and-digit r s,
  two_pow-suc k a,
  two_pow-suc k b,
  two_pow-suc k (bit_and a b),
  bit_and_fields k a b (r / 2) (s / 2) (omega (arith, two_pow-suc k 0))
      (omega (arith, two_pow-suc k 0)),
)

-- `x ^ 0b1…1` with `k` ones is the complement of a `k`-bit pattern.
pub bit_xor_ones : (k x : ℕ) → x < 2 ^ k → bit_xor x (2 ^ k - 1) ≡ 2 ^ k - 1 - x
bit_xor_ones zero zero h = refl
bit_xor_ones zero (suc x) h = absurd (omega arith)
bit_xor_ones (suc k) x h = ground (
  arith,
  bit_xor-digit x (2 ^ suc k - 1),
  two_pow-suc k 0,
  differ-one (x % 2) (omega arith),
  bit_xor_ones k (x / 2) (omega (arith, two_pow-suc k 0)),
)

-- Digit `i` of `x`.
abbrev pub bit_at : ℕ → ℕ → ℕ
bit_at x zero = x % 2
bit_at x (suc i) = bit_at (x / 2) i

pub bit_at-lt : (x i : ℕ) → bit_at x i < 2
bit_at-lt x zero = omega arith
bit_at-lt x (suc i) = bit_at-lt (x / 2) i

pub bit_at-and : (x y i : ℕ) → bit_at (bit_and x y) i ≡ min (bit_at x i) (bit_at y i)
bit_at-and x y zero = omega (arith, bit_and-digit x y)
bit_at-and x y (suc i) =
    let half : bit_and x y / 2 ≡ bit_and (x / 2) (y / 2) = omega (arith, bit_and-digit x y) in
    rw half (bit_at-and (x / 2) (y / 2) i)

pub bit_at-or : (x y i : ℕ) → bit_at (bit_or x y) i ≡ max (bit_at x i) (bit_at y i)
bit_at-or x y zero = omega (arith, bit_or-digit x y)
bit_at-or x y (suc i) =
    let half : bit_or x y / 2 ≡ bit_or (x / 2) (y / 2) = omega (arith, bit_or-digit x y) in
    rw half (bit_at-or (x / 2) (y / 2) i)

-- The complement of a `k`-bit pattern flips each of its digits.
pub bit_at-complement : (k x i : ℕ) → x < 2 ^ k → i < k → bit_at (2 ^ k - 1 - x) i ≡ 1 - bit_at x i
bit_at-complement zero x i h l = elim l [ ]
bit_at-complement (suc k) x zero h l = omega (arith, two_pow-suc k 0)
bit_at-complement (suc k) x (suc i) h l =
    let half : (2 ^ suc k - 1 - x) / 2 ≡ 2 ^ k - 1 - x / 2 = omega (arith, two_pow-suc k 0) in
    rw half (bit_at-complement k (x / 2) i (omega (arith, two_pow-suc k 0)) (omega arith))

bit_at-ones : (k i : ℕ) → i < k → bit_at (2 ^ k - 1) i ≡ 1
bit_at-ones zero i l = elim l [ ]
bit_at-ones (suc k) zero l = omega (arith, two_pow-suc k 0)
bit_at-ones (suc k) (suc i) l =
    let half : (2 ^ suc k - 1) / 2 ≡ 2 ^ k - 1 = omega (arith, two_pow-suc k 0) in
    rw half (bit_at-ones k i (omega arith))

-- Cutting a value to `k` bits keeps those digits.
pub bit_at-mod : (k x i : ℕ) → i < k → bit_at (x % 2 ^ k) i ≡ bit_at x i
bit_at-mod k x i l =
    rw (← bit_and_mask k x)
      (omega (arith, bit_at-and x (2 ^ k - 1) i, bit_at-ones k i l, bit_at-lt x i))
