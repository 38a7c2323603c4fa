-- ===== src/Prelude/Bits/Digit.antt =====
-- One equation for the lowest digit of each bit operation, from the recursion on digits by which the
-- prelude states them. Induction on `a / 2` then goes by a bound on `a`.
use Prim.Native.Nat.{digits, differ, bit_and-bitwise, bit_or-bitwise, bit_xor-bitwise}
use powerpc_i2c_temp.Prelude.{
  ℕ, zero, suc, ◌+◌, ◌*◌, ◌/◌, ◌%◌, ◌≤◌, min, max, bit_and, bit_or, bit_xor, ◌≡◌, refl, arith,
}

module _ (rest : ℕ → ℕ) (op : ℕ → ℕ → ℕ) where
  -- Two counts of digits that both reach the whole first number give the same result.
  same_digits : (a b j k : ℕ) → a ≤ j → a ≤ k → digits rest op j a b ≡ digits rest op k a b
  same_digits zero b zero zero p q = refl
  same_digits zero b zero (suc k) p q = refl
  same_digits zero b (suc j) zero p q = refl
  same_digits zero b (suc j) (suc k) p q = refl
  same_digits (suc a) b zero k p q = elim p [ ]
  same_digits (suc a) b (suc j) zero p q = elim q [ ]
  same_digits (suc a) b (suc j) (suc k) p q =
      rw (same_digits (suc a / 2) (b / 2) j k (omega arith) (omega arith))

  digits-suc :
      (a b : ℕ)
      → digits rest op (suc a) (suc a) b
        ≡ digits rest op (suc a / 2) (suc a / 2) (b / 2) * 2 + op (suc a % 2) (b % 2)
  digits-suc a b = rw (same_digits (suc a / 2) (b / 2) a (suc a / 2) (omega arith) (omega arith))

pub bit_and-digit : (a b : ℕ) → bit_and a b ≡ bit_and (a / 2) (b / 2) * 2 + min (a % 2) (b % 2)
bit_and-digit zero b = simp bit_and-bitwise (omega arith)
bit_and-digit (suc a) b = simp bit_and-bitwise (digits-suc (λ y. 0) min a b)

pub bit_or-digit : (a b : ℕ) → bit_or a b ≡ bit_or (a / 2) (b / 2) * 2 + max (a % 2) (b % 2)
bit_or-digit zero b = simp bit_or-bitwise (omega arith)
bit_or-digit (suc a) b = simp bit_or-bitwise (digits-suc (λ y. y) max a b)

pub bit_xor-digit : (a b : ℕ) → bit_xor a b ≡ bit_xor (a / 2) (b / 2) * 2 + differ (a % 2) (b % 2)
bit_xor-digit zero b = simp bit_xor-bitwise (omega arith)
bit_xor-digit (suc a) b = simp bit_xor-bitwise (digits-suc (λ y. y) differ a b)

-- Induction on `a / 2`, by a bound on `a`.
and-zero_below : (k a : ℕ) → a ≤ k → bit_and a 0 ≡ 0
and-zero_below k zero h = refl
and-zero_below zero (suc a) h = elim h [ ]
and-zero_below (suc k) (suc a) h =
    omega (arith, bit_and-digit (suc a) 0, and-zero_below k (suc a / 2) (omega arith))

pub bit_and-zero : (a : ℕ) → bit_and a 0 ≡ 0
bit_and-zero a = and-zero_below a a (omega arith)

or-zero_below : (k a : ℕ) → a ≤ k → bit_or a 0 ≡ a
or-zero_below k zero h = refl
or-zero_below zero (suc a) h = elim h [ ]
or-zero_below (suc k) (suc a) h =
    omega (arith, bit_or-digit (suc a) 0, or-zero_below k (suc a / 2) (omega arith))

pub bit_or-zero : (a : ℕ) → bit_or a 0 ≡ a
bit_or-zero a = or-zero_below a a (omega arith)

zero-bit_or : (b : ℕ) → bit_or 0 b ≡ b
zero-bit_or b = bit_or-bitwise 0 b

or_comm_below : (k a b : ℕ) → a ≤ k → bit_or a b ≡ bit_or b a
or_comm_below k zero b h = omega (arith, zero-bit_or b, bit_or-zero b)
or_comm_below zero (suc a) b h = elim h [ ]
or_comm_below (suc k) (suc a) b h = omega (
  arith,
  bit_or-digit (suc a) b,
  bit_or-digit b (suc a),
  or_comm_below k (suc a / 2) (b / 2) (omega arith),
)

pub bit_or_comm : (a b : ℕ) → bit_or a b ≡ bit_or b a
bit_or_comm a b = or_comm_below a a b (omega arith)
