-- ===== src/Console/Joins.antt =====
-- What `format_space` of rapidio/rionet.c does to a gap that is too wide: it skips what follows the gap.
use powerpc_i2c_temp.Prelude.{
  ℕ, suc, ◌+◌, ◌-◌, ◌*◌, ◌<◌, ◌==◌, ◌≡◌, refl, ap, ◌∙◌, arith, true, false, Option, some, List, [],
  ◌∷◌, ◌++◌, length, drop,
}
use powerpc_i2c_temp.Rmu.Entries.{if-eq_false}
use powerpc_i2c_temp.Console.Text.{
  space, c_string, shift, go_on, close_gap, format_step, format_loop, trim_text, format_space,
}
use powerpc_i2c_temp.Console.Squeeze.{
  plain, narrow, squeeze, chop, c_string-plain, squeeze-plain, loop_go, other, loop_squeeze,
  trim-nonempty, fuel_enough,
}

-- At two spaces inside a gap, with one byte, a space and a text after them: the byte is passed by.
two_spaces :
    (d : ℕ) (t z : List ℕ)
    → plain t ≡ true
    → (suc d == space) ≡ false
    → (y : List ℕ) × (format_step true (space ∷ space ∷ suc d ∷ space ∷ t ++ 0 ∷ z)
        ≡ go_on (suc d ∷ []) true (space ∷ t ++ 0 ∷ y))
unfolding format_step close_gap shift c_string
two_spaces d t z h e =
    let buffer = space ∷ space ∷ suc d ∷ space ∷ t ++ 0 ∷ z in
    (
      drop (length t) (space ∷ t ++ 0 ∷ z),
      ap (λ (k : ℕ). close_gap (suc (suc k)) buffer) (if-eq_false (suc d == space) _ _ e)
          ∙ rw (c_string-plain t z h) refl,
    )

-- The text that the loop leaves.
loop_joins :
    (c d fuel : ℕ) (t z : List ℕ)
    → plain t ≡ true
    → narrow true (space ∷ t) ≡ true
    → (suc c == space) ≡ false
    → (suc d == space) ≡ false
    → length (space ∷ t) < fuel
    → (y : List ℕ) × (format_loop
          (suc (suc (suc fuel)))
          true
          (suc c ∷ space ∷ space ∷ space ∷ suc d ∷ space ∷ t ++ 0 ∷ z)
        ≡ some (suc c ∷ space ∷ suc d ∷ squeeze true t ++ 0 ∷ y))
unfolding format_step
loop_joins c d fuel t z h n p q l =
    let (x, e) = two_spaces d t z h q in
    let (y, r) = loop_squeeze (space ∷ t) x fuel true h n l in
    let third = loop_go fuel true true _ (suc d ∷ []) _ _ e r in
    let second =
      loop_go (suc fuel) false true (space ∷ space ∷ space ∷ suc d ∷ space ∷ t ++ 0 ∷ z)
        (space ∷ []) _ _ refl third in
    (y, loop_go (suc (suc fuel)) true false _ (suc c ∷ []) _ _ (other true c _ p) second)

-- A byte, a gap of three spaces, another byte, and after one space more a text in which no gap is wider than two spaces: the
-- space after the second byte is lost, and the byte is joined with the word that follows.
pub format_space_joins :
    (c d : ℕ) (t z : List ℕ)
    → plain t ≡ true
    → narrow true (space ∷ t) ≡ true
    → (suc c == space) ≡ false
    → (suc d == space) ≡ false
    → (y : List ℕ) × (format_space (suc c ∷ space ∷ space ∷ space ∷ suc d ∷ space ∷ t ++ 0 ∷ z)
        ≡ some (chop (suc c ∷ space ∷ suc d ∷ squeeze true t) ++ 0 ∷ y))
unfolding format_space
format_space_joins c d t z h n p q =
    let buffer = suc c ∷ space ∷ space ∷ space ∷ suc d ∷ space ∷ t ++ 0 ∷ z in
    let fuel : 2 * length buffer + 1 ≡ suc (suc (suc (2 * length buffer - 2))) = omega arith in
    let enough : length (space ∷ t) < 2 * length buffer - 2 =
      let a = fuel_enough t z in omega arith in
    let (x, e) = loop_joins c d (2 * length buffer - 2) t z h n p q enough in
    let left = suc c ∷ space ∷ suc d ∷ squeeze true t in
    let clean : plain left ≡ true = let a = squeeze-plain true t h in ground arith in
    let (y, r) = trim-nonempty left x clean (λ empty. cc) in
    (
      y,
      ap (λ (o : Option (List ℕ)). trim_text o) (ap (λ (f : ℕ). format_loop f true buffer) fuel ∙ e)
          ∙ r,
    )
