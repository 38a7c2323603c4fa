-- ===== src/Rmu/Entries.antt =====
-- Places in the rings of rapidio/fsl_rmu.c.
use native.Mathlib.Nat.{mod-eq_of_lt, mod-eq-sub-mod}
use native.Mathlib.Decide.{dec_lt}
use powerpc_i2c_temp.Prelude.{
  ℕ, zero, suc, ◌+◌, ◌-◌, ◌%◌, ◌≤◌, ◌<◌, ◌==◌, ==_iff, ◌≡◌, ◌≢◌, ◌⊎◌, refl, sym, ◌∙◌, arith,
  if◌then◌else◌, not, Bool, true, false, inl, inr, Option, none, some, List, [], ◌∷◌, ◌++◌, length,
}
use powerpc_i2c_temp.Rmu.Machine.{Machine}
use powerpc_i2c_temp.Rmu.Outbound.{put, next_slot}

abbrev pub get_elem? : List ℕ → ℕ → Option ℕ
get_elem? [] i = none
get_elem? (x ∷ xs) zero = some x
get_elem? (x ∷ xs) (suc i) = get_elem? xs i

pub get_elem?-past : (xs : List ℕ) (i : ℕ) → length xs ≤ i → get_elem? xs i ≡ none
get_elem?-past [] i h = refl
get_elem?-past (x ∷ xs) zero h = absurd (omega arith)
get_elem?-past (x ∷ xs) (suc i) h = get_elem?-past xs i (omega arith)

pub get_elem?-snoc :
    (xs : List ℕ) (x i : ℕ)
    → get_elem? (xs ++ x ∷ []) i ≡ (if i == length xs then some x else get_elem? xs i)
get_elem?-snoc [] x zero = refl
get_elem?-snoc [] x (suc i) = ground arith
get_elem?-snoc (y ∷ xs) x zero = ground arith
get_elem?-snoc (y ∷ xs) x (suc i) = ground (arith, get_elem?-snoc xs x i)

pub length-snoc : (xs : List ℕ) (x : ℕ) → length (xs ++ x ∷ []) ≡ length xs + 1
length-snoc [] x = refl
length-snoc (y ∷ xs) x = omega (arith, length-snoc xs x)

pub if-eq_true {ℓ} : {A : Type ℓ} (t : Bool) (x y : A) → t ≡ true → (if t then x else y) ≡ x
if-eq_true true x y h = refl
if-eq_true false x y h = cc

pub if-eq_false {ℓ} : {A : Type ℓ} (t : Bool) (x y : A) → t ≡ false → (if t then x else y) ≡ y
if-eq_false true x y h = cc
if-eq_false false x y h = refl

pub not_inj : (t u : Bool) → not t ≡ not u → t ≡ u
not_inj true true h = refl
not_inj true false h = sym h
not_inj false true h = sym h
not_inj false false h = refl

-- Where `d + i` lies in a ring.
pub mod_cases :
    (s d i : ℕ)
    → d < s
    → i ≤ s
    → ((d + i < s) × ((d + i) % s ≡ d + i)) ⊎ ((s ≤ d + i) × ((d + i) % s ≡ d + i - s))
mod_cases s d i hd hi = elim (dec_lt (d + i) s) [
  | yes p ↦ inl (p, mod-eq_of_lt p)
  | no p ↦
      let q : s ≤ d + i = omega arith in
      let small : d + i - s < s = omega arith in inr (q, mod-eq-sub-mod q ∙ mod-eq_of_lt small)
]

pub mod_inj : (s d i j : ℕ) → d < s → i < s → j < s → (d + i) % s ≡ (d + j) % s → i ≡ j
mod_inj s d i j hd hi hj e =
    ground (arith, mod_cases s d i hd (omega arith), mod_cases s d j hd (omega arith))

pub next_slot_lem : (k : Machine) (slot n : ℕ) → slot < n → next_slot k slot n ≡ (slot + 1) % n
unfolding next_slot
next_slot_lem k slot n h = ground (arith, mod_cases n slot 1 h (omega arith))

pub put_self {ℓ} : {A : Type ℓ} (f : ℕ → A) (i : ℕ) (v : A) → put f i v i ≡ v
put_self f i v = if-eq_true (i == i) v (f i) ((==_iff i i).1 refl)

pub put_ne {ℓ} : {A : Type ℓ} (f : ℕ → A) (i j : ℕ) (v : A) → j ≢ i → put f i v j ≡ f j
put_ne f i j v h = if-eq_false (j == i) v (f j) (ground arith)
