-- ===== src/Console/Squeeze.antt =====
-- `format_space` of rapidio/rionet.c on texts whose gaps are not too wide, and on one that is.
use mathlib.Core.Path.{subst}
use powerpc_i2c_temp.Prelude.{
  ℕ, zero, suc, ◌+◌, ◌*◌, ◌<◌, ◌==◌, ◌≡◌, ◌≢◌, refl, sym, ap, ◌∙◌, arith, if◌then◌else◌, not, ◌&&◌,
  Bool, true, false, some, List, [], ◌∷◌, ◌++◌, length, drop, get_or, set, Bool-cases, ==_iff, inl,
  inr,
}
use powerpc_i2c_temp.Rmu.Entries.{if-eq_false}
use powerpc_i2c_temp.Console.Text.{
  space, c_string, leading_spaces, shift, go_on, close_gap, format_step, format_loop, trim,
  format_space,
}

-- No byte of the text is 0.
abbrev pub plain : List ℕ → Bool
plain [] = true
plain (c ∷ t) = not (c == 0) && plain t

abbrev pub spaced : List ℕ → Bool
spaced [] = false
spaced (c ∷ t) = c == space

-- No gap is wider than two spaces, and no gap at the start, or inside one, than one.
abbrev pub narrow : Bool → List ℕ → Bool
narrow inside [] = true
narrow inside (c ∷ t) =
    if c == space then not (inside && spaced t) && narrow true t else narrow false t

-- One space for each gap, none at the start or inside a gap.
abbrev pub squeeze : Bool → List ℕ → List ℕ
squeeze inside [] = []
squeeze inside (c ∷ t) =
    let kept = c ∷ squeeze (c == space) t in
    let dropped = squeeze true t in if inside && c == space then dropped else kept

pub c_string-plain : (t z : List ℕ) → plain t ≡ true → c_string (t ++ 0 ∷ z) ≡ some t
unfolding c_string
c_string-plain [] z h = refl
c_string-plain (zero ∷ t) z h = cc
c_string-plain (suc c ∷ t) z h = let ih = c_string-plain t z (ground arith) in rw ih refl

drop-length : (t z : List ℕ) → drop (length t) (t ++ z) ≡ z
drop-length [] z = refl
drop-length (c ∷ t) z = drop-length t z

no_spaces : (t z : List ℕ) → spaced t ≡ false → leading_spaces (t ++ 0 ∷ z) ≡ 0
no_spaces [] z g = refl
no_spaces (c ∷ t) z g = ground arith

-- Inside a gap, a space that stands alone is taken out.
one_space :
    (t z : List ℕ)
    → plain t ≡ true
    → close_gap 1 (space ∷ t ++ 0 ∷ z) ≡ go_on [] true (t ++ 0 ∷ 0 ∷ z)
unfolding close_gap shift c_string
one_space t z h = rw (c_string-plain t z h, drop-length t (0 ∷ z)) refl

pub alone :
    (t z : List ℕ)
    → plain t ≡ true
    → spaced t ≡ false
    → format_step true (space ∷ t ++ 0 ∷ z) ≡ go_on [] true (t ++ 0 ∷ 0 ∷ z)
unfolding format_step
alone t z h g =
    ap (λ (k : ℕ). close_gap (suc k) (space ∷ t ++ 0 ∷ z)) (no_spaces t z g) ∙ one_space t z h

pub other :
    (inside : Bool) (c : ℕ) (b : List ℕ)
    → (suc c == space) ≡ false
    → format_step inside (suc c ∷ b) ≡ go_on (suc c ∷ []) false b
unfolding format_step
other inside c b e = if-eq_false _ _ _ e

-- What the loop gives for a text that stands before other bytes.
abbrev pub Squeezed : ℕ → Bool → List ℕ → List ℕ → Type 0
Squeezed fuel inside t z =
    (z' : List ℕ) × (format_loop fuel inside (t ++ 0 ∷ z) ≡ some (squeeze inside t ++ 0 ∷ z'))

pub loop_go :
    (fuel : ℕ) (inside inside' : Bool) (buffer passed rest b : List ℕ)
    → format_step inside buffer ≡ go_on passed inside' rest
    → format_loop fuel inside' rest ≡ some b
    → format_loop (suc fuel) inside buffer ≡ some (passed ++ b)
unfolding format_loop
loop_go fuel inside inside' buffer passed rest b e f = rw (e, format_loop, f) refl

at_space :
    (inside : Bool) (t z : List ℕ) (fuel : ℕ)
    → plain t ≡ true
    → narrow inside (space ∷ t) ≡ true
    → ((y : List ℕ) → Squeezed fuel true t y)
    → Squeezed (suc fuel) inside (space ∷ t) z
unfolding format_step
at_space true t z fuel h n ih =
    let (z', q) = ih (0 ∷ z) in
    (z', loop_go fuel true true _ [] (t ++ 0 ∷ 0 ∷ z) _ (alone t z h (ground arith)) q)
at_space false t z fuel h n ih =
    let (z', q) = ih z in (z', loop_go fuel false true _ (space ∷ []) (t ++ 0 ∷ z) _ refl q)

squeeze_other :
    (inside : Bool) (c : ℕ) (t : List ℕ)
    → (suc c == space) ≡ false
    → squeeze inside (suc c ∷ t) ≡ suc c ∷ squeeze false t
squeeze_other true c t e = ground arith
squeeze_other false c t e = ground arith

pub loop_squeeze :
    (t z : List ℕ) (fuel : ℕ) (inside : Bool)
    → plain t ≡ true
    → narrow inside t ≡ true
    → length t < fuel
    → Squeezed fuel inside t z
unfolding format_loop format_step
loop_squeeze t z zero inside h n l = ground arith
loop_squeeze [] z (suc fuel) inside h n l = (z, refl)
loop_squeeze (zero ∷ t) z (suc fuel) inside h n l = cc
loop_squeeze (suc c ∷ t) z (suc fuel) inside h n l = elim (Bool-cases (suc c == space)) [
  | inl e ↦
      let here : suc c ≡ space = (==_iff (suc c) space).0 e in
      subst (λ (x : ℕ). Squeezed (suc fuel) inside (x ∷ t) z) (sym here)
        (at_space inside t z fuel (ground arith)
          (ap (λ (x : ℕ). narrow inside (x ∷ t)) (sym here) ∙ n)
          (λ y. loop_squeeze t y fuel true (ground arith) (ground arith) (omega arith)))
  | inr e ↦
      let (z', q) = loop_squeeze t z fuel false (ground arith) (ground arith) (omega arith) in
      (
        z',
        loop_go fuel inside false (suc c ∷ t ++ 0 ∷ z) (suc c ∷ []) (t ++ 0 ∷ z) _
              (other inside c (t ++ 0 ∷ z) e) q
            ∙ ap (λ (x : List ℕ). some (x ++ 0 ∷ z')) (sym (squeeze_other inside c t e)),
      )
]

-- The text without a space at its end.
abbrev pub chop : List ℕ → List ℕ
chop [] = []
chop (c ∷ []) = if c == space then [] else c ∷ []
chop (c ∷ d ∷ t) = c ∷ chop (d ∷ t)

pub squeeze-plain : (inside : Bool) (t : List ℕ) → plain t ≡ true → plain (squeeze inside t) ≡ true
squeeze-plain inside [] h = refl
squeeze-plain inside (c ∷ t) h =
    ground (arith, squeeze-plain true t (ground arith), squeeze-plain (c == space) t (ground arith))

abbrev trimmed : List ℕ → ℕ → List ℕ
trimmed b n = if get_or b n 0 == space then set b n 0 else b

cons-if :
    (b : Bool) (c : ℕ) (x y : List ℕ) → (if b then c ∷ x else c ∷ y) ≡ c ∷ (if b then x else y)
cons-if true c x y = refl
cons-if false c x y = refl

one_byte :
    (b : Bool) (c : ℕ) (z : List ℕ)
    → (z' : List ℕ) × ((if b then 0 ∷ 0 ∷ z else c ∷ 0 ∷ z) ≡ (if b then [] else c ∷ []) ++ 0 ∷ z')
one_byte true c z = (0 ∷ z, refl)
one_byte false c z = (z, refl)

trimmed-chop :
    (c : ℕ) (t z : List ℕ)
    → (z' : List ℕ) × (trimmed (c ∷ t ++ 0 ∷ z) (length t) ≡ chop (c ∷ t) ++ 0 ∷ z')
trimmed-chop c [] z = one_byte (c == space) c z
trimmed-chop c (d ∷ t) z =
    let (z', e) = trimmed-chop d t z in
    (
      z',
      cons-if (get_or (d ∷ t ++ 0 ∷ z) (length t) 0 == space) c _ _ ∙ ap (λ (x : List ℕ). c ∷ x) e,
    )

trim_lem :
    (c : ℕ) (t z : List ℕ)
    → plain (c ∷ t) ≡ true
    → (z' : List ℕ) × (trim (c ∷ t ++ 0 ∷ z) ≡ some (chop (c ∷ t) ++ 0 ∷ z'))
unfolding trim
trim_lem c t z h =
    let (z', e) = trimmed-chop c t z in (z', rw (c_string-plain (c ∷ t) z h, trim) (ap some e))

pub trim-nonempty :
    (t z : List ℕ)
    → plain t ≡ true
    → t ≢ []
    → (z' : List ℕ) × (trim (t ++ 0 ∷ z) ≡ some (chop t ++ 0 ∷ z'))
trim-nonempty [] z h n = absurd (n refl)
trim-nonempty (c ∷ t) z h n = trim_lem c t z h

pub fuel_enough : (t z : List ℕ) → length t < 2 * length (t ++ 0 ∷ z) + 1
fuel_enough [] z = omega arith
fuel_enough (c ∷ t) z = let ih = fuel_enough t z in omega arith

-- For a text in which no gap is wider than two spaces, or at the start wider than one, and which is not of spaces alone,
-- `format_space` ends and leaves the text with one space for each gap and none at its start or end, whatever stands after
-- the text in the buffer.
pub format_space-squeeze :
    (t z : List ℕ)
    → plain t ≡ true
    → narrow true t ≡ true
    → squeeze true t ≢ []
    → (z' : List ℕ) × (format_space (t ++ 0 ∷ z) ≡ some (chop (squeeze true t) ++ 0 ∷ z'))
unfolding format_space
format_space-squeeze t z h n e =
    let (y, q) = loop_squeeze t z (2 * length (t ++ 0 ∷ z) + 1) true h n (fuel_enough t z) in
    let (z', r) = trim-nonempty (squeeze true t) y (squeeze-plain true t h) e in
    (z', rw (q, format_space) r)
