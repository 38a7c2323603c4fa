-- ===== src/Console/Bounds.antt =====
-- `format_space` of rapidio/rionet.c stays within a buffer in which a 0 stands.
use powerpc_i2c_temp.Prelude.{
  ℕ, zero, suc, ◌+◌, ◌-◌, ◌*◌, ◌≤◌, ◌<◌, ◌==◌, ◌≡◌, refl, sym, ap, ◌∙◌, arith, if◌then◌else◌, ◌&&◌,
  ◌||◌, Bool, true, false, some, List, [], ◌∷◌, ◌++◌, length, drop, Bool-cases, inl, inr,
}
use powerpc_i2c_temp.Rmu.Entries.{if-eq_true, if-eq_false}
use powerpc_i2c_temp.Console.Text.{
  space, take_bytes, c_string, leading_spaces, shift, go_on, close_gap, format_step, format_loop,
}
use powerpc_i2c_temp.Console.Squeeze.{spaced, loop_go}

-- A 0 stands in the buffer.
abbrev pub has_zero : List ℕ → Bool
has_zero [] = false
has_zero (c ∷ r) = c == 0 || has_zero r

record Found (b t : List ℕ) : Type 0 where
  text : c_string b ≡ some t
  shorter : length t < length b
  first : (r : List ℕ) → spaced (t ++ 0 ∷ r) ≡ spaced b

c_string-Found : (b : List ℕ) → has_zero b ≡ true → (t : List ℕ) × Found b t
unfolding c_string
c_string-Found [] h = cc
c_string-Found (zero ∷ b) h = ([], record { text = refl; shorter = omega arith; first = λ r. refl })
c_string-Found (suc c ∷ b) h =
    let (t, f) = c_string-Found b (ground arith) in
    (
      suc c ∷ t,
      record {
        text = rw (f.text, c_string) refl;
        shorter = let l = f.shorter in omega arith;
        first = λ r. refl;
      },
    )

length-append : (t r : List ℕ) → length (t ++ r) ≡ length t + length r
length-append [] r = omega arith
length-append (c ∷ t) r = let ih = length-append t r in omega arith

length-drop : (k : ℕ) (b : List ℕ) → length (drop k b) ≡ length b - k
length-drop zero b = omega arith
length-drop (suc k) [] = omega arith
length-drop (suc k) (c ∷ b) = let ih = length-drop k b in omega arith

length-take_bytes : (k : ℕ) (b : List ℕ) → length (take_bytes k b) + length (drop k b) ≡ length b
length-take_bytes zero b = omega arith
length-take_bytes (suc k) [] = omega arith
length-take_bytes (suc k) (c ∷ b) = let ih = length-take_bytes k b in omega arith

zero_found : (t r : List ℕ) → has_zero (t ++ 0 ∷ r) ≡ true
zero_found [] r = refl
zero_found (c ∷ t) r = let ih = zero_found t r in ground arith

-- A 0 that stands further on is still there.
has_zero-drop : (j : ℕ) (b : List ℕ) → has_zero (drop (suc j) b) ≡ true → has_zero (drop j b) ≡ true
has_zero-drop zero [] h = cc
has_zero-drop zero (c ∷ b) h = ground arith
has_zero-drop (suc j) [] h = cc
has_zero-drop (suc j) (c ∷ b) h = has_zero-drop j b h

has_zero-append :
    (j : ℕ) (t b : List ℕ)
    → has_zero (drop j b) ≡ true
    → has_zero (drop j (t ++ 0 ∷ drop (suc (length t)) b)) ≡ true
has_zero-append zero [] b h = refl
has_zero-append (suc j) [] [] h = cc
has_zero-append (suc j) [] (c ∷ b) h = h
has_zero-append zero (d ∷ t) b h = zero_found (d ∷ t) (drop (suc (length (d ∷ t))) b)
has_zero-append (suc j) (d ∷ t) [] h = cc
has_zero-append (suc j) (d ∷ t) (c ∷ b) h = has_zero-append j t b h

zero_after : (b : List ℕ) → has_zero b ≡ true → has_zero (drop (leading_spaces b) b) ≡ true
zero_after [] h = cc
zero_after (c ∷ b) h = elim (Bool-cases (c == space)) [
  | inl e ↦
      ap (λ (k : ℕ). has_zero (drop k (c ∷ b))) (if-eq_true (c == space) _ _ e)
      ∙ zero_after b (ground arith)
  | inr e ↦ ap (λ (k : ℕ). has_zero (drop k (c ∷ b))) (if-eq_false (c == space) _ _ e) ∙ h
]

-- Each round comes nearer to the end, or takes a space that stands alone out of the text.
abbrev left : Bool → List ℕ → ℕ
left inside b = 2 * length b + (if inside && spaced b then 1 else 0)

record Stays (inside : Bool) (b passed : List ℕ) (inside' : Bool) (rest : List ℕ) : Type 0 where
  stepped : format_step inside b ≡ go_on passed inside' rest
  same : length passed + length rest ≡ length b
  zero_left : has_zero rest ≡ true
  nearer : left inside' rest < left inside b

left_bounds : (inside : Bool) (b : List ℕ) → left inside b ≤ 2 * length b + 1
left_bounds true b = ground arith
left_bounds false b = omega arith

spaced-leading_spaces : (b : List ℕ) (k : ℕ) → leading_spaces b ≡ suc k → spaced b ≡ true
spaced-leading_spaces [] k n = ground arith
spaced-leading_spaces (c ∷ b) k n = ground arith

alone_space : (b : List ℕ) → leading_spaces b ≡ 1 → spaced (drop 1 b) ≡ false
alone_space [] n = refl
alone_space (c ∷ []) n = refl
alone_space (c ∷ d ∷ b) n = ground arith

nearer_gap :
    (k : ℕ) (b b' : List ℕ)
    → leading_spaces b ≡ suc k
    → length b' ≡ length b
    → k < length b
    → (k ≡ 0 → spaced b' ≡ false)
    → left true (drop k b') < left true b
nearer_gap zero b b' n e l f =
    let a = spaced-leading_spaces b zero n in let c = f refl in ground arith
nearer_gap (suc k) b b' n e l f =
    let a = spaced-leading_spaces b (suc k) n in
    let c = left_bounds true (drop (suc k) b') in let d = length-drop (suc k) b' in ground arith

abbrev Stayed : Bool → List ℕ → Type 0
Stayed inside b =
    (passed : List ℕ) × (inside' : Bool) × (rest : List ℕ) × Stays inside b passed inside' rest

gap-Stays :
    (k : ℕ) (b : List ℕ)
    → has_zero (drop (suc k) b) ≡ true
    → leading_spaces b ≡ suc k
    → format_step true b ≡ close_gap (suc k) b
    → Stayed true b
unfolding close_gap shift
gap-Stays k b h n g =
    let (t, f) = c_string-Found (drop (suc k) b) h in
    let b' = t ++ 0 ∷ drop (suc (length t)) b in
    let closed : close_gap (suc k) b
        ≡ go_on (take_bytes (suc k - 1) b') true (drop (suc k - 1) b') =
      rw (f.text, close_gap) refl in
    let one_less : suc k - 1 ≡ k = omega arith in
    let size : length b' ≡ length b =
      let l = f.shorter in
      omega (
        arith,
        length-append t (0 ∷ drop (suc (length t)) b),
        length-drop (suc (length t)) b,
        length-drop (suc k) b,
      ) in
    (
      take_bytes k b',
      true,
      drop k b',
      record {
        stepped = g ∙ closed ∙ ap (λ (j : ℕ). go_on (take_bytes j b') true (drop j b')) one_less;
        same = length-take_bytes k b' ∙ size;
        zero_left = has_zero-append k t b (has_zero-drop k b h);
        nearer =
            nearer_gap k b b' n size (let l = f.shorter in omega (arith, length-drop (suc k) b))
              (λ (z : k ≡ 0).
                f.first _
                ∙ ap (λ (j : ℕ). spaced (drop (suc j) b)) z
                ∙ alone_space b (n ∙ ap suc z));
      },
    )

byte-Stays :
    (inside inside' : Bool) (c : ℕ) (b : List ℕ)
    → has_zero (suc c ∷ b) ≡ true
    → format_step inside (suc c ∷ b) ≡ go_on (suc c ∷ []) inside' b
    → Stayed inside (suc c ∷ b)
byte-Stays inside inside' c b h g = (
  suc c ∷ [],
  inside',
  b,
  record {
    stepped = g;
    same = omega arith;
    zero_left = ground arith;
    nearer = let a = left_bounds inside' b in ground arith;
  },
)

step-Stays :
    (inside : Bool) (c : ℕ) (b : List ℕ) → has_zero (suc c ∷ b) ≡ true → Stayed inside (suc c ∷ b)
unfolding format_step
step-Stays true c b h = elim (Bool-cases (suc c == space)) [
  | inl e ↦
      let n : leading_spaces (suc c ∷ b) ≡ suc (leading_spaces b) =
        if-eq_true (suc c == space) _ _ e in
      gap-Stays (leading_spaces b) (suc c ∷ b)
        (ap (λ (k : ℕ). has_zero (drop k (suc c ∷ b))) (sym n) ∙ zero_after (suc c ∷ b) h) n
        (if-eq_true (suc c == space) _ _ e ∙ ap (λ (k : ℕ). close_gap k (suc c ∷ b)) n)
  | inr e ↦ byte-Stays true false c b h (if-eq_false (suc c == space) _ _ e)
]
step-Stays false c b h = elim (Bool-cases (suc c == space)) [
  | inl e ↦ byte-Stays false true c b h (if-eq_true (suc c == space) _ _ e)
  | inr e ↦ byte-Stays false false c b h (if-eq_false (suc c == space) _ _ e)
]

loop-Stays :
    (fuel : ℕ) (inside : Bool) (b : List ℕ)
    → has_zero b ≡ true
    → left inside b ≤ fuel
    → (b' : List ℕ) × (format_loop fuel inside b ≡ some b') × (length b' ≡ length b)
unfolding format_loop format_step
loop-Stays fuel inside [] h l = cc
loop-Stays zero inside (c ∷ b) h l = ground arith
loop-Stays (suc fuel) inside (zero ∷ b) h l = (zero ∷ b, refl, refl)
loop-Stays (suc fuel) inside (suc c ∷ b) h l =
    let (passed, inside', rest, s) = step-Stays inside c b h in
    let near = s.nearer in
    let (b', e, n) = loop-Stays fuel inside' rest s.zero_left (omega arith) in
    (
      passed ++ b',
      loop_go fuel inside inside' (suc c ∷ b) passed rest b' s.stepped e,
      length-append passed b' ∙ ap (λ (m : ℕ). length passed + m) n ∙ s.same,
    )

-- On every buffer in which a 0 stands, the loop of `format_space` ends within two rounds for each byte and one more, never
-- leaves the buffer, and keeps its length, whatever the text and what stands after it.
pub format_loop-within :
    (b : List ℕ)
    → has_zero b ≡ true
    → (b' : List ℕ) × (format_loop (2 * length b + 1) true b ≡ some b') × (length b' ≡ length b)
format_loop-within b h = loop-Stays (2 * length b + 1) true b h (left_bounds true b)
