-- ===== src/Console/Parsing.antt =====
-- What the commands of the console are read as: a command is written as its name and arguments, one space before each
-- argument, and a line feed.
use powerpc_i2c_temp.Prelude.{
  ℕ, ◌==◌, ◌≡◌, ◌≢◌, refl, sym, ap, ◌∙◌, arith, not, ◌&&◌, Bool, true, false, Option, none, some,
  List, [], ◌∷◌, ◌++◌,
}
use powerpc_i2c_temp.Rmu.Entries.{if-eq_false}
use powerpc_i2c_temp.Str2hex.{str2hex}
use powerpc_i2c_temp.Console.Text.{space, format_space}
use powerpc_i2c_temp.Console.Squeeze.{plain, narrow, squeeze, chop, format_space-squeeze}
use powerpc_i2c_temp.Console.Commands.{
  Reply, null_access, strsep, with_word, without_last, checked_last, last_word,
}

-- A word has no space and no byte 0.
abbrev letters : List ℕ → Bool
letters [] = true
letters (c ∷ t) = not (c == 0) && not (c == space) && letters t

abbrev pub is_word : List ℕ → Bool
is_word [] = false
is_word (c ∷ t) = letters (c ∷ t)

abbrev pub words : List (List ℕ) → Bool
words [] = true
words (w ∷ ws) = is_word w && words ws

-- The words with a space between them and a line feed at the end.
abbrev pub line : List ℕ → List (List ℕ) → List ℕ
line w [] = w ++ b'\n' ∷ []
line w (v ∷ ws) = w ++ space ∷ line v ws

squeeze_byte :
    (i : Bool) (c : ℕ) (t : List ℕ) → (c == space) ≡ false → squeeze i (c ∷ t) ≡ c ∷ squeeze false t
squeeze_byte true c t e = ground arith
squeeze_byte false c t e = ground arith

-- How the functions of the last module go through a word.
module _ (r : List ℕ) where
  plain-append : (w : List ℕ) → letters w ≡ true → plain r ≡ true → plain (w ++ r) ≡ true
  plain-append [] h p = p
  plain-append (c ∷ w) h p = let ih = plain-append w (ground arith) p in ground arith

  narrow-letters :
      (w : List ℕ) → letters w ≡ true → narrow false r ≡ true → narrow false (w ++ r) ≡ true
  narrow-letters [] h n = n
  narrow-letters (c ∷ w) h n = let ih = narrow-letters w (ground arith) n in ground arith

  narrow-word :
      (i : Bool) (w : List ℕ) → is_word w ≡ true → narrow false r ≡ true → narrow i (w ++ r) ≡ true
  narrow-word i [] h n = cc
  narrow-word i (c ∷ w) h n = let ih = narrow-letters w (ground arith) n in ground arith

  squeeze-letters : (w : List ℕ) → letters w ≡ true → squeeze false (w ++ r) ≡ w ++ squeeze false r
  squeeze-letters [] h = refl
  squeeze-letters (c ∷ w) h =
      let ih = squeeze-letters w (ground arith) in
      let e : (c == space) ≡ false = ground arith in
      ap (λ (b : Bool). c ∷ squeeze b (w ++ r)) e ∙ ap (λ (t : List ℕ). c ∷ t) ih

  squeeze-word :
      (i : Bool) (w : List ℕ) → is_word w ≡ true → squeeze i (w ++ r) ≡ w ++ squeeze false r
  squeeze-word i [] h = cc
  squeeze-word i (c ∷ w) h =
      squeeze_byte i c (w ++ r) (ground arith)
      ∙ ap (λ (t : List ℕ). c ∷ t) (squeeze-letters w (ground arith))

  strsep-letters : (w : List ℕ) → letters w ≡ true → strsep (w ++ space ∷ r) ≡ (w, some r)
  unfolding strsep
  strsep-letters [] h = refl
  strsep-letters (c ∷ w) h =
      if-eq_false (c == space) _ _ (ground arith)
      ∙ ap (λ (p : List ℕ × Option (List ℕ)). (c ∷ p.0, p.1)) (strsep-letters w (ground arith))

strsep-last : (w : List ℕ) → letters w ≡ true → (strsep (w ++ b'\n' ∷ [])).1 ≡ none
unfolding strsep
strsep-last [] h = refl
strsep-last (c ∷ w) h =
    ap (λ (p : List ℕ × Option (List ℕ)). p.1) (if-eq_false (c == space) _ _ (ground arith))
    ∙ strsep-last w (ground arith)

letters_of : (w : List ℕ) → is_word w ≡ true → letters w ≡ true
letters_of [] h = cc
letters_of (c ∷ w) h = h

not_empty : (w : List ℕ) (c : ℕ) (r : List ℕ) → w ++ c ∷ r ≢ []
not_empty [] c r e = cc
not_empty (x ∷ w) c r e = cc

line_not_empty : (w : List ℕ) (ws : List (List ℕ)) → line w ws ≢ []
line_not_empty w [] = not_empty w b'\n' []
line_not_empty w (v ∷ ws) = not_empty w space (line v ws)

chop-append : (w r : List ℕ) → r ≢ [] → chop (w ++ r) ≡ w ++ chop r
chop-append w [] n = absurd (n refl)
chop-append [] (c ∷ r) n = refl
chop-append (x ∷ []) (c ∷ r) n = refl
chop-append (x ∷ y ∷ w) (c ∷ r) n = ap (λ (t : List ℕ). x ∷ t) (chop-append (y ∷ w) (c ∷ r) n)

pub line-plain :
    (w : List ℕ) (ws : List (List ℕ)) → words (w ∷ ws) ≡ true → plain (line w ws) ≡ true
line-plain w [] h = plain-append (b'\n' ∷ []) w (letters_of w (ground arith)) refl
line-plain w (v ∷ ws) h =
    plain-append (space ∷ line v ws) w (letters_of w (ground arith))
      (line-plain v ws (ground arith))

line-narrow :
    (i : Bool) (w : List ℕ) (ws : List (List ℕ))
    → words (w ∷ ws) ≡ true
    → narrow i (line w ws) ≡ true
line-narrow i w [] h = narrow-word (b'\n' ∷ []) i w (ground arith) refl
line-narrow i w (v ∷ ws) h =
    narrow-word (space ∷ line v ws) i w (ground arith) (line-narrow true v ws (ground arith))

line-squeeze :
    (i : Bool) (w : List ℕ) (ws : List (List ℕ))
    → words (w ∷ ws) ≡ true
    → squeeze i (line w ws) ≡ line w ws
line-squeeze i w [] h = squeeze-word (b'\n' ∷ []) i w (ground arith)
line-squeeze i w (v ∷ ws) h =
    squeeze-word (space ∷ line v ws) i w (ground arith)
    ∙ ap (λ (t : List ℕ). w ++ space ∷ t) (line-squeeze true v ws (ground arith))

line-chop : (w : List ℕ) (ws : List (List ℕ)) → chop (line w ws) ≡ line w ws
line-chop w [] = chop-append w (b'\n' ∷ []) (not_empty [] b'\n' [])
line-chop w (v ∷ ws) =
    chop-append w (space ∷ line v ws) (not_empty [] space (line v ws))
    ∙ ap (λ (t : List ℕ). w ++ t)
        (chop-append (space ∷ []) (line v ws) (line_not_empty v ws)
          ∙ ap (λ (t : List ℕ). space ∷ t) (line-chop v ws))

-- A command that is written with single spaces is left as it is.
pub format_space-line :
    (w : List ℕ) (ws : List (List ℕ)) (z : List ℕ)
    → words (w ∷ ws) ≡ true
    → (z' : List ℕ) × (format_space (line w ws ++ 0 ∷ z) ≡ some (line w ws ++ 0 ∷ z'))
format_space-line w ws z h =
    let same = line-squeeze true w ws h in
    let (z', e) =
      format_space-squeeze (line w ws) z (line-plain w ws h) (line-narrow true w ws h)
        (λ empty. line_not_empty w ws (sym same ∙ empty)) in
    (z', e ∙ ap (λ (t : List ℕ). some (t ++ 0 ∷ z')) (ap chop same ∙ line-chop w ws))

-- The last argument loses its line feed.
without_last-append : (w : List ℕ) → without_last (w ++ b'\n' ∷ []) ≡ w
unfolding without_last
without_last-append [] = refl
without_last-append (c ∷ []) = refl
without_last-append (c ∷ d ∷ w) = ap (λ (t : List ℕ). c ∷ t) (without_last-append (d ∷ w))

pub with_word_to :
    {reply : Reply} (w r : List ℕ) (f : ℕ → Option (List ℕ) → Reply)
    → is_word w ≡ true
    → f (str2hex w) (some r) ≡ reply
    → with_word (some (w ++ space ∷ r)) f ≡ reply
unfolding with_word
with_word_to w r f h e =
    ap (λ (p : List ℕ × Option (List ℕ)). f (str2hex p.0) p.1) (strsep-letters r w (letters_of w h))
    ∙ e

pub checked_last_lem :
    (w : List ℕ) (f : ℕ → Reply) → checked_last (some (w ++ b'\n' ∷ [])) f ≡ f (str2hex w)
unfolding checked_last
checked_last_lem w f = ap (λ (t : List ℕ). f (str2hex t)) (without_last-append w)

pub last_word_lem :
    (w : List ℕ) (f : ℕ → Reply) → last_word (some (w ++ b'\n' ∷ [])) f ≡ f (str2hex w)
unfolding last_word
last_word_lem w f = ap (λ (t : List ℕ). f (str2hex t)) (without_last-append w)

pub with_last_word :
    (w : List ℕ) (f : ℕ → ℕ → Reply)
    → is_word w ≡ true
    → with_word (some (w ++ b'\n' ∷ [])) (λ x r. last_word r (f x)) ≡ null_access
unfolding with_word last_word
with_last_word w f h =
    ap (λ (r : Option (List ℕ)). last_word r (f (str2hex (strsep (w ++ b'\n' ∷ [])).0)))
      (strsep-last w (letters_of w h))
