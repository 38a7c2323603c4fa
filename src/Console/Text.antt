-- ===== src/Console/Text.antt =====
-- `format_space` of rapidio/rionet.c on a buffer of bytes, with what stands after the final 0 of the text. Where the code
-- leaves the buffer the result is `none`.
use Prim.Native.Char.{code}
use Prim.Native.String.{String}
use powerpc_i2c_temp.Prelude.{
  ℕ, zero, suc, ◌+◌, ◌-◌, ◌*◌, ◌==◌, if◌then◌else◌, Bool, true, false, Option, none, some, List, [],
  ◌∷◌, ◌++◌, length, drop, get_or, set,
}

-- The bytes of a text.
abbrev pub codes : String → List ℕ
codes String.[] = []
codes (String.◌∷◌ c s) = code c ∷ codes s

abbrev pub space : ℕ
space = 32

abbrev pub take_bytes : ℕ → List ℕ → List ℕ
take_bytes zero xs = []
take_bytes (suc n) [] = []
take_bytes (suc n) (x ∷ xs) = x ∷ take_bytes n xs

-- The text up to its final 0.
unfoldable pub c_string : List ℕ → Option (List ℕ)
c_string [] = none
c_string (zero ∷ r) = some []
c_string (suc c ∷ r) = elim (c_string r) [ none ↦ none | some t ↦ some (suc c ∷ t) ]

-- How many spaces stand first.
abbrev pub leading_spaces : List ℕ → ℕ
leading_spaces [] = 0
leading_spaces (c ∷ r) = if c == space then suc (leading_spaces r) else 0

-- The text that follows `k` bytes is copied to the front, with its final 0.
unfoldable pub shift : ℕ → List ℕ → Option (List ℕ)
shift k buffer = elim (c_string (drop k buffer)) [
  | none ↦ none
  | some t ↦ some (t ++ 0 ∷ drop (suc (length t)) buffer)
]

-- What the body of the loop does: it has left the buffer, it is at the final 0, or it goes on after some bytes, `inside` a
-- gap or not.
pub data Move : Type 0 where
  off at_end : Move
  go_on : (passed : List ℕ) → (inside : Bool) → (rest : List ℕ) → Move

-- At a gap of `k` spaces, from the second on or at the start: `str` is left on the last byte of the gap as it was, though
-- the text has moved.
unfoldable pub close_gap : ℕ → List ℕ → Move
unfolding shift
close_gap k buffer = elim (shift k buffer) [
  | none ↦ off
  | some b ↦ go_on (take_bytes (k - 1) b) true (drop (k - 1) b)
]

unfoldable pub format_step : Bool → List ℕ → Move
unfolding close_gap
format_step inside [] = off
format_step inside (zero ∷ r) = at_end
format_step inside (suc c ∷ r) =
    if suc c == space
    then (if inside
        then close_gap (leading_spaces (suc c ∷ r)) (suc c ∷ r)
        else go_on (suc c ∷ []) true r)
    else go_on (suc c ∷ []) false r

abbrev pub prefixed : List ℕ → Option (List ℕ) → Option (List ℕ)
prefixed passed none = none
prefixed passed (some b) = some (passed ++ b)

unfoldable pub format_loop : (fuel : ℕ) → Bool → List ℕ → Option (List ℕ)
unfolding format_step
format_loop zero inside buffer = none
format_loop (suc fuel) inside buffer = elim (format_step inside buffer) [
  | off ↦ none
  | at_end ↦ some buffer
  | go_on passed inside' rest ↦ prefixed passed (format_loop fuel inside' rest)
]

-- The last space; with no byte before the final 0 the code writes before the buffer.
unfoldable pub trim : List ℕ → Option (List ℕ)
unfolding c_string
trim buffer = elim (c_string buffer) [
  | none ↦ none
  | some [] ↦ none
  | some (c ∷ t) ↦
      some (if get_or buffer (length t) 0 == space then set buffer (length t) 0 else buffer)
]

abbrev pub trim_text : Option (List ℕ) → Option (List ℕ)
trim_text none = none
trim_text (some b) = trim b

-- The loop with fuel for two rounds for each byte.
unfoldable pub format_space : List ℕ → Option (List ℕ)
unfolding format_loop trim
format_space buffer = trim_text (format_loop (2 * length buffer + 1) true buffer)
