-- ===== src/Dma/CtrlIrq.antt =====
-- Whom the handler of the controller in dma/fsldma.c serves: the bytes of the general status register belong, from
-- the highest on, to the channels that are there.
use native.Mathlib.Nat.{one-le-pow, mod-eq_of_lt}
use Prim.Native.Nat.{bit_and-bitwise}
use powerpc_i2c_temp.Prelude.{
  ℕ, ◌+◌, ◌-◌, ◌*◌, ◌^◌, ◌≤◌, ◌<◌, ◌==◌, bit_and, ◌≡◌, refl, ap, ◌∙◌, arith, not, if◌then◌else◌,
  Option, none, some, List, [], ◌∷◌,
}
use powerpc_i2c_temp.Prelude.Bits.{bit_and_fields, bit_and_mask, bit_and-zero}
use powerpc_i2c_temp.Prelude.Word.{not32, ◌>>>◌}
use powerpc_i2c_temp.Dma.Kernel.{Platform}
use powerpc_i2c_temp.Dma.Hardware.{clear, has}
use powerpc_i2c_temp.Dma.Irq.{chan_irq, ctrl_irq_loop}

-- Each channel that is there takes the next byte, and is served if that is not 0; the first argument counts.
unfoldable pub serve : {E : Type 0} → ℕ → List ℕ → List (Option (Platform E)) → E → ℕ × E
serve handled bytes [] e = (handled, e)
serve handled bytes (none ∷ chans) e = serve handled bytes chans e
serve handled [] (some k ∷ chans) e = serve handled [] chans e
serve handled (byte ∷ bytes) (some k ∷ chans) e =
    serve (if not (byte == 0) then handled + 1 else handled) bytes chans
      (if not (byte == 0) then (chan_irq k e).1 else e)

module _ {E : Type 0} where
  -- Without a mask nobody is served.
  serve_none :
      (handled gsr : ℕ) (chans : List (Option (Platform E))) (e : E)
      → ctrl_irq_loop handled gsr 0 chans e ≡ serve handled [] chans e
  unfolding ctrl_irq_loop serve
  serve_none handled gsr [] e = refl
  serve_none handled gsr (none ∷ chans) e = serve_none handled gsr chans e
  serve_none handled gsr (some k ∷ chans) e =
      rw (bit_and-zero gsr) (serve_none handled (clear gsr 0) chans e)

  -- The byte `b` above the `n` lower bits `r`, under its mask, when the lower bits are served under the next mask.
  serve_byte :
      (mask gsr r b : ℕ) (bytes : List ℕ)
      → has gsr mask ≡ not (b == 0)
      → clear gsr mask ≡ r
      → ((handled : ℕ) (chans : List (Option (Platform E))) (e : E)
          → ctrl_irq_loop handled r (mask >>> 8) chans e ≡ serve handled bytes chans e)
      → (handled : ℕ) (chans : List (Option (Platform E))) (e : E)
      → ctrl_irq_loop handled gsr mask chans e ≡ serve handled (b ∷ bytes) chans e
  unfolding ctrl_irq_loop serve
  serve_byte mask gsr r b bytes seen rest lower handled [] e = refl
  serve_byte mask gsr r b bytes seen rest lower handled (none ∷ chans) e =
      serve_byte mask gsr r b bytes seen rest lower handled chans e
  serve_byte mask gsr r b bytes seen rest lower handled (some k ∷ chans) e =
      rw (seen, rest) (lower _ chans _)

-- One byte above `k` bits: what the mask lets through, and what is left without it.
byte_seen :
    (k b r : ℕ) → b < 256 → r < 2 ^ k → bit_and (b * 2 ^ k + r) (255 * 2 ^ k + 0) ≡ b * 2 ^ k
byte_seen k b r h l =
    let small : bit_and b 255 ≡ b = omega (arith, bit_and_mask 8 b) in
    bit_and_fields k b 255 r 0 l (one-le-pow k 2 (omega arith))
    ∙ rw (small, bit_and-zero r) (omega arith)

zero_and : (x : ℕ) → bit_and 0 x ≡ 0
zero_and x = simp bit_and-bitwise (omega arith)

byte_cleared :
    (k b r high : ℕ)
    → b < 256
    → r < 2 ^ k
    → bit_and (b * 2 ^ k + r) (high * 2 ^ 8 * 2 ^ k + (2 ^ k - 1)) ≡ r
byte_cleared k b r high h l =
    let below : b ≡ 0 * 2 ^ 8 + b = omega arith in
    let above : high * 2 ^ 8 ≡ high * 2 ^ 8 + 0 = omega arith in
    let cut : bit_and b (high * 2 ^ 8) ≡ 0 =
      (λ i. bit_and (below i) (above i))
      ∙ bit_and_fields 8 0 high b 0 h (omega arith)
      ∙ rw (zero_and high, bit_and-zero b) in
    let pos : 1 ≤ 2 ^ k = one-le-pow k 2 (omega arith) in
    bit_and_fields k b (high * 2 ^ 8) r (2 ^ k - 1) l (omega arith)
    ∙ rw (cut, bit_and_mask k r) (omega (arith, mod-eq_of_lt l))

-- Serving the channels from one byte on.
abbrev Serves : Type 0 → ℕ → ℕ → List ℕ → Type 0
Serves E mask gsr bytes =
    (handled : ℕ) (chans : List (Option (Platform E))) (e : E)
    → ctrl_irq_loop handled gsr mask chans e ≡ serve handled bytes chans e

module _ (E : Type 0) (a b c d : ℕ) (ha : a < 256) (hb : b < 256) (hc : c < 256)
    (hd : d < 256) where
  from_d : Serves E 0xff d (d ∷ [])
  from_d =
      let whole : d ≡ d * 2 ^ 0 + 0 = omega arith in
      let seen = ap (λ (t : ℕ). bit_and t 0xff) whole ∙ byte_seen 0 d 0 hd (omega arith) in
      let rest =
        ap (λ (t : ℕ). bit_and t (not32 0xff)) whole
        ∙ byte_cleared 0 d 0 0xffffff hd (omega arith) in
      serve_byte 0xff d 0 d [] (ground (arith, seen)) rest
        (λ handled chans e. serve_none handled 0 chans e)

  from_c : Serves E 0xff00 (c * 2 ^ 8 + d) (c ∷ d ∷ [])
  from_c =
      serve_byte 0xff00 (c * 2 ^ 8 + d) d c (d ∷ [])
        (ground (arith, byte_seen 8 c d hc (omega arith)))
        (byte_cleared 8 c d 0xffff hc (omega arith)) from_d

  from_b : Serves E 0xff0000 (b * 2 ^ 16 + (c * 2 ^ 8 + d)) (b ∷ c ∷ d ∷ [])
  from_b =
      serve_byte 0xff0000 (b * 2 ^ 16 + (c * 2 ^ 8 + d)) (c * 2 ^ 8 + d) b (c ∷ d ∷ [])
        (ground (arith, byte_seen 16 b (c * 2 ^ 8 + d) hb (omega arith)))
        (byte_cleared 16 b (c * 2 ^ 8 + d) 0xff hb (omega arith)) from_c

  -- The channels that are there, in the order of the table, take the bytes of the status from the highest on, one
  -- each, and a channel is served exactly when its byte is not 0. So a channel that is missing leaves
  -- its byte to the next one.
  pub ctrl_irq_loop-serve :
      (chans : List (Option (Platform E))) (e : E)
      → ctrl_irq_loop 0 (a * 2 ^ 24 + (b * 2 ^ 16 + (c * 2 ^ 8 + d))) 0xff000000 chans e
        ≡ serve 0 (a ∷ b ∷ c ∷ d ∷ []) chans e
  ctrl_irq_loop-serve chans e =
      let low = b * 2 ^ 16 + (c * 2 ^ 8 + d) in
      serve_byte 0xff000000 (a * 2 ^ 24 + low) low a (b ∷ c ∷ d ∷ [])
        (ground (arith, byte_seen 24 a low ha (omega arith)))
        (byte_cleared 24 a low 0 ha (omega arith)) from_b 0 chans e
