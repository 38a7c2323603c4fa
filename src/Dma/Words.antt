-- ===== src/Dma/Words.antt =====
-- The words of a descriptor of dma/fsldma.c: an address survives the attributes that share its word, and a link
-- word holds the address of the next descriptor above the flags that share it.
use powerpc_i2c_temp.Prelude.{
  ℕ, ◌+◌, ◌-◌, ◌*◌, ◌/◌, ◌%◌, ◌^◌, ◌<◌, bit_and, bit_or, ◌≡◌, ◌∙◌, refl, ap, arith, false,
  Bool-cases, inl, inr,
}
use powerpc_i2c_temp.Prelude.Bits.{
  bit_and_fields, bit_and_mask, bit_or_fields, bit_or_comm, bit_and-zero,
}
use powerpc_i2c_temp.Dma.Kernel.{Desc}
use powerpc_i2c_temp.Dma.Bits.{eol, snen}
use powerpc_i2c_temp.Dma.Hardware.{
  has, is_85xx, is_83xx, not64, link_snoop, set_desc_src, get_desc_src, set_desc_dst, get_desc_dst,
}

-- Attributes at bits 48 and 50, and none.
attribute_off :
    (x : ℕ) → x < 2 ^ 48 → bit_and (bit_or (5 * 2 ^ 48) x) (65530 * 2 ^ 48 + (2 ^ 48 - 1)) ≡ x
attribute_off x h =
    rw
      (
        bit_or_fields 48 5 x h,
        bit_and_fields 48 5 65530 x (2 ^ 48 - 1) h (omega arith),
        bit_and_mask 48 x,
      )
      (omega arith)

plain : (x : ℕ) → x < 2 ^ 48 → bit_and (bit_or 0 x) (2 ^ 64 - 1) ≡ x
plain x h = rw (bit_or_fields 48 0 x h) (bit_and_mask 64 (0 + x) ∙ omega arith)

pub get_desc_src-set_desc_src :
    (feature src : ℕ) (d : Desc)
    → src < 2 ^ 48
    → get_desc_src feature (set_desc_src feature src d) ≡ src
unfolding get_desc_src set_desc_src
get_desc_src-set_desc_src feature src d h = elim (Bool-cases (is_85xx feature)) [
  | inl new ↦ rw new (attribute_off src h)
  | inr old ↦ rw old (plain src h)
]

pub get_desc_dst-set_desc_dst :
    (feature dst : ℕ) (d : Desc)
    → dst < 2 ^ 48
    → get_desc_dst feature (set_desc_dst feature dst d) ≡ dst
unfolding get_desc_dst set_desc_dst
get_desc_dst-set_desc_dst feature dst d h = elim (Bool-cases (is_85xx feature)) [
  | inl new ↦ rw new (attribute_off dst h)
  | inr old ↦ rw old (plain dst h)
]

-- The address that a link word holds, for the controller: the lowest five bits are flags.
abbrev pub address_of : ℕ → ℕ
address_of word = bit_and word (not64 0x1f)

-- A flag below bit 5 beside an aligned address.
flagged : (p f : ℕ) → p % 32 ≡ 0 → f < 2 ^ 5 → bit_or p f ≡ p + f
flagged p f h l =
    let whole : p ≡ p / 32 * 2 ^ 5 = omega arith in
    ap (λ (t : ℕ). bit_or t f) whole ∙ bit_or_fields 5 (p / 32) f l ∙ omega arith

address_of-flagged : (p f : ℕ) → p % 32 ≡ 0 → p < 2 ^ 64 → f < 2 ^ 5 → address_of (bit_or p f) ≡ p
address_of-flagged p f h below l =
    let whole : p + f ≡ p / 32 * 2 ^ 5 + f = omega arith in
    rw
      (
        flagged p f h l,
        whole,
        bit_and_fields 5 (p / 32) (2 ^ 59 - 1) f 0 l (omega arith),
        bit_and_mask 59 (p / 32),
        bit_and-zero f,
      )
      (omega arith)

pub address_of-set_cdar : (p : ℕ) → p % 32 ≡ 0 → p < 2 ^ 64 → address_of (bit_or p snen) ≡ p
address_of-set_cdar p h below = address_of-flagged p snen h below (omega arith)

pub address_of-link :
    (feature p : ℕ) → p % 32 ≡ 0 → p < 2 ^ 64 → address_of (bit_or (link_snoop feature) p) ≡ p
address_of-link feature p h below = elim (Bool-cases (is_83xx feature)) [
  | inl old ↦ rw (old, bit_or_comm snen p) (address_of-set_cdar p h below)
  | inr new ↦ rw (new, bit_or_comm 0 p) (address_of-flagged p 0 h below (omega arith))
]

pub link-open : (feature p : ℕ) → p % 32 ≡ 0 → has (bit_or (link_snoop feature) p) eol ≡ false
link-open feature p h = elim (Bool-cases (is_83xx feature)) [
  | inl old ↦
      rw (old, bit_or_comm snen p, flagged p snen h (omega arith), bit_and_mask 1 (p + snen))
        (ground arith)
  | inr new ↦
      rw (new, bit_or_comm 0 p, flagged p 0 h (omega arith), bit_and_mask 1 (p + 0)) (ground arith)
]

kept :
    (feature dst : ℕ) (d : Desc)
    → get_desc_src feature (set_desc_dst feature dst d) ≡ get_desc_src feature d
unfolding get_desc_src set_desc_dst
kept feature dst d = refl

-- Source and destination, written below 2^48 in this order into a descriptor, are read back as they were, whatever
-- the generation of the controller puts beside them.
pub get_desc-set_desc :
    (feature src dst : ℕ) (d : Desc)
    → src < 2 ^ 48
    → dst < 2 ^ 48
    → let d' = set_desc_dst feature dst (set_desc_src feature src d) in
      (get_desc_src feature d' ≡ src) × (get_desc_dst feature d' ≡ dst)
get_desc-set_desc feature src dst d hs hd = (
  kept feature dst (set_desc_src feature src d) ∙ get_desc_src-set_desc_src feature src d hs,
  get_desc_dst-set_desc_dst feature dst (set_desc_src feature src d) hd,
)
