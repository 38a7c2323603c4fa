-- ===== src/Dma/Pieces.antt =====
-- What a list of descriptors of dma/fsldma.c says, and how building it up and finishing it change that: the
-- pieces that it copies, its links, and the marks of its members.
use powerpc_i2c_temp.Prelude.{
  ◌∙◌, ℕ, ◌+◌, ◌-◌, ◌^◌, ◌≤◌, ◌<◌, bit_or, ◌≡◌, refl, ap, arith, true, List, [], ◌∷◌, ◌++◌,
}
use powerpc_i2c_temp.Prelude.Int.{pos}
use powerpc_i2c_temp.Prelude.Word.{u32}
use powerpc_i2c_temp.Dma.Kernel.{Desc}
use powerpc_i2c_temp.Dma.Bits.{eol, bcr_max_cnt}
use powerpc_i2c_temp.Dma.Hardware.{
  set_desc_src, set_desc_dst, has, link_snoop, get_desc_src, get_desc_dst, set_desc_next,
  set_ld_eol, set_desc_src, set_desc_dst,
}
use powerpc_i2c_temp.Dma.Queue.{ctrl_ack, link_tail}
use powerpc_i2c_temp.Dma.Prepare.{blank, piece, linked_with, finish, ebusy}
use powerpc_i2c_temp.Dma.Watched.{phys_of}
use powerpc_i2c_temp.Dma.Fifo.{phys_of-append, phys_of-link_tail}
use powerpc_i2c_temp.Prelude.Bits.{bit_and_mask, bit_at-or}
use powerpc_i2c_temp.Dma.Links.{links, links-append, links-link_tail, Chained, Open, Open-relink}
use powerpc_i2c_temp.Dma.Words.{get_desc_src-set_desc_src, get_desc_dst-set_desc_dst}

-- Destination, source and count of each descriptor.
abbrev pub moves : ℕ → List Desc → List (ℕ × ℕ × ℕ)
moves feature [] = []
moves feature (d ∷ ds) =
    (get_desc_dst feature d, get_desc_src feature d, d.count) ∷ moves feature ds

-- The pieces, none of them empty or larger than the counter, copy `len` bytes without a gap or an overlap.
abbrev pub Covers : ℕ → ℕ → ℕ → List (ℕ × ℕ × ℕ) → Type 0
Covers dst src len [] = len ≡ 0
Covers dst src len ((to, from, n) ∷ ps) =
    (to ≡ dst)
    × (from ≡ src)
    × (0 < n)
    × (n ≤ bcr_max_cnt)
    × (n ≤ len)
    × Covers (dst + n) (src + n) (len - n) ps

-- All but the last are acknowledged with cookie 0, the last has the caller's flags and `-EBUSY`.
abbrev pub Tagged : ℕ → List Desc → Type 0
Tagged flags [] = Unit
Tagged flags (d ∷ []) = (d.flags ≡ flags) × (d.cookie ≡ ebusy)
Tagged flags (d ∷ d' ∷ ds) = (d.flags ≡ ctrl_ack) × (d.cookie ≡ pos 0) × Tagged flags (d' ∷ ds)

abbrev pub Acked : List Desc → Type 0
Acked [] = Unit
Acked (d ∷ ds) = (d.flags ≡ ctrl_ack) × (d.cookie ≡ pos 0) × Acked ds

moves-append :
    (feature : ℕ) (xs ys : List Desc)
    → moves feature (xs ++ ys) ≡ moves feature xs ++ moves feature ys
moves-append feature [] ys = refl
moves-append feature (d ∷ xs) ys = rw (moves-append feature xs ys)

moves-link_tail :
    (feature next : ℕ) (ds : List Desc)
    → moves feature (link_tail feature next ds) ≡ moves feature ds
unfolding link_tail set_desc_next get_desc_src get_desc_dst
moves-link_tail feature next [] = refl
moves-link_tail feature next (d ∷ []) = refl
moves-link_tail feature next (d ∷ d' ∷ ds) = rw (moves-link_tail feature next (d' ∷ ds))

moves-linked_with :
    (feature : ℕ) (ds : List Desc) (new : Desc)
    → moves feature (linked_with feature ds new) ≡ moves feature ds ++ moves feature (new ∷ [])
moves-linked_with feature ds new = rw (moves-append, moves-link_tail)

phys_of-linked_with :
    (feature : ℕ) (ds : List Desc) (new : Desc)
    → phys_of (linked_with feature ds new) ≡ phys_of ds ++ new.phys ∷ []
phys_of-linked_with feature ds new = rw (phys_of-append, phys_of-link_tail)

Acked-linked_with :
    (feature : ℕ) (ds : List Desc) (new : Desc)
    → Acked ds
    → Acked (new ∷ [])
    → Acked (linked_with feature ds new)
unfolding link_tail set_desc_next
Acked-linked_with feature [] new h n = n
Acked-linked_with feature (d ∷ []) new h n = (h.0, h.1, n)
Acked-linked_with feature (d ∷ d' ∷ ds) new h n =
    (h.0, h.1, Acked-linked_with feature (d' ∷ ds) new h.2 n)

Open-linked_with :
    (feature : ℕ) (ds : List Desc) (new : Desc)
    → Open feature (links ds)
    → Open feature (links (linked_with feature ds new))
Open-linked_with feature ds new h =
    rw (links-append, links-link_tail) (Open-relink feature new.phys new.next_ln_addr (links ds) h)

-- The end mark, whatever else is in the word.
end_marked : (n s : ℕ) → has (bit_or (bit_or n eol) s) eol ≡ true
end_marked n s =
    rw (bit_and_mask 1 (bit_or (bit_or n eol) s))
      (ground (arith, bit_at-or (bit_or n eol) s 0, bit_at-or n eol 0))

pub moves-finish :
    (feature flags : ℕ) (ds : List Desc)
    → moves feature (finish feature flags ds) ≡ moves feature ds
unfolding finish set_ld_eol get_desc_src get_desc_dst
moves-finish feature flags [] = refl
moves-finish feature flags (d ∷ []) = refl
moves-finish feature flags (d ∷ d' ∷ ds) = rw (moves-finish feature flags (d' ∷ ds))

pub phys_of-finish :
    (feature flags : ℕ) (ds : List Desc) → phys_of (finish feature flags ds) ≡ phys_of ds
unfolding finish set_ld_eol
phys_of-finish feature flags [] = refl
phys_of-finish feature flags (d ∷ []) = refl
phys_of-finish feature flags (d ∷ d' ∷ ds) =
    ap (λ t. d.phys ∷ t) (phys_of-finish feature flags (d' ∷ ds))

pub Chained-finish :
    (feature flags : ℕ) (ds : List Desc)
    → Open feature (links ds)
    → Chained feature (links (finish feature flags ds))
unfolding finish set_ld_eol
Chained-finish feature flags [] h = tt
Chained-finish feature flags (d ∷ []) h = end_marked d.next_ln_addr (link_snoop feature)
Chained-finish feature flags (d ∷ d' ∷ []) h =
    (h.0, end_marked d'.next_ln_addr (link_snoop feature))
Chained-finish feature flags (d ∷ d' ∷ d'' ∷ ds) h =
    (h.0, Chained-finish feature flags (d' ∷ d'' ∷ ds) h.1)

pub Tagged-finish :
    (feature flags : ℕ) (ds : List Desc) → Acked ds → Tagged flags (finish feature flags ds)
unfolding finish set_ld_eol
Tagged-finish feature flags [] h = tt
Tagged-finish feature flags (d ∷ []) h = (refl, refl)
Tagged-finish feature flags (d ∷ d' ∷ []) h = (h.0, h.1, (refl, refl))
Tagged-finish feature flags (d ∷ d' ∷ d'' ∷ ds) h =
    (h.0, h.1, Tagged-finish feature flags (d' ∷ d'' ∷ ds) h.2)

-- A new descriptor says what it was made for.
moves-piece :
    (feature p n dst src : ℕ)
    → n ≤ bcr_max_cnt
    → dst < 2 ^ 48
    → src < 2 ^ 48
    → moves feature (piece feature (blank p) n dst src ∷ []) ≡ (dst, src, n) ∷ []
unfolding piece get_desc_dst set_desc_dst get_desc_src set_desc_src
moves-piece feature p n dst src h hd hs =
    let there = get_desc_dst-set_desc_dst feature dst (blank p) hd in
    let here = get_desc_src-set_desc_src feature src (blank p) hs in
    let whole : u32 n ≡ n = omega arith in rw (there, here, whole)

module _ (feature p n dst src : ℕ) (made : List Desc) where
  -- The list of descriptors with one more piece.
  abbrev pub extended : List Desc
  extended = linked_with feature made (piece feature (blank p) n dst src)

  pub phys_of-extended : phys_of extended ≡ phys_of made ++ p ∷ []
  unfolding piece set_desc_src set_desc_dst
  phys_of-extended = phys_of-linked_with feature made (piece feature (blank p) n dst src)

  pub moves-extended :
      n ≤ bcr_max_cnt
      → dst < 2 ^ 48
      → src < 2 ^ 48
      → moves feature extended ≡ moves feature made ++ (dst, src, n) ∷ []
  moves-extended h hd hs =
      moves-linked_with feature made (piece feature (blank p) n dst src)
      ∙ ap (λ t. moves feature made ++ t) (moves-piece feature p n dst src h hd hs)

  pub Open-extended : Open feature (links made) → Open feature (links extended)
  Open-extended = Open-linked_with feature made (piece feature (blank p) n dst src)

  pub Acked-extended : Acked made → Acked extended
  unfolding piece
  Acked-extended h =
      Acked-linked_with feature made (piece feature (blank p) n dst src) h (refl, refl, tt)
