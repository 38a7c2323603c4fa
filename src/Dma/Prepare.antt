-- ===== src/Dma/Prepare.antt =====
-- The preparation of transfers in dma/fsldma.c: how a copy becomes a chain of linked descriptors. A transaction
-- is the list of its descriptors, and an address has the 64 bits of `dma_addr_t`. The channel is
-- known by its features here, and none of them is a null channel.
use powerpc_i2c_temp.Prelude.{
  ℕ, zero, suc, ◌+◌, ◌-◌, ◌/◌, min, ◌==◌, if◌then◌else◌, ◌||◌, Option, none, some, List, [], ◌∷◌,
  ◌++◌,
}
use powerpc_i2c_temp.Prelude.Int.{ℤ, pos, negsuc}
use powerpc_i2c_temp.Prelude.Word.{u64}
use powerpc_i2c_temp.Dma.Kernel.{Desc, Platform}
use powerpc_i2c_temp.Dma.Bits.{bcr_max_cnt}
use powerpc_i2c_temp.Dma.Hardware.{set_desc_cnt, set_desc_src, set_desc_dst, set_ld_eol}
use powerpc_i2c_temp.Dma.Queue.{ctrl_ack, link_tail, free_desc_list_reverse}

abbrev pub ebusy : ℤ
ebusy = negsuc 15

-- A descriptor out of the pool: all zero but its address.
abbrev pub blank : ℕ → Desc
blank p = record {
  src_addr = 0;
  dst_addr = 0;
  next_ln_addr = 0;
  count = 0;
  phys = p;
  cookie = pos 0;
  flags = 0;
  callback = none;
}

abbrev pub blank_at : Option ℕ → Option Desc
blank_at none = none
blank_at (some p) = some (blank p)

-- A descriptor for one piece, acknowledged, before it is linked.
unfoldable pub piece : ℕ → Desc → ℕ → ℕ → ℕ → Desc
piece feature new len dst src =
    let d = set_desc_dst feature dst (set_desc_src feature src (set_desc_cnt len new)) in
    record d { cookie = pos 0; flags = ctrl_ack }

-- Linking of the new descriptor behind the list.
abbrev pub linked_with : ℕ → List Desc → Desc → List Desc
linked_with feature ds new = link_tail feature new.phys ds ++ new ∷ []

-- The last descriptor gets the caller's flags, the cookie `-EBUSY` and the end mark.
unfoldable pub finish : ℕ → ℕ → List Desc → List Desc
finish feature flags [] = []
finish feature flags (d ∷ []) = set_ld_eol feature (record d { flags = flags; cookie = ebusy }) ∷ []
finish feature flags (d ∷ d' ∷ ds) = d ∷ finish feature flags (d' ∷ ds)

-- One side of a scattered copy: the current entry, what is left of it, the counter of entries, the next entries.
pub record Side : Type 0 where
  pub addr : ℕ
  pub len : ℕ
  avail : ℕ
  nents : ℕ
  pub next : List (ℕ × ℕ)

abbrev pub position : Side → ℕ
position s = u64 (s.addr + s.len - s.avail)

abbrev pub used : ℕ → Side → Side
used n s = record s { avail = s.avail - n }

-- `none` when the side has no further entry.
unfoldable pub next_entry : ℕ → List (ℕ × ℕ) → Option Side
next_entry nents [] = none
next_entry nents ((a, n) ∷ entries) =
    some (record { addr = a; len = n; avail = n; nents = nents - 1; next = entries })

unfoldable pub fetch : Side → Option Side
fetch s =
    if s.avail == 0 then (if s.nents == 0 then none else next_entry s.nents s.next) else some s

-- Destination first.
unfoldable pub fetch_both : Side → Side → Option (Side × Side)
fetch_both dst src = elim (fetch dst) [
  | none ↦ none
  | some dst' ↦ elim (fetch src) [ none ↦ none | some src' ↦ some (dst', src') ]
]

-- What a preparation returns; a null pointer is followed where no descriptor was made.
pub data Prepared : Type 0 where
  prepared : List Desc → Prepared
  null : Prepared
  fault : Prepared

unfoldable pub finish_sg : ℕ → ℕ → List Desc → Prepared
finish_sg feature flags [] = fault
finish_sg feature flags (d ∷ ds) = prepared (finish feature flags (d ∷ ds))

abbrev pub first_side : ℕ → ℕ → ℕ → List (ℕ × ℕ) → Side
first_side nents a n entries = record {
  addr = a;
  len = n;
  avail = n;
  nents = nents;
  next = entries;
}

module _ {E : Type 0} (k : Platform E) where
  abbrev pub alloc_descriptor : E → Option Desc × E
  alloc_descriptor e = let (p, e') = k.pool_alloc e in (blank_at p, e')

  unfoldable pub prep_interrupt : Option ℕ → ℕ → E → Option (List Desc) × E
  prep_interrupt none flags e = (none, e)
  prep_interrupt (some feature) flags e =
      let (new, e') = alloc_descriptor e in
      (
        elim new as (λ _. Option (List Desc)) [
          | none ↦ none
          | some d ↦ some (finish feature flags (d ∷ []))
        ],
        e',
      )

  -- One round of `prep_memcpy` on the descriptors made so far, with the new one; `rest` goes on.
  abbrev pub memcpy_step :
      (ℕ → ℕ → ℕ → List Desc → E → Option (Option (List Desc) × E))
      → (feature flags dst src len : ℕ) → List Desc
      → Option Desc
      → E
      → Option (Option (List Desc) × E)
  memcpy_step rest feature flags dst src len made none e =
      some (none, free_desc_list_reverse k made e)
  memcpy_step rest feature flags dst src len made (some d) e =
      let copy = min len bcr_max_cnt in
      let made' = linked_with feature made (piece feature d copy dst src) in
      if len - copy == 0
      then some (some (finish feature flags made'), e)
      else rest (u64 (dst + copy)) (u64 (src + copy)) (len - copy) made' e

  -- The loop; the outer `none` means that the fuel ran out.
  unfoldable pub memcpy_loop :
      ℕ → ℕ → ℕ → ℕ → ℕ → ℕ → List Desc → E → Option (Option (List Desc) × E)
  memcpy_loop zero feature flags dst src len made e = none
  memcpy_loop (suc fuel) feature flags dst src len made e =
      let (new, e') = alloc_descriptor e in
      memcpy_step (memcpy_loop fuel feature flags) feature flags dst src len made new e'

  unfoldable pub prep_memcpy : Option ℕ → ℕ → ℕ → ℕ → ℕ → E → Option (Option (List Desc) × E)
  prep_memcpy none dst src len flags e = some (none, e)
  prep_memcpy (some feature) dst src len flags e =
      if len == 0
      then some (none, e)
      else memcpy_loop (len / bcr_max_cnt + 1) feature flags dst src len [] e

  -- The piece at the two sides, if there is one; `none` when the memory ran out.
  unfoldable pub populate : ℕ → Side → Side → List Desc → E → Option (Side × Side × List Desc) × E
  populate feature dst src made e =
      let n = min (min src.avail dst.avail) bcr_max_cnt in
      let (new, e') = alloc_descriptor e in
      let made' =
        λ (d : Desc). linked_with feature made (piece feature d n (position dst) (position src)) in
      if n == 0 then (some (dst, src, made), e) else (
        elim new as (λ _. Option (Side × Side × List Desc)) [
          | none ↦ none
          | some d ↦ some (used n dst, used n src, made' d)
        ],
        e',
      )

  unfoldable pub sg_loop : ℕ → ℕ → ℕ → Side → Side → List Desc → E → Option (Prepared × E)
  sg_loop zero feature flags dst src made e = none
  sg_loop (suc fuel) feature flags dst src made e =
      let (step, e') = populate feature dst src made e in
      elim step [
        | none ↦ some (null, free_desc_list_reverse k made e')
        | some (dst', src', made') ↦ elim (fetch_both dst' src') [
          | none ↦ some (finish_sg feature flags made', e')
          | some (dst'', src'') ↦ sg_loop fuel feature flags dst'' src'' made' e'
        ]
      ]

  -- An empty list is a null pointer.
  unfoldable pub prep_sg :
      ℕ → ℕ → List (ℕ × ℕ) → ℕ → List (ℕ × ℕ) → ℕ → ℕ → E → Option (Prepared × E)
  prep_sg feature dst_nents [] src_nents src_sg flags fuel e = some (null, e)
  prep_sg feature dst_nents (d ∷ ds) src_nents [] flags fuel e = some (null, e)
  prep_sg feature dst_nents ((a, n) ∷ ds) src_nents ((b, m) ∷ ss) flags fuel e =
      if (dst_nents == 0) || (src_nents == 0)
      then some (null, e)
      else sg_loop fuel feature flags (first_side dst_nents a n ds) (first_side src_nents b m ss) []
          e

  -- `prep_slave_sg`.
  unfoldable pub prep_slave_sg : E → Option (List Desc) × E
  prep_slave_sg e = (none, e)
