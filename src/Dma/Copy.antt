-- ===== src/Dma/Copy.antt =====
-- What `prep_memcpy` of dma/fsldma.c makes of a request: pieces that cover it, linked and marked, or nothing and
-- no descriptor lost.
use native.Mathlib.Decide.{dec_lt}
use mathlib.Core.List.{append_assoc, append-nil, reverse}
use powerpc_i2c_temp.Prelude.{
  ℕ, zero, suc, ◌+◌, ◌-◌, ◌*◌, ◌/◌, ◌^◌, ◌≤◌, ◌<◌, min, ◌==◌, ◌≡◌, refl, ap, ◌∙◌, arith, true,
  false, Option, none, some, Option-cases, inl, inr, List, [], ◌∷◌, ◌++◌, length,
}
use powerpc_i2c_temp.Prelude.Word.{u64}
use powerpc_i2c_temp.Dma.Kernel.{Desc, Platform}
use powerpc_i2c_temp.Dma.Bits.{bcr_max_cnt}
use powerpc_i2c_temp.Dma.Queue.{free_desc_list_reverse}
use powerpc_i2c_temp.Dma.Prepare.{finish, memcpy_loop, prep_memcpy}
use powerpc_i2c_temp.Dma.Watched.{
  Watched, Pool, watched, took, phys_of, free_desc_list_reverse-pool,
}
use powerpc_i2c_temp.Dma.Links.{links, Chained, Open}
use powerpc_i2c_temp.Dma.Pieces.{
  moves, Covers, Tagged, Acked, extended, phys_of-extended, moves-extended, Open-extended,
  Acked-extended, moves-finish, phys_of-finish, Chained-finish, Tagged-finish,
}

abbrev pub allocated_too : List ℕ → Pool → Pool
allocated_too ps l = record l { allocated = l.allocated ++ ps }

-- The descriptor pool answers these addresses one after the other, and then null.
abbrev pub Exhausted : {E : Type 0} → Platform E → List ℕ → E → Type 0
Exhausted k [] e = (k.pool_alloc e).0 ≡ none
Exhausted k (p ∷ ps) e = ((k.pool_alloc e).0 ≡ some p) × Exhausted k ps (k.pool_alloc e).1

-- What a request for a copy that starts in the state `e` may come to: nothing, and then the pool ran out within the pieces
-- that the request needs, and all that was taken from it was given back in the reverse order; or a marked chain that covers
-- the request and is all that was taken from the pool.
abbrev pub Copied :
    {E : Type 0}
    → Platform E
    → E
    → (feature flags dst src len : ℕ) → Pool
    → Option (List Desc)
    → Pool
    → Type 0
Copied k e feature flags dst src len l none l' =
    (ps : List ℕ) × Exhausted k ps e
    × (length ps * bcr_max_cnt < len)
    × (l' ≡ took (reverse ps) (allocated_too ps l))
Copied k e feature flags dst src len l (some ds) l' =
    Covers dst src len (moves feature ds)
    × Chained feature (links ds)
    × Tagged flags ds
    × (l' ≡ allocated_too (phys_of ds) l)

-- What the loop makes of the rest of a request, behind the descriptors `made`, whose addresses and moves are given.
abbrev LoopResult :
    {E : Type 0}
    → Platform E
    → E
    → (feature flags dst src len : ℕ) → List ℕ
    → List (ℕ × ℕ × ℕ)
    → Pool
    → Option (List Desc)
    → Pool
    → Type 0
LoopResult k e feature flags dst src len addresses before l none l' =
    (ps : List ℕ) × Exhausted k ps e
    × (length ps * bcr_max_cnt < len)
    × (l' ≡ took (reverse (addresses ++ ps)) (allocated_too ps l))
LoopResult k e feature flags dst src len addresses before l (some ds) l' =
    (ts : List (ℕ × ℕ × ℕ)) × (ps : List ℕ) × (moves feature ds ≡ before ++ ts)
    × Covers dst src len ts
    × (phys_of ds ≡ addresses ++ ps)
    × (l' ≡ allocated_too ps l)
    × Chained feature (links ds)
    × Tagged flags ds

-- One more piece before the rest.
LoopResult-cons :
    {E : Type 0} (k : Platform E) (s : E) (feature flags dst src len p : ℕ) (addresses : List ℕ)
    (before : List (ℕ × ℕ × ℕ)) (l : Pool) (o : Option (List Desc)) (l' : Pool)
    → (k.pool_alloc s).0 ≡ some p
    → bcr_max_cnt < len
    → LoopResult k
        (k.pool_alloc s).1
        feature
        flags
        (dst + bcr_max_cnt)
        (src + bcr_max_cnt)
        (len - bcr_max_cnt)
        (addresses ++ p ∷ [])
        (before ++ (dst, src, bcr_max_cnt) ∷ [])
        (allocated_too (p ∷ []) l)
        o
        l'
    → LoopResult k s feature flags dst src len addresses before l o l'
LoopResult-cons k s feature flags dst src len p addresses before l none l' one h (ps, out, few, e) =
    (
      p ∷ ps,
      (one, out),
      omega (arith, few),
      e ∙ rw (append_assoc addresses (p ∷ []) ps, append_assoc l.allocated (p ∷ []) ps),
    )
LoopResult-cons k s feature flags dst src len p addresses before l (some ds) l' one h
      (ts, ps, m, c, a, e, ch, tg) =
    (
      (dst, src, bcr_max_cnt) ∷ ts,
      p ∷ ps,
      m ∙ append_assoc before _ ts,
      (refl, refl, omega arith, omega arith, omega arith, c),
      a ∙ append_assoc addresses _ ps,
      e ∙ ap (λ t. record l { allocated = t }) (append_assoc l.allocated (p ∷ []) ps),
      ch,
      tg,
    )

module _ {E : Type 0} (k : Platform E) (feature flags : ℕ) where
  -- The state after a look into the descriptor pool.
  abbrev looked : Watched E → Watched E
  looked w = ((watched k).pool_alloc w).1

  out_of_memory :
      (fuel dst src len : ℕ) (made : List Desc) (w : Watched E)
      → (k.pool_alloc w.inner).0 ≡ none
      → memcpy_loop (watched k) (suc fuel) feature flags dst src len made w
        ≡ some (none, free_desc_list_reverse (watched k) made (looked w))
  unfolding memcpy_loop watched
  out_of_memory fuel dst src len made w e = rw e

  last_piece :
      (fuel dst src len p : ℕ) (made : List Desc) (w : Watched E)
      → (k.pool_alloc w.inner).0 ≡ some p
      → len ≤ bcr_max_cnt
      → memcpy_loop (watched k) (suc fuel) feature flags dst src len made w
        ≡ some (some (finish feature flags (extended feature p len dst src made)), looked w)
  unfolding memcpy_loop watched
  last_piece fuel dst src len p made w e h =
      let whole : min len bcr_max_cnt ≡ len = omega arith in
      let done : (len - len == 0) ≡ true = ground arith in rw (e, whole, done)

  more_pieces :
      (fuel dst src len p : ℕ) (made : List Desc) (w : Watched E)
      → (k.pool_alloc w.inner).0 ≡ some p
      → bcr_max_cnt < len
      → dst + len < 2 ^ 48
      → src + len < 2 ^ 48
      → memcpy_loop (watched k) (suc fuel) feature flags dst src len made w
        ≡ memcpy_loop
            (watched k)
            fuel
            feature
            flags
            (dst + bcr_max_cnt)
            (src + bcr_max_cnt)
            (len - bcr_max_cnt)
            (extended feature p bcr_max_cnt dst src made)
            (looked w)
  unfolding memcpy_loop watched
  more_pieces fuel dst src len p made w e h hd hs =
      let most : min len bcr_max_cnt ≡ bcr_max_cnt = omega arith in
      let left : (len - bcr_max_cnt == 0) ≡ false = ground arith in
      let to : u64 (dst + bcr_max_cnt) ≡ dst + bcr_max_cnt = omega arith in
      let from : u64 (src + bcr_max_cnt) ≡ src + bcr_max_cnt = omega arith in
      rw (e, most, left, to, from)

  looked-pool :
      (p : ℕ) (w : Watched E)
      → (k.pool_alloc w.inner).0 ≡ some p
      → (looked w).pool ≡ allocated_too (p ∷ []) w.pool
  unfolding watched
  looked-pool p w e = rw e

  -- What the loop returns, and what that is.
  abbrev Loops : (fuel dst src len : ℕ) → List Desc → Watched E → Type 0
  Loops fuel dst src len made w =
      (o : Option (List Desc)) × (w' : Watched E) × (memcpy_loop (watched k) fuel feature flags dst
          src len made w
        ≡ some (o, w'))
      × LoopResult k w.inner feature flags dst src len (phys_of made) (moves feature made) w.pool o
          w'.pool

  Loops-out :
      (fuel dst src len : ℕ) (made : List Desc) (w : Watched E)
      → (k.pool_alloc w.inner).0 ≡ none
      → 0 < len
      → Loops (suc fuel) dst src len made w
  unfolding watched
  Loops-out fuel dst src len made w e h = (
    none,
    free_desc_list_reverse (watched k) made (looked w),
    out_of_memory fuel dst src len made w e,
    ([], e, h, free_desc_list_reverse-pool k made (looked w) ∙ rw (e, append-nil (phys_of made))),
  )

  Loops-last :
      (fuel dst src len p : ℕ) (made : List Desc) (w : Watched E)
      → (k.pool_alloc w.inner).0 ≡ some p
      → 0 < len
      → len ≤ bcr_max_cnt
      → dst + len < 2 ^ 48
      → src + len < 2 ^ 48
      → Open feature (links made)
      → Acked made
      → Loops (suc fuel) dst src len made w
  Loops-last fuel dst src len p made w e h f hd hs op ack =
      let made' = extended feature p len dst src made in
      (
        some (finish feature flags made'),
        looked w,
        last_piece fuel dst src len p made w e f,
        (
          (dst, src, len) ∷ [],
          p ∷ [],
          moves-finish feature flags made'
              ∙ moves-extended feature p len dst src made f (omega arith) (omega arith),
          (refl, refl, h, f, omega arith, omega arith),
          phys_of-finish feature flags made' ∙ phys_of-extended feature p len dst src made,
          looked-pool p w e,
          Chained-finish feature flags made' (Open-extended feature p len dst src made op),
          Tagged-finish feature flags made' (Acked-extended feature p len dst src made ack),
        ),
      )

  Loops-more :
      (fuel dst src len p : ℕ) (made : List Desc) (w : Watched E)
      → (k.pool_alloc w.inner).0 ≡ some p
      → bcr_max_cnt < len
      → dst + len < 2 ^ 48
      → src + len < 2 ^ 48
      → Loops fuel
          (dst + bcr_max_cnt)
          (src + bcr_max_cnt)
          (len - bcr_max_cnt)
          (extended feature p bcr_max_cnt dst src made)
          (looked w)
      → Loops (suc fuel) dst src len made w
  unfolding watched
  Loops-more fuel dst src len p made w e f hd hs (o, w', runs, rest) = (
    o,
    w',
    more_pieces fuel dst src len p made w e f hd hs ∙ runs,
    LoopResult-cons k w.inner feature flags dst src len p (phys_of made) (moves feature made) w.pool
        o w'.pool e f
        (rw
          (
            phys_of-extended feature p bcr_max_cnt dst src made,
            moves-extended feature p bcr_max_cnt dst src made (omega arith) (omega arith)
                (omega arith),
            looked-pool p w e,
          )
          at rest),
  )

  -- A copy that needs at most `fuel` pieces.
  memcpy_loop-Loops :
      (fuel dst src len : ℕ) (made : List Desc) (w : Watched E)
      → 0 < len
      → len ≤ fuel * bcr_max_cnt
      → dst + len < 2 ^ 48
      → src + len < 2 ^ 48
      → Open feature (links made)
      → Acked made
      → Loops fuel dst src len made w
  memcpy_loop-Loops zero dst src len made w h f hd hs op ack = absurd (omega arith)
  memcpy_loop-Loops (suc fuel) dst src len made w h f hd hs op ack =
      elim (Option-cases (k.pool_alloc w.inner).0) [
        | inl e ↦ Loops-out fuel dst src len made w e h
        | inr (p, e) ↦ elim (dec_lt bcr_max_cnt len) [
          | yes big ↦
              let n = bcr_max_cnt in
              Loops-more fuel dst src len p made w e big hd hs (
                memcpy_loop-Loops fuel (dst + n) (src + n) (len - n)
                  (extended feature p n dst src made) (looked w) (omega arith) (omega arith)
                  (omega arith) (omega arith) (Open-extended feature p n dst src made op)
                  (Acked-extended feature p n dst src made ack))
          | no small ↦ Loops-last fuel dst src len p made w e h (omega arith) hd hs op ack
        ]
      ]

Copied-LoopResult :
    {E : Type 0} (k : Platform E) (s : E) (feature flags dst src len : ℕ) (l : Pool)
    (o : Option (List Desc)) (l' : Pool)
    → LoopResult k s feature flags dst src len [] [] l o l'
    → Copied k s feature flags dst src len l o l'
Copied-LoopResult k s feature flags dst src len l none l' r = r
Copied-LoopResult k s feature flags dst src len l (some ds) l' (ts, ps, m, c, a, e, chain, tags) =
    (rw m c, chain, tags, rw a e)

-- `prep_memcpy` always ends. A request for at least one byte, with addresses below 2^48, gets a chain of
-- descriptors that copies it whole, in pieces of at most the counter's width, without a gap or an overlap, linked
-- in order and closed by the end mark; all but the last are acknowledged, the last has the caller's flags
-- and cookie. Or the result is null: then the pool answered some descriptors, too few for the pieces of the request, and
-- then null, and each of these descriptors has been given back, the last one first.
pub prep_memcpy_lem :
    {E : Type 0} (k : Platform E) (feature flags dst src len : ℕ) (w : Watched E)
    → 0 < len
    → dst + len < 2 ^ 48
    → src + len < 2 ^ 48
    → (o : Option (List Desc)) × (w' : Watched E) × (prep_memcpy
          (watched k)
          (some feature)
          dst
          src
          len
          flags
          w
        ≡ some (o, w'))
      × Copied k w.inner feature flags dst src len w.pool o w'.pool
unfolding prep_memcpy
prep_memcpy_lem k feature flags dst src len w h hd hs =
    let (o, w', runs, r) =
      memcpy_loop-Loops k feature flags (len / bcr_max_cnt + 1) dst src len [] w h (omega arith) hd
        hs tt tt in
    let some_bytes : (len == 0) ≡ false = ground arith in
    (
      o,
      w',
      rw some_bytes runs,
      Copied-LoopResult k w.inner feature flags dst src len w.pool o w'.pool r,
    )
