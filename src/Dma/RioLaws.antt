-- ===== src/Dma/RioLaws.antt =====
-- How the RapidIO transfers of dma/fsldma.c end, and the words that they write for the board.
use powerpc_i2c_temp.Prelude.{
  ℕ, suc, ◌+◌, ◌-◌, ◌*◌, ◌/◌, ◌^◌, ◌≤◌, ◌<◌, min, ◌==◌, bit_or, ◌≡◌, refl, ◌∙◌, arith, Bool, true,
  false, if◌then◌else◌, Option, none, some, Option-cases, Bool-cases, ◌⊎◌, inl, inr, [], ◌∷◌,
}
use powerpc_i2c_temp.Prelude.Bits.{bit_or_fields, bit_and_fields, bit_and_mask}
use powerpc_i2c_temp.Prelude.Int.{ℤ, pos, negsuc, ltb_ℤ}
use powerpc_i2c_temp.Dma.Kernel.{mr, Desc, Platform, Chan}
use powerpc_i2c_temp.Dma.Bits.{bcr_max_cnt}
use powerpc_i2c_temp.Dma.Hardware.{set_ld_eol}
use powerpc_i2c_temp.Dma.Queue.{
  link_tail, free_desc_list_reverse, free_chan_resources, alloc_chan_resources, tx_submit,
  issue_pending,
}
use powerpc_i2c_temp.Dma.Prepare.{ebusy, blank, piece, finish, memcpy_loop, prep_memcpy}
use powerpc_i2c_temp.Dma.Irq.{enodev}
use powerpc_i2c_temp.Dma.Rio.{
  Board, Request, released, rapidio_attrib, target, address_word, accepts, complete, poll, with_tx,
  nread_start, nread_transfer, nwrite_transfer, guarded, nread, nwrite, max_bytes,
}

-- A RapidIO address word: the identifier of the target stands two bits above the address, beside the attributes.
address_word_lem :
    (destid addr : ℕ)
    → destid < 2 ^ 8
    → addr < 2 ^ 32
    → address_word (bit_or rapidio_attrib (target destid)) addr
      ≡ (rapidio_attrib + destid * 4) * 2 ^ 32 + addr
unfolding address_word
address_word_lem destid addr h l =
    let shifted : target destid ≡ destid * 4 =
      let whole : (n : ℕ) → n * 2 ^ 2 + 0 ≡ n * 4 = λ n. omega arith in
      let fields = bit_and_fields 2 destid 255 0 0 (omega arith) (omega arith) in
      (rw (whole destid) at fields) ∙ omega (arith, bit_and_mask 8 destid) in
    let beside : bit_or rapidio_attrib (destid * 4) ≡ rapidio_attrib + destid * 4 =
      bit_or_fields 10 667904 (destid * 4) (omega arith) in
    rw (shifted, beside) (bit_or_fields 32 (rapidio_attrib + destid * 4) addr l)

-- No queue and no pool is left.
abbrev pub Released : {E : Type 0} → Chan E → Type 0
Released c = (c.ld_pending ≡ []) × (c.ld_running ≡ []) × (c.desc_pool ≡ false)

-- Success with all resources given back, `-ENODEV` without a pool, or -1.
abbrev pub Ended : {E : Type 0} → ℤ × Chan E → Type 0
Ended (err, c) =
    ((err ≡ pos 0) × Released c) ⊎ ((err ≡ enodev) × (c.desc_pool ≡ false)) ⊎ (err ≡ negsuc 0)

Ended-if :
    {E : Type 0} (t : Bool) (x y : ℤ × Chan E) → Ended x → Ended y → Ended (if t then x else y)
Ended-if true x y hx hy = hx
Ended-if false x y hx hy = hy

module _ {E : Type 0} (k : Platform E) where
  -- A copy that fits the counter needs one descriptor.
  prep_one :
      (feature dst src len flags : ℕ) (e : E)
      → 0 < len
      → len ≤ bcr_max_cnt
      → ((e' : E) × (prep_memcpy k (some feature) dst src len flags e ≡ some (none, e')))
        ⊎ ((d : Desc) × (e' : E) × (prep_memcpy k (some feature) dst src len flags e
              ≡ some (some (d ∷ []), e')))
  unfolding prep_memcpy memcpy_loop finish link_tail free_desc_list_reverse
  prep_one feature dst src len flags e h f =
      let some_bytes : (len == 0) ≡ false = ground arith in
      let fuel : len / bcr_max_cnt + 1 ≡ suc (len / bcr_max_cnt) = omega arith in
      let whole : min len bcr_max_cnt ≡ len = omega arith in
      let done : (len - len == 0) ≡ true = ground arith in
      elim (Option-cases (k.pool_alloc e).0) [
        | inl out ↦ inl ((k.pool_alloc e).1, rw (some_bytes, fuel, out))
        | inr (p, at) ↦ inr (
          set_ld_eol feature
              (record (piece feature (blank p) len dst src) { flags = flags; cookie = ebusy }),
          (k.pool_alloc e).1,
          rw (some_bytes, fuel, at, whole, done),
        )
      ]

  unallocated :
      (c : Chan E)
      → ltb_ℤ (alloc_chan_resources k c).0 (pos 1) ≡ true
      → (alloc_chan_resources k c).1.desc_pool ≡ false
  unfolding alloc_chan_resources
  unallocated c h = ground arith

accepts_lem : (r : Request) → accepts r ≡ true → (0 < r.bytecnt) × (r.bytecnt ≤ bcr_max_cnt)
unfolding accepts
accepts_lem r h = ground arith

refuses :
    (r : Request)
    → (r.bytecnt ≡ 0) ⊎ (max_bytes ≤ r.bytecnt) ⊎ (r.loal_addr ≡ 0)
    → accepts r ≡ false
unfolding accepts
refuses r h = ground arith

module _ {E : Type 0} (k : Platform E) (b : Board E) where
  complete-Ended : (cookie : ℤ) (c : Chan E) → Ended (complete k b cookie c)
  unfolding complete free_chan_resources
  complete-Ended cookie c = Ended-if _ _ _ (inr (inl (refl, refl))) (inl (refl, (refl, refl, refl)))

  with_tx-Ended :
      (dst src len flags : ℕ) (next : ℤ → Chan E → ℤ × Chan E) (c : Chan E)
      → 0 < len
      → len ≤ bcr_max_cnt
      → ((cookie : ℤ) (c' : Chan E) → Ended (next cookie c'))
      → (r : ℤ × Chan E) × (with_tx k b dst src len flags next c ≡ some r) × Ended r
  unfolding with_tx free_chan_resources
  with_tx-Ended dst src len flags next c h f ends =
      elim (prep_one k c.feature dst src len flags c.env h f) [
        | inl (e', null) ↦
            (released k enodev (record c { env = e' }), rw null, inr (inl (refl, refl)))
        | inr (d, e', made) ↦
            let sent = tx_submit k (record d { callback = some 0 }) [] (record c { env = e' }) in
            (
              if ltb_ℤ sent.0 (pos 0)
                  then released k enodev sent.1
                  else next sent.0 (issue_pending k sent.1),
              rw made,
              Ended-if (ltb_ℤ sent.0 (pos 0)) _ _ (inr (inl (refl, refl)))
                  (ends sent.0 (issue_pending k sent.1)),
            )
      ]

  -- The result of a transfer, and how it ended.
  abbrev pub Ends : Option (ℤ × Chan E) → Type 0
  Ends o = (r : ℤ × Chan E) × (o ≡ some r) × Ended r

  Ends-if : (t : Bool) (x y : Option (ℤ × Chan E)) → Ends x → Ends y → Ends (if t then x else y)
  Ends-if true x y hx hy = hx
  Ends-if false x y hx hy = hy

  nread_start-Ended : (cookie : ℤ) (c : Chan E) → Ended (nread_start k b cookie c)
  unfolding nread_start
  nread_start-Ended cookie c = Ended-if _ _ _ (complete-Ended cookie _) (inr (inr refl))

  nread_transfer-Ends :
      (r : Request) (c : Chan E)
      → 0 < r.bytecnt
      → r.bytecnt ≤ bcr_max_cnt
      → Ends (nread_transfer k b r c)
  unfolding nread_transfer
  nread_transfer-Ends r c h f =
      with_tx-Ended _ _ r.bytecnt _ (nread_start k b) _ h f nread_start-Ended

  nwrite_transfer-Ends :
      (r : Request) (c : Chan E)
      → 0 < r.bytecnt
      → r.bytecnt ≤ bcr_max_cnt
      → Ends (nwrite_transfer k b r c)
  unfolding nwrite_transfer
  nwrite_transfer-Ends r c h f =
      Ends-if _ _ _ (with_tx-Ended _ _ r.bytecnt _ (complete k b) _ h f complete-Ended)
        (_, refl, inr (inr refl))

  guarded-Ends :
      (transfer : Request → Chan E → Option (ℤ × Chan E)) (r : Request) (c : Chan E)
      → ((c' : Chan E) → 0 < r.bytecnt → r.bytecnt ≤ bcr_max_cnt → Ends (transfer r c'))
      → Ends (guarded k b transfer r c)
  unfolding guarded
  guarded-Ends transfer r c ends =
      let c' = alloc_chan_resources k (record c { env = poll b 0x100 (b.reg_out mr 0 c.env) }) in
      elim (Bool-cases (accepts r)) [
        | inr no_way ↦ ((negsuc 0, c), rw no_way, inr (inr refl))
        | inl good ↦ elim (Bool-cases (ltb_ℤ c'.0 (pos 1))) [
          | inl none_left ↦
              ((enodev, c'.1), rw (good, none_left), inr (inl (refl, unallocated k _ none_left)))
          | inr got ↦
              let (x, runs, e) = ends c'.1 (accepts_lem r good).0 (accepts_lem r good).1 in
              (x, rw (good, got) runs, e)
        ]
      ]

  -- Both transfers always return, whatever the request, the memory, the board and the wait do. The result is 0,
  -- and then both queues are empty and the pool is gone; or it is `-ENODEV`, and there is no pool; or it
  -- is -1.
  pub transfers_end : (r : Request) (c : Chan E) → Ends (nread k b r c) × Ends (nwrite k b r c)
  unfolding nread nwrite
  transfers_end r c = (
    guarded-Ends (nread_transfer k b) r c (λ c' h f. nread_transfer-Ends r c' h f),
    guarded-Ends (nwrite_transfer k b) r c (λ c' h f. nwrite_transfer-Ends r c' h f),
  )

  -- A request for no byte, for 64 MiB or more, or at a null address is answered by -1, and nothing is touched.
  pub transfers_refuse :
      (r : Request) (c : Chan E)
      → (r.bytecnt ≡ 0) ⊎ (max_bytes ≤ r.bytecnt) ⊎ (r.loal_addr ≡ 0)
      → (nread k b r c ≡ some (negsuc 0, c)) × (nwrite k b r c ≡ some (negsuc 0, c))
  unfolding nread nwrite guarded
  transfers_refuse r c h = let no_way = refuses r h in (rw no_way, rw no_way)
