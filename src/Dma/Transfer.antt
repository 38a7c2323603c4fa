-- ===== src/Dma/Transfer.antt =====
-- A whole copy in dma/fsldma.c, from the request to the controller: preparation, submission and start.
use mathlib.Core.Path.{subst}
use powerpc_i2c_temp.Prelude.{
  ℕ, ◌+◌, ◌^◌, ◌<◌, ◌%◌, ◌≡◌, ◌≢◌, refl, ap, sym, ◌∙◌, true, some, List, [], ◌∷◌, length,
}
use powerpc_i2c_temp.Dma.Kernel.{Desc, Platform, Chan}
use powerpc_i2c_temp.Dma.Hardware.{get_desc_src, get_desc_dst}
use powerpc_i2c_temp.Dma.Queue.{
  assign_cookies, append_ld_queue, tx_submit, link_tail, issue_pending,
}
use powerpc_i2c_temp.Dma.Prepare.{prep_memcpy}
use powerpc_i2c_temp.Dma.Watched.{Watched, watched, phys_of}
use powerpc_i2c_temp.Dma.Fifo.{phys_of-assign_cookies}
use powerpc_i2c_temp.Dma.Links.{IsQueue, submit-IsQueue}
use powerpc_i2c_temp.Dma.Walk.{walk, Placed, Apart, xfer_walks}
use powerpc_i2c_temp.Dma.Pieces.{moves, Covers}
use powerpc_i2c_temp.Dma.Copy.{Copied, prep_memcpy_lem}

-- Where descriptors stand is a matter of their addresses.
Apart-phys_of : (p : ℕ) (xs ys : List Desc) → phys_of xs ≡ phys_of ys → Apart p xs → Apart p ys
Apart-phys_of p [] [] e h = tt
Apart-phys_of p [] (y ∷ ys) e h = cc
Apart-phys_of p (x ∷ xs) [] e h = cc
Apart-phys_of p (x ∷ xs) (y ∷ ys) e h =
    let head : x.phys ≡ y.phys = cc in
    let rest : phys_of xs ≡ phys_of ys = cc in
    (subst (λ q. p ≢ q) head h.0, Apart-phys_of p xs ys rest h.1)

Placed-phys_of : (xs ys : List Desc) → phys_of xs ≡ phys_of ys → Placed xs → Placed ys
Placed-phys_of [] [] e h = tt
Placed-phys_of [] (y ∷ ys) e h = cc
Placed-phys_of (x ∷ xs) [] e h = cc
Placed-phys_of (x ∷ xs) (y ∷ ys) e h =
    let head : x.phys ≡ y.phys = cc in
    let rest : phys_of xs ≡ phys_of ys = cc in
    (
      subst (λ q. q % 32 ≡ 0) head h.0,
      subst (λ q. q < 2 ^ 64) head h.1,
      subst (λ q. Apart q ys) head (Apart-phys_of x.phys xs ys rest h.2),
      Placed-phys_of xs ys rest h.3,
    )

module _ {E : Type 0} (k : Platform E) where
  moves-assign_cookies :
      (feature : ℕ) (d : Desc) (ds : List Desc) (e : E)
      → moves feature (assign_cookies k d ds e).0 ≡ moves feature (d ∷ ds)
  unfolding assign_cookies get_desc_src get_desc_dst
  moves-assign_cookies feature d [] e = refl
  moves-assign_cookies feature d (d' ∷ ds) e =
      rw (moves-assign_cookies feature d' ds (k.cookie_assign e).1)

  assign_cookies_cons :
      (d : Desc) (ds : List Desc) (e : E)
      → (d' : Desc) × (ds' : List Desc) × ((assign_cookies k d ds e).0 ≡ d' ∷ ds')
  unfolding assign_cookies
  assign_cookies_cons d [] e = (_, _, refl)
  assign_cookies_cons d (d' ∷ ds) e = (_, _, refl)

  -- The submission to a channel without pending descriptors.
  first_submitted :
      (d : Desc) (ds : List Desc) (c : Chan E) (d' : Desc) (ds' : List Desc)
      → c.ld_pending ≡ []
      → (assign_cookies k d ds c.env).0 ≡ d' ∷ ds'
      → ((tx_submit k d ds c).1.ld_pending ≡ d' ∷ ds') × ((tx_submit k d ds c).1.idle ≡ c.idle)
  unfolding tx_submit append_ld_queue link_tail
  first_submitted d ds c d' ds' pending tagged = (rw (pending, tagged), refl)

module _ {E : Type 0} (k : Platform E) (c : Chan (Watched E)) (dst src len flags : ℕ) where
  -- On an idle well-formed channel without pending descriptors, a request for at least one byte with addresses below
  -- 2^48, for which the memory was enough, at aligned addresses of its own: when it is submitted and started, the
  -- queue of pending descriptors is empty, and the controller that follows the links from the CDAR visits the
  -- running descriptors, which copy the request whole, without a gap or an overlap.
  pub copy_runs :
      (d : Desc) (ds : List Desc) (w : Watched E)
      → c.idle ≡ true
      → c.ld_pending ≡ []
      → IsQueue c
      → 0 < len
      → dst + len < 2 ^ 48
      → src + len < 2 ^ 48
      → prep_memcpy (watched k) (some c.feature) dst src len flags c.env ≡ some (some (d ∷ ds), w)
      → Placed (d ∷ ds)
      → let c' = issue_pending (watched k) (tx_submit (watched k) d ds (record c { env = w })).1 in
        (c'.ld_pending ≡ [])
        × (walk (length c'.ld_running) c'.ld_running c'.env.at_cdar ≡ c'.ld_running)
        × Covers dst src len (moves c.feature c'.ld_running)
  unfolding issue_pending
  copy_runs d ds w idle pending q h hd hs made placed =
      let (o, w', runs, result) = prep_memcpy_lem k c.feature flags dst src len c.env h hd hs in
      let same : o ≡ some (d ∷ ds) = cc in
      let copied : Copied k c.env.inner c.feature flags dst src len c.env.pool (some (d ∷ ds))
          w'.pool =
        subst (λ t. Copied k c.env.inner c.feature flags dst src len c.env.pool t w'.pool) same
          result in
      let c1 = record c { env = w } in
      let q1 : IsQueue c1 = record {
        rests = q.rests;
        runs_chain = q.runs_chain;
        pends_chain = q.pends_chain;
      } in
      let q2 = submit-IsQueue (watched k) d ds c1 copied.1 q1 in
      let (d', ds', tagged) = assign_cookies_cons (watched k) d ds w in
      let placed' : Placed (d' ∷ ds') =
        Placed-phys_of (d ∷ ds) (d' ∷ ds')
          (sym (phys_of-assign_cookies (watched k) d ds w) ∙ ap phys_of tagged) placed in
      let (waits, rests) = first_submitted (watched k) d ds c1 d' ds' pending tagged in
      let (running, empty, walks) =
        xfer_walks k (tx_submit (watched k) d ds c1).1 d' ds' waits (rests ∙ idle) q2 placed' in
      let moved : moves c.feature (d' ∷ ds') ≡ moves c.feature (d ∷ ds) =
        ap (moves c.feature) (sym tagged) ∙ moves-assign_cookies (watched k) c.feature d ds w in
      (
        empty,
        walks,
        subst (Covers dst src len) (sym (ap (moves c.feature) running ∙ moved)) copied.0,
      )
