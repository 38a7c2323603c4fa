-- ===== src/Dma/Walk.antt =====
-- What the controller of dma/fsldma.c does with a chain that was started: it follows the link words through the
-- memory, from the address in the CDAR to the descriptor with the end mark.
use mathlib.Core.Path.{subst}
use powerpc_i2c_temp.Prelude.{
  ℕ, zero, suc, ◌%◌, ◌^◌, ◌<◌, ◌==◌, bit_or, ◌≡◌, ◌≢◌, ap, ◌∙◌, arith, true, if◌then◌else◌, Option,
  none, some, List, [], ◌∷◌, ◌++◌, length,
}
use powerpc_i2c_temp.Dma.Kernel.{Desc, Platform, Chan}
use powerpc_i2c_temp.Dma.Bits.{eol, snen}
use powerpc_i2c_temp.Dma.Hardware.{has}
use powerpc_i2c_temp.Dma.Queue.{xfer_pending, xfer_ld_queue}
use powerpc_i2c_temp.Dma.Watched.{Watched, watched, start_chain-at_cdar}
use powerpc_i2c_temp.Dma.Links.{links, Chained, IsQueue}
use powerpc_i2c_temp.Dma.Words.{address_of, address_of-set_cdar, address_of-link, link-open}

-- The descriptor at an address.
abbrev pub find : List Desc → ℕ → Option Desc
find [] a = none
find (d ∷ ds) a = if d.phys == a then some d else find ds a

-- What is visited from a descriptor on, where `rest` goes on with a link word.
abbrev pub visit : (ℕ → List Desc) → Option Desc → List Desc
visit rest none = []
visit rest (some d) = if has d.next_ln_addr eol then d ∷ [] else d ∷ rest d.next_ln_addr

-- The controller's walk of at most as many descriptors as its first argument says, from a link word on.
unfoldable pub walk : ℕ → List Desc → ℕ → List Desc
walk zero memory word = []
walk (suc n) memory word = visit (λ w. walk n memory w) (find memory (address_of word))

abbrev pub Apart : ℕ → List Desc → Type 0
Apart p [] = Unit
Apart p (d ∷ ds) = (p ≢ d.phys) × Apart p ds

-- Aligned addresses, no two the same.
abbrev pub Placed : List Desc → Type 0
Placed [] = Unit
Placed (d ∷ ds) = (d.phys % 32 ≡ 0) × (d.phys < 2 ^ 64) × Apart d.phys ds × Placed ds

abbrev Holds : List Desc → List Desc → Type 0
Holds memory [] = Unit
Holds memory (d ∷ ds) = (find memory d.phys ≡ some d) × Holds memory ds

Holds-cons :
    (e : Desc) (memory ds : List Desc) → Apart e.phys ds → Holds memory ds → Holds (e ∷ memory) ds
Holds-cons e memory [] a h = tt
Holds-cons e memory (d ∷ ds) a h = (ground (arith, a.0, h.0), Holds-cons e memory ds a.1 h.1)

Placed-Holds : (ds : List Desc) → Placed ds → Holds ds ds
Placed-Holds [] p = tt
Placed-Holds (d ∷ ds) p = (ground arith, Holds-cons d ds ds p.2 (Placed-Holds ds p.3))

walk_chain :
    (feature word : ℕ) (memory : List Desc) (d : Desc) (ds : List Desc)
    → address_of word ≡ d.phys
    → Chained feature (links (d ∷ ds))
    → Placed (d ∷ ds)
    → Holds memory (d ∷ ds)
    → walk (length (d ∷ ds)) memory word ≡ d ∷ ds
unfolding walk
walk_chain feature word memory d [] at chain placed holds = rw (at, holds.0, chain)
walk_chain feature word memory d (d' ∷ ds) at chain placed holds =
    let placed' = placed.3 in
    let at' = ap address_of chain.0 ∙ address_of-link feature d'.phys placed'.0 placed'.1 in
    let open_end = ap (λ n. has n eol) chain.0 ∙ link-open feature d'.phys placed'.0 in
    rw (at, holds.0, open_end)
      (ap (λ t. d ∷ t) (walk_chain feature d.next_ln_addr memory d' ds at' chain.1 placed' holds.1))

module _ {E : Type 0} (k : Platform E) (c : Chan (Watched E)) (d : Desc) (ds : List Desc) where
  started :
      (pending : List Desc)
      → pending ≡ d ∷ ds
      → c.idle ≡ true
      → let c' = xfer_pending (watched k) pending c in
        (c'.ld_running ≡ c.ld_running ++ c.ld_pending)
        × (c'.ld_pending ≡ [])
        × (c'.env.at_cdar ≡ bit_or d.phys snen)
  unfolding xfer_pending
  started [] same idle = cc
  started (x ∷ xs) same idle =
      let first : x ≡ d = cc in
      let at = start_chain-at_cdar k c.feature x.phys c.env ∙ ap (λ y. bit_or y.phys snen) first in
      (rw idle, rw idle, rw idle at)

  -- When an idle well-formed channel has pending descriptors, at aligned addresses of their own, the start makes
  -- them the running ones, and the controller that follows the links from the CDAR visits exactly these, each
  -- once and in their order.
  pub xfer_walks :
      c.ld_pending ≡ d ∷ ds
      → c.idle ≡ true
      → IsQueue c
      → Placed (d ∷ ds)
      → let c' = xfer_ld_queue (watched k) c in
        (c'.ld_running ≡ d ∷ ds)
        × (c'.ld_pending ≡ [])
        × (walk (length c'.ld_running) c'.ld_running c'.env.at_cdar ≡ c'.ld_running)
  unfolding xfer_ld_queue
  xfer_walks pending idle q placed =
      let s = started c.ld_pending pending idle in
      let chain : Chained c.feature (links (d ∷ ds)) =
        subst (λ t. Chained c.feature (links t)) pending q.pends_chain in
      let runs = s.0 ∙ ap (λ t. t ++ c.ld_pending) (q.rests idle) ∙ pending in
      let at = address_of-set_cdar d.phys placed.0 placed.1 in
      (
        runs,
        s.1,
        rw (runs, s.2)
            (walk_chain c.feature (bit_or d.phys snen) (d ∷ ds) d ds at chain placed
              (Placed-Holds (d ∷ ds) placed)),
      )
