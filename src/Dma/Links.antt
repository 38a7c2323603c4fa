-- ===== src/Dma/Links.antt =====
-- The chains that the controller of dma/fsldma.c follows: each descriptor leads to the next one of its queue,
-- the last one ends the chain, and an idle channel runs nothing, whatever happened before.
use powerpc_i2c_temp.Prelude.{
  ℕ, bit_or, ◌≡◌, refl, ap, true, Bool-cases, inl, inr, List, [], ◌∷◌, ◌++◌,
}
use powerpc_i2c_temp.Dma.Kernel.{Desc, Platform, Chan}
use powerpc_i2c_temp.Dma.Bits.{eol}
use powerpc_i2c_temp.Dma.Hardware.{has, link_snoop, set_desc_next}
use powerpc_i2c_temp.Dma.Queue.{
  link_tail, assign_cookies, append_ld_queue, tx_submit, xfer_pending, xfer_ld_queue, issue_pending,
  dma_do_tasklet, terminate, complete_last,
}

-- Address and link word.
abbrev pub links : List Desc → List (ℕ × ℕ)
links [] = []
links (d ∷ ds) = (d.phys, d.next_ln_addr) ∷ links ds

abbrev pub Chained : ℕ → List (ℕ × ℕ) → Type 0
Chained feature [] = Unit
Chained feature ((p, n) ∷ []) = has n eol ≡ true
Chained feature ((p, n) ∷ (q, m) ∷ ls) =
    (n ≡ bit_or (link_snoop feature) q) × Chained feature ((q, m) ∷ ls)

pub relink : ℕ → ℕ → List (ℕ × ℕ) → List (ℕ × ℕ)
relink feature next [] = []
relink feature next ((p, n) ∷ []) = (p, bit_or (link_snoop feature) next) ∷ []
relink feature next ((p, n) ∷ l ∷ ls) = (p, n) ∷ relink feature next (l ∷ ls)

pub links-link_tail :
    (feature next : ℕ) (ds : List Desc)
    → links (link_tail feature next ds) ≡ relink feature next (links ds)
unfolding link_tail set_desc_next relink
links-link_tail feature next [] = refl
links-link_tail feature next (d ∷ []) = refl
links-link_tail feature next (d ∷ d' ∷ ds) =
    ap (λ t. (d.phys, d.next_ln_addr) ∷ t) (links-link_tail feature next (d' ∷ ds))

pub links-append : (xs ys : List Desc) → links (xs ++ ys) ≡ links xs ++ links ys
links-append [] ys = refl
links-append (d ∷ xs) ys = ap (λ t. (d.phys, d.next_ln_addr) ∷ t) (links-append xs ys)

Chained-relink :
    (feature q m : ℕ) (xs ls : List (ℕ × ℕ))
    → Chained feature xs
    → Chained feature ((q, m) ∷ ls)
    → Chained feature (relink feature q xs ++ (q, m) ∷ ls)
unfolding relink
Chained-relink feature q m [] ls hx hl = hl
Chained-relink feature q m ((p, n) ∷ []) ls hx hl = (refl, hl)
Chained-relink feature q m ((p, n) ∷ (p', n') ∷ []) ls hx hl = (hx.0, (refl, hl))
Chained-relink feature q m ((p, n) ∷ (p', n') ∷ l ∷ xs) ls hx hl =
    (hx.0, Chained-relink feature q m ((p', n') ∷ l ∷ xs) ls hx.1 hl)

-- A chain whose end is open.
abbrev pub Open : ℕ → List (ℕ × ℕ) → Type 0
Open feature [] = Unit
Open feature ((p, n) ∷ []) = Unit
Open feature ((p, n) ∷ (q, m) ∷ ls) =
    (n ≡ bit_or (link_snoop feature) q) × Open feature ((q, m) ∷ ls)

pub Open-relink :
    (feature q m : ℕ) (xs : List (ℕ × ℕ))
    → Open feature xs
    → Open feature (relink feature q xs ++ (q, m) ∷ [])
unfolding relink
Open-relink feature q m [] hx = tt
Open-relink feature q m ((p, n) ∷ []) hx = (refl, tt)
Open-relink feature q m ((p, n) ∷ (p', n') ∷ []) hx = (hx.0, (refl, tt))
Open-relink feature q m ((p, n) ∷ (p', n') ∷ l ∷ xs) hx =
    (hx.0, Open-relink feature q m ((p', n') ∷ l ∷ xs) hx.1)

-- A chain behind a chain, with the last link of the first set.
Chained-link_tail :
    (feature p n : ℕ) (ds new : List Desc) (ls : List (ℕ × ℕ))
    → links new ≡ (p, n) ∷ ls
    → Chained feature (links ds)
    → Chained feature ((p, n) ∷ ls)
    → Chained feature (links (link_tail feature p ds ++ new))
Chained-link_tail feature p n ds new ls same hd hn =
    rw (links-append, links-link_tail feature p ds, same)
      (Chained-relink feature p n (links ds) ls hd hn)

-- What holds of a channel between two steps.
pub record IsQueue {E : Type 0} (c : Chan E) : Type 0 where
  pub rests : c.idle ≡ true → c.ld_running ≡ []
  pub runs_chain : Chained c.feature (links c.ld_running)
  pub pends_chain : Chained c.feature (links c.ld_pending)

module _ {E : Type 0} (k : Platform E) where
  -- A step of a channel: a submission of a chain, a start, a completion, or a termination.
  pub data Step : Chan E → Chan E → Type 0 where
    submits :
        (d : Desc) (ds : List Desc) (c : Chan E)
        → Chained c.feature (links (d ∷ ds))
        → Step c (tx_submit k d ds c).1
    issues : (c : Chan E) → Step c (issue_pending k c)
    completes : (c : Chan E) → Step c (dma_do_tasklet k c)
    terminates : (c : Chan E) → Step c (terminate k c)

  pub data Reach (c : Chan E) : Chan E → Type 0 where
    here : Reach c c
    next : {c1 c2 : Chan E} → Reach c c1 → Step c1 c2 → Reach c c2

  links-assign_cookies :
      (d : Desc) (ds : List Desc) (e : E) → links (assign_cookies k d ds e).0 ≡ links (d ∷ ds)
  unfolding assign_cookies
  links-assign_cookies d [] e = refl
  links-assign_cookies d (d' ∷ ds) e =
      ap (λ t. (d.phys, d.next_ln_addr) ∷ t) (links-assign_cookies d' ds _)

  pub submit-IsQueue :
      (d : Desc) (ds : List Desc) (c : Chan E)
      → Chained c.feature (links (d ∷ ds))
      → IsQueue c
      → IsQueue (tx_submit k d ds c).1
  unfolding tx_submit append_ld_queue
  submit-IsQueue d ds c h q = record {
    rests = q.rests;
    runs_chain = q.runs_chain;
    pends_chain =
        Chained-link_tail c.feature d.phys d.next_ln_addr c.ld_pending _ (links ds)
          (links-assign_cookies d ds c.env) q.pends_chain h;
  }

  xfer-IsQueue : (ds : List Desc) (c : Chan E) → IsQueue c → IsQueue (xfer_pending k ds c)
  unfolding xfer_pending
  xfer-IsQueue [] c q = q
  xfer-IsQueue (d ∷ ds) c q = elim (Bool-cases c.idle) [
    | inl idle ↦
        let runs : Chained c.feature (links (c.ld_running ++ c.ld_pending)) =
          rw (q.rests idle) q.pends_chain in
        rw idle (record { rests = λ h. cc; runs_chain = runs; pends_chain = tt })
    | inr busy ↦
        rw busy (record { rests = λ h. cc; runs_chain = q.runs_chain; pends_chain = q.pends_chain })
  ]

  tasklet-IsQueue : (c : Chan E) → IsQueue c → IsQueue (dma_do_tasklet k c)
  unfolding dma_do_tasklet xfer_ld_queue
  tasklet-IsQueue c q =
      let c1 = record c {
        ld_running = [];
        idle = true;
        env = complete_last k c.ld_running c.env;
      } in
      let q1 : IsQueue c1 = record {
        rests = λ h. refl;
        runs_chain = tt;
        pends_chain = q.pends_chain;
      } in
      let q2 = xfer-IsQueue c.ld_pending c1 q1 in
      record { rests = q2.rests; runs_chain = q2.runs_chain; pends_chain = q2.pends_chain }

  terminate-IsQueue : (c : Chan E) → IsQueue (terminate k c)
  unfolding terminate
  terminate-IsQueue c = record { rests = λ h. refl; runs_chain = tt; pends_chain = tt }

  Step-IsQueue : {c c' : Chan E} → Step c c' → IsQueue c → IsQueue c'
  unfolding issue_pending xfer_ld_queue
  Step-IsQueue (submits d ds c h) q = submit-IsQueue d ds c h q
  Step-IsQueue (issues c) q = xfer-IsQueue c.ld_pending c q
  Step-IsQueue (completes c) q = tasklet-IsQueue c q
  Step-IsQueue (terminates c) q = terminate-IsQueue c

  -- Whatever submissions of chains, starts, completions and terminations a well-formed channel has been through,
  -- it is well-formed: an idle channel runs nothing, and the running and the pending descriptors are each
  -- one chain, in which every link word holds the address of the next descriptor and the last one the end mark.
  pub Reach-IsQueue : {c c' : Chan E} → Reach c c' → IsQueue c → IsQueue c'
  Reach-IsQueue here q = q
  Reach-IsQueue (next r st) q = Step-IsQueue st (Reach-IsQueue r q)
