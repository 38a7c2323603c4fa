-- ===== src/Dma/Fifo.antt =====
-- First in, first out: a history of submissions, starts and completions of a channel of dma/fsldma.c keeps
-- the descriptors in the order in which they came, and gives each back to the pool once.
use mathlib.Core.List.{append_assoc, append-nil}
use powerpc_i2c_temp.Prelude.{
  ℕ, ◌≡◌, refl, ap, sym, ◌∙◌, arith, true, none, some, List, [], ◌∷◌, ◌++◌,
}
use powerpc_i2c_temp.Prelude.Int.{pos}
use powerpc_i2c_temp.Dma.Kernel.{Desc, Platform, Chan}
use powerpc_i2c_temp.Dma.Hardware.{set_desc_next, dma_halt}
use powerpc_i2c_temp.Dma.Queue.{
  link_tail, assign_cookies, append_ld_queue, tx_submit, xfer_pending, xfer_ld_queue, issue_pending,
  dma_do_tasklet, complete_last, terminate, device_control, terminate_all, einval,
}
use powerpc_i2c_temp.Dma.Watched.{
  Watched, watched, phys_of, took, start_chain-pool, complete_last-pool, cleanup_all-pool,
  free_desc_list-pool, dma_halt-pool, took-append, assign_cookies-pool,
}

-- What a client, the driver's own start, and the end of a transfer do to a channel.
pub data Event : Type 0 where
  submit : Desc → List Desc → Event
  issue : Event
  tasklet : Event

module _ {E : Type 0} (k : Platform E) where
  unfoldable pub step : Event → Chan E → Chan E
  step (submit d ds) c = (tx_submit k d ds c).1
  step issue c = issue_pending k c
  step tasklet c = dma_do_tasklet k c

  unfoldable pub run : List Event → Chan E → Chan E
  run [] c = c
  run (ev ∷ evs) c = run evs (step ev c)

unfoldable pub submitted_by : Event → List ℕ
submitted_by (submit d ds) = phys_of (d ∷ ds)
submitted_by issue = []
submitted_by tasklet = []

unfoldable pub submitted : List Event → List ℕ
submitted [] = []
submitted (ev ∷ evs) = submitted_by ev ++ submitted evs

pub phys_of-append : (xs ys : List Desc) → phys_of (xs ++ ys) ≡ phys_of xs ++ phys_of ys
phys_of-append [] ys = refl
phys_of-append (d ∷ xs) ys = ap (λ t. d.phys ∷ t) (phys_of-append xs ys)

pub phys_of-link_tail :
    (feature next : ℕ) (ds : List Desc) → phys_of (link_tail feature next ds) ≡ phys_of ds
unfolding link_tail set_desc_next
phys_of-link_tail feature next [] = refl
phys_of-link_tail feature next (d ∷ []) = refl
phys_of-link_tail feature next (d ∷ d' ∷ ds) =
    ap (λ t. d.phys ∷ t) (phys_of-link_tail feature next (d' ∷ ds))

-- What came in: given back, running and pending.
abbrev pub account : {E : Type 0} → Chan (Watched E) → List ℕ
account c = c.env.pool.freed ++ (phys_of c.ld_running ++ phys_of c.ld_pending)

module _ {E : Type 0} (k : Platform E) where
  pub phys_of-assign_cookies :
      (d : Desc) (ds : List Desc) (e : E) → phys_of (assign_cookies k d ds e).0 ≡ phys_of (d ∷ ds)
  unfolding assign_cookies
  phys_of-assign_cookies d [] e = refl
  phys_of-assign_cookies d (d' ∷ ds) e = ap (λ t. d.phys ∷ t) (phys_of-assign_cookies d' ds _)

module _ {E : Type 0} (k : Platform E) where
  xfer-pool :
      (ds : List Desc) (c : Chan (Watched E))
      → (xfer_pending (watched k) ds c).env.pool ≡ c.env.pool
  unfolding xfer_pending
  xfer-pool [] c = refl
  xfer-pool (d ∷ ds) c = ground (arith, start_chain-pool k c.feature d.phys c.env)

  -- The start moves the pending descriptors behind the running ones.
  xfer-queues :
      (ds : List Desc) (c : Chan (Watched E))
      → let c' = xfer_pending (watched k) ds c in
        phys_of c'.ld_running ++ phys_of c'.ld_pending
        ≡ phys_of c.ld_running ++ phys_of c.ld_pending
  unfolding xfer_pending
  xfer-queues [] c = refl
  xfer-queues (d ∷ ds) c = ground (
    arith,
    append-nil (phys_of (c.ld_running ++ c.ld_pending)),
    phys_of-append c.ld_running c.ld_pending,
  )

  xfer-account : (c : Chan (Watched E)) → account (xfer_ld_queue (watched k) c) ≡ account c
  unfolding xfer_ld_queue
  xfer-account c = cc (xfer-pool c.ld_pending c, xfer-queues c.ld_pending c)

  submit-account :
      (d : Desc) (ds : List Desc) (c : Chan (Watched E))
      → account (tx_submit (watched k) d ds c).1 ≡ account c ++ phys_of (d ∷ ds)
  unfolding tx_submit append_ld_queue
  submit-account d ds c = simp (
    assign_cookies-pool,
    phys_of-append,
    phys_of-link_tail,
    append_assoc,
    phys_of-assign_cookies (watched k) d ds c.env,
  )

  tasklet-account : (c : Chan (Watched E)) → account (dma_do_tasklet (watched k) c) ≡ account c
  unfolding dma_do_tasklet xfer_ld_queue
  tasklet-account c =
      let c' = record c {
        ld_running = [];
        idle = true;
        env = complete_last (watched k) c.ld_running c.env;
      } in
      rw
        (
          cleanup_all-pool k c.feature c.ld_running (xfer_pending (watched k) c.ld_pending c').env,
          xfer-queues c.ld_pending c',
          xfer-pool c.ld_pending c',
          complete_last-pool k c.ld_running c.env,
        )
        (append_assoc c.env.pool.freed (phys_of c.ld_running) (phys_of c.ld_pending))

  step-account :
      (ev : Event) (c : Chan (Watched E))
      → account (step (watched k) ev c) ≡ account c ++ submitted_by ev
  unfolding step submitted_by issue_pending
  step-account (submit d ds) c = submit-account d ds c
  step-account issue c = xfer-account c ∙ sym (append-nil (account c))
  step-account tasklet c = tasklet-account c ∙ sym (append-nil (account c))

  -- Over every history of submissions, starts and completions, the descriptors given back, the running and the
  -- pending ones, in this order, are those of before followed by the submitted ones in their order.
  pub run-account :
      (evs : List Event) (c : Chan (Watched E))
      → account (run (watched k) evs c) ≡ account c ++ submitted evs
  unfolding run submitted
  run-account [] c = sym (append-nil (account c))
  run-account (ev ∷ evs) c =
      run-account evs (step (watched k) ev c)
      ∙ ap (λ t. t ++ submitted evs) (step-account ev c)
      ∙ append_assoc (account c) (submitted_by ev) (submitted evs)

  pending-xfer :
      (ds : List Desc) (c : Chan (Watched E))
      → c.idle ≡ true
      → ds ≡ c.ld_pending
      → (xfer_pending (watched k) ds c).ld_pending ≡ []
  unfolding xfer_pending
  pending-xfer [] c rests same = sym same
  pending-xfer (d ∷ ds) c rests same = rw rests

  running-xfer :
      (ds : List Desc) (c : Chan (Watched E))
      → ds ≡ []
      → c.ld_running ≡ []
      → (xfer_pending (watched k) ds c).ld_running ≡ []
  unfolding xfer_pending
  running-xfer [] c none_pending stopped = stopped
  running-xfer (d ∷ ds) c none_pending stopped = cc

  pending-tasklet : (c : Chan (Watched E)) → (dma_do_tasklet (watched k) c).ld_pending ≡ []
  unfolding dma_do_tasklet xfer_ld_queue
  pending-tasklet c = pending-xfer c.ld_pending _ refl refl

  running-tasklet :
      (c : Chan (Watched E)) → c.ld_pending ≡ [] → (dma_do_tasklet (watched k) c).ld_running ≡ []
  unfolding dma_do_tasklet xfer_ld_queue
  running-tasklet c h = running-xfer c.ld_pending _ h refl

  -- Two completions after any history leave both queues empty, and every descriptor has been given back: those of
  -- before, then the submitted ones in their order.
  pub run_drains :
      (evs : List Event) (c : Chan (Watched E))
      → let c' = dma_do_tasklet (watched k) (dma_do_tasklet (watched k) (run (watched k) evs c)) in
        (c'.ld_running ≡ [])
        × (c'.ld_pending ≡ [])
        × (c'.env.pool.freed ≡ account c ++ submitted evs)
  run_drains evs c =
      let c1 = run (watched k) evs c in
      let c2 = dma_do_tasklet (watched k) c1 in
      let c3 = dma_do_tasklet (watched k) c2 in
      let running = running-tasklet c2 (pending-tasklet c1) in
      let pending = pending-tasklet c2 in
      let all : account c3 ≡ account c ++ submitted evs =
        tasklet-account c2 ∙ tasklet-account c1 ∙ run-account evs c in
      let nothing : account c3 ≡ c3.env.pool.freed =
        rw (running, pending) (append-nil c3.env.pool.freed) in
      (running, pending, sym nothing ∙ all)

  terminated :
      (c : Chan (Watched E))
      → (terminate (watched k) c).env.pool
        ≡ took (phys_of c.ld_pending ++ phys_of c.ld_running) c.env.pool
  unfolding terminate
  terminated c =
      let e = (dma_halt (watched k) c.feature c.env).1 in
      free_desc_list-pool k c.ld_running _
      ∙ ap (took (phys_of c.ld_running)) (free_desc_list-pool k c.ld_pending e)
      ∙ took-append (phys_of c.ld_pending) (phys_of c.ld_running) e.pool
      ∙ ap (took (phys_of c.ld_pending ++ phys_of c.ld_running)) (dma_halt-pool k c.feature c.env)

  -- The command to terminate all answers 0 and leaves the channel idle with both queues empty; the pending
  -- descriptors and then the running ones have been given back, each once. A null channel is refused.
  pub device_control_terminates :
      (c : Chan (Watched E))
      → (device_control (watched k) terminate_all none ≡ some (einval, none))
        × ((c' : Chan (Watched E)) × (device_control (watched k) terminate_all (some c)
              ≡ some (pos 0, some c'))
            × (c'.idle ≡ true)
            × (c'.ld_pending ≡ [])
            × (c'.ld_running ≡ [])
            × (c'.env.pool ≡ took (phys_of c.ld_pending ++ phys_of c.ld_running) c.env.pool))
  unfolding device_control terminate
  device_control_terminates c =
      (refl, (terminate (watched k) c, refl, refl, refl, refl, terminated c))
