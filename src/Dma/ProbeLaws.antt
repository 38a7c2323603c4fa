-- ===== src/Dma/ProbeLaws.antt =====
-- What the probe of a DMA controller in dma/fsldma.c leaves behind.
use powerpc_i2c_temp.Prelude.{
  ℕ, ◌<◌, leb, ◌≡◌, ◌≢◌, refl, ap, sym, ◌∙◌, arith, Bool, true, false, if◌then◌else◌, Option, none,
  some, List, [], ◌∷◌, ◌++◌,
}
use mathlib.Core.List.{append_assoc, append-nil}
use powerpc_i2c_temp.Prelude.Int.{ℤ, pos}
use powerpc_i2c_temp.Dma.Kernel.{Platform}
use powerpc_i2c_temp.Dma.Irq.{Irqs, request_irqs}
use powerpc_i2c_temp.Dma.Probe.{
  new_device, of_probe, Device, ProbeAnswers, Node, chan_id, max_chans, is_zero, chan_probe,
  probe_node, probe_nodes,
}

-- A node of the newer kind whose channel the kernel can set up.
pub record IsGood (node : Node) : Type 0 where
  pub newer : node.eloplus ≡ true
  pub not_older : node.elo ≡ false
  pub memory : node.answers.memory ≡ true
  pub regs : node.answers.regs ≡ true
  pub found : node.answers.err ≡ pos 0
  pub room : chan_id node.answers.res_start < max_chans

abbrev pub AreGood : List Node → Type 0
AreGood [] = Unit
AreGood (node ∷ nodes) = IsGood node × AreGood nodes

abbrev pub numbers : List Node → List ℕ
numbers [] = []
numbers (node ∷ nodes) = node.number ∷ numbers nodes

-- The number of the last node, or what was there before.
abbrev pub last_number : Option ℕ → List Node → Option ℕ
last_number before [] = before
last_number before (node ∷ nodes) = last_number (some node.number) nodes

module _ {E : Type 0} (k : ℕ → Platform E) where
  -- The channel is put at the end of the list, and is the one of the RapidIO transfers.
  abbrev Adds : ℕ → Device → Device → Type 0
  Adds n d d' = (d'.channels ≡ d.channels ++ n ∷ []) × (d'.griodma_chan ≡ some n)

  chan_probe-Adds :
      (n feature : ℕ) (ans : ProbeAnswers) (d : Device) (e : E)
      → ans.memory ≡ true
      → ans.regs ≡ true
      → ans.err ≡ pos 0
      → chan_id ans.res_start < max_chans
      → Adds n d (chan_probe k n feature ans d e).1
  unfolding chan_probe
  chan_probe-Adds n feature ans d e memory regs found room =
      let fits : leb max_chans (chan_id ans.res_start) ≡ false = ground arith in
      (rw (memory, regs, found, fits), rw (memory, regs, found, fits))

  probe_node-Adds :
      (node : Node) (d : Device) (e : E)
      → IsGood node
      → Adds node.number d (probe_node k node d e).0
  unfolding probe_node
  probe_node-Adds node d e g =
      let (added, chosen) =
        chan_probe-Adds node.number 0x11 node.answers d e g.memory g.regs g.found g.room in
      (rw (g.newer, g.not_older) added, rw (g.newer, g.not_older) chosen)

  -- When the kernel can set up the channel of every node, the list of channels grows by all nodes in their order, and
  -- the channel of the RapidIO transfers is the last one.
  probe_nodes-channels :
      (nodes : List Node) (d : Device) (e : E)
      → AreGood nodes
      → ((probe_nodes k nodes d e).0.channels ≡ d.channels ++ numbers nodes)
        × ((probe_nodes k nodes d e).0.griodma_chan ≡ last_number d.griodma_chan nodes)
  unfolding probe_nodes
  probe_nodes-channels [] d e g = (sym (append-nil d.channels), refl)
  probe_nodes-channels (node ∷ nodes) d e g =
      let (d', e') = probe_node k node d e in
      let (added, chosen) = probe_node-Adds node d e g.0 in
      let (all, last) = probe_nodes-channels nodes d' e' g.1 in
      (
        all
            ∙ ap (λ t. t ++ numbers nodes) added
            ∙ append_assoc d.channels (node.number ∷ []) (numbers nodes),
        last ∙ ap (λ t. last_number t nodes) chosen,
      )

abbrev pub Away : ℕ → List Node → Type 0
Away n [] = Unit
Away n (node ∷ nodes) = (n ≢ node.number) × Away n nodes

last_number-ne :
    (n m : ℕ) (nodes : List Node) → n ≢ m → Away n nodes → last_number (some m) nodes ≢ some n
last_number-ne n m [] h away e = h (ground (arith, e))
last_number-ne n m (node ∷ nodes) h away e = last_number-ne n node.number nodes away.0 away.1 e

-- A registered controller is the one that the loop over the nodes has set up.
registered :
    {E : Type 0} (k : ℕ → Platform E) (s : Irqs E) (irq : Option ℕ) (nodes : List Node)
    (g : Option ℕ) (e e' : E) (d : Device)
    → of_probe k s true true irq nodes g e ≡ (pos 0, some d, e')
    → (probe_nodes k nodes (new_device g) e).0 ≡ d
unfolding of_probe
registered k s irq nodes g e e' d h =
    let probed = probe_nodes k nodes (new_device g) e in
    let asked = request_irqs s irq probed.0.chan probed.1 in
    outcome (is_zero asked.0) probed.0 d asked.0 asked.1 e' h
  where
    outcome :
        {E : Type 0} (zero? : Bool) (x d : Device) (err : ℤ) (e2 e' : E)
        → ◌≡◌ {A = ℤ × Option Device × E}
            (if zero? then (pos 0, some x, e2) else (err, none, e2))
            (pos 0, some d, e')
        → x ≡ d
    outcome true x d err e2 e' h = cc
    outcome false x d err e2 e' h = cc

-- A controller of at least two channels, each of which the kernel can set up and none with the number of the first,
-- is registered with the channels in the order of the nodes, so that the RapidIO transfers take their
-- queue from the first one; but the channel whose registers they program is another one.
pub transfers_on_two_channels :
    {E : Type 0} (k : ℕ → Platform E) (s : Irqs E) (irq : Option ℕ) (a b : Node) (nodes : List Node)
    (g : Option ℕ) (e e' : E) (d : Device)
    → AreGood (a ∷ b ∷ nodes)
    → Away a.number (b ∷ nodes)
    → of_probe k s true true irq (a ∷ b ∷ nodes) g e ≡ (pos 0, some d, e')
    → (d.channels ≡ a.number ∷ numbers (b ∷ nodes)) × (d.griodma_chan ≢ some a.number)
transfers_on_two_channels k s irq a b nodes g e e' d good away h =
    let set_up = registered k s irq (a ∷ b ∷ nodes) g e e' d h in
    let (all, last) = probe_nodes-channels k (a ∷ b ∷ nodes) (new_device g) e good in
    (
      ap (λ t. t.channels) (sym set_up) ∙ all,
      λ same.
          last_number-ne a.number b.number nodes away.0 away.1
            (sym last ∙ ap (λ t. t.griodma_chan) set_up ∙ same),
    )
