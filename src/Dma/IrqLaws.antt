-- ===== src/Dma/IrqLaws.antt =====
-- The interrupt lines of dma/fsldma.c: who is served by the handler of the controller, and which lines are asked
-- for and given back.
use mathlib.Core.List.{append_assoc, append-nil}
use powerpc_i2c_temp.Prelude.{
  ℕ, zero, suc, ◌≡◌, ◌≢◌, refl, ap, sym, ◌∙◌, ◌⊎◌, inl, inr, none, List, [], ◌∷◌, ◌++◌,
}
use powerpc_i2c_temp.Prelude.Int.{ℤ, pos, negsuc}
use powerpc_i2c_temp.Dma.Irq.{
  Irqs, Entry, absent, no_irq, line, free_line, free_lines, after_request, request_loop,
  request_irqs,
}

-- The kernel with a record of the lines that were granted and that were freed, in order.
pub record Lines (E : Type 0) : Type 0 where
  pub inner : E
  pub granted : List ℕ
  pub freed : List ℕ

abbrev pub if_granted : ℤ → ℕ → List ℕ
if_granted (pos zero) irq = irq ∷ []
if_granted (pos (suc n)) irq = []
if_granted (negsuc n) irq = []

unfoldable pub counted : {E : Type 0} → Irqs E → Irqs (Lines E)
counted s = record {
  request_irq = λ irq e.
      let (ret, e') = s.request_irq irq e.inner in
      (ret, record e { inner = e'; granted = e.granted ++ if_granted ret irq });
  free_irq = λ irq e. record e { inner = s.free_irq irq e.inner; freed = e.freed ++ irq ∷ [] };
}

abbrev pub lines_of : List Entry → List ℕ
lines_of [] = []
lines_of (absent ∷ cs) = lines_of cs
lines_of (no_irq ∷ cs) = lines_of cs
lines_of (line irq ∷ cs) = irq ∷ lines_of cs

-- The entries of a table, the last one first, before others.
abbrev pub backwards : List Entry → List Entry → List Entry
backwards [] cs = cs
backwards (c ∷ before) cs = backwards before (c ∷ cs)

lines_of-append : (xs ys : List Entry) → lines_of (xs ++ ys) ≡ lines_of xs ++ lines_of ys
lines_of-append [] ys = refl
lines_of-append (absent ∷ xs) ys = lines_of-append xs ys
lines_of-append (no_irq ∷ xs) ys = lines_of-append xs ys
lines_of-append (line irq ∷ xs) ys = ap (λ t. irq ∷ t) (lines_of-append xs ys)

module _ {E : Type 0} (s : Irqs E) where
  free_lines-freed :
      (cs : List Entry) (e : Lines E)
      → ((free_lines (counted s) cs e).freed ≡ e.freed ++ lines_of cs)
        × ((free_lines (counted s) cs e).granted ≡ e.granted)
  unfolding free_lines free_line counted
  free_lines-freed [] e = (sym (append-nil e.freed), refl)
  free_lines-freed (absent ∷ cs) e = free_lines-freed cs e
  free_lines-freed (no_irq ∷ cs) e = free_lines-freed cs e
  free_lines-freed (line irq ∷ cs) e =
      let (f, g) = free_lines-freed cs (free_line (counted s) (line irq) e) in
      (f ∙ append_assoc e.freed (irq ∷ []) (lines_of cs), g)

  -- All lines of the table are granted and none is freed; or the request fails at an entry, and what is freed is the
  -- line of that entry, if it has one, and the lines before it, from the last to the first.
  abbrev pub Requested : List Entry → List Entry → Lines E → ℤ × Lines E → Type 0
  Requested visited cs e r =
      ((r.0 ≡ pos 0) × (r.1.granted ≡ e.granted ++ lines_of cs) × (r.1.freed ≡ e.freed))
      ⊎ ((r.0 ≢ pos 0)
          × ((before : List Entry) × (at : Entry) × (after : List Entry) × (cs
                ≡ before ++ at ∷ after)
              × (r.1.granted ≡ e.granted ++ lines_of before)
              × (r.1.freed ≡ e.freed ++ lines_of (at ∷ backwards before visited))))

  -- One more entry before the table, with what was granted for it.
  Requested-cons :
      (c : Entry) (visited cs : List Entry) (granted : List ℕ) (e : Lines E) (r : ℤ × Lines E)
      → granted ≡ e.granted ++ lines_of (c ∷ [])
      → Requested (c ∷ visited) cs (record e { granted = granted }) r
      → Requested visited (c ∷ cs) e r
  Requested-cons c visited cs granted e r same (inl (z, g, f)) = inl (
    z,
    g
        ∙ ap (λ t. t ++ lines_of cs) same
        ∙ append_assoc e.granted (lines_of (c ∷ [])) (lines_of cs)
        ∙ ap (λ t. e.granted ++ t) (sym (lines_of-append (c ∷ []) cs)),
    f,
  )
  Requested-cons c visited cs granted e r same (inr (z, (before, at, after, split, g, f))) = inr (
    z,
    (
      c ∷ before,
      at,
      after,
      ap (λ t. c ∷ t) split,
      g
          ∙ ap (λ t. t ++ lines_of before) same
          ∙ append_assoc e.granted (lines_of (c ∷ [])) (lines_of before)
          ∙ ap (λ t. e.granted ++ t) (sym (lines_of-append (c ∷ []) before)),
      f,
    ),
  )

  -- After the request for one line, by its answer.
  after_request-Requested :
      (irq : ℕ) (visited cs : List Entry) (e : Lines E) (inner' : E) (answer : ℤ)
      → ((e' : Lines E)
          → Requested
              (line irq ∷ visited)
              cs
              e'
              (request_loop (counted s) (line irq ∷ visited) cs e'))
      → Requested visited (line irq ∷ cs) e (
          after_request
            (counted s)
            (request_loop (counted s) (line irq ∷ visited) cs)
            (line irq ∷ visited)
            answer
            (record e { inner = inner'; granted = e.granted ++ if_granted answer irq }))
  after_request-Requested irq visited cs e inner' (pos zero) rest =
      let e' = record e { inner = inner'; granted = e.granted ++ irq ∷ [] } in
      Requested-cons (line irq) visited cs e'.granted e
        (request_loop (counted s) (line irq ∷ visited) cs e') refl (rest e')
  after_request-Requested irq visited cs e inner' (pos (suc n)) rest =
      let (f, g) =
        free_lines-freed (line irq ∷ visited)
          (record e { inner = inner'; granted = e.granted ++ [] }) in
      inr (λ h. cc, ([], line irq, cs, refl, g, f))
  after_request-Requested irq visited cs e inner' (negsuc n) rest =
      let (f, g) =
        free_lines-freed (line irq ∷ visited)
          (record e { inner = inner'; granted = e.granted ++ [] }) in
      inr (λ h. cc, ([], line irq, cs, refl, g, f))

  request_loop-Requested :
      (visited cs : List Entry) (e : Lines E)
      → Requested visited cs e (request_loop (counted s) visited cs e)
  unfolding request_loop counted
  request_loop-Requested visited [] e = inl (refl, sym (append-nil e.granted), refl)
  request_loop-Requested visited (absent ∷ cs) e =
      Requested-cons absent visited cs e.granted e
        (request_loop (counted s) (absent ∷ visited) cs e) (sym (append-nil e.granted))
        (request_loop-Requested (absent ∷ visited) cs e)
  request_loop-Requested visited (no_irq ∷ cs) e =
      let (f, g) = free_lines-freed (no_irq ∷ visited) e in
      inr (λ h. cc, ([], no_irq, cs, refl, g ∙ sym (append-nil e.granted), f))
  request_loop-Requested visited (line irq ∷ cs) e =
      after_request-Requested irq visited cs e ((counted s).request_irq irq e).1.inner
        (s.request_irq irq e.inner).0 (request_loop-Requested (line irq ∷ visited) cs)

  -- Without a line of the controller, the lines of the channels are requested in their order. Either all are granted
  -- and none is freed, and the answer is 0. Or the answer is an error, the lines of the entries before some
  -- entry were granted, and what is freed is the line of that entry, if it has one, and then those granted
  -- before, from the last to the first: also a line that was refused is freed.
  pub request_irqs-Requested :
      (chans : List Entry) (e : Lines E)
      → Requested [] chans e (request_irqs (counted s) none chans e)
  unfolding request_irqs
  request_irqs-Requested chans e = request_loop-Requested [] chans e
