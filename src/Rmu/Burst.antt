-- ===== src/Rmu/Burst.antt =====
-- Port writes of rapidio/fsl_rmu.c from the interrupt to the RapidIO core.
use mathlib.Core.Path.{subst}
use mathlib.Core.List.{append_assoc, append-nil}
use native.Mathlib.Decide.{dec_lt}
use powerpc_i2c_temp.Prelude.{
  ℕ, zero, suc, ◌+◌, ◌-◌, ◌*◌, ◌^◌, ◌≤◌, ◌<◌, leb, ◌≡◌, refl, sym, ap, ◌∙◌, arith, none, some, List,
  [], ◌∷◌, ◌++◌, length,
}
use powerpc_i2c_temp.Prelude.Word.{u32}
use powerpc_i2c_temp.Rmu.Machine.{inb_pwrite, Log, Machine}
use powerpc_i2c_temp.Rmu.Entries.{length-snoc, if-eq_true, if-eq_false}
use powerpc_i2c_temp.Rmu.PortWrite.{Kfifo, Pw, save_message, pw_dpc}

-- What the kernel documents of a fifo of 2048 bytes, by the messages in it.
pub record FifoLaws {F : Type 0} (f : Kfifo F) : Type 0 where
  pub contents : F → List ℕ
  pub avail_lem : (x : F) → f.avail x ≡ 2048 - length (contents x) * 64
  pub put_lem : (m : ℕ) (x : F) → 64 ≤ f.avail x → contents (f.put_in m x) ≡ contents x ++ m ∷ []
  pub take_none : (x : F) → contents x ≡ [] → f.take_out x ≡ none
  pub take_some :
      (m : ℕ) (ms : List ℕ) (x : F)
      → contents x ≡ m ∷ ms
      → (x' : F) × (f.take_out x ≡ some (m, x')) × (contents x' ≡ ms)

abbrev pub first : ℕ → List ℕ → List ℕ
first zero xs = []
first (suc n) [] = []
first (suc n) (x ∷ xs) = x ∷ first n xs

-- Messages handed to the RapidIO core, the first one first.
abbrev pub passed : List ℕ → Log → Log
passed [] l = l
passed (m ∷ ms) l = passed ms (inb_pwrite m ∷ l)

module _ (k : Machine) {F : Type 0} (f : Kfifo F) (laws : FifoLaws f) where
  -- Messages that arrive one after the other, before the deferred work runs.
  unfoldable pub arrive : List ℕ → Pw F → Pw F
  arrive [] pw = pw
  arrive (m ∷ ms) pw = arrive ms (save_message k f (record pw { message = m }))

  drain :
      (rounds : ℕ) (ms : List ℕ) (pw : Pw F) (l : Log)
      → laws.contents pw.pw_fifo ≡ ms
      → length ms ≤ rounds
      → (pw_dpc k f rounds pw l).1 ≡ passed ms l
  unfolding pw_dpc
  drain zero [] pw l e h = refl
  drain zero (m ∷ ms) pw l e h = absurd (omega arith)
  drain (suc rounds) [] pw l e h = rw (laws.take_none pw.pw_fifo e, pw_dpc)
  drain (suc rounds) (m ∷ ms) pw l e h =
      let (x, t, c) = laws.take_some m ms pw.pw_fifo e in
      rw (t, pw_dpc)
        (drain rounds ms (record pw { pw_fifo = x }) (inb_pwrite m ∷ l) c (omega arith))

  save_room :
      (m : ℕ) (pw : Pw F)
      → length (laws.contents pw.pw_fifo) < 32
      → save_message k f (record pw { message = m }) ≡ record pw {
        message = m;
        msg_count = u32 (pw.msg_count + 1);
        pw_fifo = f.put_in m pw.pw_fifo;
      }
  unfolding save_message
  save_room m pw h =
      if-eq_true (leb 64 (f.avail pw.pw_fifo)) _ _ (ground (arith, laws.avail_lem pw.pw_fifo))

  save_full :
      (m : ℕ) (pw : Pw F)
      → 32 ≤ length (laws.contents pw.pw_fifo)
      → save_message k f (record pw { message = m })
        ≡ record pw { message = m; discard_count = u32 (pw.discard_count + 1) }
  unfolding save_message
  save_full m pw h =
      if-eq_false (leb 64 (f.avail pw.pw_fifo)) _ _ (ground (arith, laws.avail_lem pw.pw_fifo))

  first-nil : (n : ℕ) → first n [] ≡ []
  first-nil zero = refl
  first-nil (suc n) = refl

  -- The fifo and the count after the messages `ms`, when the fifo held `cs` and the count was `d`.
  abbrev Arrived : List ℕ → List ℕ → ℕ → Pw F → Type 0
  Arrived cs ms d pw =
      (laws.contents pw.pw_fifo ≡ cs ++ first (32 - length cs) ms)
      × (pw.discard_count ≡ u32 (d + (length ms - (32 - length cs))))

  arrive_lem :
      (cs ms : List ℕ) (pw : Pw F)
      → laws.contents pw.pw_fifo ≡ cs
      → length cs ≤ 32
      → pw.discard_count < 2 ^ 32
      → Arrived cs ms pw.discard_count (arrive ms pw)
  unfolding arrive
  arrive_lem cs [] pw e h d = (
    e ∙ sym (append-nil cs) ∙ ap (λ (t : List ℕ). cs ++ t) (sym (first-nil (32 - length cs))),
    omega arith,
  )
  arrive_lem cs (m ∷ ms) pw e h d = elim (dec_lt (length cs) 32) [
    | yes room ↦
        let pw1 = record pw {
          message = m;
          msg_count = u32 (pw.msg_count + 1);
          pw_fifo = f.put_in m pw.pw_fifo;
        } in
        let size = ap length e in
        let e1 =
          laws.put_lem m pw.pw_fifo (omega (arith, size, laws.avail_lem pw.pw_fifo))
          ∙ ap (λ (t : List ℕ). t ++ m ∷ []) e in
        let n = length-snoc cs m in
        let ih = arrive_lem (cs ++ m ∷ []) ms pw1 e1 (omega (arith, n)) d in
        let left : 32 - length cs ≡ suc (32 - length (cs ++ m ∷ [])) = omega (arith, n) in
        subst (λ (p : Pw F). Arrived cs (m ∷ ms) pw.discard_count (arrive ms p))
          (sym (save_room m pw (omega (arith, size))))
          (
            ih.0
                ∙ append_assoc cs (m ∷ []) (first (32 - length (cs ++ m ∷ [])) ms)
                ∙ ap (λ (t : ℕ). cs ++ first t (m ∷ ms)) (sym left),
            ih.1 ∙ ap (λ (t : ℕ). u32 (pw.discard_count + t)) (omega (arith, n)),
          )
    | no full ↦
        let pw1 = record pw { message = m; discard_count = u32 (pw.discard_count + 1) } in
        let ih = arrive_lem cs ms pw1 e h (omega arith) in
        let none_left : 32 - length cs ≡ 0 = omega arith in
        subst (λ (p : Pw F). Arrived cs (m ∷ ms) pw.discard_count (arrive ms p))
          (sym (save_full m pw (omega (arith, ap length e))))
          (
            ih.0
                ∙ ap (λ (t : ℕ). cs ++ first t ms) none_left
                ∙ ap (λ (t : ℕ). cs ++ first t (m ∷ ms)) (sym none_left),
            ih.1 ∙ omega arith,
          )
  ]

  length-first : (n : ℕ) (xs : List ℕ) → length (first n xs) ≤ n
  length-first zero xs = omega arith
  length-first (suc n) [] = omega arith
  length-first (suc n) (x ∷ xs) = omega (arith, length-first n xs)

  -- After a burst of port writes into an empty fifo the deferred work, with as many rounds as the fifo has places, hands the
  -- first 32 of them to the RapidIO core, in order, and the others were counted as discarded, in 32 bits.
  pub burst_passed :
      (ms : List ℕ) (pw : Pw F) (l : Log)
      → laws.contents pw.pw_fifo ≡ []
      → pw.discard_count < 2 ^ 32
      → let pw' = arrive ms pw in
        ((pw_dpc k f 32 pw' l).1 ≡ passed (first 32 ms) l)
        × (pw'.discard_count ≡ u32 (pw.discard_count + (length ms - 32)))
  burst_passed ms pw l e d =
      let a = arrive_lem [] ms pw e (omega arith) d in
      (drain 32 (first 32 ms) (arrive ms pw) l a.0 (length-first 32 ms), a.1)
