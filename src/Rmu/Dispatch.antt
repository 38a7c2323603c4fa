-- ===== src/Rmu/Dispatch.antt =====
-- To whom a doorbell of rapidio/fsl_rmu.c goes.
use powerpc_i2c_temp.Prelude.{
  ℕ, suc, ◌≡◌, ◌≢◌, ◌⊎◌, refl, arith, if◌then◌else◌, Bool-cases, false, inl, inr, Option,
  Option-cases, none, some, List, [], ◌∷◌, ◌++◌,
}
use powerpc_i2c_temp.Rmu.Machine.{dinb, Log}
use powerpc_i2c_temp.Rmu.Doorbell.{DbellMsg, Dbell, covers, find_dbell, dispatch}

-- All doorbells in order, each with the number of its port.
abbrev pub tagged : ℕ → List Dbell → List (ℕ × Dbell)
tagged i [] = []
tagged i (d ∷ ds) = (i, d) ∷ tagged i ds

abbrev pub registered : ℕ → List (Option (List Dbell)) → List (ℕ × Dbell)
registered i [] = []
registered i (none ∷ ports) = registered (suc i) ports
registered i (some ds ∷ ports) = tagged i ds ++ registered (suc i) ports

-- The call of the first one whose range has the value.
abbrev pub first_call : DbellMsg → List (ℕ × Dbell) → Log → Log
first_call msg [] l = l
first_call msg ((i, d) ∷ ds) l =
    if covers msg.info d
    then elim d.handler [ none ↦ l | some h ↦ dinb i h msg.sid msg.tid msg.info ∷ l ]
    else first_call msg ds l

-- Every doorbell has an event function.
abbrev HaveHandlers : List Dbell → Type 0
HaveHandlers [] = Unit
HaveHandlers (d ∷ ds) = (d.handler ≢ none) × HaveHandlers ds

abbrev pub AllHaveHandlers : List (Option (List Dbell)) → Type 0
AllHaveHandlers [] = Unit
AllHaveHandlers (none ∷ ports) = AllHaveHandlers ports
AllHaveHandlers (some ds ∷ ports) = HaveHandlers ds × AllHaveHandlers ports

-- Looking in one port: nothing fits, or the first that fits is called.
first_call-port :
    (msg : DbellMsg) (i : ℕ) (ds : List Dbell) (rest : List (ℕ × Dbell)) (l : Log)
    → HaveHandlers ds
    → ((find_dbell msg.info ds ≡ none)
        × (first_call msg (tagged i ds ++ rest) l ≡ first_call msg rest l))
      ⊎ ((d : Dbell) × (h : ℕ) × (find_dbell msg.info ds ≡ some d)
          × (d.handler ≡ some h)
          × (first_call msg (tagged i ds ++ rest) l ≡ dinb i h msg.sid msg.tid msg.info ∷ l))
unfolding find_dbell
first_call-port msg i [] rest l a = inl (refl, refl)
first_call-port msg i (d ∷ ds) rest l a = elim (Bool-cases (covers msg.info d)) [
  | inl t ↦ elim (Option-cases d.handler) [
    | inl e ↦ absurd (a.0 e)
    | inr (h, e) ↦ inr (d, h, ground (arith, t), e, ground (arith, t, e))
  ]
  | inr f ↦ elim (first_call-port msg i ds rest l a.1) [
    | inl (x, y) ↦ inl (ground (arith, f, x), ground (arith, f, y))
    | inr (d', h, x, e, y) ↦ inr (d', h, ground (arith, f, x), e, ground (arith, f, y))
  ]
]

dispatch_from :
    (msg : DbellMsg) (i : ℕ) (ports : List (Option (List Dbell))) (l : Log)
    → AllHaveHandlers ports
    → dispatch msg i false ports l ≡ some (first_call msg (registered i ports) l)
unfolding dispatch
dispatch_from msg i [] l a = refl
dispatch_from msg i (none ∷ ports) l a = dispatch_from msg (suc i) ports l a
dispatch_from msg i (some ds ∷ ports) l a =
    let ih = dispatch_from msg (suc i) ports l a.1 in
    elim (first_call-port msg i ds (registered (suc i) ports) l a.0) [
      | inl (x, y) ↦ ground (arith, x, y, ih)
      | inr (d, h, x, e, y) ↦ ground (arith, x, e, y)
    ]

-- When every doorbell has an event function, the value of a doorbell goes to the first one whose range has it, port by port
-- in order, exactly once, and to none when no range has it; no memory is read that is no doorbell.
pub dispatch_first :
    (msg : DbellMsg) (ports : List (Option (List Dbell))) (l : Log)
    → AllHaveHandlers ports
    → dispatch msg 0 false ports l ≡ some (first_call msg (registered 0 ports) l)
dispatch_first msg ports l a = dispatch_from msg 0 ports l a
