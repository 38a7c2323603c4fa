-- ===== src/Rio/Unwinding.antt =====
-- What the set-up of the RapidIO controller, rapidio/fsl_rio.c, leaves behind when it fails.
use mathlib.Core.Path.{subst}
use powerpc_i2c_temp.Prelude.{
  ℕ, suc, ◌+◌, ◌-◌, ◌^◌, ◌≤◌, ◌<◌, ltb, ◌==◌, ◌≡◌, ◌⊎◌, inl, inr, refl, sym, ap, ◌∙◌, arith,
  if◌then◌else◌, not, Bool, true, false, none, some, List, [], ◌∷◌,
}
use powerpc_i2c_temp.Prelude.Int.{ℤ, pos}
use powerpc_i2c_temp.Prelude.Word.{u32}
use powerpc_i2c_temp.Rmu.Machine.{read, ccsr, pef_car, Log, Machine}
use powerpc_i2c_temp.Rmu.Entries.{if-eq_true, if-eq_false}
use powerpc_i2c_temp.Rmu.Outbound.{has, enomem}
use powerpc_i2c_temp.Rio.Tables.{InTables, rio_setup-outside}
use powerpc_i2c_temp.Rio.Setup.{
  Thing, port_struct, priv_struct, region, Use, takes, gives, PortNode, SetupAnswers, SetupState,
  refer, table_access, rmu_units, take_thing, give_thing, logged, is_success, pw_unit, dbell_unit,
  rmu_window, regs_window, ops_table, enodev, efault, enolink, err_all, err_pw, err_dbell, err_rmu,
  err_ops, discard, setup_rmu, train, configure_port, start_port, begin_port, setup_port,
  setup_ports, setup_ports_and_units, setup_dbell, setup_windows, rio_setup,
}

-- From the first list of uses to the second, everything that was taken was given back, the last thing first.
pub data Closed : List Use → List Use → Type 0 where
  same : {h : List Use} → Closed h h
  around :
      {h h1 h2 : List Use} (t : Thing)
      → Closed h h1
      → Closed (takes t ∷ h1) h2
      → Closed h (gives t ∷ h2)

Closed-trans : {h1 h2 h3 : List Use} → Closed h1 h2 → Closed h2 h3 → Closed h1 h3
Closed-trans c same = c
Closed-trans c (around t d e) = around t (Closed-trans c d) e

if_holds {ℓ} :
    {S : Type ℓ} (P : S → Type 0) (t : Bool) (x y : S)
    → (t ≡ true → P x)
    → (t ≡ false → P y)
    → P (if t then x else y)
if_holds P true x y hx hy = hx refl
if_holds P false x y hx hy = hy refl

-- The number of ports did not change and what the port used was given back, or the number grew.
data Stepped (s s' : SetupState) : Type 0 where
  kept : s'.active_ports ≡ s.active_ports → Closed s.uses s'.uses → Stepped s s'
  grew : s.active_ports < s'.active_ports → Stepped s s'

module _ (k : Machine) (a : SetupAnswers) where
  setup_rmu_keeps :
      (place : ℕ) (node : Bool) (p : PortNode) (s : SetupState)
      → (setup_rmu k a place node p s).1.active_ports ≡ s.active_ports
  unfolding setup_rmu
  setup_rmu_keeps place node p s = ground arith

  configure_port_grows :
      (place i start : ℕ) (p : PortNode) (s : SetupState)
      → s.active_ports < (configure_port k a place i start p s).active_ports
  unfolding configure_port
  configure_port_grows place i start p s = omega (arith, setup_rmu_keeps place (ltb i a.units) p _)

  -- A port that is given up leaves nothing behind.
  abbrev with_region : ℕ → SetupState → SetupState
  with_region place s =
      take_thing (region place) (take_thing (priv_struct place) (take_thing (port_struct place) s))

  discard_closed :
      (place : ℕ) (s : SetupState) (l : Log)
      → Stepped s (discard k a place (logged (with_region place s) l))
  discard_closed place s l = kept refl (
      around (port_struct place) same
        (around (priv_struct place) same (around (region place) same same)))

  start_port-Stepped :
      (place i start : ℕ) (p : PortNode) (s : SetupState)
      → Stepped s (start_port k a place i start p (with_region place s))
  unfolding start_port
  start_port-Stepped place i start p s =
      let l1 = read (ccsr i) ∷ s.log in
      if_holds (Stepped s) (not (has (k.reg_value s.log (ccsr i)) 1)) _ _
        (λ t. discard_closed place s l1)
        (λ t.
          if_holds (Stepped s) (not (train k a i l1).0) _ _
            (λ t. discard_closed place s (train k a i l1).1)
            (λ t.
              if_holds (Stepped s) (not p.registers) _ _
                (λ t. discard_closed place s (read pef_car ∷ (train k a i l1).1))
                (λ t. grew (
                  configure_port_grows place i start p
                    (logged (with_region place s) (read pef_car ∷ (train k a i l1).1))))))

  begin_port-Stepped :
      (place index start : ℕ) (p : PortNode) (s : SetupState)
      → Stepped s (begin_port k a place index start p s)
  unfolding begin_port
  begin_port-Stepped place index start p s =
      if_holds (Stepped s) (not p.port_memory) _ _ (λ t. kept refl same)
        (λ t.
          if_holds (Stepped s) (not p.priv_memory) _ _
            (λ t. kept refl (around (port_struct place) same same))
            (λ t.
              if_holds (Stepped s) (not p.region_free) _ _
                (λ t.
                  kept refl
                    (around (port_struct place) same (around (priv_struct place) same same)))
                (λ t. start_port-Stepped place (u32 (index + 2 ^ 32 - 1)) start p s)))

  setup_port-Stepped :
      (place : ℕ) (p : PortNode) (s : SetupState) → Stepped s (setup_port k a place p s)
  unfolding setup_port
  setup_port-Stepped place p s =
      elim (p.cell_index)
        as (λ o. Stepped s (elim o [
          | none ↦ s
          | some index ↦ elim p.ranges [
            | none ↦ s
            | some start ↦ begin_port k a place index start p s
          ]
        ])) [
          | none ↦ kept refl same
          | some index ↦
              elim (p.ranges)
                as (λ o.
                  Stepped s
                    (elim o [ none ↦ s | some start ↦ begin_port k a place index start p s ])) [
                      | none ↦ kept refl same
                      | some start ↦ begin_port-Stepped place index start p s
                    ]
        ]

  Stepped-trans : {s1 s2 s3 : SetupState} → Stepped s1 s2 → Stepped s2 s3 → Stepped s1 s3
  Stepped-trans (kept e c) (kept f d) = kept (f ∙ e) (Closed-trans c d)
  Stepped-trans (kept e c) (grew h) = grew (omega arith)
  Stepped-trans (grew h) (kept f d) = grew (omega arith)
  Stepped-trans (grew h) (grew g) = grew (omega arith)

  setup_ports-Stepped :
      (place : ℕ) (ps : List PortNode) (s : SetupState) → Stepped s (setup_ports k a place ps s)
  unfolding setup_ports
  setup_ports-Stepped place [] s = kept refl same
  setup_ports-Stepped place (p ∷ ps) s =
      Stepped-trans (setup_port-Stepped place p s)
        (setup_ports-Stepped (suc place) ps (setup_port k a place p s))

  -- What holds at the end: some port is active and the answer is 0, or all that was used from `h` on was given back.
  data Ended (h : List Use) : ℤ × SetupState → Type 0 where
    running : (s : SetupState) → 0 < s.active_ports → Ended h (pos 0, s)
    undone : (rc : ℤ) (s : SetupState) → s.active_ports ≡ 0 → Closed h s.uses → Ended h (rc, s)

  -- What a label undoes, after things that were closed.
  abbrev Undoes : List Use → SetupState → (SetupState → SetupState) → Type 0
  Undoes h s label = (s' : SetupState) → Closed s.uses s'.uses → Closed h (label s').uses

  ports-Ended :
      (h : List Use) (s s2 : SetupState) (l : Log)
      → s.active_ports ≡ 0
      → Undoes h s (err_pw k a)
      → Stepped (take_thing pw_unit s) s2
      → Ended h (if s2.active_ports == 0 then (enolink, err_all k a s2) else (pos 0, logged s2 l))
  ports-Ended h s s2 l z close (kept e c) =
      if_holds (Ended h) (s2.active_ports == 0) _ _
        (λ t.
          undone enolink (err_all k a s2) (e ∙ z)
            (close (give_thing pw_unit s2) (around pw_unit same c)))
        (λ t. absurd (ground arith))
  ports-Ended h s s2 l z close (grew g) =
      if_holds (Ended h) (s2.active_ports == 0) _ _ (λ t. absurd (ground arith))
        (λ t. running (logged s2 l) (ground arith))

  ports_and_units-Ended :
      (h : List Use) (ps : List PortNode) (s : SetupState)
      → s.active_ports ≡ 0
      → Undoes h s (err_pw k a)
      → Ended h (setup_ports_and_units k a ps s)
  unfolding setup_ports_and_units
  ports_and_units-Ended h ps s z close =
      let s2 = setup_ports k a 0 ps (take_thing pw_unit (refer s)) in
      if_holds (Ended h) (not a.pw_node) _ _ (λ t. undone enodev (err_pw k a s) z (close s same))
        (λ t.
          if_holds (Ended h) (not a.pw_memory) _ _
            (λ t. undone enomem (err_pw k a (refer s)) z (close (refer s) same))
            (λ t.
              if_holds (Ended h) (not a.pw_reg) _ _
                (λ t. undone enomem (err_all k a (take_thing pw_unit (refer s))) z (
                  close (give_thing pw_unit (take_thing pw_unit (refer s)))
                    (around pw_unit same same)))
                (λ t.
                  ports-Ended h (refer s) s2 _ z close
                    (setup_ports-Stepped 0 ps (take_thing pw_unit (refer s))))))

  dbell-Ended :
      (h : List Use) (ps : List PortNode) (s : SetupState)
      → s.active_ports ≡ 0
      → Undoes h s (err_dbell k a)
      → Ended h (setup_dbell k a ps s)
  unfolding setup_dbell
  dbell-Ended h ps s z close =
      let s1 = take_thing dbell_unit (refer s) in
      let close1 : Undoes h s1 (err_pw k a) =
        λ s' c. close (give_thing dbell_unit s') (around dbell_unit same c) in
      if_holds (Ended h) (not a.dbell_node) _ _
        (λ t. undone enodev (err_dbell k a s) z (close s same))
        (λ t.
          if_holds (Ended h) (not a.dbell_memory) _ _
            (λ t. undone enomem (err_dbell k a (refer s)) z (close (refer s) same))
            (λ t.
              if_holds (Ended h) (not a.dbell_reg) _ _
                (λ t. undone enomem (err_pw k a s1) z (close1 s1 same))
                (λ t. ports_and_units-Ended h ps s1 z close1)))

  windows-Ended :
      (h : List Use) (ps : List PortNode) (s : SetupState)
      → s.active_ports ≡ 0
      → Undoes h s (err_rmu k a)
      → Ended h (setup_windows k a ps s)
  unfolding setup_windows
  windows-Ended h ps s z close =
      let s1 = table_access (not (ltb rmu_units a.units)) (take_thing rmu_window (refer s)) in
      let close1 : Undoes h s1 (err_dbell k a) =
        λ s' c. close (give_thing rmu_window s') (around rmu_window same c) in
      if_holds (Ended h) (not a.rmu_node) _ _ (λ t. undone (pos 0) (err_rmu k a s) z (close s same))
        (λ t.
          if_holds (Ended h) (not (is_success a.rmu_error)) _ _
            (λ t. undone a.rmu_error (err_rmu k a (refer s)) z (close (refer s) same))
            (λ t.
              if_holds (Ended h) (not a.rmu_mapped) _ _
                (λ t. undone enomem (err_rmu k a (refer s)) z (close (refer s) same))
                (λ t. dbell-Ended h ps s1 z close1)))

  setup-Ended :
      (ps : List PortNode) (s : SetupState) → s.active_ports ≡ 0 → Ended s.uses (rio_setup k a ps s)
  unfolding rio_setup
  setup-Ended ps s z =
      let h = s.uses in
      let s1 = take_thing regs_window s in
      let close : Undoes h (take_thing ops_table s1) (err_rmu k a) =
        λ s' c. around regs_window same (around ops_table same c) in
      if_holds (Ended h) (not a.of_node) _ _ (λ t. undone enodev s z same)
        (λ t.
          if_holds (Ended h) (not (is_success a.regs_error)) _ _ (λ t. undone efault s z same)
            (λ t.
              if_holds (Ended h) (not a.regs_mapped) _ _ (λ t. undone enomem s z same)
                (λ t.
                  if_holds (Ended h) (not a.ops_memory) _ _
                    (λ t. undone enomem (err_ops k a s1) z (around regs_window same same))
                    (λ t. windows-Ended h ps (take_thing ops_table s1) z close))))

  -- With at most two message units in the device tree and ports whose index, where they have one, is 1 or 2, the set-up of the controller stays
  -- within its tables and ends in one of two ways, whatever else the device tree, the kernel and the ports answer: some port is
  -- active and the answer is 0, or no port is active and every mapped window, memory and region that was taken was given back,
  -- the last one first. References to nodes of the device tree are not among these things.
  pub rio_setup-Closed :
      (ps : List PortNode) (s : SetupState)
      → s.active_ports ≡ 0
      → a.units ≤ 2
      → InTables ps
      → let (rc, s') = rio_setup k a ps s in
        (s'.outside ≡ s.outside)
        × (((0 < s'.active_ports) × (rc ≡ pos 0)) ⊎ ((s'.active_ports ≡ 0) × Closed s.uses s'.uses))
  rio_setup-Closed ps s z few within =
      (rio_setup-outside k a ps s few within, outcome (setup-Ended ps s z))
    where
      outcome :
          {r : ℤ × SetupState}
          → Ended s.uses r
          → ((0 < r.1.active_ports) × (r.0 ≡ pos 0))
            ⊎ ((r.1.active_ports ≡ 0) × Closed s.uses r.1.uses)
      outcome (running s' g) = inl (g, refl)
      outcome (undone rc s' e c) = inr (e, c)

  -- When the device tree names no message unit, the set-up gives everything back and still answers 0.
  pub rio_setup_without_unit :
      (ps : List PortNode) (s : SetupState)
      → a.of_node ≡ true
      → a.regs_error ≡ pos 0
      → a.regs_mapped ≡ true
      → a.ops_memory ≡ true
      → a.rmu_node ≡ false
      → let (rc, s') = rio_setup k a ps s in
        (rc ≡ pos 0) × (s'.active_ports ≡ s.active_ports) × Closed s.uses s'.uses
  unfolding rio_setup setup_windows
  rio_setup_without_unit ps s n e m o u =
      let opened = take_thing ops_table (take_thing regs_window s) in
      subst
        (λ (r : ℤ × SetupState).
          (r.0 ≡ pos 0) × (r.1.active_ports ≡ s.active_ports) × Closed s.uses r.1.uses)
        (sym (
          if-eq_false (not a.of_node) _ _ (ap not n)
          ∙ if-eq_false (not (is_success a.regs_error)) _ _ (ap (λ (x : ℤ). not (is_success x)) e)
          ∙ if-eq_false (not a.regs_mapped) _ _ (ap not m)
          ∙ if-eq_false (not a.ops_memory) _ _ (ap not o)
          ∙ if-eq_true (not a.rmu_node) (pos 0, err_rmu k a opened) _ (ap not u)))
        (refl, refl, around regs_window same (around ops_table same same))
