-- ===== src/Rio/Tables.antt =====
-- The tables of the set-up of the RapidIO controller, `rmu_np` of rapidio/fsl_rio.c and `mport` of the doorbell unit: the
-- accesses to them stay within their bounds.
use powerpc_i2c_temp.Prelude.{
  ℕ, suc, ◌+◌, ◌-◌, ◌^◌, ◌≤◌, ◌<◌, ltb, ◌≡◌, inl, inr, refl, ◌∙◌, arith, Bool, true, false, some,
  Option-cases, List, [], ◌∷◌,
}
use powerpc_i2c_temp.Prelude.Word.{u32}
use powerpc_i2c_temp.Rmu.Machine.{Machine}
use powerpc_i2c_temp.Rio.Setup.{
  PortNode, SetupAnswers, SetupState, take_thing, refer, pw_unit, dbell_unit, rmu_window, ops_table,
  regs_window, table_access, rmu_units, max_ports, setup_rmu, configure_port, start_port,
  begin_port, setup_port, setup_ports, setup_ports_and_units, setup_dbell, setup_windows, rio_setup,
}

-- Every port with an index has 1 or 2.
abbrev pub InTables : List PortNode → Type 0
InTables [] = Unit
InTables (p ∷ ps) =
    ((index : ℕ) → p.cell_index ≡ some index → (1 ≤ index) × (index ≤ 2)) × InTables ps

module _ (k : Machine) (a : SetupAnswers) where
  setup_rmu-outside :
      (place : ℕ) (node : Bool) (p : PortNode) (s : SetupState)
      → (setup_rmu k a place node p s).1.outside ≡ s.outside
  unfolding setup_rmu
  setup_rmu-outside place node p s = ground arith

  configure_port-outside :
      (place i start : ℕ) (p : PortNode) (s : SetupState)
      → i < 2
      → (configure_port k a place i start p s).outside ≡ s.outside
  unfolding configure_port
  configure_port-outside place i start p s h =
      let one : ltb i rmu_units ≡ true = ground arith in
      let other : ltb i max_ports ≡ true = ground arith in
      rw (one, other) (setup_rmu-outside place (ltb i a.units) p _)

  start_port-outside :
      (place i start : ℕ) (p : PortNode) (s : SetupState)
      → i < 2
      → (start_port k a place i start p s).outside ≡ s.outside
  unfolding start_port
  start_port-outside place i start p s h =
      ground (arith, configure_port-outside place i start p _ h)

  begin_port-outside :
      (place index start : ℕ) (p : PortNode) (s : SetupState)
      → 1 ≤ index
      → index ≤ 2
      → (begin_port k a place index start p s).outside ≡ s.outside
  unfolding begin_port
  begin_port-outside place index start p s low high =
      ground (arith, start_port-outside place (u32 (index + 2 ^ 32 - 1)) start p _ (omega arith))

  setup_port-outside :
      (place : ℕ) (p : PortNode) (s : SetupState)
      → ((index : ℕ) → p.cell_index ≡ some index → (1 ≤ index) × (index ≤ 2))
      → (setup_port k a place p s).outside ≡ s.outside
  unfolding setup_port
  setup_port-outside place p s h = elim (Option-cases p.cell_index) [
    | inl e ↦ rw e
    | inr (index, e) ↦ elim (Option-cases p.ranges) [
      | inl f ↦ rw (e, f)
      | inr (start, f) ↦
          let (low, high) = h index e in
          rw (e, f) (begin_port-outside place index start p s low high)
    ]
  ]

  setup_ports-outside :
      (place : ℕ) (ps : List PortNode) (s : SetupState)
      → InTables ps
      → (setup_ports k a place ps s).outside ≡ s.outside
  unfolding setup_ports
  setup_ports-outside place [] s h = refl
  setup_ports-outside place (p ∷ ps) s (one, rest) =
      setup_ports-outside (suc place) ps (setup_port k a place p s) rest
      ∙ setup_port-outside place p s one

  ports_and_units-outside :
      (ps : List PortNode) (s : SetupState)
      → InTables ps
      → (setup_ports_and_units k a ps s).1.outside ≡ s.outside
  unfolding setup_ports_and_units
  ports_and_units-outside ps s h =
      ground (arith, setup_ports-outside 0 ps (take_thing pw_unit (refer s)) h)

  dbell-outside :
      (ps : List PortNode) (s : SetupState)
      → InTables ps
      → (setup_dbell k a ps s).1.outside ≡ s.outside
  unfolding setup_dbell
  dbell-outside ps s h =
      ground (arith, ports_and_units-outside ps (take_thing dbell_unit (refer s)) h)

  windows-outside :
      (ps : List PortNode) (s : SetupState)
      → a.units ≤ 2
      → InTables ps
      → (setup_windows k a ps s).1.outside ≡ s.outside
  unfolding setup_windows
  windows-outside ps s few h =
      let fits : ltb rmu_units a.units ≡ false = ground arith in
      rw fits
        (ground (arith, dbell-outside ps (table_access true (take_thing rmu_window (refer s))) h))

  pub rio_setup-outside :
      (ps : List PortNode) (s : SetupState)
      → a.units ≤ 2
      → InTables ps
      → (rio_setup k a ps s).1.outside ≡ s.outside
  unfolding rio_setup
  rio_setup-outside ps s few h =
      ground (arith, windows-outside ps (take_thing ops_table (take_thing regs_window s)) few h)
