-- ===== src/Rio/Setup.antt =====
-- The set-up of the RapidIO controller, `fsl_rio_setup` of rapidio/fsl_rio.c and `fsl_rio_setup_rmu` of rapidio/fsl_rmu.c, at its
-- first call. What is taken from the kernel and given back is a list, the last use first.
use powerpc_i2c_temp.Prelude.{
  ℕ, zero, suc, ◌+◌, ◌-◌, ◌^◌, ltb, ◌==◌, bit_or, if◌then◌else◌, not, Bool, true, false, Option,
  none, some, List, [], ◌∷◌,
}
use powerpc_i2c_temp.Prelude.Int.{ℤ, pos, negsuc}
use powerpc_i2c_temp.Prelude.Word.{u32, ◌>>>◌}
use powerpc_i2c_temp.Rmu.Machine.{
  gccsr, pef_car, ccsr, escsr, aacr, atmu, Log, Machine, in_be32, out_be32, setbits32,
}
use powerpc_i2c_temp.Rmu.Outbound.{einval, enomem, has}
use powerpc_i2c_temp.Rmu.Doorbell.{doorbell_init}
use powerpc_i2c_temp.Rmu.PortWrite.{port_write_init}
use powerpc_i2c_temp.Rio.Windows.{rowbar, rowar, maint_win_size}

-- Mapped windows, memory and regions; those of a port have the place of its node in the device tree.
pub data Thing : Type 0 where
  regs_window ops_table rmu_window dbell_unit pw_unit : Thing
  port_struct priv_struct region maint_window rmu_unit : (place : ℕ) → Thing

pub data Use : Type 0 where
  takes gives : Thing → Use

-- What the kernel and the device tree answer for the node of a port.
pub record PortNode : Type 0 where
  pub cell_index : Option ℕ
  pub ranges : Option ℕ
  pub port_memory : Bool
  pub priv_memory : Bool
  pub region_free : Bool
  pub registers : Bool
  pub is_host : Bool
  pub rmu_memory : Bool
  pub rmu_reg : Bool

-- And for the controller. `regs_error` and `rmu_error` are the answers of `of_address_to_resource`, `units` is the number
-- of message units in the tree, `general` the words for the general control register.
pub record SetupAnswers : Type 0 where
  pub of_node : Bool
  pub regs_error : ℤ
  pub regs_mapped : Bool
  pub ops_memory : Bool
  pub rmu_node : Bool
  pub rmu_error : ℤ
  pub rmu_mapped : Bool
  pub units : ℕ
  pub dbell_node : Bool
  pub dbell_memory : Bool
  pub dbell_reg : Bool
  pub pw_node : Bool
  pub pw_memory : Bool
  pub pw_reg : Bool
  pub general : Bool → ℕ
  pub ilog2 : ℕ → ℕ
  pub bellirq : ℕ
  pub pwirq : ℕ

-- What was used, the references to device tree nodes that were taken, the ports of the doorbell unit by their index,
-- how many there are, `mem_mport`, and whether a table was accessed outside its bounds.
pub record SetupState : Type 0 where
  pub uses : List Use
  pub node_refs : ℕ
  pub log : Log
  pub mports : List (ℕ × ℕ)
  pub active_ports : ℕ
  pub mem_mport : Option ℕ
  pub outside : Bool

abbrev pub enodev : ℤ
enodev = negsuc 18

abbrev pub efault : ℤ
efault = negsuc 13

abbrev pub enolink : ℤ
enolink = negsuc 66

abbrev pub take_thing : Thing → SetupState → SetupState
take_thing t s = record s { uses = takes t ∷ s.uses }

abbrev pub give_thing : Thing → SetupState → SetupState
give_thing t s = record s { uses = gives t ∷ s.uses }

-- A node that `of_parse_phandle` or `of_find_compatible_node` found.
abbrev pub refer : SetupState → SetupState
refer s = record s { node_refs = s.node_refs + 1 }

-- An access to a table, with whether it is within the bounds.
abbrev pub table_access : Bool → SetupState → SetupState
table_access inside s = record s { outside = if inside then s.outside else true }

-- The entries of `rmu_np`.
abbrev pub rmu_units : ℕ
rmu_units = 2

-- The entries of `mport` of the doorbell unit.
abbrev pub max_ports : ℕ
max_ports = 4

abbrev pub logged : SetupState → Log → SetupState
logged s l = record s { log = l }

abbrev pub is_success : ℤ → Bool
is_success (pos zero) = true
is_success (pos (suc n)) = false
is_success (negsuc n) = false

module _ (k : Machine) (a : SetupAnswers) where
  unfoldable pub setup_rmu : ℕ → Bool → PortNode → SetupState → ℤ × SetupState
  setup_rmu place node p s =
      if not node
      then (einval, s)
      else (if not p.rmu_memory
          then (enomem, s)
          else (let s' = take_thing (rmu_unit place) s in
              if not p.rmu_reg then (enomem, give_thing (rmu_unit place) s') else (pos 0, s')))

  -- A port that is not ready is started once more; the answer tells whether it is ready.
  unfoldable pub train : ℕ → Log → Bool × Log
  train i l =
      let (value, l1) = in_be32 k (escsr i) l in
      if has value 1
      then (let l2 = setbits32 k (ccsr i) 0x02000000 (out_be32 k (ccsr i) 0 l1) in
          let (value', l3) = in_be32 k (escsr i) (setbits32 k (ccsr i) 0x00600000 l2) in
          (not (has value' 1), l3))
      else (true, l1)

  -- A port that was registered is configured and counted.
  unfoldable pub configure_port : (place i start : ℕ) → PortNode → SetupState → SetupState
  unfolding setup_rmu
  configure_port place i start p s =
      let number = if i == 0 then 1 else 2 in
      let l1 = out_be32 k (aacr i) 1 (out_be32 k gccsr (a.general p.is_host) s.log) in
      let l2 = out_be32 k (atmu number (rowbar 0)) (start >>> 12) l1 in
      let l3 =
        out_be32 k (atmu number (rowar 0))
          (bit_or 0x80077000 (u32 (a.ilog2 maint_win_size + 2 ^ 32 - 1))) l2 in
      let s1 = take_thing (maint_window place) (record s { log = l3; mem_mport = some place }) in
      let s2 = (setup_rmu place (ltb i a.units) p (table_access (ltb i rmu_units) s1)).1 in
      let s3 = table_access (ltb i max_ports) s2 in
      record s3 { mports = (i, place) ∷ s3.mports; active_ports = s3.active_ports + 1 }

  abbrev pub discard : ℕ → SetupState → SetupState
  discard place s =
      give_thing (port_struct place) (give_thing (priv_struct place) (give_thing (region place) s))

  -- From the region of a port on.
  unfoldable pub start_port : (place i start : ℕ) → PortNode → SetupState → SetupState
  unfolding train configure_port
  start_port place i start p s =
      let (value, l1) = in_be32 k (ccsr i) s.log in
      if not (has value 1)
      then discard place (logged s l1)
      else (let (ready, l2) = train i l1 in
          if not ready
          then discard place (logged s l2)
          else (let l3 = (in_be32 k pef_car l2).1 in
              if not p.registers
              then discard place (logged s l3)
              else configure_port place i start p (logged s l3)))

  -- A port from its memory on.
  unfoldable pub begin_port : (place index start : ℕ) → PortNode → SetupState → SetupState
  unfolding start_port
  begin_port place index start p s =
      if not p.port_memory
      then s
      else (let s1 = take_thing (port_struct place) s in
          if not p.priv_memory
          then give_thing (port_struct place) s1
          else (let s2 = take_thing (priv_struct place) s1 in
              if not p.region_free
              then give_thing (port_struct place) (give_thing (priv_struct place) s2)
              else start_port place (u32 (index + 2 ^ 32 - 1)) start p
                  (take_thing (region place) s2)))

  -- The body of the loop over the ports.
  unfoldable pub setup_port : ℕ → PortNode → SetupState → SetupState
  unfolding begin_port
  setup_port place p s = elim p.cell_index [
    | none ↦ s
    | some index ↦ elim p.ranges [ none ↦ s | some start ↦ begin_port place index start p s ]
  ]

  unfoldable pub setup_ports : ℕ → List PortNode → SetupState → SetupState
  setup_ports place [] s = s
  setup_ports place (p ∷ ps) s = setup_ports (suc place) ps (setup_port place p s)

  -- The labels at the end, from `err` on.
  abbrev pub err_ops : SetupState → SetupState
  err_ops s = give_thing regs_window s

  abbrev pub err_rmu : SetupState → SetupState
  err_rmu s = err_ops (give_thing ops_table s)

  abbrev pub err_dbell : SetupState → SetupState
  err_dbell s = err_rmu (give_thing rmu_window s)

  abbrev pub err_pw : SetupState → SetupState
  err_pw s = err_dbell (give_thing dbell_unit s)

  abbrev pub err_all : SetupState → SetupState
  err_all s = err_pw (give_thing pw_unit s)

  -- From the port-write node on.
  unfoldable pub setup_ports_and_units : List PortNode → SetupState → ℤ × SetupState
  unfolding setup_port
  setup_ports_and_units ps s =
      if not a.pw_node
      then (enodev, err_pw s)
      else (if not a.pw_memory
          then (enomem, err_pw (refer s))
          else (let s1 = take_thing pw_unit (refer s) in
              if not a.pw_reg
              then (enomem, err_all s1)
              else (let s2 = setup_ports 0 ps s1 in
                  if s2.active_ports == 0
                  then (enolink, err_all s2)
                  else (let l1 = (doorbell_init k a.bellirq s2.log).2 in
                      (pos 0, logged s2 (port_write_init k a.pwirq l1).1)))))

  -- From the doorbell node on.
  unfoldable pub setup_dbell : List PortNode → SetupState → ℤ × SetupState
  unfolding setup_ports_and_units
  setup_dbell ps s =
      if not a.dbell_node
      then (enodev, err_dbell s)
      else (if not a.dbell_memory
          then (enomem, err_dbell (refer s))
          else (let s1 = take_thing dbell_unit (refer s) in
              if not a.dbell_reg then (enomem, err_pw s1) else setup_ports_and_units ps s1))

  -- From the message unit's node on, with the message units in the tree, each of which is put into `rmu_np`; `rc` is still that of the first resource, 0.
  unfoldable pub setup_windows : List PortNode → SetupState → ℤ × SetupState
  unfolding setup_dbell
  setup_windows ps s =
      if not a.rmu_node
      then (pos 0, err_rmu s)
      else (if not (is_success a.rmu_error)
          then (a.rmu_error, err_rmu (refer s))
          else (if not a.rmu_mapped
              then (enomem, err_rmu (refer s))
              else setup_dbell ps
                  (table_access (not (ltb rmu_units a.units)) (take_thing rmu_window (refer s)))))

  unfoldable pub rio_setup : List PortNode → SetupState → ℤ × SetupState
  unfolding setup_windows
  rio_setup ps s =
      if not a.of_node
      then (enodev, s)
      else (if not (is_success a.regs_error)
          then (efault, s)
          else (if not a.regs_mapped
              then (enomem, s)
              else (let s1 = take_thing regs_window s in
                  if not a.ops_memory
                  then (enomem, err_ops s1)
                  else setup_windows ps (take_thing ops_table s1))))
