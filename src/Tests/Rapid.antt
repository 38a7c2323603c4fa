-- ===== src/Tests/Rapid.antt =====
-- Runs of the RapidIO controller: its address windows and its set-up.
use powerpc_i2c_temp.Prelude.{
  ℕ, ◌+◌, ◌-◌, ◌*◌, ◌/◌, ◌%◌, ◌^◌, ◌<◌, ◌≡◌, ◌⊎◌, refl, arith, Bool, true, false, none, some, [],
  ◌∷◌,
}
use powerpc_i2c_temp.Prelude.Int.{pos}
use powerpc_i2c_temp.Rmu.Machine.{atmu, write, Log}
use powerpc_i2c_temp.Rio.Windows.{win_read, win_write, config_read, config_write}
use powerpc_i2c_temp.Rio.Addressing.{config_access-roundtrip}
use powerpc_i2c_temp.Rio.Setup.{PortNode, SetupAnswers, SetupState, rio_setup}
use powerpc_i2c_temp.Rio.Unwinding.{Closed, rio_setup-Closed}
use powerpc_i2c_temp.Tests.Messages.{bench, bits}

abbrev ilog2 : ℕ → ℕ
ilog2 n = bits 32 n - 1

config_access-roundtrip_example :
    (target high at : ℕ) × (config_read bench 1 0x1234 255 0x654 (2 ^ 2) []
      ≡ (some (win_read (2 ^ 2) at), write (atmu 1 0x24) high ∷ write (atmu 1 0x20) target ∷ []))
    × (config_write bench 1 0x1234 255 0x654 (2 ^ 2) 77 [] ≡ (
      some (win_write (2 ^ 2) at (77 % 2 ^ (8 * 2 ^ 2))),
      write (atmu 1 0x24) high ∷ write (atmu 1 0x20) target ∷ [],
    ))
    × (at < 0x400000)
    × (target / 2 ^ 22 + high * 2 ^ 10 ≡ 0x1234)
    × (target / 2 ^ 12 % 2 ^ 10 ≡ 255)
    × (target % 2 ^ 12 * 2 ^ 12 + at % 2 ^ 12 ≡ 0x654)
config_access-roundtrip_example =
    config_access-roundtrip bench 1 0x1234 255 0x654 2 77 [] (omega arith) (omega arith)
      (omega arith) refl (omega arith)

abbrev opened : Log
opened = write (atmu 1 0x28) 0xc0000 ∷ []

abbrev answers_with : Bool → SetupAnswers
answers_with unit = record {
  of_node = true;
  regs_error = pos 0;
  regs_mapped = true;
  ops_memory = true;
  rmu_node = unit;
  rmu_error = pos 0;
  rmu_mapped = true;
  units = 2;
  dbell_node = true;
  dbell_memory = true;
  dbell_reg = true;
  pw_node = true;
  pw_memory = true;
  pw_reg = true;
  general = λ host. 0x60000000;
  ilog2 = ilog2;
  bellirq = 50;
  pwirq = 51;
}

-- A port whose region is taken by another device.
abbrev taken_region : PortNode
taken_region = record {
  cell_index = some 1;
  ranges = some 0xc0000000;
  port_memory = true;
  priv_memory = true;
  region_free = false;
  registers = true;
  is_host = true;
  rmu_memory = true;
  rmu_reg = true;
}

abbrev off : SetupState
off = record {
  uses = [];
  log = [];
  mports = [];
  active_ports = 0;
  mem_mport = none;
  node_refs = 0;
  outside = false;
}

rio_setup-Closed_example :
    let (rc, s') = rio_setup bench (answers_with true) (taken_region ∷ []) off in
    (s'.outside ≡ false)
    × (((0 < s'.active_ports) × (rc ≡ pos 0)) ⊎ ((s'.active_ports ≡ 0) × Closed [] s'.uses))
rio_setup-Closed_example =
    rio_setup-Closed bench (answers_with true) (taken_region ∷ []) off refl (omega arith)
      ((λ index e. ground arith), tt)
