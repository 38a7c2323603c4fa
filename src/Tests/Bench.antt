-- ===== src/Tests/Bench.antt =====
-- Concrete kernels, chips and processes, on which the tests run the code.
use powerpc_i2c_temp.Prelude.{
  ℕ, suc, ◌%◌, ◌^◌, refl, arith, none, some, false, [], ◌∷◌, ◌==◌, if◌then◌else◌, get_or,
}
use powerpc_i2c_temp.Prelude.Int.{pos, negsuc}
use powerpc_i2c_temp.I2c.{Adapter, World, CharDevices}
use powerpc_i2c_temp.Ltc2991.Chip.{IsRegisterFile}
use powerpc_i2c_temp.Fpga.{Fpga}
use powerpc_i2c_temp.Bmc.{Process, Sockets}

-- A bus that counts its transfers and always reads 0x81, 0x90: a valid code of 400.
abbrev pub steady : Adapter ℕ
steady = record {
  i2c_transfer = λ msgs n. (pos 2, [] ∷ (0x81 ∷ 0x90 ∷ []) ∷ [], suc n);
  msleep = λ ms n. n;
  uninit = λ n. 0xffff;
}

-- The bus on which the third transfer is the first with a valid code.
abbrev pub late : Adapter ℕ
late = record {
  i2c_transfer = λ msgs n. (pos 2, [] ∷ ((if n == 2 then 0x81 else 0x01) ∷ 0x90 ∷ []) ∷ [], suc n);
  msleep = λ ms n. n;
  uninit = λ n. 0xffff;
}

-- A bus without a chip.
abbrev pub dead : Adapter ℕ
dead = record {
  i2c_transfer = λ msgs n. elim msgs [
    | [] ↦ (negsuc 5, [], n)
    | m ∷ [] ↦ (negsuc 5, m.buf ∷ [], n)
    | m ∷ r ∷ _ ↦ (negsuc 5, m.buf ∷ r.buf ∷ [], n)
  ];
  msleep = λ ms n. n;
  uninit = λ n. 0xffff;
}

-- A driver in whose bus state is `e`, with a client at address 0x40.
abbrev pub probed : {E : Type 0} → E → World E
probed e = record {
  new_client = some 0x40;
  lct2991_major = 250;
  devno = 0;
  region = none;
  cdev_live = false;
  bus = e;
}

abbrev pub idle : World ℕ
idle = record {
  new_client = none;
  lct2991_major = 0;
  devno = 0;
  region = none;
  cdev_live = false;
  bus = 0;
}

-- A kernel that grants a number but not the device.
abbrev pub half_granting : CharDevices
half_granting = record {
  register_chrdev_region = λ d n. pos 0;
  alloc_chrdev_region = λ d n. (pos 0, 0x0fa00000);
  cdev_add = λ d n. negsuc 11;
}

-- Chips as arrays of registers.
abbrev pub Registers : Type 0
Registers = ℕ → ℕ → ℕ

abbrev pub put : Registers → ℕ → ℕ → ℕ → Registers
put e a c v b d = if b == a then (if d == c then v else e b d) else e b d

abbrev pub reg : Registers → ℕ → ℕ → ℕ
reg e a c = e a c % 2 ^ 8

abbrev pub chips : Adapter Registers
chips = record {
  i2c_transfer = λ msgs e. elim msgs [
    | [] ↦ (pos 0, [], e)
    | m ∷ [] ↦ (pos 1, m.buf ∷ [], put e m.addr (get_or m.buf 0 0) (get_or m.buf 1 0))
    | m ∷ r ∷ _ ↦ (pos 2, m.buf ∷ (reg e m.addr (get_or m.buf 0 0) ∷ []) ∷ [], e)
  ];
  msleep = λ ms e. e;
  uninit = λ e. 0xff;
}

pub chips-IsRegisterFile : IsRegisterFile chips reg
chips-IsRegisterFile = record {
  write_ok = λ a c v e control small. (refl, ground arith, λ b d ne. ground arith);
  enable_ok = λ a v e small. (refl, ground arith, λ b d ne. ground arith);
  read_ok = λ a c old e control. (refl, refl, λ b d. refl);
  byte = λ a c e. omega arith;
}

-- A process whose local variable stands at 0x7000, and to which a call without a value gives 0.
abbrev pub process : Process
process = record { local_addr = 0x7000; unreturned = λ s. pos 0 }

-- A mapped bank in which every register holds `v`.
abbrev pub mapped : ℕ → Fpga
mapped v = record { guip_fpga = some (λ o. v); global_var = 1 ∷ 2 ∷ [] }

-- A socket layer that refuses the route.
abbrev pub no_route : Sockets ℕ
no_route = record {
  socket = λ n. (pos 3, n);
  inet_addr = λ text. 0xc0a80105;
  ioctl = λ r n. (if n == 2 then negsuc 100 else pos 0, suc n);
}
