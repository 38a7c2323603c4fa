-- ===== src/Fpga/Defs.antt =====
-- `fpga_init`, `fpga_info_ioctl`, `fpga_info_read` and `fpga_info_write`, over the module's globals and the
-- words of the calling process. A call that ends without a `return` gives `none` for its value.
use powerpc_i2c_temp.Prelude.{
  ℕ, zero, suc, ◌-◌, ◌/◌, ◌==◌, if◌then◌else◌, Bool, true, false, Option, none, some, List, [], ◌∷◌,
  ◌++◌,
}
use powerpc_i2c_temp.Prelude.Int.{ℤ, pos, negsuc}
use powerpc_i2c_temp.Prelude.Word.{u8, u16, ◌>>>◌}

-- Words by address: `none` where the process has no memory.
abbrev pub UserMem : Type 0
UserMem = ℕ → Option ℕ

-- `__get_user` gives 0 where it faults, and `__put_user` then stores nothing.
abbrev pub get_user : UserMem → ℕ → ℕ
get_user u p = elim (u p) [ none ↦ 0 | some v ↦ v ]

abbrev pub put_user : UserMem → ℕ → ℕ → UserMem
put_user u p v q = if p == q then elim (u p) [ none ↦ none | some _ ↦ some v ] else u q

-- A bank of 32-bit registers, by word offset.
abbrev pub Bank : Type 0
Bank = ℕ → ℕ

abbrev pub store : Bank → ℕ → ℕ → Bank
store bank offset v i = if offset == i then v else bank i

-- The globals: `guipFpga` is null where the mapping failed.
pub record Fpga : Type 0 where
  pub guip_fpga : Option Bank
  pub global_var : List ℕ

-- `FPGA_CONTROL_CMD`
pub record ControlCmd : Type 0 where
  pub us_reg_addr : ℕ
  pub uc_reserved : ℕ
  pub uc_cmd : ℕ

abbrev pub fpga_write : ℕ
fpga_write = 1

abbrev pub fpga_read : ℕ
fpga_read = 0

-- `(FPGA_CONTROL_CMD*)&cmd` on a big-endian machine.
abbrev pub control_cmd : ℕ → ControlCmd
control_cmd cmd = record {
  us_reg_addr = u16 (cmd >>> 16);
  uc_reserved = u8 (cmd >>> 8);
  uc_cmd = u8 cmd;
}

-- `register_chrdev` and `ioremap`; the returned `ret` has no initialiser.
unfoldable pub fpga_init : Option Bank → ℤ → Fpga → ℤ × Fpga
fpga_init mapping uninit s = (uninit, record s { guip_fpga = mapping })

-- Whether `iounmap` is called; the pointer is kept.
pub fpga_exit : Fpga → Bool × Fpga
fpga_exit s = (elim s.guip_fpga [ none ↦ false | some _ ↦ true ], s)

-- The `switch` on a mapped bank.
pub access : ℕ → ℕ → ℕ → Bank → UserMem → Bank × UserMem
access uc_cmd offset arg bank u =
    if uc_cmd == fpga_write
    then (store bank offset (get_user u arg), u)
    else (if uc_cmd == fpga_read then (bank, put_user u arg (bank offset)) else (bank, u))

-- `fpga_info_ioctl`, without the sleep of ten milliseconds at its head.
unfoldable pub fpga_info_ioctl : ℕ → ℕ → Fpga → UserMem → Option ℤ × Fpga × UserMem
unfolding access
fpga_info_ioctl cmd arg s u =
    let c = control_cmd cmd in
    let offset = c.us_reg_addr / 4 in
    if arg == 0 then (some (negsuc 0), s, u) else elim s.guip_fpga [
      | none ↦ (some (negsuc 0), s, u)
      | some bank ↦
          let (bank', u') = access c.uc_cmd offset arg bank u in
          (none, record s { guip_fpga = some bank' }, u')
    ]

abbrev pub global_var_size : ℕ
global_var_size = 20

-- `global_var` as the module is loaded.
abbrev pub initial_var : List ℕ
initial_var = 1 ∷ 2 ∷ 3 ∷ 4 ∷ 5 ∷ 0 ∷ 0 ∷ 0 ∷ 0 ∷ 0 ∷ 0 ∷ 0 ∷ 0 ∷ 0 ∷ 0 ∷ 0 ∷ 0 ∷ 0 ∷ 0 ∷ 0 ∷ []

-- `buf` is null for `none`; `uncopied` is the answer of `copy_to_user`. The second part is what the
-- buffer holds after a complete copy.
unfoldable pub fpga_info_read : Option (List ℕ) → ℕ → Fpga → ℤ × Option (List ℕ)
fpga_info_read none uncopied s = (negsuc 0, none)
fpga_info_read (some buf) uncopied s =
    if uncopied == 0 then (pos global_var_size, some s.global_var) else (negsuc 13, none)

-- `copy_from_user` pads what it could not copy with zeros.
unfoldable pub copied : ℕ → List ℕ → List ℕ
copied zero bytes = []
copied (suc n) [] = 0 ∷ copied n []
copied (suc n) (b ∷ bytes) = b ∷ copied n bytes

unfoldable pub zeros : ℕ → List ℕ
zeros zero = []
zeros (suc n) = 0 ∷ zeros n

unfoldable pub fpga_info_write : Option (List ℕ) → ℕ → Fpga → ℤ × Fpga
unfolding copied zeros
fpga_info_write none uncopied s = (negsuc 0, s)
fpga_info_write (some buf) uncopied s =
    let bytes = copied (global_var_size - uncopied) buf ++ zeros uncopied in
    (if uncopied == 0 then pos global_var_size else negsuc 13, record s { global_var = bytes })
