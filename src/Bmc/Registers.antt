-- ===== src/Bmc/Registers.antt =====
-- `fpgaRegRead` and `fpgaRegWrite`, through the `ioctl` of the FPGA driver.
use powerpc_i2c_temp.Prelude.{ℕ, ◌+◌, ◌*◌, ◌-◌, ◌^◌, ◌==◌, if◌then◌else◌, Option, none, some}
use powerpc_i2c_temp.Prelude.Int.{ℤ, pos, negsuc, ltb_ℤ}
use powerpc_i2c_temp.Prelude.Word.{u16, u32}
use powerpc_i2c_temp.Fpga.{UserMem, Fpga, fpga_info_ioctl, get_user}

-- What the process finds: the address of its local variable, and the value of a call that ended without
-- a `return`.
pub record Process : Type 0 where
  pub local_addr : ℕ
  pub unreturned : Fpga → ℤ

-- The registers, by address.
abbrev pub fpga_position_reg : ℕ
fpga_position_reg = 0x10

abbrev pub fpga_temp0_reg : ℕ
fpga_temp0_reg = 0x7C

abbrev pub fpga_volt0_reg : ℕ
fpga_volt0_reg = 0xA0

abbrev pub fpga_total_disk_info_reg : ℕ
fpga_total_disk_info_reg = 0xD0

abbrev pub fpga_available_disk_info_reg : ℕ
fpga_available_disk_info_reg = 0xD4

abbrev pub fpga_sys_run_status_reg : ℕ
fpga_sys_run_status_reg = 0xD8

abbrev pub fpga_reg_read_cmd : ℕ
fpga_reg_read_cmd = 0

abbrev pub fpga_reg_write_cmd : ℕ
fpga_reg_write_cmd = 1

-- `*(int *)&stcmd` with `ucReseved` 0, on a big-endian machine.
abbrev pub cmd_word : ℕ → ℕ → ℕ
cmd_word addr uc_cmd = u16 addr * 2 ^ 16 + uc_cmd

-- The memory that holds the local variable.
abbrev pub local_mem : Process → ℕ → UserMem
local_mem p v q = if p.local_addr == q then some v else none

-- What `fpgaRegRead` and `fpgaRegWrite` make of the result of the call.
abbrev pub reg_read_result : ℤ × ℕ × Fpga → ℤ × ℕ × Fpga
reg_read_result (ret, value, s) =
    if ltb_ℤ ret (pos 0) then (negsuc 0, 2 ^ 32 - 1, s) else (pos 0, value, s)

abbrev pub reg_write_result : ℤ × ℕ × Fpga → ℤ × Fpga
reg_write_result (ret, _, s) = (if ltb_ℤ ret (pos 0) then negsuc 0 else pos 0, s)

module _ (p : Process) where
  -- The result of the system call, the variable and the driver after it.
  abbrev pub returned : Option ℤ × Fpga × UserMem → ℤ × ℕ × Fpga
  returned (ret, s, u) =
      (elim ret [ none ↦ p.unreturned s | some r ↦ r ], get_user u p.local_addr, s)

  -- `ioctl(gfd_fpga, cmd, &uiRegValue)`
  unfoldable pub ioctl : ℕ → ℕ → Fpga → ℤ × ℕ × Fpga
  ioctl cmd reg_value s = returned (fpga_info_ioctl cmd p.local_addr s (local_mem p reg_value))

  -- `uninit` is what `uiRegValue` holds before; the second part is stored through `Value`.
  unfoldable pub fpga_reg_read : ℕ → ℕ → Fpga → ℤ × ℕ × Fpga
  fpga_reg_read addr uninit s = reg_read_result (ioctl (cmd_word addr fpga_reg_read_cmd) uninit s)

  -- An address above 0x100 is reported and written all the same.
  unfoldable pub fpga_reg_write : ℕ → ℕ → Fpga → ℤ × Fpga
  fpga_reg_write addr value s =
      reg_write_result (ioctl (cmd_word addr fpga_reg_write_cmd) (u32 value) s)
