-- ===== src/Fpga/Access.antt =====
-- What `fpga_info_ioctl` does, on every branch.
use powerpc_i2c_temp.Prelude.{ℕ, ◌/◌, ◌≡◌, ◌≢◌, ◌⊎◌, arith, none, some}
use powerpc_i2c_temp.Prelude.Int.{negsuc}
use powerpc_i2c_temp.Fpga.Defs.{
  UserMem, get_user, put_user, Bank, store, Fpga, control_cmd, fpga_read, fpga_write,
  fpga_info_ioctl,
}

module _ (cmd arg : ℕ) (s : Fpga) (u : UserMem) where
  -- A null argument or a missing mapping is refused with -1 and changes nothing.
  pub ioctl_refused :
      (arg ≡ 0) ⊎ (s.guip_fpga ≡ none) → fpga_info_ioctl cmd arg s u ≡ (some (negsuc 0), s, u)
  unfolding fpga_info_ioctl
  ioctl_refused h = ground arith

  module _ (bank : Bank) (given : arg ≢ 0) (mapped : s.guip_fpga ≡ some bank) where
    -- The word that a command selects.
    abbrev offset : ℕ
    offset = (control_cmd cmd).us_reg_addr / 4

    pub ioctl_write :
        (control_cmd cmd).uc_cmd ≡ fpga_write
        → fpga_info_ioctl cmd arg s u
          ≡ (none, record s { guip_fpga = some (store bank offset (get_user u arg)) }, u)
    unfolding fpga_info_ioctl
    ioctl_write h = ground arith

    pub ioctl_read :
        (control_cmd cmd).uc_cmd ≡ fpga_read
        → fpga_info_ioctl cmd arg s u ≡ (none, s, put_user u arg (bank offset))
    unfolding fpga_info_ioctl
    ioctl_read h = ground arith

    pub ioctl_other :
        (control_cmd cmd).uc_cmd ≢ fpga_read
        → (control_cmd cmd).uc_cmd ≢ fpga_write
        → fpga_info_ioctl cmd arg s u ≡ (none, s, u)
    unfolding fpga_info_ioctl
    ioctl_other h g = ground arith
