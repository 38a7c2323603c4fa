-- ===== src/Bmc/RegisterLaws.antt =====
-- What a register call of the process does in the driver, through the command word and the `switch`.
use powerpc_i2c_temp.Prelude.{
  ℕ, ◌-◌, ◌/◌, ◌^◌, ◌<◌, ◌≡◌, ◌≢◌, inr, ap, ◌∙◌, refl, arith, none, some, true, false, ◌==◌,
  if◌then◌else◌,
}
use mathlib.Core.Path.{ap₂}
use powerpc_i2c_temp.Prelude.Int.{pos, negsuc, ltb_ℤ}
use powerpc_i2c_temp.Prelude.Word.{u16, u32}
use powerpc_i2c_temp.Fpga.{Fpga, Bank, store, control_cmd, get_user, put_user}
use powerpc_i2c_temp.Fpga.Access.{ioctl_refused, ioctl_write, ioctl_read}
use powerpc_i2c_temp.Bmc.Registers.{
  Process, cmd_word, local_mem, returned, reg_read_result, reg_write_result, ioctl, fpga_reg_read,
  fpga_reg_write,
}

-- The driver takes out of a command word what the process put in: the low 16 bits of the address, the
-- command, and 0 for the reserved byte.
pub control_cmd-cmd_word :
    (addr c : ℕ)
    → c < 2 ^ 8
    → control_cmd (cmd_word addr c) ≡ record { us_reg_addr = u16 addr; uc_reserved = 0; uc_cmd = c }
control_cmd-cmd_word addr c h = ground arith

-- The word that a command selects, and the word of an address.
abbrev word : ℕ → ℕ
word cmd = (control_cmd cmd).us_reg_addr / 4

abbrev pub word_of : ℕ → ℕ
word_of addr = u16 addr / 4

word-cmd_word : (addr c : ℕ) → c < 2 ^ 8 → word (cmd_word addr c) ≡ word_of addr
word-cmd_word addr c h = omega arith

==-self : (n : ℕ) → (n == n) ≡ true
==-self n = ground arith

module _ (p : Process) where
  -- The local variable is found where it stands, and changed there.
  local_value : (v : ℕ) → get_user (local_mem p v) p.local_addr ≡ v
  local_value v = rw (==-self p.local_addr, get_user, local_mem) refl

  local_change : (v x : ℕ) → get_user (put_user (local_mem p v) p.local_addr x) p.local_addr ≡ x
  local_change v x = rw (==-self p.local_addr, get_user, put_user, local_mem) refl

module _ (p : Process) (local : p.local_addr ≢ 0) (addr v : ℕ) (s : Fpga) where
  ioctl_store :
      (bank : Bank)
      → s.guip_fpga ≡ some bank
      → let s' = record s { guip_fpga = some (store bank (word_of addr) v) } in
        ioctl p (cmd_word addr 1) v s ≡ (p.unreturned s', v, s')
  unfolding ioctl
  ioctl_store bank h =
      ap (returned p)
        (ioctl_write (cmd_word addr 1) p.local_addr s (local_mem p v) bank local h (omega arith))
      ∙ ap₂
          (λ (o x : ℕ).
            let s' = record s {
              guip_fpga = some (store bank o (get_user (local_mem p v) p.local_addr));
            } in
            (p.unreturned s', x, s'))
          (word-cmd_word addr 1 (omega arith)) (local_value p v)
      ∙ ap
          (λ (x : ℕ).
            let s' = record s { guip_fpga = some (store bank (word_of addr) x) } in
            (p.unreturned s', v, s'))
          (local_value p v)

  ioctl_fetch :
      (bank : Bank)
      → s.guip_fpga ≡ some bank
      → ioctl p (cmd_word addr 0) v s ≡ (p.unreturned s, bank (word_of addr), s)
  unfolding ioctl
  ioctl_fetch bank h =
      ap (returned p)
        (ioctl_read (cmd_word addr 0) p.local_addr s (local_mem p v) bank local h (omega arith))
      ∙ ap (λ (x : ℕ). (p.unreturned s, x, s))
          (local_change p v (bank (word (cmd_word addr 0)))
            ∙ ap bank (word-cmd_word addr 0 (omega arith)))

  ioctl_unmapped : (c : ℕ) → s.guip_fpga ≡ none → ioctl p (cmd_word addr c) v s ≡ (negsuc 0, v, s)
  unfolding ioctl
  ioctl_unmapped c h =
      ap (returned p) (ioctl_refused (cmd_word addr c) p.local_addr s (local_mem p v) (inr h))
      ∙ ap (λ (x : ℕ). (negsuc 0, x, s)) (local_value p v)

module _ (p : Process) (local : p.local_addr ≢ 0) (addr v : ℕ) (s : Fpga) where
  -- With the bank mapped, a register write stores the low 32 bits of the value in the word of the
  -- address and nowhere else; its status is -1 exactly if the value that the driver never returned
  -- happens to be negative.
  pub reg_write_mapped :
      (bank : Bank)
      → s.guip_fpga ≡ some bank
      → let s' = record s { guip_fpga = some (store bank (word_of addr) (u32 v)) } in
        fpga_reg_write p addr v s
        ≡ (if ltb_ℤ (p.unreturned s') (pos 0) then negsuc 0 else pos 0, s')
  unfolding fpga_reg_write
  reg_write_mapped bank h = ap reg_write_result (ioctl_store p local addr (u32 v) s bank h)

  -- With the bank mapped, a register read changes nothing; it gives the word of the address beside 0, or all
  -- ones beside -1 if the value that the driver never returned happens to be negative.
  pub reg_read_mapped :
      (bank : Bank)
      → s.guip_fpga ≡ some bank
      → fpga_reg_read p addr v s ≡ (
          if ltb_ℤ (p.unreturned s) (pos 0)
          then (negsuc 0, 2 ^ 32 - 1, s)
          else (pos 0, bank (word_of addr), s))
  unfolding fpga_reg_read
  reg_read_mapped bank h = ap reg_read_result (ioctl_fetch p local addr v s bank h)

  -- Where the mapping failed both calls report -1 and change nothing.
  pub reg_unmapped :
      s.guip_fpga ≡ none
      → (fpga_reg_write p addr v s ≡ (negsuc 0, s))
        × (fpga_reg_read p addr v s ≡ (negsuc 0, 2 ^ 32 - 1, s))
  unfolding fpga_reg_write fpga_reg_read
  reg_unmapped h = (
    ap reg_write_result (ioctl_unmapped p local addr (u32 v) s 1 h),
    ap reg_read_result (ioctl_unmapped p local addr v s 0 h),
  )

-- A register that was written reads back as the low 32 bits of the value, and every register of another
-- word as before, where the calls report no error.
pub read-write :
    (p : Process) (a b v uninit : ℕ) (s : Fpga) (bank : Bank)
    → p.local_addr ≢ 0
    → s.guip_fpga ≡ some bank
    → ((t : Fpga) → ltb_ℤ (p.unreturned t) (pos 0) ≡ false)
    → let (status, s') = fpga_reg_write p a v s in
      (status ≡ pos 0)
      × (fpga_reg_read p b uninit s'
          ≡ (pos 0, if word_of a == word_of b then u32 v else bank (word_of b), s'))
read-write p a b v uninit s bank local h ok =
    let s' = record s { guip_fpga = some (store bank (word_of a) (u32 v)) } in
    rw (reg_write_mapped p local a v s bank h) (
      rw (ok s') refl,
      rw (reg_read_mapped p local b uninit s' (store bank (word_of a) (u32 v)) refl)
          (rw (ok s') refl),
    )
