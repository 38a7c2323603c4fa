-- ===== src/Rio/Windows.antt =====
-- Configuration accesses and address windows of rapidio/fsl_rio.c. `port` is the port that is used; its first outbound
-- window is the default one, the second the window for maintenance.
use powerpc_i2c_temp.Prelude.{
  ℕ, ◌+◌, ◌-◌, ◌*◌, ◌%◌, ◌^◌, ltb, ◌==◌, bit_and, bit_or, if◌then◌else◌, not, ◌||◌, Bool, Option,
  none, some,
}
use powerpc_i2c_temp.Prelude.Word.{u32, ◌<<<◌, ◌>>>◌}
use powerpc_i2c_temp.Rmu.Machine.{atmu, Log, Machine, out_be32}

abbrev pub maint_win_size : ℕ
maint_win_size = 0x400000

-- The registers of the window for maintenance, `maint_atmu_regs`, and the window after it that is `n` further.
abbrev pub rowtar : ℕ → ℕ
rowtar n = 0x20 + n * 0x20

abbrev pub rowtear : ℕ → ℕ
rowtear n = 0x24 + n * 0x20

abbrev pub rowbar : ℕ → ℕ
rowbar n = 0x28 + n * 0x20

abbrev pub rowar : ℕ → ℕ
rowar n = 0x30 + n * 0x20

-- The access through the window that follows: a read or a write of a number of bytes at a distance from its start.
pub data Access : Type 0 where
  win_read : (len at : ℕ) → Access
  win_write : (len at value : ℕ) → Access

module _ (k : Machine) (port : ℕ) where
  -- The test of both, `offset > (0x1000000 - len) || !IS_ALIGNED(offset, len)`.
  unfoldable pub misplaced : (offset len : ℕ) → Bool
  misplaced offset len =
      ltb (u32 (0x1000000 + 2 ^ 32 - len)) offset
      || not (bit_and offset (u32 (len + 2 ^ 32 - 1)) == 0)

  -- The window is pointed at the device and the part of its space.
  unfoldable pub aim : (destid hopcount offset : ℕ) → Log → Log
  aim destid hopcount offset l =
      let word = bit_or (bit_or (u32 (destid <<< 22)) (hopcount <<< 12)) (offset >>> 12) in
      out_be32 k (atmu port (rowtear 0)) (destid >>> 10) (out_be32 k (atmu port (rowtar 0)) word l)

  -- Where the access goes within the window.
  unfoldable pub within : ℕ → ℕ
  within offset = bit_and offset (maint_win_size - 1)

  abbrev is_length : ℕ → Bool
  is_length len = len == 1 || len == 2 || len == 4

  -- `fsl_rio_config_read`: the answer or the access that gives it, and the log.
  unfoldable pub config_read : (destid hopcount offset len : ℕ) → Log → Option Access × Log
  unfolding misplaced aim within
  config_read destid hopcount offset len l =
      if misplaced offset len
      then (none, l)
      else (let l' = aim destid hopcount offset l in
          if is_length len then (some (win_read len (within offset)), l') else (none, l'))

  -- `fsl_rio_config_write`.
  unfoldable pub config_write : (destid hopcount offset len value : ℕ) → Log → Option Access × Log
  unfolding misplaced aim within
  config_write destid hopcount offset len value l =
      if misplaced offset len
      then (none, l)
      else (let l' = aim destid hopcount offset l in
          if is_length len
          then (some (win_write len (within offset) (value % 2 ^ (8 * len))), l')
          else (none, l'))

  -- `rioMapOutb` and `rioMapInb`; the logarithm of the kernel is an argument.
  unfoldable pub rio_map_outb : (ℕ → ℕ) → (local_addr srio_addr size dst_id window : ℕ) → Log → Log
  rio_map_outb ilog2 local_addr srio_addr size dst_id window l =
      let law_size = u32 (ilog2 size + 2 ^ 32 - 1) in
      let target = bit_or (bit_and dst_id 0xff <<< 22) (srio_addr >>> 12) in
      let l1 = out_be32 k (atmu port (rowtar window)) target l in
      let l2 = out_be32 k (atmu port (rowbar window)) (local_addr >>> 12) l1 in
      out_be32 k (atmu port (rowar window)) (bit_or 0x80044000 law_size) l2

  unfoldable pub rio_map_inb : (ℕ → ℕ) → ℕ → (local_addr srio_addr size window : ℕ) → Log → Log
  rio_map_inb ilog2 target_type local_addr srio_addr size window l =
      let law_size = u32 (ilog2 size + 2 ^ 32 - 1) in
      let l1 = out_be32 k (atmu port (0x160 + window * 0x20)) (local_addr >>> 12) l in
      let l2 = out_be32 k (atmu port (0x168 + window * 0x20)) (srio_addr >>> 12) l1 in
      out_be32 k (atmu port (0x170 + window * 0x20)) (bit_or target_type law_size) l2

  -- `set_riooutb` and `set_rioinb`.
  unfoldable pub set_riooutb : (ℕ → ℕ) → (local_addr srio_addr size dst_id window : ℕ) → Log → Log
  unfolding rio_map_outb
  set_riooutb ilog2 local_addr srio_addr size dst_id window l =
      if ltb 6 window then l else rio_map_outb ilog2 local_addr srio_addr size dst_id window l

  unfoldable pub set_rioinb : (ℕ → ℕ) → ℕ → (local_addr srio_addr size window : ℕ) → Log → Log
  unfolding rio_map_inb
  set_rioinb ilog2 target_type local_addr srio_addr size window l =
      if ltb 3 window then l else rio_map_inb ilog2 target_type local_addr srio_addr size window l

-- `set_inb_target`, `set_target_type` and `set_target_value`: the attribute of the inbound windows for a number.
unfoldable pub inb_target : ℕ → ℕ
inb_target value = if ltb 1 value then value else (if value == 1 then 0x80f55000 else 0x80044000)
