-- ===== src/Rio/Addressing.antt =====
-- What the address registers of rapidio/fsl_rio.c select.
use powerpc_i2c_temp.Prelude.{
  ℕ, zero, suc, ◌+◌, ◌-◌, ◌*◌, ◌/◌, ◌%◌, ◌^◌, ◌≤◌, ◌<◌, ◌==◌, bit_and, bit_or, ◌≡◌, refl, ap, ◌∙◌,
  arith, if◌then◌else◌, ◌&&◌, ◌||◌, true, false, Option, none, some, [], ◌∷◌,
}
use powerpc_i2c_temp.Prelude.Word.{u32, ◌<<<◌, ◌>>>◌}
use powerpc_i2c_temp.Prelude.Bits.{bit_and-zero, bit_and_mask, bit_or_fields}
use powerpc_i2c_temp.Rmu.Machine.{atmu, write, Log, Machine}
use powerpc_i2c_temp.Rmu.Entries.{if-eq_true, if-eq_false}
use powerpc_i2c_temp.Rio.Windows.{
  win_read, win_write, rowtar, rowbar, rowar, misplaced, config_read, config_write, set_riooutb,
  set_rioinb,
}

-- The word for the target of a maintenance access.
abbrev target_word : (destid hopcount offset : ℕ) → ℕ
target_word destid hopcount offset =
    bit_or (bit_or (u32 (destid <<< 22)) (hopcount <<< 12)) (offset >>> 12)

target_word_lem :
    (destid hopcount offset : ℕ)
    → hopcount < 2 ^ 8
    → offset < 2 ^ 24
    → target_word destid hopcount offset
      ≡ (destid % 2 ^ 10 * 2 ^ 10 + hopcount) * 2 ^ 12 + offset / 2 ^ 12
target_word_lem destid hopcount offset hh ho =
    ap (λ (t : ℕ). bit_or (bit_or t (hopcount * 2 ^ 12)) (offset / 2 ^ 12)) (omega arith)
    ∙ ap (λ (t : ℕ). bit_or t (offset / 2 ^ 12))
        (bit_or_fields 22 (destid % 2 ^ 10) (hopcount * 2 ^ 12) (omega arith) ∙ omega arith)
    ∙ bit_or_fields 12 (destid % 2 ^ 10 * 2 ^ 10 + hopcount) (offset / 2 ^ 12) (omega arith)

module _ (k : Machine) (port : ℕ) where
  -- An access of `2 ^ e` bytes that is aligned and lies in the space is not refused.
  misplaced_lem :
      (e offset : ℕ)
      → e ≤ 2
      → offset % 2 ^ e ≡ 0
      → offset + 2 ^ e ≤ 2 ^ 24
      → misplaced k port offset (2 ^ e) ≡ false
  unfolding misplaced
  misplaced_lem zero offset h a s = ground (arith, bit_and-zero offset)
  misplaced_lem (suc zero) offset h a s = ground (arith, bit_and_mask 1 offset)
  misplaced_lem (suc (suc zero)) offset h a s = ground (arith, bit_and_mask 2 offset)
  misplaced_lem (suc (suc (suc e))) offset h a s = absurd (omega arith)

  is_length_lem : (e : ℕ) → e ≤ 2 → (2 ^ e == 1 || 2 ^ e == 2 || 2 ^ e == 4) ≡ true
  is_length_lem zero h = refl
  is_length_lem (suc zero) h = refl
  is_length_lem (suc (suc zero)) h = refl
  is_length_lem (suc (suc (suc e))) h = absurd (omega arith)

  -- A read and a write of 1, 2 or 4 bytes, aligned and inside the 16 megabytes of a device's space, set the same two
  -- registers of the maintenance window and then access it at the same place. The registers and the place give back
  -- the device, the number of hops and the place in its space, so no two requests are confused.
  pub config_access-roundtrip :
      (destid hopcount offset e value : ℕ) (l : Log)
      → destid < 2 ^ 16
      → hopcount < 2 ^ 8
      → e ≤ 2
      → offset % 2 ^ e ≡ 0
      → offset + 2 ^ e ≤ 2 ^ 24
      → (target high at : ℕ) × (config_read k port destid hopcount offset (2 ^ e) l ≡ (
        some (win_read (2 ^ e) at),
        write (atmu port 0x24) high ∷ write (atmu port 0x20) target ∷ l,
      ))
        × (config_write k port destid hopcount offset (2 ^ e) value l ≡ (
          some (win_write (2 ^ e) at (value % 2 ^ (8 * 2 ^ e))),
          write (atmu port 0x24) high ∷ write (atmu port 0x20) target ∷ l,
        ))
        × (at < 0x400000)
        × (target / 2 ^ 22 + high * 2 ^ 10 ≡ destid)
        × (target / 2 ^ 12 % 2 ^ 10 ≡ hopcount)
        × (target % 2 ^ 12 * 2 ^ 12 + at % 2 ^ 12 ≡ offset)
  unfolding config_read config_write
  config_access-roundtrip destid hopcount offset e value l hd hh he aligned inside =
      let target = target_word destid hopcount offset in
      let t = target_word_lem destid hopcount offset hh (omega arith) in
      let w = bit_and_mask 22 offset in
      let placed = misplaced_lem e offset he aligned inside in
      let good = is_length_lem e he in
      (
        target,
        destid / 2 ^ 10,
        bit_and offset 0x3fffff,
        if-eq_false (misplaced k port offset (2 ^ e)) _ _ placed
            ∙ if-eq_true (2 ^ e == 1 || 2 ^ e == 2 || 2 ^ e == 4) _ _ good,
        if-eq_false (misplaced k port offset (2 ^ e)) _ _ placed
            ∙ if-eq_true (2 ^ e == 1 || 2 ^ e == 2 || 2 ^ e == 4) _ _ good,
        omega (arith, w),
        omega (arith, t),
        omega (arith, t),
        omega (arith, t, w),
      )

  -- What was last written to a register of the address windows of the port.
  abbrev pub last_write : ℕ → Log → Option ℕ
  last_write offset [] = none
  last_write offset (event ∷ l) =
      let before = last_write offset l in
      elim event [
        | write r v ↦ elim r [
          | atmu p o ↦ if p == port && o == offset then some v else before
          | _ ↦ before
        ]
        | _ ↦ before
      ]

  -- The windows 1 to 6 for outbound and all windows for inbound accesses leave every register of the maintenance window, and
  -- of the window before it, as it was, whatever the logarithm answers.
  pub windows_keep_maintenance :
      (ilog2 : ℕ → ℕ) (target_type local_addr srio_addr size dst_id window offset : ℕ) (l : Log)
      → 1 ≤ window
      → offset < 0x40
      → (last_write offset (set_riooutb k port ilog2 local_addr srio_addr size dst_id window l)
          ≡ last_write offset l)
        × (last_write offset
              (set_rioinb k port ilog2 target_type local_addr srio_addr size window l)
            ≡ last_write offset l)
  unfolding set_riooutb set_rioinb
  windows_keep_maintenance ilog2 target_type local_addr srio_addr size dst_id window offset l h o =
      (ground arith, ground arith)

  -- The outbound window 0, which the function accepts, is the maintenance window: its target, its base address and its
  -- attributes are then those of the call.
  pub window_zero :
      (ilog2 : ℕ → ℕ) (local_addr srio_addr size dst_id : ℕ) (l : Log)
      → let l' = set_riooutb k port ilog2 local_addr srio_addr size dst_id 0 l in
        (last_write (rowtar 0) l'
          ≡ some (bit_or (bit_and dst_id 0xff * 2 ^ 22) (srio_addr / 2 ^ 12)))
        × (last_write (rowbar 0) l' ≡ some (local_addr / 2 ^ 12))
        × (last_write (rowar 0) l' ≡ some (bit_or 0x80044000 (u32 (ilog2 size + 2 ^ 32 - 1))))
  unfolding set_riooutb
  window_zero ilog2 local_addr srio_addr size dst_id l = (ground arith, ground arith, ground arith)
