-- ===== src/Bmc/Stores.antt =====
-- Where the loops of `TempVInfoUpdata` store: one word per sample, and no other.
use powerpc_i2c_temp.Prelude.{
  ℕ, zero, suc, ◌+◌, ◌-◌, ◌*◌, ◌<◌, ◌≤◌, ◌≡◌, ◌≢◌, ◌⊎◌, inl, refl, ap, ◌∙◌, arith, some, List,
}
use native.Mathlib.Decide.{ℕ_discrete}
use powerpc_i2c_temp.Prelude.Word.{u32}
use powerpc_i2c_temp.Fpga.{Fpga, Bank, store}
use powerpc_i2c_temp.Sensor.{SensorInfo, sensor_temp_total}
use powerpc_i2c_temp.Bmc.Registers.{Process, fpga_reg_write, fpga_temp0_reg, fpga_volt0_reg}
use powerpc_i2c_temp.Bmc.RegisterLaws.{word_of, reg_write_mapped}
use powerpc_i2c_temp.Bmc.Updates.{value_at, vtemp_word, write_temps, write_volts}

-- The driver has its registers mapped, words `lo` to `hi` hold the values of `f`, and all other words are
-- as in `bank`.
pub record Wrote (f : ℕ → ℕ) (lo hi : ℕ) (bank : Bank) (s : Fpga) : Type 0 where
  pub after : Bank
  pub mapped : s.guip_fpga ≡ some after
  pub inside : (o : ℕ) → lo ≤ o → o < hi → after o ≡ f o
  pub outside : (o : ℕ) → (o < lo) ⊎ (hi ≤ o) → after o ≡ bank o

store_self : (bank : Bank) (o v : ℕ) → store bank o v o ≡ v
store_self bank o v = ground arith

pub store_ne : (bank : Bank) (o v i : ℕ) → o ≢ i → store bank o v i ≡ bank i
store_ne bank o v i h = ground arith

Wrote-none :
    (f : ℕ → ℕ) (lo hi : ℕ) (bank : Bank) (s : Fpga)
    → hi ≤ lo
    → s.guip_fpga ≡ some bank
    → Wrote f lo hi bank s
Wrote-none f lo hi bank s e h = record {
  after = bank;
  mapped = h;
  inside = λ o l u. absurd (omega arith);
  outside = λ o e. refl;
}

Wrote-cons :
    (f : ℕ → ℕ) (lo hi : ℕ) (bank : Bank) (s : Fpga)
    → lo < hi
    → Wrote f (lo + 1) hi (store bank lo (f lo)) s
    → Wrote f lo hi bank s
Wrote-cons f lo hi bank s l rest = record {
  after = rest.after;
  mapped = rest.mapped;
  inside = λ o p q. elim (ℕ_discrete o lo) [
    | yes e ↦ rw e (rest.outside lo (inl (omega arith)) ∙ store_self bank lo (f lo))
    | no ne ↦ rest.inside o (omega arith) q
  ];
  outside = λ o e. rest.outside o (omega arith) ∙ store_ne bank lo (f lo) o (omega arith);
}

-- The word that each loop computes for a register, by the register's word offset.
abbrev pub temp_word : List SensorInfo → ℕ → ℕ
temp_word values o = u32 (vtemp_word (value_at values (o - 31)).sign (value_at values (o - 31)))

abbrev pub volt_word : List SensorInfo → ℕ → ℕ
volt_word values o =
    u32 (vtemp_word (value_at values (o - 40)).sign (value_at values (o - 40 + sensor_temp_total)))

module _ (p : Process) (local : p.local_addr ≢ 0) where
  -- One register call.
  pub reg_write_bank :
      (addr v : ℕ) (s : Fpga) (bank : Bank)
      → s.guip_fpga ≡ some bank
      → (fpga_reg_write p addr v s).1.guip_fpga ≡ some (store bank (word_of addr) (u32 v))
  reg_write_bank addr v s bank h =
      ap (λ r. r.1.guip_fpga) (reg_write_mapped p local addr v s bank h)

  write_at :
      (addr lo v x : ℕ) (s : Fpga) (bank : Bank)
      → s.guip_fpga ≡ some bank
      → word_of addr ≡ lo
      → u32 v ≡ x
      → (fpga_reg_write p addr v s).1.guip_fpga ≡ some (store bank lo x)
  write_at addr lo v x s bank h e g =
      reg_write_bank addr v s bank h
      ∙ ap (λ o. some (store bank o (u32 v))) e
      ∙ ap (λ y. some (store bank lo y)) g

  pub write_temps-Wrote :
      (left index : ℕ) (values : List SensorInfo) (s : Fpga) (bank : Bank)
      → index + left ≤ 4
      → s.guip_fpga ≡ some bank
      → Wrote
          (temp_word values)
          (31 + index)
          (31 + index + left)
          bank
          (write_temps p left index values s)
  unfolding write_temps
  write_temps-Wrote zero index values s bank l h =
      Wrote-none (temp_word values) (31 + index) _ bank s (omega arith) h
  write_temps-Wrote (suc left) index values s bank l h =
      let v = value_at values index in
      let here : 31 + index - 31 ≡ index = omega arith in
      let s' = (fpga_reg_write p (fpga_temp0_reg + index * 4) (vtemp_word v.sign v) s).1 in
      let stored =
        write_at (fpga_temp0_reg + index * 4) (31 + index) (vtemp_word v.sign v)
          (temp_word values (31 + index)) s bank h (omega arith) (rw here refl) in
      Wrote-cons (temp_word values) (31 + index) _ bank _ (omega arith) (
        let e : 31 + (index + 1) ≡ 31 + index + 1 = omega arith in
        let f : 31 + index + 1 + left ≡ 31 + index + suc left = omega arith in
        rw (e, f) at (write_temps-Wrote left (index + 1) values s' _ (omega arith) stored))

  pub write_volts-Wrote :
      (left index : ℕ) (values : List SensorInfo) (s : Fpga) (bank : Bank)
      → index + left ≤ 6
      → s.guip_fpga ≡ some bank
      → Wrote
          (volt_word values)
          (40 + index)
          (40 + index + left)
          bank
          (write_volts p left index values s)
  unfolding write_volts
  write_volts-Wrote zero index values s bank l h =
      Wrote-none (volt_word values) (40 + index) _ bank s (omega arith) h
  write_volts-Wrote (suc left) index values s bank l h =
      let v =
        vtemp_word (value_at values index).sign (value_at values (index + sensor_temp_total)) in
      let here : 40 + index - 40 ≡ index = omega arith in
      let s' = (fpga_reg_write p (fpga_volt0_reg + index * 4) v s).1 in
      let stored =
        write_at (fpga_volt0_reg + index * 4) (40 + index) v (volt_word values (40 + index)) s bank
          h (omega arith) (rw here refl) in
      Wrote-cons (volt_word values) (40 + index) _ bank _ (omega arith) (
        let e : 40 + (index + 1) ≡ 40 + index + 1 = omega arith in
        let f : 40 + index + 1 + left ≡ 40 + index + suc left = omega arith in
        rw (e, f) at (write_volts-Wrote left (index + 1) values s' _ (omega arith) stored))
