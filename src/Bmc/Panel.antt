-- ===== src/Bmc/Panel.antt =====
-- What the updates of app/bmc/ibmc.c leave in the registers of the FPGA, through every layer below.
use powerpc_i2c_temp.Prelude.{
  ℕ, ◌+◌, ◌-◌, ◌<◌, ◌≤◌, ◌≡◌, ◌≢◌, ◌⊎◌, inl, inr, ◌∙◌, arith, none, some, true, Option, List,
  length,
}
use native.Mathlib.Decide.{dec_lt}
use powerpc_i2c_temp.Prelude.Word.{u32}
use powerpc_i2c_temp.Fpga.{Fpga, Bank}
use powerpc_i2c_temp.Sensor.{SensorInfo, ReadResult, positive, negative}
use powerpc_i2c_temp.Bmc.Registers.{Process}
use powerpc_i2c_temp.Bmc.Updates.{
  value_at, vtemp_word, write_temps, write_volts, Answers, App, Outcome, oops, exited, done,
  deliver, temp_v_info_updata,
}
use powerpc_i2c_temp.Bmc.Stores.{temp_word, volt_word, write_temps-Wrote, write_volts-Wrote}
use powerpc_i2c_temp.I2c.{Adapter, World, Ensures}
use powerpc_i2c_temp.Ltc2991.Polling.{Meter, metered}
use powerpc_i2c_temp.Sensor.Sampling.{Within, Sampled, Delivered, sensor_read_delivers}
use powerpc_i2c_temp.Bmc.Display.{IsShown, VoltShown, temp-IsShown, volt_shown}

-- The registers of a card after an update of temperatures and voltages.
pub record IsUpdated (values : List SensorInfo) (before : Bank) (s : Fpga) : Type 0 where
  pub after : Bank
  pub mapped : s.guip_fpga ≡ some after
  pub temps : (i : ℕ) → i < 4 → IsShown (after (31 + i)) (value_at values i)
  pub volts :
      (i : ℕ)
      → i < 6
      → (((value_at values i).sign ≡ positive) × IsShown (after (40 + i)) (value_at values (i + 4)))
        ⊎ (((value_at values i).sign ≡ negative) × (4 ≤ i) × (after (40 + i) ≡ 0))
  pub others : (o : ℕ) → (o < 31) ⊎ ((35 ≤ o) × (o < 40)) ⊎ (46 ≤ o) → after o ≡ before o

module _ {E : Type 0} (k : Adapter E) (values : List SensorInfo) (sampled : Sampled k values) where
  temp_at :
      (i : ℕ)
      → i < 4
      → ((value_at values i).sign ≡ positive)
        × IsShown (u32 (vtemp_word positive (value_at values i))) (value_at values i)
  temp_at i l = let (c, _, e) = sampled.1 i l in temp-IsShown _ c e

  volt_at : (i : ℕ) → i < 6 → VoltShown (value_at values (i + 4))
  volt_at i l = let (c, h, e) = sampled.2 i l in volt_shown _ c h e

  temp_word-IsShown : (i : ℕ) → i < 4 → IsShown (temp_word values (31 + i)) (value_at values i)
  temp_word-IsShown i l =
      let e : 31 + i - 31 ≡ i = omega arith in let p = temp_at i l in rw (e, p.0) p.1

  -- The sign of entry `i`, be it a temperature or a voltage.
  sign_at :
      (i : ℕ)
      → i < 6
      → ((value_at values i).sign ≡ positive) ⊎ (((value_at values i).sign ≡ negative) × (4 ≤ i))
  sign_at i l = elim (dec_lt i 4) [
    | yes low ↦ inl (temp_at i low).0
    | no high ↦
        let e : i - 4 + 4 ≡ i = omega arith in
        elim (rw e at (volt_at (i - 4) (omega arith)).0) [
          | inl s ↦ inl s
          | inr s ↦ inr (s, omega arith)
        ]
  ]

  volt_word-IsShown :
      (i : ℕ)
      → i < 6
      → (((value_at values i).sign ≡ positive)
          × IsShown (volt_word values (40 + i)) (value_at values (i + 4)))
        ⊎ (((value_at values i).sign ≡ negative) × (4 ≤ i) × (volt_word values (40 + i) ≡ 0))
  volt_word-IsShown i l =
      let e : 40 + i - 40 ≡ i = omega arith in
      let v = volt_at i l in
      elim (sign_at i l) [ inl s ↦ inl (s, rw (e, s) v.1) | inr (s, h) ↦ inr (s, h, rw (e, s) v.2) ]

  updated :
      (p : Process) (s : Fpga) (bank : Bank)
      → p.local_addr ≢ 0
      → s.guip_fpga ≡ some bank
      → IsUpdated values bank (write_volts p 6 0 values (write_temps p 4 0 values s))
  updated p s bank local h =
      let temps = write_temps-Wrote p local 4 0 values s bank (omega arith) h in
      let volts =
        write_volts-Wrote p local 6 0 values (write_temps p 4 0 values s) temps.after (omega arith)
          temps.mapped in
      record {
        after = volts.after;
        mapped = volts.mapped;
        temps = λ i l.
            rw
              (
                volts.outside (31 + i) (inl (omega arith)),
                temps.inside (31 + i) (omega arith) (omega arith),
              )
              (temp_word-IsShown i l);
        volts =
            λ i l. rw (volts.inside (40 + i) (omega arith) (omega arith)) (volt_word-IsShown i l);
        others = λ o e. volts.outside o (omega arith) ∙ temps.outside o (omega arith);
      }

-- The update goes on, in a state of which `P` holds.
abbrev pub IsDone : {A : Type 0} → Outcome A → (A → Type 0) → Type 0
IsDone oops P = ⊥
IsDone exited P = ⊥
IsDone (done a) P = P a

-- At most `n` more transfers, with the client in place.
abbrev pub Exchanged : {E : Type 0} → ℕ → World (Meter E) → World (Meter E) → Type 0
Exchanged n w v = (v.bus.transfers ≤ w.bus.transfers + n) × ((d : ℕ) × (v.new_client ≡ some d))

module _ {E : Type 0} (k : Adapter E) (p : Process) where
  deliver-IsUpdated :
      (ans : Answers) (s : App (Meter E)) (bank : Bank) (o : Option (ReadResult × World (Meter E)))
      → p.local_addr ≢ 0
      → s.fpga.guip_fpga ≡ some bank
      → ans.uncopied ≡ 0
      → Ensures o (λ r v. Within k 62 52 s.world v × Delivered k ans.uncopied r)
      → IsDone
          (deliver p ans s o)
          (λ t. Exchanged 62 s.world t.world × Sampled k t.values × IsUpdated t.values bank t.fpga)
  unfolding deliver
  deliver-IsUpdated ans s bank none local mapped uncopied h = h
  deliver-IsUpdated ans s bank (some (r, w)) local mapped uncopied (_, (sampled, inr (ne, _, _))) =
      absurd (ne uncopied)
  deliver-IsUpdated ans s bank (some (r, w)) local mapped uncopied
        (within, (sampled, inl (_, _, buffer))) =
      rw buffer
        ((within.0, within.2), sampled, updated k r.values sampled p s.fpga bank local mapped)

  -- One call of `TempVInfoUpdata`, from the chips to the registers of the FPGA. With the device open, the
  -- copy complete, the client in place and the bank mapped, it returns after at most 62 transfers; the module's array then holds
  -- four temperatures and six voltages; words 31 to 34 of the bank show the temperatures and 40 to 45
  -- the magnitudes of the voltages as whole part and hundredths, but words 44 and 45 are 0 if voltage 1 or 2
  -- is negative; and no other register changes.
  pub temp_v_info_updata-IsUpdated :
      (ans : Answers) (s : App (Meter E)) (bank : Bank) {c : ℕ}
      → p.local_addr ≢ 0
      → s.fpga.guip_fpga ≡ some bank
      → ans.opened ≡ true
      → ans.uncopied ≡ 0
      → s.world.new_client ≡ some c
      → length s.values ≡ 10
      → IsDone
          (temp_v_info_updata (metered k) p ans s)
          (λ t. Exchanged 62 s.world t.world × Sampled k t.values × IsUpdated t.values bank t.fpga)
  unfolding temp_v_info_updata deliver
  temp_v_info_updata-IsUpdated ans s bank local mapped opened uncopied client ten = rw opened (
      deliver-IsUpdated ans s bank _ local mapped uncopied
        (sensor_read_delivers k ans.uncopied s.values s.world client ten))
