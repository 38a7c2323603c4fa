-- ===== src/Sensor/Sampling.antt =====
-- A read of the sensor device ends in bounded time and fills its array with samples.
use powerpc_i2c_temp.Prelude.{
  ℕ, zero, suc, ◌+◌, ◌*◌, ◌^◌, ◌≤◌, ◌<◌, ◌≡◌, ◌≢◌, ◌⊎◌, inl, inr, refl, ◌∙◌, arith, ◌==◌, false,
  some, none, List, length, get_or, set, length-set, get_or-set_self, get_or-set_ne,
}
use native.Mathlib.Decide.{ℕ_discrete}
use powerpc_i2c_temp.Prelude.Int.{negsuc}
use powerpc_i2c_temp.Prelude.Word.{u8}
use powerpc_i2c_temp.I2c.{Adapter, World, Ensures, Ensures-bind, Ensures-mono}
use powerpc_i2c_temp.Ltc2991.{adc_read_new_data}
use powerpc_i2c_temp.Ltc2991.Polling.{Meter, metered, adc_read_new_data_polls}
use powerpc_i2c_temp.Ltc2991.Registers.{temp_address, v_address, v1_msb_reg}
use powerpc_i2c_temp.Sensor.Defs.{
  SensorInfo, no_value, temp_info, volt_info, read_temps, read_volts, sample, sensor_read,
  ReadResult, temp_delay_ms, v_delay_ms,
}

-- Entries `lo` to `hi` of `vs` are samples of 15-bit codes, and the others are those of `values`.
pub record IsFilled (info : ℕ → SensorInfo) (lo hi : ℕ) (values vs : List SensorInfo) : Type 0 where
  pub same_length : length vs ≡ length values
  pub inside : (i : ℕ) → lo ≤ i → i < hi → (c : ℕ) × (c < 2 ^ 15) × (get_or vs i no_value ≡ info c)
  pub outside : (i : ℕ) → (i < lo) ⊎ (hi ≤ i) → get_or vs i no_value ≡ get_or values i no_value

module _ (info : ℕ → SensorInfo) where
  IsFilled-none :
      (lo hi : ℕ) (values : List SensorInfo) → hi ≤ lo → IsFilled info lo hi values values
  IsFilled-none lo hi values h = record {
    same_length = refl;
    inside = λ i l u. absurd (omega arith);
    outside = λ i o. refl;
  }

  IsFilled-set :
      (lo hi c : ℕ) (values vs : List SensorInfo)
      → lo < hi
      → lo < length values
      → c < 2 ^ 15
      → IsFilled info (lo + 1) hi (set values lo (info c)) vs
      → IsFilled info lo hi values vs
  IsFilled-set lo hi c values vs h l code rest = record {
    same_length = rest.same_length ∙ length-set values lo (info c);
    inside = λ i p q. elim (ℕ_discrete i lo) [
      | yes e ↦ (
        c,
        code,
        rw e (rest.outside lo (inl (omega arith)) ∙ get_or-set_self values lo (info c) no_value l),
      )
      | no ne ↦ rest.inside i (omega arith) q
    ];
    outside = λ i o.
        rest.outside i (omega arith) ∙ get_or-set_ne values lo i (info c) no_value (omega arith);
  }

module _ {E : Type 0} (k : Adapter E) where
  -- At most `reads` more transfers and `ms` more milliseconds, with the client in place.
  abbrev pub Within : ℕ → ℕ → World (Meter E) → World (Meter E) → Type 0
  Within reads ms w v =
      (v.bus.transfers ≤ w.bus.transfers + reads)
      × (v.bus.slept ≤ w.bus.slept + ms)
      × ((d : ℕ) × (v.new_client ≡ some d))

  read_temps-IsFilled :
      (left index reg : ℕ) (values : List SensorInfo) (w : World (Meter E)) {c : ℕ}
      → w.new_client ≡ some c
      → index + left ≤ length values
      → Ensures (read_temps (metered k) left index reg values w) (λ vs v.
        Within (left * 11) (left * 10) w v × IsFilled temp_info index (index + left) values vs)
  unfolding read_temps
  read_temps-IsFilled zero index reg values w {c} h l =
      ((omega arith, omega arith, (c, h)), IsFilled-none temp_info index _ values (omega arith))
  read_temps-IsFilled (suc left) index reg values w h l =
      Ensures-bind (adc_read_new_data (metered k) temp_address reg temp_delay_ms) _ w _ _
        (adc_read_new_data_polls k temp_address reg temp_delay_ms w h)
        (λ r u p.
          let values' = set values index (temp_info r.adc_code) in
          Ensures-mono (read_temps (metered k) left (index + 1) (u8 (reg + 0x04)) values' u) _ _
            (read_temps-IsFilled left (index + 1) (u8 (reg + 0x04)) values' u p.2.1
              (omega (arith, length-set values index (temp_info r.adc_code))))
            (λ vs v q. (
              (omega arith, omega arith, q.0.2),
              IsFilled-set temp_info index (index + suc left) r.adc_code values vs (omega arith)
                  (omega arith) p.3
                  (let e : index + 1 + left ≡ index + suc left = omega arith in rw e at q.1),
            )))

  read_volts-IsFilled :
      (left index reg : ℕ) (values : List SensorInfo) (w : World (Meter E)) {c : ℕ}
      → w.new_client ≡ some c
      → index + 4 + left ≤ length values
      → Ensures (read_volts (metered k) left index reg values w) (λ vs v.
        Within (left * 3) (left * 2) w v
        × IsFilled volt_info (index + 4) (index + 4 + left) values vs)
  unfolding read_volts
  read_volts-IsFilled zero index reg values w {c} h l = (
    (omega arith, omega arith, (c, h)),
    IsFilled-none volt_info (index + 4) _ values (omega arith),
  )
  read_volts-IsFilled (suc left) index reg values w h l =
      Ensures-bind (adc_read_new_data (metered k) v_address reg v_delay_ms) _ w _ _
        (adc_read_new_data_polls k v_address reg v_delay_ms w h)
        (λ r u p.
          let values' = set values (index + 4) (volt_info r.adc_code) in
          Ensures-mono (read_volts (metered k) left (index + 1) (u8 (reg + 0x02)) values' u) _ _
            (read_volts-IsFilled left (index + 1) (u8 (reg + 0x02)) values' u p.2.1
              (omega (arith, length-set values (index + 4) (volt_info r.adc_code))))
            (λ vs v q. (
              (omega arith, omega arith, q.0.2),
              IsFilled-set volt_info (index + 4) (index + 4 + suc left) r.adc_code values vs
                  (omega arith) (omega arith) p.3
                  (let e : index + 1 + 4 + left ≡ index + 4 + suc left = omega arith in
                    let f : index + 1 + 4 ≡ index + 4 + 1 = omega arith in rw (e, f) at q.1),
            )))

  -- What a complete sample holds: four temperatures, then six voltages.
  abbrev pub Sampled : List SensorInfo → Type 0
  Sampled vs =
      (length vs ≡ 10)
      × ((i : ℕ) → i < 4 → (c : ℕ) × (c < 2 ^ 15) × (get_or vs i no_value ≡ temp_info c))
      × ((i : ℕ) → i < 6 → (c : ℕ) × (c < 2 ^ 15) × (get_or vs (i + 4) no_value ≡ volt_info c))

  -- Once the driver has its client, a sample always completes, after at most 62 transfers and 52
  -- milliseconds of sleep, whatever the chips answer. It fills entries 0 to 3 with temperatures and 4 to 9 with
  -- voltages of 15-bit codes.
  pub sample_completes :
      (values : List SensorInfo) (w : World (Meter E)) {c : ℕ}
      → w.new_client ≡ some c
      → length values ≡ 10
      → Ensures (sample (metered k) values w) (λ vs v. Within 62 52 w v × Sampled vs)
  unfolding sample
  sample_completes values w h l =
      Ensures-bind (read_temps (metered k) 4 0 v1_msb_reg values) _ w _ _
        (read_temps-IsFilled 4 0 v1_msb_reg values w h (omega arith))
        (λ temps u p.
          Ensures-mono (read_volts (metered k) 6 0 v1_msb_reg temps u) _ _
            (read_volts-IsFilled 6 0 v1_msb_reg temps u p.0.2.1 (omega (arith, p.1.same_length)))
            (λ vs v q. (
              (omega arith, omega arith, q.0.2),
              (
                q.1.same_length ∙ p.1.same_length ∙ l,
                λ i b.
                    let (c, code, e) = p.1.inside i (omega arith) (omega arith) in
                    (c, code, q.1.outside i (inl (omega arith)) ∙ e),
                λ i b. q.1.inside (i + 4) (omega arith) (omega arith),
              ),
            )))

  -- How a read of the device ends.
  abbrev pub Delivered : ℕ → ReadResult → Type 0
  Delivered uncopied r =
      Sampled r.values
      × (((uncopied ≡ 0) × (r.ret ≡ none) × (r.buffer ≡ some r.values))
          ⊎ ((uncopied ≢ 0) × (r.ret ≡ some (negsuc 13)) × (r.buffer ≡ none)))

  -- Within the same bounds, 62 transfers and 52 milliseconds of sleep, a read of the device then either hands the sampled array to the process, and
  -- ends without a return value, or returns -EFAULT where the copy failed; the module keeps the sample in
  -- both cases.
  pub sensor_read_delivers :
      (uncopied : ℕ) (values : List SensorInfo) (w : World (Meter E)) {c : ℕ}
      → w.new_client ≡ some c
      → length values ≡ 10
      → Ensures
          (sensor_read (metered k) uncopied values w)
          (λ r v. Within 62 52 w v × Delivered uncopied r)
  unfolding sensor_read
  sensor_read_delivers uncopied values w h l =
      Ensures-bind (sample (metered k) values) _ w _ _ (sample_completes values w h l) (λ vs v p.
        elim (ℕ_discrete uncopied 0) [
          | yes e ↦ rw e (p.0, (p.1, inl (refl, refl, refl)))
          | no ne ↦
              let t : (uncopied == 0) ≡ false = ground arith in
              rw t (p.0, (p.1, inr (ne, refl, refl)))
        ])
