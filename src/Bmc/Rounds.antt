-- ===== src/Bmc/Rounds.antt =====
-- The endless loop of `main` in app/bmc/ibmc.c: what each round stores, and that no round ends the process.
use powerpc_i2c_temp.Prelude.{
  ℕ, ◌+◌, ◌*◌, ◌/◌, ◌%◌, ◌^◌, ◌<◌, ◌≤◌, ◌≡◌, ◌≢◌, ◌⊎◌, inr, refl, ◌∙◌, arith, some, true, false,
  Bool, if◌then◌else◌, List, [], ◌∷◌, length,
}
use powerpc_i2c_temp.Prelude.Word.{u32}
use powerpc_i2c_temp.Fpga.{Fpga, Bank, store}
use powerpc_i2c_temp.Sensor.{SensorInfo, positive, negative}
use powerpc_i2c_temp.I2c.{Adapter}
use powerpc_i2c_temp.Ltc2991.Polling.{Meter, metered}
use powerpc_i2c_temp.Sensor.Sampling.{Sampled}
use powerpc_i2c_temp.Bmc.Registers.{
  Process, fpga_total_disk_info_reg, fpga_available_disk_info_reg, fpga_sys_run_status_reg,
}
use powerpc_i2c_temp.Bmc.Updates.{
  value_at, Statfs, mebibytes, nfs_disk_info_update, check_nfs_status, Answers, App, Outcome, oops,
  exited, done, temp_v_info_updata, round, rounds,
}
use powerpc_i2c_temp.Bmc.Stores.{store_ne, reg_write_bank}
use powerpc_i2c_temp.Bmc.Display.{IsShown}
use powerpc_i2c_temp.Bmc.Panel.{Exchanged, IsDone, IsUpdated, temp_v_info_updata-IsUpdated}

store_twice :
    (bank : Bank) (x y : ℕ)
    → let after = store (store bank 52 x) 53 y in
      (after 52 ≡ x) × (after 53 ≡ y) × ((o : ℕ) → o ≢ 52 → o ≢ 53 → after o ≡ bank o)
store_twice bank x y = (refl, refl, λ o p q. ground arith)

-- A size as the register shows it: whole mebibytes, modulo 2^32, of the size modulo 2^64.
mebibytes_lem : (a b : ℕ) → u32 (mebibytes a b) ≡ a * b % 2 ^ 64 / 2 ^ 20 % 2 ^ 32
mebibytes_lem a b = refl

-- What the disk update leaves.
pub record DiskShown (disk : Statfs) (before : Bank) (s : Fpga) : Type 0 where
  pub after : Bank
  pub mapped : s.guip_fpga ≡ some after
  pub total : after 52 ≡ disk.f_bsize * disk.f_blocks / 2 ^ 20
  pub available : after 53 ≡ disk.f_bavail * disk.f_bsize / 2 ^ 20
  pub others : (o : ℕ) → o ≢ 52 → o ≢ 53 → after o ≡ before o

module _ (p : Process) (local : p.local_addr ≢ 0) where
  -- `nfsDiskInfoUpdate` shows both sizes of a disk of less than 2^52 bytes in mebibytes, exact but for
  -- the fraction, in words 52 and 53, and changes no other register.
  nfs_disk_info_update-DiskShown :
      (disk : Statfs) (s : Fpga) (bank : Bank)
      → s.guip_fpga ≡ some bank
      → disk.f_bsize * disk.f_blocks < 2 ^ 52
      → disk.f_bavail * disk.f_bsize < 2 ^ 52
      → DiskShown disk bank (nfs_disk_info_update p disk s)
  unfolding nfs_disk_info_update
  nfs_disk_info_update-DiskShown disk s bank h t a =
      let x = mebibytes disk.f_bsize disk.f_blocks in
      let y = mebibytes disk.f_bavail disk.f_bsize in
      let first = reg_write_bank p local fpga_total_disk_info_reg x s bank h in
      let stored = store_twice bank (u32 x) (u32 y) in
      record {
        after = store (store bank 52 (u32 x)) 53 (u32 y);
        mapped = reg_write_bank p local fpga_available_disk_info_reg y _ _ first;
        total = stored.0 ∙ omega arith;
        available = stored.1 ∙ omega arith;
        others = stored.2;
      }

  nfs_status_bank :
      (found : Bool) (s : Fpga) (bank : Bank)
      → s.guip_fpga ≡ some bank
      → (check_nfs_status p found s).guip_fpga ≡ some (store bank 54 (if found then 1 else 0))
  unfolding check_nfs_status
  nfs_status_bank true s bank h = reg_write_bank p local fpga_sys_run_status_reg 1 s bank h
  nfs_status_bank false s bank h = reg_write_bank p local fpga_sys_run_status_reg 0 s bank h

module _ {A B : Type 0} where
  IsDone-then :
      (o : Outcome A) (f : A → Outcome B) (P : A → Type 0) (Q : B → Type 0)
      → IsDone o P
      → ((a : A) → P a → IsDone (f a) Q)
      → IsDone (elim o [ oops ↦ oops | exited ↦ exited | done t ↦ f t ]) Q
  IsDone-then oops f P Q h g = h
  IsDone-then exited f P Q h g = h
  IsDone-then (done a) f P Q h g = g a h

pub IsDone-mono :
    {A : Type 0} (o : Outcome A) (P Q : A → Type 0)
    → IsDone o P
    → ((a : A) → P a → Q a)
    → IsDone o Q
IsDone-mono oops P Q h g = h
IsDone-mono exited P Q h g = h
IsDone-mono (done a) P Q h g = g a h

-- The registers after one whole round.
pub record IsRound (ans : Answers) (values : List SensorInfo) (before : Bank) (s : Fpga)
    : Type 0 where
  pub after : Bank
  pub mapped : s.guip_fpga ≡ some after
  pub total : after 52 ≡ ans.disk.f_bsize * ans.disk.f_blocks / 2 ^ 20
  pub available : after 53 ≡ ans.disk.f_bavail * ans.disk.f_bsize / 2 ^ 20
  pub status : after 54 ≡ (if ans.nfsd_found then 1 else 0)
  pub temps : (i : ℕ) → i < 4 → IsShown (after (31 + i)) (value_at values i)
  pub volts :
      (i : ℕ)
      → i < 6
      → (((value_at values i).sign ≡ positive) × IsShown (after (40 + i)) (value_at values (i + 4)))
        ⊎ (((value_at values i).sign ≡ negative) × (4 ≤ i) × (after (40 + i) ≡ 0))
  pub others :
      (o : ℕ)
      → (o < 31) ⊎ ((35 ≤ o) × (o < 40)) ⊎ ((46 ≤ o) × (o < 52)) ⊎ (55 ≤ o)
      → after o ≡ before o

IsRound-join :
    (ans : Answers) (values : List SensorInfo) (before : Bank) (s t u : Fpga)
    → (d : DiskShown ans.disk before s) → (r : IsUpdated values d.after t)
    → u.guip_fpga ≡ some (store r.after 54 (if ans.nfsd_found then 1 else 0))
    → IsRound ans values before u
IsRound-join ans values before s t u d r h =
    let x : ℕ = if ans.nfsd_found then 1 else 0 in
    let keep : (o : ℕ) → 54 ≢ o → store r.after 54 x o ≡ r.after o = store_ne r.after 54 x in
    record {
      after = store r.after 54 x;
      mapped = h;
      total = r.others 52 (inr (inr (omega arith))) ∙ d.total;
      available = r.others 53 (inr (inr (omega arith))) ∙ d.available;
      status = refl;
      temps = λ i l. rw (keep (31 + i) (omega arith)) (r.temps i l);
      volts = λ i l. rw (keep (40 + i) (omega arith)) (r.volts i l);
      others = λ o e.
          keep o (omega arith) ∙ r.others o (ground arith) ∙ d.others o (omega arith) (omega arith);
    }

-- The calls of a round succeed, on a disk of less than 2^52 bytes.
abbrev pub IsServed : Answers → Type 0
IsServed ans =
    (ans.opened ≡ true)
    × (ans.uncopied ≡ 0)
    × (ans.disk.f_bsize * ans.disk.f_blocks < 2 ^ 52)
    × (ans.disk.f_bavail * ans.disk.f_bsize < 2 ^ 52)

abbrev pub AreServed : List Answers → Type 0
AreServed [] = Unit
AreServed (ans ∷ rest) = IsServed ans × AreServed rest

module _ {E : Type 0} (k : Adapter E) (p : Process) (local : p.local_addr ≢ 0) where
  -- One round of `main` whose calls succeed, on a disk of less than 2^52 bytes, from a driver with its client
  -- and a mapped bank, goes on after at most 62 transfers. All thirteen
  -- registers then show the new values (words 44 and 45 are 0 if voltage 1 or 2 is negative), and no
  -- other register has changed.
  pub round-IsRound :
      (ans : Answers) (s : App (Meter E)) (bank : Bank) {c : ℕ}
      → IsServed ans
      → s.fpga.guip_fpga ≡ some bank
      → s.world.new_client ≡ some c
      → length s.values ≡ 10
      → IsDone (round (metered k) p ans s) (λ t.
        Exchanged 62 s.world t.world × Sampled k t.values × IsRound ans t.values bank t.fpga)
  unfolding round
  round-IsRound ans s bank served mapped client ten =
      let fpga = nfs_disk_info_update p ans.disk s.fpga in
      let disk =
        nfs_disk_info_update-DiskShown p local ans.disk s.fpga bank mapped served.2 served.3 in
      let s' = record s { fpga = fpga } in
      IsDone-then (temp_v_info_updata (metered k) p ans s')
        (λ t. done (record t { fpga = check_nfs_status p ans.nfsd_found t.fpga })) _ _
        (temp_v_info_updata-IsUpdated k p ans s' disk.after local disk.mapped served.0 served.1
          client ten)
        (λ t u. (
          u.0,
          u.1,
          IsRound-join ans t.values bank fpga t.fpga _ disk u.2
              (nfs_status_bank p local ans.nfsd_found t.fpga u.2.after u.2.mapped),
        ))

  -- The state that a round needs, and leaves.
  abbrev pub IsReady : App (Meter E) → Type 0
  IsReady s =
      ((c : ℕ) × (s.world.new_client ≡ some c))
      × ((bank : Bank) × (s.fpga.guip_fpga ≡ some bank))
      × (length s.values ≡ 10)

  -- However many rounds are run from a driver with its client, a mapped bank and an array of ten values, while their
  -- calls succeed none faults or ends the process, `n` rounds
  -- make at most 62 n transfers, and the state is fit for a next round.
  pub rounds_go_on :
      (answers : List Answers) (s : App (Meter E))
      → AreServed answers
      → IsReady s
      → IsDone
          (rounds (metered k) p answers s)
          (λ t. IsReady t × (t.world.bus.transfers ≤ s.world.bus.transfers + 62 * length answers))
  unfolding rounds
  rounds_go_on [] s served ready = (ready, omega arith)
  rounds_go_on (ans ∷ rest) s (served, more) ((c, client), (bank, mapped), ten) =
      IsDone-then (round (metered k) p ans s) (λ t. rounds (metered k) p rest t) _ _
        (round-IsRound ans s bank served mapped client ten)
        (λ t u.
          IsDone-mono (rounds (metered k) p rest t) _ _
            (rounds_go_on rest t more (u.0.1, (u.2.after, u.2.mapped), u.1.0))
            (λ v q. (q.0, omega (arith, q.1, u.0.0))))
