-- ===== src/Bmc/Updates.antt =====
-- The periodic work of app/bmc/ibmc.c: `nfsDiskInfoUpdate`, `TempVInfoUpdata`, `check_nfs_status`, and the
-- loop of `main`.
use powerpc_i2c_temp.Prelude.{
  ℕ, zero, suc, ◌+◌, ◌*◌, bit_and, bit_or, ◌==◌, if◌then◌else◌, Option, none, some, List, [], ◌∷◌,
  get_or, Bool,
}
use powerpc_i2c_temp.Prelude.Word.{u32, u64, to_u32, ◌<<<◌, ◌>>>◌}
use powerpc_i2c_temp.I2c.{Adapter, World}
use powerpc_i2c_temp.Sensor.{
  SensorInfo, ReadResult, no_value, negative, sensor_read, sensor_temp_total, sensor_v_max_num,
}
use powerpc_i2c_temp.Fpga.{Fpga}
use powerpc_i2c_temp.Bmc.Registers.{
  Process, fpga_reg_write, fpga_temp0_reg, fpga_volt0_reg, fpga_total_disk_info_reg,
  fpga_available_disk_info_reg, fpga_sys_run_status_reg,
}

-- The fields of `struct statfs` that are used, each converted to `unsigned long long`.
pub record Statfs : Type 0 where
  pub f_bsize : ℕ
  pub f_blocks : ℕ
  pub f_bavail : ℕ

-- A size in bytes, and the same in mebibytes.
abbrev pub bytes_of : ℕ → ℕ → ℕ
bytes_of bsize blocks = u64 (bsize * blocks)

abbrev pub mebibytes : ℕ → ℕ → ℕ
mebibytes bsize blocks = bytes_of bsize blocks >>> 20

-- `hvtemp<<8 | lvtemp`, and for a negative sign `&= 0x8000`.
unfoldable pub vtemp_word : ℕ → SensorInfo → ℕ
vtemp_word sign v =
    let word = bit_or (u32 (to_u32 v.hvtemp <<< 8)) (to_u32 v.lvtemp) in
    if sign == negative then bit_and word 0x8000 else word

-- `stasensor_value[index]`
abbrev pub value_at : List SensorInfo → ℕ → SensorInfo
value_at values index = get_or values index no_value

module _ (p : Process) where
  -- `statfs` fills the structure, or leaves it as it was; its result is not read.
  unfoldable pub nfs_disk_info_update : Statfs → Fpga → Fpga
  nfs_disk_info_update disk s =
      let (_, s') =
        fpga_reg_write p fpga_total_disk_info_reg (mebibytes disk.f_bsize disk.f_blocks) s in
      (fpga_reg_write p fpga_available_disk_info_reg (mebibytes disk.f_bavail disk.f_bsize) s').1

  -- The two loops, with `left` rounds to go.
  unfoldable pub write_temps : ℕ → ℕ → List SensorInfo → Fpga → Fpga
  write_temps zero index values s = s
  write_temps (suc left) index values s =
      let v = value_at values index in
      write_temps left (index + 1) values
        (fpga_reg_write p (fpga_temp0_reg + index * 4) (vtemp_word v.sign v) s).1

  -- The sign that is tested is that of entry `index`, not of entry `index + 4`.
  unfoldable pub write_volts : ℕ → ℕ → List SensorInfo → Fpga → Fpga
  write_volts zero index values s = s
  write_volts (suc left) index values s =
      let v = value_at values (index + sensor_temp_total) in
      write_volts left (index + 1) values
        (fpga_reg_write p (fpga_volt0_reg + index * 4) (vtemp_word (value_at values index).sign v)
          s).1

  -- `found` tells whether `fgets` read a line of the process list with `nfsd` in it.
  unfoldable pub check_nfs_status : Bool → Fpga → Fpga
  check_nfs_status found s = (fpga_reg_write p fpga_sys_run_status_reg (if found then 1 else 0) s).1

-- The process with the modules that it calls.
pub record App (E : Type 0) : Type 0 where
  pub world : World E
  pub values : List SensorInfo
  pub fpga : Fpga

-- How an update ends: the kernel dereferences a null pointer, the process exits, or it goes on.
pub data Outcome (A : Type 0) : Type 0 where
  oops exited : Outcome A
  done : A → Outcome A

-- What the calls of one round answer. `partial` is the process's array after a copy that failed.
pub record Answers : Type 0 where
  pub disk : Statfs
  pub opened : Bool
  pub uncopied : ℕ
  pub partial : List SensorInfo
  pub nfsd_found : Bool

-- The rest of `TempVInfoUpdata` after the `read`: both loops run on what the array then holds.
unfoldable pub deliver :
    {E : Type 0} → Process → Answers → App E → Option (ReadResult × World E) → Outcome (App E)
deliver p ans s none = oops
deliver p ans s (some (r, world)) =
    let values : List SensorInfo = elim r.buffer [ none ↦ ans.partial | some b ↦ b ] in
    let fpga =
      write_volts p sensor_v_max_num 0 values (write_temps p sensor_temp_total 0 values s.fpga) in
    done (record { world = world; values = r.values; fpga = fpga })

module _ {E : Type 0} (k : Adapter E) (p : Process) where
  unfoldable pub temp_v_info_updata : Answers → App E → Outcome (App E)
  temp_v_info_updata ans s =
      if ans.opened then deliver p ans s (sensor_read k ans.uncopied s.values s.world) else exited

  -- One turn of the endless loop of `main`, without the sleep of five seconds at its head.
  unfoldable pub round : Answers → App E → Outcome (App E)
  round ans s =
      let s' = record s { fpga = nfs_disk_info_update p ans.disk s.fpga } in
      elim (temp_v_info_updata ans s') [
        | oops ↦ oops
        | exited ↦ exited
        | done t ↦ done (record t { fpga = check_nfs_status p ans.nfsd_found t.fpga })
      ]

  unfoldable pub rounds : List Answers → App E → Outcome (App E)
  rounds [] s = done s
  rounds (ans ∷ rest) s = elim (round ans s) [
    | oops ↦ oops
    | exited ↦ exited
    | done t ↦ rounds rest t
  ]
