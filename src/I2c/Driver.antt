-- ===== src/I2c/Driver.antt =====
-- `lct2991_probe`, `lct2991_remove` and the file operations of the character device. The kernel's answers
-- are a parameter.
use powerpc_i2c_temp.Prelude.{ℕ, ◌+◌, none, some, Bool, true, false, if◌then◌else◌, ◌==◌}
use powerpc_i2c_temp.Prelude.Int.{ℤ, pos, negsuc}
use powerpc_i2c_temp.Prelude.Word.{◌<<<◌, ◌>>>◌}
use powerpc_i2c_temp.I2c.Kernel.{World}

-- What the kernel answers to each request, by the device number: 0, or a negative error. An allocated
-- number comes beside the answer.
pub record CharDevices : Type 0 where
  pub register_chrdev_region : ℕ → ℕ → ℤ
  pub alloc_chrdev_region : ℕ → ℕ → ℤ × ℕ
  pub cdev_add : ℕ → ℕ → ℤ

-- `MKDEV` and `MAJOR`
abbrev pub mkdev : ℕ → ℕ → ℕ
mkdev ma mi = ma <<< 20 + mi

abbrev pub lct2991_minor : ℕ
lct2991_minor = 222

abbrev pub number_of_devices : ℕ
number_of_devices = 1

-- `if (ret)`
abbrev pub is_error : ℤ → Bool
is_error (pos n) = if n == 0 then false else true
is_error (negsuc _) = true

-- The device file does nothing: `open`, `read`, `write` and `release` return 0.
pub data FileOp : Type 0 where
  open_file read_file write_file release_file : FileOp

pub lct2991_file_op : FileOp → ℤ
lct2991_file_op op = pos 0

module _ {E : Type 0} (os : CharDevices) where
  -- The fixed major number is registered, or one is allocated where it is 0. The kernel writes the
  -- number only if it grants it.
  request_region : World E → ℤ × World E
  request_region w =
      if w.lct2991_major == 0
      then (let (ret, granted) = os.alloc_chrdev_region 0 number_of_devices in
          let devno = if is_error ret then w.devno else granted in
          (
            ret,
            record w {
              lct2991_major = devno >>> 20;
              devno = devno;
              region = if is_error ret then w.region else some granted;
            },
          ))
      else (let ret = os.register_chrdev_region w.devno number_of_devices in
          (ret, record w { region = if is_error ret then w.region else some w.devno }))

  -- `cdev_add`, with the label `err_cdev_add`.
  add_cdev : World E → ℤ × World E
  add_cdev w =
      let ret = os.cdev_add w.devno number_of_devices in
      (ret, if is_error ret then record w { region = none } else record w { cdev_live = true })

  unfoldable pub lct2991_probe : ℕ → World E → ℤ × World E
  unfolding request_region add_cdev
  lct2991_probe client w =
      let w' = record w { new_client = some client; devno = mkdev w.lct2991_major lct2991_minor } in
      let (ret, w'') = request_region w' in
      if is_error ret
      then (ret, w'')
      else (let (ret', v) = add_cdev w'' in if is_error ret' then (ret', v) else (pos 0, v))
  -- `cdev_del` and `unregister_chrdev_region`; `new_client` keeps its value.

unfoldable pub lct2991_remove : {E : Type 0} → World E → ℤ × World E
lct2991_remove w = (pos 0, record w { cdev_live = false; region = none })
