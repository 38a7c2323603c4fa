-- ===== src/I2c/Lifecycle.antt =====
-- The life of the character device: what `lct2991_probe` and `lct2991_remove` leave behind.
use powerpc_i2c_temp.Prelude.{ℕ, ◌≡◌, ◌⊎◌, none, some, true, false, arith}
use powerpc_i2c_temp.Prelude.Int.{pos}
use powerpc_i2c_temp.I2c.Kernel.{World}
use powerpc_i2c_temp.I2c.Driver.{CharDevices, is_error, lct2991_probe, lct2991_remove}

-- `lct2991_probe` on a driver that holds nothing either returns 0, with the device live under the
-- number that it holds, or returns an error and holds nothing; the client is taken in both cases.
pub probe_outcomes :
    {E : Type 0} (os : CharDevices) (client : ℕ) (w : World E)
    → w.region ≡ none
    → w.cdev_live ≡ false
    → let (ret, v) = lct2991_probe os client w in
      (v.new_client ≡ some client)
      × (((ret ≡ pos 0) × (v.cdev_live ≡ true) × (v.region ≡ some v.devno))
          ⊎ ((is_error ret ≡ true) × (v.cdev_live ≡ false) × (v.region ≡ none)))
unfolding lct2991_probe
probe_outcomes os client w free idle = ground arith

-- A remove after a probe, whatever the kernel answered, gives back the device and its number, and returns
-- 0; the removed client stays in `new_client`, so that later transfers still use it.
pub remove-probe :
    {E : Type 0} (os : CharDevices) (client : ℕ) (w : World E)
    → let (ret, v) = lct2991_remove (lct2991_probe os client w).1 in
      (ret ≡ pos 0) × (v.cdev_live ≡ false) × (v.region ≡ none) × (v.new_client ≡ some client)
unfolding lct2991_probe lct2991_remove
remove-probe os client w = ground arith
