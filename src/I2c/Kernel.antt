-- ===== src/I2c/Kernel.antt =====
-- What the routines of i2c/i2c_ltc2991.c work on: the messages of a transfer, the adapter that carries
-- them out (the kernel's, a parameter here), and the driver's global variables.
use powerpc_i2c_temp.Prelude.{ℕ, Option, none, some, List, Bool}
use powerpc_i2c_temp.Prelude.Int.{ℤ}

-- `struct i2c_msg`; `buf` holds the bytes of the buffer.
pub record Msg : Type 0 where
  pub addr : ℕ
  pub flags : ℕ
  pub len : ℕ
  pub buf : List ℕ

-- `I2C_M_RD`
abbrev pub i2c_m_rd : ℕ
i2c_m_rd = 1

-- The kernel's side, over the state `E` of the bus and of time. `i2c_transfer` gives its return value and
-- the buffers of the messages as it leaves them; `uninit` is what a local variable with no initialiser
-- holds.
pub record Adapter (E : Type 0) : Type 0 where
  pub i2c_transfer : List Msg → E → ℤ × List (List ℕ) × E
  pub msleep : ℕ → E → E
  pub uninit : E → ℕ

-- The globals of the driver with the kernel's record of its device number and of its `cdev`. The client
-- is known by its field `addr`, the only one that the driver writes.
pub record World (E : Type 0) : Type 0 where
  pub new_client : Option ℕ
  pub lct2991_major : ℕ
  pub devno : ℕ
  pub region : Option ℕ
  pub cdev_live : Bool
  pub bus : E

-- A call: `none` is a dereference of the null `new_client`.
abbrev pub M : Type 0 → Type 0 → Type 0
M E A = World E → Option (A × World E)

module _ {E : Type 0} where
  abbrev pub pure : {A : Type 0} → A → M E A
  pure a w = some (a, w)

  infixl 5 ◌>>=◌ ◌>>◌
  abbrev pub ◌>>=◌ : {A B : Type 0} → M E A → (A → M E B) → M E B
  ◌>>=◌ m f w = elim (m w) [ none ↦ none | some (a, w') ↦ f a w' ]

  abbrev pub ◌>>◌ : {B : Type 0} → M E (Unit {0}) → M E B → M E B
  m >> k = m >>= λ _. k

  -- `msleep(ms);`
  unfoldable pub sleep : Adapter E → ℕ → M E (Unit {0})
  sleep k ms w = some (tt, record w { bus = k.msleep ms w.bus })

  -- The value of a local variable with no initialiser.
  unfoldable pub fresh : Adapter E → M E ℕ
  fresh k w = some (k.uninit w.bus, w)

  -- The call returns, with a result and a world of which `P` holds.
  abbrev pub Ensures : {A : Type 0} → Option (A × World E) → (A → World E → Type 0) → Type 0
  Ensures none P = ⊥
  Ensures (some (a, w)) P = P a w

  pub Ensures-bind :
      {A B : Type 0} (m : M E A) (f : A → M E B) (w : World E) (P : A → World E → Type 0)
      (Q : B → World E → Type 0)
      → Ensures (m w) P
      → ((a : A) (v : World E) → P a v → Ensures (f a v) Q)
      → Ensures ((m >>= f) w) Q
  Ensures-bind m f w P Q h g =
      elim (m w)
          as (λ o. Ensures o P → Ensures (elim o [ none ↦ none | some (a, w') ↦ f a w' ]) Q) [
            | none ↦ λ h. h
            | some (a, v) ↦ λ h. g a v h
          ]
        h

  pub Ensures-mono :
      {A : Type 0} (o : Option (A × World E)) (P Q : A → World E → Type 0)
      → Ensures o P
      → ((a : A) (v : World E) → P a v → Q a v)
      → Ensures o Q
  Ensures-mono none P Q h g = h
  Ensures-mono (some (a, v)) P Q h g = g a v h
