-- ===== src/Bmc/Address.antt =====
-- The address that a slot gets: "192.168.1." and the slot number in decimal.
use powerpc_i2c_temp.Prelude.{
  ℕ, zero, suc, ◌+◌, ◌-◌, ◌*◌, ◌/◌, ◌%◌, ◌^◌, ◌≤◌, ◌<◌, ◌≡◌, refl, ap, sym, ◌∙◌, arith, none, some,
  true, List, [], ◌∷◌, ◌++◌, ==_iff, ◌==◌, Bool, ◌&&◌, Option, drop,
}
use native.Mathlib.Decide.{dec_lt}
use powerpc_i2c_temp.Bmc.Slot.{
  slot_number, slot_ip, write_octet, default_ip, write_one, write_two, write_three,
}
use powerpc_i2c_temp.Bmc.Net.{c_text}

-- The value of a run of decimal digits.
abbrev pub decimal : ℕ → List ℕ → ℕ
decimal acc [] = acc
decimal acc (c ∷ s) = decimal (acc * 10 + (c - b'0')) s

abbrev pub network : List ℕ
network = b'1' ∷ b'9' ∷ b'2' ∷ b'.' ∷ b'1' ∷ b'6' ∷ b'8' ∷ b'.' ∷ b'1' ∷ b'.' ∷ []

abbrev pub IsDigit : ℕ → Type 0
IsDigit c = (b'0' ≤ c) × (c ≤ b'9')

abbrev pub AreDigits : List ℕ → Type 0
AreDigits [] = Unit
AreDigits (c ∷ s) = IsDigit c × AreDigits s

-- The register holds the number in its low seven bits. Over a byte, every value is checked.
all_below : ℕ → (ℕ → Bool) → Bool
all_below zero p = true
all_below (suc n) p = p n && all_below n p

all_below_lem : (n : ℕ) (p : ℕ → Bool) (x : ℕ) → all_below n p ≡ true → x < n → p x ≡ true
unfolding all_below
all_below_lem zero p x h l = absurd (omega arith)
all_below_lem (suc n) p x h l = ground (arith, all_below_lem n p x)

slot_table : all_below 256 (λ reg. slot_number reg == reg % 2 ^ 7) ≡ true
unfolding all_below
slot_table = refl

slot_number-mod : (reg : ℕ) → reg < 2 ^ 8 → slot_number reg ≡ reg % 2 ^ 7
slot_number-mod reg h = (==_iff _ _).0 (all_below_lem 256 _ reg slot_table h)

-- The text that each of the three branches leaves.
text_three :
    (v x y : ℕ)
    → 100 ≤ v
    → v < 128
    → c_text (write_three v (default_ip x y))
      ≡ network ++ ((v / 100 + 48) ∷ (v % 100 / 10 + 48) ∷ (v % 100 % 10 + 48) ∷ [])
unfolding c_text
text_three v x y l h = ground arith

text_two :
    (v x y : ℕ)
    → 10 ≤ v
    → v < 100
    → c_text (write_two v (default_ip x y)) ≡ network ++ ((v / 10 + 48) ∷ (v % 10 + 48) ∷ [])
unfolding c_text
text_two v x y l h = ground arith

text_one : (v x y : ℕ) → v < 10 → c_text (write_one v (default_ip x y)) ≡ network ++ ((v + 48) ∷ [])
unfolding c_text
text_one v x y h = ground arith

-- Which branch is taken.
module _ (v : ℕ) (ip : List ℕ) where
  octet_one : v < 10 → write_octet v ip ≡ write_one v ip
  unfolding write_octet
  octet_one h = ground arith

  octet_two : 10 ≤ v → v < 100 → write_octet v ip ≡ write_two v ip
  unfolding write_octet
  octet_two l h = ground arith

  octet_three : 100 ≤ v → v < 256 → write_octet v ip ≡ write_three v ip
  unfolding write_octet
  octet_three l h = ground arith

slot_ip-octet :
    (reg : ℕ) (ip : List ℕ) → reg < 2 ^ 8 → slot_ip reg ip ≡ some (write_octet (reg % 2 ^ 7) ip)
unfolding slot_ip
slot_ip-octet reg ip h = rw (slot_number-mod reg h) (ground arith)

-- What a slot is given: an address whose text is the network and then the digits of the slot number.
abbrev pub IsAddressOf : ℕ → Option (List ℕ) → Type 0
IsAddressOf v none = ⊥
IsAddressOf v (some ip) =
    (digits : List ℕ) × (c_text ip ≡ network ++ digits) × AreDigits digits × (decimal 0 digits ≡ v)

-- Every slot register gives an address: "192.168.1." and the low seven bits in decimal, whatever stands in
-- memory behind the default text.
pub slot_ip-IsAddressOf :
    (reg x y : ℕ) → reg < 2 ^ 8 → IsAddressOf (reg % 2 ^ 7) (slot_ip reg (default_ip x y))
slot_ip-IsAddressOf reg x y h =
    let v = reg % 2 ^ 7 in
    let ip = default_ip x y in
    rw (slot_ip-octet reg ip h) (elim (dec_lt v 10) [
      | yes small ↦ rw (octet_one v ip small) (_, text_one v x y small, omega arith, omega arith)
      | no l ↦ elim (dec_lt v 100) [
        | yes middle ↦
            rw (octet_two v ip (omega arith) middle)
              (_, text_two v x y (omega arith) middle, omega arith, omega arith)
        | no big ↦
            rw (octet_three v ip (omega arith) (omega arith))
              (_, text_three v x y (omega arith) (omega arith), omega arith, omega arith)
      ]
    ])

-- The last part of an address, read back.
abbrev octet : List ℕ → ℕ
octet text = decimal 0 (drop 10 text)

octet_of_IsAddressOf : (v : ℕ) (ip : List ℕ) → IsAddressOf v (some ip) → octet (c_text ip) ≡ v
octet_of_IsAddressOf v ip (digits, text, _, value) = ap octet text ∙ value

-- Cards whose slot registers differ in the low seven bits get different addresses.
pub slot_ip_injective :
    (reg reg' x y x' y' : ℕ) (ip ip' : List ℕ)
    → reg < 2 ^ 8
    → reg' < 2 ^ 8
    → slot_ip reg (default_ip x y) ≡ some ip
    → slot_ip reg' (default_ip x' y') ≡ some ip'
    → c_text ip ≡ c_text ip'
    → reg % 2 ^ 7 ≡ reg' % 2 ^ 7
slot_ip_injective reg reg' x y x' y' ip ip' h h' e e' same =
    sym (octet_of_IsAddressOf _ ip (rw e at (slot_ip-IsAddressOf reg x y h)))
    ∙ ap octet same
    ∙ octet_of_IsAddressOf _ ip' (rw e' at (slot_ip-IsAddressOf reg' x' y' h'))
