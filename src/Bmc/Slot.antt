-- ===== src/Bmc/Slot.antt =====
-- `vpx3Ssd1GetSlotInfo`, and in `bmcAutoConfigEth` the address that it makes of the slot.
use powerpc_i2c_temp.Prelude.{
  ℕ, ◌+◌, ◌/◌, ◌%◌, ◌==◌, leb, bit_and, if◌then◌else◌, Option, none, some, List, [], ◌∷◌, set,
}
use powerpc_i2c_temp.Prelude.Word.{u8, ◌<<<◌, ◌>>>◌}
use powerpc_i2c_temp.Fpga.{Fpga}
use powerpc_i2c_temp.Bmc.Registers.{Process, fpga_reg_read, fpga_position_reg}

-- A failed read is reported, and the value that it left is used.
unfoldable pub vpx3_ssd1_get_slot_info : Process → ℕ → Fpga → ℕ × Fpga
vpx3_ssd1_get_slot_info p uninit s =
    let (_, reg_value, s') = fpga_reg_read p fpga_position_reg uninit s in
    (u8 (bit_and reg_value 0xFF000000 >>> 24), s')

-- "192.168.1.251" with its 0, and the `x` and `y` that stand behind it in memory: `memcpy` takes 16 bytes
-- of a text of 14. The last byte is set to 0.
abbrev pub default_ip : ℕ → ℕ → List ℕ
default_ip x y =
    b'1' ∷ b'9' ∷ b'2' ∷ b'.' ∷ b'1' ∷ b'6' ∷ b'8' ∷ b'.' ∷ b'1' ∷ b'.' ∷ b'2' ∷ b'5' ∷ b'1' ∷ 0 ∷ x
    ∷ y ∷ 0 ∷ []

abbrev pub ip_addr_4_offset : ℕ
ip_addr_4_offset = 10

-- `(ucDeviceId << 0x5) + ucSlotId`, with the two fields of the slot register.
abbrev pub slot_number : ℕ → ℕ
slot_number reg = u8 (bit_and reg 0x60 >>> 5) <<< 5 + u8 (bit_and reg 0x1f)

abbrev pub write_three : ℕ → List ℕ → List ℕ
write_three v ip =
    set
      (set
        (set (set ip ip_addr_4_offset (u8 (v / 100 + b'0'))) (ip_addr_4_offset + 1)
          (u8 (v % 100 / 10 + b'0')))
        (ip_addr_4_offset + 2) (u8 (v % 100 % 10 + b'0')))
      (ip_addr_4_offset + 3) 0

abbrev pub write_two : ℕ → List ℕ → List ℕ
write_two v ip =
    set
      (set (set ip ip_addr_4_offset (u8 (v / 10 + b'0'))) (ip_addr_4_offset + 1)
        (u8 (v % 10 + b'0')))
      (ip_addr_4_offset + 2) 0

abbrev pub write_one : ℕ → List ℕ → List ℕ
write_one v ip = set (set ip ip_addr_4_offset (u8 (v + b'0'))) (ip_addr_4_offset + 1) 0

-- The `if (ucValue / 100)` chain.
unfoldable pub write_octet : ℕ → List ℕ → List ℕ
write_octet v ip =
    if v / 100 == 0
    then (if v / 10 == 0 then write_one v ip else write_two v ip)
    else write_three v ip

-- `none` is the refusal of a number above 255.
unfoldable pub slot_ip : ℕ → List ℕ → Option (List ℕ)
slot_ip reg ip =
    if leb (slot_number reg) 255 then some (write_octet (u8 (slot_number reg)) ip) else none
