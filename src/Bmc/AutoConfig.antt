-- ===== src/Bmc/AutoConfig.antt =====
-- `bmcAutoConfigEth` as a whole: from the register of the FPGA to the requests of the socket layer.
use powerpc_i2c_temp.Prelude.{
  ℕ, ◌-◌, ◌/◌, ◌%◌, ◌^◌, ◌<◌, ◌≡◌, ◌≢◌, refl, ap, ◌∙◌, arith, none, some, Option, List, [], bit_and,
  false,
}
use powerpc_i2c_temp.Prelude.Int.{ℤ, pos, negsuc, ltb_ℤ}
use powerpc_i2c_temp.Prelude.Bits.{bit_and_mask, bit_and_byte}
use powerpc_i2c_temp.Prelude.Word.{u8, ◌>>>◌}
use powerpc_i2c_temp.Fpga.{Fpga, Bank}
use powerpc_i2c_temp.Bmc.Registers.{Process, fpga_reg_read, fpga_position_reg}
use powerpc_i2c_temp.Bmc.RegisterLaws.{reg_read_mapped, reg_unmapped}
use powerpc_i2c_temp.Bmc.Slot.{vpx3_ssd1_get_slot_info, slot_ip, default_ip}
use powerpc_i2c_temp.Bmc.Address.{IsAddressOf, slot_ip-IsAddressOf}
use powerpc_i2c_temp.Bmc.Net.{
  Request, Sockets, plan, eth1, default_mask, default_gateway, c_text, bmc_auto_config_eth,
}
use powerpc_i2c_temp.Bmc.NetLaws.{watched, Requested, ip_auto_set-Requested}

-- The slot register is the highest byte of the word.
highest_byte : (v : ℕ) → v < 2 ^ 32 → u8 (bit_and v 0xFF000000 >>> 24) ≡ v / 2 ^ 24
highest_byte v h = omega (
  arith,
  bit_and_byte v 0xFF000000,
  bit_and_byte (v / 256) 0xFF0000,
  bit_and_byte (v / 256 / 256) 0xFF00,
  bit_and_mask 8 (v / 256 / 256 / 256),
)

slot_info_of_read :
    (p : Process) (uninit v : ℕ) (status : ℤ) (f : Fpga)
    → fpga_reg_read p fpga_position_reg uninit f ≡ (status, v, f)
    → v < 2 ^ 32
    → vpx3_ssd1_get_slot_info p uninit f ≡ (v / 2 ^ 24, f)
unfolding vpx3_ssd1_get_slot_info
slot_info_of_read p uninit v status f e h = rw e (ap (λ x. (x, f)) (highest_byte v h))

module _ {S : Type 0} (net : Sockets S) (s : S) (socket : (net.socket s).0 ≢ negsuc 0) where
  -- The four requests for "eth1" were made, up to the first that the socket layer refuses, with the address of slot `n`.
  abbrev pub IsConfigured : ℕ → List Request → Type 0
  IsConfigured n log =
      (ip : List ℕ) × IsAddressOf n (some ip)
      × ((ret : ℤ) × Requested net (plan net eth1 (c_text ip) default_mask default_gateway)
            (net.socket s).1 [] ret log)

  config_of_slot :
      (p : Process) (uninit x y reg n : ℕ) (f : Fpga) (o : Option (List ℕ))
      → vpx3_ssd1_get_slot_info p uninit f ≡ (reg, f)
      → slot_ip reg (default_ip x y) ≡ o
      → IsAddressOf n o
      → let (ret, f', l) =
          bmc_auto_config_eth (watched net) p uninit x y f (record { state = s; log = [] }) in
        (ret ≡ none) × (f' ≡ f) × IsConfigured n l.log
  unfolding bmc_auto_config_eth
  config_of_slot p uninit x y reg n f none info slot address = absurd address
  config_of_slot p uninit x y reg n f (some ip) info slot address =
      rw (info, bmc_auto_config_eth, slot)
        (
          refl,
          ap (λ r. r.1) info,
          (
            ip,
            address,
            (_, ip_auto_set-Requested net eth1 (c_text ip) default_mask default_gateway s socket),
          ),
        )

  config_of_read :
      (p : Process) (uninit x y v : ℕ) (status : ℤ) (f : Fpga)
      → fpga_reg_read p fpga_position_reg uninit f ≡ (status, v, f)
      → v < 2 ^ 32
      → let (ret, f', l) =
          bmc_auto_config_eth (watched net) p uninit x y f (record { state = s; log = [] }) in
        (ret ≡ none) × (f' ≡ f) × IsConfigured (v / 2 ^ 24 % 2 ^ 7) l.log
  config_of_read p uninit x y v status f e h =
      config_of_slot p uninit x y (v / 2 ^ 24) (v / 2 ^ 24 % 2 ^ 7) f _
        (slot_info_of_read p uninit v status f e h) refl
        (slot_ip-IsAddressOf (v / 2 ^ 24) x y (omega arith))

  -- Where a socket is granted and the position register can be read, `bmcAutoConfigEth` asks to configure
  -- "eth1" with the address of the slot, 192.168.1.n for the number n in bits 24 to 30 of the register,
  -- and with the default mask and gateway: all four requests where the socket layer grants them, and else those up to the first
  -- that it refuses. It leaves the FPGA as it was and ends without a return value.
  pub bmc_auto_config_eth-IsConfigured :
      (p : Process) (uninit x y : ℕ) (f : Fpga) (bank : Bank)
      → p.local_addr ≢ 0
      → f.guip_fpga ≡ some bank
      → ltb_ℤ (p.unreturned f) (pos 0) ≡ false
      → bank 4 < 2 ^ 32
      → let (ret, f', l) =
          bmc_auto_config_eth (watched net) p uninit x y f (record { state = s; log = [] }) in
        (ret ≡ none) × (f' ≡ f) × IsConfigured (bank 4 / 2 ^ 24 % 2 ^ 7) l.log
  bmc_auto_config_eth-IsConfigured p uninit x y f bank local mapped ok h =
      config_of_read p uninit x y (bank 4) (pos 0) f
        (reg_read_mapped p local fpga_position_reg uninit f bank mapped ∙ rw ok refl) h

  -- Where the FPGA is not mapped the read fails, and `bmcAutoConfigEth` asks to configure "eth1" all the same,
  -- with the address of slot 127, if a socket is granted.
  pub bmc_auto_config_eth_unmapped :
      (p : Process) (uninit x y : ℕ) (f : Fpga)
      → p.local_addr ≢ 0
      → f.guip_fpga ≡ none
      → let (ret, f', l) =
          bmc_auto_config_eth (watched net) p uninit x y f (record { state = s; log = [] }) in
        (ret ≡ none) × (f' ≡ f) × IsConfigured 127 l.log
  bmc_auto_config_eth_unmapped p uninit x y f local missing =
      config_of_read p uninit x y (2 ^ 32 - 1) (negsuc 0) f
        (reg_unmapped p local fpga_position_reg uninit f missing).1 (omega arith)
