-- ===== src/Tests/Card.antt =====
-- Runs of the FPGA driver and of the board management process.
use powerpc_i2c_temp.Prelude.{
  ℕ, ◌/◌, ◌+◌, ◌*◌, ◌%◌, ◌^◌, ◌≤◌, ◌≡◌, ◌≢◌, refl, arith, none, some, true, ◌==◌, if◌then◌else◌,
  List, [], ◌∷◌, set,
}
use powerpc_i2c_temp.Prelude.Int.{pos, negsuc}
use powerpc_i2c_temp.Prelude.Word.{u32}
use powerpc_i2c_temp.Ltc2991.Polling.{Meter, metered}
use powerpc_i2c_temp.Sensor.{initial_values}
use powerpc_i2c_temp.Sensor.Sampling.{Sampled}
use powerpc_i2c_temp.Bmc.{
  fpga_reg_read, fpga_reg_write, slot_ip, default_ip, SockAddr, Ifreq, siocsifaddr, siocsifnetmask,
  siocsifflags, siocaddrt, strncpy, ip_auto_set, bmc_auto_config_eth, eth1, default_mask,
  default_gateway, Statfs, Answers, App, temp_v_info_updata, round, rounds,
}
use powerpc_i2c_temp.Bmc.RegisterLaws.{word_of, read-write}
use powerpc_i2c_temp.Bmc.Address.{IsAddressOf, slot_ip-IsAddressOf}
use powerpc_i2c_temp.Bmc.NetLaws.{Requested, watched, ip_auto_set-Requested}
use powerpc_i2c_temp.Bmc.AutoConfig.{IsConfigured, bmc_auto_config_eth-IsConfigured}
use powerpc_i2c_temp.Bmc.Main.{ibmc_main, ibmc_main_goes_on}
use powerpc_i2c_temp.Bmc.Panel.{Exchanged, IsDone, IsUpdated, temp_v_info_updata-IsUpdated}
use powerpc_i2c_temp.Bmc.Rounds.{IsRound, IsReady, round-IsRound, rounds_go_on}
use powerpc_i2c_temp.Tests.Bench.{steady, probed, process, mapped, no_route}

local : process.local_addr ≢ 0
local e = omega arith

no_route_socket : (no_route.socket 0).0 ≢ negsuc 0
no_route_socket e = ground arith

read-write_example :
    let (status, s') = fpga_reg_write process 0xa0 0x100000005 (mapped 7) in
    (status ≡ pos 0)
    × (fpga_reg_read process 0xa3 9 s'
        ≡ (pos 0, if word_of 0xa0 == word_of 0xa3 then u32 0x100000005 else 7, s'))
read-write_example =
    read-write process 0xa0 0xa3 0x100000005 9 (mapped 7) (λ o. 7) local refl (λ t. refl)

-- Slot register 0x74, the value in the source's comment: "192.168.1.116".
slot_ip-IsAddressOf_example : IsAddressOf (0x74 % 2 ^ 7) (slot_ip 0x74 (default_ip 3 4))
slot_ip-IsAddressOf_example = slot_ip-IsAddressOf 0x74 3 4 (omega arith)

-- Bit 7 of the register is the parity, and does not change the address.
abbrev address_of_21 : List ℕ
address_of_21 = set (set (set (default_ip 3 4) 10 b'2') 11 b'1') 12 0

ip_auto_set-Requested_example :
    let (ret, l) =
      ip_auto_set
        (watched no_route)
        (some eth1)
        (some default_gateway)
        default_mask
        (some default_gateway)
        (record { state = 0; log = [] }) in
    let name = set (strncpy 16 eth1) 15 0 in
    let inet = λ (a : ℕ). let r : SockAddr = record { family = 2; addr = a } in r in
    let if_request =
      λ (a : SockAddr). let r : Ifreq = record { ifr_name = name; ifr_addr = a } in r in
    Requested no_route
      (siocsifaddr (if_request (inet 0xc0a80105))
        ∷ siocsifnetmask (if_request (inet 0xc0a80105))
        ∷ siocaddrt (record {
          rt_dst = inet 0;
          rt_gateway = inet 0xc0a80105;
          rt_genmask = inet 0;
          rt_dev = eth1;
          rt_flags = 3;
        })
        ∷ siocsifflags (if_request (record { family = 0x43; addr = 0xc0a80105 }))
        ∷ [])
      (no_route.socket 0).1
      []
      ret
      l.log
ip_auto_set-Requested_example =
    ip_auto_set-Requested no_route eth1 default_gateway default_mask default_gateway 0
      (λ e. ground arith)

abbrev disk : Statfs
disk = record { f_bsize = 4096; f_blocks = 30000000; f_bavail = 20000000 }

abbrev answers : Answers
answers = record { disk = disk; opened = true; uncopied = 0; partial = []; nfsd_found = true }

abbrev app : App (Meter ℕ)
app = record {
  world = probed (record { state = 0; transfers = 0; slept = 0 });
  values = initial_values;
  fpga = mapped 9;
}

temp_v_info_updata-IsUpdated_example :
    IsDone (temp_v_info_updata (metered steady) process answers app) (λ t.
      Exchanged 62 app.world t.world × Sampled steady t.values × IsUpdated t.values (λ o. 9) t.fpga)
temp_v_info_updata-IsUpdated_example =
    temp_v_info_updata-IsUpdated steady process answers app (λ o. 9) local refl refl refl refl refl

round-IsRound_example : IsDone (round (metered steady) process answers app) (λ t.
    Exchanged 62 app.world t.world
    × Sampled steady t.values
    × IsRound answers t.values (λ o. 9) t.fpga)
round-IsRound_example =
    round-IsRound steady process local answers app (λ o. 9) (refl, refl, omega arith, omega arith)
      refl refl refl

rounds_go_on_example :
    IsDone
      (rounds (metered steady) process (answers ∷ answers ∷ []) app)
      (λ t. IsReady steady process local t × (t.world.bus.transfers ≤ 0 + 62 * 2))
rounds_go_on_example =
    rounds_go_on steady process local (answers ∷ answers ∷ []) app
      ((refl, refl, omega arith, omega arith), ((refl, refl, omega arith, omega arith), tt))
      ((_, refl), (_, refl), refl)

-- The register of slot 0x74 configures 192.168.1.116, and a card without its FPGA 192.168.1.127.
bmc_auto_config_eth-IsConfigured_example :
    let (ret, f', l) =
      bmc_auto_config_eth
        (watched no_route)
        process
        0
        3
        4
        (mapped 0x74000001)
        (record { state = 0; log = [] }) in
    (ret ≡ none)
    × (f' ≡ mapped 0x74000001)
    × IsConfigured no_route 0 no_route_socket (0x74000001 / 2 ^ 24 % 2 ^ 7) l.log
bmc_auto_config_eth-IsConfigured_example =
    bmc_auto_config_eth-IsConfigured no_route 0 no_route_socket process 0 3 4 (mapped 0x74000001)
      (λ o. 0x74000001) local refl refl (omega arith)

abbrev slotted : App (Meter ℕ)
slotted = record app { fpga = mapped 0x74000001 }

ibmc_main_goes_on_example :
    let (o, l) =
      ibmc_main
        (metered steady)
        process
        (watched no_route)
        true
        (0, 3, 4)
        (answers ∷ answers ∷ [])
        slotted
        (record { state = 0; log = [] }) in
    IsDone o (IsReady steady process local)
    × IsConfigured no_route 0 no_route_socket (0x74000001 / 2 ^ 24 % 2 ^ 7) l.log
ibmc_main_goes_on_example =
    ibmc_main_goes_on steady process local no_route 0 no_route_socket 0 3 4 (answers ∷ answers ∷ [])
      slotted (λ o. 0x74000001) refl refl refl refl (omega arith)
      ((refl, refl, omega arith, omega arith), ((refl, refl, omega arith, omega arith), tt))
