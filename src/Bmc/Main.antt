-- ===== src/Bmc/Main.antt =====
-- `main` of app/bmc/ibmc.c: open the FPGA, configure the network, and run the rounds.
use powerpc_i2c_temp.Prelude.{
  ℕ, ◌/◌, ◌%◌, ◌^◌, ◌<◌, ◌≡◌, ◌≢◌, ap, ◌∙◌, true, false, Bool, some, List, [], length,
  if◌then◌else◌,
}
use powerpc_i2c_temp.Prelude.Int.{pos, negsuc, ltb_ℤ}
use powerpc_i2c_temp.Fpga.{Bank}
use powerpc_i2c_temp.I2c.{Adapter}
use powerpc_i2c_temp.Ltc2991.Polling.{Meter, metered}
use powerpc_i2c_temp.Bmc.Registers.{Process}
use powerpc_i2c_temp.Bmc.Net.{Sockets, bmc_auto_config_eth}
use powerpc_i2c_temp.Bmc.NetLaws.{watched}
use powerpc_i2c_temp.Bmc.AutoConfig.{IsConfigured, bmc_auto_config_eth-IsConfigured}
use powerpc_i2c_temp.Bmc.Updates.{Answers, App, Outcome, exited, rounds}
use powerpc_i2c_temp.Bmc.Panel.{IsDone}
use powerpc_i2c_temp.Bmc.Rounds.{IsDone-mono, AreServed, IsReady, rounds_go_on}

-- `opened` tells whether the FPGA's device file was opened; without it `main` returns. The result of
-- `bmcAutoConfigEth` is only reported. The loop is run for as many rounds as `answers` has.
unfoldable pub ibmc_main :
    {E S : Type 0}
    → Adapter E
    → Process
    → Sockets S
    → Bool
    → ℕ × ℕ × ℕ
    → List Answers
    → App E
    → S
    → Outcome (App E) × S
ibmc_main k p net opened (uninit, x, y) answers s n =
    let (_, fpga, n') = bmc_auto_config_eth net p uninit x y s.fpga n in
    if opened then (rounds k p answers (record s { fpga = fpga }), n') else (exited, n)

module _ {E S : Type 0} (k : Adapter E) (p : Process) (local : p.local_addr ≢ 0) (net : Sockets S)
    (n : S) (socket : (net.socket n).0 ≢ negsuc 0) where
  -- On a card whose FPGA is open, mapped and readable and whose bus driver has its client, and with a socket,
  -- `main` asks for the address of its slot and then goes round and round: for any number of rounds whose calls succeed it
  -- neither faults nor exits.
  pub ibmc_main_goes_on :
      (uninit x y : ℕ) (answers : List Answers) (s : App (Meter E)) (bank : Bank) {c : ℕ}
      → s.fpga.guip_fpga ≡ some bank
      → s.world.new_client ≡ some c
      → length s.values ≡ 10
      → ltb_ℤ (p.unreturned s.fpga) (pos 0) ≡ false
      → bank 4 < 2 ^ 32
      → AreServed answers
      → let (o, l) =
          ibmc_main
            (metered k)
            p
            (watched net)
            true
            (uninit, x, y)
            answers
            s
            (record { state = n; log = [] }) in
        IsDone o (IsReady k p local) × IsConfigured net n socket (bank 4 / 2 ^ 24 % 2 ^ 7) l.log
  unfolding ibmc_main
  ibmc_main_goes_on uninit x y answers s bank {c} mapped client ten ok word served =
      let call =
        bmc_auto_config_eth (watched net) p uninit x y s.fpga (record { state = n; log = [] }) in
      let (_, kept, configured) =
        bmc_auto_config_eth-IsConfigured net n socket p uninit x y s.fpga bank local mapped ok
          word in
      (
        IsDone-mono (rounds (metered k) p answers (record s { fpga = call.1 })) _ _
            (rounds_go_on k p local answers (record s { fpga = call.1 }) served
              ((c, client), (bank, ap (λ f. f.guip_fpga) kept ∙ mapped), ten))
            (λ t q. q.0),
        configured,
      )
