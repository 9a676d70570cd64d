-- ===== src/Tests/Upkeep.antt =====
-- The maintenance at concrete inputs.
use maiccu.Base.{true, false, [], ◌++◌, some, refl, inl, arith}
use maiccu.Checksum.{little}
use maiccu.Address.{is_ipv4_global_unicast}
use maiccu.Message.{Net}
use maiccu.Maintain.{Config, Machine, resolve, solicit}
use maiccu.Maintain.Qualify.{IsMachine, Run-IsMachine, start, step, resolves, solicits}
use maiccu.Maintain.Reports.{IsReport, solicit-IsReport}
use maiccu.Tests.{toy_md5, keys_42, remote}

abbrev usual : Config
usual = record {
  qualification_delay = 4;
  qualification_retries = 3;
  refresh_delay = 30;
  restart_delay = 100;
}

abbrev open_net : Net
open_net = λ ip port bs. true

abbrev fresh_machine : Machine
fresh_machine = record {
  state = record { addr = record remote { server_ip = 0 }; mtu = 0; up = false };
  server_ip = 0;
  count = 0;
  deadline = 0;
}

abbrev resolved : Machine
resolved = record fresh_machine {
  state = record { addr = remote; mtu = 0; up = false };
  server_ip = 0x41370001;
  deadline = 5;
}

abbrev upstanding : Machine
upstanding = record resolved { state = record { addr = remote; mtu = 1280; up = true } }

fresh-IsMachine : IsMachine usual fresh_machine
fresh-IsMachine = record { counted = omega arith; served = inl (refl, refl) }

-- The name is resolved, and then an advertisement is waited for in vain.
Run-IsMachine_example :
    IsMachine usual
      (solicit little toy_md5 keys_42 usual open_net
        (resolve usual fresh_machine (some 0x41370001) 5).machine
        []
        []).machine
unfolding resolve is_ipv4_global_unicast
Run-IsMachine_example =
    Run-IsMachine little toy_md5 keys_42 usual fresh_machine
      (solicit little toy_md5 keys_42 usual open_net
        (resolve usual fresh_machine (some 0x41370001) 5).machine [] []).machine
      ((solicit little toy_md5 keys_42 usual open_net
          (resolve usual fresh_machine (some 0x41370001) 5).machine [] []).reports
        ++ ((resolve usual fresh_machine (some 0x41370001) 5).reports ++ []))
      fresh-IsMachine
      (step (step start (resolves fresh_machine (some 0x41370001) 5 refl)) (
        solicits (resolve usual fresh_machine (some 0x41370001) 5).machine open_net [] []
          (omega arith)))

solicit-IsReport_example :
    IsReport upstanding (solicit little toy_md5 keys_42 usual open_net upstanding [] [])
solicit-IsReport_example = solicit-IsReport little toy_md5 keys_42 usual open_net upstanding [] []
