-- ===== src/Tests/Loop.antt =====
-- The connection loop at concrete inputs.
use maiccu.Base.{some, codes, ◌≡◌, refl, true, false, List, [], ◌∷◌}
use maiccu.Gogoc.Redirect.{Broker, Brokers, cant_open_file, fqdn, ipv6}
use maiccu.Gogoc.Session.{evnt_broker_redirection, err_fail_socket_connect}
use maiccu.Gogoc.Loop.{
  Settings, Loop, Outcome, again, v6anyv4, ways, choose_version, choose_cycle, choose, is_quick,
  format_address, try_brokers, is_nil, next_broker, connect_failed, after, pause, paused, turn,
  turns, start,
}
use maiccu.Gogoc.Loop.Tried.{Safe, turns-start}
use maiccu.Gogoc.Loop.Delay.{Waits, connect_failed-Waits}

abbrev settings : Settings
settings = record {
  mode = v6anyv4;
  auto_retry_connect = true;
  boot_mode = false;
  read_last_server = false;
  has_broker_list_file = true;
  retry_delay = 30;
  retry_delay_max = 300;
  original_server = codes "broker.example";
}

abbrev brokers : List Broker
brokers =
    record { address = codes "near.example"; distance = 20; address_type = fqdn }
    ∷ record { address = codes "2001:db8::1"; distance = 90; address_type = ipv6 }
    ∷ []

abbrev no_file : Brokers
no_file = record { status = cant_open_file; list = [] }

abbrev redirected : Outcome
redirected = record {
  status = evnt_broker_redirection;
  redirected = brokers;
  memory = true;
  file = no_file;
}

abbrev unreached : Outcome
unreached = record {
  status = err_fail_socket_connect;
  redirected = [];
  memory = true;
  file = no_file;
}

abbrev outcomes : List Outcome
outcomes = redirected ∷ unreached ∷ unreached ∷ []

-- The second broker is tried after the first has failed with both transports.
second_tried :
    turns settings outcomes (start true (some (codes "broker.example")) [])
    ≡ again (record {
      version_index = 0;
      cycle = 0;
      tsp_version_fallback = false;
      trying_original_server = false;
      trying_broker_list = true;
      broker_list = brokers;
      current_broker_in_list =
          record { address = codes "2001:db8::1"; distance = 90; address_type = ipv6 } ∷ [];
      server = some (codes "[2001:db8::1]");
      consec_retry = 1;
      effective_retry_delay = 30;
    })
unfolding turns turn start ways choose choose_version choose_cycle is_quick format_address
    try_brokers next_broker is_nil connect_failed after paused pause
second_tried = refl

turns-start_example :
    Safe settings
      (some (codes "broker.example"))
      (turns settings outcomes (start true (some (codes "broker.example")) []))
turns-start_example =
    turns-start settings outcomes true (some (codes "broker.example")) [] (λ set. (true, refl))

-- A client whose delay has grown.
abbrev waiting_long : Loop
waiting_long = record (start true (some (codes "broker.example")) []) {
  consec_retry = 6;
  effective_retry_delay = 120;
  cycle = 1;
}

-- The file of brokers cannot be read: the client pauses for 30 seconds.
connect_failed-Waits_example :
    Waits settings (connect_failed settings true no_file false waiting_long)
connect_failed-Waits_example = connect_failed-Waits settings true no_file false waiting_long refl
