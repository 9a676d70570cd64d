-- ===== src/Tests/Relay.antt =====
-- The tunnel at concrete inputs.
use maiccu.Base.{
  ℕ, true, false, List, [], ◌∷◌, none, ◌==◌, ◌≡◌, refl, arith, if◌then◌else◌, take, map,
}
use maiccu.Checksum.{little}
use maiccu.Packet.{Packet}
use maiccu.PeerList.{create}
use maiccu.PeerList.Invariant.{create-IsList}
use maiccu.Tunnel.{Tunnel, Host}
use maiccu.Tunnel.Transmit.{transmit}
use maiccu.Tunnel.Receive.{run_inner}
use maiccu.Tunnel.Discipline.{Good, Ends}
use maiccu.Tunnel.Discipline.Transmit.{transmit-Ends}
use maiccu.Tunnel.Discipline.Receive.{run_inner-Ends}
use maiccu.Address.{is_ipv4_global_unicast, read_address, to_bytes, in6_matches_teredo_client}
use maiccu.PeerList.{item_of}
use maiccu.Effect.{sent, delivered, lock, unlock}
use maiccu.Message.{is_bubble}
use maiccu.Tunnel.Delivery.{is_reachable}
use maiccu.Tunnel.Punch.{transmit-run_inner}
use maiccu.Tunnel.Limit.{answers, unreachable, errors_limit}
use maiccu.Tunnel.Delivery.{Each, Justified}
use maiccu.Tunnel.Delivery.Run.{run_inner-Justified}
use maiccu.Tests.{toy_md5, keys_42, remote, to_remote, from_remote, plenty}

abbrev relay : Tunnel
relay = record {
  list = create 1024 30;
  client = false;
  discovery = none;
  params = none;
  state = record { addr = record remote { client_ip = 0; client_port = 0 }; mtu = 0; up = false };
  count = 1;
  last = 0;
}

relay-Good : Good relay
unfolding create
relay-Good = (refl, create-IsList 1024 30 (omega arith))

abbrev host : Host
host = record { now = 1000; net = λ ip port bs. true; memory = plenty; select = λ i. true }

-- A packet of the remote client, from the mapping in its address.
abbrev packet : Packet
packet = record {
  ip6 = from_remote;
  ip6_len = 44;
  source_ipv4 = 0x50000001;
  source_port = 4000;
  orig_port = 0;
  orig_ipv4 = 0;
  dest_ipv4 = 0;
  auth_present = false;
  auth_fail = false;
  auth_nonce = [];
}

transmit-Ends_example : Ends false (transmit little toy_md5 keys_42 relay host to_remote)
transmit-Ends_example = transmit-Ends little toy_md5 keys_42 relay host to_remote relay-Good

-- The relay after it was asked to forward a packet to the remote client.
abbrev waiting : Tunnel
waiting = (transmit little toy_md5 keys_42 relay host to_remote).tunnel

waiting-Good : Good waiting
waiting-Good = (transmit-Ends little toy_md5 keys_42 relay host to_remote relay-Good).1

run_inner-Ends_example : Ends false (run_inner little toy_md5 keys_42 waiting host packet)
run_inner-Ends_example = run_inner-Ends little toy_md5 keys_42 waiting host packet waiting-Good

run_inner-Justified_example :
    Each
      (Justified little toy_md5 keys_42 waiting host packet)
      (run_inner little toy_md5 keys_42 waiting host packet).effects
run_inner-Justified_example =
    run_inner-Justified little toy_md5 keys_42 waiting host packet waiting-Good.1

abbrev three : List (ℕ × List ℕ)
three = (3, to_remote) ∷ (3, to_remote) ∷ (1, to_remote) ∷ []

errors_limit_example :
    answers relay 1000 three
    ≡ map unreachable (take (if relay.last == 1000 then relay.count else 10) three)
errors_limit_example = errors_limit relay 1000 three

-- The remote client answers from the mapping in its address.
transmit-run_inner_example :
    (run_inner little toy_md5 keys_42 waiting host packet).effects
    ≡ lock
      ∷ unlock
      ∷ sent 0x50000001 4000 to_remote
      ∷ (if is_bubble from_remote then [] else delivered from_remote ∷ [])
unfolding create item_of is_reachable is_ipv4_global_unicast read_address to_bytes
    in6_matches_teredo_client
transmit-run_inner_example =
    transmit-run_inner little toy_md5 keys_42 relay host to_remote host packet relay-Good refl refl
      (omega arith) refl refl refl
