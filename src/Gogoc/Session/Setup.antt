-- ===== src/Gogoc/Session/Setup.antt =====
-- gogoc/gogoc-tsp/src/tsp/tsp_client.c: `tspTunnelNegotiation` and `tspSetupTunnel`.
use Prim.Native.Nat.{bit_and}
use mathlib.Core.List.{map}
use maiccu.Base.{ℕ, Bool, true, false, not, ◌&&◌, List, [], ◌∷◌, ◌++◌, ◌==◌, if◌then◌else◌}
use maiccu.Base.Text.{atoi}
use maiccu.Gogoc.Redirect.{Broker}
use maiccu.Gogoc.Session.{
  GogocStatus, tsp_protocol_success, Net, Phase, Conf, Env, is_redirect, redirect, get_capabilities,
  success, err_socket_io, err_fail_socket_connect, err_tsp_generic_error, err_tunmode_not_available,
  err_memory_starvation, waiting, fault, failed, got,
}
use maiccu.Gogoc.Session.Authenticate.{authenticate}

-- The acknowledgement, which is part of what was said.
unfoldable pub acknowledged : List (List ℕ) → List Net → List Broker → Phase
acknowledged said [] brokers = record { status = waiting; said = said; net = []; brokers = brokers }
acknowledged said (failed ∷ rest) brokers = record {
  status = err_socket_io;
  said = said;
  net = rest;
  brokers = brokers;
}
acknowledged said (got sent ∷ rest) brokers = record {
  status = success;
  said = said;
  net = rest;
  brokers = brokers;
}

-- `tspTunnelNegotiation`, whether the version is 1.0.1. A reply is what `tspSendRecv` leaves.
unfoldable pub negotiate : Env → Bool → List Net → List Broker → Phase
unfolding redirect acknowledged
negotiate env no_acknowledge net brokers =
    let said = env.create_request ∷ [] in
    if not env.has_memory
    then record { status = err_memory_starvation; said = []; net = net; brokers = brokers }
    else elim net [
      | [] ↦ record { status = waiting; said = said; net = []; brokers = brokers }
      | failed ∷ rest ↦ record {
        status = err_socket_io;
        said = said;
        net = rest;
        brokers = brokers;
      }
      | got reply ∷ rest ↦
          let code = atoi reply in
          if is_redirect code
          then redirect env reply said rest brokers
          else if not (code == tsp_protocol_success)
          then record { status = err_tsp_generic_error; said = said; net = rest; brokers = brokers }
          else if no_acknowledge
          then record { status = success; said = said; net = rest; brokers = brokers }
          else acknowledged (said ++ (env.acknowledge ∷ [])) rest brokers
    ]

unfoldable pub is_success : GogocStatus → Bool
is_success success = true
is_success _ = false

-- What a session does to the outside, in its order.
pub data Action : Type 0 where
  say : List ℕ → Action
  start_local close_socket : Action

pub record Outcome : Type 0 where
  pub status : GogocStatus
  pub actions : List Action
  pub brokers : List Broker

-- Whether a call has returned.
unfoldable pub returns : GogocStatus → Bool
returns waiting = false
returns fault = false
returns _ = true

-- `tspClose` and the return, if the session comes to it.
unfoldable pub leave : GogocStatus → List Action → List Broker → Outcome
unfolding returns
leave status actions brokers = record {
  status = status;
  actions = actions ++ (if returns status then close_socket ∷ [] else []);
  brokers = brokers;
}

unfoldable pub is_socket_io : GogocStatus → Bool
is_socket_io err_socket_io = true
is_socket_io _ = false

-- The status of a failed `tspGetCapabilities`.
unfoldable pub no_listener : Bool → GogocStatus → GogocStatus
unfolding is_socket_io
no_listener is_rudp status =
    if is_socket_io status && is_rudp then err_fail_socket_connect else status

-- `tspSetupTunnel` from its connection on: the capabilities, whether they offer the mode, the authentication, the
-- source address (`source`), the negotiation, and the tunnel, which ends with `ends`.
unfoldable pub setup_tunnel :
    Env → Conf → List ℕ → Bool → GogocStatus → GogocStatus → List Net → List Broker → Outcome
unfolding leave no_listener is_success get_capabilities authenticate negotiate
setup_tunnel env conf version no_acknowledge source ends net brokers =
    let c = get_capabilities env version net brokers in
    let a = authenticate env conf c.capability c.phase.net c.phase.brokers in
    let n = negotiate env no_acknowledge a.net a.brokers in
    let asked = map say c.phase.said in
    let authenticated = asked ++ map say a.said in
    let negotiated = authenticated ++ map say n.said in
    if not (is_success c.phase.status)
    then leave (no_listener conf.is_rudp c.phase.status) asked c.phase.brokers
    else if bit_and conf.tunnel_mode c.capability == 0
    then leave err_tunmode_not_available asked c.phase.brokers
    else if not (is_success a.status)
    then leave a.status authenticated a.brokers
    else if not (is_success source)
    then leave source authenticated a.brokers
    else if not (is_success n.status)
    then leave n.status negotiated n.brokers
    else leave ends (negotiated ++ (start_local ∷ [])) n.brokers
