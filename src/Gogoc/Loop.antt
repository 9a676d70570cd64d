-- ===== src/Gogoc/Loop.antt =====
-- gogoc/gogoc-tsp/src/tsp/tsp_client.c: the connection loop of `tspMain`, built with V4V6_SUPPORT and without
-- DSLITE_SUPPORT and HACCESS. `current_broker_in_list` is the rest of the list of brokers from there on, empty
-- for a null pointer.
pub mod Tried
pub mod Delay
use maiccu.Base.{
  ℕ, zero, suc, ◌+◌, ◌*◌, ◌%◌, ◌^◌, Bool, true, false, not, ◌&&◌, ◌||◌, List, [], ◌∷◌, ◌++◌, Option,
  none, some, ◌==◌, ltb, if◌then◌else◌,
}
use maiccu.Gogoc.Redirect.{Broker, AddressType, unspecified, fqdn, ipv4, ipv6, Brokers, is_ok}
use maiccu.Gogoc.Session.{
  GogocStatus, success, evnt_broker_redirection, err_broker_redirection, err_socket_io,
  err_fail_socket_connect, err_tsp_server_too_busy, err_inval_tsp_version,
  err_authentication_failure, err_keepalive_timeout, err_keepalive_error, err_tun_lease_expired,
  err_tunnel_io,
}

-- `tTunnelMode`
pub data Mode : Type 0 where
  v6v4 v6udpv4 v6anyv4 v4v6 : Mode

-- `NET_TOOLS_T_...`
pub data Transport : Type 0 where
  rudp tcp tcp6 rudp6 : Transport

-- The configuration, as far as the loop uses it, whether the client goes on with its last server,
-- and the server that the configuration names.
pub record Settings : Type 0 where
  pub mode : Mode
  pub auto_retry_connect : Bool
  pub boot_mode : Bool
  pub read_last_server : Bool
  pub has_broker_list_file : Bool
  pub retry_delay : ℕ
  pub retry_delay_max : ℕ
  pub original_server : List ℕ

pub record Loop : Type 0 where
  pub version_index : ℕ
  pub cycle : ℕ
  pub tsp_version_fallback : Bool
  pub trying_original_server : Bool
  pub trying_broker_list : Bool
  pub broker_list : List Broker
  pub current_broker_in_list : List Broker
  pub server : Option (List ℕ)
  pub consec_retry : ℕ
  pub effective_retry_delay : ℕ

-- The version for the next try, among those before `start`; nothing if there is none.
unfoldable pub choose_version : ℕ → Loop → Option Loop
choose_version start l =
    if not l.tsp_version_fallback
    then some (record l { version_index = 0 })
    else if ltb l.version_index start && ltb l.version_index 3
    then some (record l { version_index = l.version_index + 1; tsp_version_fallback = false })
    else none

-- The cycle, with an overflow caught: the modes have one transport or two.
unfoldable pub choose_cycle : ℕ → Loop → Loop
choose_cycle transports l = if ltb l.cycle transports then l else record l { cycle = 0 }

-- How many transports a mode has, before which version it may fall back, and its transports in order.
pub record Ways : Type 0 where
  pub transports : ℕ
  pub fall_back_before : ℕ
  pub first : Transport
  pub second : Transport

unfoldable pub ways : Mode → Ways
ways v6udpv4 = record { transports = 1; fall_back_before = 2; first = rudp; second = rudp }
ways v6anyv4 = record { transports = 2; fall_back_before = 3; first = rudp; second = tcp }
ways v6v4 = record { transports = 2; fall_back_before = 3; first = rudp; second = tcp }
ways v4v6 = record { transports = 2; fall_back_before = 2; first = rudp6; second = tcp6 }

-- The choice of version and transport.
unfoldable pub choose : Ways → Loop → Option (Loop × Transport)
unfolding choose_version choose_cycle
choose w l = elim (choose_version w.fall_back_before (choose_cycle w.transports l)) [
  | none ↦ none
  | some l' ↦ some (l', if l'.cycle == 0 then w.first else w.second)
]

-- `quick_cycle`
unfoldable pub is_quick : Mode → Transport → Bool
is_quick v6udpv4 t = false
is_quick v6anyv4 rudp = true
is_quick v6v4 rudp = true
is_quick v4v6 rudp6 = true
is_quick _ _ = false

-- `FormatBrokerListAddr`: nothing for its error. A copy that there is no memory for is a null pointer.
unfoldable pub format_address : Bool → Broker → Option (Option (List ℕ))
format_address memory b =
    let bracketed = b'[' ∷ (b.address ++ (b']' ∷ [])) in
    let copied = some (if memory then some b.address else none) in
    elim b.address_type [
      | ipv6 ↦ if memory then some (some bracketed) else none
      | ipv4 ↦ copied
      | fqdn ↦ copied
      | unspecified ↦ copied
    ]

-- How a pass through the loop ends: the loop is left; `continue`; `break`, which goes on with a pause; or
-- it has used a null pointer.
pub data Next : Type 0 where
  stops null_used : Next
  again pauses : Loop → Next

-- The first of these brokers is tried next.
unfoldable pub try_brokers : Bool → List Broker → Loop → Next
unfolding format_address
try_brokers memory [] l = stops
try_brokers memory (b ∷ bs) l = elim (format_address memory b) [
  | none ↦ stops
  | some server ↦ again (record l {
    trying_broker_list = true;
    trying_original_server = false;
    current_broker_in_list = b ∷ bs;
    server = server;
    cycle = 0;
  })
]

-- A null pointer.
unfoldable pub is_nil : List Broker → Bool
is_nil [] = true
is_nil (b ∷ bs) = false

-- The next broker of the list.
unfoldable pub next_broker : Settings → Bool → Loop → Next
unfolding format_address is_nil
next_broker s memory l =
    let original = if memory then some s.original_server else none in
    elim l.current_broker_in_list [
      | [] ↦ null_used
      | b ∷ rest ↦ if is_nil l.broker_list then stops else elim rest [
        | [] ↦ pauses (record l { server = original; cycle = 0; trying_original_server = true })
        | c ∷ more ↦ elim (format_address memory c) [
          | none ↦ stops
          | some server ↦
              again (record l { current_broker_in_list = c ∷ more; server = server; cycle = 0 })
        ]
      ]
    ]

-- The original server cannot be reached; `file` is what `tspReadBrokerListFromFile` gives.
unfoldable pub original_failed : Settings → Bool → Brokers → Loop → Next
unfolding try_brokers is_nil
original_failed s memory file l =
    let none_left = pauses (record l { broker_list = []; cycle = l.cycle + 1 }) in
    let filled = record l { broker_list = file.list } in
    let tried =
      if l.cycle == 0
      then again (record filled { cycle = l.cycle + 1 })
      else try_brokers memory file.list filled in
    if not s.has_broker_list_file
    then none_left
    else if not (is_ok file.status)
    then none_left
    else if is_nil file.list
    then none_left
    else tried

-- ERR_FAIL_SOCKET_CONNECT, and ERR_AUTHENTICATION_FAILURE.
unfoldable pub connect_failed : Settings → Bool → Brokers → Bool → Loop → Next
unfolding original_failed next_broker
connect_failed s memory file quick l =
    let timed = record l { effective_retry_delay = s.retry_delay; consec_retry = 1 } in
    if s.boot_mode
    then stops
    else if quick
    then again (record l { cycle = l.cycle + 1 })
    else if s.read_last_server
    then pauses (record l { cycle = l.cycle + 1 })
    else if l.trying_original_server
    then original_failed s memory file timed
    else if l.trying_broker_list
    then next_broker s memory timed
    else pauses timed

-- What a pass meets outside the loop: the status of the session, the list of brokers that a redirection
-- has left, whether there is memory for an address, and what the file of brokers gives.
pub record Outcome : Type 0 where
  pub status : GogocStatus
  pub redirected : List Broker
  pub memory : Bool
  pub file : Brokers

-- The switch on the status of a session.
unfoldable pub after : Settings → Bool → Brokers → List Broker → Bool → GogocStatus → Loop → Next
unfolding connect_failed try_brokers
after s memory file redirected quick err_keepalive_timeout l =
    if s.auto_retry_connect then pauses (record l { consec_retry = 0 }) else stops
after s memory file redirected quick err_tun_lease_expired l = again l
after s memory file redirected quick err_inval_tsp_version l =
    again (record l {
      tsp_version_fallback = true;
      cycle = if l.version_index == 2 then 1 else l.cycle;
    })
after s memory file redirected quick err_socket_io l =
    let next = record l { consec_retry = 0 } in if quick then again next else pauses next
after s memory file redirected quick err_tsp_server_too_busy l =
    pauses (record l { effective_retry_delay = s.retry_delay; consec_retry = 1 })
after s memory file redirected quick err_authentication_failure l =
    connect_failed s memory file quick l
after s memory file redirected quick err_fail_socket_connect l =
    connect_failed s memory file quick l
after s memory file redirected quick evnt_broker_redirection l =
    try_brokers memory redirected (record l { broker_list = redirected })
after s memory file redirected quick err_tunnel_io l = pauses (record l { consec_retry = 0 })
after s memory file redirected quick err_keepalive_error l = pauses (record l { consec_retry = 0 })
after s memory file redirected quick _ l = stops

-- The pause: `consec_retry` has 8 bits and `effective_retry_delay` 16. The second part is how long it takes.
unfoldable pub pause : Settings → Loop → Loop × ℕ
pause s l =
    let doubled = l.effective_retry_delay * 2 % 2 ^ 16 in
    let capped = if ltb s.retry_delay_max doubled then s.retry_delay_max else doubled in
    let delay = if l.consec_retry % 3 == 0 then capped else l.effective_retry_delay in
    if ltb 0 l.consec_retry
    then (
      record l { consec_retry = (l.consec_retry + 1) % 2 ^ 8; effective_retry_delay = delay },
      delay,
    )
    else (
      record l {
        consec_retry = (l.consec_retry + 1) % 2 ^ 8;
        effective_retry_delay = s.retry_delay;
      },
      0,
    )

-- The pause before the next pass, where there is one.
unfoldable pub paused : Settings → Next → Next
unfolding pause
paused s stops = stops
paused s null_used = null_used
paused s (again l) = again l
paused s (pauses l) = again (pause s l).0

-- A pass through the loop, with its pause.
unfoldable pub turn : Settings → Outcome → Loop → Next
unfolding ways choose is_quick after paused
turn s o l = elim (choose (ways s.mode) l) [
  | none ↦ stops
  | some chosen ↦
      paused s (after s o.memory o.file o.redirected (is_quick s.mode chosen.1) o.status chosen.0)
]

-- The first values of the loop. The outer loop, which runs it again when it has ended, keeps whether the original
-- server is tried, the server and the list of brokers.
unfoldable pub start : Bool → Option (List ℕ) → List Broker → Loop
start original server brokers = record {
  version_index = 0;
  cycle = 0;
  tsp_version_fallback = false;
  trying_original_server = original;
  trying_broker_list = false;
  broker_list = brokers;
  current_broker_in_list = [];
  server = server;
  consec_retry = 0;
  effective_retry_delay = 0;
}

-- The loop, with a pass for each outcome.
unfoldable pub turns : Settings → List Outcome → Loop → Next
unfolding turn
turns s [] l = again l
turns s (o ∷ os) l = elim (turn s o l) [
  | stops ↦ stops
  | null_used ↦ null_used
  | again l' ↦ turns s os l'
  | pauses l' ↦ pauses l'
]
