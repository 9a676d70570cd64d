-- ===== src/Gogoc/Echo/Process.antt =====
-- gogoc/gogoc-tsp/src/net/icmp_echo_engine.c: the sending and reading of the ICMP echo engine, and its main loop. What
-- the clock, the memory, the socket and a call of `IEE_stop` by another thread do to it are arguments.
use maiccu.Base.{
  ℕ, ◌+◌, ◌-◌, ◌%◌, ◌^◌, Bool, false, not, ◌&&◌, ◌||◌, List, [], ◌∷◌, none, some, ◌==◌, ltb, leb,
  if◌then◌else◌,
}
use maiccu.Gogoc.Echo.{
  Timeval, micro, Engine, mode_other, mode_ka, mode_acd, compute_next_send, compute_echo_timeout,
  insert_echo_event, remove_echo_event,
}
use maiccu.Gogoc.Echo.Packet.{
  Host, ReadStatus, read_select_error, read_select_timeout, read_socket_closed, read_recv_error,
  packet_bad, packet_ignored, general_echo_error, pingin_late, pingin_ontime, request,
  decode_icmp_packet,
}

-- `iee_ret_t`
pub data Status : Type 0 where
  iee_success invalid_parms resource_starvation connectivity_assessed : Status
  general_timeout general_error : Status

-- `_do_send` and `_do_send_wrap`: the engine behind it, what it has sent, and its status. In `tangled` the
-- list of events does not end any more.
pub data Sent : Type 0 where
  sent : Engine → List ℕ → Status → Sent
  tangled : Sent

unfoldable pub do_send : Host → Timeval → Bool → Bool → Engine → Sent
do_send h now memory sends e =
    let seq = e.count_send % 2 ^ 16 in
    let counted = record e { count_send = (e.count_send + 1) % 2 ^ 32 } in
    let (timed, timeout) = compute_echo_timeout counted now in
    if not memory
    then sent counted [] resource_starvation
    else elim (insert_echo_event (record { echo_seq = seq; tv_timeout = timeout }) e.event_list) [
      | none ↦ tangled
      | some events ↦
          sent (record timed { event_list = events }) (request h e seq now)
            (if sends then iee_success else general_error)
    ]

-- What `select` and `recv` do.
pub data Incoming : Type 0 where
  quiet interrupted bad_descriptor select_failed recv_failed recv_empty : Incoming
  packet : List ℕ → Incoming

-- A pass through the read loop: whether the engine has been stopped before, what comes, and the clock (in
-- microseconds) where it is read: at the delay, at a packet, and at the end.
pub record Poll : Type 0 where
  pub stopped : Bool
  pub incoming : Incoming
  pub now_delay : ℕ
  pub now_packet : ℕ
  pub now_left : ℕ

-- `_do_read`
unfoldable pub do_read : Host → Engine → Poll → ReadStatus
do_read h e p = elim p.incoming [
  | quiet ↦ read_select_timeout
  | interrupted ↦ read_select_timeout
  | bad_descriptor ↦ if e.eng_ongoing then read_select_error else read_socket_closed
  | select_failed ↦ read_select_error
  | recv_failed ↦ if e.eng_ongoing then read_recv_error else read_socket_closed
  | recv_empty ↦ read_recv_error
  | packet bs ↦ decode_icmp_packet h e bs p.now_packet
]

-- The last reply of a limited number of requests ends the engine.
unfoldable pub check_last : Engine → Engine
check_last e =
    if not (e.echo_num == 0) && leb e.echo_num e.count_send
    then record e { eng_ongoing = false }
    else e

-- READ_SELECT_TIMEOUT: the soonest event has timed out if there was more time left than up to it.
unfoldable pub time_out : ℕ → ℕ → ℕ → Engine → Engine
time_out ref now_before now_delay e = elim e.event_list [
  | [] ↦ e
  | w ∷ ws ↦
      if ltb (micro w.tv_timeout + now_before) (ref + now_delay)
      then record e {
        count_late = (e.count_late + 1) % 2 ^ 32;
        count_consec_late = (e.count_consec_late + 1) % 2 ^ 8;
        event_list = ws;
      }
      else e
]

-- ANAL_PACKET_PINGIN_ONTIME, up to the test of the mode.
unfoldable pub count_reply : ℕ → Engine → Engine
count_reply seq e =
    let counted = record e {
      count_consec_late = 0;
      count_ontime = (e.count_ontime + 1) % 2 ^ 32;
    } in
    elim (remove_echo_event seq e.event_list) [
      | none ↦ record counted { count_late = (e.count_late + 2 ^ 32 - 1) % 2 ^ 32 }
      | some events ↦ record counted { event_list = events }
    ]

abbrev pub stop : Engine → Engine
stop e = record e { eng_ongoing = false }

-- The switch of `_do_read_wrap`; `now_before` is the clock where the time left was computed.
unfoldable pub react : ℕ → ℕ → ℕ → ReadStatus → Engine → Engine × Status
react ref before delay packet_bad e = (e, iee_success)
react ref before delay packet_ignored e = (e, iee_success)
react ref before delay read_select_timeout e = (time_out ref before delay e, iee_success)
react ref before delay (pingin_ontime seq) e =
    let replied = count_reply seq e in
    elim e.eng_mode [
      | mode_acd ↦ (check_last (stop replied), connectivity_assessed)
      | mode_ka ↦ (check_last replied, iee_success)
      | mode_other ↦ (check_last replied, iee_success)
    ]
react ref before delay (pingin_late seq) e = (check_last e, iee_success)
react ref before delay read_socket_closed e = (stop e, iee_success)
react ref before delay read_select_error e = (stop e, general_error)
react ref before delay read_recv_error e = (stop e, general_error)
react ref before delay general_echo_error e = (stop e, general_error)

-- The test for too many late replies behind the switch.
unfoldable pub check_threshold : Engine × Status → Engine × Status
check_threshold (e, s) =
    if leb e.echo_timeout_threshold e.count_consec_late then (stop e, general_timeout) else (e, s)

-- A run: it has returned; it waits, for want of further events; or the list of events does not end.
pub data Progress : Type 0 where
  done : Status → Engine → Progress
  waiting : Engine → Progress
  knotted : Progress

-- The engine as a pass of the loop finds it.
abbrev pub heed : Bool → Engine → Engine
heed stopped e = record e { eng_ongoing = e.eng_ongoing && not stopped }

-- A pass through the read loop.
unfoldable pub poll_once : Host → ℕ → ℕ → Poll → Engine → Engine × Status
poll_once h ref before p e =
    let heeded = heed p.stopped e in
    check_threshold (react ref before p.now_delay (do_read h heeded p) heeded)

-- The loop of `_do_read_wrap`
unfoldable pub read_loop : Host → ℕ → ℕ → List Poll → Engine → Progress
read_loop h ref before [] e = waiting e
read_loop h ref before (p ∷ ps) e =
    let next = poll_once h ref before p e in
    let rest = read_loop h ref p.now_left ps next.0 in
    if ltb p.now_left ref && next.0.eng_ongoing then rest else done next.1 next.0

-- `_do_read_wrap`, from a time on.
unfoldable pub do_read_wrap : Host → ℕ → ℕ → List Poll → Engine → Progress
unfolding read_loop
do_read_wrap h ref before ps e =
    if leb ref before then done iee_success e else read_loop h ref before ps e

-- A pass through the main loop: whether `IEE_stop` was called before it and during the sending, the clock at the
-- sending, memory for an event, whether `sendto` takes the request, the clock behind it and at the
-- start of reading, and the reads.
pub record Pass : Type 0 where
  pub stopped : Bool
  pub stopped_sending : Bool
  pub now : Timeval
  pub memory : Bool
  pub sends : Bool
  pub reference : Timeval
  pub now_reading : ℕ
  pub polls : List Poll

-- The test of the main loop.
unfoldable pub goes_on : Engine → Bool
goes_on e = e.eng_ongoing && ((e.echo_num == 0) || ltb e.count_send e.echo_num)

-- What comes behind a request that has been sent.
unfoldable pub after_send : Host → Pass → Sent → Progress
after_send h p tangled = knotted
after_send h p (sent e bytes iee_success) =
    let heeded = heed p.stopped_sending e in
    if not heeded.eng_ongoing
    then done iee_success heeded
    else do_read_wrap h (micro (compute_next_send heeded p.reference)) p.now_reading p.polls heeded
after_send h p (sent e bytes s) = done s e

-- The next pass, unless the status is another than IEE_SUCCESS.
unfoldable pub and_then : Progress → (Engine → Progress) → Progress
and_then (done iee_success e) next = next e
and_then (done s e) next = done s e
and_then (waiting e) next = waiting e
and_then knotted next = knotted

-- `IEE_process`, from its main loop on; the sleep before it in the mode IEE_MODE_KA takes only time. Where the
-- engine has been stopped, the `break` behind the sending and the test of the loop end it alike.
unfoldable pub process : Host → List Pass → Engine → Progress
unfolding goes_on and_then
process h [] e = if goes_on e then waiting e else done iee_success e
process h (p ∷ ps) e =
    let heeded = heed p.stopped e in
    let pass =
      and_then (after_send h p (do_send h p.now p.memory p.sends heeded)) (λ e'. process h ps e') in
    if goes_on heeded then pass else done iee_success heeded
