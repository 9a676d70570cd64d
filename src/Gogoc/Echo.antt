-- ===== src/Gogoc/Echo.antt =====
-- gogoc/gogoc-tsp/src/net/icmp_echo_engine.c and icmp_echo_engine.h: the ICMP echo engine, which sends echo
-- requests at an interval and counts the replies. Here: its state, its times and its list of echo events.
-- The differences of times, of type `double`, are only compared: with each other and with whole milliseconds. The
-- model compares the microseconds.
pub mod Packet
pub mod Process
pub mod Chain
pub mod Runs
pub mod Fixed
pub mod Events
pub mod Ledger
pub mod Reply
pub mod Brings
pub mod Verdict
pub mod Ends
use maiccu.Base.{
  ℕ, zero, suc, ◌+◌, ◌-◌, ◌*◌, ◌/◌, ◌%◌, ◌^◌, ◌≡◌, refl, arith, Bool, true, false, List, [], ◌∷◌,
  ◌++◌, Option, none, some, ◌==◌, ltb, if◌then◌else◌,
}

-- `struct timeval`
pub record Timeval : Type 0 where
  pub tv_sec : ℕ
  pub tv_usec : ℕ

-- The microseconds of a time.
abbrev pub micro : Timeval → ℕ
micro t = t.tv_sec * 1000000 + t.tv_usec

-- `ECHO_EVENT`, without the pointer to the next one.
pub record Event : Type 0 where
  pub echo_seq : ℕ
  pub tv_timeout : Timeval

-- `iee_mode_t`
pub data EngineMode : Type 0 where
  mode_other mode_ka mode_acd : EngineMode

-- The address families that `IEE_init` takes.
pub data Family : Type 0 where
  af_inet af_inet6 : Family

-- `ICMP_ECHO_ENGINE_PARMS`, without the callbacks and the socket; the addresses as their bytes.
pub record Engine : Type 0 where
  pub send_interval : ℕ
  pub echo_num : ℕ
  pub echo_timeout : ℕ
  pub echo_timeout_threshold : ℕ
  pub eng_mode : EngineMode
  pub eng_ongoing : Bool
  pub count_send : ℕ
  pub count_ontime : ℕ
  pub count_late : ℕ
  pub count_consec_late : ℕ
  pub event_list : List Event
  pub icmp_echo_id : ℕ
  pub icmp_saf : Family
  pub echo_addr_src : List ℕ
  pub echo_addr_dst : List ℕ

-- `IEE_init`, when the addresses are valid and there are memory and a socket.
unfoldable pub init : EngineMode → ℕ → ℕ → ℕ → ℕ → List ℕ → List ℕ → Family → ℕ → Engine
init mode send_interval echo_num echo_timeout threshold src dst af pid = record {
  send_interval = send_interval;
  echo_num = echo_num;
  echo_timeout = echo_timeout;
  echo_timeout_threshold = threshold % 256;
  eng_mode = mode;
  eng_ongoing = true;
  count_send = 0;
  count_ontime = 0;
  count_late = 0;
  count_consec_late = 0;
  event_list = [];
  icmp_echo_id = pid % 2 ^ 16;
  icmp_saf = af;
  echo_addr_src = src;
  echo_addr_dst = dst;
}

-- `_compute_next_send`
unfoldable pub compute_next_send : Engine → Timeval → Timeval
compute_next_send e t = record {
  tv_sec = t.tv_sec + e.send_interval / 1000;
  tv_usec = t.tv_usec + e.send_interval % 1000 * 1000;
}

-- The loop on an overflow of `tv_usec`, with fuel.
unfoldable pub carry : ℕ → Timeval → Timeval
carry zero t = t
carry (suc fuel) t =
    let rest = carry fuel (record { tv_sec = t.tv_sec + 1; tv_usec = t.tv_usec - 1000000 }) in
    if ltb 1000000 t.tv_usec then rest else t

-- The timeout of an echo: up to the end of all requests in the mode IEE_MODE_ACD.
unfoldable pub timeout_of : Engine → ℕ
timeout_of e = elim e.eng_mode [
  | mode_acd ↦ e.send_interval * ((e.echo_num + 2 ^ 32 - e.count_send) % 2 ^ 32) % 2 ^ 32
  | mode_ka ↦ e.echo_timeout
  | mode_other ↦ e.echo_timeout
]

-- `_compute_echo_timeout`, which stores the timeout of an echo in the engine.
unfoldable pub compute_echo_timeout : Engine → Timeval → Engine × Timeval
unfolding timeout_of carry
compute_echo_timeout e t =
    let timeout = timeout_of e in
    let usec = t.tv_usec + timeout % 1000 * 1000 in
    (
      record e { echo_timeout = timeout },
      carry usec (record { tv_sec = t.tv_sec + timeout / 1000; tv_usec = usec }),
    )

-- `_insert_echo_event`, on a list in which the event is later than all others; nothing for a list that
-- does not end any more (see Chain).
unfoldable pub insert_echo_event : Event → List Event → Option (List Event)
insert_echo_event v [] = some (v ∷ [])
insert_echo_event v (w ∷ ws) =
    if ltb (micro w.tv_timeout) (micro v.tv_timeout)
    then elim (insert_echo_event v ws) [ none ↦ none | some l ↦ some (w ∷ l) ]
    else none

-- `_remove_free_echo_event`: nothing if there is no such event.
unfoldable pub remove_echo_event : ℕ → List Event → Option (List Event)
remove_echo_event seq [] = none
remove_echo_event seq (w ∷ ws) =
    if w.echo_seq == seq
    then some ws
    else elim (remove_echo_event seq ws) [ none ↦ none | some l ↦ some (w ∷ l) ]

-- Neither carrying nor a timeout loses any time.
micro-carry : (fuel : ℕ) (t : Timeval) → micro (carry fuel t) ≡ micro t
unfolding carry
micro-carry zero t = refl
micro-carry (suc fuel) t =
    ground
      (arith, micro-carry fuel (record { tv_sec = t.tv_sec + 1; tv_usec = t.tv_usec - 1000000 }))

pub micro-compute_echo_timeout :
    (e : Engine) (t : Timeval)
    → micro (compute_echo_timeout e t).1
      ≡ micro t + (compute_echo_timeout e t).0.echo_timeout * 1000
unfolding compute_echo_timeout
micro-compute_echo_timeout e t = omega (arith, micro-carry)

pub micro-compute_next_send :
    (e : Engine) (t : Timeval) → micro (compute_next_send e t) ≡ micro t + e.send_interval * 1000
unfolding compute_next_send
micro-compute_next_send e t = omega arith
