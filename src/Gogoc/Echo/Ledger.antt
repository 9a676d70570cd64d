-- ===== src/Gogoc/Echo/Ledger.antt =====
-- gogoc/gogoc-tsp/src/net/icmp_echo_engine.c: the counters and the event list of the ICMP echo engine.
use maiccu.Base.{
  ℕ, ◌+◌, ◌%◌, ◌^◌, ◌<◌, Bool, true, false, not, ◌&&◌, List, [], ◌∷◌, ◌==◌, ltb, leb, if◌then◌else◌,
  ◌≡◌, refl, arith, length, Option-cases, inl, inr, if_both,
}
use maiccu.Gogoc.Echo.{
  Timeval, micro, Event, Engine, EngineMode, mode_other, mode_ka, mode_acd, Family, init,
  compute_echo_timeout, insert_echo_event, remove_echo_event,
}
use maiccu.Gogoc.Echo.Packet.{
  Host, ReadStatus, read_select_error, read_select_timeout, read_socket_closed, read_recv_error,
  packet_bad, packet_ignored, general_echo_error, pingin_late, pingin_ontime,
}
use maiccu.Gogoc.Echo.Process.{
  Status, connectivity_assessed, iee_success, general_error, do_send, Poll, Pass, stop, check_last,
  time_out, count_reply, react, check_threshold, poll_once, process,
}
use maiccu.Gogoc.Echo.Events.{
  Inserted, last, later, insert-Inserted, Removed, hit, miss, remove-Removed,
}
use maiccu.Gogoc.Echo.Runs.{UnlessStarved, KeptSent, Kept, Keeps, process-Kept}

-- Every one of these events is due later.
abbrev pub Behind : Event → List Event → Type 0
Behind v [] = Unit {0}
Behind v (w ∷ ws) = (micro v.tv_timeout < micro w.tv_timeout) × Behind v ws

abbrev pub Ascending : List Event → Type 0
Ascending [] = Unit {0}
Ascending (w ∷ ws) = Behind w ws × Ascending ws

-- Each request counted has been answered in time, is late, or has its event in the list (modulo 2^32), and
-- the list is in the order of its timeouts.
pub record IsLedger (e : Engine) : Type 0 where
  pub balance : (e.count_ontime + e.count_late + length e.event_list) % 2 ^ 32 ≡ e.count_send
  pub ontime_fits : e.count_ontime < 2 ^ 32
  pub late_fits : e.count_late < 2 ^ 32
  pub ascending : Ascending e.event_list

Behind-Inserted :
    (u : Event) {v : Event} {l l' : List Event}
    → Inserted v l l'
    → Behind u l
    → micro u.tv_timeout < micro v.tv_timeout
    → Behind u l'
Behind-Inserted u last b lt = (lt, tt)
Behind-Inserted u (later w before r) b lt = (b.0, Behind-Inserted u r b.1 lt)

Inserted-Ascending : {v : Event} {l l' : List Event} → Inserted v l l' → Ascending l → Ascending l'
Inserted-Ascending last a = (tt, tt)
Inserted-Ascending (later w before r) a = (Behind-Inserted w r a.0 before, Inserted-Ascending r a.1)

length-Inserted : {v : Event} {l l' : List Event} → Inserted v l l' → length l' ≡ length l + 1
length-Inserted last = omega arith
length-Inserted (later w before r) = omega (arith, length-Inserted r)

Behind-Removed :
    {seq : ℕ} (u : Event) {l l' : List Event} → Removed seq l l' → Behind u l → Behind u l'
Behind-Removed u (hit w ws same) b = b.1
Behind-Removed u (miss w r) b = (b.0, Behind-Removed u r b.1)

Removed-Ascending : {seq : ℕ} {l l' : List Event} → Removed seq l l' → Ascending l → Ascending l'
Removed-Ascending (hit w ws same) a = a.1
Removed-Ascending (miss w r) a = (Behind-Removed w r a.0, Removed-Ascending r a.1)

length-Removed : {seq : ℕ} {l l' : List Event} → Removed seq l l' → length l ≡ length l' + 1
length-Removed (hit w ws same) = omega arith
length-Removed (miss w r) = omega (arith, length-Removed r)

switched : (b : Bool) (e : Engine) → IsLedger e → IsLedger (record e { eng_ongoing = b })
switched b e l = record {
  balance = l.balance;
  ontime_fits = l.ontime_fits;
  late_fits = l.late_fits;
  ascending = l.ascending;
}

check_last-IsLedger : (e : Engine) → IsLedger e → IsLedger (check_last e)
unfolding check_last
check_last-IsLedger e l =
    if_both IsLedger (not (e.echo_num == 0) && leb e.echo_num e.count_send) _ _ (switched false e l)
      l

time_out-IsLedger :
    (ref before delay : ℕ) (e : Engine) → IsLedger e → IsLedger (time_out ref before delay e)
unfolding time_out
time_out-IsLedger ref before delay e l =
    elim e.event_list
        as (λ ws.
          IsLedger (record e { event_list = ws })
          → IsLedger (time_out ref before delay (record e { event_list = ws }))) [
            | [] ↦ λ l'. l'
            | w ∷ ws ↦ λ l'.
                if_both IsLedger (ltb (micro w.tv_timeout + before) (ref + delay)) _ _
                  (record {
                    balance = omega (arith, l'.balance);
                    ontime_fits = l'.ontime_fits;
                    late_fits = omega arith;
                    ascending = l'.ascending.1;
                  })
                  l'
          ]
      l

count_reply-IsLedger : (seq : ℕ) (e : Engine) → IsLedger e → IsLedger (count_reply seq e)
unfolding count_reply
count_reply-IsLedger seq e l = elim (Option-cases (remove_echo_event seq e.event_list)) [
  | inl never ↦
      rw (never, count_reply)
        (record {
          balance = omega (arith, l.balance, l.late_fits);
          ontime_fits = omega arith;
          late_fits = omega arith;
          ascending = l.ascending;
        })
  | inr (events, found) ↦
      let removed = remove-Removed seq e.event_list events found in
      rw (found, count_reply)
        (record {
          balance = omega (arith, l.balance, length-Removed removed);
          ontime_fits = omega arith;
          late_fits = l.late_fits;
          ascending = Removed-Ascending removed l.ascending;
        })
]

react-IsLedger :
    (ref before delay : ℕ) (r : ReadStatus) (e : Engine)
    → IsLedger e
    → IsLedger (react ref before delay r e).0
unfolding react
react-IsLedger ref before delay packet_bad e l = l
react-IsLedger ref before delay packet_ignored e l = l
react-IsLedger ref before delay read_select_timeout e l = time_out-IsLedger ref before delay e l
react-IsLedger ref before delay (pingin_ontime seq) e l =
    let replied = count_reply-IsLedger seq e l in
    elim e.eng_mode
      as (λ m.
        IsLedger
          (elim m as (λ m'. Engine × Status) [
            | mode_acd ↦ (check_last (stop (count_reply seq e)), connectivity_assessed)
            | mode_ka ↦ (check_last (count_reply seq e), iee_success)
            | mode_other ↦ (check_last (count_reply seq e), iee_success)
          ]).0) [
            | mode_acd ↦ check_last-IsLedger _ (switched false _ replied)
            | mode_ka ↦ check_last-IsLedger _ replied
            | mode_other ↦ check_last-IsLedger _ replied
          ]
react-IsLedger ref before delay (pingin_late seq) e l = check_last-IsLedger e l
react-IsLedger ref before delay read_socket_closed e l = switched false e l
react-IsLedger ref before delay read_select_error e l = switched false e l
react-IsLedger ref before delay read_recv_error e l = switched false e l
react-IsLedger ref before delay general_echo_error e l = switched false e l

check_threshold-IsLedger : (r : Engine × Status) → IsLedger r.0 → IsLedger (check_threshold r).0
unfolding check_threshold
check_threshold-IsLedger (e, s) l =
    if_both {A = Engine × Status} (λ r. IsLedger r.0)
      (leb e.echo_timeout_threshold e.count_consec_late) _ _ (switched false e l) l

poll_once-IsLedger :
    (h : Host) (ref before : ℕ) (p : Poll) (e : Engine)
    → IsLedger e
    → IsLedger (poll_once h ref before p e).0
unfolding poll_once
poll_once-IsLedger h ref before p e l =
    check_threshold-IsLedger _ (react-IsLedger ref before p.now_delay _ _ (switched _ e l))

unstarved :
    {P : Type 0} (takes : Bool) → P → UnlessStarved (if takes then iee_success else general_error) P
unstarved true p = p
unstarved false p = p

do_send-IsLedger :
    (h : Host) (now : Timeval) (memory takes : Bool) (e : Engine)
    → IsLedger e
    → KeptSent IsLedger (do_send h now memory takes e)
unfolding do_send compute_echo_timeout
do_send-IsLedger h now false takes e l = tt
do_send-IsLedger h now true takes e l =
    let counted : Engine = record e { count_send = (e.count_send + 1) % 2 ^ 32 } in
    let event : Event = record {
      echo_seq = e.count_send % 2 ^ 16;
      tv_timeout = (compute_echo_timeout counted now).1;
    } in
    elim (Option-cases (insert_echo_event event e.event_list)) [
      | inl never ↦ rw never tt
      | inr (events, found) ↦
          let inserted = insert-Inserted event e.event_list events found in
          rw found (
            unstarved takes (record {
              balance = omega (arith, l.balance, length-Inserted inserted);
              ontime_fits = l.ontime_fits;
              late_fits = l.late_fits;
              ascending = Inserted-Ascending inserted l.ascending;
            }))
    ]

engine-IsLedger : (h : Host) → Keeps h IsLedger
engine-IsLedger h = record {
  heeds = λ b e l. switched _ e l;
  sends = λ now memory takes e l on. do_send-IsLedger h now memory takes e l;
  polls = λ ref before p e l. poll_once-IsLedger h ref before p e l;
}

-- In a run of the engine each request that it has counted has been answered in time, is late, or has its event
-- in the list, as counted modulo 2^32, and the list is in the order of its timeouts: whatever comes, when
-- the run ends and while it waits, unless there was no memory for an event or the list has lost its end.
pub process-IsLedger :
    (h : Host) (ps : List Pass) (e : Engine) → IsLedger e → Kept IsLedger (process h ps e)
process-IsLedger h ps e l = process-Kept (engine-IsLedger h) ps e l

-- A new engine keeps its books.
pub init-IsLedger :
    (mode : EngineMode) (interval num timeout threshold : ℕ) (src dst : List ℕ) (af : Family)
    (pid : ℕ)
    → IsLedger (init mode interval num timeout threshold src dst af pid)
unfolding init
init-IsLedger mode interval num timeout threshold src dst af pid = record {
  balance = refl;
  ontime_fits = omega arith;
  late_fits = omega arith;
  ascending = tt;
}
