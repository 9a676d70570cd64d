-- ===== src/Tests/Echo.antt =====
-- The ICMP echo engine at concrete inputs.
use maiccu.Base.{
  ℕ, ◌+◌, ◌*◌, ◌≡◌, refl, arith, Bool, true, false, List, [], ◌∷◌, ◌++◌, none, some, be16, be32,
  u16, u32, replicate, ◌==◌, if◌then◌else◌, ap₂, inl, inr,
}
use maiccu.Gogoc.Echo.{
  Timeval, Event, Engine, mode_acd, mode_other, af_inet6, init, insert_echo_event,
  remove_echo_event,
}
use maiccu.Gogoc.Echo.Packet.{Host, echo_packet, decode_icmp_packet, pingin_ontime}
use maiccu.Gogoc.Echo.Process.{quiet, packet, Poll, Pass, process}
use maiccu.Gogoc.Echo.Reply.{IsHost, decode_icmp_packet-reply}
use maiccu.Gogoc.Echo.Chain.{
  Store, ended, insert_loop, remove_loop, Cells, events, Chain, null, link,
}
use maiccu.Gogoc.Echo.Chain.Insert.{Insertion, insert_loop-refines}
use maiccu.Gogoc.Echo.Chain.Remove.{Removal, remove_loop-refines}
use maiccu.Gogoc.Echo.Runs.{Kept}
use maiccu.Gogoc.Echo.Ledger.{IsLedger, init-IsLedger, process-IsLedger}
use maiccu.Gogoc.Echo.Ends.{Ended, process-Ended}

-- A host that writes its words and times in network order.
abbrev host : Host
host = record {
  put_word = be16;
  get_word = λ bs. u16 bs 0;
  put_time = λ t. be32 t.tv_sec ++ be32 t.tv_usec;
  get_time = λ bs. record { tv_sec = u32 bs 0; tv_usec = u32 bs 4 };
}

host-IsHost : IsHost host
host-IsHost = record {
  word_size = λ x. refl;
  word = λ x bs fits. omega arith;
  time_size = λ t. omega arith;
  time =
      λ t fits. ap₂ (λ (s u : ℕ). record { tv_sec = s; tv_usec = u }) (omega arith) (omega arith);
}

abbrev src : List ℕ
src = 0x20 ∷ 0x01 ∷ (replicate 13 0 ++ (1 ∷ []))

abbrev dst : List ℕ
dst = 0x20 ∷ 0x01 ∷ (replicate 13 0 ++ (2 ∷ []))

abbrev acd : Engine
acd = init mode_acd 1000 3 5000 3 src dst af_inet6 77

-- The time after so many milliseconds from second 100 on.
abbrev at : ℕ → ℕ
at ms = 100000000 + ms * 1000

abbrev second : ℕ → Timeval
second s = record { tv_sec = s; tv_usec = 0 }

abbrev wait : ℕ → Poll
wait ms = record {
  stopped = false;
  incoming = quiet;
  now_delay = at ms;
  now_packet = at ms;
  now_left = at ms;
}

-- The reply of a host to the request 0 of the engine, twenty milliseconds later.
abbrev reply : Engine → Poll
reply e = record {
  stopped = false;
  incoming = packet (echo_packet host e 129 0 0 (second 100));
  now_delay = at 1;
  now_packet = at 20;
  now_left = at 20;
}

abbrev pass_at : ℕ → List Poll → Pass
pass_at s polls = record {
  stopped = false;
  stopped_sending = false;
  now = second s;
  memory = true;
  sends = true;
  reference = second s;
  now_reading = s * 1000000;
  polls = polls;
}

decode_icmp_packet-reply_example :
    decode_icmp_packet host acd ([] ++ echo_packet host acd 129 0x1234 5 (second 100)) (at 20)
    ≡ pingin_ontime 5
unfolding init
decode_icmp_packet-reply_example =
    decode_icmp_packet-reply host host-IsHost acd 0 [] 0x1234 5 (second 100) (at 20) refl
      (omega arith) (omega arith) (omega arith, omega arith)

abbrev acd_passes : List Pass
acd_passes = pass_at 100 (reply acd ∷ []) ∷ []

abbrev acd_end : Engine
acd_end = record acd { eng_ongoing = false; count_send = 1; count_ontime = 1; echo_timeout = 2000 }

-- Two requests, of which the first is answered.
abbrev pair : Engine
pair = init mode_other 1000 2 5000 3 src dst af_inet6 77

abbrev pair_passes : List Pass
pair_passes = pass_at 100 (reply pair ∷ wait 1000 ∷ []) ∷ pass_at 101 (wait 2000 ∷ []) ∷ []

process-Ended_example : Ended 2 (process host pair_passes pair)
unfolding init
process-Ended_example =
    process-Ended host pair_passes pair (omega arith) (omega arith) (omega arith) (omega arith)
      (inr (inl (omega arith)), (inl (omega arith), tt))

process-IsLedger_example : Kept IsLedger (process host pair_passes pair)
process-IsLedger_example =
    process-IsLedger host pair_passes pair
      (init-IsLedger mode_other 1000 2 5000 3 src dst af_inet6 77)

-- One event in the memory, due at second 105.
abbrev first_event : Event
first_event = record { echo_seq = 0; tv_timeout = second 105 }

abbrev store : Store
store = record {
  cell = λ a. if a == 1 then some (record { event = first_event; next = none }) else none;
  event_list = some 1;
}

abbrev cells : Cells
cells = (1, first_event) ∷ []

store-Chain : Chain store.cell store.event_list cells
store-Chain = link refl refl null

-- An event that is due at the same time: the list has no end any more.
abbrev same_time : Event
same_time = record { echo_seq = 1; tv_timeout = second 105 }

insert_loop-refines_example :
    (st' : Store) × (insert_loop 5 store none 2 same_time ≡ ended st' true)
    × Insertion st'.cell st'.event_list cells 2 same_time
        (insert_echo_event same_time (events cells))
insert_loop-refines_example =
    insert_loop-refines 5 store 2 same_time cells refl store-Chain (omega arith)

remove_loop-refines_example :
    (st' : Store) × (found : Bool) × (remove_loop 5 store none 0 ≡ ended st' found)
    × Removal st' found cells (remove_echo_event 0 (events cells))
remove_loop-refines_example = remove_loop-refines 5 store 0 cells store-Chain (omega arith)
