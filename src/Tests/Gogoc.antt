-- ===== src/Tests/Gogoc.antt =====
-- Brokers, requests over UDP and capabilities at concrete inputs.
use Prim.Native.Nat.{bit_or}
use mathlib.Core.List.{map}
use maiccu.Base.{
  codes, ℕ, ◌+◌, ◌-◌, ◌*◌, ◌/◌, ◌≡◌, refl, ap, arith, Bool, true, false, List, [], ◌∷◌, some, ltb,
  length, replicate,
}
use maiccu.Gogoc.Redirect.{
  Broker, ok, Redirection, fqdn, ipv4, is_ok, create_list, handle_redirect, write_list, read_list,
  add_broker, add_all, insert, insert_all, measured, sort_list,
}
use maiccu.Gogoc.Redirect.Handle.{Usable, handle_redirect-Usable}
use maiccu.Gogoc.Redirect.File.{from_file, read_list-write_list}
use maiccu.Gogoc.Rudp.{Float, World, Event, timed_out, datagram, failed, net_rudp_init, send_recv}
use maiccu.Gogoc.Rudp.Answer.{Answers, Requests, send_recv-Answers}
use maiccu.Gogoc.Rudp.Silence.{most, send_recv-silence}
use maiccu.Gogoc.Rudp.Timeout.{IsOrdered}

abbrev always : ℕ → Bool
always n = true

abbrev near : List ℕ
near = codes "near.example"

abbrev far : List ℕ
far = codes "192.0.2.1"

abbrev redirection : Redirection
redirection = record {
  broker_redirect_ipv4 = some far ∷ [];
  broker_redirect_ipv6 = [];
  broker_redirect_dn = some near ∷ [];
}

-- The nearer one comes first.
nearest_first : handle_redirect always always (some (90 ∷ 20 ∷ [])) (some redirection) [] ≡ record {
  status = ok;
  list =
      record { address = near; distance = 20; address_type = fqdn }
      ∷ record { address = far; distance = 90; address_type = ipv4 }
      ∷ [];
}
unfolding handle_redirect create_list add_all add_broker is_ok sort_list insert_all insert measured
nearest_first = refl

handle_redirect-Usable_example :
    Usable redirection
      (handle_redirect always always (some (90 ∷ 20 ∷ [])) (some redirection) []).list
handle_redirect-Usable_example =
    handle_redirect-Usable always always (some (90 ∷ 20 ∷ [])) redirection []
      (ap (λ b. b.status) nearest_first)

abbrev brokers : List Broker
brokers =
    record { address = near; distance = 20; address_type = fqdn }
    ∷ record { address = far; distance = 90; address_type = ipv4 }
    ∷ []

read_list-write_list_example :
    read_list always (write_list brokers)
    ≡ some (record { status = ok; list = map from_file brokers })
read_list-write_list_example =
    read_list-write_list always brokers (λ n. refl) (omega arith) (omega arith)

-- Times in milliseconds in place of `float`; a difference below zero is cut off.
abbrev milliseconds : Float
milliseconds = record {
  F = ℕ;
  zero_f = 0;
  half = 500;
  tmin = 2000;
  tmax = 30000;
  lt = ltb;
  add = ◌+◌;
  sub = ◌-◌;
  neg = λ x. x;
  twice = λ x. 2 * x;
  four_times = λ x. 4 * x;
  eighth = λ x. x / 8;
  quarter = λ x. x / 4;
  of_milliseconds = λ n. n;
}

milliseconds-IsOrdered : IsOrdered milliseconds
milliseconds-IsOrdered = record { tmin_irrefl = refl; tmax_irrefl = refl; tmin_tmax = refl }

abbrev world : World
world = record { clock = λ k. (100 + 2 * k, 0); sends = always }

-- The client is silent first, then the answer comes to its second message.
abbrev echo : List Event
echo = timed_out ∷ datagram (0xf0 ∷ 0 ∷ 0 ∷ 240 ∷ 0 ∷ 0 ∷ 7 ∷ 208 ∷ 1 ∷ 2 ∷ []) 103 0 ∷ []

send_recv-Answers_example :
    Answers
      (bit_or (net_rudp_init milliseconds 100).sequence 0xf0000000)
      512
      echo
      (send_recv milliseconds world [] (9 ∷ []) 512 (net_rudp_init milliseconds 100) echo).reply
    × Requests
        (bit_or (net_rudp_init milliseconds 100).sequence 0xf0000000)
        (9 ∷ [])
        (send_recv milliseconds world [] (9 ∷ []) 512 (net_rudp_init milliseconds 100) echo).sent
send_recv-Answers_example =
    send_recv-Answers milliseconds world [] (9 ∷ []) 512 (net_rudp_init milliseconds 100) echo

send_recv-silence_example :
    ((send_recv milliseconds world []
        (9 ∷ [])
        512
        (net_rudp_init milliseconds 100)
        (replicate 8 timed_out)).reply
      ≡ failed)
    × (length
          (send_recv milliseconds world []
            (9 ∷ [])
            512
            (net_rudp_init milliseconds 100)
            (replicate 8 timed_out)).sent
        ≡ most false)
    × ((send_recv milliseconds world []
          (9 ∷ [])
          512
          (net_rudp_init milliseconds 100)
          (replicate 8 timed_out)).engine.initiated
        ≡ false)
unfolding net_rudp_init
send_recv-silence_example =
    send_recv-silence milliseconds world [] (9 ∷ []) 512 8 (net_rudp_init milliseconds 100)
      (λ i. refl) refl refl (omega arith)
