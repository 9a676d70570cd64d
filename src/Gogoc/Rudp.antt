-- ===== src/Gogoc/Rudp.antt =====
-- gogoc/gogoc-tsp/src/net/net_rudp.c: requests over UDP that are sent again until they are answered. C's
-- `float` is a parameter; the clock, the results of `send` and what `select` and `recv` do are arguments.
pub mod Attempts
pub mod Silence
pub mod Answer
pub mod Timeout
use Prim.Native.Nat.{bit_or}
use maiccu.Base.{
  ℕ, zero, suc, ◌+◌, ◌-◌, ◌*◌, ◌/◌, ◌%◌, ◌^◌, ◌≡◌, Bool, true, false, not, ◌&&◌, List, [], ◌∷◌,
  ◌++◌, Option, none, some, ◌==◌, ltb, if◌then◌else◌, be32, u32, take, drop, length, replicate,
  eq_bytes,
}

-- The type `float` with the operations and constants that the code uses.
pub record Float : Type 1 where
  pub F : Type 0
  pub zero_f : F
  pub half : F
  pub tmin : F
  pub tmax : F
  pub lt : F → F → Bool
  pub add : F → F → F
  pub sub : F → F → F
  pub neg : F → F
  pub twice : F → F
  pub four_times : F → F
  pub eighth : F → F
  pub quarter : F → F
  pub of_milliseconds : ℕ → F

-- What the environment does to a call, in its order: `select` times out or fails, `recv` fails, or a
-- datagram comes, at a time.
pub data Event : Type 0 where
  timed_out select_failed recv_failed : Event
  datagram : List ℕ → ℕ → ℕ → Event

-- The clock (seconds and microseconds) at each sending, and whether `send` takes the message.
pub record World : Type 0 where
  pub clock : ℕ → ℕ × ℕ
  pub sends : ℕ → Bool

-- The return of a call: the answer, -1, or still waiting. With a datagram shorter than the header, the
-- length of the answer is negative, and `memcpy` takes it for a huge number.
pub data Reply : Type 0 where
  answer : List ℕ → Reply
  failed waiting fault : Reply

abbrev pub max_rtt : ℕ
max_rtt = 3

abbrev pub max_rt : ℕ
max_rt = 8

abbrev pub header_size : ℕ
header_size = 8

-- What `recv` leaves in a buffer.
unfoldable pub overlay : List ℕ → List ℕ → List ℕ
overlay bytes buffer = bytes ++ drop (length bytes) buffer

module _ (f : Float) where
  open f use {
    F, zero_f, half, tmin, tmax, lt, add, sub, neg, twice, four_times, eighth, quarter,
    of_milliseconds,
  }

  -- `rttengine_stat_t`, without the cached address.
  pub record Engine : Type 0 where
    pub rtt : F
    pub srtt : F
    pub rttvar : F
    pub rto : F
    pub sequence : ℕ
    pub retries : ℕ
    pub initial_timestamp : ℕ
    pub apply_backoff : Bool
    pub has_peer : Bool
    pub initiated : Bool

  -- `internal_get_timestamp`: milliseconds since the start.
  unfoldable pub get_timestamp : Engine → ℕ × ℕ → ℕ
  get_timestamp e (sec, usec) =
      ((sec + 2 ^ 32 - e.initial_timestamp % 2 ^ 32) * 1000 + usec / 1000) % 2 ^ 32

  -- `NetRUDPInit`, at a time in seconds.
  unfoldable pub net_rudp_init : ℕ → Engine
  net_rudp_init now = record {
    rtt = zero_f;
    srtt = zero_f;
    rttvar = half;
    rto = tmin;
    sequence = 240;
    retries = 0;
    initial_timestamp = now;
    apply_backoff = false;
    has_peer = false;
    initiated = true;
  }

  -- `rttengine_deinit`
  unfoldable pub deinit : Engine → Engine
  deinit e = record e { initiated = false }

  -- `internal_get_adjusted_rto`
  unfoldable pub adjusted_rto : F → F
  adjusted_rto rto = if lt rto tmin then tmin else if lt tmax rto then tmax else rto

  -- `rttengine_update`
  unfoldable pub update : Engine → ℕ → Engine
  unfolding adjusted_rto
  update e rtt =
      let measured = of_milliseconds rtt in
      let delta = sub measured e.srtt in
      let srtt = add e.srtt (eighth delta) in
      let rttvar = add e.rttvar (quarter (if lt delta zero_f then neg delta else delta)) in
      record e {
        rtt = measured;
        srtt = srtt;
        rttvar = rttvar;
        rto = adjusted_rto (add srtt (four_times rttvar));
        retries = 0;
      }

  -- A pass through `sendloop`: it gives up, or the message is out.
  pub data Attempt : Type 0 where
    gave_up : Engine → Attempt
    went : Engine → List ℕ → Attempt

  unfoldable pub message : Engine → ℕ → ℕ × ℕ → List ℕ → List ℕ
  unfolding get_timestamp
  message e sequence now payload = be32 sequence ++ (be32 (get_timestamp e now) ++ payload)

  unfoldable pub attempt : World → ℕ → ℕ → List ℕ → Engine → Attempt
  unfolding deinit
  attempt w k sequence payload e =
      let last = if e.retries == max_rtt then record e { apply_backoff = true } else e in
      if e.retries == max_rtt && not e.has_peer
      then gave_up (deinit e)
      else if last.retries == max_rt
      then gave_up (deinit last)
      else if not (w.sends k)
      then gave_up (deinit last)
      else went last (message last sequence (w.clock k) payload)

  -- The end of the time: `case 0` of the loop.
  unfoldable pub backoff : Engine → Engine
  unfolding adjusted_rto
  backoff e = record e {
    rto = if e.apply_backoff then adjusted_rto (twice e.rto) else e.rto;
    retries = e.retries + 1;
  }

  -- The engine after an answer.
  unfoldable pub answered : Engine → ℕ → Engine
  unfolding update
  answered e rtt = record (update e rtt) { has_peer = true; retries = 0 }

  pub record Outcome : Type 0 where
    pub engine : Engine
    pub sent : List (List ℕ)
    pub reply : Reply

  -- From `selectloop` on, once the message was sent `k` times. `buffer` is what lies in `im`.
  unfoldable pub await : World → ℕ → List ℕ → ℕ → ℕ → List ℕ → Engine → List Event → Outcome
  unfolding deinit backoff overlay answered get_timestamp
  await w sequence payload ol k buffer e [] = record { engine = e; sent = []; reply = waiting }
  await w sequence payload ol k buffer e (select_failed ∷ events) = record {
    engine = deinit e;
    sent = [];
    reply = failed;
  }
  await w sequence payload ol k buffer e (recv_failed ∷ events) = record {
    engine = deinit e;
    sent = [];
    reply = failed;
  }
  await w sequence payload ol k buffer e (timed_out ∷ events) =
      elim (attempt w k sequence payload (backoff e)) [
        | gave_up e' ↦ record { engine = e'; sent = []; reply = failed }
        | went e' bytes ↦
            let rest = await w sequence payload ol (suc k) buffer e' events in
            record rest { sent = bytes ∷ rest.sent }
      ]
  await w sequence payload ol k buffer e (datagram bytes sec usec ∷ events) =
      let got = take (header_size + ol) bytes in
      let now = overlay got buffer in
      let rtt = (get_timestamp e (sec, usec) + 2 ^ 32 - u32 now 4) % 2 ^ 32 in
      let rest = await w sequence payload ol k now e events in
      if not (eq_bytes (take 4 now) (be32 sequence))
      then rest
      else if ltb (length got) header_size
      then record { engine = e; sent = []; reply = fault }
      else record { engine = answered e rtt; sent = []; reply = answer (drop header_size got) }

  -- `internal_send_recv`, with memory for its buffers. `fill` is what lies behind the bytes of `im` that
  -- are cleared.
  unfoldable pub send_recv : World → List ℕ → List ℕ → ℕ → Engine → List Event → Outcome
  send_recv w fill payload ol e events =
      let sequence = bit_or e.sequence 0xf0000000 in
      let next = record e { sequence = (e.sequence + 1) % 2 ^ 32 } in
      if not e.initiated
      then record { engine = e; sent = []; reply = failed }
      else elim (attempt w 0 sequence payload next) [
        | gave_up e' ↦ record { engine = e'; sent = []; reply = failed }
        | went e' bytes ↦
            let rest = await w sequence payload ol 1 (replicate ol 0 ++ fill) e' events in
            record rest { sent = bytes ∷ rest.sent }
      ]
