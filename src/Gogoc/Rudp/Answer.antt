-- ===== src/Gogoc/Rudp/Answer.antt =====
-- gogoc/gogoc-tsp/src/net/net_rudp.c: an answer belongs to the request.
use Prim.Native.Nat.{bit_or}
use maiccu.Base.{
  ℕ, suc, ◌+◌, ◌%◌, ◌^◌, ◌≤◌, ◌≡◌, ◌⊎◌, inl, inr, refl, sym, ◌∙◌, arith, not, List, [], ◌∷◌, ◌++◌,
  ltb, be32, take, drop, length, replicate, eq_bytes, eq_bytes→eq, Bool-cases, length-take,
  take-append_left, take-take, if_both,
}
use maiccu.Gogoc.Rudp.Attempts.{Attempt-cases, attempt-went, mark}
use maiccu.Gogoc.Rudp.{
  get_timestamp, Float, Event, timed_out, select_failed, recv_failed, datagram, World, Reply,
  answer, failed, waiting, fault, header_size, Engine, went, attempt, message, overlay, backoff,
  Outcome, await, send_recv,
}

-- The datagram comes in the course of the call.
abbrev pub Comes : List ℕ → List Event → Type 0
Comes bytes [] = ⊥
Comes bytes (datagram b sec usec ∷ events) = (b ≡ bytes) ⊎ Comes bytes events
Comes bytes (timed_out ∷ events) = Comes bytes events
Comes bytes (select_failed ∷ events) = Comes bytes events
Comes bytes (recv_failed ∷ events) = Comes bytes events

-- The answer is what a datagram with this sequence number has behind its header, as far as there is room.
abbrev pub IsAnswer : ℕ → ℕ → List Event → List ℕ → Type 0
IsAnswer sequence room events a =
    (bytes : List ℕ) × Comes bytes events
    × (header_size ≤ length bytes)
    × (take 4 bytes ≡ be32 sequence)
    × (a ≡ drop header_size (take (header_size + room) bytes))

abbrev pub Answers : ℕ → ℕ → List Event → Reply → Type 0
Answers sequence room events (answer a) = IsAnswer sequence room events a
Answers sequence room events failed = Unit {0}
Answers sequence room events waiting = Unit {0}
Answers sequence room events fault = Unit {0}

-- All messages of a call are the same but for the time.
abbrev pub Requests : ℕ → List ℕ → List (List ℕ) → Type 0
Requests sequence payload [] = Unit {0}
Requests sequence payload (m ∷ ms) =
    ((time : ℕ) × (m ≡ be32 sequence ++ (be32 time ++ payload))) × Requests sequence payload ms

Answers-later :
    (sequence room : ℕ) (e : Event) (events : List Event) (r : Reply)
    → Answers sequence room events r
    → Answers sequence room (e ∷ events) r
Answers-later sequence room (datagram b sec usec) events (answer a) (bytes, c, l, s, p) =
    (bytes, inr c, l, s, p)
Answers-later sequence room timed_out events (answer a) h = h
Answers-later sequence room select_failed events (answer a) h = h
Answers-later sequence room recv_failed events (answer a) h = h
Answers-later sequence room e events failed h = tt
Answers-later sequence room e events waiting h = tt
Answers-later sequence room e events fault h = tt

header-take :
    (n : ℕ) (bytes rest : List ℕ)
    → 8 ≤ length (take n bytes)
    → take 4 (take n bytes ++ rest) ≡ take 4 bytes
header-take n bytes rest h =
    take-append_left 4 (take n bytes) rest (omega arith)
    ∙ take-take 4 n bytes (omega (arith, length-take n bytes))

module _ (f : Float) (w : World) (sequence : ℕ) (payload : List ℕ) (room : ℕ) where
  -- A message that went out.
  attempt-request :
      (k : ℕ) (e e' : Engine f) {bytes : List ℕ}
      → attempt f w k sequence payload e ≡ went e' bytes
      → (time : ℕ) × (bytes ≡ be32 sequence ++ (be32 time ++ payload))
  unfolding message
  attempt-request k e e' h =
      let (a, b, p, q) = attempt-went f w k sequence payload e h in
      (get_timestamp f (mark f e) (w.clock k), q)

  await-Answers :
      (k : ℕ) (buffer : List ℕ) (e : Engine f) (events : List Event)
      → Answers sequence room events (await f w sequence payload room k buffer e events).reply
        × Requests sequence payload (await f w sequence payload room k buffer e events).sent
  unfolding await overlay
  await-Answers k buffer e [] = (tt, tt)
  await-Answers k buffer e (select_failed ∷ events) = (tt, tt)
  await-Answers k buffer e (recv_failed ∷ events) = (tt, tt)
  await-Answers k buffer e (timed_out ∷ events) =
      elim (Attempt-cases f (attempt f w k sequence payload (backoff f e))) [
        | inl (e', z) ↦ rw (z, await) (tt, tt)
        | inr (e', bytes, z) ↦
            let (a, r) = await-Answers (suc k) buffer e' events in
            rw (z, await)
              (
                Answers-later sequence room timed_out events _ a,
                (attempt-request k (backoff f e) e' z, r),
              )
      ]
  await-Answers k buffer e (datagram bytes sec usec ∷ events) =
      let got = take (header_size + room) bytes in
      let now = overlay got buffer in
      let (a, r) = await-Answers k now e events in
      elim (Bool-cases (eq_bytes (take 4 now) (be32 sequence))) [
        | inr z ↦ rw z (Answers-later sequence room (datagram bytes sec usec) events _ a, r)
        | inl z ↦ elim (Bool-cases (ltb (length got) header_size)) [
          | inl y ↦ rw (z, y) (tt, tt)
          | inr y ↦
              let l : header_size ≤ length got = ground (arith, y) in
              rw (z, y)
                (
                  (
                    bytes,
                    inl refl,
                    omega (arith, length-take (header_size + room) bytes),
                    sym (header-take (header_size + room) bytes (drop (length got) buffer) l)
                        ∙ eq_bytes→eq _ _ z,
                    refl,
                  ),
                  tt,
                )
        ]
      ]

-- An answer that is returned was sent with the sequence number of the request, and is what the datagram holds
-- behind the header, as far as there is room; all messages of the call are the same request but for the
-- time stamps.
pub send_recv-Answers :
    (f : Float) (w : World) (fill payload : List ℕ) (room : ℕ) (e : Engine f) (events : List Event)
    → Answers
        (bit_or e.sequence 0xf0000000)
        room
        events
        (send_recv f w fill payload room e events).reply
      × Requests
          (bit_or e.sequence 0xf0000000)
          payload
          (send_recv f w fill payload room e events).sent
unfolding send_recv
send_recv-Answers f w fill payload room e events =
    let sequence = bit_or e.sequence 0xf0000000 in
    let next = record e { sequence = (e.sequence + 1) % 2 ^ 32 } in
    if_both
      (λ (o : Outcome f). Answers sequence room events o.reply × Requests sequence payload o.sent)
      (not e.initiated) _ _ (tt, tt)
      (elim (Attempt-cases f (attempt f w 0 sequence payload next)) [
        | inl (e', y) ↦ rw y (tt, tt)
        | inr (e', bytes, y) ↦
            let (a, r) =
              await-Answers f w sequence payload room 1 (replicate room 0 ++ fill) e' events in
            rw y (a, (attempt-request f w sequence payload room 0 next e' y, r))
      ])
