-- ===== src/Gogoc/Rudp/Silence.antt =====
-- gogoc/gogoc-tsp/src/net/net_rudp.c: how often a message is sent.
use Prim.Native.Nat.{bit_or}
use maiccu.Base.{
  ℕ, zero, suc, ◌+◌, ◌%◌, ◌^◌, ◌≤◌, ◌<◌, ◌≡◌, inl, inr, refl, ap, ◌∙◌, arith, Bool, true, false,
  not, ◌&&◌, List, [], ◌∷◌, ◌++◌, ◌==◌, ltb, if◌then◌else◌, be32, take, length, replicate, eq_bytes,
  Bool-cases, if_both, if_past, if_now,
}
use maiccu.Gogoc.Rudp.Attempts.{Attempt-cases, attempt-went, mark, mark-retries, mark-has_peer}
use maiccu.Gogoc.Rudp.{
  Float, Event, timed_out, select_failed, recv_failed, datagram, World, failed, header_size, max_rt,
  max_rtt, Engine, gave_up, went, attempt, overlay, backoff, deinit, message, Outcome, await,
  send_recv,
}

-- A peer that has answered before gets eight messages, any other three.
abbrev pub most : Bool → ℕ
most has_peer = if has_peer then 8 else 3

most-lt :
    (r : ℕ) (p : Bool)
    → (r == max_rtt && not p) ≡ false
    → (r == max_rt) ≡ false
    → r ≤ most p
    → r < most p
most-lt r true h k l = ground (arith, k)
most-lt r false h k l = ground (arith, h)

most-last : (r : ℕ) (p : Bool) → r ≡ most p → (r == max_rtt && not p) ≡ false → (r == max_rt) ≡ true
most-last r true h t = ground arith
most-last r false h t = ground (arith, t)

most-tests :
    (r : ℕ) (p : Bool) → r < most p → ((r == max_rtt && not p) ≡ false) × ((r == max_rt) ≡ false)
most-tests r true h = (ground arith, ground arith)
most-tests r false h = (ground arith, ground arith)

module _ (f : Float) (w : World) (sequence : ℕ) (payload : List ℕ) (room : ℕ) where
  -- A message that goes out was not the last that is allowed.
  attempt-most :
      (k : ℕ) (e e' : Engine f) {bytes : List ℕ}
      → attempt f w k sequence payload e ≡ went e' bytes
      → e.retries ≤ most e.has_peer
      → (e'.retries ≡ e.retries) × (e'.has_peer ≡ e.has_peer) × (e.retries < most e.has_peer)
  attempt-most k e e' h l =
      let (a, b, p, q) = attempt-went f w k sequence payload e h in
      let m = mark-retries f e in
      (
        ap (λ (x : Engine f). x.retries) p ∙ m,
        ap (λ (x : Engine f). x.has_peer) p ∙ mark-has_peer f e,
        most-lt e.retries e.has_peer a (rw m at b) l,
      )

  -- Whatever happens, not more messages go out than are left.
  await-most :
      (k : ℕ) (buffer : List ℕ) (e : Engine f) (events : List Event)
      → e.retries < most e.has_peer
      → length (await f w sequence payload room k buffer e events).sent + e.retries + 1
        ≤ most e.has_peer
  unfolding await backoff
  await-most k buffer e [] h = omega arith
  await-most k buffer e (select_failed ∷ events) h = omega arith
  await-most k buffer e (recv_failed ∷ events) h = omega arith
  await-most k buffer e (timed_out ∷ events) h =
      elim (Attempt-cases f (attempt f w k sequence payload (backoff f e))) [
        | inl (e', z) ↦ rw (z, await) (omega arith)
        | inr (e', bytes, z) ↦
            let (r, p, l) = attempt-most k (backoff f e) e' z (omega arith) in
            let ih = await-most (suc k) buffer e' events (omega (arith, r, l, ap most p)) in
            rw (z, await) (omega (arith, r, ap most p, ih))
      ]
  await-most k buffer e (datagram bytes sec usec ∷ events) h =
      let now = overlay (take (header_size + room) bytes) buffer in
      let P = λ (o : Outcome f). length o.sent + e.retries + 1 ≤ most e.has_peer in
      if_both P (not (eq_bytes (take 4 now) (be32 sequence))) _ _ (await-most k now e events h) (
        if_both P (ltb (length (take (header_size + room) bytes)) header_size) _ _ (omega arith)
          (omega arith))

  -- The message that is one too many.
  attempt-gives_up :
      (k : ℕ) (e : Engine f)
      → e.retries ≡ most e.has_peer
      → (e' : Engine f) × (attempt f w k sequence payload e ≡ gave_up e') × (e'.initiated ≡ false)
  unfolding attempt deinit
  attempt-gives_up k e h = elim (Bool-cases (e.retries == max_rtt && not e.has_peer)) [
    | inl t ↦ (deinit f e, if_now (e.retries == max_rtt && not e.has_peer) _ t refl, refl)
    | inr t ↦ (
      deinit f (mark f e),
      if_past (e.retries == max_rtt && not e.has_peer) _ t (
          if_now ((mark f e).retries == max_rt) _
            (rw (mark-retries f e) (most-last e.retries e.has_peer h t)) refl),
      refl,
    )
  ]

  attempt-goes :
      (k : ℕ) (e : Engine f)
      → ((n : ℕ) → w.sends n ≡ true)
      → e.retries < most e.has_peer
      → (bytes : List ℕ) × (attempt f w k sequence payload e ≡ went (mark f e) bytes)
  unfolding attempt
  attempt-goes k e s h =
      let (a, b) = most-tests e.retries e.has_peer h in
      (
        message f (mark f e) sequence (w.clock k) payload,
        if_past (e.retries == max_rtt && not e.has_peer) _ a (
            if_past ((mark f e).retries == max_rt) _ (rw (mark-retries f e) b)
              (if_past (not (w.sends k)) _ (ap not (s k)) refl)),
      )

  -- In silence the messages that are left go out, and the call fails.
  await-silence :
      (n d k : ℕ) (buffer : List ℕ) (e : Engine f)
      → ((i : ℕ) → w.sends i ≡ true)
      → e.retries + 1 + d ≡ most e.has_peer
      → d < n
      → ((await f w sequence payload room k buffer e (replicate n timed_out)).reply ≡ failed)
        × (length (await f w sequence payload room k buffer e (replicate n timed_out)).sent ≡ d)
        × ((await f w sequence payload room k buffer e (replicate n timed_out)).engine.initiated
            ≡ false)
  unfolding await backoff
  await-silence zero d k buffer e s h l = absurd (omega arith)
  await-silence (suc n) zero k buffer e s h l =
      let (e', g, i) = attempt-gives_up k (backoff f e) (omega arith) in
      rw (g, await) (refl, refl, i)
  await-silence (suc n) (suc d) k buffer e s h l =
      let (bytes, g) = attempt-goes k (backoff f e) s (omega arith) in
      let ih =
        await-silence n d (suc k) buffer (mark f (backoff f e)) s
          (omega (arith, mark-retries f (backoff f e), ap most (mark-has_peer f (backoff f e))))
          (omega arith) in
      rw (g, await) (ih.0, ap suc ih.1, ih.2)

-- In no call do more messages go out than the engine has left before it gives up: three, or eight if the
-- peer has answered before.
send_recv-most :
    (f : Float) (w : World) (fill payload : List ℕ) (room : ℕ) (e : Engine f) (events : List Event)
    → e.retries ≤ most e.has_peer
    → length (send_recv f w fill payload room e events).sent + e.retries ≤ most e.has_peer
unfolding send_recv
send_recv-most f w fill payload room e events h =
    let sequence = bit_or e.sequence 0xf0000000 in
    let next = record e { sequence = (e.sequence + 1) % 2 ^ 32 } in
    if_both (λ (o : Outcome f). length o.sent + e.retries ≤ most e.has_peer) (not e.initiated) _ _
      (omega arith)
      (elim (Attempt-cases f (attempt f w 0 sequence payload next)) [
        | inl (e', z) ↦ rw z (omega arith)
        | inr (e', bytes, z) ↦
            let (r, p, l) = attempt-most f w sequence payload room 0 next e' z h in
            let b =
              await-most f w sequence payload room 1 (replicate room 0 ++ fill) e' events
                (omega (arith, r, l, ap most p)) in
            rw z (omega (arith, r, ap most p, b))
      ])

most_pos : (p : Bool) → (d : ℕ) × (most p ≡ suc d) × (d < 8)
most_pos true = (7, refl, omega arith)
most_pos false = (2, refl, omega arith)

-- A call whose first message goes out.
send_recv-went :
    (f : Float) (w : World) (fill payload : List ℕ) (room : ℕ) (e : Engine f) (events : List Event)
    {e' : Engine f} {bytes : List ℕ}
    → e.initiated ≡ true
    → attempt f w 0
        (bit_or e.sequence 0xf0000000)
        payload
        (record e { sequence = (e.sequence + 1) % 2 ^ 32 })
      ≡ went e' bytes
    → send_recv f w fill payload room e events
      ≡ record (await f w
          (bit_or e.sequence 0xf0000000)
          payload
          room
          1
          (replicate room 0 ++ fill)
          e'
          events) {
            sent =
                bytes
                ∷ (await f w
                    (bit_or e.sequence 0xf0000000)
                    payload
                    room
                    1
                    (replicate room 0 ++ fill)
                    e'
                    events).sent;
          }
unfolding send_recv
send_recv-went f w fill payload room e events i g =
    if_past (not e.initiated) _ (ap not i) (rw g refl)

-- If no answer comes and all messages can be sent, a call with a new engine or after an answer sends three messages,
-- or eight if the peer has answered before, and then fails and shuts the engine down.
pub send_recv-silence :
    (f : Float) (w : World) (fill payload : List ℕ) (room n : ℕ) (e : Engine f)
    → ((i : ℕ) → w.sends i ≡ true)
    → e.initiated ≡ true
    → e.retries ≡ 0
    → 8 ≤ n
    → ((send_recv f w fill payload room e (replicate n timed_out)).reply ≡ failed)
      × (length (send_recv f w fill payload room e (replicate n timed_out)).sent ≡ most e.has_peer)
      × ((send_recv f w fill payload room e (replicate n timed_out)).engine.initiated ≡ false)
unfolding send_recv
send_recv-silence f w fill payload room n e s i r l =
    let sequence = bit_or e.sequence 0xf0000000 in
    let next = record e { sequence = (e.sequence + 1) % 2 ^ 32 } in
    let (d, m, dl) = most_pos e.has_peer in
    let (bytes, g) = attempt-goes f w sequence payload room 0 next s (omega (arith, r, m)) in
    let q = send_recv-went f w fill payload room e (replicate n timed_out) i g in
    let k = mark-retries f next in
    let a =
      await-silence f w sequence payload room n d 1 (replicate room 0 ++ fill) (mark f next) s
        (omega (arith, k, r, m, ap most (mark-has_peer f next))) (omega arith) in
    rw q (a.0, omega (arith, a.1, m), a.2)
