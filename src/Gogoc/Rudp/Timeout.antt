-- ===== src/Gogoc/Rudp/Timeout.antt =====
-- gogoc/gogoc-tsp/src/net/net_rudp.c: the engine between two calls.
use Prim.Native.Nat.{bit_or}
use maiccu.Base.{
  ◌⊎◌, ℕ, suc, ◌+◌, ◌%◌, ◌^◌, ◌≡◌, inl, inr, refl, sym, subst, false, not, List, [], ◌∷◌, ◌++◌, ltb,
  be32, take, length, replicate, eq_bytes, Bool-cases, if_both,
}
use maiccu.Gogoc.Rudp.Attempts.{Attempt-cases, attempt-Keeps, Keeps}
use maiccu.Gogoc.Rudp.{
  Float, Event, timed_out, select_failed, recv_failed, datagram, World, Reply, answer, failed,
  waiting, fault, header_size, Engine, attempt, overlay, backoff, deinit, adjusted_rto, update,
  answered, Outcome, await, send_recv, net_rudp_init,
}

-- What the code relies on of the order of `float`: 2 and 30 are not less than themselves, nor is 30 less than 2.
pub record IsOrdered (f : Float) : Type 0 where
  pub tmin_irrefl : f.lt f.tmin f.tmin ≡ false
  pub tmax_irrefl : f.lt f.tmax f.tmax ≡ false
  pub tmin_tmax : f.lt f.tmax f.tmin ≡ false

module _ (f : Float) (o : IsOrdered f) where
  -- Not below two seconds and not above thirty.
  abbrev pub InRange : f.F → Type 0
  InRange x = (f.lt x f.tmin ≡ false) × (f.lt f.tmax x ≡ false)

  adjusted_rto-InRange : (x : f.F) → InRange (adjusted_rto f x)
  unfolding adjusted_rto
  adjusted_rto-InRange x = elim (Bool-cases (f.lt x f.tmin)) [
    | inl z ↦ rw z (o.tmin_irrefl, o.tmin_tmax)
    | inr z ↦ elim (Bool-cases (f.lt f.tmax x)) [
      | inl y ↦ rw (z, y) (o.tmin_tmax, o.tmax_irrefl)
      | inr y ↦ rw (z, y) (z, y)
    ]
  ]

  -- An engine between two calls: its time-out is in range, and a running one has no retries.
  pub record IsIdle (e : Engine f) : Type 0 where
    pub in_range : InRange e.rto
    pub no_retries : (e.initiated ≡ false) ⊎ (e.retries ≡ 0)

  -- What holds as long as a call lasts, and of its end.
  abbrev pub Ends : Reply → Engine f → Type 0
  Ends (answer a) e = IsIdle e
  Ends failed e = IsIdle e
  Ends waiting e = InRange e.rto
  Ends fault e = InRange e.rto

  IsIdle-off : (e : Engine f) → InRange e.rto → e.initiated ≡ false → IsIdle e
  IsIdle-off e r i = record { in_range = r; no_retries = inl i }

  backoff-InRange : (e : Engine f) → InRange e.rto → InRange (backoff f e).rto
  unfolding backoff
  backoff-InRange e r = if_both InRange e.apply_backoff _ _ (adjusted_rto-InRange (f.twice e.rto)) r

  answered-IsIdle : (e : Engine f) (rtt : ℕ) → IsIdle (answered f e rtt)
  unfolding answered update
  answered-IsIdle e rtt = record { in_range = adjusted_rto-InRange _; no_retries = inr refl }

  module _ (w : World) (sequence : ℕ) (payload : List ℕ) (room : ℕ) where
    await-Ends :
        (k : ℕ) (buffer : List ℕ) (e : Engine f) (events : List Event)
        → InRange e.rto
        → Ends
            (await f w sequence payload room k buffer e events).reply
            (await f w sequence payload room k buffer e events).engine
    unfolding await deinit
    await-Ends k buffer e [] r = r
    await-Ends k buffer e (select_failed ∷ events) r = IsIdle-off (deinit f e) r refl
    await-Ends k buffer e (recv_failed ∷ events) r = IsIdle-off (deinit f e) r refl
    await-Ends k buffer e (timed_out ∷ events) r =
        let b = backoff-InRange e r in
        let keeps = attempt-Keeps f w k sequence payload (backoff f e) in
        elim (Attempt-cases f (attempt f w k sequence payload (backoff f e))) [
          | inl (e', z) ↦
              let (i, q) = subst (Keeps f (backoff f e)) z keeps in
              rw (z, await) (IsIdle-off e' (subst InRange (sym q) b) i)
          | inr (e', bytes, z) ↦
              let q = subst (Keeps f (backoff f e)) z keeps in
              rw (z, await) (await-Ends (suc k) buffer e' events (subst InRange (sym q) b))
        ]
    await-Ends k buffer e (datagram bytes sec usec ∷ events) r =
        let got = take (header_size + room) bytes in
        let now = overlay got buffer in
        let P = λ (o : Outcome f). Ends o.reply o.engine in
        if_both P (not (eq_bytes (take 4 now) (be32 sequence))) _ _ (await-Ends k now e events r)
          (if_both P (ltb (length got) header_size) _ _ r (answered-IsIdle e _))

pub net_rudp_init-IsIdle :
    (f : Float) (o : IsOrdered f) (now : ℕ) → IsIdle f o (net_rudp_init f now)
unfolding net_rudp_init
net_rudp_init-IsIdle f o now = record {
  in_range = (o.tmin_irrefl, o.tmin_tmax);
  no_retries = inr refl;
}

-- A call that begins with a time-out from two to thirty seconds, and without retries if the engine runs, ends so if it
-- returns, with an answer or without; its time-out stays in this range in any case.
pub send_recv-Ends :
    (f : Float) (o : IsOrdered f) (w : World) (fill payload : List ℕ) (room : ℕ) (e : Engine f)
    (events : List Event)
    → IsIdle f o e
    → Ends f o
        (send_recv f w fill payload room e events).reply
        (send_recv f w fill payload room e events).engine
unfolding send_recv
send_recv-Ends f o w fill payload room e events h =
    let sequence = bit_or e.sequence 0xf0000000 in
    let next = record e { sequence = (e.sequence + 1) % 2 ^ 32 } in
    let keeps = attempt-Keeps f w 0 sequence payload next in
    if_both (λ (x : Outcome f). Ends f o x.reply x.engine) (not e.initiated) _ _ h
      (elim (Attempt-cases f (attempt f w 0 sequence payload next)) [
        | inl (e', z) ↦
            let (i, q) = subst (Keeps f next) z keeps in
            rw z (IsIdle-off f o e' (subst (InRange f o) (sym q) h.in_range) i)
        | inr (e', bytes, z) ↦
            let q = subst (Keeps f next) z keeps in
            rw z (
              await-Ends f o w sequence payload room 1 (replicate room 0 ++ fill) e' events
                (subst (InRange f o) (sym q) h.in_range))
      ])
