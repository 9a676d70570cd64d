-- ===== src/Gogoc/Echo/Runs.antt =====
-- gogoc/gogoc-tsp/src/net/icmp_echo_engine.c: what every step of the ICMP echo engine keeps, a run keeps.
use maiccu.Base.{
  ℕ, Bool, true, false, not, ◌&&◌, List, [], ◌∷◌, ◌≡◌, ltb, leb, if◌then◌else◌, Bool-cases, inl,
  inr,
}
use maiccu.Gogoc.Echo.{Timeval, micro, Engine, compute_next_send}
use maiccu.Gogoc.Echo.Packet.{Host}
use maiccu.Gogoc.Echo.Process.{
  Status, iee_success, invalid_parms, resource_starvation, connectivity_assessed, general_timeout,
  general_error, Sent, sent, tangled, do_send, Poll, Progress, done, waiting, knotted, heed,
  poll_once, read_loop, do_read_wrap, Pass, goes_on, process, after_send, and_then,
}

-- Without memory for an event the engine has counted a request that it did not send: nothing is kept.
abbrev pub UnlessStarved : Status → Type 0 → Type 0
UnlessStarved iee_success P = P
UnlessStarved invalid_parms P = P
UnlessStarved resource_starvation P = Unit
UnlessStarved connectivity_assessed P = P
UnlessStarved general_timeout P = P
UnlessStarved general_error P = P

abbrev pub KeptSent : (Engine → Type 0) → Sent → Type 0
KeptSent P (sent e bs s) = UnlessStarved s (P e)
KeptSent P tangled = Unit

abbrev pub Kept : (Engine → Type 0) → Progress → Type 0
Kept P (done s e) = UnlessStarved s (P e)
Kept P (waiting e) = P e
Kept P knotted = Unit

-- Each step of the engine keeps `P`.
pub record Keeps (h : Host) (P : Engine → Type 0) : Type 0 where
  pub heeds : (b : Bool) (e : Engine) → P e → P (heed b e)
  pub sends :
      (now : Timeval) (memory takes : Bool) (e : Engine)
      → P e
      → goes_on e ≡ true
      → KeptSent P (do_send h now memory takes e)
  pub polls : (ref before : ℕ) (p : Poll) (e : Engine) → P e → P (poll_once h ref before p e).0

module _ {h : Host} {P : Engine → Type 0} (k : Keeps h P) where
  always : (s : Status) (e : Engine) → P e → UnlessStarved s (P e)
  always iee_success e p = p
  always invalid_parms e p = p
  always resource_starvation e p = tt
  always connectivity_assessed e p = p
  always general_timeout e p = p
  always general_error e p = p

  Kept-if : (b : Bool) (x y : Progress) → Kept P x → Kept P y → Kept P (if b then x else y)
  Kept-if true x y p q = p
  Kept-if false x y p q = q

  pub read_loop-Kept :
      (ref before : ℕ) (ps : List Poll) (e : Engine) → P e → Kept P (read_loop h ref before ps e)
  unfolding read_loop
  read_loop-Kept ref before [] e p = p
  read_loop-Kept ref before (q ∷ qs) e p =
      let next = poll_once h ref before q e in
      let p' : P next.0 = k.polls ref before q e p in
      Kept-if (ltb q.now_left ref && next.0.eng_ongoing) _ _
        (read_loop-Kept ref q.now_left qs next.0 p') (always next.1 next.0 p')

  pub do_read_wrap-Kept :
      (ref before : ℕ) (ps : List Poll) (e : Engine) → P e → Kept P (do_read_wrap h ref before ps e)
  unfolding do_read_wrap
  do_read_wrap-Kept ref before ps e p =
      Kept-if (leb ref before) _ _ p (read_loop-Kept ref before ps e p)

  after_send-Kept : (p : Pass) (r : Sent) → KeptSent P r → Kept P (after_send h p r)
  unfolding after_send
  after_send-Kept p tangled kept = tt
  after_send-Kept p (sent e bs iee_success) kept =
      let heeded = heed p.stopped_sending e in
      let kept' : P heeded = k.heeds p.stopped_sending e kept in
      Kept-if (not heeded.eng_ongoing) _ _ kept' (
        do_read_wrap-Kept (micro (compute_next_send heeded p.reference)) p.now_reading p.polls
          heeded kept')
  after_send-Kept p (sent e bs invalid_parms) kept = kept
  after_send-Kept p (sent e bs resource_starvation) kept = kept
  after_send-Kept p (sent e bs connectivity_assessed) kept = kept
  after_send-Kept p (sent e bs general_timeout) kept = kept
  after_send-Kept p (sent e bs general_error) kept = kept

  and_then-Kept :
      (r : Progress) (next : Engine → Progress)
      → Kept P r
      → ((e : Engine) → P e → Kept P (next e))
      → Kept P (and_then r next)
  unfolding and_then
  and_then-Kept (done iee_success e) next kept onward = onward e kept
  and_then-Kept (done invalid_parms e) next kept onward = kept
  and_then-Kept (done resource_starvation e) next kept onward = kept
  and_then-Kept (done connectivity_assessed e) next kept onward = kept
  and_then-Kept (done general_timeout e) next kept onward = kept
  and_then-Kept (done general_error e) next kept onward = kept
  and_then-Kept (waiting e) next kept onward = kept
  and_then-Kept knotted next kept onward = tt

  pub process-Kept : (ps : List Pass) (e : Engine) → P e → Kept P (process h ps e)
  unfolding process
  process-Kept [] e kept = Kept-if (goes_on e) _ _ kept kept
  process-Kept (p ∷ ps) e kept =
      let heeded = heed p.stopped e in
      let kept' : P heeded = k.heeds p.stopped e kept in
      elim (Bool-cases (goes_on heeded)) [
        | inl on ↦ rw on (
            and_then-Kept (after_send h p (do_send h p.now p.memory p.sends heeded))
              (λ e'. process h ps e')
              (after_send-Kept p (do_send h p.now p.memory p.sends heeded)
                (k.sends p.now p.memory p.sends heeded kept' on))
              (process-Kept ps))
        | inr off ↦ rw off kept'
      ]
