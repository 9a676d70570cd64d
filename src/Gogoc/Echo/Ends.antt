-- ===== src/Gogoc/Echo/Ends.antt =====
-- gogoc/gogoc-tsp/src/net/icmp_echo_engine.c: the ICMP echo engine ends after its number of requests.
use maiccu.Base.{
  ℕ, ◌+◌, ◌*◌, ◌%◌, ◌^◌, ◌≤◌, ◌<◌, Bool, true, false, not, ◌&&◌, List, [], ◌∷◌, ltb, leb, ◌≡◌, refl,
  ap, sym, subst, ◌∙◌, arith, length, Bool-cases, Option-cases, inl, inr, ◌⊎◌, if_both, ltb-false,
}
use maiccu.Gogoc.Echo.{
  Timeval, micro, Event, Engine, compute_next_send, compute_echo_timeout, insert_echo_event,
  micro-compute_next_send,
}
use maiccu.Gogoc.Echo.Packet.{Host}
use maiccu.Gogoc.Echo.Process.{
  iee_success, invalid_parms, resource_starvation, connectivity_assessed, general_timeout,
  general_error, Sent, sent, tangled, do_send, Poll, Progress, done, waiting, knotted, heed,
  poll_once, read_loop, do_read_wrap, Pass, goes_on, after_send, and_then, process,
}
use maiccu.Gogoc.Echo.Fixed.{Fixed, fixed, fixed-poll_once}

-- After one of these reads the clock has reached this time.
abbrev pub Comes : ℕ → List Poll → Type 0
Comes ref [] = ⊥
Comes ref (p ∷ ps) = (ref ≤ p.now_left) ⊎ Comes ref ps

-- In every pass the interval comes to its end.
abbrev pub AllCome : ℕ → List Pass → Type 0
AllCome interval [] = Unit {0}
AllCome interval (p ∷ ps) =
    Comes (micro p.reference + interval * 1000) p.polls × AllCome interval ps

-- The run is over, with at most so many requests counted, or the list of events has lost its end.
abbrev pub Ended : ℕ → Progress → Type 0
Ended n (done s e) = e.count_send ≤ n
Ended n (waiting e) = ⊥
Ended n knotted = Unit {0}

abbrev FixedEnd : Fixed → Progress → Type 0
FixedEnd f (done s e) = fixed e ≡ f
FixedEnd f (waiting e) = ⊥
FixedEnd f knotted = Unit {0}

read_loop-FixedEnd :
    (h : Host) (f : Fixed) (ref before : ℕ) (ps : List Poll) (e : Engine)
    → fixed e ≡ f
    → Comes ref ps
    → FixedEnd f (read_loop h ref before ps e)
unfolding read_loop
read_loop-FixedEnd h f ref before [] e same c = absurd c
read_loop-FixedEnd h f ref before (p ∷ ps) e same (inl now) =
    rw (ltb-false p.now_left ref now) (fixed-poll_once h ref before p e ∙ same)
read_loop-FixedEnd h f ref before (p ∷ ps) e same (inr later) =
    let next = poll_once h ref before p e in
    let same' : fixed next.0 ≡ f = fixed-poll_once h ref before p e ∙ same in
    if_both (FixedEnd f) (ltb p.now_left ref && next.0.eng_ongoing) _ _
      (read_loop-FixedEnd h f ref p.now_left ps next.0 same' later) same'

do_read_wrap-FixedEnd :
    (h : Host) (f : Fixed) (ref before : ℕ) (ps : List Poll) (e : Engine)
    → fixed e ≡ f
    → Comes ref ps
    → FixedEnd f (do_read_wrap h ref before ps e)
unfolding do_read_wrap
do_read_wrap-FixedEnd h f ref before ps e same c =
    if_both (FixedEnd f) (leb ref before) _ _ same (read_loop-FixedEnd h f ref before ps e same c)

abbrev pub FixedSent : Fixed → Sent → Type 0
FixedSent f (sent e bs s) = fixed e ≡ f
FixedSent f tangled = Unit {0}

pub do_send-FixedSent :
    (h : Host) (now : Timeval) (memory takes : Bool) (e : Engine)
    → FixedSent
        (record (fixed e) { count_send = (e.count_send + 1) % 2 ^ 32 })
        (do_send h now memory takes e)
unfolding do_send compute_echo_timeout
do_send-FixedSent h now false takes e = refl
do_send-FixedSent h now true takes e =
    let counted : Engine = record e { count_send = (e.count_send + 1) % 2 ^ 32 } in
    let event : Event = record {
      echo_seq = e.count_send % 2 ^ 16;
      tv_timeout = (compute_echo_timeout counted now).1;
    } in
    elim (Option-cases (insert_echo_event event e.event_list)) [
      | inl never ↦ rw never tt
      | inr (events, found) ↦ rw found refl
    ]

after_send-FixedEnd :
    (h : Host) (f : Fixed) (p : Pass) (r : Sent)
    → FixedSent f r
    → Comes (micro p.reference + f.send_interval * 1000) p.polls
    → FixedEnd f (after_send h p r)
unfolding after_send
after_send-FixedEnd h f p tangled same c = tt
after_send-FixedEnd h f p (sent e bs iee_success) same c =
    let heeded = heed p.stopped_sending e in
    let ref = micro (compute_next_send heeded p.reference) in
    let at : ref ≡ micro p.reference + f.send_interval * 1000 =
      micro-compute_next_send heeded p.reference
      ∙ ap (λ (g : Fixed). micro p.reference + g.send_interval * 1000) same in
    if_both (FixedEnd f) (not heeded.eng_ongoing) _ _ same (
      do_read_wrap-FixedEnd h f ref p.now_reading p.polls heeded same
        (subst (λ r. Comes r p.polls) (sym at) c))
after_send-FixedEnd h f p (sent e bs invalid_parms) same c = same
after_send-FixedEnd h f p (sent e bs resource_starvation) same c = same
after_send-FixedEnd h f p (sent e bs connectivity_assessed) same c = same
after_send-FixedEnd h f p (sent e bs general_timeout) same c = same
after_send-FixedEnd h f p (sent e bs general_error) same c = same

counts : (e : Engine) (f : Fixed) → fixed e ≡ f → e.count_send ≡ f.count_send
counts e f same = ap (λ (g : Fixed). g.count_send) same

and_then-Ended :
    (n : ℕ) (f : Fixed) (r : Progress) (next : Engine → Progress)
    → FixedEnd f r
    → f.count_send ≤ n
    → ((e : Engine) → fixed e ≡ f → Ended n (next e))
    → Ended n (and_then r next)
unfolding and_then
and_then-Ended n f (done iee_success e) next same le go = go e same
and_then-Ended n f (done invalid_parms e) next same le go = omega (arith, counts e f same, le)
and_then-Ended n f (done resource_starvation e) next same le go = omega (arith, counts e f same, le)
and_then-Ended n f (done connectivity_assessed e) next same le go =
    omega (arith, counts e f same, le)
and_then-Ended n f (done general_timeout e) next same le go = omega (arith, counts e f same, le)
and_then-Ended n f (done general_error e) next same le go = omega (arith, counts e f same, le)
and_then-Ended n f (waiting e) next same le go = absurd same
and_then-Ended n f knotted next same le go = tt

goes_on-lt : (e : Engine) → 0 < e.echo_num → goes_on e ≡ true → e.count_send < e.echo_num
unfolding goes_on
goes_on-lt e pos on = ground arith

goes_on-full : (e : Engine) → 0 < e.echo_num → e.echo_num ≤ e.count_send → goes_on e ≡ false
unfolding goes_on
goes_on-full e pos full = ground arith

loop-Ended :
    (h : Host) (n i : ℕ) (ps : List Pass) (e : Engine)
    → 0 < n
    → n < 2 ^ 32
    → e.echo_num ≡ n
    → e.send_interval ≡ i
    → e.count_send ≤ n
    → n ≤ e.count_send + length ps
    → AllCome i ps
    → Ended n (process h ps e)
unfolding process
loop-Ended h n i [] e pos fits num interval le enough come =
    rw (goes_on-full e (omega arith) (omega arith)) le
loop-Ended h n i (p ∷ ps) e pos fits num interval le enough come =
    let heeded = heed p.stopped e in
    elim (Bool-cases (goes_on heeded)) [
      | inr off ↦ rw off le
      | inl on ↦
          let lt : e.count_send < e.echo_num = goes_on-lt heeded (omega arith) on in
          let f : Fixed = record (fixed e) { count_send = (e.count_send + 1) % 2 ^ 32 } in
          let sends : FixedSent f (do_send h p.now p.memory p.sends heeded) =
            do_send-FixedSent h p.now p.memory p.sends heeded in
          rw on (
            and_then-Ended n f (after_send h p (do_send h p.now p.memory p.sends heeded))
              (λ e'. process h ps e')
              (after_send-FixedEnd h f p _ sends
                (subst (λ j. Comes (micro p.reference + j * 1000) p.polls) (sym interval) come.0))
              (omega arith)
              (λ e' same.
                loop-Ended h n i ps e' pos fits (ap (λ (g : Fixed). g.echo_num) same ∙ num)
                  (ap (λ (g : Fixed). g.send_interval) same ∙ interval)
                  (omega (arith, counts e' f same)) (omega (arith, counts e' f same)) come.1))
    ]

-- An engine with a limit of requests, whose intervals come to their ends, ends: it has returned after as many passes
-- as there are requests left, with no more requests counted than the limit, unless its list of events has
-- lost its end.
pub process-Ended :
    (h : Host) (ps : List Pass) (e : Engine)
    → 0 < e.echo_num
    → e.echo_num < 2 ^ 32
    → e.count_send ≤ e.echo_num
    → e.echo_num ≤ e.count_send + length ps
    → AllCome e.send_interval ps
    → Ended e.echo_num (process h ps e)
process-Ended h ps e pos fits le enough come =
    loop-Ended h e.echo_num e.send_interval ps e pos fits refl refl le enough come
