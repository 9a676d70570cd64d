-- ===== src/Tunnel/Limit.antt =====
-- miredo/libteredo/relay.c: the limit on ICMPv6 errors of `teredo_send_unreach`.
use mathlib.Core.List.{map}
use maiccu.Base.{
  ℕ, zero, suc, true, false, ==_iff, ap, ◌-◌, List, [], ◌∷◌, ◌++◌, ◌==◌, ◌≡◌, refl, arith,
  if◌then◌else◌, length, take, Bool-cases, inl, inr,
}
use maiccu.Effect.{Effect, icmpv6}
use maiccu.Message.{ip6_src}
use maiccu.Message.Echo.{dst_unreach, icmpv6_error}
use maiccu.Tunnel.{Tunnel, send_unreach}

-- All that a sequence of calls at one value of the clock does to the outside, in its order.
pub answers : Tunnel → ℕ → List (ℕ × List ℕ) → List Effect
unfolding send_unreach
answers t now [] = []
answers t now ((code, packet) ∷ ps) =
    let o = send_unreach t now code packet in o.effects ++ answers o.tunnel now ps

-- The call of the callback with the Destination Unreachable error for a packet, to its source.
abbrev pub unreachable : ℕ × List ℕ → Effect
unreachable (code, packet) =
    icmpv6 (icmpv6_error dst_unreach code packet (length packet)) (ip6_src packet)

answers_now :
    (n : ℕ) (t : Tunnel) (now : ℕ) (ps : List (ℕ × List ℕ))
    → t.last ≡ now
    → t.count ≡ n
    → answers t now ps ≡ map unreachable (take n ps)
unfolding answers send_unreach
answers_now zero t now [] h c = refl
answers_now (suc n) t now [] h c = refl
answers_now zero t now ((code, packet) ∷ ps) h c =
    let seen : (now == t.last) ≡ true = ground arith in
    let none_left : (t.count == 0) ≡ true = ground arith in
    rw (seen, none_left) (answers_now 0 (record t { last = now; count = 0 }) now ps refl refl)
answers_now (suc n) t now ((code, packet) ∷ ps) h c =
    let seen : (now == t.last) ≡ true = ground arith in
    let some_left : (t.count == 0) ≡ false = ground arith in
    rw (seen, some_left)
      (ap (◌∷◌ (unreachable (code, packet)))
        (answers_now n (record t { last = now; count = t.count - 1 }) now ps refl (omega arith)))

-- At a value of the clock that the tunnel has not seen before, calls for any packets call the callback for ICMPv6 errors
-- for the first ten of them, in their order, each with the Destination Unreachable error for its packet, which
-- is empty where BuildICMPv6Error refuses to build one, and do nothing else; at the value it has seen last, the same
-- for the first of what is left.
pub errors_limit :
    (t : Tunnel) (now : ℕ) (ps : List (ℕ × List ℕ))
    → answers t now ps ≡ map unreachable (take (if t.last == now then t.count else 10) ps)
unfolding answers send_unreach
errors_limit t now ps = elim (Bool-cases (t.last == now)) [
  | inl seen ↦ rw seen (answers_now t.count t now ps ((==_iff t.last now).0 seen) refl)
  | inr new ↦ rw new (afresh new ps)
]
  where
    afresh :
        (t.last == now) ≡ false
        → (ps : List (ℕ × List ℕ)) → answers t now ps ≡ map unreachable (take 10 ps)
    afresh new [] = refl
    afresh new ((code, packet) ∷ ps) =
        let unseen : (now == t.last) ≡ false = ground arith in
        rw unseen (
          ap (◌∷◌ (unreachable (code, packet)))
            (answers_now 9 (record t { last = now; count = 9 }) now ps refl refl))
