-- ===== src/Peer/Pings.antt =====
-- The rate limit on pings: four in all until an answer comes, more than two seconds apart.
use maiccu.Base.{
  ℕ, ◌+◌, ◌≤◌, ◌<◌, ◌^◌, List, [], ◌∷◌, ◌==◌, ◌≡◌, ◌≢◌, ◌⊎◌, subst, arith, if◌then◌else◌, length,
}
use maiccu.Peer.{Peer, go, count_ping}
use maiccu.Peer.Bubbles.{IsClock, IsClock-mono}

-- The times at which pings go out, in a run of requests with no answer in between.
unfoldable pub ping_times : Peer → List ℕ → List ℕ
ping_times p [] = []
ping_times p (now ∷ ts) =
    let (p', v) = count_ping p now in
    let rest = ping_times p' ts in elim v [ go ↦ now ∷ rest | _ ↦ rest ]

-- Each time is more than two seconds after the one before it, the first after `t`.
abbrev pub IsSpaced : ℕ → List ℕ → Type 0
IsSpaced t [] = Unit {0}
IsSpaced t (u ∷ us) = (t + 2 < u) × IsSpaced u us

abbrev pub IsSpacedRun : List ℕ → Type 0
IsSpacedRun [] = Unit {0}
IsSpacedRun (t ∷ ts) = IsSpaced t ts

abbrev Counted : Peer → ℕ → Type 0
Counted p now =
    ((count_ping p now).0 ≡ p) × ((count_ping p now).1 ≢ go)
    ⊎ ((count_ping p now).1 ≡ go)
      × ((count_ping p now).0.last_ping ≡ now)
      × ((count_ping p now).0.pings ≡ p.pings + 1)
      × (p.pings < 4)
      × ((p.pings ≡ 0) ⊎ (p.last_ping + 2 < now))

-- The time of the last ping counts only after a ping.
abbrev since_reset : Peer → ℕ
since_reset p = if p.pings == 0 then 0 else p.last_ping

count_ping-Counted :
    (p : Peer) (now : ℕ) → p.pings ≤ 4 → since_reset p ≤ now → now < 2 ^ 64 → Counted p now
unfolding count_ping
count_ping-Counted p now h c b = ground arith

pings_left :
    (p : Peer) (ts : List ℕ)
    → p.pings ≤ 4
    → IsClock (since_reset p) ts
    → length (ping_times p ts) + p.pings ≤ 4
unfolding ping_times
pings_left p [] h c = omega arith
pings_left p (now ∷ ts) h c =
    let q = (count_ping p now).0 in
    ground (
      arith,
      count_ping-Counted p now h c.0 c.1,
      pings_left q ts,
      pings_left p ts h,
      IsClock-mono (since_reset p) now ts c.0 c.2,
    )

pings-IsSpaced :
    (p : Peer) (ts : List ℕ)
    → p.pings ≤ 4
    → p.pings ≢ 0
    → IsClock (since_reset p) ts
    → IsSpaced p.last_ping (ping_times p ts)
unfolding ping_times
pings-IsSpaced p [] h n c = tt
pings-IsSpaced p (now ∷ ts) h n c =
    let q = (count_ping p now).0 in
    ground (
      arith,
      count_ping-Counted p now h c.0 c.1,
      pings-IsSpaced q ts,
      pings-IsSpaced p ts h n,
      IsClock-mono (since_reset p) now ts c.0 c.2,
    )

count_ping-zero :
    (p : Peer) (now : ℕ)
    → p.pings ≡ 0
    → ((count_ping p now).1 ≡ go)
      × ((count_ping p now).0.last_ping ≡ now)
      × ((count_ping p now).0.pings ≡ 1)
unfolding count_ping
count_ping-zero p now z = ground arith

-- Whenever a run of ping requests is made of a peer whose counter has been reset, by a clock that
-- does not run backwards: at most four pings go out, more than two seconds apart.
ping_times-limit :
    (p : Peer) (ts : List ℕ)
    → p.pings ≡ 0
    → IsClock (since_reset p) ts
    → (length (ping_times p ts) ≤ 4) × IsSpacedRun (ping_times p ts)
unfolding ping_times
ping_times-limit p [] z c = (omega arith, tt)
ping_times-limit p (now ∷ ts) z c =
    let q = (count_ping p now).0 in
    let g = count_ping-zero p now z in
    let after : IsClock (since_reset q) ts =
      IsClock-mono (since_reset q) now ts (ground (arith, g)) c.2 in
    let bound = pings_left p (now ∷ ts) (ground (arith, z)) c in
    (
      omega (arith, bound),
      rw (g.0, ping_times, IsSpacedRun)
          (subst (λ (t : ℕ). IsSpaced t (ping_times q ts)) g.1
            (pings-IsSpaced q ts (omega (arith, g.2)) (ground (arith, g)) after)),
    )
