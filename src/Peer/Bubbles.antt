-- ===== src/Peer/Bubbles.antt =====
-- The rate limit on bubbles (§ 5.2.6 of RFC 4380): at most four in 300 seconds.
use maiccu.Base.{
  ℕ, ◌+◌, ◌-◌, ◌≤◌, ◌<◌, ◌^◌, ◌&&◌, List, [], ◌∷◌, ltb, leb, ◌==◌, ◌≡◌, ◌≢◌, ◌⊎◌, arith,
  if◌then◌else◌,
}
use maiccu.Peer.{Peer, go, count_bubble}

-- The times at which bubbles go out, in a run of requests with no answer in between.
unfoldable pub bubble_times : Peer → List ℕ → List ℕ
bubble_times p [] = []
bubble_times p (now ∷ ts) =
    let (p', v) = count_bubble p now in
    let rest = bubble_times p' ts in elim v [ go ↦ now ∷ rest | _ ↦ rest ]

-- How many of the times lie in the 300 seconds from `lo` on.
unfoldable pub count_within : ℕ → List ℕ → ℕ
count_within lo [] = 0
count_within lo (t ∷ ts) = (if leb lo t && leb t (lo + 300) then 1 else 0) + count_within lo ts

-- The clock does not run backwards, and does not overflow.
abbrev pub IsClock : ℕ → List ℕ → Type 0
IsClock t [] = Unit {0}
IsClock t (now ∷ ts) = (t ≤ now) × (now < 2 ^ 64) × IsClock now ts

-- What may still go out, `b` bubbles after the last reset and with the last one at `t`.
allowance : ℕ → ℕ → ℕ → ℕ
allowance lo b t =
    if b == 0 then 4 else if ltb (lo + 300) t then 0 else if leb lo t then 4 - b else 4

-- The time of the last bubble counts only after a bubble.
abbrev since_reset : Peer → ℕ
since_reset p = if p.bubbles == 0 then 0 else p.last_tx

pub IsClock-mono : (s t : ℕ) (ts : List ℕ) → s ≤ t → IsClock t ts → IsClock s ts
IsClock-mono s t [] h c = tt
IsClock-mono s t (now ∷ ts) h c = (omega arith, c.1, c.2)

-- One request: it changes nothing, or a bubble goes out that the limits allow.
abbrev Counted : Peer → ℕ → Type 0
Counted p now =
    ((count_bubble p now).0 ≡ p) × ((count_bubble p now).1 ≢ go)
    ⊎ ((count_bubble p now).1 ≡ go)
      × ((count_bubble p now).0.last_tx ≡ now)
      × (((count_bubble p now).0.bubbles ≡ p.bubbles + 1) × (p.bubbles < 4)
          ⊎ ((count_bubble p now).0.bubbles ≡ 1) × (p.bubbles ≡ 4) × (p.last_tx + 300 < now))

count_bubble-Counted :
    (p : Peer) (now : ℕ) → p.bubbles ≤ 4 → since_reset p ≤ now → now < 2 ^ 64 → Counted p now
unfolding count_bubble
count_bubble-Counted p now h c b = ground arith

bubbles_within :
    (lo : ℕ) (p : Peer) (ts : List ℕ)
    → p.bubbles ≤ 4
    → IsClock (since_reset p) ts
    → count_within lo (bubble_times p ts) ≤ allowance lo p.bubbles p.last_tx
unfolding bubble_times count_within allowance
bubbles_within lo p [] h c = omega arith
bubbles_within lo p (now ∷ ts) h c =
    let q = (count_bubble p now).0 in
    ground (
      arith,
      count_bubble-Counted p now h c.0 c.1,
      bubbles_within lo q ts,
      bubbles_within lo p ts h,
      IsClock-mono (since_reset p) now ts c.0 c.2,
    )

allowance-le : (lo b t : ℕ) → allowance lo b t ≤ 4
unfolding allowance
allowance-le lo b t = ground arith

-- Whenever a run of bubble requests is made of a peer whose counter is at most 4 (as it is after
-- a reset), by a clock that does not run backwards, at most four bubbles go out in any 300 seconds.
pub bubbles_within_300 :
    (lo : ℕ) (p : Peer) (ts : List ℕ)
    → p.bubbles ≤ 4
    → IsClock (since_reset p) ts
    → count_within lo (bubble_times p ts) ≤ 4
bubbles_within_300 lo p ts h c =
    omega (arith, bubbles_within lo p ts h c, allowance-le lo p.bubbles p.last_tx)
