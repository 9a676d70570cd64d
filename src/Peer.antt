-- ===== src/Peer.antt =====
-- miredo/libteredo/peerlist.c, peerlist.h and relay.c: one peer, its packet queue and the counters
-- of bubbles and pings. `malloc` for a queued packet is taken to succeed (the code does not check).
pub mod Queue
pub mod Bubbles
pub mod Pings
use maiccu.Base.{
  ℕ, ◌+◌, ◌-◌, ◌%◌, ◌^◌, Bool, true, false, not, ◌&&◌, List, [], ◌∷◌, ◌++◌, ltb, leb, ◌==◌, length,
  if◌then◌else◌,
}
use maiccu.Effect.{Effect, sent, delivered}

-- `struct teredo_queue`, without the link.
pub record Queued : Type 0 where
  pub bytes : List ℕ
  pub ipv4 : ℕ
  pub port : ℕ
  pub incoming : Bool

-- `struct teredo_peer`. The newest packet is first in the queue.
pub record Peer : Type 0 where
  pub queue : List Queued
  pub queue_left : ℕ
  pub last_rx : ℕ
  pub last_tx : ℕ
  pub last_ping : ℕ
  pub mapped_addr : ℕ
  pub mapped_port : ℕ
  pub trusted : Bool
  pub local : Bool
  pub bubbles : ℕ
  pub pings : ℕ

abbrev pub max_queue_bytes : ℕ
max_queue_bytes = 1280

-- Subtraction of clock values, which are `unsigned long`.
abbrev pub since : ℕ → ℕ → ℕ
since now t = (now + 2 ^ 64 - t) % 2 ^ 64

-- The increment of a bit field of three bits.
abbrev pub bump : ℕ → ℕ
bump n = (n + 1) % 8

-- `teredo_peer_init`: it leaves all else as `malloc` gave it.
unfoldable pub peer_init : Peer → Peer
peer_init p = record p { queue = []; queue_left = max_queue_bytes }

unfoldable pub peer_queue : Peer → List ℕ → ℕ → ℕ → Bool → Peer
peer_queue p bytes ip port incoming =
    if ltb p.queue_left (length bytes)
    then p
    else (record p { queue = q ∷ p.queue; queue_left = p.queue_left - length bytes })
  where
    q : Queued
    q = record { bytes = bytes; ipv4 = ip; port = port; incoming = incoming }

unfoldable pub enqueue_in : Peer → List ℕ → ℕ → ℕ → Peer
unfolding peer_queue
enqueue_in p bytes ip port = peer_queue p bytes ip port true

unfoldable pub enqueue_out : Peer → List ℕ → Peer
unfolding peer_queue
enqueue_out p bytes = peer_queue p bytes 0 0 false

-- The queue is handed out and emptied.
unfoldable pub queue_yield : Peer → List Queued × Peer
queue_yield p = (p.queue, record p { queue = []; queue_left = max_queue_bytes })

-- What becomes of one queued packet once the mapping of the peer is known.
unfoldable pub emit_one : Queued → ℕ → ℕ → List Effect
emit_one q ip port =
    if q.incoming
    then if ip == q.ipv4 && port == q.port then delivered q.bytes ∷ [] else []
    else sent ip port q.bytes ∷ []

unfoldable pub queue_emit : List Queued → ℕ → ℕ → List Effect
unfolding emit_one
queue_emit [] ip port = []
queue_emit (q ∷ qs) ip port = emit_one q ip port ++ queue_emit qs ip port

unfoldable pub set_mapping : Peer → ℕ → ℕ → Peer
set_mapping p ip port = record p { mapped_addr = ip; mapped_port = port }

unfoldable pub touch_receive : Peer → ℕ → Peer
touch_receive p now = record p { last_rx = now }

unfoldable pub touch_transmit : Peer → ℕ → Peer
touch_transmit p now = record p { last_tx = now }

-- `IsValid`
unfoldable pub is_valid : Peer → ℕ → Bool
is_valid p now = leb (since now p.last_rx) (if p.local then 600 else 30)

-- The results 0, -1 and 1 of the two counters.
pub data Verdict : Type 0 where
  go stop later : Verdict

-- On `go` the packet is counted, and its time noted.
unfoldable pub count_bubble : Peer → ℕ → Peer × Verdict
count_bubble p now =
    if ltb 0 p.bubbles
    then if leb 4 p.bubbles
      then if leb (since now p.last_tx) 300
        then (p, stop)
        else (record p { bubbles = bump 0; last_tx = now }, go)
      else if leb (since now p.last_tx) 2
      then (p, later)
      else (record p { bubbles = bump p.bubbles; last_tx = now }, go)
    else (record p { bubbles = bump p.bubbles; last_tx = now }, go)

unfoldable pub count_ping : Peer → ℕ → Peer × Verdict
count_ping p now =
    if p.pings == 0
    then (record p { pings = bump p.pings; last_ping = now }, go)
    else if leb 4 p.pings
    then (p, stop)
    else if leb (since now p.last_ping) 2
    then (p, later)
    else (record p { pings = bump p.pings; last_ping = now }, go)
