-- ===== src/Tunnel/Discipline/Parts.antt =====
-- miredo/libteredo/relay.c: the mutex of the peer list in the parts of `teredo_run_inner`.
use maiccu.Base.{
  ℕ, Bool, true, false, not, List, [], ◌∷◌, ◌++◌, some, if◌then◌else◌, refl, arith, Option-cases,
  inl, inr,
}
use maiccu.Effect.{Effect, delivered}
use maiccu.Address.{Address}
use maiccu.Packet.{Packet}
use maiccu.Peer.{Peer, count_bubble, queue_emit, touch_receive, queue_yield, set_mapping}
use maiccu.PeerList.Invariant.{IsList}
use maiccu.PeerList.Reach.{lookup-IsList, store-IsList}
use maiccu.PeerList.{lookup, store}
use maiccu.Message.{send_bubble_anyway, ip6_src, is_bubble}
use maiccu.Tunnel.{max_peers, Tunnel, Host, Outcome, peer_of, locking, put_back}
use maiccu.Tunnel.Receive.{
  whole_packet, predecap, then_deliver, obtain, answer_discovery, drop_peer, adopt,
}
use maiccu.Tunnel.Discipline.{
  disciplined, Calm, Good, Ends, put_back-Good, lookup-Good, Calm-disciplined, Calm-append,
  queue_emit-Calm,
}

-- The accepted peer with its time, its counters and its queue cleared.
abbrev pub cleared : Peer → Host → Peer
cleared q v = (queue_yield (record (touch_receive q v.now) { bubbles = 0; pings = 0 })).1

pub predecap-Ends :
    (t : Tunnel) (v : Host) (src : Address) (q : Peer) (es : List Effect)
    → IsList max_peers t.list
    → Calm es
    → Ends true (then_deliver (predecap t v src q) es)
unfolding disciplined predecap queue_yield touch_receive
predecap-Ends t v src q es w c = (
  Calm-disciplined (queue_emit q.queue q.mapped_addr q.mapped_port ++ es) (
      Calm-append (queue_emit q.queue q.mapped_addr q.mapped_port) es
        (queue_emit-Calm q.queue q.mapped_addr q.mapped_port) c),
  put_back-Good t src (cleared q v) w,
)

pub predecap-Ends_alone :
    (t : Tunnel) (v : Host) (src : Address) (q : Peer)
    → IsList max_peers t.list
    → Ends true (predecap t v src q)
unfolding disciplined predecap queue_yield touch_receive
predecap-Ends_alone t v src q w = (
  Calm-disciplined (queue_emit q.queue q.mapped_addr q.mapped_port)
      (queue_emit-Calm q.queue q.mapped_addr q.mapped_port),
  put_back-Good t src (cleared q v) w,
)

pub delivered-Calm : (bs : List ℕ) → Calm (delivered bs ∷ [])
unfolding disciplined
delivered-Calm bs fs = refl

if-Calm : (b : Bool) (es : List Effect) → Calm es → Calm (if b then [] else es)
if-Calm true es c fs = refl
if-Calm false es c fs = c fs

pub if-Ends :
    (b : Bool) (x y : Outcome) → Ends false x → Ends false y → Ends false (if b then x else y)
if-Ends true x y h k = h
if-Ends false x y h k = k

pub told-Calm : (b : Bool) (es : List Effect) → Calm es → Calm (if b then es else [])
told-Calm true es c fs = c fs
told-Calm false es c fs = refl

pub adopt-Ends :
    (v : Host) (p : Packet) (t : Tunnel) (q : Peer)
    → IsList max_peers t.list
    → Ends true (adopt v p t q)
unfolding adopt
adopt-Ends v p t q w =
    predecap-Ends t v (ip6_src p.ip6)
      (record (set_mapping q p.source_ipv4 p.source_port) { trusted = true }) _ w
      (if-Calm (is_bubble p.ip6) _ (delivered-Calm (whole_packet p)))

pub drop_peer-Ends :
    (t : Tunnel) (src : Address) (q : Peer)
    → IsList max_peers t.list
    → Ends true (drop_peer t src (some q))
unfolding disciplined drop_peer
drop_peer-Ends t src q w = (refl, put_back-Good t src q w)

store-Good :
    (t : Tunnel) (a : Address) (p : Peer) → Good t → Good (record t { list = store t.list a p })
unfolding store
store-Good t a p g = (g.0, store-IsList t.list a p g.1)

pub answer_discovery-Ends :
    (v : Host) (p : Packet) (t : Tunnel) (q : Peer)
    → IsList max_peers t.list
    → Ends true (answer_discovery v p t q)
unfolding disciplined answer_discovery send_bubble_anyway
answer_discovery-Ends v p t q w =
    let q1 =
      touch_receive
        (record (set_mapping (if not q.local then record q { bubbles = 0 } else q) p.source_ipv4
          p.source_port) { local = true })
        v.now in
    let g = put_back-Good t (ip6_src p.ip6) q1 w in
    let h =
      store-Good (put_back t (ip6_src p.ip6) q1) (ip6_src p.ip6) (count_bubble q1 v.now).0 g in
    ground (arith, h)

-- The second lookup hands a locked list on.
pub obtain-Ends :
    (t : Tunnel) (v : Host) (src : Address) (next : Tunnel → Bool → Peer → Outcome)
    → IsList max_peers t.list
    → ((u : Tunnel) (created : Bool) (q : Peer)
        → IsList max_peers u.list
        → Ends true (next u created q))
    → Ends false (obtain t v src next)
unfolding disciplined obtain locking
obtain-Ends t v src next w step =
    let f = lookup t.list src true v.memory in
    elim (Option-cases (peer_of f src)) [
      | inl none_there ↦ rw none_there (refl, lookup-Good t src true v.memory w none_there)
      | inr (q, there) ↦
          rw there (
            step (record t { list = f.list }) f.created q
              (lookup-IsList t.list src true v.memory w))
    ]
