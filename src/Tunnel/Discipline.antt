-- ===== src/Tunnel/Discipline.antt =====
-- miredo/libteredo/relay.c: the mutex of the peer list over whole calls.
pub mod Transmit
pub mod Parts
pub mod Receive
use maiccu.Base.{
  ℕ, ◌+◌, ◌*◌, ◌/◌, ◌%◌, ◌^◌, Bool, true, false, not, ◌&&◌, ◌||◌, List, [], ◌∷◌, ◌++◌, Option, none,
  some, ◌==◌, ltb, if◌then◌else◌, append-nil, append_assoc, ◌≡◌, refl, arith, Bool-cases,
  Option-cases, inl, inr, ap, sym, ◌∙◌,
}
use maiccu.Effect.{
  Effect, sent, delivered, icmpv6, went_up, went_down, maintained, lock, unlock, null_released,
}
use maiccu.Checksum.{Endian}
use maiccu.Address.{Address, ipport_teredo, in6_teredo_ipv4, in6_teredo_port}
use maiccu.Address.Codec.{in6_are_addr_equal_iff}
use maiccu.Packet.{Packet}
use maiccu.Peer.{
  Peer, Queued, Verdict, go, stop, later, count_bubble, count_ping, emit_one, queue_emit,
  enqueue_out, set_mapping, touch_transmit,
}
use maiccu.PeerList.Invariant.{IsList, set_locked-IsList}
use maiccu.PeerList.Reach.{lookup-IsList, store-IsList}
use maiccu.PeerList.Lookup.{promised, lookup-Delivers}
use maiccu.PeerList.{Memory, Found, lookup, insert, failed, store, release}
use maiccu.Security.{Md5, Keys}
use maiccu.Message.{
  Net, send_bubble, send_bubble_anyway, send_bubble_from_dst, reply_bubble, bubble_source,
}
use maiccu.Message.Echo.{send_ping}
use maiccu.Discovery.{Interface, send_discovery_bubble}
use maiccu.Tunnel.{
  max_peers, Tunnel, Host, Outcome, quiet, after, peer_of, locking, put_back, send_unreach,
}
use maiccu.Tunnel.Transmit.{
  encap, announce, bubble_local, ping_peer, punch, bubble_peer, connect, fresh, forward,
  transmit_to, transmit, unreach_addr, unreach_admin,
}

-- The mutex is taken when it is free and given back when it is held, all else that is done is done
-- while it is free, and it is free at the end.
unfoldable pub disciplined : Bool → List Effect → Bool
disciplined held [] = not held
disciplined held (lock ∷ es) = not held && disciplined true es
disciplined held (unlock ∷ es) = held && disciplined false es
disciplined held (sent ip port bs ∷ es) = not held && disciplined held es
disciplined held (delivered bs ∷ es) = not held && disciplined held es
disciplined held (icmpv6 bs a ∷ es) = not held && disciplined held es
disciplined held (went_up a mtu ∷ es) = not held && disciplined held es
disciplined held (went_down ∷ es) = not held && disciplined held es
disciplined held (maintained bs ∷ es) = not held && disciplined held es
disciplined held (null_released ∷ es) = not held && disciplined held es

-- Effects that leave the mutex alone.
abbrev pub Calm : List Effect → Type 0
Calm es = (fs : List Effect) → disciplined false (es ++ fs) ≡ disciplined false fs

-- The list is in its invariant, and nobody holds it.
abbrev pub Good : Tunnel → Type 0
Good t = (t.list.locked ≡ false) × IsList max_peers t.list

-- A call that starts with the mutex held, or free, ends with it free and the list released.
abbrev pub Ends : Bool → Outcome → Type 0
Ends held o = (disciplined held o.effects ≡ true) × Good o.tunnel

pub queue_emit-Calm : (qs : List Queued) (ip port : ℕ) → Calm (queue_emit qs ip port)
unfolding disciplined queue_emit emit_one
queue_emit-Calm [] ip port fs = refl
queue_emit-Calm (q ∷ qs) ip port fs = ground (arith, queue_emit-Calm qs ip port fs)

send_discovery_bubble-Calm :
    (net : Net) (select : Interface → Bool) (src : Address) (is : List Interface)
    → Calm (send_discovery_bubble net select src is)
unfolding disciplined send_discovery_bubble send_bubble_anyway
send_discovery_bubble-Calm net select src [] fs = refl
send_discovery_bubble-Calm net select src (i ∷ is) fs =
    ground (arith, send_discovery_bubble-Calm net select src is fs)

pub send_bubble-Calm :
    (net : Net) (ip port : ℕ) (src dst : Address) → Calm (send_bubble net ip port src dst).0
unfolding disciplined send_bubble send_bubble_anyway
send_bubble-Calm net ip port src dst fs = ground arith

pub send_unreach-Ends :
    (t : Tunnel) (now code : ℕ) (packet : List ℕ)
    → Good t
    → Ends false (send_unreach t now code packet)
unfolding disciplined send_unreach
send_unreach-Ends t now code packet h = ground (arith, h)

pub put_back-Good :
    (t : Tunnel) (a : Address) (p : Peer) → IsList max_peers t.list → Good (put_back t a p)
unfolding put_back release
put_back-Good t a p v = (refl, set_locked-IsList false (store-IsList t.list a p v))

-- What a lookup leaves: its list in the invariant, free if there is no peer.
pub lookup-Good :
    (t : Tunnel) (a : Address) (create : Bool) (m : Memory)
    → IsList max_peers t.list
    → peer_of (lookup t.list a create m) a ≡ none
    → Good (record t { list = (lookup t.list a create m).list })
unfolding peer_of promised
lookup-Good t a create m v n =
    let (f, c, b, s) = lookup-Delivers t.list a create m v in
    (
      ground (arith, f, c, b, s a, n, (in6_are_addr_equal_iff a a).1 refl),
      lookup-IsList t.list a create m v,
    )

pub quiet-Ends : (t : Tunnel) → Good t → Ends false (quiet t)
unfolding disciplined
quiet-Ends t h = (refl, h)

pub Calm-disciplined : (es : List Effect) → Calm es → disciplined false es ≡ true
unfolding disciplined
Calm-disciplined es c = ap (disciplined false) (sym (append-nil es)) ∙ c []

pub Calm-Ends :
    (t : Tunnel) (ok : Bool) (es : List Effect)
    → Calm es
    → Good t
    → Ends false (record { tunnel = t; effects = es; ok = ok })
Calm-Ends t ok es c h = (Calm-disciplined es c, h)

pub Calm-after : (es : List Effect) (o : Outcome) → Calm es → Ends false o → Ends false (after es o)
Calm-after es o c h = (c o.effects ∙ h.0, h.1)

pub Calm-append : (es fs : List Effect) → Calm es → Calm fs → Calm (es ++ fs)
Calm-append es fs c d gs = rw (append_assoc es fs gs, c (fs ++ gs)) (d gs)

send_ping-Calm :
    (e : Endian) (md5 : Md5) (k : Keys) (net : Net) (now : ℕ) (src dst : Address)
    → Calm (send_ping e md5 k net now src dst).0
unfolding disciplined send_ping
send_ping-Calm e md5 k net now src dst fs = refl

pub announce-Calm : (t : Tunnel) (v : Host) → Calm (announce t v)
unfolding disciplined announce
announce-Calm t v fs =
    elim t.discovery
      as (λ o.
        disciplined false (
          elim o [
            | none ↦ null_released ∷ []
            | some d ↦ send_discovery_bubble v.net v.select d.src d.ifaces
          ]
          ++ fs)
        ≡ disciplined false fs) [
          | none ↦ refl
          | some d ↦ send_discovery_bubble-Calm v.net v.select d.src d.ifaces fs
        ]
