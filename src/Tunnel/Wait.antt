-- ===== src/Tunnel/Wait.antt =====
-- miredo/libteredo/relay.c: a packet that a relay has to hold back waits in the queue of its peer.
use maiccu.Base.{
  ℕ, ◌≤◌, true, false, not, ◌&&◌, ◌||◌, List, [], ◌∷◌, none, some, ◌==◌, ltb, ◌≡◌, refl, arith,
  length,
}
use maiccu.Checksum.{Endian}
use maiccu.Address.{Address, first_byte, in6_teredo_ipv4, in6_teredo_port, is_ipv4_global_unicast}
use maiccu.Address.Codec.{in6_are_addr_equal_iff}
use maiccu.Peer.{Peer, Queued, go, count_bubble, enqueue_out, peer_init, set_mapping}
use maiccu.PeerList.{PeerList, Memory, item_of, lookup}
use maiccu.PeerList.Invariant.{IsList}
use maiccu.PeerList.Lookup.{promised, lookup-Delivers}
use maiccu.Security.{Md5, Keys}
use maiccu.Message.{ip6_dst}
use maiccu.Tunnel.{Tunnel, Host, max_peers, peer_of, put_back}
use maiccu.Tunnel.Transmit.{fresh, punch, bubble_peer, connect, forward, transmit}

-- The peer that a lookup makes for an unknown address.
pub lookup_makes :
    (l : PeerList) (a : Address) (m : Memory)
    → IsList max_peers l
    → item_of l a ≡ none
    → (m.node && m.item && ltb 0 l.left) ≡ true
    → let f = lookup l a true m in
      (f.found ≡ true) × (f.created ≡ true) × (peer_of f a ≡ some (peer_init m.junk))
unfolding peer_of promised
lookup_makes l a m v n r =
    let (f, c, b, s) = lookup-Delivers l a true m v in
    ground (arith, f, c, s a, n, r, (in6_are_addr_equal_iff a a).1 refl)

-- The peer with the packet in its queue.
abbrev pub waiting : Host → List ℕ → Address → Peer
waiting v packet dst =
    (count_bubble
      (enqueue_out
        (set_mapping (fresh (peer_init v.memory.junk)) (in6_teredo_ipv4 dst) (in6_teredo_port dst))
        packet)
      v.now).0

abbrev pub queued : List ℕ → Queued
queued packet = record { bytes = packet; ipv4 = 0; port = 0; incoming = false }

pub waiting_queue :
    (v : Host) (packet : List ℕ) (dst : Address)
    → length packet ≤ 1280
    → ((waiting v packet dst).queue ≡ queued packet ∷ [])
      × ((waiting v packet dst).trusted ≡ false)
      × ((waiting v packet dst).local ≡ false)
unfolding count_bubble enqueue_out set_mapping fresh peer_init
waiting_queue v packet dst h = ground (arith, h)

first_verdict :
    (v : Host) (packet : List ℕ) (dst : Address)
    → (count_bubble
        (enqueue_out
          (set_mapping
            (fresh (peer_init v.memory.junk))
            (in6_teredo_ipv4 dst)
            (in6_teredo_port dst))
          packet)
        v.now).1
      ≡ go
unfolding count_bubble enqueue_out set_mapping fresh peer_init
first_verdict v packet dst = ground arith

module _ (e : Endian) (md5 : Md5) (k : Keys) where
  punch-tunnel : (u : Tunnel) (v : Host) (dst : Address) → (punch e md5 k u v dst).tunnel ≡ u
  unfolding punch
  punch-tunnel u v dst = ground arith

  -- The first packet of a new peer that is a Teredo client.
  bubble_peer-tunnel :
      (u : Tunnel) (v : Host) (packet : List ℕ) (dst : Address)
      → (bubble_peer e md5 k u v packet dst true (fresh (peer_init v.memory.junk))).tunnel
        ≡ put_back u dst (waiting v packet dst)
  unfolding bubble_peer
  bubble_peer-tunnel u v packet dst =
      rw (first_verdict v packet dst) (punch-tunnel (put_back u dst (waiting v packet dst)) v dst)

  connect_tunnel :
      (u : Tunnel) (v : Host) (packet : List ℕ) (dst : Address)
      → (dst.prefix == u.state.addr.prefix) ≡ true
      → (connect e md5 k u v packet dst true (fresh (peer_init v.memory.junk))).tunnel
        ≡ put_back u dst (waiting v packet dst)
  unfolding connect fresh
  connect_tunnel u v packet dst x = rw x (bubble_peer-tunnel u v packet dst)

  forward-tunnel :
      (u : Tunnel) (v : Host) (packet : List ℕ) (dst : Address)
      → (dst.prefix == u.state.addr.prefix) ≡ true
      → (forward e md5 k u v packet dst true (peer_init v.memory.junk)).tunnel
        ≡ put_back u dst (waiting v packet dst)
  unfolding forward
  forward-tunnel u v packet dst x = connect_tunnel u v packet dst x

  module _ (t : Tunnel) (v : Host) (packet : List ℕ) where
    abbrev pub dst : Address
    dst = ip6_dst packet

    abbrev pub made : Tunnel
    made = record t { list = (lookup t.list dst true v.memory).list }

    -- A relay that is asked to forward to an unknown client of its prefix lets the packet wait.
    pub transmit_waits :
        IsList max_peers t.list
        → item_of t.list dst ≡ none
        → (v.memory.node && v.memory.item && ltb 0 t.list.left) ≡ true
        → t.client ≡ false
        → (dst.prefix == t.state.addr.prefix) ≡ true
        → (first_byte dst == 0xff) ≡ false
        → (not (is_ipv4_global_unicast dst.server_ip) || dst.server_ip == 0) ≡ false
        → (transmit e md5 k t v packet).tunnel ≡ put_back made dst (waiting v packet dst)
    unfolding transmit
    transmit_waits w n r c x m g =
        let (found, created, there) = lookup_makes t.list dst v.memory w n r in
        let relay : (t.client && not t.state.up) ≡ false = ground (arith, c) in
        rw (m, relay, x, g, there, created) (forward-tunnel made v packet dst x)
