-- ===== src/Tunnel/Punch.antt =====
-- miredo/libteredo/relay.c: a relay that forwards to a Teredo client behind a restricted NAT.
use maiccu.Base.{
  ℕ, ◌+◌, ◌/◌, ◌≤◌, Bool, true, false, not, ◌&&◌, ◌||◌, List, [], ◌∷◌, Option, none, some, ◌==◌,
  ltb, u8, if◌then◌else◌, ◌≡◌, refl, arith, ap, ◌∙◌, length,
}
use maiccu.Effect.{Effect, sent, delivered, lock, unlock}
use maiccu.Checksum.{Endian}
use maiccu.Address.{
  Address, first_byte, in6_are_addr_equal, in6_matches_teredo_client, is_ipv4_global_unicast,
}
use maiccu.Packet.{Packet}
use maiccu.Peer.{Peer, emit_one, queue_emit, queue_yield, set_mapping, touch_receive}
use maiccu.PeerList.{item_of, lookup}
use maiccu.PeerList.Invariant.{IsList}
use maiccu.PeerList.Reach.{lookup-IsList}
use maiccu.PeerList.Writes.{item_of-store}
use maiccu.PeerList.Expiry.{head-lookup}
use maiccu.Security.{Md5, Keys}
use maiccu.Message.{ip6_src, ip6_dst, ip6_plen, is_bubble}
use maiccu.Message.Echo.{check_ping}
use maiccu.Discovery.{is_discovery_bubble}
use maiccu.Tunnel.{Tunnel, Host, Outcome, max_peers, peer_of, locking, put_back}
use maiccu.Tunnel.Discipline.{Good, put_back-Good}
use maiccu.Tunnel.Delivery.{is_reachable, lookup_known}
use maiccu.Tunnel.Transmit.{transmit}
use maiccu.Tunnel.Receive.{
  has_mapping, is_local, whole_packet, predecap, adopt, is_accepted, accept, receive, run_inner,
}
use maiccu.Tunnel.Wait.{lookup_makes, waiting, queued, waiting_queue, transmit_waits}

module _ (e : Endian) (md5 : Md5) (k : Keys) where
  no_discovery :
      (p : Packet) → (first_byte (ip6_dst p.ip6) == 0xff) ≡ false → is_discovery_bubble p ≡ false
  unfolding is_discovery_bubble in6_are_addr_equal
  no_discovery p h = ground (arith, h)

  -- What `teredo_run_inner` does once a packet opens the way.
  abbrev answered : Packet → List ℕ → List Effect
  answered p packet =
      unlock
      ∷ sent p.source_ipv4 p.source_port packet
      ∷ (if is_bubble p.ip6 then [] else delivered (whole_packet p) ∷ [])

  adopt-effects :
      (u : Tunnel) (v : Host) (p : Packet) (packet : List ℕ) (q : Peer)
      → q.queue ≡ queued packet ∷ []
      → (adopt v p u q).effects ≡ answered p packet
  unfolding adopt predecap queue_yield touch_receive set_mapping queue_emit emit_one
  adopt-effects u v p packet q h = rw h refl

  accepted :
      (p : Packet) (islocal : Bool) (held : Option Peer)
      → in6_matches_teredo_client (ip6_src p.ip6) p.source_ipv4 p.source_port ≡ true
      → is_accepted e md5 k p islocal held ≡ true
  unfolding is_accepted
  accepted p islocal held a = rw a refl

  accept-effects :
      (u : Tunnel) (v : Host) (p : Packet) (packet : List ℕ) (islocal : Bool) (q : Peer)
      → q.queue ≡ queued packet ∷ []
      → q.trusted ≡ false
      → u.client ≡ false
      → (first_byte (ip6_dst p.ip6) == 0xff) ≡ false
      → ((ip6_src p.ip6).prefix == u.state.addr.prefix) ≡ true
      → in6_matches_teredo_client (ip6_src p.ip6) p.source_ipv4 p.source_port ≡ true
      → (accept e md5 k u v p islocal (some q)).effects ≡ answered p packet
  unfolding accept
  accept-effects u v p packet islocal q h trust c m x a =
      let none_local : (islocal && is_discovery_bubble p) ≡ false =
        ground (arith, no_discovery p m) in
      let untrusted : (q.trusted && has_mapping p q) ≡ false = ground (arith, trust) in
      let relay : (u.client && check_ping md5 k v.now p) ≡ false = ground (arith, c) in
      let ok : is_accepted e md5 k p islocal (some q) ≡ true = accepted p islocal (some q) a in
      rw (none_local, m, untrusted, relay, x, ok) (adopt-effects u v p packet q h)

  -- A relay passes on every packet that is reachable.
  run_relay :
      (t : Tunnel) (u : Host) (p : Packet)
      → t.client ≡ false
      → is_reachable t p ≡ true
      → run_inner e md5 k t u p ≡ receive e md5 k t u p (is_local t p)
  unfolding run_inner is_reachable
  run_relay t u p c r =
      let short : ltb p.ip6_len 40 ≡ false = ground (arith, r) in
      let malformed : (not (u8 p.ip6 0 / 16 == 6) || ltb p.ip6_len (40 + ip6_plen p.ip6)) ≡ false =
        ground (arith, r) in
      let x : ((ip6_src p.ip6).prefix == t.state.addr.prefix) ≡ true = ground (arith, r, c) in
      rw (short, malformed, c, x) refl

  receive-effects :
      (t : Tunnel) (u : Host) (p : Packet) (packet : List ℕ) (islocal : Bool) (q : Peer)
      → IsList max_peers t.list
      → item_of t.list (ip6_src p.ip6) ≡ some q
      → q.queue ≡ queued packet ∷ []
      → q.trusted ≡ false
      → t.client ≡ false
      → (first_byte (ip6_dst p.ip6) == 0xff) ≡ false
      → ((ip6_src p.ip6).prefix == t.state.addr.prefix) ≡ true
      → in6_matches_teredo_client (ip6_src p.ip6) p.source_ipv4 p.source_port ≡ true
      → (receive e md5 k t u p islocal).effects ≡ lock ∷ answered p packet
  unfolding receive locking
  receive-effects t u p packet islocal q w there h trust c m x a =
      let src = ip6_src p.ip6 in
      let f = lookup t.list src false u.memory in
      let found : peer_of f src ≡ some q = (lookup_known t.list src u.memory w).0 ∙ there in
      rw found (
        ap (◌∷◌ lock)
          (accept-effects (record t { list = f.list }) u p packet islocal q h trust c m x a))

  module _ (t : Tunnel) (v : Host) (packet : List ℕ) where
    abbrev dst : Address
    dst = ip6_dst packet

    abbrev made : Tunnel
    made = record t { list = (lookup t.list dst true v.memory).list }

    -- The packet may go to the client, and there is room for a new peer.
    abbrev is_forwardable : Bool
    is_forwardable =
        not t.client
        && dst.prefix == t.state.addr.prefix
        && not (first_byte dst == 0xff)
        && is_ipv4_global_unicast dst.server_ip
        && not (dst.server_ip == 0)
        && v.memory.node
        && v.memory.item
        && ltb 0 t.list.left

    -- A relay is asked to forward a packet of at most 1280 bytes to an unknown Teredo client; there is
    -- room for a new peer. Once a well-formed packet of that client comes from the mapping that its address embeds, the
    -- packet that waited goes out to that mapping, and the new packet is delivered unless it is a
    -- bubble.
    pub transmit-run_inner :
        (u : Host) (p : Packet)
        → Good t
        → item_of t.list dst ≡ none
        → is_forwardable ≡ true
        → length packet ≤ 1280
        → ip6_src p.ip6 ≡ dst
        → is_reachable t p ≡ true
        → in6_matches_teredo_client dst p.source_ipv4 p.source_port ≡ true
        → (run_inner e md5 k (transmit e md5 k t v packet).tunnel u p).effects
          ≡ lock ∷ answered p packet
    unfolding put_back is_reachable
    transmit-run_inner u p g n f l s r a =
        let q = waiting v packet dst in
        let t' = put_back made dst q in
        let facts = waiting_queue v packet dst l in
        let made_list = lookup_makes t.list dst v.memory g.1 n (ground (arith, f)) in
        let there : item_of t'.list dst ≡ some q =
          item_of-store made.list dst q (head-lookup t.list dst true v.memory made_list.0) in
        let good = put_back-Good made dst q (lookup-IsList t.list dst true v.memory g.1) in
        let w =
          transmit_waits e md5 k t v packet g.1 n (ground (arith, f)) (ground (arith, f))
            (ground (arith, f)) (ground (arith, f)) (ground (arith, f)) in
        rw w (
          ap (λ (o : Outcome). o.effects) (run_relay t' u p (ground (arith, f)) r)
          ∙ receive-effects t' u p packet (is_local t' p) q good.1 (ap (item_of t'.list) s ∙ there)
              facts.0 facts.1 (ground (arith, f)) (ground (arith, r)) (ground (arith, s, f))
              (rw s a))
