-- ===== src/Tunnel/Transmit.antt =====
-- miredo/libteredo/relay.c: `teredo_transmit`, an IPv6 packet from the host into the tunnel. The
-- packet is its bytes, `length` of them.
use maiccu.Base.{
  ℕ, ◌/◌, ◌%◌, ◌^◌, Bool, true, false, not, ◌&&◌, ◌||◌, List, [], ◌∷◌, ◌++◌, none, some, ◌==◌,
  if◌then◌else◌,
}
use maiccu.Effect.{Effect, sent, unlock, null_released}
use maiccu.Checksum.{Endian}
use maiccu.Address.{Address, first_byte, in6_teredo_ipv4, in6_teredo_port, is_ipv4_global_unicast}
use maiccu.Peer.{
  Peer, go, stop, later, enqueue_out, set_mapping, touch_transmit, is_valid, count_bubble,
  count_ping,
}
use maiccu.PeerList.{lookup}
use maiccu.Security.{Md5, Keys}
use maiccu.Message.{ip6_src, ip6_dst, send_bubble_anyway, send_bubble_from_dst}
use maiccu.Message.Echo.{send_ping}
use maiccu.Discovery.{send_discovery_bubble}
use maiccu.Tunnel.{Tunnel, Host, Outcome, quiet, after, send_unreach, peer_of, locking, put_back}

abbrev pub unreach_admin : ℕ
unreach_admin = 1

abbrev pub unreach_addr : ℕ
unreach_addr = 3

-- `teredo_encap`
unfoldable pub encap : Tunnel → Host → List ℕ → Address → Peer → Outcome
encap t v packet dst p = record {
  tunnel = put_back t dst (touch_transmit p v.now);
  effects = unlock ∷ sent p.mapped_addr p.mapped_port packet ∷ [];
  ok = v.net p.mapped_addr p.mapped_port packet;
}

-- The bubble for other hosts of the network, and the release of the discovery, even of none.
unfoldable pub announce : Tunnel → Host → List Effect
announce t v = elim t.discovery [
  | none ↦ null_released ∷ []
  | some d ↦ send_discovery_bubble v.net v.select d.src d.ifaces
]

-- Client case 3: a local peer that is not trusted.
unfoldable pub bubble_local : Tunnel → Host → List ℕ → Address → Peer → Outcome
unfolding announce
bubble_local t v packet dst p =
    let (q, verdict) = count_bubble (enqueue_out p packet) v.now in
    let t' = put_back t dst q in
    after (unlock ∷ []) (elim verdict [
      | go ↦ record {
        tunnel = t';
        effects =
            (send_bubble_anyway v.net p.mapped_addr p.mapped_port t.state.addr dst).0
            ++ announce t v;
        ok = true;
      }
      | later ↦ quiet t'
      | stop ↦ send_unreach t' v.now unreach_addr packet
    ])

-- A new peer starts with no trust and no count.
unfoldable pub fresh : Peer → Peer
fresh p = record p { trusted = false; local = false; bubbles = 0; pings = 0 }

module _ (e : Endian) (md5 : Md5) (k : Keys) where
  -- Client case 2: the peer is no Teredo client; a ping goes through the server.
  unfoldable pub ping_peer : Tunnel → Host → List ℕ → Address → Bool → Peer → Outcome
  ping_peer t v packet dst created p =
      let (q, verdict) =
        count_ping (enqueue_out (if created then set_mapping p 0 0 else p) packet) v.now in
      let t' = put_back t dst q in
      let ping = send_ping e md5 k v.net v.now t.state.addr dst in
      after (unlock ∷ []) (elim verdict [
        | go ↦ after ping.0 (if ping.1 then quiet t' else send_unreach t' v.now unreach_addr packet)
        | later ↦ quiet t'
        | stop ↦ send_unreach t' v.now unreach_addr packet
      ])

  -- The bubbles of case 5: a direct one unless the tunnel is cone, and one through the server.
  unfoldable pub punch : Tunnel → Host → Address → Outcome
  punch t v dst =
      let direct = send_bubble_from_dst e md5 k v.net dst false in
      let indirect = send_bubble_from_dst e md5 k v.net dst true in
      if not (t.state.addr.flags / 2 ^ 15 % 2 == 0)
      then record { tunnel = t; effects = indirect.0; ok = indirect.1 }
      else if direct.1
      then record { tunnel = t; effects = direct.0 ++ indirect.0; ok = indirect.1 }
      else record { tunnel = t; effects = direct.0; ok = false }

  -- Client case 5, relay case 3: a Teredo client that is not trusted.
  unfoldable pub bubble_peer : Tunnel → Host → List ℕ → Address → Bool → Peer → Outcome
  unfolding punch
  bubble_peer t v packet dst created p =
      let (q, verdict) =
        count_bubble
          (enqueue_out
            (if created then set_mapping p (in6_teredo_ipv4 dst) (in6_teredo_port dst) else p)
            packet)
          v.now in
      let t' = put_back t dst q in
      after (unlock ∷ []) (elim verdict [
        | go ↦ punch t' v dst
        | later ↦ quiet t'
        | stop ↦ send_unreach t' v.now unreach_addr packet
      ])

  -- What is done for a peer that is unknown, not trusted, or too old.
  unfoldable pub connect : Tunnel → Host → List ℕ → Address → Bool → Peer → Outcome
  unfolding ping_peer bubble_local bubble_peer
  connect t v packet dst created p =
      if not (dst.prefix == t.state.addr.prefix)
      then ping_peer t v packet dst created p
      else if p.local && is_valid p v.now
      then bubble_local t v packet dst p
      else bubble_peer t v packet dst created p

  -- What is done with the answer of the lookup.
  unfoldable pub forward : Tunnel → Host → List ℕ → Address → Bool → Peer → Outcome
  unfolding connect encap fresh
  forward t v packet dst created p =
      if created
      then connect t v packet dst true (fresh p)
      else if p.trusted && is_valid p v.now
      then encap t v packet dst p
      else connect t v packet dst false p

  -- From the lookup on.
  unfoldable pub transmit_to : Tunnel → Host → List ℕ → Address → Outcome
  unfolding forward
  transmit_to t v packet dst =
      let f = lookup t.list dst true v.memory in
      let t' = record t { list = f.list } in
      after (locking (peer_of f dst)) (elim (peer_of f dst) [
        | none ↦ record { tunnel = t'; effects = []; ok = false }
        | some p ↦ forward t' v packet dst f.created p
      ])

  -- `teredo_transmit`
  unfoldable pub transmit : Tunnel → Host → List ℕ → Outcome
  unfolding transmit_to
  transmit t v packet =
      let dst = ip6_dst packet in
      if first_byte dst == 0xff
      then quiet t
      else if t.client && not t.state.up
      then send_unreach t v.now unreach_addr packet
      else if not (dst.prefix == t.state.addr.prefix)
      then if not t.client
        then send_unreach t v.now unreach_addr packet
        else if not ((ip6_src packet).prefix == t.state.addr.prefix)
        then send_unreach t v.now unreach_admin packet
        else transmit_to t v packet dst
      else if not (is_ipv4_global_unicast dst.server_ip) || dst.server_ip == 0
      then quiet t
      else transmit_to t v packet dst
