-- ===== src/Tunnel/Discipline/Transmit.antt =====
-- miredo/libteredo/relay.c: the mutex of the peer list in `teredo_transmit`.
use maiccu.Base.{ℕ, Bool, true, false, List, if◌then◌else◌, refl, arith, Option-cases, inl, inr}
use maiccu.Checksum.{Endian}
use maiccu.Address.{Address, ipport_teredo, in6_teredo_ipv4, in6_teredo_port}
use maiccu.Peer.{Peer, count_bubble, count_ping, enqueue_out, set_mapping, touch_transmit}
use maiccu.PeerList.Invariant.{IsList}
use maiccu.PeerList.Reach.{lookup-IsList}
use maiccu.PeerList.{lookup}
use maiccu.Security.{Md5, Keys}
use maiccu.Message.{send_bubble_anyway, send_bubble_from_dst, ip6_dst, bubble_source}
use maiccu.Message.Echo.{send_ping}
use maiccu.Tunnel.{max_peers, Tunnel, Host, peer_of, locking, put_back}
use maiccu.Tunnel.Transmit.{
  encap, announce, bubble_local, ping_peer, punch, bubble_peer, connect, fresh, forward,
  transmit_to, transmit, unreach_addr, unreach_admin,
}
use maiccu.Tunnel.Discipline.{
  disciplined, Good, Ends, send_bubble-Calm, send_unreach-Ends, put_back-Good, lookup-Good,
  quiet-Ends, Calm-Ends, Calm-append, announce-Calm,
}

bubble_local-Ends :
    (t : Tunnel) (v : Host) (packet : List ℕ) (dst : Address) (p : Peer)
    → IsList max_peers t.list
    → Ends true (bubble_local t v packet dst p)
unfolding disciplined bubble_local send_bubble_anyway
bubble_local-Ends t v packet dst p w =
    let c = count_bubble (enqueue_out p packet) v.now in
    let h = put_back-Good t dst c.0 w in
    let a = Calm-Ends (put_back t dst c.0) true (announce t v) (announce-Calm t v) h in
    let u = send_unreach-Ends (put_back t dst c.0) v.now unreach_addr packet h in
    ground (arith, a, u, h)

module _ (e : Endian) (md5 : Md5) (k : Keys) where
  ping_peer-Ends :
      (t : Tunnel) (v : Host) (packet : List ℕ) (dst : Address) (created : Bool) (p : Peer)
      → IsList max_peers t.list
      → Ends true (ping_peer e md5 k t v packet dst created p)
  unfolding disciplined ping_peer send_ping
  ping_peer-Ends t v packet dst created p w =
      let c = count_ping (enqueue_out (if created then set_mapping p 0 0 else p) packet) v.now in
      let h = put_back-Good t dst c.0 w in
      let u = send_unreach-Ends (put_back t dst c.0) v.now unreach_addr packet h in
      ground (arith, u, h)

  punch-Ends : (t : Tunnel) (v : Host) (dst : Address) → Good t → Ends false (punch e md5 k t v dst)
  unfolding punch send_bubble_from_dst
  punch-Ends t v dst h =
      let a =
        send_bubble-Calm v.net (in6_teredo_ipv4 dst) (in6_teredo_port dst)
          (bubble_source e md5 k dst) dst in
      let b = send_bubble-Calm v.net dst.server_ip ipport_teredo (bubble_source e md5 k dst) dst in
      let x = Calm-Ends t true _ a h in
      let y = Calm-Ends t true _ b h in
      let z = Calm-Ends t true _ (Calm-append _ _ a b) h in ground (arith, x, y, z)

  bubble_peer-Ends :
      (t : Tunnel) (v : Host) (packet : List ℕ) (dst : Address) (created : Bool) (p : Peer)
      → IsList max_peers t.list
      → Ends true (bubble_peer e md5 k t v packet dst created p)
  unfolding disciplined bubble_peer
  bubble_peer-Ends t v packet dst created p w =
      let c =
        count_bubble
          (enqueue_out
            (if created then set_mapping p (in6_teredo_ipv4 dst) (in6_teredo_port dst) else p)
            packet)
          v.now in
      let h = put_back-Good t dst c.0 w in
      let a = punch-Ends (put_back t dst c.0) v dst h in
      let u = send_unreach-Ends (put_back t dst c.0) v.now unreach_addr packet h in
      ground (arith, a, u, h)

  connect-Ends :
      (t : Tunnel) (v : Host) (packet : List ℕ) (dst : Address) (created : Bool) (p : Peer)
      → IsList max_peers t.list
      → Ends true (connect e md5 k t v packet dst created p)
  unfolding connect
  connect-Ends t v packet dst created p w =
      let a = ping_peer-Ends t v packet dst created p w in
      let b = bubble_local-Ends t v packet dst p w in
      let c = bubble_peer-Ends t v packet dst created p w in ground (arith, a, b, c)

  forward-Ends :
      (t : Tunnel) (v : Host) (packet : List ℕ) (dst : Address) (created : Bool) (p : Peer)
      → IsList max_peers t.list
      → Ends true (forward e md5 k t v packet dst created p)
  unfolding disciplined forward encap
  forward-Ends t v packet dst created p w =
      let a = connect-Ends t v packet dst true (fresh p) w in
      let b = connect-Ends t v packet dst false p w in
      let h = put_back-Good t dst (touch_transmit p v.now) w in ground (arith, a, b, h)

  transmit_to-Ends :
      (t : Tunnel) (v : Host) (packet : List ℕ) (dst : Address)
      → Good t
      → Ends false (transmit_to e md5 k t v packet dst)
  unfolding disciplined transmit_to locking
  transmit_to-Ends t v packet dst g =
      let f = lookup t.list dst true v.memory in
      let w = lookup-IsList t.list dst true v.memory g.1 in
      elim (Option-cases (peer_of f dst)) [
        | inl none_there ↦ rw none_there (refl, lookup-Good t dst true v.memory g.1 none_there)
        | inr (p, there) ↦
            rw there (forward-Ends (record t { list = f.list }) v packet dst f.created p w)
      ]

  -- Whatever packet the host sends: a call that finds the list free and in its invariant takes its
  -- mutex at most as it should, does all its sending with the mutex free, and leaves the list free and
  -- in its invariant.
  pub transmit-Ends :
      (t : Tunnel) (v : Host) (packet : List ℕ) → Good t → Ends false (transmit e md5 k t v packet)
  unfolding transmit
  transmit-Ends t v packet g =
      let a = send_unreach-Ends t v.now unreach_addr packet g in
      let b = send_unreach-Ends t v.now unreach_admin packet g in
      let c = transmit_to-Ends t v packet (ip6_dst packet) g in
      let q = quiet-Ends t g in ground (arith, a, b, c, q)
