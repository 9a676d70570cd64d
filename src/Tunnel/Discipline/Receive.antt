-- ===== src/Tunnel/Discipline/Receive.antt =====
-- miredo/libteredo/relay.c: the mutex of the peer list in `teredo_run_inner`.
use maiccu.Base.{
  ◌+◌, ◌/◌, Bool, true, false, not, ◌&&◌, ◌||◌, [], ◌∷◌, none, some, ◌==◌, ltb, u8, if◌then◌else◌,
  refl, arith, Bool-cases, Option-cases, inl, inr,
}
use maiccu.Effect.{delivered, maintained}
use maiccu.Checksum.{Endian}
use maiccu.Address.{first_byte, ipport_teredo}
use maiccu.Packet.{Packet}
use maiccu.Peer.{Peer, count_ping, enqueue_in, touch_receive, set_mapping}
use maiccu.PeerList.Invariant.{IsList}
use maiccu.PeerList.Reach.{lookup-IsList}
use maiccu.PeerList.{lookup}
use maiccu.Security.{Md5, Keys}
use maiccu.Message.{ip6_src, ip6_dst, ip6_plen, is_bubble, reply_bubble}
use maiccu.Message.Echo.{send_ping, check_ping}
use maiccu.Discovery.{is_discovery_bubble}
use maiccu.Tunnel.{max_peers, Tunnel, Host, quiet, peer_of, locking}
use maiccu.Tunnel.Receive.{
  is_local, maintenance_takes, whole_packet, answer_discovery, strange, drop_peer, adopt,
  test_source, is_accepted, accept_untrusted, accept_peer, accept, receive, indicated,
  is_link_local, has_mapping, run_client, run_inner,
}
use maiccu.Tunnel.Discipline.{
  disciplined, Good, Ends, send_bubble-Calm, put_back-Good, lookup-Good, quiet-Ends, Calm-after,
}
-- The accepted peer with its time, its counters and its queue cleared.
use maiccu.Tunnel.Discipline.Parts.{
  predecap-Ends, predecap-Ends_alone, delivered-Calm, if-Ends, told-Calm, adopt-Ends,
  drop_peer-Ends, answer_discovery-Ends, obtain-Ends,
}

module _ (e : Endian) (md5 : Md5) (k : Keys) where
  test_source-Ends :
      (v : Host) (p : Packet) (t : Tunnel) (created : Bool) (q : Peer)
      → IsList max_peers t.list
      → Ends true (test_source e md5 k v p t created q)
  unfolding disciplined test_source send_ping
  test_source-Ends v p t created q w =
      let q0 =
        if created
        then (record (set_mapping q 0 0) { trusted = false; local = false; bubbles = 0; pings = 0 })
        else q in
      let c =
        count_ping
          (touch_receive (enqueue_in q0 (whole_packet p) p.source_ipv4 p.source_port) v.now)
          v.now in
      let h = put_back-Good t (ip6_src p.ip6) c.0 w in ground (arith, h)

  accept_known-Ends :
      (t : Tunnel) (v : Host) (p : Packet) (islocal : Bool) (q : Peer)
      → IsList max_peers t.list
      → Ends true (accept_untrusted e md5 k t v p islocal (some q))
  unfolding accept_untrusted
  accept_known-Ends t v p islocal q w =
      let a = adopt-Ends v p t q w in
      let b = drop_peer-Ends t (ip6_src p.ip6) q w in
      let c = test_source-Ends v p t false q w in
      elim (Bool-cases ((ip6_src p.ip6).prefix == t.state.addr.prefix)) [
        | inl e₁ ↦ elim (Bool-cases (is_accepted e md5 k p islocal (some q))) [
          | inl e₂ ↦ rw (e₁, e₂) a
          | inr e₂ ↦ rw (e₁, e₂) b
        ]
        | inr e₁ ↦ rw e₁ c
      ]

  accept_unknown-Ends :
      (t : Tunnel) (v : Host) (p : Packet) (islocal : Bool)
      → Good t
      → Ends false (accept_untrusted e md5 k t v p islocal none)
  unfolding accept_untrusted drop_peer
  accept_unknown-Ends t v p islocal g =
      let src = ip6_src p.ip6 in
      let a =
        obtain-Ends t v src (λ t' created q. adopt v p t' (record q { local = islocal })) g.1
          (λ u created q w. adopt-Ends v p u (record q { local = islocal }) w) in
      let b = obtain-Ends t v src (test_source e md5 k v p) g.1 (test_source-Ends v p) in
      let q = quiet-Ends t g in
      elim (Bool-cases (src.prefix == t.state.addr.prefix)) [
        | inl e₁ ↦ elim (Bool-cases (is_accepted e md5 k p islocal none)) [
          | inl e₂ ↦ elim (Bool-cases t.client) [
            | inl e₃ ↦ rw (e₁, e₂, e₃) a
            | inr e₃ ↦ rw (e₁, e₂, e₃) q
          ]
          | inr e₂ ↦ rw (e₁, e₂) q
        ]
        | inr e₁ ↦ rw e₁ b
      ]

  accept_peer-Ends :
      (t : Tunnel) (v : Host) (p : Packet) (islocal : Bool) (q : Peer)
      → IsList max_peers t.list
      → Ends true (accept_peer e md5 k t v p islocal q)
  unfolding accept_peer
  accept_peer-Ends t v p islocal q w =
      let src = ip6_src p.ip6 in
      let a =
        predecap-Ends t v src q (delivered (whole_packet p) ∷ []) w
          (delivered-Calm (whole_packet p)) in
      let b =
        predecap-Ends_alone t v src
          (set_mapping (record q { trusted = true }) p.source_ipv4 p.source_port) w in
      let c = accept_known-Ends t v p islocal q w in
      elim (Bool-cases (q.trusted && has_mapping p q)) [
        | inl e₁ ↦ rw e₁ a
        | inr e₁ ↦ elim (Bool-cases (t.client && check_ping md5 k v.now p)) [
          | inl e₂ ↦ rw (e₁, e₂) b
          | inr e₂ ↦ rw (e₁, e₂) c
        ]
      ]

  accept_present-Ends :
      (t : Tunnel) (v : Host) (p : Packet) (islocal : Bool) (q : Peer)
      → IsList max_peers t.list
      → Ends true (accept e md5 k t v p islocal (some q))
  unfolding accept
  accept_present-Ends t v p islocal q w =
      let a = answer_discovery-Ends v p t q w in
      let b = drop_peer-Ends t (ip6_src p.ip6) q w in
      let c = accept_peer-Ends t v p islocal q w in
      elim (Bool-cases (islocal && is_discovery_bubble p)) [
        | inl e₁ ↦ rw e₁ a
        | inr e₁ ↦ elim (Bool-cases (first_byte (ip6_dst p.ip6) == 0xff)) [
          | inl e₂ ↦ rw (e₁, e₂) b
          | inr e₂ ↦ rw (e₁, e₂) c
        ]
      ]

  accept_absent-Ends :
      (t : Tunnel) (v : Host) (p : Packet) (islocal : Bool)
      → Good t
      → Ends false (accept e md5 k t v p islocal none)
  unfolding accept drop_peer
  accept_absent-Ends t v p islocal g =
      let a =
        obtain-Ends t v (ip6_src p.ip6) (λ t' created q. answer_discovery v p t' (strange q)) g.1
          (λ u created q w. answer_discovery-Ends v p u (strange q) w) in
      let c = accept_unknown-Ends t v p islocal g in
      let q = quiet-Ends t g in
      elim (Bool-cases (islocal && is_discovery_bubble p)) [
        | inl e₁ ↦ rw e₁ a
        | inr e₁ ↦ elim (Bool-cases (first_byte (ip6_dst p.ip6) == 0xff)) [
          | inl e₂ ↦ rw (e₁, e₂) q
          | inr e₂ ↦ rw (e₁, e₂) c
        ]
      ]

  receive-Ends :
      (t : Tunnel) (v : Host) (p : Packet) (islocal : Bool)
      → Good t
      → Ends false (receive e md5 k t v p islocal)
  unfolding disciplined receive locking
  receive-Ends t v p islocal g =
      let src = ip6_src p.ip6 in
      let f = lookup t.list src false v.memory in
      elim (Option-cases (peer_of f src)) [
        | inl none_there ↦ rw none_there (
            accept_absent-Ends (record t { list = f.list }) v p islocal
              (lookup-Good t src false v.memory g.1 none_there))
        | inr (q, there) ↦ rw there (
            accept_present-Ends (record t { list = f.list }) v p islocal q
              (lookup-IsList t.list src false v.memory g.1))
      ]

  run_client-Ends :
      (t : Tunnel) (v : Host) (p : Packet) → Good t → Ends false (run_client e md5 k t v p)
  unfolding run_client reply_bubble
  run_client-Ends t v p g =
      let r = receive-Ends t v p (is_local t p) g in
      let q = quiet-Ends t g in
      let told =
        p.source_ipv4 == t.state.addr.server_ip
        && p.source_port == ipport_teredo
        && not ((indicated t p).0 == 0) in
      let reply = (reply_bubble v.net (indicated t p).0 (indicated t p).1 p.ip6).0 in
      let answer = (if told then reply else []) in
      let c = told-Calm told reply (
        send_bubble-Calm v.net (indicated t p).0 (indicated t p).1 (ip6_dst p.ip6)
          (ip6_src p.ip6)) in
      elim (Bool-cases (told && is_bubble p.ip6)) [
        | inl e₁ ↦ rw e₁ (Calm-after answer (quiet t) c q)
        | inr e₁ ↦ elim (Bool-cases (is_link_local (ip6_src p.ip6))) [
          | inl e₂ ↦ rw (e₁, e₂) (Calm-after answer (quiet t) c q)
          | inr e₂ ↦ rw (e₁, e₂) (Calm-after answer (receive e md5 k t v p (is_local t p)) c r)
        ]
      ]

  -- Whatever packet arrives: a call that finds the list free and in its invariant takes the mutex
  -- of the list at most as it should, does all its sending and delivering with the mutex free, and
  -- leaves the list free and in its invariant.
  pub run_inner-Ends :
      (t : Tunnel) (v : Host) (p : Packet) → Good t → Ends false (run_inner e md5 k t v p)
  unfolding disciplined run_inner
  run_inner-Ends t v p g =
      let a = run_client-Ends t v p g in
      let b = receive-Ends t v p (is_local t p) g in
      let q = quiet-Ends t g in
      elim (Bool-cases (ltb p.ip6_len 40)) [
        | inl e₁ ↦ rw e₁ q
        | inr e₁ ↦
            elim (Bool-cases (not (u8 p.ip6 0 / 16 == 6) || ltb p.ip6_len (40 + ip6_plen p.ip6))) [
              | inl e₂ ↦ rw (e₁, e₂) q
              | inr e₂ ↦
                  rw (e₁, e₂)
                    (if-Ends t.client _ _
                      (if-Ends (maintenance_takes p)
                        (record { tunnel = t; effects = maintained p.ip6 ∷ []; ok = true }) _
                        (refl, g)
                        (if-Ends (not t.state.up) (quiet t) (run_client e md5 k t v p) q a))
                      (if-Ends (not ((ip6_src p.ip6).prefix == t.state.addr.prefix)) (quiet t)
                        (receive e md5 k t v p (is_local t p)) q b))
            ]
      ]
