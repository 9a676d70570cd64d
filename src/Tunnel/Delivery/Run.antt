-- ===== src/Tunnel/Delivery/Run.antt =====
-- miredo/libteredo/relay.c: what `teredo_run_inner` delivers, over the whole function.
use maiccu.Base.{
  ℕ, ◌+◌, ◌/◌, Bool, true, false, not, ◌&&◌, ◌||◌, List, [], ◌∷◌, some, ◌==◌, ltb, u8,
  if◌then◌else◌, ◌≡◌, refl, arith, inl, inr,
}
use maiccu.Effect.{Effect, maintained}
use maiccu.Checksum.{Endian}
use maiccu.Address.{ipport_teredo, first_byte}
use maiccu.Packet.{Packet}
use maiccu.Peer.{Peer}
use maiccu.PeerList.{item_of}
use maiccu.PeerList.Invariant.{IsList}
use maiccu.Security.{Md5, Keys}
use maiccu.Message.{ip6_src, ip6_dst, ip6_plen, is_bubble, reply_bubble}
use maiccu.Tunnel.{Tunnel, Host, max_peers, quiet}
use maiccu.Tunnel.Receive.{
  is_local, maintenance_takes, whole_packet, receive, indicated, is_link_local, run_client,
  run_inner,
}
use maiccu.Tunnel.Delivery.{
  Each, Given, nothing-Each, is_reachable, is_authentic, Waited, Justified, reply_bubble-silent,
  Each-append, silent-Each, if-Each, Ready,
}
use maiccu.Tunnel.Delivery.Source.{receive-Each}

module _ (e : Endian) (md5 : Md5) (k : Keys) (P : List ℕ → Type 0) (v : Host) (p : Packet)
    (t : Tunnel) where
  abbrev is_known : Bool
  is_known = is_authentic e md5 k t v p (is_local t p) (item_of t.list (ip6_src p.ip6))

  abbrev All : Type 0
  All =
      P (whole_packet p)
      × ((q : Peer)
          → item_of t.list (ip6_src p.ip6) ≡ some q
          → Ready P q.queue p.source_ipv4 p.source_port)

  run_client-Each :
      IsList max_peers t.list
      → (not (is_link_local (ip6_src p.ip6))
              && (not (first_byte (ip6_dst p.ip6) == 0xff) && is_known)
            ≡ true
          → All)
      → Each P (run_client e md5 k t v p).effects
  unfolding run_client
  run_client-Each w may =
      let told =
        p.source_ipv4 == t.state.addr.server_ip
        && p.source_port == ipport_teredo
        && not ((indicated t p).0 == 0) in
      let reply = (reply_bubble v.net (indicated t p).0 (indicated t p).1 p.ip6).0 in
      let answer = (if told then reply else []) in
      let c =
        told-Each told reply
          (silent-Each P reply (reply_bubble-silent v (indicated t p).0 (indicated t p).1 p.ip6)) in
      Each-append P answer _ c (
        if-Each P (told && is_bubble p.ip6) (quiet t)
          (if is_link_local (ip6_src p.ip6) then quiet t else receive e md5 k t v p (is_local t p))
          (λ a. nothing-Each P)
          (λ a.
            if-Each P (is_link_local (ip6_src p.ip6)) (quiet t)
              (receive e md5 k t v p (is_local t p)) (λ b. nothing-Each P)
              (λ b.
                receive-Each e md5 k P v p t (is_local t p) w (λ h. may (ground (arith, b, h))))))
    where
      told-Each : (b : Bool) (es : List Effect) → Each P es → Each P (if b then es else [])
      told-Each true es h = h
      told-Each false es h = nothing-Each P

  run_inner-Each :
      IsList max_peers t.list
      → (is_reachable t p && is_known ≡ true → All)
      → Each P (run_inner e md5 k t v p).effects
  unfolding run_inner is_reachable Each Given
  run_inner-Each w may =
      if-Each P (ltb p.ip6_len 40) (quiet t) _ (λ a. nothing-Each P)
        (λ a.
          if-Each P (not (u8 p.ip6 0 / 16 == 6) || ltb p.ip6_len (40 + ip6_plen p.ip6)) (quiet t) _
            (λ b. nothing-Each P)
            (λ b.
              if-Each P t.client _ _
                (λ c.
                  if-Each P (maintenance_takes p)
                    (record { tunnel = t; effects = maintained p.ip6 ∷ []; ok = true }) _
                    (λ d. (tt, tt))
                    (λ d.
                      if-Each P (not t.state.up) (quiet t) (run_client e md5 k t v p)
                        (λ f. nothing-Each P)
                        (λ f. run_client-Each w (λ h. may (ground (arith, a, b, c, d, f, h))))))
                (λ c.
                  if-Each P (not ((ip6_src p.ip6).prefix == t.state.addr.prefix)) (quiet t)
                    (receive e md5 k t v p (is_local t p)) (λ f. nothing-Each P)
                    (λ f.
                      receive-Each e md5 k P v p t (is_local t p) w
                        (λ h. may (ground (arith, a, b, c, f, h)))))))

-- Every packet that `teredo_run_inner` delivers, while the list is in its invariant, is either the one
-- that it was given or one that waited for its source and came from the same address and port. Then
-- the given packet is well-formed and has no multicast destination; a client is qualified and the
-- source is not link-local; for a relay the source is a Teredo address; and the source is a trusted
-- peer with this mapping, or answers a ping of ours, or is a Teredo client that matches its address,
-- or is a peer of the network, or answers a bubble of ours.
pub run_inner-Justified :
    (e : Endian) (md5 : Md5) (k : Keys) (t : Tunnel) (v : Host) (p : Packet)
    → IsList max_peers t.list
    → Each (Justified e md5 k t v p) (run_inner e md5 k t v p).effects
unfolding Justified Waited
run_inner-Justified e md5 k t v p w = run_inner-Each e md5 k (Justified e md5 k t v p) v p t w (λ h.
    let r : is_reachable t p ≡ true = ground (arith, h) in
    let a : is_authentic e md5 k t v p (is_local t p) (item_of t.list (ip6_src p.ip6)) ≡ true =
      ground (arith, h) in
    ((r, a, inl refl), λ q there w m i x y. (r, a, inr (q, w, there, m, i, x, y, refl))))
