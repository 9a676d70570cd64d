-- ===== src/Tunnel/Delivery/Source.antt =====
-- miredo/libteredo/relay.c: what `teredo_run_inner` delivers is justified.
use mathlib.Core.List.{Memᴰ}
use mathlib.Core.List.Memᴰ.{not-nil}
use maiccu.Base.{
  ℕ, Bool, true, false, not, ◌&&◌, List, [], ◌∷◌, Option, none, some, ◌==◌, ◌≡◌, subst, arith,
  Bool-cases, Option-cases, inl, inr, sym, ◌∙◌,
}
use maiccu.Effect.{delivered, lock, unlock}
use maiccu.Checksum.{Endian}
use maiccu.Address.{first_byte}
use maiccu.Packet.{Packet}
use maiccu.Peer.{Peer, set_mapping}
use maiccu.PeerList.{item_of, lookup}
use maiccu.PeerList.Invariant.{IsList}
use maiccu.PeerList.Reach.{lookup-IsList}
use maiccu.Security.{Md5, Keys}
use maiccu.Message.{ip6_src, ip6_dst}
use maiccu.Message.Echo.{check_ping}
use maiccu.Discovery.{is_discovery_bubble}
use maiccu.Tunnel.{Tunnel, Host, Outcome, max_peers, quiet, peer_of, locking}
use maiccu.Tunnel.Receive.{
  whole_packet, has_mapping, predecap, obtain, answer_discovery, strange, drop_peer, adopt,
  test_source, is_accepted, accept_untrusted, accept_peer, accept, receive,
}
use maiccu.Tunnel.Delivery.{
  Each, Given, unlock-Each, nothing-Each, delivered-Each, is_authentic, answer_discovery-silent,
  test_source-silent, lookup_known, lookup_new, Each-append, silent-Each, if-Each, Ready,
  predecap-Each, adopt-Each,
}

module _ (e : Endian) (md5 : Md5) (k : Keys) (P : List ℕ → Type 0) (v : Host) (p : Packet) where
  abbrev Whole : Type 0
  Whole = P (whole_packet p)

  -- The waiting packets of a peer may be delivered, and this one.
  abbrev May : Peer → Type 0
  May q = Ready P q.queue p.source_ipv4 p.source_port × Whole

  abbrev is_client : Tunnel → Bool → Option Peer → Bool
  is_client u islocal held =
      (ip6_src p.ip6).prefix == u.state.addr.prefix && is_accepted e md5 k p islocal held

  accept_known-Each :
      (u : Tunnel) (islocal : Bool) (q : Peer)
      → (is_client u islocal (some q) ≡ true → May q)
      → Each P (accept_untrusted e md5 k u v p islocal (some q)).effects
  unfolding accept_untrusted drop_peer
  accept_known-Each u islocal q may =
      elim (Bool-cases ((ip6_src p.ip6).prefix == u.state.addr.prefix)) [
        | inl a ↦ elim (Bool-cases (is_accepted e md5 k p islocal (some q))) [
          | inl b ↦ let m = may (ground (arith, a, b)) in rw (a, b) (adopt-Each P v p u q m.0 m.1)
          | inr b ↦ rw (a, b) (unlock-Each P)
        ]
        | inr a ↦ rw a (
            silent-Each P (test_source e md5 k v p u false q).effects
              (test_source-silent e md5 k v p u false q))
      ]

  obtain-Each :
      (u : Tunnel) (next : Tunnel → Bool → Peer → Outcome)
      → IsList max_peers u.list
      → item_of u.list (ip6_src p.ip6) ≡ none
      → ((w : Tunnel) (created : Bool) (q : Peer)
          → q.queue ≡ []
          → Each P (next w created q).effects)
      → Each P (obtain u v (ip6_src p.ip6) next).effects
  unfolding obtain locking Each Given
  obtain-Each u next w n step =
      let f = lookup u.list (ip6_src p.ip6) true v.memory in
      elim (Option-cases (peer_of f (ip6_src p.ip6))) [
        | inl a ↦ rw a (tt, (tt, tt))
        | inr (q, a) ↦ rw a (
            Each-append P (lock ∷ []) (next (record u { list = f.list }) f.created q).effects
              (tt, tt)
              (step (record u { list = f.list }) f.created q
                (lookup_new u.list (ip6_src p.ip6) v.memory q w n a)))
      ]

  accept_unknown-Each :
      (u : Tunnel) (islocal : Bool)
      → IsList max_peers u.list
      → item_of u.list (ip6_src p.ip6) ≡ none
      → (is_client u islocal none ≡ true → Whole)
      → Each P (accept_untrusted e md5 k u v p islocal none).effects
  unfolding accept_untrusted drop_peer
  accept_unknown-Each u islocal w n may =
      elim (Bool-cases ((ip6_src p.ip6).prefix == u.state.addr.prefix)) [
        | inl a ↦ elim (Bool-cases (is_accepted e md5 k p islocal none)) [
          | inl b ↦
              rw (a, b)
                (if-Each P u.client
                  (obtain u v (ip6_src p.ip6)
                    (λ t' created q. adopt v p t' (record q { local = islocal })))
                  (quiet u)
                  (λ c.
                    obtain-Each u (λ t' created q. adopt v p t' (record q { local = islocal })) w n
                      (λ t' created q empty.
                        adopt-Each P v p t' (record q { local = islocal })
                          (λ x m. absurd (not-nil (subst (λ qs. Memᴰ x qs) empty m)))
                          (may (ground (arith, a, b)))))
                  (λ c. nothing-Each P))
          | inr b ↦ rw (a, b) (nothing-Each P)
        ]
        | inr a ↦ rw a (
            obtain-Each u (test_source e md5 k v p) w n (λ t' created q empty.
              silent-Each P (test_source e md5 k v p t' created q).effects
                (test_source-silent e md5 k v p t' created q)))
      ]

  accept_peer-Each :
      (u : Tunnel) (islocal : Bool) (q : Peer)
      → (is_authentic e md5 k u v p islocal (some q) ≡ true → May q)
      → Each P (accept_peer e md5 k u v p islocal q).effects
  unfolding accept_peer is_authentic set_mapping
  accept_peer-Each u islocal q may =
      let src = ip6_src p.ip6 in
      elim (Bool-cases (q.trusted && has_mapping p q)) [
        | inl a ↦
            let m = may (ground (arith, a)) in
            rw a (
              Each-append P (predecap u v src q).effects (delivered (whole_packet p) ∷ [])
                (predecap-Each P u v src q
                  (λ w h i x y. m.0 w h i (ground (arith, a, x)) (ground (arith, a, y))))
                (delivered-Each P (whole_packet p) m.1))
        | inr a ↦ elim (Bool-cases (u.client && check_ping md5 k v.now p)) [
          | inl b ↦
              let m = may (ground (arith, b)) in
              rw (a, b)
                (predecap-Each P u v src
                  (set_mapping (record q { trusted = true }) p.source_ipv4 p.source_port) m.0)
          | inr b ↦ rw (a, b) (accept_known-Each u islocal q (λ h. may (ground (arith, h))))
        ]
      ]

  accept_present-Each :
      (u : Tunnel) (islocal : Bool) (q : Peer)
      → (not (first_byte (ip6_dst p.ip6) == 0xff) && is_authentic e md5 k u v p islocal (some q)
            ≡ true
          → May q)
      → Each P (accept e md5 k u v p islocal (some q)).effects
  unfolding accept drop_peer
  accept_present-Each u islocal q may = elim (Bool-cases (islocal && is_discovery_bubble p)) [
    | inl a ↦
        rw a (silent-Each P (answer_discovery v p u q).effects (answer_discovery-silent v p u q))
    | inr a ↦ elim (Bool-cases (first_byte (ip6_dst p.ip6) == 0xff)) [
      | inl b ↦ rw (a, b) (unlock-Each P)
      | inr b ↦ rw (a, b) (accept_peer-Each u islocal q (λ h. may (ground (arith, b, h))))
    ]
  ]

  accept_absent-Each :
      (u : Tunnel) (islocal : Bool)
      → IsList max_peers u.list
      → item_of u.list (ip6_src p.ip6) ≡ none
      → (not (first_byte (ip6_dst p.ip6) == 0xff) && is_authentic e md5 k u v p islocal none ≡ true
          → Whole)
      → Each P (accept e md5 k u v p islocal none).effects
  unfolding accept drop_peer is_authentic
  accept_absent-Each u islocal w n may = elim (Bool-cases (islocal && is_discovery_bubble p)) [
    | inl a ↦ rw a (
        obtain-Each u (λ t' created q. answer_discovery v p t' (strange q)) w n
          (λ t' created q empty.
            silent-Each P (answer_discovery v p t' (strange q)).effects
              (answer_discovery-silent v p t' (strange q))))
    | inr a ↦ elim (Bool-cases (first_byte (ip6_dst p.ip6) == 0xff)) [
      | inl b ↦ rw (a, b) (nothing-Each P)
      | inr b ↦ rw (a, b) (accept_unknown-Each u islocal w n (λ h. may (ground (arith, b, h))))
    ]
  ]

  pub receive-Each :
      (t : Tunnel) (islocal : Bool)
      → IsList max_peers t.list
      → (not (first_byte (ip6_dst p.ip6) == 0xff)
              && is_authentic e md5 k t v p islocal (item_of t.list (ip6_src p.ip6))
            ≡ true
          → Whole
            × ((q : Peer)
                → item_of t.list (ip6_src p.ip6) ≡ some q
                → Ready P q.queue p.source_ipv4 p.source_port))
      → Each P (receive e md5 k t v p islocal).effects
  unfolding receive locking Each Given is_authentic
  receive-Each t islocal w may =
      let src = ip6_src p.ip6 in
      let f = lookup t.list src false v.memory in
      let known = lookup_known t.list src v.memory w in
      let u = record t { list = f.list } in
      elim (Option-cases (peer_of f src)) [
        | inl a ↦
            let n : item_of t.list src ≡ none = sym known.0 ∙ a in
            rw a (
              Each-append P (lock ∷ unlock ∷ []) (accept e md5 k u v p islocal none).effects
                (tt, (tt, tt))
                (accept_absent-Each u islocal (lookup-IsList t.list src false v.memory w)
                  (known.1 ∙ n) (λ h. (may (rw n h)).0)))
        | inr (q, a) ↦
            let n : item_of t.list src ≡ some q = sym known.0 ∙ a in
            rw a (
              Each-append P (lock ∷ []) (accept e md5 k u v p islocal (some q)).effects (tt, tt)
                (accept_present-Each u islocal q (λ h. let m = may (rw n h) in (m.1 q n, m.0))))
      ]
