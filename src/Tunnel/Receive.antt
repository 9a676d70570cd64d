-- ===== src/Tunnel/Receive.antt =====
-- miredo/libteredo/relay.c: `teredo_run_inner`, a packet from the tunnel; and the guard of
-- `teredo_maintenance_process` in maintain.c. No other thread runs between its two lookups.
use Prim.Native.Nat.{bit_and, bit_xor}
use maiccu.Base.{
  ℕ, ◌+◌, ◌/◌, Bool, true, false, not, ◌&&◌, ◌||◌, List, [], ◌∷◌, ◌++◌, Option, none, some, ◌==◌,
  ltb, if◌then◌else◌, u8, take,
}
use maiccu.Effect.{Effect, delivered, maintained, unlock}
use maiccu.Checksum.{Endian}
use maiccu.Address.{
  Address, ipport_teredo, teredo_restrict, first_byte, second_byte, in6_are_addr_equal,
  in6_teredo_ipv4, in6_teredo_port, in6_matches_teredo_client,
}
use maiccu.Packet.{Packet}
use maiccu.Peer.{
  Peer, go, stop, later, enqueue_in, set_mapping, touch_receive, queue_yield, queue_emit,
  count_bubble, count_ping,
}
use maiccu.PeerList.{lookup, store}
use maiccu.Security.{Md5, Keys}
use maiccu.Message.{
  ip6_src, ip6_dst, ip6_plen, is_bubble, check_bubble, send_bubble_anyway, reply_bubble,
}
use maiccu.Message.Echo.{check_ping, send_ping}
use maiccu.Discovery.{is_ipv4_discovered, is_discovery_bubble}
use maiccu.Tunnel.{Tunnel, Host, Outcome, quiet, after, peer_of, locking, put_back}

-- `teredo_islocal`
unfoldable pub is_local : Tunnel → Packet → Bool
is_local t p =
    let src = ip6_src p.ip6 in
    elim t.params [
      | none ↦ false
      | some d ↦ elim t.discovery [
        | none ↦ false
        | some disc ↦
            src.prefix == t.state.addr.prefix
            && bit_and (bit_xor (in6_teredo_ipv4 src) (in6_teredo_ipv4 t.state.addr)) d.netmask == 0
            && is_ipv4_discovered disc.ifaces p.source_ipv4
      ]
    ]

-- Whether `teredo_maintenance_process` takes a packet (returns 0).
unfoldable pub maintenance_takes : Packet → Bool
maintenance_takes p =
    p.source_port == ipport_teredo
    && p.auth_present
    && in6_are_addr_equal (ip6_dst p.ip6) teredo_restrict

-- The bytes of the IPv6 packet itself: its header and its payload.
abbrev pub whole_packet : Packet → List ℕ
whole_packet p = take (40 + ip6_plen p.ip6) p.ip6

-- The mapping of a peer is the source of a packet.
abbrev pub has_mapping : Packet → Peer → Bool
has_mapping p q = p.source_ipv4 == q.mapped_addr && p.source_port == q.mapped_port

-- `teredo_predecap`
unfoldable pub predecap : Tunnel → Host → Address → Peer → Outcome
predecap t v src q =
    let (queue, q') = queue_yield (record (touch_receive q v.now) { bubbles = 0; pings = 0 }) in
    record {
      tunnel = put_back t src q';
      effects = unlock ∷ queue_emit queue q'.mapped_addr q'.mapped_port;
      ok = true;
    }

-- A peer that is accepted, and what its packet then gives.
abbrev pub then_deliver : Outcome → List Effect → Outcome
then_deliver o es = record o { effects = o.effects ++ es }

-- A second lookup, which makes the peer, where the first one had none.
unfoldable pub obtain : Tunnel → Host → Address → (Tunnel → Bool → Peer → Outcome) → Outcome
obtain t v src next =
    let f = lookup t.list src true v.memory in
    let t' = record t { list = f.list } in
    after (locking (peer_of f src))
      (elim (peer_of f src) [ none ↦ quiet t' | some q ↦ next t' f.created q ])

-- Client case 4: the answer to a discovery bubble. The bubble is counted after the release.
unfoldable pub answer_discovery : Host → Packet → Tunnel → Peer → Outcome
answer_discovery v p t q =
    let src = ip6_src p.ip6 in
    let reset = if not q.local then record q { bubbles = 0 } else q in
    let q1 =
      touch_receive (record (set_mapping reset p.source_ipv4 p.source_port) { local = true })
        v.now in
    let t1 = put_back t src q1 in
    let (q2, verdict) = count_bubble q1 v.now in
    let t2 = record t1 { list = store t1.list src q2 } in
    after (unlock ∷ []) (elim verdict [
      | go ↦ record {
        tunnel = t2;
        effects = (send_bubble_anyway v.net p.source_ipv4 p.source_port t.state.addr src).0;
        ok = true;
      }
      | later ↦ quiet t2
      | stop ↦ quiet t2
    ])

-- `p->trusted = 0; p->local = 0;`
abbrev pub strange : Peer → Peer
strange q = record q { trusted = false; local = false }

-- The end of the use of a peer that may be null.
unfoldable pub drop_peer : Tunnel → Address → Option Peer → Outcome
drop_peer t src none = quiet t
drop_peer t src (some q) = record { tunnel = put_back t src q; effects = unlock ∷ []; ok = true }

-- A Teredo client whose packet is accepted becomes trusted with its mapping.
unfoldable pub adopt : Host → Packet → Tunnel → Peer → Outcome
unfolding predecap
adopt v p t q =
    then_deliver
      (predecap t v (ip6_src p.ip6)
        (record (set_mapping q p.source_ipv4 p.source_port) { trusted = true }))
      (if is_bubble p.ip6 then [] else delivered (whole_packet p) ∷ [])

-- The peer that our server tells of: by an origin indication, or by its own address.
unfoldable pub indicated : Tunnel → Packet → ℕ × ℕ
indicated t p =
    let src = ip6_src p.ip6 in
    if p.orig_ipv4 == 0 && is_bubble p.ip6 && src.prefix == t.state.addr.prefix
    then (in6_teredo_ipv4 src, in6_teredo_port src)
    else (p.orig_ipv4, p.orig_port)

abbrev pub is_link_local : Address → Bool
is_link_local a = first_byte a == 0xfe && second_byte a / 64 == 2

module _ (e : Endian) (md5 : Md5) (k : Keys) where
  -- Client case 6: the packet waits, and a ping goes to its source.
  unfoldable pub test_source : Host → Packet → Tunnel → Bool → Peer → Outcome
  test_source v p t created q =
      let src = ip6_src p.ip6 in
      let q0 =
        if created
        then (record (set_mapping q 0 0) { trusted = false; local = false; bubbles = 0; pings = 0 })
        else q in
      let (q1, verdict) =
        count_ping
          (touch_receive (enqueue_in q0 (whole_packet p) p.source_ipv4 p.source_port) v.now)
          v.now in
      let t1 = put_back t src q1 in
      after (unlock ∷ []) (elim verdict [
        | go ↦ record {
          tunnel = t1;
          effects = (send_ping e md5 k v.net v.now t.state.addr src).0;
          ok = true;
        }
        | later ↦ quiet t1
        | stop ↦ quiet t1
      ])

  -- A Teredo source is accepted without trust: its address matches the mapping, or it is a peer
  -- of the network, or its bubble answers one of ours.
  unfoldable pub is_accepted : Packet → Bool → Option Peer → Bool
  is_accepted p islocal held =
      in6_matches_teredo_client (ip6_src p.ip6) p.source_ipv4 p.source_port
      || elim held [ none ↦ islocal | some q ↦ q.local && has_mapping p q ]
      || is_bubble p.ip6 && check_bubble e md5 k p

  -- A mapping that does not match, a peer that is not in the list, or one that is not trusted.
  unfoldable pub accept_untrusted : Tunnel → Host → Packet → Bool → Option Peer → Outcome
  unfolding is_accepted obtain adopt test_source drop_peer
  accept_untrusted t v p islocal held =
      let src = ip6_src p.ip6 in
      if src.prefix == t.state.addr.prefix
      then if is_accepted p islocal held
        then (elim held [
          | some q ↦ adopt v p t q
          | none ↦
              if t.client
              then obtain t v src (λ t' created q. adopt v p t' (record q { local = islocal }))
              else quiet t
        ])
        else drop_peer t src held
      else (elim held [
        | some q ↦ test_source v p t false q
        | none ↦ obtain t v src (test_source v p)
      ])

  -- A peer of the list: case 1, trusted with its mapping; case 2, the answer to a ping.
  unfoldable pub accept_peer : Tunnel → Host → Packet → Bool → Peer → Outcome
  unfolding predecap accept_untrusted
  accept_peer t v p islocal q =
      let src = ip6_src p.ip6 in
      if q.trusted && has_mapping p q
      then then_deliver (predecap t v src q) (delivered (whole_packet p) ∷ [])
      else if t.client && check_ping md5 k v.now p
      then predecap t v src (set_mapping (record q { trusted = true }) p.source_ipv4 p.source_port)
      else accept_untrusted t v p islocal (some q)

  -- What is done with the answer of the first lookup.
  unfoldable pub accept : Tunnel → Host → Packet → Bool → Option Peer → Outcome
  unfolding obtain answer_discovery drop_peer accept_peer accept_untrusted
  accept t v p islocal held =
      let src = ip6_src p.ip6 in
      if islocal && is_discovery_bubble p
      then (elim held [
        | some q ↦ answer_discovery v p t q
        | none ↦ obtain t v src (λ t' created q. answer_discovery v p t' (strange q))
      ])
      else if first_byte (ip6_dst p.ip6) == 0xff
      then drop_peer t src held
      else elim held [
        | some q ↦ accept_peer t v p islocal q
        | none ↦ accept_untrusted t v p islocal none
      ]

  -- Packet reception, from the first lookup on.
  unfoldable pub receive : Tunnel → Host → Packet → Bool → Outcome
  unfolding accept
  receive t v p islocal =
      let src = ip6_src p.ip6 in
      let f = lookup t.list src false v.memory in
      after (locking (peer_of f src))
        (accept (record t { list = f.list }) v p islocal (peer_of f src))

  -- A packet of the server is answered with a bubble, and goes no further if it is one.
  unfoldable pub run_client : Tunnel → Host → Packet → Outcome
  unfolding receive indicated
  run_client t v p =
      let from_server = p.source_ipv4 == t.state.addr.server_ip && p.source_port == ipport_teredo in
      let told = from_server && not ((indicated t p).0 == 0) in
      after (if told then (reply_bubble v.net (indicated t p).0 (indicated t p).1 p.ip6).0 else [])
        (if told && is_bubble p.ip6
          then quiet t
          else if is_link_local (ip6_src p.ip6)
          then quiet t
          else receive t v p (is_local t p))

  -- `teredo_run_inner`
  unfoldable pub run_inner : Tunnel → Host → Packet → Outcome
  unfolding run_client receive
  run_inner t v p =
      if ltb p.ip6_len 40
      then quiet t
      else if not (u8 p.ip6 0 / 16 == 6) || ltb p.ip6_len (40 + ip6_plen p.ip6)
      then quiet t
      else if t.client
      then if maintenance_takes p
        then record { tunnel = t; effects = maintained p.ip6 ∷ []; ok = true }
        else if not t.state.up
        then quiet t
        else run_client t v p
      else if not ((ip6_src p.ip6).prefix == t.state.addr.prefix)
      then quiet t
      else receive t v p (is_local t p)
