-- ===== src/Tunnel/Delivery.antt =====
-- miredo/libteredo/relay.c: which packets `teredo_run_inner` delivers to the host.
pub mod Source
pub mod Run
use mathlib.Core.List.{Memᴰ}
use mathlib.Core.List.Memᴰ.{head, tail}
use maiccu.Base.{
  ℕ, ◌+◌, ◌*◌, ◌/◌, ◌%◌, ◌^◌, Bool, true, false, not, ◌&&◌, ◌||◌, List, [], ◌∷◌, ◌++◌, Option, none,
  some, ◌==◌, leb, ltb, u8, if◌then◌else◌, ◌≡◌, ◌⊎◌, refl, arith, Bool-cases, Option-cases, inl,
  inr, ap, sym, ◌∙◌,
}
use maiccu.Effect.{
  Effect, sent, delivered, icmpv6, went_up, went_down, maintained, lock, unlock, null_released,
}
use maiccu.Checksum.{Endian}
use maiccu.Address.{Address, first_byte}
use maiccu.Address.Codec.{in6_are_addr_equal_iff}
use maiccu.Packet.{Packet}
use maiccu.Peer.{
  Peer, Queued, count_bubble, count_ping, emit_one, queue_emit, peer_init, set_mapping,
  touch_receive, queue_yield,
}
use maiccu.PeerList.{PeerList, Memory, Found, item_of, lookup}
use maiccu.PeerList.Invariant.{IsList}
use maiccu.PeerList.Reach.{lookup-IsList}
use maiccu.PeerList.Lookup.{promised, lookup-Delivers}
use maiccu.Security.{Md5, Keys}
use maiccu.Message.{
  ip6_src, ip6_dst, ip6_plen, is_bubble, send_bubble, send_bubble_anyway, reply_bubble,
}
use maiccu.Message.Echo.{check_ping, send_ping}
use maiccu.Tunnel.{Tunnel, Host, Outcome, max_peers, quiet, after, peer_of, locking}
use maiccu.Tunnel.Receive.{
  is_local, maintenance_takes, whole_packet, has_mapping, predecap, then_deliver, obtain,
  answer_discovery, strange, drop_peer, adopt, test_source, is_accepted, accept_untrusted,
  accept_peer, accept, receive, indicated, is_link_local, run_client, run_inner,
}

-- Every packet that is delivered satisfies a predicate.
pub Given : (List ℕ → Type 0) → Effect → Type 0
Given P (delivered bs) = P bs
Given P (sent ip port bs) = Unit
Given P (icmpv6 bs a) = Unit
Given P (went_up a mtu) = Unit
Given P went_down = Unit
Given P (maintained bs) = Unit
Given P lock = Unit
Given P unlock = Unit
Given P null_released = Unit

pub Each : (List ℕ → Type 0) → List Effect → Type 0
unfolding Given
Each P [] = Unit
Each P (e ∷ es) = Given P e × Each P es

-- A packet of the source has come far enough to be looked at.
unfoldable pub is_reachable : Tunnel → Packet → Bool
is_reachable t p =
    leb 40 p.ip6_len
    && u8 p.ip6 0 / 16 == 6
    && leb (40 + ip6_plen p.ip6) p.ip6_len
    && not (first_byte (ip6_dst p.ip6) == 0xff)
    && (if t.client
        then t.state.up && not (is_link_local (ip6_src p.ip6))
        else (ip6_src p.ip6).prefix == t.state.addr.prefix)

module _ (e : Endian) (md5 : Md5) (k : Keys) where
  -- The source has shown where it is: it is a trusted peer with this mapping, it answers a ping of
  -- ours, or it is a Teredo client that is accepted at once.
  pub is_authentic : Tunnel → Host → Packet → Bool → Option Peer → Bool
  is_authentic t v p islocal held =
      (ip6_src p.ip6).prefix == t.state.addr.prefix && is_accepted e md5 k p islocal held
      || elim held [
        | none ↦ false
        | some q ↦ q.trusted && has_mapping p q || t.client && check_ping md5 k v.now p
      ]

-- A packet that waited in the queue of the source, and came from where this one comes from.
pub Waited : Tunnel → Packet → List ℕ → Type 0
Waited t p bs =
    (q : Peer) × (w : Queued) × (item_of t.list (ip6_src p.ip6) ≡ some q)
    × Memᴰ w q.queue
    × (w.incoming ≡ true)
    × (w.ipv4 ≡ p.source_ipv4)
    × (w.port ≡ p.source_port)
    × (w.bytes ≡ bs)

-- What may be delivered.
pub Justified : Endian → Md5 → Keys → Tunnel → Host → Packet → List ℕ → Type 0
Justified e md5 k t v p bs =
    (is_reachable t p ≡ true)
    × (is_authentic e md5 k t v p (is_local t p) (item_of t.list (ip6_src p.ip6)) ≡ true)
    × ((bs ≡ whole_packet p) ⊎ Waited t p bs)

-- Effects with no delivery among them.
pub silent : List Effect → Bool
silent [] = true
silent (delivered bs ∷ es) = false
silent (sent ip port bs ∷ es) = silent es
silent (icmpv6 bs a ∷ es) = silent es
silent (went_up a mtu ∷ es) = silent es
silent (went_down ∷ es) = silent es
silent (maintained bs ∷ es) = silent es
silent (lock ∷ es) = silent es
silent (unlock ∷ es) = silent es
silent (null_released ∷ es) = silent es

pub answer_discovery-silent :
    (v : Host) (p : Packet) (u : Tunnel) (q : Peer)
    → silent (answer_discovery v p u q).effects ≡ true
unfolding silent answer_discovery send_bubble_anyway
answer_discovery-silent v p u q = ground arith

pub test_source-silent :
    (e : Endian) (md5 : Md5) (k : Keys) (v : Host) (p : Packet) (u : Tunnel) (created : Bool)
    (q : Peer)
    → silent (test_source e md5 k v p u created q).effects ≡ true
unfolding silent test_source send_ping
test_source-silent e md5 k v p u created q = ground arith

pub reply_bubble-silent :
    (v : Host) (ip port : ℕ) (bs : List ℕ) → silent (reply_bubble v.net ip port bs).0 ≡ true
unfolding silent reply_bubble send_bubble send_bubble_anyway
reply_bubble-silent v ip port bs = ground arith

-- The first lookup gives the peer of the list, and changes none.
pub lookup_known :
    (l : PeerList) (a : Address) (m : Memory)
    → IsList max_peers l
    → (peer_of (lookup l a false m) a ≡ item_of l a)
      × (item_of (lookup l a false m).list a ≡ item_of l a)
unfolding peer_of promised
lookup_known l a m v = let (f, c, b, s) = lookup-Delivers l a false m v in ground (arith, f, s a)

-- A peer that a lookup makes has nothing in its queue.
pub lookup_new :
    (l : PeerList) (a : Address) (m : Memory) (q : Peer)
    → IsList max_peers l
    → item_of l a ≡ none
    → peer_of (lookup l a true m) a ≡ some q
    → q.queue ≡ []
unfolding peer_of promised peer_init
lookup_new l a m q v n h =
    let (f, c, b, s) = lookup-Delivers l a true m v in
    ground (arith, f, s a, n, h, (in6_are_addr_equal_iff a a).1 refl)

module _ (P : List ℕ → Type 0) where
  pub Each-append : (es fs : List Effect) → Each P es → Each P fs → Each P (es ++ fs)
  unfolding Each
  Each-append [] fs h k = k
  Each-append (e ∷ es) fs h k = (h.0, Each-append es fs h.1 k)

  pub silent-Each : (es : List Effect) → silent es ≡ true → Each P es
  unfolding silent Each Given
  silent-Each [] h = tt
  silent-Each (delivered bs ∷ es) h = absurd (ground (arith, h))
  silent-Each (sent ip port bs ∷ es) h = (tt, silent-Each es h)
  silent-Each (icmpv6 bs a ∷ es) h = (tt, silent-Each es h)
  silent-Each (went_up a mtu ∷ es) h = (tt, silent-Each es h)
  silent-Each (went_down ∷ es) h = (tt, silent-Each es h)
  silent-Each (maintained bs ∷ es) h = (tt, silent-Each es h)
  silent-Each (lock ∷ es) h = (tt, silent-Each es h)
  silent-Each (unlock ∷ es) h = (tt, silent-Each es h)
  silent-Each (null_released ∷ es) h = (tt, silent-Each es h)

  pub unlock-Each : Each P (unlock ∷ [])
  unfolding Each Given
  unlock-Each = (tt, tt)

  pub nothing-Each : Each P []
  unfolding Each
  nothing-Each = tt

  pub delivered-Each : (bs : List ℕ) → P bs → Each P (delivered bs ∷ [])
  unfolding Each Given
  delivered-Each bs h = (h, tt)

  pub if-Each :
      (b : Bool) (x y : Outcome)
      → (b ≡ true → Each P x.effects)
      → (b ≡ false → Each P y.effects)
      → Each P (if b then x else y).effects
  if-Each true x y h k = h refl
  if-Each false x y h k = k refl

  -- A queue of which each waiting packet from a mapping may be delivered.
  abbrev pub Ready : List Queued → ℕ → ℕ → Type 0
  Ready qs ip port =
      (w : Queued) → Memᴰ w qs → w.incoming ≡ true → w.ipv4 ≡ ip → w.port ≡ port → P w.bytes

  emit_one-Each :
      (q : Queued) (ip port : ℕ)
      → (q.incoming ≡ true → q.ipv4 ≡ ip → q.port ≡ port → P q.bytes)
      → Each P (emit_one q ip port)
  unfolding Each Given emit_one
  emit_one-Each q ip port h = elim (Bool-cases q.incoming) [
    | inl a ↦ elim (Bool-cases (ip == q.ipv4 && port == q.port)) [
      | inl b ↦ rw (a, b) (h a (ground (arith, b)) (ground (arith, b)), tt)
      | inr b ↦ rw (a, b) tt
    ]
    | inr a ↦ rw a (tt, tt)
  ]

  queue_emit-Each :
      (qs : List Queued) (ip port : ℕ) → Ready qs ip port → Each P (queue_emit qs ip port)
  unfolding Each queue_emit
  queue_emit-Each [] ip port h = tt
  queue_emit-Each (q ∷ qs) ip port h =
      Each-append (emit_one q ip port) (queue_emit qs ip port)
        (emit_one-Each q ip port (h q (head refl)))
        (queue_emit-Each qs ip port (λ w m. h w (tail m)))

  pub predecap-Each :
      (u : Tunnel) (v : Host) (src : Address) (q : Peer)
      → Ready q.queue q.mapped_addr q.mapped_port
      → Each P (predecap u v src q).effects
  unfolding Each Given predecap queue_yield touch_receive
  predecap-Each u v src q h = (tt, queue_emit-Each q.queue q.mapped_addr q.mapped_port h)

  pub adopt-Each :
      (v : Host) (p : Packet) (u : Tunnel) (q : Peer)
      → Ready q.queue p.source_ipv4 p.source_port
      → P (whole_packet p)
      → Each P (adopt v p u q).effects
  unfolding Each Given adopt set_mapping
  adopt-Each v p u q h w =
      Each-append
        (predecap u v (ip6_src p.ip6)
          (record (set_mapping q p.source_ipv4 p.source_port) { trusted = true })).effects
        (if is_bubble p.ip6 then [] else delivered (whole_packet p) ∷ [])
        (predecap-Each u v (ip6_src p.ip6)
          (record (set_mapping q p.source_ipv4 p.source_port) { trusted = true }) h)
        (elim (Bool-cases (is_bubble p.ip6)) [ inl b ↦ rw b tt | inr b ↦ rw b (w, tt) ])
