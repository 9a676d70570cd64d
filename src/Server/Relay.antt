-- ===== src/Server/Relay.antt =====
-- miredo/libteredo/server.c: what a server sends on to a client.
use maiccu.Base.{
  past, passed, ℕ, ◌≤◌, Bool, true, false, not, ◌&&◌, ◌||◌, List, [], ◌++◌, ◌==◌, ltb,
  if◌then◌else◌, ◌≡◌, ◌≢◌, arith, take,
}
use maiccu.Checksum.{Endian}
use maiccu.Address.{
  Address, all_routers, in6_are_addr_equal, in6_teredo_ipv4, in6_teredo_port, ipport_teredo,
  is_ipv4_global_unicast,
}
use maiccu.Packet.{Packet}
use maiccu.Message.{ip6_dst, ip6_nxt, ip6_plen, ip6_src, ipproto_none}
use maiccu.Server.{
  Server, discarded, refused, direct, forwarded, forward_udp, is_global, is_served, is_solicitation,
  is_wellformed, origin_of, process_packet, send_ra, serve,
}
use maiccu.Server.Guard.{is_wellformed-small}

discarded-forwarded : {ip port : ℕ} {bs : List ℕ} → discarded ≢ forwarded ip port bs
discarded-forwarded h = cc

refused-forwarded : {ip port : ℕ} {bs : List ℕ} → refused ≢ forwarded ip port bs
refused-forwarded h = cc

direct-forwarded : {ip port : ℕ} {b bs : List ℕ} → direct b ≢ forwarded ip port bs
direct-forwarded h = cc

send_ra-forwarded :
    (e : Endian) (s : Server) (p : Packet) (secondary c : Bool) (a : Address) {ip port : ℕ}
    {bs : List ℕ}
    → (if c then send_ra e s p a secondary else discarded) ≢ forwarded ip port bs
unfolding send_ra
send_ra-forwarded e s p secondary true a h = cc
send_ra-forwarded e s p secondary false a h = discarded-forwarded h

-- What `forward_udp` sends.
forward_udp-forwarded :
    (p : Packet) (o : Bool) {ip port : ℕ} {bs : List ℕ}
    → forward_udp p o ≡ forwarded ip port bs
    → (is_ipv4_global_unicast ip ≡ true)
      × (ip ≡ in6_teredo_ipv4 (ip6_dst p.ip6))
      × (port ≡ in6_teredo_port (ip6_dst p.ip6))
      × (bs ≡ (if o then origin_of p else []) ++ take p.ip6_len p.ip6)
unfolding forward_udp
forward_udp-forwarded p o h =
    let a =
      past (not (is_ipv4_global_unicast (in6_teredo_ipv4 (ip6_dst p.ip6)))) h refused-forwarded in
    let (i, q, b) = parts a.1 in (ground (arith, passed _ a.0, i), i, q, b)
  where
    parts :
        {i i' q q' : ℕ} {b b' : List ℕ}
        → forwarded i q b ≡ forwarded i' q' b'
        → (i' ≡ i) × (q' ≡ q) × (b' ≡ b)
    parts g = (cc, cc, cc)

serve-forwarded :
    (e : Endian) (s : Server) (p : Packet) (secondary : Bool) {ip port : ℕ} {bs : List ℕ}
    → serve e s p secondary ≡ forwarded ip port bs
    → ((not (ip6_nxt p.ip6 == ipproto_none) && ltb 88 (ip6_plen p.ip6)) ≡ false)
      × (((ip6_dst p.ip6).prefix == s.prefix) ≡ true)
      × (forward_udp p ((ip6_dst p.ip6).server_ip == s.server_ip) ≡ forwarded ip port bs)
unfolding serve
serve-forwarded e s p secondary h =
    let dst = ip6_dst p.ip6 in
    let own =
      (p.source_ipv4 == s.server_ip || p.source_ipv4 == s.server_ip2)
      && p.source_port == ipport_teredo in
    let to_us = in6_are_addr_equal all_routers dst || in6_are_addr_equal s.lladdr dst in
    let a = past own h discarded-forwarded in
    let b =
      past to_us a.1 (send_ra-forwarded e s p secondary (is_solicitation p.ip6) (ip6_src p.ip6)) in
    let c = past (not (is_global dst)) b.1 discarded-forwarded in
    let d = past _ c.1 discarded-forwarded in
    let f = past (not (dst.prefix == s.prefix)) d.1 direct-forwarded in (d.0, passed _ f.0, f.1)

-- A server sends on to a client the bytes of a packet that is served, with a payload of at most 88 bytes by
-- its header, whose destination has the Teredo prefix, to the mapping in the destination, which is a
-- global unicast address; before them stands the origin of the packet exactly if the destination
-- names this server.
pub process_packet-forwarded :
    (e : Endian) (s : Server) (p : Packet) (secondary : Bool) {ip port : ℕ} {bs : List ℕ}
    → process_packet e s p secondary ≡ forwarded ip port bs
    → (is_served s p ≡ true)
      × (ip6_plen p.ip6 ≤ 88)
      × ((ip6_dst p.ip6).prefix ≡ s.prefix)
      × (is_ipv4_global_unicast ip ≡ true)
      × (ip ≡ in6_teredo_ipv4 (ip6_dst p.ip6))
      × (port ≡ in6_teredo_port (ip6_dst p.ip6))
      × (bs
          ≡ (if (ip6_dst p.ip6).server_ip == s.server_ip then origin_of p else [])
            ++ take p.ip6_len p.ip6)
unfolding process_packet
process_packet-forwarded e s p secondary h =
    let w = past (not (is_wellformed p)) h discarded-forwarded in
    let v = past (not (is_served s p)) w.1 discarded-forwarded in
    let (g, o, f) = serve-forwarded e s p secondary v.1 in
    let (u, i, q, b) = forward_udp-forwarded p _ f in
    (passed _ v.0, is_wellformed-small p (passed _ w.0) g, ground (arith, o), u, i, q, b)
