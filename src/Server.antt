-- ===== src/Server.antt =====
-- miredo/libteredo/server.c: what a Teredo server does with one packet. Which bytes go where is an
-- answer; whether they get out (else -1 is returned) is not modelled.
pub mod Guard
pub mod Relay
use Prim.Native.Nat.{bit_xor}
use maiccu.Base.{
  ℕ, ◌+◌, ◌-◌, ◌*◌, ◌/◌, ◌%◌, ◌^◌, Bool, true, false, not, ◌&&◌, ◌||◌, List, [], ◌∷◌, ◌++◌, ◌==◌,
  ltb, leb, if◌then◌else◌, u8, be16, be32, take, replicate,
}
use maiccu.Checksum.{Endian, memory, teredo_cksum}
use maiccu.Address.{
  Address, ipport_teredo, all_routers, first_byte, in6_are_addr_equal, in6_matches_teredo_client,
  in6_teredo_ipv4, in6_teredo_port, is_ipv4_global_unicast, to_bytes,
}
use maiccu.Packet.{Packet}
use maiccu.Message.{
  ip6_src, ip6_dst, ip6_nxt, ip6_plen, ip6_header, ipproto_icmpv6, ipproto_none, is_bubble,
}
use maiccu.Tunnel.Receive.{is_link_local}

-- `struct teredo_server`, without its sockets and threads.
pub record Server : Type 0 where
  pub server_ip : ℕ
  pub server_ip2 : ℕ
  pub prefix : ℕ
  pub mtu : ℕ
  pub lladdr : Address

-- What `teredo_process_packet` comes to: the packet is discarded (-2); an advertisement (1), by
-- the secondary socket or not; an IPv6 packet (2); a datagram (3); or a datagram that is not sent since
-- its destination is not global (-1).
pub data Answer : Type 0 where
  discarded : Answer
  advert : Bool → ℕ → ℕ → List ℕ → Answer
  direct : List ℕ → Answer
  forwarded : ℕ → ℕ → List ℕ → Answer
  refused : Answer

-- An Origin Indication with the source of a packet.
abbrev pub origin_of : Packet → List ℕ
origin_of p =
    0 ∷ 0 ∷ (be16 (bit_xor p.source_port 0xffff) ++ be32 (bit_xor p.source_ipv4 0xffffffff))

-- The advertisement, around its checksum field: the prefix and the MTU are its options.
unfoldable pub ra_message : Server → List ℕ → List ℕ
ra_message s cksum =
    134
    ∷ 0
    ∷ (cksum
        ++ (0
            ∷ 0
            ∷ 0
            ∷ 0
            ∷ 0
            ∷ 0
            ∷ 0
            ∷ 0
            ∷ (be32 2000
                ++ (3
                    ∷ 4
                    ∷ 64
                    ∷ 64
                    ∷ (be32 0xffffffff
                        ++ (be32 0xffffffff
                            ++ (be32 0
                                ++ (be32 s.prefix
                                    ++ (be32 s.server_ip
                                        ++ (be32 0
                                            ++ (be32 0 ++ (5 ∷ 1 ∷ 0 ∷ 0 ∷ be32 s.mtu))))))))))))

-- The IPv6 packet, with the checksum as it lies in memory.
unfoldable pub ra_packet : Endian → Server → Address → List ℕ
unfolding ra_message
ra_packet e s dest =
    ip6_header 56 ipproto_icmpv6 255 s.lladdr dest
    ++ ra_message s (
        memory e (
          teredo_cksum e (to_bytes s.lladdr) (to_bytes dest) ipproto_icmpv6
            (ra_message s (0 ∷ 0 ∷ []) ∷ [])))

-- `SendRA`. The pointer to the nonce is never null, so there always is an Authentication header.
unfoldable pub send_ra : Endian → Server → Packet → Address → Bool → Answer
unfolding ra_packet
send_ra e s p dest secondary =
    advert (if dest.flags / 2 ^ 15 % 2 == 0 then secondary else not secondary) p.source_ipv4
      p.source_port
      (0 ∷ 1 ∷ 0 ∷ 0 ∷ (take 8 p.auth_nonce ++ (0 ∷ (origin_of p ++ ra_packet e s dest))))

-- `teredo_forward_udp`: all the bytes of the packet go, whatever its header says of its length.
unfoldable pub forward_udp : Packet → Bool → Answer
forward_udp p insert_orig =
    let dst = ip6_dst p.ip6 in
    if not (is_ipv4_global_unicast (in6_teredo_ipv4 dst))
    then refused
    else forwarded (in6_teredo_ipv4 dst) (in6_teredo_port dst)
        ((if insert_orig then origin_of p else []) ++ take p.ip6_len p.ip6)

-- `IN6_IS_ADDR_GLOBAL`
unfoldable pub is_global : Address → Bool
is_global a =
    not (in6_are_addr_equal a (low 0))
    && not (in6_are_addr_equal a (low 1))
    && not (is_link_local a)
    && not (first_byte a == 0xff)
  where
    low : ℕ → Address
    low n = record { prefix = 0; server_ip = 0; flags = 0; client_port = 0; client_ip = n }

-- A router solicitation, by its ICMPv6 header.
unfoldable pub is_solicitation : List ℕ → Bool
is_solicitation ip6 = ip6_nxt ip6 == ipproto_icmpv6 && leb 8 (ip6_plen ip6) && u8 ip6 40 == 133

-- Cases 1 to 3: what is no packet for a server at all.
unfoldable pub is_wellformed : Packet → Bool
is_wellformed p =
    not (ltb p.ip6_len 40)
    && u8 p.ip6 0 / 16 == 6
    && not (ltb p.ip6_len (40 + ip6_plen p.ip6))
    && (is_bubble p.ip6 || ip6_nxt p.ip6 == ipproto_icmpv6)
    && is_ipv4_global_unicast p.source_ipv4

-- Cases 4 to 6.
unfoldable pub is_served : Server → Packet → Bool
unfolding is_solicitation
is_served s p =
    let src = ip6_src p.ip6 in
    let dst = ip6_dst p.ip6 in
    is_link_local src && in6_are_addr_equal all_routers dst && is_solicitation p.ip6
    || (if src.prefix == s.prefix
        then in6_matches_teredo_client src p.source_ipv4 p.source_port
        else dst.prefix == s.prefix && dst.server_ip == s.server_ip)

-- From `accept` on.
unfoldable pub serve : Endian → Server → Packet → Bool → Answer
unfolding send_ra forward_udp is_global is_solicitation
serve e s p secondary =
    let dst = ip6_dst p.ip6 in
    if (p.source_ipv4 == s.server_ip || p.source_ipv4 == s.server_ip2)
      && p.source_port == ipport_teredo
    then discarded
    else if in6_are_addr_equal all_routers dst || in6_are_addr_equal s.lladdr dst
    then if is_solicitation p.ip6 then send_ra e s p (ip6_src p.ip6) secondary else discarded
    else if not (is_global dst)
    then discarded
    else if not (ip6_nxt p.ip6 == ipproto_none) && ltb 88 (ip6_plen p.ip6)
    then discarded
    else if not (dst.prefix == s.prefix)
    then direct (take (40 + ip6_plen p.ip6) p.ip6)
    else forward_udp p (dst.server_ip == s.server_ip)

-- `teredo_process_packet`, once a packet was received.
unfoldable pub process_packet : Endian → Server → Packet → Bool → Answer
unfolding is_wellformed is_served serve
process_packet e s p secondary =
    if not (is_wellformed p)
    then discarded
    else if not (is_served s p)
    then discarded
    else serve e s p secondary
