-- ===== src/Message.antt =====
-- miredo/libteredo/packets.c, packets.h and checksum.h: the messages of the Teredo protocol. An IPv6
-- packet is its bytes; `sendmsg` is the kernel's, and whether a datagram goes out whole is an argument.
pub mod Router
pub mod Advert
pub mod Echo
pub mod Authentic
pub mod Errors
use maiccu.Base.{
  ℕ, ◌+◌, ◌-◌, ◌*◌, ◌/◌, ◌%◌, ◌^◌, Bool, true, false, not, ◌&&◌, ◌||◌, List, [], ◌∷◌, ◌++◌, ltb,
  ◌==◌, if◌then◌else◌, u8, u16, take, drop, length, eq_bytes, be16, be32,
}
use maiccu.Checksum.{Endian}
use maiccu.Effect.{Effect, sent}
use maiccu.Address.{
  Address, ipport_teredo, in6_teredo_ipv4, in6_teredo_port, is_ipv4_global_unicast, to_bytes,
  read_address,
}
use maiccu.Packet.{Packet}
use maiccu.Security.{Md5, Keys, get_nonce}

-- Fields of the IPv6 header.
abbrev pub ip6_plen : List ℕ → ℕ
ip6_plen p = u16 p 4

abbrev pub ip6_nxt : List ℕ → ℕ
ip6_nxt p = u8 p 6

abbrev pub ip6_src : List ℕ → Address
ip6_src p = read_address p 8

abbrev pub ip6_dst : List ℕ → Address
ip6_dst p = read_address p 24

abbrev pub ipproto_none : ℕ
ipproto_none = 59

abbrev pub ipproto_icmpv6 : ℕ
ipproto_icmpv6 = 58

-- What was sent, and whether it went out.
abbrev pub Sending : Type 0
Sending = List Effect × Bool

-- Whether `sendmsg` takes the whole datagram, by address, port and bytes.
abbrev pub Net : Type 0
Net = ℕ → ℕ → List ℕ → Bool

-- An IPv6 header of forty bytes.
abbrev pub ip6_header : ℕ → ℕ → ℕ → Address → Address → List ℕ
ip6_header plen nxt hlim src dst =
    0x60 ∷ 0 ∷ 0 ∷ 0 ∷ (be16 plen ++ (nxt ∷ hlim ∷ (to_bytes src ++ to_bytes dst)))

unfoldable pub bubble : Address → Address → List ℕ
bubble src dst = ip6_header 0 ipproto_none 0 src dst

unfoldable pub is_bubble : List ℕ → Bool
is_bubble p = ip6_plen p == 0 && ip6_nxt p == ipproto_none

unfoldable pub send_bubble_anyway : Net → ℕ → ℕ → Address → Address → Sending
send_bubble_anyway net ip port src dst =
    (sent ip port (bubble src dst) ∷ [], net ip port (bubble src dst))

-- To an address that is not global nothing is sent, and that is no error.
unfoldable pub send_bubble : Net → ℕ → ℕ → Address → Address → Sending
send_bubble net ip port src dst =
    if is_ipv4_global_unicast ip then send_bubble_anyway net ip port src dst else ([], true)

unfoldable pub reply_bubble : Net → ℕ → ℕ → List ℕ → Sending
reply_bubble net ip port req = send_bubble net ip port (ip6_dst req) (ip6_src req)

-- `hash[0] &= 0xfc` on the eight bytes of a nonce.
unfoldable pub clear_group : List ℕ → List ℕ
clear_group [] = []
clear_group (b ∷ bs) = b / 4 * 4 ∷ bs

module _ (e : Endian) (md5 : Md5) (k : Keys) where
  -- The last eight bytes of the source of a bubble to the client at an address.
  unfoldable pub bubble_nonce : Address → List ℕ
  unfolding clear_group
  bubble_nonce dst = clear_group (get_nonce md5 k e 0 (in6_teredo_ipv4 dst) (in6_teredo_port dst))

  -- fe80::/64 with the nonce.
  unfoldable pub bubble_source : Address → Address
  bubble_source dst = read_address (0xfe ∷ 0x80 ∷ 0 ∷ 0 ∷ 0 ∷ 0 ∷ 0 ∷ 0 ∷ bubble_nonce dst) 0

  -- `SendBubbleFromDst`: to the client itself, or to its server.
  unfoldable pub send_bubble_from_dst : Net → Address → Bool → Sending
  send_bubble_from_dst net dst indirect =
      send_bubble net (if indirect then dst.server_ip else in6_teredo_ipv4 dst)
        (if indirect then ipport_teredo else in6_teredo_port dst) (bubble_source dst) dst

  -- `CheckBubble`; `true` stands for 0, `false` for -1.
  unfoldable pub check_bubble : Packet → Bool
  check_bubble p = eq_bytes (bubble_nonce (ip6_src p.ip6)) (take 8 (drop 32 p.ip6))
