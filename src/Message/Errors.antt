-- ===== src/Message/Errors.antt =====
-- packets.c: the size and the content of ICMPv6 errors.
use maiccu.Base.{
  ℕ, ◌+◌, ◌≤◌, false, ◌&&◌, List, [], ltb, ◌==◌, if◌then◌else◌, ◌≡◌, ◌≢◌, ◌⊎◌, arith, u8, take,
  drop, length, length-take,
}
use maiccu.Address.{first_byte}
use maiccu.Message.{ip6_nxt, ip6_src, ip6_dst, ipproto_icmpv6}
use maiccu.Message.Echo.{icmpv6_error}

-- Either there is no error, or it is about a packet with a whole header that is no ICMPv6 error
-- itself and has neither a multicast destination nor a multicast source; then it quotes the packet from its
-- start on, and it fits with its IPv6 header into 1280 bytes.
pub icmpv6_error-quote :
    (type code : ℕ) (ip6 : List ℕ) (len : ℕ)
    → len ≤ length ip6
    → (icmpv6_error type code ip6 len ≡ [])
      ⊎ ((40 ≤ len)
          × ((ip6_nxt ip6 == ipproto_icmpv6 && ltb (u8 ip6 40) 128) ≡ false)
          × (first_byte (ip6_dst ip6) ≢ 0xff)
          × (first_byte (ip6_src ip6) ≢ 0xff)
          × (drop 8 (icmpv6_error type code ip6 len)
              ≡ take (if ltb 1232 len then 1232 else len) ip6)
          × (length (icmpv6_error type code ip6 len) + 40 ≤ 1280))
unfolding icmpv6_error
icmpv6_error-quote type code ip6 len h =
    ground (arith, h, length-take (if ltb 1232 len then 1232 else len) ip6)
