-- ===== src/Message/Advert.antt =====
-- packets.c: validation of a router advertisement, `teredo_parse_ra`.
pub mod Bounds
use Prim.Native.Nat.{bit_xor}
use maiccu.Base.{
  ℕ, zero, suc, ◌+◌, ◌-◌, ◌*◌, ◌/◌, ◌%◌, ◌^◌, Bool, true, false, not, ◌&&◌, ◌||◌, List, [], ◌∷◌,
  Option, none, some, ltb, ◌==◌, if◌then◌else◌, u8, u16, u32, drop,
}
use maiccu.Checksum.{Endian}
use maiccu.Address.{
  Address, teredo_cone, teredo_restrict, teredo_prefix, teredo_prefix_obsolete, flag_cone,
  is_valid_teredo_prefix, in6_are_addr_equal,
}
use maiccu.Packet.{Packet}
use maiccu.Message.{ip6_plen, ip6_nxt, ip6_dst, ipproto_icmpv6}

abbrev pub nd_router_advert : ℕ
nd_router_advert = 134

abbrev pub opt_prefix_information : ℕ
opt_prefix_information = 3

abbrev pub opt_mtu : ℕ
opt_mtu = 5

-- What the loop over the options keeps: both words of the prefix, and the MTU or 0.
pub record Scan : Type 0 where
  pub prefix : ℕ
  pub server_ip : ℕ
  pub net_mtu : ℕ

-- How the loop ends: with a result, by `return -1`, or because the fuel ran out.
pub data Scanned : Type 0 where
  scanned : Scan → Scanned
  refused exhausted : Scanned

-- The body of the `switch`; `none` is `return -1`. `hdr` is the buffer from the option on.
unfoldable pub scan_option : List ℕ → ℕ → Scan → Option Scan
scan_option hdr optlen s =
    if u8 hdr 0 == opt_prefix_information
    then if ltb optlen 32 || not (u8 hdr 2 == 64)
      then none
      else if not (s.server_ip == 0)
      then none
      else some (record s { prefix = u32 hdr 16; server_ip = u32 hdr 20 })
    else if u8 hdr 0 == opt_mtu
    then if ltb (u32 hdr 4) 1280 || ltb 65535 (u32 hdr 4)
      then none
      else some (record s { net_mtu = u32 hdr 4 })
    else some s

-- The loop over the options, on fuel; each round takes at least eight bytes.
unfoldable pub scan_options : ℕ → List ℕ → ℕ → Scan → Scanned
scan_options zero hdr len s = exhausted
scan_options (suc fuel) hdr len s =
    let optlen = u8 hdr 1 * 8 in
    if ltb len 8
    then scanned s
    else if ltb len optlen || optlen == 0
    then refused
    else (elim (scan_option hdr optlen s) [
      | none ↦ refused
      | some t ↦ scan_options fuel (drop optlen hdr) (len - optlen) t
    ])

-- The tests on the IPv6 and the ICMPv6 header; 16 and 32 are the sizes of the advertisement and of
-- a prefix information option.
unfoldable pub ra_header_ok : Packet → Bool → Bool
ra_header_ok p cone =
    not (p.orig_ipv4 == 0)
    && in6_are_addr_equal (ip6_dst p.ip6) (if cone then teredo_cone else teredo_restrict)
    && ip6_nxt p.ip6 == ipproto_icmpv6
    && not (ltb (ip6_plen p.ip6) 16)
    && u8 p.ip6 40 == nd_router_advert
    && u8 p.ip6 41 == 0
    && not (ltb (ip6_plen p.ip6 - 16) 32)

-- The obsolete prefix is replaced.
unfoldable pub current_prefix : ℕ → ℕ
current_prefix prefix = if prefix == teredo_prefix_obsolete then teredo_prefix else prefix

-- After the loop: the address and the MTU that are returned.
unfoldable pub ra_result : Endian → Packet → Bool → ℕ → Scan → Option (Address × ℕ)
ra_result e p cone mtu s =
    if not (is_valid_teredo_prefix e (current_prefix s.prefix))
    then none
    else some (address, if not (s.net_mtu == 0) then s.net_mtu % 2 ^ 16 else mtu)
  where
    address : Address
    address = record {
      prefix = current_prefix s.prefix;
      server_ip = s.server_ip;
      flags = if cone then flag_cone else 0;
      client_port = bit_xor p.orig_port 0xffff;
      client_ip = bit_xor p.orig_ipv4 0xffffffff;
    }

-- `teredo_parse_ra`. `old` and `mtu` are what the caller's variables hold before the call. The fuel
-- is the length of the options and one more.
unfoldable pub parse_ra : Endian → Packet → Address → Bool → ℕ → Option (Address × ℕ)
parse_ra e p old cone mtu =
    let len = ip6_plen p.ip6 - 16 in
    if not (ra_header_ok p cone)
    then none
    else (elim (scan_options (suc len) (drop 56 p.ip6) len
        (record { prefix = old.prefix; server_ip = 0; net_mtu = 0 })) [
          | scanned s ↦ ra_result e p cone mtu s
          | _ ↦ none
        ])
