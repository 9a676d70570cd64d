-- ===== src/Message/Echo.antt =====
-- packets.c: the ping through the server, the check of its answer, and ICMPv6 errors.
use maiccu.Base.{
  ℕ, ◌+◌, ◌-◌, Bool, false, not, ◌&&◌, ◌||◌, List, [], ◌∷◌, ◌++◌, ltb, ◌==◌, if◌then◌else◌, u8, u16,
  take, drop,
}
use maiccu.Checksum.{Endian, memory, teredo_cksum}
use maiccu.Effect.{sent}
use maiccu.Address.{Address, ipport_teredo, first_byte, in6_are_addr_equal, to_bytes, read_address}
use maiccu.Packet.{Packet}
use maiccu.Security.{Md5, Keys, get_pinghash, verify_pinghash}
use maiccu.Message.{Net, Sending, ip6_plen, ip6_nxt, ip6_src, ip6_dst, ipproto_icmpv6, ip6_header}

abbrev pub echo_request : ℕ
echo_request = 128

abbrev pub echo_reply : ℕ
echo_reply = 129

abbrev pub dst_unreach : ℕ
dst_unreach = 1

-- `PING_PAYLOAD`, and the ICMPv6 message with its header of eight bytes.
abbrev pub ping_payload : ℕ
ping_payload = 18

abbrev pub ping_len : ℕ
ping_len = 26

-- The ICMPv6 message of a ping around its checksum field.
abbrev pub echo_message : ℕ → List ℕ → List ℕ → List ℕ
echo_message type cksum tag = type ∷ 0 ∷ (cksum ++ tag)

module _ (e : Endian) (md5 : Md5) (k : Keys) where
  -- The checksum is taken with its field at zero, and stored as it lies in memory.
  unfoldable pub ping_message : ℕ → Address → Address → List ℕ
  ping_message stamp src dst =
      let tag = get_pinghash md5 k stamp src dst in
      echo_message echo_request
        (memory e (
          teredo_cksum e (to_bytes src) (to_bytes dst) ipproto_icmpv6
            (echo_message echo_request (0 ∷ 0 ∷ []) tag ∷ [])))
        tag

  unfoldable pub ping_bytes : ℕ → Address → Address → List ℕ
  unfolding ping_message
  ping_bytes stamp src dst =
      ip6_header ping_len ipproto_icmpv6 128 src dst ++ ping_message stamp src dst

  -- `SendPing`, to the server that the source address names.
  unfoldable pub send_ping : Net → ℕ → Address → Address → Sending
  unfolding ping_bytes
  send_ping net stamp src dst = (
    sent src.server_ip ipport_teredo (ping_bytes stamp src dst) ∷ [],
    net src.server_ip ipport_teredo (ping_bytes stamp src dst),
  )

module _ (md5 : Md5) (k : Keys) where
  -- The end of `CheckPing`: the code of the ICMPv6 message at an offset, and its hash.
  unfoldable pub check_echo : ℕ → List ℕ → ℕ → Address → Address → Bool
  check_echo now ip6 at me it =
      if not (u8 ip6 (at + 1) == 0)
      then false
      else verify_pinghash md5 k now me it (drop (at + 4) ip6)

  -- An unreachable error: the request that it quotes must be a ping of ours to its sender.
  unfoldable pub check_unreach : ℕ → List ℕ → Bool
  check_unreach now ip6 =
      if ltb (ip6_plen ip6 - 8) (48 + ping_payload) || not (u8 ip6 54 == ipproto_icmpv6)
      then false
      else if not (u16 ip6 52 == ping_len)
      then false
      else if not (in6_are_addr_equal (read_address ip6 56) (ip6_dst ip6))
          || not (u8 ip6 88 == echo_request)
      then false
      else if not (in6_are_addr_equal (read_address ip6 72) (ip6_src ip6))
      then false
      else check_echo now ip6 88 (read_address ip6 56) (read_address ip6 72)

  -- `CheckPing`; `true` stands for 0, `false` for -1.
  unfoldable pub check_ping : ℕ → Packet → Bool
  check_ping now p =
      if not (ip6_nxt p.ip6 == ipproto_icmpv6) || ltb (ip6_plen p.ip6) ping_len
      then false
      else if u8 p.ip6 40 == dst_unreach
      then check_unreach now p.ip6
      else if not (u8 p.ip6 40 == echo_reply)
      then false
      else check_echo now p.ip6 40 (ip6_dst p.ip6) (ip6_src p.ip6)

-- The largest part of the packet that an error quotes.
abbrev pub max_quote : ℕ
max_quote = 1232

-- `BuildICMPv6Error`: the message without its checksum; none (`return 0`) is the empty list. The
-- packet is the memory from its start on, and its length.
unfoldable pub icmpv6_error : ℕ → ℕ → List ℕ → ℕ → List ℕ
icmpv6_error type code ip6 len =
    if ltb len 40
    then []
    else if ip6_nxt ip6 == ipproto_icmpv6 && ltb (u8 ip6 40) 128
    then []
    else if first_byte (ip6_dst ip6) == 0xff
    then []
    else if first_byte (ip6_src ip6) == 0xff || in6_are_addr_equal (ip6_src ip6) unspecified
    then []
    else type
      ∷ code
      ∷ 0
      ∷ 0
      ∷ 0
      ∷ 0
      ∷ 0
      ∷ 0
      ∷ take (if ltb max_quote len then max_quote else len) ip6
  where
    unspecified : Address
    unspecified = record { prefix = 0; server_ip = 0; flags = 0; client_port = 0; client_ip = 0 }
