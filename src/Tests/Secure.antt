-- ===== src/Tests/Secure.antt =====
-- Hashes, pings, bubbles and advertisements at concrete inputs.
use maiccu.Base.{
  ℕ, true, false, List, [], ◌∷◌, ◌++◌, ◌≡◌, ◌≢◌, refl, arith, ltb, length, replicate, be32,
  if◌then◌else◌,
}
use maiccu.Checksum.{little}
use maiccu.Address.{
  Address, teredo_restrict, teredo_cone, to_bytes, read_address, is_valid_teredo_prefix,
  in6_are_addr_equal,
}
use maiccu.Packet.{Packet}
use maiccu.Security.{get_pinghash}
use maiccu.Security.Ping.{age}
use maiccu.Message.{ip6_header, ip6_dst, bubble, bubble_source}
use maiccu.Message.Advert.{
  Scan, scan_option, scan_options, ra_header_ok, ra_result, current_prefix, parse_ra,
}
use maiccu.Message.Advert.Bounds.{IsAdvertised, parse_ra-IsAdvertised}
use maiccu.Message.Echo.{check_ping}
use maiccu.Message.Authentic.{reply_bytes, check_ping-reply}
use maiccu.Tests.{toy_md5, keys_42, remote, remote-IsAddress, native, native-IsAddress}

abbrev ping_990 : List ℕ
ping_990 = get_pinghash toy_md5 keys_42 990 remote native ++ []

-- A packet with these bytes from the server of the remote client.
abbrev packet_of : List ℕ → Packet
packet_of bs = record {
  ip6 = bs;
  ip6_len = length bs;
  source_ipv4 = 0x41370001;
  source_port = 3544;
  orig_port = 4000;
  orig_ipv4 = 0x50000001;
  dest_ipv4 = 0;
  auth_present = true;
  auth_fail = false;
  auth_nonce = [];
}

abbrev bubble_back : List ℕ
bubble_back = bubble remote (bubble_source little toy_md5 keys_42 remote)

abbrev pong : List ℕ
pong = reply_bytes remote native (1 ∷ 2 ∷ []) (get_pinghash toy_md5 keys_42 990 remote native ++ [])

check_ping-reply_example :
    check_ping toy_md5 keys_42 1000 (packet_of pong) ≡ ltb (age toy_md5 keys_42 1000 990) 30
check_ping-reply_example =
    check_ping-reply toy_md5 keys_42 (packet_of pong) 1000 990 1 2 remote native [] (omega arith)
      remote-IsAddress native-IsAddress refl

abbrev no_scan : Scan
no_scan = record { prefix = 0; server_ip = 0; net_mtu = 0 }

-- The reply to a ping, with bytes of padding behind it.
abbrev long_pong : List ℕ
long_pong =
    reply_bytes remote native (1 ∷ 2 ∷ [])
      (get_pinghash toy_md5 keys_42 990 remote native ++ replicate 48 0)

-- An advertisement of the prefix 2001::/32 by the server 65.55.0.1.
abbrev advert : List ℕ
advert =
    ip6_header 48 58 255 native teredo_restrict
    ++ (134
        ∷ 0
        ∷ 0
        ∷ 0
        ∷ 64
        ∷ 0
        ∷ 0
        ∷ 0
        ∷ (replicate 8 0
            ++ (3
                ∷ 4
                ∷ 64
                ∷ 64
                ∷ (replicate 12 0 ++ (be32 0x20010000 ++ (be32 0x41370001 ++ replicate 8 0))))))

abbrev advertised : Address
advertised = record remote { flags = 0 }

parse_ra-IsAdvertised_example :
    ((packet_of advert).orig_ipv4 ≢ 0)
    × (in6_are_addr_equal (ip6_dst advert) (if false then teredo_cone else teredo_restrict) ≡ true)
    × IsAdvertised little (packet_of advert) false 1280 advertised 1280
unfolding parse_ra ra_header_ok in6_are_addr_equal read_address to_bytes scan_options scan_option
    ra_result is_valid_teredo_prefix current_prefix
parse_ra-IsAdvertised_example =
    parse_ra-IsAdvertised little (packet_of advert) native false 1280 {a = advertised} {m = 1280}
      (omega arith) (omega arith) (omega arith) refl
