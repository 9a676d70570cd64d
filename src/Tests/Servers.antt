-- ===== src/Tests/Servers.antt =====
-- The server at concrete packets.
use maiccu.Base.{◌++◌, ◌==◌, if◌then◌else◌, take, [], false, true, ◌≡◌, ◌≤◌, refl}
use maiccu.Checksum.{little}
use maiccu.Address.{
  in6_teredo_ipv4, in6_teredo_port, in6_are_addr_equal, in6_matches_teredo_client,
  is_ipv4_global_unicast, read_address, teredo_prefix, to_bytes,
}
use maiccu.Packet.{Packet}
use maiccu.Message.{is_bubble, ip6_header, ip6_plen, ip6_dst}
use maiccu.Server.{Server, discarded, forwarded, origin_of, is_served, process_packet}
use maiccu.Server.Relay.{process_packet-forwarded}
use maiccu.Tests.{remote, native}

abbrev server : Server
server = record {
  server_ip = 0x41370001;
  server_ip2 = 0x41370002;
  prefix = teredo_prefix;
  mtu = 1280;
  lladdr = record { prefix = 0xfe800000; server_ip = 0; flags = 0; client_port = 0; client_ip = 1 };
}

-- A bubble of the remote client to the native host.
abbrev bubble : Packet
bubble = record {
  ip6 = ip6_header 0 59 64 remote native;
  ip6_len = 40;
  source_ipv4 = 0x50000001;
  source_port = 4000;
  orig_port = 0;
  orig_ipv4 = 0;
  dest_ipv4 = 0;
  auth_present = false;
  auth_fail = false;
  auth_nonce = [];
}

-- From another mapping it is not served.
bubble_elsewhere :
    process_packet little server (record bubble { source_port = 4001 }) false ≡ discarded
unfolding process_packet is_bubble is_ipv4_global_unicast read_address to_bytes
    in6_matches_teredo_client in6_are_addr_equal
bubble_elsewhere = refl

-- A bubble of a native host to the remote client, which is the server's.
abbrev inbound : Packet
inbound = record bubble {
  ip6 = ip6_header 0 59 64 native remote;
  source_ipv4 = 0x50000002;
  source_port = 5000;
}

inbound_forwarded :
    process_packet little server inbound false
    ≡ forwarded 0x50000001 4000 (origin_of inbound ++ inbound.ip6)
unfolding process_packet is_bubble is_ipv4_global_unicast read_address to_bytes
    in6_matches_teredo_client in6_are_addr_equal
inbound_forwarded = refl

process_packet-forwarded_example :
    (is_served server inbound ≡ true)
    × (ip6_plen inbound.ip6 ≤ 88)
    × ((ip6_dst inbound.ip6).prefix ≡ server.prefix)
    × (is_ipv4_global_unicast 0x50000001 ≡ true)
    × (0x50000001 ≡ in6_teredo_ipv4 (ip6_dst inbound.ip6))
    × (4000 ≡ in6_teredo_port (ip6_dst inbound.ip6))
    × (origin_of inbound ++ inbound.ip6
        ≡ (if (ip6_dst inbound.ip6).server_ip == server.server_ip then origin_of inbound else [])
          ++ take inbound.ip6_len inbound.ip6)
process_packet-forwarded_example =
    process_packet-forwarded little server inbound false inbound_forwarded
