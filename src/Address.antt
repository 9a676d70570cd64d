-- ===== src/Address.antt =====
-- miredo/libteredo/teredo.h, teredo.c (its constants) and v4global.c: Teredo IPv6 addresses and
-- the test of IPv4 addresses. Words are kept as the numbers that `ntohl` and `ntohs` read, so
-- `htonl (0x0a000000)` is 0x0a000000; the host's byte order matters to one macro only.
pub mod Global
pub mod Codec
use Prim.Native.Nat.{bit_xor}
use maiccu.Base.{
  ℕ, ◌+◌, ◌*◌, ◌/◌, ◌%◌, ◌^◌, Bool, true, false, not, ◌&&◌, ◌||◌, List, ◌++◌, ◌==◌, if◌then◌else◌,
  be16, be32, u16, u32,
}
use maiccu.Checksum.{Endian, little, big}

-- `union teredo_addr`, seen through its `teredo` member.
pub record Address : Type 0 where
  pub prefix : ℕ
  pub server_ip : ℕ
  pub flags : ℕ
  pub client_port : ℕ
  pub client_ip : ℕ

abbrev pub ipport_teredo : ℕ
ipport_teredo = 3544

abbrev pub discovery_ipv4 : ℕ
discovery_ipv4 = 0xe00000fd

abbrev pub teredo_prefix : ℕ
teredo_prefix = 0x20010000

abbrev pub teredo_prefix_obsolete : ℕ
teredo_prefix_obsolete = 0x3ffe831f

abbrev pub flag_cone : ℕ
flag_cone = 0x8000

-- fe80::ffff:ffff:ffff
abbrev pub teredo_restrict : Address
teredo_restrict = record {
  prefix = 0xfe800000;
  server_ip = 0;
  flags = 0;
  client_port = 0xffff;
  client_ip = 0xffffffff;
}

-- fe80::8000:5445:5245:444f
abbrev pub teredo_cone : Address
teredo_cone = record {
  prefix = 0xfe800000;
  server_ip = 0;
  flags = 0x8000;
  client_port = 0x5445;
  client_ip = 0x5245444f;
}

-- ff02::1 and ff02::2
abbrev pub all_nodes : Address
all_nodes = record { prefix = 0xff020000; server_ip = 0; flags = 0; client_port = 0; client_ip = 1 }

abbrev pub all_routers : Address
all_routers = record {
  prefix = 0xff020000;
  server_ip = 0;
  flags = 0;
  client_port = 0;
  client_ip = 2;
}

-- `s6_addr[0]` and `s6_addr[1]`
abbrev pub first_byte : Address → ℕ
first_byte a = a.prefix / 2 ^ 24 % 256

abbrev pub second_byte : Address → ℕ
second_byte a = a.prefix / 2 ^ 16 % 256

unfoldable pub in6_teredo_ipv4 : Address → ℕ
in6_teredo_ipv4 a = bit_xor a.client_ip 0xffffffff

unfoldable pub in6_teredo_port : Address → ℕ
in6_teredo_port a = bit_xor a.client_port 0xffff

unfoldable pub in6_matches_teredo_client : Address → ℕ → ℕ → Bool
unfolding in6_teredo_ipv4 in6_teredo_port
in6_matches_teredo_client a ip port =
    not (not (bit_xor ip (in6_teredo_ipv4 a) == 0) || not (bit_xor port (in6_teredo_port a) == 0))

-- The `uint32_t` that a host has in memory for a word in network order.
unfoldable pub host_word : Endian → ℕ → ℕ
host_word little x = x % 256 * 2 ^ 24 + x / 256 % 256 * 2 ^ 16 + x / 2 ^ 16 % 256 * 256 + x / 2 ^ 24
host_word big x = x

-- `(prefix & 0xff000000) != 0xff000000`, with no `ntohl` round `prefix`.
unfoldable pub is_valid_teredo_prefix : Endian → ℕ → Bool
unfolding host_word
is_valid_teredo_prefix e prefix = not (host_word e prefix / 2 ^ 24 * 2 ^ 24 == 0xff000000)

-- `IN6_ARE_ADDR_EQUAL`
unfoldable pub in6_are_addr_equal : Address → Address → Bool
in6_are_addr_equal a b =
    a.prefix == b.prefix
    && a.server_ip == b.server_ip
    && a.flags == b.flags
    && a.client_port == b.client_port
    && a.client_ip == b.client_ip

-- `ip & mask` for the mask of the bits from `k` up, and a single bit.
abbrev high_bits : ℕ → ℕ → ℕ
high_bits ip k = ip / 2 ^ k * 2 ^ k

abbrev is_clear : ℕ → ℕ → Bool
is_clear ip k = ip / 2 ^ k % 2 == 0

unfoldable pub is_ipv4_global_unicast : ℕ → Bool
is_ipv4_global_unicast ip =
    if is_clear ip 31
    then not (high_bits ip 24 == 0x0a000000)
      && not (high_bits ip 24 == 0x7f000000)
      && not (high_bits ip 24 == 0)
    else if is_clear ip 30
    then not (high_bits ip 16 == 0xa9fe0000) && not (high_bits ip 20 == 0xac100000)
    else if is_clear ip 29
    then not (high_bits ip 16 == 0xc0a80000) && not (high_bits ip 8 == 0xc0586200)
    else if is_clear ip 28
    then false
    else not (ip == 0xffffffff)

-- The sixteen bytes of an address in a packet, and their reading at an offset.
unfoldable pub to_bytes : Address → List ℕ
to_bytes a =
    be32 a.prefix
    ++ (be32 a.server_ip ++ (be16 a.flags ++ (be16 a.client_port ++ be32 a.client_ip)))

unfoldable pub read_address : List ℕ → ℕ → Address
read_address bs i = record {
  prefix = u32 bs i;
  server_ip = u32 bs (i + 4);
  flags = u16 bs (i + 8);
  client_port = u16 bs (i + 10);
  client_ip = u32 bs (i + 12);
}
