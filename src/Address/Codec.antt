-- ===== src/Address/Codec.antt =====
-- Addresses and their sixteen bytes, the test of equality, the mapping of a Teredo client that an
-- address embeds, and the test of a prefix.
use maiccu.Base.{
  ℕ, ◌-◌, ◌/◌, ◌%◌, ◌^◌, ◌<◌, true, not, List, ◌++◌, ◌==◌, ◌≡◌, ◌↔◌, arith, AllBytes, bit_xor_16,
  bit_xor_32, bit_xor-zero,
}
use maiccu.Checksum.{little, big}
use maiccu.Address.{
  Address, in6_teredo_ipv4, in6_teredo_port, in6_matches_teredo_client, is_valid_teredo_prefix,
  in6_are_addr_equal, to_bytes, read_address,
}

-- Every field is a word of its width.
pub record IsAddress (a : Address) : Type 0 where
  pub prefix_32 : a.prefix < 2 ^ 32
  pub server_32 : a.server_ip < 2 ^ 32
  pub flags_16 : a.flags < 2 ^ 16
  pub port_16 : a.client_port < 2 ^ 16
  pub client_32 : a.client_ip < 2 ^ 32

-- The address that is read from the bytes of an address is that address.
pub read_address-to_bytes :
    (a : Address) (rest : List ℕ) → IsAddress a → read_address (to_bytes a ++ rest) 0 ≡ a
unfolding read_address to_bytes
read_address-to_bytes a rest v = ground arith

to_bytes-AllBytes : (a : Address) → AllBytes (to_bytes a)
unfolding to_bytes
to_bytes-AllBytes a = omega arith

pub in6_are_addr_equal_iff : (a b : Address) → (in6_are_addr_equal a b ≡ true) ↔ (a ≡ b)
unfolding in6_are_addr_equal
in6_are_addr_equal_iff a b = ground arith

in6_teredo_ipv4_lem : (a : Address) → IsAddress a → in6_teredo_ipv4 a ≡ 0xffffffff - a.client_ip
unfolding in6_teredo_ipv4
in6_teredo_ipv4_lem a v = bit_xor_32 a.client_ip v.client_32

in6_teredo_port_lem : (a : Address) → IsAddress a → in6_teredo_port a ≡ 0xffff - a.client_port
unfolding in6_teredo_port
in6_teredo_port_lem a v = bit_xor_16 a.client_port v.port_16

-- What the bit test of a prefix looks at: its first byte on a big-endian host, and its last byte
-- on a little-endian one.
is_valid_teredo_prefix_lem :
    (p : ℕ)
    → p < 2 ^ 32
    → (is_valid_teredo_prefix big p ≡ not (p / 2 ^ 24 == 0xff))
      × (is_valid_teredo_prefix little p ≡ not (p % 256 == 0xff))
unfolding is_valid_teredo_prefix
is_valid_teredo_prefix_lem p h = ground arith

-- A packet's source matches a Teredo address exactly when it is the mapping that the address embeds.
in6_matches_teredo_client_iff :
    (a : Address) (ip port : ℕ)
    → IsAddress a
    → ip < 2 ^ 32
    → port < 2 ^ 16
    → (in6_matches_teredo_client a ip port ≡ true)
      ↔ ((a.client_ip ≡ 0xffffffff - ip) × (a.client_port ≡ 0xffff - port))
unfolding in6_matches_teredo_client
in6_matches_teredo_client_iff a ip port v h k = ground (
  arith,
  bit_xor-zero ip (in6_teredo_ipv4 a),
  bit_xor-zero port (in6_teredo_port a),
  in6_teredo_ipv4_lem a v,
  in6_teredo_port_lem a v,
  v.client_32,
  v.port_16,
)
