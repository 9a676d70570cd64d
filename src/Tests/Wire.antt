-- ===== src/Tests/Wire.antt =====
-- Checksums, addresses and encapsulation headers at concrete inputs.
use maiccu.Base.{ℕ, ◌-◌, true, false, List, [], ◌∷◌, ◌++◌, some, ◌≡◌, refl, arith}
use mathlib.Core.List.{flatten}
use maiccu.Checksum.{little, in_cksum}
use maiccu.Checksum.Sum.{ones_sum, word_sum, in_cksum_lem}
use maiccu.Address.{read_address, to_bytes}
use maiccu.Address.Codec.{read_address-to_bytes}
use maiccu.Packet.{Packet, Datagram, recv_inner}
use maiccu.Packet.Headers.{Auth, Origin}
use maiccu.Packet.RoundTrip.{Reads, encode, recv_inner-encode}
use maiccu.Tests.{remote, remote-IsAddress}

abbrev cut : List (List ℕ)
cut = (0x12 ∷ []) ∷ (0x34 ∷ 0xff ∷ []) ∷ []

in_cksum_lem_example : in_cksum little cut ≡ 0xffff - ones_sum (word_sum little (flatten cut))
unfolding flatten
in_cksum_lem_example = in_cksum_lem little cut (omega arith)

read_address_example : read_address (to_bytes remote ++ (9 ∷ [])) 0 ≡ remote
read_address_example = read_address-to_bytes remote (9 ∷ []) remote-IsAddress

abbrev auth_header : Auth
auth_header = record {
  id = 5 ∷ [];
  value = [];
  nonce = 1 ∷ 2 ∷ 3 ∷ 4 ∷ 5 ∷ 6 ∷ 7 ∷ 8 ∷ [];
  confirmation = 0;
}

abbrev origin : Origin
origin = record { port = 4000; ip = 0x50000001 }

abbrev datagram : Datagram
datagram = record {
  bytes = encode (some auth_header) (some origin) 0x60 (0 ∷ 0 ∷ []);
  stale = 9 ∷ 9 ∷ [];
  from_ip = 0x41370001;
  from_port = 3544;
  cmsgs = [];
}

recv_inner-encode_example :
    (p : Packet) × (recv_inner [] datagram ≡ some p)
    × Reads datagram (some auth_header) (some origin) (0x60 ∷ 0 ∷ 0 ∷ []) p
recv_inner-encode_example =
    recv_inner-encode [] datagram (some auth_header) (some origin) 0x60 (0 ∷ 0 ∷ [])
      (record { nonce_8 = refl }) (record { port_16 = omega arith; ip_32 = omega arith })
      (omega arith) (omega arith) refl

abbrev received : Packet
received = record {
  ip6 = 96 ∷ 0 ∷ 0 ∷ 7 ∷ 8 ∷ 0 ∷ 0 ∷ 0 ∷ 240 ∷ 95 ∷ 175 ∷ 255 ∷ 255 ∷ 254 ∷ 96 ∷ 0 ∷ 0 ∷ 9 ∷ 9 ∷ [];
  ip6_len = 3;
  source_ipv4 = 0x41370001;
  source_port = 3544;
  orig_port = 4000;
  orig_ipv4 = 0x50000001;
  dest_ipv4 = 0;
  auth_present = true;
  auth_fail = false;
  auth_nonce = 1 ∷ 2 ∷ 3 ∷ 4 ∷ 5 ∷ 6 ∷ 7 ∷ 8 ∷ [];
}
