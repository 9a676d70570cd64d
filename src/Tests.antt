-- ===== src/Tests.antt =====
-- Concrete inputs: hosts, addresses, packets and a digest.
pub mod Wire
pub mod Peers
pub mod Secure
pub mod Relay
pub mod Upkeep
pub mod Locals
pub mod Servers
pub mod Aiccu
pub mod Tic
pub mod Gogoc
pub mod Session
pub mod Frame
pub mod Loop
pub mod Echo
pub mod Xml
use mathlib.Core.List.{flatten}
use maiccu.Base.{
  ℕ, ◌+◌, ◌%◌, ◌-◌, Bool, true, false, List, [], ◌∷◌, ◌++◌, replicate, AllBytes, arith, ◌≡◌, refl,
  length,
}
use maiccu.Address.{Address, teredo_prefix}
use maiccu.Address.Codec.{IsAddress}
use maiccu.Peer.{Peer}
use maiccu.PeerList.{Memory}
use maiccu.Security.{Md5, Keys}
use maiccu.Message.{ip6_header}

abbrev pub bytes_sum : List ℕ → ℕ
bytes_sum [] = 0
bytes_sum (b ∷ bs) = b + bytes_sum bs

abbrev pub toy_digest : List ℕ → List ℕ
toy_digest bs = bytes_sum bs % 256 ∷ replicate 15 7

pub toy_digest-AllBytes : (bs : List ℕ) → AllBytes (toy_digest bs)
toy_digest-AllBytes bs = omega arith

-- A digest of sixteen bytes, in place of MD5.
abbrev pub toy_md5 : Md5
toy_md5 = record { digest = toy_digest; digest_16 = λ bs. refl; digest_bytes = toy_digest-AllBytes }

abbrev pub keys_42 : Keys
keys_42 = record { ipad = 1 ∷ []; opad = 2 ∷ []; pid = 42 }

-- A Teredo client behind 80.0.0.1:4000, whose server is 65.55.0.1.
abbrev pub remote : Address
remote = record {
  prefix = teredo_prefix;
  server_ip = 0x41370001;
  flags = 0;
  client_port = 0xffff - 4000;
  client_ip = 0xffffffff - 0x50000001;
}

pub remote-IsAddress : IsAddress remote
remote-IsAddress = record {
  prefix_32 = omega arith;
  server_32 = omega arith;
  flags_16 = omega arith;
  port_16 = omega arith;
  client_32 = omega arith;
}

-- A native address behind a relay.
abbrev pub native : Address
native = record { prefix = 0x2a000000; server_ip = 0; flags = 0; client_port = 0; client_ip = 1 }

pub native-IsAddress : IsAddress native
native-IsAddress = record {
  prefix_32 = omega arith;
  server_32 = omega arith;
  flags_16 = omega arith;
  port_16 = omega arith;
  client_32 = omega arith;
}

-- Four bytes of payload.
abbrev pub payload : List ℕ
payload = 1 ∷ 2 ∷ 3 ∷ 4 ∷ []

abbrev pub to_remote : List ℕ
to_remote = ip6_header 4 59 64 native remote ++ payload

abbrev pub from_remote : List ℕ
from_remote = ip6_header 4 59 64 remote native ++ payload

abbrev pub blank : Peer
blank = record {
  queue = [];
  queue_left = 1280;
  last_rx = 0;
  last_tx = 0;
  last_ping = 0;
  mapped_addr = 0;
  mapped_port = 0;
  trusted = false;
  local = false;
  bubbles = 0;
  pings = 0;
}

abbrev pub plenty : Memory
plenty = record { node = true; item = true; junk = blank }
