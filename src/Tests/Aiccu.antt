-- ===== src/Tests/Aiccu.antt =====
-- AYIYA packets and lines of TIC at concrete inputs.
use mathlib.Core.List.{map, flatten}
use maiccu.Base.{
  ℕ, ◌%◌, ◌/◌, ◌≡◌, ◌≤◌, refl, arith, List, [], ◌∷◌, ◌++◌, some, u8, take, drop, replicate,
  AllBytes,
}
use maiccu.Base.Bytes.{eq_bytes}
use maiccu.Address.{to_bytes}
use maiccu.Aiccu.Ayiya.{
  Sha1, Tunnel, start, signed, frame, ayiya_reader, write_datagram, is_ayiya, our_hash, field,
  forward, echo_request_forward, ipproto_ipv6, buffer_size,
}
use maiccu.Aiccu.Clock.{check_time}
use maiccu.Aiccu.Ayiya.Authentic.{write_datagram-signed}
use maiccu.Aiccu.Ayiya.RoundTrip.{write_datagram-ayiya_reader}
use maiccu.Aiccu.Lines.{got, line, newline, chomp, sock_getline}
use maiccu.Aiccu.Lines.Stream.{sock_getline-line}
use maiccu.Tests.{bytes_sum, to_remote}

abbrev toy_20 : List ℕ → List ℕ
toy_20 bs = bytes_sum bs % 256 ∷ replicate 19 7

toy_20-AllBytes : (bs : List ℕ) → AllBytes (toy_20 bs)
toy_20-AllBytes bs = omega arith

-- A digest of twenty bytes, in place of SHA-1.
abbrev toy_sha1 : Sha1
toy_sha1 = record { digest = toy_20; digest_20 = λ bs. refl; digest_bytes = toy_20-AllBytes }

abbrev client_address : List ℕ
client_address = 0x20 ∷ 0x01 ∷ replicate 13 0 ++ (2 ∷ [])

abbrev pop_address : List ℕ
pop_address = 0x20 ∷ 0x01 ∷ replicate 13 0 ++ (1 ∷ [])

abbrev password : List ℕ
password = b's' ∷ b'e' ∷ b'c' ∷ []

abbrev client : Tunnel
client = record { ipv6_local = client_address; ipv6_pop = pop_address; hash = toy_20 password }

abbrev pop : Tunnel
pop = record { ipv6_local = pop_address; ipv6_pop = client_address; hash = toy_20 password }

started : start toy_sha1 client_address pop_address password ≡ client
unfolding start
started = refl

-- What the client sends at the time 1000 for a packet of its host.
abbrev sent : List ℕ
sent =
    frame forward ipproto_ipv6 1000 client_address
      (toy_20 (frame forward ipproto_ipv6 1000 client_address (toy_20 password) to_remote))
      to_remote

sent_lem : ayiya_reader toy_sha1 client 1000 to_remote ≡ sent
unfolding ayiya_reader signed
sent_lem = refl

sent-AllBytes : AllBytes sent
unfolding frame to_bytes
sent-AllBytes = omega arith

pop_writes : write_datagram toy_sha1 pop 1060 sent ≡ some to_remote
unfolding write_datagram is_ayiya our_hash field check_time frame to_bytes eq_bytes
pop_writes = refl

write_datagram-signed_example :
    (opcode : ℕ) × (time : ℕ) × (take buffer_size sent
      ≡ signed toy_sha1 pop opcode ipproto_ipv6 time client_address to_remote)
    × (forward ≤ opcode)
    × (opcode ≤ echo_request_forward)
    × (check_time 1060 time ≡ 0)
    × (u8 to_remote 0 / 16 ≡ 6)
write_datagram-signed_example =
    write_datagram-signed toy_sha1 pop 1060 sent refl sent-AllBytes pop_writes

write_datagram-ayiya_reader_example :
    write_datagram toy_sha1 pop 1060 (ayiya_reader toy_sha1 client 1000 to_remote) ≡ some to_remote
unfolding to_bytes
write_datagram-ayiya_reader_example =
    write_datagram-ayiya_reader toy_sha1 client pop 1060 1000 to_remote refl refl refl refl
      (omega arith) (omega arith) (omega arith) (omega arith) refl (omega arith)

-- "200 O", "K\r", "\n2".
abbrev chunks : List (List ℕ)
chunks = (b'2' ∷ b'0' ∷ b'0' ∷ b' ' ∷ b'O' ∷ []) ∷ (b'K' ∷ b'\r' ∷ []) ∷ (b'\n' ∷ b'2' ∷ []) ∷ []

newline-chunks : newline (flatten chunks) ≡ some 7
unfolding newline flatten
newline-chunks = refl

sock_getline-line_example :
    (buffer : List ℕ) × (rest : List (List ℕ)) × (sock_getline 1024 1024 [] (map got chunks)
      ≡ line (chomp (flatten chunks) 7) 8 buffer (map got rest))
    × (buffer ++ flatten rest ≡ drop 8 (flatten chunks))
unfolding flatten
sock_getline-line_example =
    sock_getline-line 1024 1024 [] chunks 7 (omega arith) (omega arith) newline-chunks (omega arith)
