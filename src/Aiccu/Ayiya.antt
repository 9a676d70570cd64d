-- ===== src/Aiccu/Ayiya.antt =====
-- aiccu/ayiya.c: packets of an AYIYA tunnel. A packet is a header of eight bytes, the identity of the
-- sender (its IPv6 address), a SHA-1 of the whole with the hash of the password in its place, and the payload.
-- SHA-1 (hash_sha1.c is a copy of another project's) is a parameter.
pub mod Authentic
pub mod RoundTrip
use maiccu.Base.{
  ℕ, zero, suc, ◌+◌, ◌-◌, ◌/◌, ◌%◌, ◌^◌, ◌≡◌, Bool, true, false, not, ◌&&◌, ◌||◌, List, [], ◌∷◌,
  ◌++◌, Option, none, some, ◌==◌, ltb, if◌then◌else◌, be32, u8, u32, take, drop, length, eq_bytes,
  AllBytes,
}
use maiccu.Aiccu.Clock.{check_time}

-- SHA-1: a digest is twenty bytes.
pub record Sha1 : Type 0 where
  pub digest : List ℕ → List ℕ
  pub digest_20 : (bs : List ℕ) → length (digest bs) ≡ 20
  pub digest_bytes : (bs : List ℕ) → AllBytes (digest bs)

-- The static variables: `ayiya_ipv6_local`, `ayiya_ipv6_pop` and `ayiya_hash`.
pub record Tunnel : Type 0 where
  pub ipv6_local : List ℕ
  pub ipv6_pop : List ℕ
  pub hash : List ℕ

abbrev pub ipproto_ipv6 : ℕ
ipproto_ipv6 = 41

abbrev pub ipproto_none : ℕ
ipproto_none = 59

abbrev pub buffer_size : ℕ
buffer_size = 2048

-- `enum ayiya_opcode`, as far as it is used.
abbrev pub noop : ℕ
noop = 0

abbrev pub forward : ℕ
forward = 1

abbrev pub echo_request : ℕ
echo_request = 2

abbrev pub echo_request_forward : ℕ
echo_request_forward = 3

-- `struct pseudo_ayh` as it lies in memory, with the values that this client uses: an identity of
-- 2^4 bytes that is an integer, a signature of 5 words by SHA-1, a shared secret.
unfoldable pub frame : ℕ → ℕ → ℕ → List ℕ → List ℕ → List ℕ → List ℕ
frame opcode next_header time identity hash payload =
    0x41 ∷ 0x52 ∷ (0x10 + opcode) ∷ next_header ∷ (be32 time ++ (identity ++ (hash ++ payload)))

-- The hash of a packet is that of the packet with the hash of the password in its place.
unfoldable pub signed : Sha1 → Tunnel → ℕ → ℕ → ℕ → List ℕ → List ℕ → List ℕ
signed h t opcode next_header time identity payload =
    frame opcode next_header time identity
      (h.digest (frame opcode next_header time identity t.hash payload)) payload

-- `ayiya_reader`: what goes to the network for a packet of the tunnel device.
unfoldable pub ayiya_reader : Sha1 → Tunnel → ℕ → List ℕ → List ℕ
ayiya_reader h t now packet = signed h t forward ipproto_ipv6 now t.ipv6_local packet

-- `ayiya_beat`
unfoldable pub ayiya_beat : Sha1 → Tunnel → ℕ → List ℕ
ayiya_beat h t now = signed h t noop ipproto_none now t.ipv6_local []

-- A field of the buffer, which was cleared before a datagram was received into it.
unfoldable pub field : List ℕ → ℕ → ℕ → List ℕ
field bs at zero = []
field bs at (suc n) = u8 bs at ∷ field bs (suc at) n

-- The tests of the header.
unfoldable pub is_ayiya : List ℕ → Bool
is_ayiya bs =
    u8 bs 0 / 16 == 4
    && u8 bs 0 % 16 == 1
    && u8 bs 1 / 16 == 5
    && u8 bs 1 % 16 == 2
    && u8 bs 2 / 16 == 1
    && (u8 bs 3 == ipproto_ipv6 || u8 bs 3 == ipproto_none)
    && (u8 bs 2 % 16 == forward
        || u8 bs 2 % 16 == echo_request
        || u8 bs 2 % 16 == echo_request_forward)

-- Our hash of a datagram.
unfoldable pub our_hash : Sha1 → Tunnel → List ℕ → List ℕ
our_hash h t bs = h.digest (take (length bs) (field bs 0 24 ++ (t.hash ++ drop 44 bs)))

-- One round of `ayiya_writer`: what it writes to the tunnel device for a datagram of the
-- network. The length of the payload is an `unsigned int`.
unfoldable pub write_datagram : Sha1 → Tunnel → ℕ → List ℕ → Option (List ℕ)
write_datagram h t now datagram =
    let bs = take buffer_size datagram in
    if ltb (length bs) 8
    then none
    else if not (is_ayiya bs)
    then none
    else if not (eq_bytes (field bs 8 16) t.ipv6_pop)
    then none
    else if not (check_time now (u32 bs 4) == 0)
    then none
    else if not (eq_bytes (field bs 24 20) (our_hash h t bs))
    then none
    else if not (u8 bs 3 == ipproto_ipv6)
    then none
    else if not (u8 bs 44 / 16 == 6)
    then none
    else some (take ((length bs + 2 ^ 32 - 44) % 2 ^ 32) (drop 44 bs))

-- `ayiya_writer`: its rounds, each with the time and what `recvfrom` gives, nothing on an error.
unfoldable pub ayiya_writer : Sha1 → Tunnel → List (ℕ × Option (List ℕ)) → List (List ℕ)
ayiya_writer h t [] = []
ayiya_writer h t ((now, none) ∷ rounds) = ayiya_writer h t rounds
ayiya_writer h t ((now, some bs) ∷ rounds) =
    let rest = ayiya_writer h t rounds in
    elim (write_datagram h t now bs) [ none ↦ rest | some packet ↦ packet ∷ rest ]

-- The end of `ayiya`: the secret is the hash of the password.
unfoldable pub start : Sha1 → List ℕ → List ℕ → List ℕ → Tunnel
start h local pop password = record { ipv6_local = local; ipv6_pop = pop; hash = h.digest password }
