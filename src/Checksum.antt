-- ===== src/Checksum.antt =====
-- miredo/libteredo/teredo.c and checksum.h: the Internet checksum over a scatter-gather array.
-- The C code sums 16-bit words in the byte order of the host, so the host's byte order is an
-- argument; the checksum is a host word, and `memory` says how it lies in the packet.
pub mod Sum
pub mod Order
use Prim.Native.Nat.{bit_xor}
use maiccu.Base.{
  ℕ, ◌+◌, ◌-◌, ◌*◌, ◌/◌, ◌%◌, ◌^◌, Bool, true, false, not, List, [], ◌∷◌, ◌++◌, ltb, be32, length,
  if◌then◌else◌,
}

pub data Endian : Type 0 where
  little big : Endian

-- The number in `w.word` once `w.bytes` is `{ b0, b1 }`.
abbrev pub word : Endian → ℕ → ℕ → ℕ
word little b0 b1 = b1 * 256 + b0
word big b0 b1 = b0 * 256 + b1

-- The two bytes of a 16-bit word in memory.
abbrev pub memory : Endian → ℕ → List ℕ
memory little x = x % 256 ∷ x / 256 ∷ []
memory big x = x / 256 ∷ x % 256 ∷ []

-- `struct iovec` with its bytes.
abbrev pub Iovec : Type 0
Iovec = List ℕ

-- The variables of the loop: `sum`, `w.bytes[0]` and `odd`.
pub record Acc : Type 0 where
  pub sum : ℕ
  pub first : ℕ
  pub odd : Bool

-- `sum += word; if (sum > 0xffff) sum -= 0xffff;` in a `uint32_t`.
unfoldable pub add_word : ℕ → ℕ → ℕ
add_word sum w = let s = (sum + w) % 2 ^ 32 in if ltb 0xffff s then s - 0xffff else s

-- One byte of the inner loop.
unfoldable pub add_byte : Endian → Acc → ℕ → Acc
add_byte e a b =
    if a.odd
    then record { sum = add_word a.sum (word e a.first b); first = a.first; odd = false }
    else record { sum = a.sum; first = b; odd = true }

-- The inner loop, over the bytes of one buffer.
unfoldable pub add_bytes : Endian → Acc → List ℕ → Acc
add_bytes e a [] = a
add_bytes e a (b ∷ bs) = add_bytes e (add_byte e a b) bs

-- The outer loop, over the buffers.
unfoldable pub add_iovecs : Endian → Acc → List Iovec → Acc
add_iovecs e a [] = a
add_iovecs e a (v ∷ vs) = add_iovecs e (add_bytes e a v) vs

-- A last odd byte is padded with zero.
unfoldable pub pad : Endian → Acc → ℕ
unfolding add_word
pad e a = if a.odd then add_word a.sum (word e a.first 0) else a.sum

abbrev pub start : Acc
start = record { sum = 0; first = 0; odd = false }

unfoldable pub in_cksum : Endian → List Iovec → ℕ
unfolding add_byte add_bytes add_iovecs pad
in_cksum e iov = bit_xor (pad e (add_iovecs e start iov)) 0xffff

-- The total length of the buffers, a `size_t`.
unfoldable pub iov_length : List Iovec → ℕ
iov_length [] = 0
iov_length (v ∷ vs) = (length v + iov_length vs) % 2 ^ 64

-- The checksum with the IPv6 pseudo-header: both addresses, `htonl (plen)`, `htonl (protocol)`.
unfoldable pub teredo_cksum : Endian → List ℕ → List ℕ → ℕ → List Iovec → ℕ
unfolding in_cksum iov_length
teredo_cksum e src dst protocol iov =
    in_cksum e (src ∷ dst ∷ (be32 (iov_length iov % 2 ^ 32) ++ be32 protocol) ∷ iov)
