-- ===== src/Packet.antt =====
-- miredo/libteredo/teredo.c and teredo-udp.h: reception of a Teredo datagram.
-- `recvmsg` is the kernel's: what it delivers is the argument. The C buffer is a list of bytes, of
-- which the datagram is the front and the rest is left from earlier datagrams. `ptr` is an offset.
pub mod Payload
pub mod Headers
pub mod RoundTrip
use Prim.Native.Nat.{bit_xor}
use maiccu.Base.{
  ℕ, ◌+◌, ◌-◌, Bool, true, false, not, ◌&&◌, List, [], ◌∷◌, ◌++◌, Option, none, some, ltb, ◌==◌,
  if◌then◌else◌, take, drop, length, u8, u16, u32,
}

-- `struct teredo_packet`. `ip6` is the buffer from the pointer of that name on.
pub record Packet : Type 0 where
  pub ip6 : List ℕ
  pub ip6_len : ℕ
  pub source_ipv4 : ℕ
  pub source_port : ℕ
  pub orig_port : ℕ
  pub orig_ipv4 : ℕ
  pub dest_ipv4 : ℕ
  pub auth_present : Bool
  pub auth_fail : Bool
  pub auth_nonce : List ℕ

-- A control message: whether it is the packet information of level IP, and its address.
pub record Cmsg : Type 0 where
  pub is_pktinfo : Bool
  pub addr : ℕ

-- What `recvmsg` delivers, and the buffer behind the datagram.
pub record Datagram : Type 0 where
  pub bytes : List ℕ
  pub stale : List ℕ
  pub from_ip : ℕ
  pub from_port : ℕ
  pub cmsgs : List Cmsg

abbrev pub orig_ind : ℕ
orig_ind = 0

abbrev pub auth_hdr : ℕ
auth_hdr = 1

-- The loop over the control messages.
unfoldable pub dest_of : ℕ → List Cmsg → ℕ
dest_of dest [] = dest
dest_of dest (c ∷ cs) = dest_of (if c.is_pktinfo then c.addr else dest) cs

-- What the parser has: the buffer, the offset `ptr`, the bytes left, and the fields set so far.
pub record Cursor : Type 0 where
  pub fill : List ℕ
  pub ptr : ℕ
  pub len : ℕ
  pub present : Bool
  pub fail : Bool
  pub nonce : List ℕ

-- `memmove (p->buf.align, ptr, length)`
abbrev pub move_down : List ℕ → ℕ → ℕ → List ℕ
move_down fill ptr len = take len (drop ptr fill) ++ drop len fill

-- The Authentication header, at the start of the buffer. `none` is `return -1`.
unfoldable pub parse_auth : List ℕ → ℕ → List ℕ → Option Cursor
parse_auth fill len old_nonce =
    if u8 fill 0 == 0 && u8 fill 1 == auth_hdr
    then if ltb len 13
      then none
      else if ltb (len - 13) (u8 fill 2 + u8 fill 3)
      then none
      else some after
    else some (record {
      fill = fill;
      ptr = 0;
      len = len;
      present = false;
      fail = false;
      nonce = old_nonce;
    })
  where
    skip : ℕ
    skip = 4 + u8 fill 2 + u8 fill 3

    rest : ℕ
    rest = len - 13 - (u8 fill 2 + u8 fill 3)

    after : Cursor
    after = record {
      fill = move_down fill (skip + 9) rest;
      ptr = 0;
      len = rest;
      present = true;
      fail = not (u8 fill (skip + 8) == 0);
      nonce = take 8 (drop skip fill);
    }

-- The Origin Indication and the end of the function.
unfoldable pub parse_orig : Datagram → Cursor → Option Packet
unfolding dest_of
parse_orig d c =
    if u8 c.fill 0 == 0 && u8 c.fill 1 == orig_ind
    then if ltb c.len 8
      then none
      else some
          (packet (bit_xor (u16 c.fill 2) 0xffff) (bit_xor (u32 c.fill 4) 0xffffffff) 8 (c.len - 8))
    else some (packet 0 0 0 c.len)
  where
    packet : ℕ → ℕ → ℕ → ℕ → Packet
    packet port ip ptr len = record {
      ip6 = drop ptr c.fill;
      ip6_len = len;
      source_ipv4 = d.from_ip;
      source_port = d.from_port;
      orig_port = port;
      orig_ipv4 = ip;
      dest_ipv4 = dest_of 0 d.cmsgs;
      auth_present = c.present;
      auth_fail = c.fail;
      auth_nonce = c.nonce;
    }

-- `teredo_recv_inner`; the first argument is what the nonce field held before.
unfoldable pub recv_inner : List ℕ → Datagram → Option Packet
unfolding parse_auth parse_orig
recv_inner old_nonce d =
    if ltb (length d.bytes) 2
    then none
    else (elim (parse_auth (d.bytes ++ d.stale) (length d.bytes) old_nonce) [
      | none ↦ none
      | some c ↦ parse_orig d c
    ])
