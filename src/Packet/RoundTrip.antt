-- ===== src/Packet/RoundTrip.antt =====
-- Encapsulation headers are read back: for every datagram that is made of an optional
-- Authentication header, an optional Origin Indication and an IPv6 packet.
use maiccu.Base.{
  ℕ, zero, suc, ◌-◌, ◌≤◌, ◌<◌, true, false, not, List, ◌∷◌, ◌++◌, Option, none, some, ◌≡◌, refl, ap,
  ◌∙◌, arith, ◌==◌, take, drop, length, take-append, bit_xor_16, bit_xor_32,
}
use maiccu.Packet.{Packet, Datagram, Cursor, parse_auth, parse_orig, recv_inner, dest_of}
use maiccu.Packet.Headers.{
  Auth, encode_auth, Origin, encode_orig, IsAuth, IsOrigin, parse_auth-encode,
}

-- What is read after the optional Authentication header.
abbrev orig_port_of : Option Origin → ℕ
orig_port_of none = 0
orig_port_of (some o) = o.port

abbrev orig_ip_of : Option Origin → ℕ
orig_ip_of none = 0
orig_ip_of (some o) = o.ip

abbrev with_orig : Option Origin → List ℕ → List ℕ
with_orig none ip6 = ip6
with_orig (some o) ip6 = encode_orig o ip6

abbrev AllOrigin : Option Origin → Type 0
AllOrigin none = Unit {0}
AllOrigin (some o) = IsOrigin o

abbrev packet_of : Datagram → Option Origin → Cursor → List ℕ → ℕ → Packet
packet_of d o c ip6 len = record {
  ip6 = ip6;
  ip6_len = len;
  source_ipv4 = d.from_ip;
  source_port = d.from_port;
  orig_port = orig_port_of o;
  orig_ipv4 = orig_ip_of o;
  dest_ipv4 = dest_of 0 d.cmsgs;
  auth_present = c.present;
  auth_fail = c.fail;
  auth_nonce = c.nonce;
}

parse_orig-encode :
    (d : Datagram) (c : Cursor) (o : Option Origin) (v : ℕ) (ip6 tail : List ℕ)
    → AllOrigin o
    → c.fill ≡ with_orig o (suc v ∷ ip6) ++ tail
    → c.len ≡ length (with_orig o (suc v ∷ ip6))
    → parse_orig d c ≡ some (packet_of d o c (suc v ∷ (ip6 ++ tail)) (suc (length ip6)))
unfolding parse_orig
parse_orig-encode d c none v ip6 tail h e l = rw (e, l) (ground arith)
parse_orig-encode d c (some o) v ip6 tail h e l =
    rw (e, l)
      (ground
        (arith, bit_xor_16 (0xffff - o.port), bit_xor_32 (0xffffffff - o.ip), h.port_16, h.ip_32))

abbrev with_auth : Option Auth → List ℕ → List ℕ
with_auth none rest = rest
with_auth (some a) rest = encode_auth a rest

abbrev AllAuth : Option Auth → Type 0
AllAuth none = Unit {0}
AllAuth (some a) = IsAuth a

abbrev AuthSeen : Option Auth → Packet → Type 0
AuthSeen none p = p.auth_present ≡ false
AuthSeen (some a) p =
    (p.auth_present ≡ true) × (p.auth_nonce ≡ a.nonce) × (p.auth_fail ≡ not (a.confirmation == 0))

-- The packet reports the headers and the addresses, and holds the IPv6 packet.
pub record Reads (d : Datagram) (auth : Option Auth) (orig : Option Origin) (ip6 : List ℕ)
    (p : Packet) : Type 0 where
  pub packet : take p.ip6_len p.ip6 ≡ ip6
  pub length_6 : p.ip6_len ≡ length ip6
  pub authentication : AuthSeen auth p
  pub port : p.orig_port ≡ orig_port_of orig
  pub ip : p.orig_ipv4 ≡ orig_ip_of orig
  pub source : (p.source_ipv4 ≡ d.from_ip) × (p.source_port ≡ d.from_port)

-- The datagram made of these headers and an IPv6 packet that starts with the byte `x`.
abbrev pub encode : Option Auth → Option Origin → ℕ → List ℕ → List ℕ
encode auth orig x ip6 = with_auth auth (with_orig orig (x ∷ ip6))

unseen :
    (orig : Option Origin) (v : ℕ) (ip6 stale : List ℕ) (d : Datagram) (old : List ℕ)
    → d.bytes ≡ with_orig orig (suc v ∷ ip6)
    → parse_auth (d.bytes ++ d.stale) (length d.bytes) old
      ≡ some (record {
        fill = d.bytes ++ d.stale;
        ptr = 0;
        len = length d.bytes;
        present = false;
        fail = false;
        nonce = old;
      })
unfolding parse_auth
unseen none v ip6 stale d old e = rw e (ground arith)
unseen (some o) v ip6 stale d old e = rw e

length-with_orig :
    (o : Option Origin) (x : ℕ) (ip6 : List ℕ) → 0 < length ip6 → 2 ≤ length (with_orig o (x ∷ ip6))
length-with_orig none x ip6 h = omega arith
length-with_orig (some o) x ip6 h = omega arith

recv_inner-step :
    (old : List ℕ) (d : Datagram) (c : Cursor)
    → parse_auth (d.bytes ++ d.stale) (length d.bytes) old ≡ some c
    → 2 ≤ length d.bytes
    → recv_inner old d ≡ parse_orig d c
unfolding recv_inner
recv_inner-step old d c e h = rw e (ground arith)

-- A datagram with an optional Authentication header (a nonce of eight bytes), an optional Origin
-- Indication (in word range) and an IPv6 packet of at least two bytes, the first not zero, is
-- accepted, and what the packet structure reports is what the headers say, whatever the buffer held.
pub recv_inner-encode :
    (old : List ℕ) (d : Datagram) (auth : Option Auth) (orig : Option Origin) (x : ℕ) (ip6 : List ℕ)
    → AllAuth auth
    → AllOrigin orig
    → 0 < x
    → 0 < length ip6
    → d.bytes ≡ encode auth orig x ip6
    → (p : Packet) × (recv_inner old d ≡ some p) × Reads d auth orig (x ∷ ip6) p
recv_inner-encode old d auth orig zero ip6 va vo hx hl e = absurd (omega arith)
recv_inner-encode old d none orig (suc v) ip6 va vo hx hl e =
    let c : Cursor = record {
      fill = d.bytes ++ d.stale;
      ptr = 0;
      len = length d.bytes;
      present = false;
      fail = false;
      nonce = old;
    } in
    (
      packet_of d orig c (suc v ∷ (ip6 ++ d.stale)) (suc (length ip6)),
      recv_inner-step old d c (unseen orig v ip6 d.stale d old e)
            (rw e (length-with_orig orig (suc v) ip6 hl))
          ∙ parse_orig-encode d c orig v ip6 d.stale vo (rw e) (rw e),
      record {
        packet = ap (◌∷◌ (suc v)) (take-append ip6 d.stale (length ip6) refl);
        length_6 = refl;
        authentication = refl;
        port = refl;
        ip = refl;
        source = (refl, refl);
      },
    )
recv_inner-encode old d (some a) orig (suc v) ip6 va vo hx hl e =
    let rest = with_orig orig (suc v ∷ ip6) in
    let tail = drop (length rest) (encode_auth a (rest ++ d.stale)) in
    let c : Cursor = record {
      fill = rest ++ tail;
      ptr = 0;
      len = length rest;
      present = true;
      fail = not (a.confirmation == 0);
      nonce = a.nonce;
    } in
    (
      packet_of d orig c (suc v ∷ (ip6 ++ tail)) (suc (length ip6)),
      recv_inner-step old d c (rw e (parse_auth-encode a rest d.stale old va)) (rw e (omega arith))
          ∙ parse_orig-encode d c orig v ip6 tail vo refl refl,
      record {
        packet = ap (◌∷◌ (suc v)) (take-append ip6 tail (length ip6) refl);
        length_6 = refl;
        authentication = (refl, refl, refl);
        port = refl;
        ip = refl;
        source = (refl, refl);
      },
    )
