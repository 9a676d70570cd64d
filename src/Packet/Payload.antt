-- ===== src/Packet/Payload.antt =====
-- What a received packet holds: bytes of its own datagram only.
use maiccu.Base.{
  ℕ, ◌+◌, ◌-◌, ◌≤◌, List, ◌++◌, some, ◌≡◌, refl, ap, arith, take, drop, length, u8, take-append,
  length-drop, length-take, length-append, drop-drop, take-drop, Option-cases, inl, inr,
}
use maiccu.Packet.{Packet, Datagram, Cursor, move_down, parse_auth, parse_orig, recv_inner}

-- The cursor's bytes that are left are the last ones of the datagram.
abbrev IsSuffix : List ℕ → Cursor → Type 0
IsSuffix bytes c = (take c.len c.fill ≡ drop (length bytes - c.len) bytes) × (c.len ≤ length bytes)

-- Moving the last `len` bytes of the datagram to the front of the buffer.
take-move_down :
    (bytes stale : List ℕ) (ptr len : ℕ)
    → ptr + len ≡ length bytes
    → take len (move_down (bytes ++ stale) ptr len) ≡ drop (length bytes - len) bytes
take-move_down bytes stale ptr len h =
    let fill = bytes ++ stale in
    let whole : take (length bytes) fill ≡ bytes = take-append bytes stale (length bytes) refl in
    let at : length bytes - len ≡ ptr = omega arith in
    rw
      (take-append (take len (drop ptr fill)) (drop len fill) len (
        omega (
          arith,
          length-take len (drop ptr fill),
          length-drop ptr fill,
          length-append bytes stale,
        )))
      (rw (at, take-drop len ptr (length bytes) fill (omega arith), whole))

parse_auth-IsSuffix :
    (bytes stale nonce : List ℕ) {c : Cursor}
    → parse_auth (bytes ++ stale) (length bytes) nonce ≡ some c
    → IsSuffix bytes c
unfolding parse_auth
parse_auth-IsSuffix bytes stale nonce {c} h =
    let fill = bytes ++ stale in
    let rest = length bytes - 13 - (u8 fill 2 + u8 fill 3) in
    let skip = 4 + u8 fill 2 + u8 fill 3 + 9 in
    let drop_none : drop (length bytes - length bytes) bytes ≡ bytes =
      ap (λ (k : ℕ). drop k bytes) {x = length bytes - length bytes} {y = 0} (omega arith) in
    ground (
      arith,
      take-append bytes stale (length bytes),
      drop_none,
      take-move_down bytes stale skip rest,
    )

parse_orig-suffix :
    (d : Datagram) (c : Cursor) {p : Packet}
    → IsSuffix d.bytes c
    → parse_orig d c ≡ some p
    → (take p.ip6_len p.ip6 ≡ drop (length d.bytes - p.ip6_len) d.bytes)
      × (p.ip6_len ≤ length d.bytes)
unfolding parse_orig
parse_orig-suffix d c s h = ground (
  arith,
  s.0,
  s.1,
  take-drop (c.len - 8) 8 c.len c.fill,
  drop-drop 8 (length d.bytes - c.len) (length d.bytes - (c.len - 8)) d.bytes,
)

-- A packet that was accepted holds the last `ip6_len` bytes of its datagram: header bytes are never
-- taken for payload, and bytes of an earlier datagram never come through.
recv_inner_payload :
    (old_nonce : List ℕ) (d : Datagram) {p : Packet}
    → recv_inner old_nonce d ≡ some p
    → (take p.ip6_len p.ip6 ≡ drop (length d.bytes - p.ip6_len) d.bytes)
      × (p.ip6_len ≤ length d.bytes)
unfolding recv_inner
recv_inner_payload old_nonce d {p} h =
    elim (Option-cases (parse_auth (d.bytes ++ d.stale) (length d.bytes) old_nonce)) [
      | inl e ↦ ground arith
      | inr (c, e) ↦ ground (
        arith,
        parse_auth-IsSuffix d.bytes d.stale old_nonce {c = c},
        parse_orig-suffix d c {p = p},
      )
    ]
