-- ===== src/Message/Advert/Bounds.antt =====
-- What an accepted router advertisement gives, and that the loop over its options ends.
use maiccu.Base.{
  ℕ, zero, suc, ◌-◌, ◌*◌, ◌/◌, ◌%◌, ◌^◌, ◌≤◌, ◌<◌, Bool, true, List, some, ◌≡◌, ◌≢◌, ◌⊎◌, inl, inr,
  refl, arith, if◌then◌else◌, u8, drop, Option-cases, bit_xor_16, bit_xor_32,
}
use maiccu.Checksum.{Endian, little, big}
use maiccu.Address.{
  Address, teredo_cone, teredo_restrict, teredo_prefix_obsolete, flag_cone, is_valid_teredo_prefix,
  host_word, in6_are_addr_equal,
}
use maiccu.Packet.{Packet}
use maiccu.Message.{ip6_plen, ip6_dst}
use maiccu.Message.Advert.{
  Scan, Scanned, opt_prefix_information, scanned, refused, exhausted, scan_option, scan_options,
  ra_header_ok, ra_result, current_prefix, parse_ra,
}

-- With more fuel than bytes the loop over the options ends by itself, whatever the options are.
scan_options_total :
    (fuel : ℕ) (hdr : List ℕ) (len : ℕ) (s : Scan)
    → len < fuel
    → scan_options fuel hdr len s ≢ exhausted
unfolding scan_options
scan_options_total zero hdr len s h = absurd (omega arith)
scan_options_total (suc fuel) hdr len s h = elim (Option-cases (scan_option hdr (u8 hdr 1 * 8) s)) [
  | inl e ↦ ground arith
  | inr (t, e) ↦
      ground (arith, scan_options_total fuel (drop (u8 hdr 1 * 8) hdr) (len - u8 hdr 1 * 8) t)
]

-- The MTU that the loop keeps.
abbrev pub IsMtu : ℕ → Type 0
IsMtu m = (m ≡ 0) ⊎ ((1280 ≤ m) × (m ≤ 65535))

scan_option-IsMtu :
    (hdr : List ℕ) (optlen : ℕ) (s : Scan) {t : Scan}
    → IsMtu s.net_mtu
    → scan_option hdr optlen s ≡ some t
    → IsMtu t.net_mtu
unfolding scan_option
scan_option-IsMtu hdr optlen s m e = ground arith

scan_options-IsMtu :
    (fuel : ℕ) (hdr : List ℕ) (len : ℕ) (s : Scan) {t : Scan}
    → IsMtu s.net_mtu
    → scan_options fuel hdr len s ≡ scanned t
    → IsMtu t.net_mtu
unfolding scan_options
scan_options-IsMtu zero hdr len s m e = cc
scan_options-IsMtu (suc fuel) hdr len s {t} m e =
    elim (Option-cases (scan_option hdr (u8 hdr 1 * 8) s)) [
      | inl r ↦ ground arith
      | inr (u, r) ↦ ground (
        arith,
        scan_option-IsMtu hdr (u8 hdr 1 * 8) s {t = u} m r,
        scan_options-IsMtu fuel (drop (u8 hdr 1 * 8) hdr) (len - u8 hdr 1 * 8) u {t = t},
      )
    ]

-- The byte of a prefix that is tested against the multicast range is not that of ff00::/8: the first byte, or, on a
-- little-endian host, the last one.
abbrev pub NotMulticast : Endian → ℕ → Type 0
NotMulticast big prefix = prefix / 2 ^ 24 ≢ 0xff
NotMulticast little prefix = prefix % 256 ≢ 0xff

valid-NotMulticast :
    (e : Endian) (prefix : ℕ)
    → prefix < 2 ^ 32
    → is_valid_teredo_prefix e prefix ≡ true
    → NotMulticast e prefix
unfolding is_valid_teredo_prefix host_word
valid-NotMulticast big prefix w v = λ q. ground arith
valid-NotMulticast little prefix w v = λ q. ground arith

-- The address and the MTU that an advertisement may give.
pub record IsAdvertised (e : Endian) (p : Packet) (cone : Bool) (mtu : ℕ) (a : Address) (m : ℕ)
    : Type 0 where
  pub not_multicast : NotMulticast e a.prefix
  pub prefix_current : a.prefix ≢ teredo_prefix_obsolete
  pub only_cone : a.flags ≡ (if cone then flag_cone else 0)
  pub port : a.client_port ≡ 0xffff - p.orig_port
  pub ip : a.client_ip ≡ 0xffffffff - p.orig_ipv4
  pub mtu_range : (m ≡ mtu) ⊎ ((1280 ≤ m) × (m ≤ 65535))

ra_result-IsAdvertised :
    (e : Endian) (p : Packet) (cone : Bool) (mtu : ℕ) (s : Scan) {a : Address} {m : ℕ}
    → p.orig_port < 2 ^ 16
    → p.orig_ipv4 < 2 ^ 32
    → a.prefix < 2 ^ 32
    → IsMtu s.net_mtu
    → ra_result e p cone mtu s ≡ some (a, m)
    → IsAdvertised e p cone mtu a m
unfolding ra_result current_prefix
ra_result-IsAdvertised e p cone mtu s {a} h k w m r =
    ground
      (arith, bit_xor_16 p.orig_port h, bit_xor_32 p.orig_ipv4 k, valid-NotMulticast e a.prefix w)

Scanned-cases : (o : Scanned) → ((s : Scan) × (o ≡ scanned s)) ⊎ (o ≡ refused) ⊎ (o ≡ exhausted)
Scanned-cases (scanned s) = inl (s, refl)
Scanned-cases refused = inr (inl refl)
Scanned-cases exhausted = inr (inr refl)

abbrev scan_of : Packet → Address → Scanned
scan_of p old =
    scan_options (suc (ip6_plen p.ip6 - 16)) (drop 56 p.ip6) (ip6_plen p.ip6 - 16)
      (record { prefix = old.prefix; server_ip = 0; net_mtu = 0 })

-- An accepted advertisement passed all three parts of the function.
parse_ra_inversion :
    (e : Endian) (p : Packet) (old : Address) (cone : Bool) (mtu : ℕ) {r : Address × ℕ}
    → parse_ra e p old cone mtu ≡ some r
    → (s : Scan) × (ra_header_ok p cone ≡ true)
      × (scan_of p old ≡ scanned s)
      × (ra_result e p cone mtu s ≡ some r)
unfolding parse_ra
parse_ra_inversion e p old cone mtu h = elim (Scanned-cases (scan_of p old)) [
  | inl (s, o) ↦ (s, ground arith, o, ground arith)
  | inr (inl o) ↦ absurd (ground arith)
  | inr (inr o) ↦ absurd (ground arith)
]

header_conditions :
    (p : Packet) (cone : Bool)
    → ra_header_ok p cone ≡ true
    → (p.orig_ipv4 ≢ 0)
      × (in6_are_addr_equal (ip6_dst p.ip6) (if cone then teredo_cone else teredo_restrict) ≡ true)
unfolding ra_header_ok
header_conditions p cone h = ground arith

-- An accepted advertisement had an Origin Indication and the destination that belongs to the cone
-- bit of the solicitation. Its address has a prefix whose first byte is not 0xff, or, on a little-endian host, whose
-- last byte is not 0xff, which lets multicast prefixes pass; never the obsolete prefix, no flag
-- but the cone bit, and the mapping of the Origin Indication. The MTU is the one that the caller
-- had, or at least 1280 and at most 65535.
pub parse_ra-IsAdvertised :
    (e : Endian) (p : Packet) (old : Address) (cone : Bool) (mtu : ℕ) {a : Address} {m : ℕ}
    → p.orig_port < 2 ^ 16
    → p.orig_ipv4 < 2 ^ 32
    → a.prefix < 2 ^ 32
    → parse_ra e p old cone mtu ≡ some (a, m)
    → (p.orig_ipv4 ≢ 0)
      × (in6_are_addr_equal (ip6_dst p.ip6) (if cone then teredo_cone else teredo_restrict) ≡ true)
      × IsAdvertised e p cone mtu a m
parse_ra-IsAdvertised e p old cone mtu h k w r =
    let (s, ok, scan, end) = parse_ra_inversion e p old cone mtu r in
    let c = header_conditions p cone ok in
    let range = scan_options-IsMtu _ _ _ _ (inl refl) scan in
    (c.0, c.1, ra_result-IsAdvertised e p cone mtu s h k w range end)

-- A second prefix is refused once the first one has named a server.
scan_options_two_prefixes :
    (fuel : ℕ) (hdr : List ℕ) (len : ℕ) (s : Scan)
    → s.server_ip ≢ 0
    → u8 hdr 0 ≡ opt_prefix_information
    → 8 ≤ len
    → scan_options (suc fuel) hdr len s ≡ refused
unfolding scan_options scan_option
scan_options_two_prefixes fuel hdr len s n t l = ground arith
