-- ===== src/Gogoc/Echo/Packet.antt =====
-- gogoc/gogoc-tsp/src/net/icmp_echo_engine.c: the packets of the ICMP echo engine, and net_cksm.c: their checksum.
use maiccu.Base.{
  ℕ, ◌+◌, ◌-◌, ◌*◌, ◌/◌, ◌%◌, ◌^◌, not, List, [], ◌∷◌, ◌++◌, ◌==◌, ltb, if◌then◌else◌, u8, drop,
  length, be32,
}
use maiccu.Gogoc.Echo.{Timeval, micro, Engine, Family, af_inet, af_inet6}

-- How the host lays out a word of 16 bits and a time.
pub record Host : Type 0 where
  pub put_word : ℕ → List ℕ
  pub get_word : List ℕ → ℕ
  pub put_time : Timeval → List ℕ
  pub get_time : List ℕ → Timeval

-- What `_do_read` returns; the sequence of a reply stands with it.
pub data ReadStatus : Type 0 where
  read_select_error read_select_timeout read_socket_closed read_recv_error : ReadStatus
  packet_bad packet_ignored general_echo_error : ReadStatus
  pingin_late pingin_ontime : ℕ → ReadStatus

abbrev pub icmp4_echo_request : ℕ
icmp4_echo_request = 8

abbrev pub icmp4_echo_reply : ℕ
icmp4_echo_reply = 0

abbrev pub icmp6_echo_request : ℕ
icmp6_echo_request = 128

abbrev pub icmp6_echo_reply : ℕ
icmp6_echo_reply = 129

abbrev pub icmp_echo_code : ℕ
icmp_echo_code = 0

-- The size of the header, ICMP_ECHO_HEADER.
abbrev pub header_size : ℕ
header_size = 8

-- The sum of the host's words; a last byte is a word with a zero behind it.
unfoldable pub sum_words : Host → List ℕ → ℕ
sum_words h [] = 0
sum_words h (a ∷ []) = h.get_word (a ∷ 0 ∷ [])
sum_words h (a ∷ b ∷ bs) = h.get_word (a ∷ b ∷ []) + sum_words h bs

-- The sum folded into 16 bits and its complement.
unfoldable pub fold_sum : ℕ → ℕ
fold_sum sum =
    let once = sum / 2 ^ 16 + sum % 2 ^ 16 in
    let twice = once + once / 2 ^ 16 in 2 ^ 16 - 1 - twice % 2 ^ 16

-- `in_cksum`
unfoldable pub in_cksum : Host → List ℕ → ℕ
unfolding sum_words fold_sum
in_cksum h bs = fold_sum (sum_words h bs)

-- An ICMP packet of the engine with this type, checksum, sequence and time.
unfoldable pub echo_packet : Host → Engine → ℕ → ℕ → ℕ → Timeval → List ℕ
echo_packet h e type cksum seq sent =
    type
    ∷ icmp_echo_code
    ∷ (h.put_word cksum ++ (h.put_word e.icmp_echo_id ++ (h.put_word seq ++ h.put_time sent)))

-- The pseudo header, IP6_PSEUDO_HEADER, in front of a packet.
unfoldable pub pseudo : Engine → List ℕ → List ℕ
pseudo e packet =
    e.echo_addr_src ++ (e.echo_addr_dst ++ (be32 (length packet) ++ (0 ∷ 0 ∷ 0 ∷ 58 ∷ packet)))

-- `_calc_icmp_csum`, for a packet whose checksum is 0.
unfoldable pub calc_icmp_csum : Host → Engine → List ℕ → ℕ
unfolding in_cksum pseudo
calc_icmp_csum h e packet = elim e.icmp_saf [
  | af_inet6 ↦ in_cksum h (pseudo e packet)
  | af_inet ↦ in_cksum h packet
]

abbrev pub request_type : Family → ℕ
request_type af_inet = icmp4_echo_request
request_type af_inet6 = icmp6_echo_request

-- The request that `_do_send` makes.
unfoldable pub request : Host → Engine → ℕ → Timeval → List ℕ
unfolding echo_packet calc_icmp_csum
request h e seq now =
    let type = request_type e.icmp_saf in
    echo_packet h e type (calc_icmp_csum h e (echo_packet h e type 0 seq now)) seq now

-- The part of `_decode_icmp_packet` behind the test of the type, at the ICMP header.
unfoldable pub decode_reply : Host → Engine → List ℕ → ℕ → ReadStatus
decode_reply h e icmp now =
    let seq = h.get_word (drop 6 icmp) in
    if not (u8 icmp 1 == icmp_echo_code)
    then general_echo_error
    else if not (h.get_word (drop 4 icmp) == e.icmp_echo_id)
    then packet_ignored
    else if ltb (micro (h.get_time (drop 8 icmp)) + e.echo_timeout * 1000) now
    then pingin_late seq
    else pingin_ontime seq

-- `_decode_icmp_packet` with an IPv4 header; the lengths are of type `size_t`, with 64 bits.
unfoldable pub decode_inet : Host → Engine → List ℕ → ℕ → ReadStatus
decode_inet h e packet now =
    let ip_len = u8 packet 0 % 16 * 4 in
    if not (u8 packet 0 / 16 == 4)
    then packet_bad
    else if ltb ((length packet + 2 ^ 64 - ip_len) % 2 ^ 64) header_size
    then packet_bad
    else if not (u8 packet ip_len == icmp4_echo_reply)
    then packet_ignored
    else decode_reply h e (drop ip_len packet) now

-- The same for IPv6.
unfoldable pub decode_inet6 : Host → Engine → List ℕ → ℕ → ReadStatus
decode_inet6 h e packet now =
    if ltb (length packet) header_size
    then packet_bad
    else if not (u8 packet 0 == icmp6_echo_reply)
    then packet_ignored
    else decode_reply h e packet now

unfoldable pub decode_icmp_packet : Host → Engine → List ℕ → ℕ → ReadStatus
unfolding decode_inet decode_inet6
decode_icmp_packet h e packet now = elim e.icmp_saf [
  | af_inet ↦ decode_inet h e packet now
  | af_inet6 ↦ decode_inet6 h e packet now
]
