-- ===== src/Message/Authentic.antt =====
-- Bubbles and pings: what we send is accepted when it comes back, and what is accepted was sent.
use maiccu.Base.{
  ℕ, ◌^◌, ◌<◌, true, List, [], ◌∷◌, ◌++◌, ltb, ◌≡◌, refl, ap, ◌∙◌, arith, u8, take, drop, length,
  be16, be32, eq_bytes_refl, AllBytes, AllBytes-take, length-take,
}
use maiccu.Checksum.{Endian}
use maiccu.Address.{Address, in6_teredo_ipv4, in6_teredo_port, to_bytes, read_address}
use maiccu.Address.Codec.{IsAddress}
use maiccu.Packet.{Packet}
use maiccu.Security.{Md5, Keys, memory_32, get_nonce, get_pinghash}
use maiccu.Security.Ping.{age, verify-get_pinghash}
use maiccu.Message.{
  ip6_src, ip6_dst, ip6_plen, ip6_nxt, ip6_header, ipproto_icmpv6, bubble, clear_group,
  bubble_nonce, bubble_source, check_bubble,
}
use maiccu.Message.Echo.{echo_reply, ping_len, echo_message, check_echo, check_ping}

-- Eight bytes below the link-local prefix come back from the bytes of the address.
nonce_bytes :
    (ns : List ℕ)
    → length ns ≡ 8
    → AllBytes ns
    → drop 8 (to_bytes (read_address (0xfe ∷ 0x80 ∷ 0 ∷ 0 ∷ 0 ∷ 0 ∷ 0 ∷ 0 ∷ ns) 0)) ≡ ns
unfolding to_bytes read_address
nonce_bytes (a ∷ b ∷ c ∷ d ∷ e ∷ f ∷ g ∷ h ∷ []) l w = ground (arith, w)
nonce_bytes ns l w = absurd (omega arith)

clear_group-bytes :
    (ns : List ℕ) → AllBytes ns → (length (clear_group ns) ≡ length ns) × AllBytes (clear_group ns)
unfolding clear_group
clear_group-bytes [] h = (refl, tt)
clear_group-bytes (b ∷ bs) h = (refl, (omega (arith, h), h.1))

-- The addresses of a packet whose bytes start with an IPv6 header.
ip6_source :
    (plen nxt hlim : ℕ) (src dst : Address) (rest : List ℕ)
    → IsAddress src
    → ip6_src (ip6_header plen nxt hlim src dst ++ rest) ≡ src
unfolding to_bytes read_address
ip6_source plen nxt hlim src dst rest v = ground (arith, v)

ip6_destination :
    (plen nxt hlim : ℕ) (src dst : Address) (rest : List ℕ)
    → IsAddress dst
    → ip6_dst (ip6_header plen nxt hlim src dst ++ rest) ≡ dst
unfolding to_bytes read_address
ip6_destination plen nxt hlim src dst rest v = ground (arith, v)

last_eight :
    (plen nxt hlim : ℕ) (src dst : Address) (rest : List ℕ)
    → take 8 (drop 32 (ip6_header plen nxt hlim src dst ++ rest)) ≡ drop 8 (to_bytes dst)
unfolding to_bytes
last_eight plen nxt hlim src dst rest = refl

module _ (e : Endian) (md5 : Md5) (k : Keys) where
  bubble_nonce-bytes :
      (dst : Address)
      → (length (bubble_nonce e md5 k dst) ≡ 8) × AllBytes (bubble_nonce e md5 k dst)
  unfolding bubble_nonce get_nonce
  bubble_nonce-bytes dst =
      let d = md5.digest (
        k.opad
        ++ md5.digest (
            k.ipad
            ++ (be32 (in6_teredo_ipv4 dst)
                ++ (be16 (in6_teredo_port dst) ++ (be16 k.pid ++ memory_32 e 0))))) in
      let c = clear_group-bytes (take 8 d) (AllBytes-take 8 d (md5.digest_bytes _)) in
      (omega (arith, c.0, length-take 8 d, md5.digest_16 _), c.1)

  -- The answer to a bubble that went to a Teredo client, from that client's address to the
  -- source of the bubble, passes the check of bubbles.
  pub check_bubble-reply :
      (p : Packet) (dst : Address) (rest : List ℕ)
      → IsAddress dst
      → p.ip6 ≡ bubble dst (bubble_source e md5 k dst) ++ rest
      → check_bubble e md5 k p ≡ true
  unfolding check_bubble bubble bubble_source
  check_bubble-reply p dst rest v q =
      let n = bubble_nonce-bytes dst in
      let me = bubble_source e md5 k dst in
      let source : ip6_src p.ip6 ≡ dst = ap ip6_src q ∙ ip6_source 0 59 0 dst me rest v in
      let tag : take 8 (drop 32 p.ip6) ≡ bubble_nonce e md5 k dst =
        ap (λ l. take 8 (drop 32 l)) q
        ∙ last_eight 0 59 0 dst me rest
        ∙ nonce_bytes (bubble_nonce e md5 k dst) n.0 n.1 in
      rw (source, tag) (eq_bytes_refl (bubble_nonce e md5 k dst))

-- The reply to a ping: the addresses are exchanged, the rest of the message comes back.
abbrev pub reply_bytes : Address → Address → List ℕ → List ℕ → List ℕ
reply_bytes me it cksum tag =
    ip6_header ping_len ipproto_icmpv6 64 it me ++ echo_message echo_reply cksum tag

module _ (md5 : Md5) (k : Keys) where
  -- The echo reply to a ping from `me` to `it`, whatever its checksum, is accepted exactly while
  -- the ping is less than thirty seconds old.
  pub check_ping-reply :
      (p : Packet) (now stamp c d : ℕ) (me it : Address) (rest : List ℕ)
      → stamp < 2 ^ 32
      → IsAddress me
      → IsAddress it
      → p.ip6 ≡ reply_bytes me it (c ∷ d ∷ []) (get_pinghash md5 k stamp me it ++ rest)
      → check_ping md5 k now p ≡ ltb (age md5 k now stamp) 30
  unfolding check_ping check_echo to_bytes
  check_ping-reply p now stamp c d me it rest h v w q =
      let tag = get_pinghash md5 k stamp me it ++ rest in
      let body = echo_message echo_reply (c ∷ d ∷ []) tag in
      let nxt : ip6_nxt p.ip6 ≡ ipproto_icmpv6 = ap ip6_nxt q in
      let plen : ip6_plen p.ip6 ≡ ping_len = ap ip6_plen q in
      let type : u8 p.ip6 40 ≡ echo_reply = ap (λ l. u8 l 40) q in
      let code : u8 p.ip6 41 ≡ 0 = ap (λ l. u8 l 41) q in
      let answer : drop 44 p.ip6 ≡ tag = ap (drop 44) q in
      let source : ip6_src p.ip6 ≡ it =
        ap ip6_src q ∙ ip6_source ping_len ipproto_icmpv6 64 it me body w in
      let dest : ip6_dst p.ip6 ≡ me =
        ap ip6_dst q ∙ ip6_destination ping_len ipproto_icmpv6 64 it me body v in
      ground (
        arith,
        nxt,
        plen,
        type,
        code,
        answer,
        source,
        dest,
        verify-get_pinghash md5 k now stamp me it rest h,
      )
