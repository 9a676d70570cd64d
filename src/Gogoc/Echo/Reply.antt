-- ===== src/Gogoc/Echo/Reply.antt =====
-- gogoc/gogoc-tsp/src/net/icmp_echo_engine.c: the reply to a request is read back.
use maiccu.Base.{
  ℕ, ◌+◌, ◌-◌, ◌*◌, ◌/◌, ◌%◌, ◌^◌, ◌<◌, true, false, List, [], ◌++◌, ◌==◌, ltb, if◌then◌else◌, u8,
  drop, length, ◌≡◌, refl, ap, sym, ◌∙◌, arith, length-append, drop-append, drop-drop,
  get_or-append_left, get_or-append_right, ltb-false, ltb-false,
}
use maiccu.Gogoc.Echo.{Timeval, micro, Engine, Family, af_inet, af_inet6}
use maiccu.Gogoc.Echo.Packet.{
  Host, ReadStatus, pingin_late, pingin_ontime, icmp4_echo_reply, icmp6_echo_reply, echo_packet,
  decode_reply, decode_inet, decode_inet6, decode_icmp_packet,
}

-- A time of two words of 32 bits.
abbrev pub FitsTime : Timeval → Type 0
FitsTime t = (t.tv_sec < 2 ^ 32) × (t.tv_usec < 2 ^ 32)

-- A host reads back the words and the times that it has written; a word has two bytes, and a time makes no
-- packet longer than the buffer of 2048 bytes.
pub record IsHost (h : Host) : Type 0 where
  pub word_size : (x : ℕ) → length (h.put_word x) ≡ 2
  pub word : (x : ℕ) (bs : List ℕ) → x < 2 ^ 16 → h.get_word (h.put_word x ++ bs) ≡ x
  pub time_size : (t : Timeval) → length (h.put_time t) < 1024
  pub time : (t : Timeval) → FitsTime t → h.get_time (h.put_time t) ≡ t

abbrev pub reply_type : Family → ℕ
reply_type af_inet = icmp4_echo_reply
reply_type af_inet6 = icmp6_echo_reply

-- What stands in front of the ICMP packet: an IPv4 header of this many words, or nothing.
abbrev pub IsHeader : Family → ℕ → List ℕ → Type 0
IsHeader af_inet words header =
    (words < 16) × (length header ≡ words * 4) × (u8 header 0 ≡ 64 + words) × (0 < words)
IsHeader af_inet6 words header = header ≡ []

module _ (h : Host) (is : IsHost h) (e : Engine) where
  open is use {word_size, word, time_size, time}

  behind_one : (x : ℕ) (bs : List ℕ) → drop 2 (h.put_word x ++ bs) ≡ bs
  behind_one x bs = drop-append (h.put_word x) bs 2 (sym (word_size x))

  behind_two : (x y : ℕ) (bs : List ℕ) → drop 4 (h.put_word x ++ (h.put_word y ++ bs)) ≡ bs
  behind_two x y bs =
      sym (drop-drop 2 2 4 (h.put_word x ++ (h.put_word y ++ bs)) refl)
      ∙ ap (drop 2) (behind_one x (h.put_word y ++ bs))
      ∙ behind_one y bs

  behind_three :
      (x y z : ℕ) (bs : List ℕ)
      → drop 6 (h.put_word x ++ (h.put_word y ++ (h.put_word z ++ bs))) ≡ bs
  behind_three x y z bs =
      sym (drop-drop 4 2 6 (h.put_word x ++ (h.put_word y ++ (h.put_word z ++ bs))) refl)
      ∙ ap (drop 4) (behind_one x (h.put_word y ++ (h.put_word z ++ bs)))
      ∙ behind_two y z bs

  decode_reply-packet :
      (type cksum seq : ℕ) (sent : Timeval) (now : ℕ)
      → seq < 2 ^ 16
      → e.icmp_echo_id < 2 ^ 16
      → FitsTime sent
      → decode_reply h e (echo_packet h e type cksum seq sent) now ≡ (
          if ltb (micro sent + e.echo_timeout * 1000) now
          then pingin_late seq
          else pingin_ontime seq)
  unfolding decode_reply echo_packet
  decode_reply-packet type cksum seq sent now s i fits =
      let id = e.icmp_echo_id in
      let tail = h.put_word seq ++ h.put_time sent in
      let at_id : h.get_word (drop 2 (h.put_word cksum ++ (h.put_word id ++ tail))) ≡ id =
        ap h.get_word (behind_one cksum (h.put_word id ++ tail)) ∙ word id tail i in
      let at_seq : h.get_word (drop 4 (h.put_word cksum ++ (h.put_word id ++ tail))) ≡ seq =
        ap h.get_word (behind_two cksum id tail) ∙ word seq (h.put_time sent) s in
      let at_time : h.get_time (drop 6 (h.put_word cksum ++ (h.put_word id ++ tail))) ≡ sent =
        ap h.get_time (behind_three cksum id seq (h.put_time sent)) ∙ time sent fits in
      rw (at_id, at_seq, at_time) (ground arith)

  first_byte :
      (type cksum seq : ℕ) (sent : Timeval) → u8 (echo_packet h e type cksum seq sent) 0 ≡ type
  unfolding echo_packet
  first_byte type cksum seq sent = refl

  length-echo_packet :
      (type cksum seq : ℕ) (sent : Timeval)
      → length (echo_packet h e type cksum seq sent) ≡ 8 + length (h.put_time sent)
  unfolding echo_packet
  length-echo_packet type cksum seq sent = omega (
    arith,
    length-append {0} {A = ℕ} (h.put_word cksum) _,
    length-append {0} {A = ℕ} (h.put_word e.icmp_echo_id) _,
    length-append {0} {A = ℕ} (h.put_word seq) (h.put_time sent),
    word_size cksum,
    word_size e.icmp_echo_id,
    word_size seq,
  )

  decode_inet6-packet :
      (cksum seq : ℕ) (sent : Timeval) (now : ℕ)
      → seq < 2 ^ 16
      → e.icmp_echo_id < 2 ^ 16
      → FitsTime sent
      → decode_inet6 h e (echo_packet h e icmp6_echo_reply cksum seq sent) now ≡ (
          if ltb (micro sent + e.echo_timeout * 1000) now
          then pingin_late seq
          else pingin_ontime seq)
  unfolding decode_inet6
  decode_inet6-packet cksum seq sent now s i fits =
      let p = echo_packet h e icmp6_echo_reply cksum seq sent in
      rw
        (ltb-false (length p) 8 (omega (arith, length-echo_packet icmp6_echo_reply cksum seq sent)))
        (rw (first_byte icmp6_echo_reply cksum seq sent)
          (decode_reply-packet icmp6_echo_reply cksum seq sent now s i fits))

  decode_inet-packet :
      (words : ℕ) (header : List ℕ) (cksum seq : ℕ) (sent : Timeval) (now : ℕ)
      → IsHeader af_inet words header
      → seq < 2 ^ 16
      → e.icmp_echo_id < 2 ^ 16
      → FitsTime sent
      → decode_inet h e (header ++ echo_packet h e icmp4_echo_reply cksum seq sent) now ≡ (
          if ltb (micro sent + e.echo_timeout * 1000) now
          then pingin_late seq
          else pingin_ontime seq)
  unfolding decode_inet
  decode_inet-packet words header cksum seq sent now (few, size, first, some_words) s i fits =
      let p = echo_packet h e icmp4_echo_reply cksum seq sent in
      let start : u8 (header ++ p) 0 ≡ 64 + words =
        get_or-append_left header p 0 0 (omega arith) ∙ first in
      let from : drop (words * 4) (header ++ p) ≡ p = drop-append header p (words * 4) (sym size) in
      let at : u8 (header ++ p) (words * 4) ≡ 0 =
        get_or-append_right header p (words * 4) 0 (sym size)
        ∙ first_byte icmp4_echo_reply cksum seq sent in
      let version : ((64 + words) / 16 == 4) ≡ true = ground arith in
      let len : (64 + words) % 16 * 4 ≡ words * 4 = omega arith in
      let long : ltb ((length (header ++ p) + 2 ^ 64 - words * 4) % 2 ^ 64) 8 ≡ false =
        ltb-false ((length (header ++ p) + 2 ^ 64 - words * 4) % 2 ^ 64) 8 (
          omega (
            arith,
            length-append {0} {A = ℕ} header p,
            length-echo_packet icmp4_echo_reply cksum seq sent,
            time_size sent,
          )) in
      rw (start, version, len, long, at, from)
        (decode_reply-packet icmp4_echo_reply cksum seq sent now s i fits)

  -- The answer of a host, which sends a request of the engine back with the type of a reply and any checksum, is read as
  -- a reply to that request: in time, or late if it takes longer than the timeout of the engine. In front of it
  -- is an IPv4 header, or nothing for IPv6.
  pub decode_icmp_packet-reply :
      (words : ℕ) (header : List ℕ) (cksum seq : ℕ) (sent : Timeval) (now : ℕ)
      → IsHeader e.icmp_saf words header
      → seq < 2 ^ 16
      → e.icmp_echo_id < 2 ^ 16
      → FitsTime sent
      → decode_icmp_packet h e
          (header ++ echo_packet h e (reply_type e.icmp_saf) cksum seq sent)
          now
        ≡ (if ltb (micro sent + e.echo_timeout * 1000) now
            then pingin_late seq
            else pingin_ontime seq)
  unfolding decode_icmp_packet
  decode_icmp_packet-reply words header cksum seq sent now head s i fits =
      elim e.icmp_saf
          as (λ af.
            IsHeader af words header
            → (elim af as (λ af'. ReadStatus) [
              | af_inet ↦
                  decode_inet h e (header ++ echo_packet h e (reply_type af) cksum seq sent) now
              | af_inet6 ↦
                  decode_inet6 h e (header ++ echo_packet h e (reply_type af) cksum seq sent) now
            ])
              ≡ (if ltb (micro sent + e.echo_timeout * 1000) now
                  then pingin_late seq
                  else pingin_ontime seq)) [
                    | af_inet ↦
                        λ head'. decode_inet-packet words header cksum seq sent now head' s i fits
                    | af_inet6 ↦ λ head'. rw head' (decode_inet6-packet cksum seq sent now s i fits)
                  ]
        head
