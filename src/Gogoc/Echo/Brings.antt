-- ===== src/Gogoc/Echo/Brings.antt =====
-- gogoc/gogoc-tsp/src/net/icmp_echo_engine.c: a read after which the engine assesses connectivity.
use maiccu.Base.{
  ℕ, ◌+◌, ◌*◌, ◌/◌, ◌%◌, ◌≤◌, ◌<◌, ◌⊎◌, List, u8, drop, length, ◌≡◌, refl, arith, get_or-drop,
}
use maiccu.Gogoc.Echo.{Engine, mode_acd, Family, af_inet, af_inet6}
use maiccu.Gogoc.Echo.Packet.{
  Host, ReadStatus, read_select_error, read_select_timeout, read_socket_closed, read_recv_error,
  packet_bad, packet_ignored, general_echo_error, pingin_late, pingin_ontime, icmp4_echo_reply,
  icmp6_echo_reply, decode_reply, decode_inet, decode_inet6, decode_icmp_packet,
}
use maiccu.Gogoc.Echo.Process.{
  Status, connectivity_assessed, Incoming, quiet, interrupted, bad_descriptor, select_failed,
  recv_failed, recv_empty, packet, Poll, do_read, react, check_threshold, heed, poll_once,
}

-- An ICMP echo reply to the engine with this identifier.
abbrev pub IsEcho : Host → ℕ → ℕ → List ℕ → Type 0
IsEcho h type id icmp = (u8 icmp 0 ≡ type) × (u8 icmp 1 ≡ 0) × (h.get_word (drop 4 icmp) ≡ id)

-- The reply of the family; an IPv4 packet holds an ICMP header behind its own one, or it is shorter than it says its
-- own header is: then the length that is tested wraps around, and zeros are read behind the packet.
abbrev pub IsReply : Host → Family → ℕ → List ℕ → Type 0
IsReply h af_inet id bs =
    (u8 bs 0 / 16 ≡ 4)
    × ((u8 bs 0 % 16 * 4 + 8 ≤ length bs) ⊎ (length bs < u8 bs 0 % 16 * 4))
    × IsEcho h icmp4_echo_reply id (drop (u8 bs 0 % 16 * 4) bs)
IsReply h af_inet6 id bs = (8 ≤ length bs) × IsEcho h icmp6_echo_reply id bs

module _ (h : Host) (e : Engine) where
  decode_reply-ontime :
      (icmp : List ℕ) (now seq : ℕ)
      → decode_reply h e icmp now ≡ pingin_ontime seq
      → (u8 icmp 1 ≡ 0) × (h.get_word (drop 4 icmp) ≡ e.icmp_echo_id)
  unfolding decode_reply
  decode_reply-ontime icmp now seq d = ground arith

  decode_inet6-ontime :
      (bs : List ℕ) (now seq : ℕ)
      → decode_inet6 h e bs now ≡ pingin_ontime seq
      → IsReply h af_inet6 e.icmp_echo_id bs
  unfolding decode_inet6
  decode_inet6-ontime bs now seq d = ground (arith, decode_reply-ontime bs now seq)

  decode_inet-ontime :
      (bs : List ℕ) (now seq : ℕ)
      → decode_inet h e bs now ≡ pingin_ontime seq
      → IsReply h af_inet e.icmp_echo_id bs
  unfolding decode_inet
  decode_inet-ontime bs now seq d = ground (
    arith,
    decode_reply-ontime (drop (u8 bs 0 % 16 * 4) bs) now seq,
    get_or-drop (u8 bs 0 % 16 * 4) 0 (u8 bs 0 % 16 * 4) bs 0,
  )

  decode-ontime :
      (bs : List ℕ) (now seq : ℕ)
      → decode_icmp_packet h e bs now ≡ pingin_ontime seq
      → IsReply h e.icmp_saf e.icmp_echo_id bs
  unfolding decode_icmp_packet
  decode-ontime bs now seq d =
      elim e.icmp_saf
          as (λ af.
            (elim af as (λ af'. ReadStatus) [
              | af_inet ↦ decode_inet h e bs now
              | af_inet6 ↦ decode_inet6 h e bs now
            ])
              ≡ pingin_ontime seq
            → IsReply h af e.icmp_echo_id bs) [
              | af_inet ↦ λ d'. decode_inet-ontime bs now seq d'
              | af_inet6 ↦ λ d'. decode_inet6-ontime bs now seq d'
            ]
        d

-- The read has brought a reply to this engine.
abbrev pub Brings : Host → Family → ℕ → Incoming → Type 0
Brings h af id (packet bs) = IsReply h af id bs
Brings h af id quiet = ⊥
Brings h af id interrupted = ⊥
Brings h af id bad_descriptor = ⊥
Brings h af id select_failed = ⊥
Brings h af id recv_failed = ⊥
Brings h af id recv_empty = ⊥

read-Brings :
    (h : Host) (e : Engine) (p : Poll) (i : Incoming) (seq : ℕ)
    → do_read h e (record p { incoming = i }) ≡ pingin_ontime seq
    → Brings h e.icmp_saf e.icmp_echo_id i
unfolding do_read
read-Brings h e p (packet bs) seq d = decode-ontime h e bs p.now_packet seq d
read-Brings h e p quiet seq d = cc
read-Brings h e p interrupted seq d = cc
read-Brings h e p bad_descriptor seq d = ground arith
read-Brings h e p select_failed seq d = cc
read-Brings h e p recv_failed seq d = ground arith
read-Brings h e p recv_empty seq d = cc

-- In the mode IEE_MODE_ACD, and on a reply in time.
react-assessed :
    (ref before delay : ℕ) (r : ReadStatus) (e : Engine)
    → (react ref before delay r e).1 ≡ connectivity_assessed
    → (e.eng_mode ≡ mode_acd) × (seq : ℕ) × (r ≡ pingin_ontime seq)
unfolding react
react-assessed ref before delay (pingin_ontime seq) e a = (ground arith, seq, refl)
react-assessed ref before delay packet_bad e a = cc
react-assessed ref before delay packet_ignored e a = cc
react-assessed ref before delay read_select_timeout e a = cc
react-assessed ref before delay (pingin_late seq) e a = cc
react-assessed ref before delay read_socket_closed e a = cc
react-assessed ref before delay read_select_error e a = cc
react-assessed ref before delay read_recv_error e a = cc
react-assessed ref before delay general_echo_error e a = cc

check_threshold-assessed :
    (r : Engine × Status)
    → (check_threshold r).1 ≡ connectivity_assessed
    → r.1 ≡ connectivity_assessed
unfolding check_threshold
check_threshold-assessed (e, s) a = ground arith

pub poll_once-assessed :
    (h : Host) (ref before : ℕ) (p : Poll) (e : Engine)
    → (poll_once h ref before p e).1 ≡ connectivity_assessed
    → (e.eng_mode ≡ mode_acd) × Brings h e.icmp_saf e.icmp_echo_id p.incoming
unfolding poll_once
poll_once-assessed h ref before p e a =
    let heeded = heed p.stopped e in
    let (mode, seq, ontime) =
      react-assessed ref before p.now_delay (do_read h heeded p) heeded
        (check_threshold-assessed (react ref before p.now_delay (do_read h heeded p) heeded) a) in
    (mode, read-Brings h heeded p p.incoming seq ontime)
