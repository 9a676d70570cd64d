-- ===== src/Aiccu/Ayiya/RoundTrip.antt =====
-- aiccu/ayiya.c: a packet that one end sends is written by the other.
use maiccu.Base.{
  ℕ, ◌+◌, ◌/◌, ◌^◌, ◌≡◌, ◌≤◌, ◌<◌, refl, sym, ap, arith, true, not, List, ◌++◌, some, ◌==◌, u8, u32,
  drop, length, eq_bytes_of_eq, get_or-drop, length-append, take_all, take-append, drop-append,
  drop-drop, length-drop, if_past, ltb-false, ◌∙◌, ==_iff,
}
use maiccu.Aiccu.Clock.{check_time, check_time_iff, clock_off}
use maiccu.Aiccu.Ayiya.{
  Sha1, Tunnel, frame, signed, field, is_ayiya, our_hash, ayiya_reader, write_datagram, buffer_size,
  forward, ipproto_ipv6,
}
use maiccu.Aiccu.Ayiya.Authentic.{field-take, our_hash_lem}

-- The parts of a frame.
module _ (opcode next time : ℕ) (identity hash payload : List ℕ) (i : length identity ≡ 16)
    (g : length hash ≡ 20) where
  length-frame : length (frame opcode next time identity hash payload) ≡ 44 + length payload
  unfolding frame
  length-frame =
      omega (arith, length-append identity (hash ++ payload), length-append hash payload, i, g)

  frame-identity : field (frame opcode next time identity hash payload) 8 16 ≡ identity
  unfolding frame
  frame-identity =
      rw
        (field-take (frame opcode next time identity hash payload) 8 16
          (omega (arith, length-frame)))
        (take-append identity (hash ++ payload) 16 (omega (arith, i)))

  frame-hash : field (frame opcode next time identity hash payload) 24 20 ≡ hash
  unfolding frame
  frame-hash =
      rw
        (field-take (frame opcode next time identity hash payload) 24 20
          (omega (arith, length-frame)))
        (rw (drop-append identity (hash ++ payload) 16 (omega (arith, i)))
          (take-append hash payload 20 (omega (arith, g))))

  frame-payload : drop 44 (frame opcode next time identity hash payload) ≡ payload
  unfolding frame
  frame-payload = rw (sym (drop-drop 20 16 36 (identity ++ (hash ++ payload)) refl)) (
      rw (drop-append identity (hash ++ payload) 16 (omega (arith, i)))
        (drop-append hash payload 20 (omega (arith, g))))

-- The same header before another hash.
reframe :
    (opcode next time : ℕ) (identity d e payload : List ℕ)
    → field (frame opcode next time identity d payload) 0 8 ++ (identity ++ (e ++ payload))
      ≡ frame opcode next time identity e payload
unfolding frame field
reframe opcode next time identity d e payload = refl

-- The tests of the header see the values of the frame.
frame-is_ayiya :
    (time : ℕ) (identity d payload : List ℕ)
    → is_ayiya (frame forward ipproto_ipv6 time identity d payload) ≡ true
unfolding frame is_ayiya
frame-is_ayiya time identity d payload = refl

frame-forward :
    (time : ℕ) (identity d payload : List ℕ)
    → (u8 (frame forward ipproto_ipv6 time identity d payload) 3 == ipproto_ipv6) ≡ true
unfolding frame
frame-forward time identity d payload = refl

frame-time :
    (opcode next time : ℕ) (identity d payload : List ℕ)
    → time < 2 ^ 32
    → u32 (frame opcode next time identity d payload) 4 ≡ time
unfolding frame
frame-time opcode next time identity d payload h = omega arith

module _ (h : Sha1) (t : Tunnel) (opcode next time : ℕ) (payload : List ℕ)
    (i : length t.ipv6_pop ≡ 16) (g : length t.hash ≡ 20) where
  -- Our hash does not depend on the hash that the packet carries.
  our_hash-frame :
      (d : List ℕ)
      → length d ≡ 20
      → our_hash h t (frame opcode next time t.ipv6_pop d payload)
        ≡ h.digest (frame opcode next time t.ipv6_pop t.hash payload)
  our_hash-frame d l =
      let bs = frame opcode next time t.ipv6_pop d payload in
      our_hash_lem h t bs g (omega (arith, length-frame opcode next time t.ipv6_pop d payload i l))
      ∙ rw
          (
            frame-identity opcode next time t.ipv6_pop d payload i l,
            frame-payload opcode next time t.ipv6_pop d payload i l,
          )
          (ap h.digest (reframe opcode next time t.ipv6_pop d t.hash payload))

  signed-hash :
      field (signed h t opcode next time t.ipv6_pop payload) 24 20
      ≡ our_hash h t (signed h t opcode next time t.ipv6_pop payload)
  unfolding signed
  signed-hash =
      let d = h.digest (frame opcode next time t.ipv6_pop t.hash payload) in
      let l = h.digest_20 (frame opcode next time t.ipv6_pop t.hash payload) in
      frame-hash opcode next time t.ipv6_pop d payload i l ∙ sym (our_hash-frame d l)

-- A datagram that passes all tests.
write_datagram-accepts :
    (h : Sha1) (t : Tunnel) (now : ℕ) (bs : List ℕ)
    → 44 ≤ length bs
    → length bs ≤ buffer_size
    → is_ayiya bs ≡ true
    → field bs 8 16 ≡ t.ipv6_pop
    → check_time now (u32 bs 4) ≡ 0
    → field bs 24 20 ≡ our_hash h t bs
    → (u8 bs 3 == ipproto_ipv6) ≡ true
    → u8 bs 44 / 16 ≡ 6
    → write_datagram h t now bs ≡ some (drop 44 bs)
unfolding write_datagram
write_datagram-accepts h t now bs l m a i c g p v = rw (take_all buffer_size bs m) (
    if_past _ _ (ltb-false (length bs) 8 (omega arith)) (
      if_past _ _ (ap not a) (
        if_past _ _ (ap not (eq_bytes_of_eq _ _ i)) (
          if_past _ _ (ap not ((==_iff _ _).1 c)) (
            if_past _ _ (ap not (eq_bytes_of_eq _ _ g)) (
              if_past _ _ (ap not p) (
                if_past _ _ (ap not ((==_iff _ _).1 v))
                  (ap some (take_all _ (drop 44 bs) (omega (arith, length-drop 44 bs)))))))))))

-- A packet that one end takes from its tunnel device is written, unchanged, to the tunnel device of the other
-- end, if both have the same secret, the other end knows this one's address, their clocks are not
-- more than two minutes apart, and the packet begins like an IPv6 packet and fits into the buffer.
pub write_datagram-ayiya_reader :
    (h : Sha1) (t u : Tunnel) (now then_ : ℕ) (packet : List ℕ)
    → t.hash ≡ u.hash
    → t.ipv6_local ≡ u.ipv6_pop
    → length u.hash ≡ 20
    → length u.ipv6_pop ≡ 16
    → now < 2 ^ 31
    → then_ < 2 ^ 31
    → now ≤ then_ + clock_off
    → then_ ≤ now + clock_off
    → u8 packet 0 / 16 ≡ 6
    → length packet ≤ 2004
    → write_datagram h u now (ayiya_reader h t then_ packet) ≡ some packet
unfolding ayiya_reader signed write_datagram
write_datagram-ayiya_reader h t u now then_ packet s a l i n m p q v f =
    let d = h.digest (frame forward ipproto_ipv6 then_ u.ipv6_pop u.hash packet) in
    let e = h.digest_20 (frame forward ipproto_ipv6 then_ u.ipv6_pop u.hash packet) in
    let n44 = length-frame forward ipproto_ipv6 then_ u.ipv6_pop d packet i e in
    let pay = frame-payload forward ipproto_ipv6 then_ u.ipv6_pop d packet i e in
    rw (s, a)
      (write_datagram-accepts h u now (frame forward ipproto_ipv6 then_ u.ipv6_pop d packet)
          (omega arith) (omega arith) (frame-is_ayiya then_ u.ipv6_pop d packet)
          (frame-identity forward ipproto_ipv6 then_ u.ipv6_pop d packet i e)
          (rw (frame-time forward ipproto_ipv6 then_ u.ipv6_pop d packet (omega arith))
            ((check_time_iff now then_ n m).1 (p, q)))
          (signed-hash h u forward ipproto_ipv6 then_ packet i l)
          (frame-forward then_ u.ipv6_pop d packet)
          (rw
            (sym
              (get_or-drop 44 0 44 (frame forward ipproto_ipv6 then_ u.ipv6_pop d packet) 0 refl))
            (rw pay v))
        ∙ ap some pay)
