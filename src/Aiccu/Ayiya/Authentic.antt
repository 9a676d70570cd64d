-- ===== src/Aiccu/Ayiya/Authentic.antt =====
-- aiccu/ayiya.c: what is written to the tunnel device came from the PoP.
use maiccu.Base.{
  ℕ, zero, suc, ◌+◌, ◌/◌, ◌%◌, ◌≡◌, ◌≤◌, ◌<◌, ◌≢◌, refl, sym, ap, arith, true, not, List, [], ◌∷◌,
  ◌++◌, some, ◌==◌, ltb, be32, u8, u32, take, drop, length, eq_bytes, eq_bytes→eq, AllBytes, u8-lt,
  get_or-drop, ==_iff, past, passed, none-ne-some, AllBytes-take, subst, ◌∙◌, length-take,
  length-drop, length-append, take_all, drop-step,
}
use maiccu.Aiccu.Clock.{check_time}
use maiccu.Aiccu.Ayiya.{
  Sha1, Tunnel, frame, echo_request_forward, forward, signed, field, is_ayiya, our_hash,
  write_datagram, buffer_size, ipproto_ipv6,
}

-- A field that lies within the datagram.
field-append-drop :
    (bs : List ℕ) (at n k : ℕ)
    → k ≡ at + n
    → k ≤ length bs
    → field bs at n ++ drop k bs ≡ drop at bs
unfolding field
field-append-drop bs at zero k e h = ap (λ (i : ℕ). drop i bs) {x = k} {y = at} (omega arith)
field-append-drop bs at (suc n) k e h =
    rw (field-append-drop bs (suc at) n k (omega arith) h) (sym (drop-step bs at 0 (omega arith)))

pub field-take : (bs : List ℕ) (at n : ℕ) → at + n ≤ length bs → field bs at n ≡ take n (drop at bs)
unfolding field
field-take bs at zero h = refl
field-take bs at (suc n) h =
    rw (field-take bs (suc at) n (omega arith)) (rw (drop-step bs at 0 (omega arith)) refl)

length-field : (bs : List ℕ) (at n : ℕ) → length (field bs at n) ≡ n
unfolding field
length-field bs at zero = refl
length-field bs at (suc n) = ap suc (length-field bs (suc at) n)

-- A datagram of at least 44 bytes is its fields.
cut :
    (bs : List ℕ)
    → 44 ≤ length bs
    → bs ≡ field bs 0 8 ++ (field bs 8 16 ++ (field bs 24 20 ++ drop 44 bs))
cut bs h = rw (
  field-append-drop bs 24 20 44 refl (omega arith),
  field-append-drop bs 8 16 24 refl (omega arith),
  field-append-drop bs 0 8 8 refl (omega arith),
)

lt_of_u8 : (bs : List ℕ) (i : ℕ) → u8 bs i ≢ 0 → i < length bs
lt_of_u8 [] i h = absurd (h refl)
lt_of_u8 (b ∷ bs) zero h = omega arith
lt_of_u8 (b ∷ bs) (suc i) h = omega (arith, lt_of_u8 bs i h)

-- What our hash is taken of.
pub our_hash_lem :
    (h : Sha1) (t : Tunnel) (bs : List ℕ)
    → length t.hash ≡ 20
    → 44 ≤ length bs
    → our_hash h t bs ≡ h.digest (field bs 0 8 ++ (field bs 8 16 ++ (t.hash ++ drop 44 bs)))
unfolding our_hash field
our_hash_lem h t bs e l = ap h.digest (
    take_all (length bs) (field bs 0 24 ++ (t.hash ++ drop 44 bs))
      (omega (arith, length-append (t.hash) (drop 44 bs), length-drop 44 bs)))

-- The tests of the header leave the opcode and the time open.
header :
    (bs : List ℕ)
    → AllBytes bs
    → is_ayiya bs ≡ true
    → (u8 bs 3 == ipproto_ipv6) ≡ true
    → field bs 0 8 ≡ 0x41 ∷ 0x52 ∷ (0x10 + u8 bs 2 % 16) ∷ ipproto_ipv6 ∷ be32 (u32 bs 4)
unfolding field is_ayiya
header bs b h p = ground (arith, u8-lt bs 4 b, u8-lt bs 5 b, u8-lt bs 6 b, u8-lt bs 7 b)

is_ayiya-opcode :
    (bs : List ℕ)
    → is_ayiya bs ≡ true
    → (forward ≤ u8 bs 2 % 16) × (u8 bs 2 % 16 ≤ echo_request_forward)
unfolding is_ayiya
is_ayiya-opcode bs h = ground arith

-- A datagram whose tests are passed is signed.
is_signed :
    (h : Sha1) (t : Tunnel) (bs : List ℕ)
    → length t.hash ≡ 20
    → AllBytes bs
    → 44 ≤ length bs
    → is_ayiya bs ≡ true
    → (u8 bs 3 == ipproto_ipv6) ≡ true
    → field bs 8 16 ≡ t.ipv6_pop
    → field bs 24 20 ≡ our_hash h t bs
    → bs ≡ signed h t (u8 bs 2 % 16) ipproto_ipv6 (u32 bs 4) t.ipv6_pop (drop 44 bs)
unfolding signed frame
is_signed h t bs l b n a p i g = cut bs n ∙ rw (g, our_hash_lem h t bs l n, i, header bs b a p) refl

-- The whole payload is written.
written :
    (xs : List ℕ) (n : ℕ) {packet : List ℕ}
    → length xs ≤ n
    → some (take n xs) ≡ some packet
    → xs ≡ packet
written xs n l h = cc (take_all n xs l)

-- A packet that is written to the tunnel device is the payload of a datagram that the PoP signed with
-- the shared secret, with one of the opcodes forward, echo request, and echo request and forward, not more than two
-- minutes away by the check of the clock, and begins like an IPv6 packet.
pub write_datagram-signed :
    (h : Sha1) (t : Tunnel) (now : ℕ) (datagram : List ℕ) {packet : List ℕ}
    → length t.hash ≡ 20
    → AllBytes datagram
    → write_datagram h t now datagram ≡ some packet
    → (opcode : ℕ) × (time : ℕ) × (take buffer_size datagram
        ≡ signed h t opcode ipproto_ipv6 time t.ipv6_pop packet)
      × (forward ≤ opcode)
      × (opcode ≤ echo_request_forward)
      × (check_time now time ≡ 0)
      × (u8 packet 0 / 16 ≡ 6)
unfolding write_datagram
write_datagram-signed h t now datagram {packet} l b w =
    let bs = take buffer_size datagram in
    let s0 = past (ltb (length bs) 8) w none-ne-some in
    let s1 = past (not (is_ayiya bs)) s0.1 none-ne-some in
    let s2 = past (not (eq_bytes (field bs 8 16) t.ipv6_pop)) s1.1 none-ne-some in
    let s3 = past (not (check_time now (u32 bs 4) == 0)) s2.1 none-ne-some in
    let s4 = past (not (eq_bytes (field bs 24 20) (our_hash h t bs))) s3.1 none-ne-some in
    let s5 = past (not (u8 bs 3 == ipproto_ipv6)) s4.1 none-ne-some in
    let s6 = past (not (u8 bs 44 / 16 == 6)) s5.1 none-ne-some in
    let a = passed _ s1.0 in
    let six : u8 bs 44 / 16 ≡ 6 = (==_iff _ _).0 (passed _ s6.0) in
    let n = lt_of_u8 bs 44 (λ z. omega (arith, z, six)) in
    let pay : drop 44 bs ≡ packet =
      written (drop 44 bs) _ (omega (arith, length-drop 44 bs, length-take buffer_size datagram))
        s6.1 in
    let ops = is_ayiya-opcode bs a in
    (
      u8 bs 2 % 16,
      u32 bs 4,
      subst (λ q. bs ≡ signed h t (u8 bs 2 % 16) ipproto_ipv6 (u32 bs 4) t.ipv6_pop q) pay
          (is_signed h t bs l (AllBytes-take buffer_size datagram b) (omega arith) a (passed _ s5.0)
            (eq_bytes→eq _ _ (passed _ s2.0)) (eq_bytes→eq _ _ (passed _ s4.0))),
      ops.0,
      ops.1,
      (==_iff _ _).0 (passed _ s3.0),
      subst (λ q. u8 q 0 / 16 ≡ 6) pay (rw (get_or-drop 44 0 44 bs 0 refl) six),
    )
