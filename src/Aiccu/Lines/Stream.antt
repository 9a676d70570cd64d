-- ===== src/Aiccu/Lines/Stream.antt =====
-- aiccu/common.c: a line does not depend on how the stream is cut into what `recv` gives.
use mathlib.Core.List.{flatten, map}
use mathlib.Core.Option
use maiccu.Base.{
  ℕ, suc, ◌+◌, ◌-◌, ◌≡◌, ◌≤◌, ◌<◌, refl, sym, ap, ◌∙◌, subst, true, false, List, [], ◌∷◌, ◌++◌,
  Option, none, some, ◌==◌, ltb, if◌then◌else◌, u8, drop, length, arith, append-nil, append_assoc,
  Option-cases, ◌⊎◌, none-ne-some, Bool-cases, inl, inr, length-append, length-take,
  get_or-append_left, if_past, ltb-false, take-append_left, drop-append_left,
}
use maiccu.Aiccu.Lines.{Recv, got, line, newline, chomp, copy, is_full, sock_getline}

-- The two ways to find a newline behind a byte.
newline-cons :
    (b : ℕ) (bs : List ℕ) (i : ℕ)
    → newline (b ∷ bs) ≡ some i
    → ((b == b'\n') ≡ true × i ≡ 0)
      ⊎ ((b == b'\n') ≡ false × ((j : ℕ) × (i ≡ suc j) × (newline bs ≡ some j)))
unfolding newline
newline-cons b bs i h = elim (Bool-cases (b == b'\n')) [
  | inl e ↦ inl (e, ground (arith, rw e at h))
  | inr e ↦ inr (e, mapped (newline bs) i (rw e at h))
]
  where
    mapped :
        (o : Option ℕ) (k : ℕ) → Option.map suc o ≡ some k → (j : ℕ) × (k ≡ suc j) × (o ≡ some j)
    mapped none k g = absurd (none-ne-some g)
    mapped (some j) k g = (j, cc, refl)

newline-lt : (bs : List ℕ) (i : ℕ) → newline bs ≡ some i → i < length bs
unfolding newline
newline-lt [] i h = absurd (none-ne-some h)
newline-lt (b ∷ bs) i h = elim (newline-cons b bs i h) [
  | inl (e, z) ↦ omega arith
  | inr (e, (j, z, n)) ↦ omega (arith, newline-lt bs j n)
]

newline-append : (xs ys : List ℕ) (i : ℕ) → newline xs ≡ some i → newline (xs ++ ys) ≡ some i
unfolding newline
newline-append [] ys i h = absurd (none-ne-some h)
newline-append (x ∷ xs) ys i h = elim (newline-cons x xs i h) [
  | inl (e, z) ↦ rw (e, z) refl
  | inr (e, (j, z, n)) ↦ rw (e, z) (ap (Option.map suc) (newline-append xs ys j n))
]

chomp-append : (xs ys : List ℕ) (i : ℕ) → 0 < i → i ≤ length xs → chomp (xs ++ ys) i ≡ chomp xs i
unfolding chomp
chomp-append xs ys i p h =
    rw (get_or-append_left xs ys (i - 1) 0 (omega arith))
      (elim (Bool-cases (u8 xs (i - 1) == b'\r')) [
        | inl e ↦ rw e (take-append_left (i - 1) xs ys (omega arith))
        | inr e ↦ rw e (take-append_left i xs ys h)
      ])

pub length-chomp : (bs : List ℕ) (i : ℕ) → length (chomp bs i) ≤ length bs
unfolding chomp
length-chomp bs i = omega (arith, length-take (if u8 bs (i - 1) == b'\r' then i - 1 else i) bs)

-- The copy of a line that was found, with the rest of the stream.
copy-line :
    (ubuflen : ℕ) (rbuf : List ℕ) (i : ℕ) (calls : List Recv)
    → 0 < i
    → i < length rbuf
    → length rbuf ≤ ubuflen
    → copy ubuflen rbuf i calls ≡ line (chomp rbuf i) (i + 1) (drop (i + 1) rbuf) calls
unfolding copy
copy-line ubuflen rbuf i calls p l u = if_past (i == 0) _ (ground arith) (
    if_past (ltb ubuflen (length (chomp rbuf i))) _
      (ltb-false ubuflen (length (chomp rbuf i)) (omega (arith, length-chomp rbuf i))) refl)

is_full-room :
    (rbuflen ubuflen : ℕ) (bs : List ℕ)
    → length bs + 10 < rbuflen
    → length bs + 10 < ubuflen
    → is_full rbuflen ubuflen bs ≡ false
unfolding is_full
is_full-room rbuflen ubuflen bs h k = ground arith

-- However the stream is cut: as long as all of it leaves ten bytes free in both buffers and does not begin with a
-- newline, a call returns the text before its first newline, without the carriage return, and leaves the rest of the stream
-- in the buffer and to the calls to come.
pub sock_getline-line :
    (rbuflen ubuflen : ℕ) (rbuf : List ℕ) (chunks : List (List ℕ)) (i : ℕ)
    → length (rbuf ++ flatten chunks) + 10 < rbuflen
    → length (rbuf ++ flatten chunks) + 10 < ubuflen
    → newline (rbuf ++ flatten chunks) ≡ some i
    → 0 < i
    → (buffer : List ℕ) × (rest : List (List ℕ)) × (sock_getline rbuflen ubuflen rbuf
          (map got chunks)
        ≡ line (chomp (rbuf ++ flatten chunks) i) (i + 1) buffer (map got rest))
      × (buffer ++ flatten rest ≡ drop (i + 1) (rbuf ++ flatten chunks))
unfolding sock_getline flatten map
sock_getline-line r u rbuf [] i h k n p =
    let e = append-nil rbuf in
    let n' = subst (λ x. newline x ≡ some i) e n in
    (
      drop (i + 1) rbuf,
      [],
      rw (n', sock_getline)
          (rw e (
            copy-line u rbuf i [] p (newline-lt rbuf i n') (omega (arith, length-append rbuf [])))),
      rw e (append-nil _),
    )
sock_getline-line r u rbuf (c ∷ cs) i h k n p =
    let e = append_assoc rbuf c (flatten cs) in
    elim (Option-cases (newline rbuf)) [
      | inl z ↦
          let full =
            is_full-room r u (rbuf ++ c)
              (omega (
                arith,
                length-append rbuf c,
                length-append c (flatten cs),
                length-append rbuf (c ++ flatten cs),
              ))
              (omega (
                arith,
                length-append rbuf c,
                length-append c (flatten cs),
                length-append rbuf (c ++ flatten cs),
              )) in
          let (buffer, rest, g, q) =
            sock_getline-line r u (rbuf ++ c) cs i (rw e h) (rw e k) (rw e n) p in
          (buffer, rest, rw (z, sock_getline) (rw full (rw e at g)), rw e at q)
      | inr (j, z) ↦
          let same : j ≡ i = cc (newline-append rbuf (c ++ flatten cs) j z) in
          let m = newline-lt rbuf j z in
          (
            drop (i + 1) rbuf,
            c ∷ cs,
            rw (z, sock_getline)
                (rw same (
                  copy-line u rbuf i (got c ∷ map got cs) p (omega arith) (
                    omega (
                      arith,
                      length-append rbuf c,
                      length-append c (flatten cs),
                      length-append rbuf (c ++ flatten cs),
                    ))
                  ∙ ap (λ (t : List ℕ). line t (i + 1) (drop (i + 1) rbuf) (got c ∷ map got cs))
                      (sym (chomp-append rbuf (c ++ flatten cs) i p (omega arith))))),
            sym (drop-append_left (i + 1) rbuf (c ++ flatten cs) (omega arith)),
          )
    ]
