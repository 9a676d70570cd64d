-- ===== src/Aiccu/Lines/Room.antt =====
-- aiccu/common.c: as long as no call of `sock_getline` fails, its lines fit.
use maiccu.Base.{
  ℕ, ◌+◌, ◌≡◌, ◌<◌, false, List, [], ◌∷◌, ◌++◌, ◌==◌, ltb, length, arith, Option-cases, Bool-cases,
  inl, inr, length-drop,
}
use maiccu.Aiccu.Lines.{
  Recv, closed, failed, got, Outcome, line, error, waiting, before_buffer, overrun, wrapped,
  newline, chomp, copy, is_full, drop_last, sock_getline,
}
use maiccu.Aiccu.Lines.Stream.{length-chomp}

-- Nothing waits that does not leave ten bytes free in both buffers.
abbrev pub HasRoom : ℕ → ℕ → List ℕ → Type 0
HasRoom rbuflen ubuflen rbuf = (length rbuf + 10 < rbuflen) × (length rbuf + 10 < ubuflen)

-- A line fits, and so does what is left; a call that does not fail does not leave the buffers.
abbrev pub Fits : ℕ → ℕ → Outcome → Type 0
Fits r u (line text n rbuf calls) = (length text + 10 < u) × HasRoom r u rbuf
Fits r u (error rbuf calls) = Unit {0}
Fits r u (waiting rbuf) = HasRoom r u rbuf
Fits r u before_buffer = Unit {0}
Fits r u overrun = ⊥
Fits r u wrapped = Unit {0}

copy-Fits :
    (r u : ℕ) (rbuf : List ℕ) (i : ℕ) (calls : List Recv)
    → HasRoom r u rbuf
    → Fits r u (copy u rbuf i calls)
unfolding copy
copy-Fits r u rbuf i calls (h, k) = elim (Bool-cases (i == 0)) [
  | inl e ↦ rw e tt
  | inr e ↦
      let c = length-chomp rbuf i in
      let t : ltb u (length (chomp rbuf i)) ≡ false = ground arith in
      rw e (
        rw t (
          omega arith,
          (omega (arith, length-drop (i + 1) rbuf), omega (arith, length-drop (i + 1) rbuf)),
        ))
]

not_full : (r u : ℕ) (bs : List ℕ) → is_full r u bs ≡ false → HasRoom r u bs
unfolding is_full
not_full r u bs h = ground arith

-- Whatever `recv` gives: a call that begins with ten bytes free in both buffers copies no more than the
-- caller's buffer holds, and a call that returns a line or waits leaves ten bytes free again.
pub sock_getline-Fits :
    (r u : ℕ) (rbuf : List ℕ) (calls : List Recv)
    → HasRoom r u rbuf
    → Fits r u (sock_getline r u rbuf calls)
unfolding sock_getline
sock_getline-Fits r u rbuf [] h = elim (Option-cases (newline rbuf)) [
  | inl z ↦ rw (z, sock_getline) h
  | inr (i, z) ↦ rw (z, sock_getline) (copy-Fits r u rbuf i [] h)
]
sock_getline-Fits r u rbuf (closed ∷ calls) h = elim (Option-cases (newline rbuf)) [
  | inl z ↦ rw (z, sock_getline) tt
  | inr (i, z) ↦ rw (z, sock_getline) (copy-Fits r u rbuf i (closed ∷ calls) h)
]
sock_getline-Fits r u rbuf (failed ∷ calls) h =
    let ih = sock_getline-Fits r u (drop_last rbuf) calls in
    elim (Option-cases (newline rbuf)) [
      | inl z ↦
          rw (z, sock_getline)
            (elim (Bool-cases (length rbuf == 0)) [
              | inl e ↦ rw e tt
              | inr e ↦ rw e (elim (Bool-cases (is_full r u (drop_last rbuf))) [
                | inl g ↦ rw g tt
                | inr g ↦ rw g (ih (not_full r u (drop_last rbuf) g))
              ])
            ])
      | inr (i, z) ↦ rw (z, sock_getline) (copy-Fits r u rbuf i (failed ∷ calls) h)
    ]
sock_getline-Fits r u rbuf (got bs ∷ calls) h =
    let ih = sock_getline-Fits r u (rbuf ++ bs) calls in
    elim (Option-cases (newline rbuf)) [
      | inl z ↦
          rw (z, sock_getline)
            (elim (Bool-cases (is_full r u (rbuf ++ bs))) [
              | inl e ↦ rw e tt
              | inr e ↦ rw e (ih (not_full r u (rbuf ++ bs) e))
            ])
      | inr (i, z) ↦ rw (z, sock_getline) (copy-Fits r u rbuf i (got bs ∷ calls) h)
    ]
