-- ===== src/Checksum/Order.antt =====
-- The checksum does not depend on the byte order of the host, and a receiver's check succeeds.
use mathlib.Core.List.{flatten}
use maiccu.Base.{
  ℕ, ◌+◌, ◌-◌, ◌*◌, ◌/◌, ◌%◌, ◌≤◌, List, [], ◌∷◌, ◌++◌, AllBytes, AllBytes-append, length, ◌≡◌, ◌∙◌,
  arith, append-nil,
}
use maiccu.Checksum.{Endian, little, big, memory, Iovec, in_cksum}
use maiccu.Checksum.Sum.{in_cksum_lem, word_sum, ones_sum}

-- The value of a word read in the other byte order.
abbrev pub swap16 : ℕ → ℕ
swap16 x = x % 256 * 256 + x / 256

-- Swapping every byte pair multiplies the sum by 256 in the residues mod 65535.
word_sum-mod :
    (xs : List ℕ)
    → AllBytes xs
    → ((word_sum big xs * 256) % 0xffff ≡ word_sum little xs % 0xffff)
      × (word_sum little xs ≤ 256 * word_sum big xs)
      × (word_sum big xs ≤ 256 * word_sum little xs)
unfolding word_sum
word_sum-mod [] h = omega arith
word_sum-mod (x ∷ []) h = omega arith
word_sum-mod (x ∷ y ∷ xs) h = omega (arith, word_sum-mod xs h.1.1)

ones_sum-swap :
    (s t : ℕ)
    → (s * 256) % 0xffff ≡ t % 0xffff
    → t ≤ 256 * s
    → s ≤ 256 * t
    → swap16 (0xffff - ones_sum s) ≡ 0xffff - ones_sum t
unfolding ones_sum
ones_sum-swap s t h p q = ground arith

memory-swap : (x y : ℕ) → x ≤ 0xffff → y ≤ 0xffff → swap16 x ≡ y → memory little y ≡ memory big x
memory-swap x y h k e = ground arith

-- A little-endian and a big-endian host store the same two checksum bytes.
in_cksum-memory :
    (iov : List Iovec)
    → AllBytes (flatten iov)
    → memory little (in_cksum little iov) ≡ memory big (in_cksum big iov)
in_cksum-memory iov h =
    let m = word_sum-mod (flatten iov) h in
    rw (in_cksum_lem little iov h, in_cksum_lem big iov h)
      (memory-swap _ _ (omega arith) (omega arith) (ones_sum-swap _ _ m.0 m.1 m.2))

memory-word_sum :
    (e : Endian) (c : ℕ) → c ≤ 0xffff → (word_sum e (memory e c) ≡ c) × AllBytes (memory e c)
unfolding word_sum
memory-word_sum little c h = omega arith
memory-word_sum big c h = omega arith

word_sum-append :
    (e : Endian) (xs ys : List ℕ)
    → length xs % 2 ≡ 0
    → word_sum e (xs ++ ys) ≡ word_sum e xs + word_sum e ys
unfolding word_sum
word_sum-append e [] ys h = omega arith
word_sum-append e (x ∷ []) ys h = absurd (omega arith)
word_sum-append e (x ∷ y ∷ xs) ys h = omega (arith, word_sum-append e xs ys (omega arith))

ones_sum-complement : (s : ℕ) → 0xffff - ones_sum (s + (0xffff - ones_sum s)) ≡ 0
unfolding ones_sum
ones_sum-complement s = ground arith

-- Data of even length, with its checksum appended as it lies in memory, has the checksum 0.
in_cksum_verifies :
    (e : Endian) (xs : List ℕ)
    → AllBytes xs
    → length xs % 2 ≡ 0
    → in_cksum e ((xs ++ memory e (in_cksum e (xs ∷ []))) ∷ []) ≡ 0
unfolding flatten
in_cksum_verifies e xs h even =
    let whole = in_cksum_lem e (xs ∷ []) (rw append-nil h) in
    let m = memory-word_sum e (0xffff - ones_sum (word_sum e xs)) (omega arith) in
    rw whole (
      rw append-nil (
        in_cksum_lem e ((xs ++ memory e (0xffff - ones_sum (word_sum e xs))) ∷ [])
          (rw append-nil (AllBytes-append xs _ h m.1))
        ∙ rw (append-nil, word_sum-append e xs _ even, m.0) (ones_sum-complement (word_sum e xs))))
