-- ===== src/Checksum/Sum.antt =====
-- What the checksum is: the complement of the ones' complement sum of the 16-bit words, however
-- the bytes are cut into buffers.
use mathlib.Core.List.{flatten}
use Prim.Native.Nat.{bit_xor}
use maiccu.Base.{
  ℕ, ◌+◌, ◌-◌, ◌%◌, ◌≤◌, ◌<◌, false, List, [], ◌∷◌, ◌++◌, AllBytes, if◌then◌else◌, ◌≡◌, refl, sym,
  ◌∙◌, ap, arith, bit_xor_16, ◌==◌,
}
use maiccu.Checksum.{
  Endian, little, big, word, Iovec, Acc, add_word, add_byte, add_bytes, add_iovecs, pad, start,
  in_cksum,
}

add_bytes-append :
    (e : Endian) (a : Acc) (xs ys : List ℕ)
    → add_bytes e a (xs ++ ys) ≡ add_bytes e (add_bytes e a xs) ys
unfolding add_bytes
add_bytes-append e a [] ys = refl
add_bytes-append e a (x ∷ xs) ys = add_bytes-append e (add_byte e a x) xs ys

add_iovecs-flatten :
    (e : Endian) (a : Acc) (iov : List Iovec) → add_iovecs e a iov ≡ add_bytes e a (flatten iov)
unfolding add_iovecs add_bytes flatten
add_iovecs-flatten e a [] = refl
add_iovecs-flatten e a (v ∷ vs) =
    add_iovecs-flatten e (add_bytes e a v) vs ∙ sym (add_bytes-append e a v (flatten vs))

-- However the data is cut into buffers, the checksum is that of the data in one buffer.
in_cksum-flatten : (e : Endian) (iov : List Iovec) → in_cksum e iov ≡ in_cksum e (flatten iov ∷ [])
unfolding in_cksum add_iovecs
in_cksum-flatten e iov = rw (add_iovecs-flatten e start iov)

in_cksum-one :
    (e : Endian) (xs : List ℕ)
    → in_cksum e (xs ∷ []) ≡ bit_xor (pad e (add_bytes e start xs)) 0xffff
unfolding in_cksum add_iovecs
in_cksum-one e xs = refl

-- The plain sum of the big-endian words of some data, the last one padded.
unfoldable pub word_sum : Endian → List ℕ → ℕ
word_sum e [] = 0
word_sum e (x ∷ []) = word e x 0
word_sum e (x ∷ y ∷ xs) = word e x y + word_sum e xs

-- The residue that stands for a sum in ones' complement: 0 for 0 only, else 1 to 65535.
unfoldable pub ones_sum : ℕ → ℕ
ones_sum s = if s == 0 then 0 else (s - 1) % 0xffff + 1

ones_sum-le : (s : ℕ) → ones_sum s ≤ 0xffff
unfolding ones_sum
ones_sum-le s = ground arith

add_word-ones_sum : (s w : ℕ) → w ≤ 0xffff → add_word (ones_sum s) w ≡ ones_sum (s + w)
unfolding add_word ones_sum
add_word-ones_sum s w h = ground arith

word-le : (e : Endian) (x y : ℕ) → x < 256 → y < 256 → word e x y ≤ 0xffff
word-le little x y hx hy = omega arith
word-le big x y hx hy = omega arith

-- From an even position the loop adds the words of the data.
add_bytes-ones_sum :
    (e : Endian) (s t first : ℕ) (xs : List ℕ)
    → AllBytes xs
    → t ≡ ones_sum s
    → pad e (add_bytes e (record { sum = t; first = first; odd = false }) xs)
      ≡ ones_sum (s + word_sum e xs)
unfolding pad add_bytes add_byte word_sum
add_bytes-ones_sum e s t first [] h q = q ∙ ap ones_sum (omega arith)
add_bytes-ones_sum e s t first (x ∷ []) h q =
    ap (λ k. add_word k (word e x 0)) q
    ∙ add_word-ones_sum s (word e x 0) (word-le e x 0 h.0 (omega arith))
add_bytes-ones_sum e s t first (x ∷ y ∷ xs) h q =
    add_bytes-ones_sum e (s + word e x y) (add_word t (word e x y)) x xs h.1.1 (
      ap (λ k. add_word k (word e x y)) q
      ∙ add_word-ones_sum s (word e x y) (word-le e x y h.0 h.1.0))
    ∙ ap ones_sum (omega arith)

ones_sum-zero : 0 ≡ ones_sum 0
unfolding ones_sum
ones_sum-zero = refl

-- The checksum of data bytes is the complement of the ones' complement sum of its words.
pub in_cksum_lem :
    (e : Endian) (iov : List Iovec)
    → AllBytes (flatten iov)
    → in_cksum e iov ≡ 0xffff - ones_sum (word_sum e (flatten iov))
in_cksum_lem e iov h =
    in_cksum-flatten e iov
    ∙ in_cksum-one e (flatten iov)
    ∙ ap (λ s. bit_xor s 0xffff)
        (add_bytes-ones_sum e 0 0 0 (flatten iov) h ones_sum-zero ∙ ap ones_sum (omega arith))
    ∙ bit_xor_16 _ (omega (arith, ones_sum-le (word_sum e (flatten iov))))
