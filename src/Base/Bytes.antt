-- ===== src/Base/Bytes.antt =====
-- Bytes, and the big-endian (network order) words that stand in packets. A word that the C code
-- keeps in network order is represented by the number that `ntohs` or `ntohl` reads from it.
use Prim.Native.Char.{code}
use Prim.Native.String.{String}
use Prim.Native.Nat.{ℕ, zero, suc, ◌+◌, ◌*◌, ◌/◌, ◌%◌, ◌^◌, ◌<◌}
use mathlib.Core.Path.{◌≡◌, refl}
use mathlib.Core.Bool.{Bool, true, false, ◌&&◌}
use mathlib.Core.List.{List, [], ◌∷◌, ◌++◌}
use native.Mathlib.Omega.{arith}
use maiccu.Base.Tests.{◌==◌}
use maiccu.Base.Lists.{get_or, take, drop}

-- The bytes of a text.
abbrev pub codes : String → List ℕ
codes String.[] = []
codes (String.◌∷◌ c s) = code c ∷ codes s

-- Every element is a byte.
abbrev pub AllBytes : List ℕ → Type 0
AllBytes [] = Unit {0}
AllBytes (b ∷ bs) = (b < 256) × AllBytes bs

abbrev pub be16 : ℕ → List ℕ
be16 x = x / 256 % 256 ∷ x % 256 ∷ []

abbrev pub be32 : ℕ → List ℕ
be32 x = x / 2 ^ 24 % 256 ∷ x / 2 ^ 16 % 256 ∷ x / 256 % 256 ∷ x % 256 ∷ []

-- Reads at an offset.
abbrev pub u8 : List ℕ → ℕ → ℕ
u8 bs i = get_or bs i 0

abbrev pub u16 : List ℕ → ℕ → ℕ
u16 bs i = u8 bs i * 256 + u8 bs (i + 1)

abbrev pub u32 : List ℕ → ℕ → ℕ
u32 bs i = u8 bs i * 2 ^ 24 + u8 bs (i + 1) * 2 ^ 16 + u8 bs (i + 2) * 256 + u8 bs (i + 3)

-- `memcmp (a, b, n) == 0` on lists of the same length.
unfoldable pub eq_bytes : List ℕ → List ℕ → Bool
eq_bytes [] [] = true
eq_bytes [] (y ∷ ys) = false
eq_bytes (x ∷ xs) [] = false
eq_bytes (x ∷ xs) (y ∷ ys) = x == y && eq_bytes xs ys

pub eq_bytes_refl : (xs : List ℕ) → eq_bytes xs xs ≡ true
unfolding eq_bytes
eq_bytes_refl [] = refl
eq_bytes_refl (x ∷ xs) = ground (arith, eq_bytes_refl xs)

pub eq_bytes_of_eq : (xs ys : List ℕ) → xs ≡ ys → eq_bytes xs ys ≡ true
eq_bytes_of_eq xs ys e = rw e (eq_bytes_refl ys)

pub eq_bytes→eq : (xs ys : List ℕ) → eq_bytes xs ys ≡ true → xs ≡ ys
unfolding eq_bytes
eq_bytes→eq [] [] h = refl
eq_bytes→eq [] (y ∷ ys) h = ground arith
eq_bytes→eq (x ∷ xs) [] h = ground arith
eq_bytes→eq (x ∷ xs) (y ∷ ys) h = ground (arith, eq_bytes→eq xs ys)

pub AllBytes-append : (xs ys : List ℕ) → AllBytes xs → AllBytes ys → AllBytes (xs ++ ys)
AllBytes-append [] ys h k = k
AllBytes-append (x ∷ xs) ys h k = (h.0, AllBytes-append xs ys h.1 k)

pub AllBytes-take : (n : ℕ) (xs : List ℕ) → AllBytes xs → AllBytes (take n xs)
AllBytes-take zero xs h = tt
AllBytes-take (suc n) [] h = tt
AllBytes-take (suc n) (x ∷ xs) h = (h.0, AllBytes-take n xs h.1)

pub AllBytes-drop : (n : ℕ) (xs : List ℕ) → AllBytes xs → AllBytes (drop n xs)
AllBytes-drop zero xs h = h
AllBytes-drop (suc n) [] h = tt
AllBytes-drop (suc n) (x ∷ xs) h = AllBytes-drop n xs h.1

pub u8-lt : (bs : List ℕ) (i : ℕ) → AllBytes bs → u8 bs i < 256
u8-lt [] i h = omega arith
u8-lt (b ∷ bs) zero h = h.0
u8-lt (b ∷ bs) (suc i) h = u8-lt bs i h.1
