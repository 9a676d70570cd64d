-- ===== src/Base/Text.antt =====
-- Numbers in texts, as `atoi` and `printf` of C read and write them.
use Prim.Native.Nat.{ℕ, zero, suc, ◌+◌, ◌-◌, ◌*◌, ◌/◌, ◌%◌, ◌^◌}
use mathlib.Core.Bool.{Bool, ◌&&◌, ◌||◌}
use mathlib.Core.List.{List, [], ◌∷◌, ◌++◌}
use maiccu.Base.Tests.{◌==◌, ltb, leb, if◌then◌else◌}

abbrev is_digit : ℕ → Bool
is_digit c = leb b'0' c && leb c b'9'

abbrev is_blank : ℕ → Bool
is_blank c = c == b' ' || leb b'\t' c && leb c b'\r'

unfoldable pub digits : ℕ → List ℕ → ℕ
digits n [] = n
digits n (c ∷ cs) = if is_digit c then digits (n * 10 + (c - b'0')) cs else n

-- The number at the beginning of a text, as a word of `w` bits.
unfoldable pub number : ℕ → List ℕ → ℕ
unfolding digits
number w [] = 0
number w (c ∷ cs) =
    let rest = number w cs in
    if is_blank c
    then rest
    else if c == b'-'
    then (2 ^ w - digits 0 cs % 2 ^ w) % 2 ^ w
    else if c == b'+'
    then digits 0 cs % 2 ^ w
    else digits 0 (c ∷ cs) % 2 ^ w

-- An `int` has 32 bits and a `long` 64.
unfoldable pub atoi : List ℕ → ℕ
unfolding number
atoi bs = number 32 bs

unfoldable pub atol : List ℕ → ℕ
unfolding number
atol bs = number 64 bs

-- `%d` of a number that is not negative, with at most as many digits as the fuel.
unfoldable pub decimal : ℕ → ℕ → List ℕ
decimal zero n = []
decimal (suc fuel) n =
    let front = decimal fuel (n / 10) in (if ltb n 10 then [] else front) ++ ((b'0' + n % 10) ∷ [])
