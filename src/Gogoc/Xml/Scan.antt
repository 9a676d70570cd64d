-- ===== src/Gogoc/Xml/Scan.antt =====
-- gogoc/gogoc-tsp/src/xml/xmlparse.c: names, values and end tags are found where they have been written.
use maiccu.Base.{
  ℕ, Bool, true, false, List, [], ◌∷◌, ◌++◌, some, length, eq_bytes, take, ◌≡◌, refl, arith,
  eq_bytes_of_eq, take-append, drop-append,
}
use maiccu.Gogoc.Xml.{is_blank, starts, skip_blanks, span, find}

-- Every byte is such a byte.
abbrev pub AllIs : (ℕ → Bool) → List ℕ → Type 0
AllIs p [] = Unit {0}
AllIs p (c ∷ cs) = (p c ≡ true) × AllIs p cs

pub span-append :
    (p : ℕ → Bool) (xs rest : List ℕ)
    → AllIs p xs
    → starts p rest ≡ false
    → span p (xs ++ rest) ≡ (xs, rest)
unfolding span
span-append p [] [] all stop = refl
span-append p [] (c ∷ cs) all stop = rw stop refl
span-append p (x ∷ xs) rest all stop = rw (span-append p xs rest all.1 stop, all.0) refl

pub skip_blanks-stop : (cs : List ℕ) → starts is_blank cs ≡ false → skip_blanks cs ≡ cs
unfolding skip_blanks
skip_blanks-stop [] stop = refl
skip_blanks-stop (c ∷ cs) stop = ground arith

-- The token does not begin within the first text, with the second one behind it.
abbrev pub NoEarlier : List ℕ → List ℕ → List ℕ → Type 0
NoEarlier token [] tail = Unit {0}
NoEarlier token (c ∷ cs) tail =
    (eq_bytes (take (length token) (c ∷ (cs ++ tail))) token ≡ false) × NoEarlier token cs tail

pub find-append :
    (t : ℕ) (ts xs rest : List ℕ)
    → NoEarlier (t ∷ ts) xs (t ∷ (ts ++ rest))
    → find (t ∷ ts) (xs ++ (t ∷ (ts ++ rest))) ≡ some (xs, rest)
unfolding find
find-append t ts [] rest no_one =
    let token = t ∷ ts in
    let same : eq_bytes (take (length token) (token ++ rest)) token ≡ true =
      eq_bytes_of_eq (take (length token) (token ++ rest)) token
        (take-append token rest (length token) refl) in
    rw (same, drop-append ts rest (length ts) refl) refl
find-append t ts (x ∷ xs) rest no_one = rw (no_one.0, find-append t ts xs rest no_one.1) refl
