-- ===== src/Gogoc/Capability/Print.antt =====
-- gogoc/gogoc-tsp/src/tsp/tsp_cap.c: the announcement of a broker is read back.
use Prim.Native.Nat.{bit_or}
use maiccu.Base.{
  codes, ℕ, ◌<◌, ◌≡◌, refl, sym, ◌∙◌, arith, true, false, List, [], ◌∷◌, ◌++◌, some, ◌==◌, length,
  append_assoc, append-nil,
}
use maiccu.Gogoc.Capability.{
  Scan, is_space, is_empty, set_capability, close, scan, extract_capability,
}

-- A byte of a word: neither the end, nor a separator, nor an equals sign.
abbrev pub IsWord : List ℕ → Type 0
IsWord [] = Unit {0}
IsWord (c ∷ cs) = ((c == 0) ≡ false) × (is_space c ≡ false) × ((c == b'=') ≡ false) × IsWord cs

-- A capability is a token and a value, both not empty.
abbrev pub Named : List ℕ × List ℕ → Type 0
Named (t, v) = IsWord t × IsWord v × (0 < length t) × (0 < length v)

abbrev pub AllNamed : List (List ℕ × List ℕ) → Type 0
AllNamed [] = Unit {0}
AllNamed (c ∷ cs) = Named c × AllNamed cs

-- The line that a broker sends: words with an equals sign between them, a blank between two
-- capabilities, and the end of the line before the zero.
abbrev pub print_next : List (List ℕ × List ℕ) → List ℕ → List ℕ
print_next [] behind = b'\r' ∷ b'\n' ∷ 0 ∷ behind
print_next ((t, v) ∷ cs) behind = b' ' ∷ (t ++ (b'=' ∷ (v ++ print_next cs behind)))

abbrev pub flags_of : ℕ → List (List ℕ × List ℕ) → ℕ
flags_of flags [] = flags
flags_of flags ((t, v) ∷ cs) = flags_of (bit_or flags (set_capability t v)) cs

-- The three steps of the loop, with a byte behind the one that it looks at.
step-byte :
    (c d : ℕ) (rest text token value : List ℕ) (flags : ℕ)
    → (c == 0) ≡ false
    → is_space c ≡ false
    → (c == b'=') ≡ false
    → scan (c ∷ d ∷ rest) (record { text = text; token = token; value = value; flags = flags })
      ≡ scan
          (d ∷ rest)
          (record { text = text ++ (c ∷ []); token = token; value = value; flags = flags })
unfolding scan
step-byte c d rest text token value flags z s e = rw (z, s, e, scan) refl

step-space :
    (c d : ℕ) (rest : List ℕ) (v : Scan)
    → (c == 0) ≡ false
    → is_space c ≡ true
    → scan (c ∷ d ∷ rest) v ≡ scan rest (record (close v) { text = d ∷ [] })
unfolding scan
step-space c d rest v z s = rw (z, s, scan) refl

step-equals :
    (d t : ℕ) (ts rest token value : List ℕ) (flags : ℕ)
    → scan (b'=' ∷ d ∷ rest) (record { text = t ∷ ts; token = token; value = value; flags = flags })
      ≡ scan rest (record { text = d ∷ []; token = t ∷ ts; value = value; flags = flags })
unfolding scan is_empty
step-equals d t ts rest token value flags = refl

-- A word is gathered byte by byte; there is always a byte behind it.
scan-word :
    (w text token value : List ℕ) (flags d : ℕ) (rest : List ℕ)
    → IsWord w
    → scan (w ++ (d ∷ rest)) (record { text = text; token = token; value = value; flags = flags })
      ≡ scan (d ∷ rest) (record { text = text ++ w; token = token; value = value; flags = flags })
scan-word [] text token value flags d rest h = rw (append-nil text) refl
scan-word (c ∷ []) text token value flags d rest h =
    step-byte c d rest text token value flags h.0 h.1 h.2
scan-word (c ∷ e ∷ w) text token value flags d rest h =
    step-byte c e (w ++ (d ∷ rest)) text token value flags h.0 h.1 h.2
    ∙ scan-word (e ∷ w) (text ++ (c ∷ [])) token value flags d rest h.3
    ∙ rw (append_assoc text (c ∷ []) (e ∷ w)) refl

-- The value that is gathered when its separator comes.
close-capability :
    (t v flags : ℕ) (ts vs : List ℕ)
    → close (record { text = v ∷ vs; token = t ∷ ts; value = []; flags = flags }) ≡ record {
      text = [];
      token = [];
      value = [];
      flags = bit_or flags (set_capability (t ∷ ts) (v ∷ vs));
    }
unfolding close is_empty
close-capability t v flags ts vs = refl

step-end : (behind : List ℕ) (v : Scan) → scan (0 ∷ behind) v ≡ some v.flags
unfolding scan
step-end [] v = refl
step-end (b ∷ behind) v = refl

-- From the second byte of a token to the separator behind the value, and over the byte behind it.
scan-capability :
    (flags t v s d : ℕ) (ts vs rest : List ℕ)
    → IsWord ts
    → IsWord vs
    → (s == 0) ≡ false
    → is_space s ≡ true
    → scan
        (ts ++ (b'=' ∷ v ∷ (vs ++ (s ∷ d ∷ rest))))
        (record { text = t ∷ []; token = []; value = []; flags = flags })
      ≡ scan rest (record {
        text = d ∷ [];
        token = [];
        value = [];
        flags = bit_or flags (set_capability (t ∷ ts) (v ∷ vs));
      })
scan-capability flags t v s d ts vs rest h k z b =
    scan-word ts (t ∷ []) [] [] flags b'=' (v ∷ (vs ++ (s ∷ d ∷ rest))) h
    ∙ step-equals v t ts (vs ++ (s ∷ d ∷ rest)) [] [] flags
    ∙ scan-word vs (v ∷ []) (t ∷ ts) [] flags s (d ∷ rest) k
    ∙ step-space s d rest _ z b
    ∙ rw (close-capability t v flags ts vs) refl

scan-print :
    (cs : List (List ℕ × List ℕ)) (flags t v : ℕ) (ts vs behind : List ℕ)
    → IsWord ts
    → IsWord vs
    → AllNamed cs
    → scan
        (ts ++ (b'=' ∷ v ∷ (vs ++ print_next cs behind)))
        (record { text = t ∷ []; token = []; value = []; flags = flags })
      ≡ some (flags_of (bit_or flags (set_capability (t ∷ ts) (v ∷ vs))) cs)
scan-print [] flags t v ts vs behind h k a =
    scan-capability flags t v b'\r' b'\n' ts vs (0 ∷ behind) h k refl refl ∙ step-end behind _
scan-print (([], w) ∷ cs) flags t v ts vs behind h k a = absurd (omega (arith, a.0.2))
scan-print ((x ∷ xs, []) ∷ cs) flags t v ts vs behind h k a = absurd (omega (arith, a.0.3))
scan-print ((x ∷ xs, y ∷ ys) ∷ cs) flags t v ts vs behind h k a =
    scan-capability flags t v b' ' x ts vs (xs ++ (b'=' ∷ y ∷ (ys ++ print_next cs behind))) h k
      refl refl
    ∙ scan-print cs (bit_or flags (set_capability (t ∷ ts) (v ∷ vs))) x y xs ys behind (a.0.0.3)
        (a.0.1.3) a.1

-- The whole line.
abbrev pub announce : List (List ℕ × List ℕ) → List ℕ → List ℕ
announce cs behind = codes "CAPABILITY" ++ print_next cs behind

-- The announcement of any capabilities, whatever lies behind its end, gives the flags of just these.
extract_capability-announce :
    (t v : ℕ) (ts vs : List ℕ) (cs : List (List ℕ × List ℕ)) (behind : List ℕ)
    → AllNamed ((t ∷ ts, v ∷ vs) ∷ cs)
    → extract_capability (announce ((t ∷ ts, v ∷ vs) ∷ cs) behind)
      ≡ some (flags_of 0 ((t ∷ ts, v ∷ vs) ∷ cs))
unfolding extract_capability
extract_capability-announce t v ts vs cs behind a =
    let rest = v ∷ (vs ++ print_next cs behind) in
    scan-word (t ∷ ts) [] [] [] 0 b'=' rest (a.0.0)
    ∙ sym (scan-word ts (t ∷ []) [] [] 0 b'=' rest (a.0.0.3))
    ∙ scan-print cs 0 t v ts vs behind (a.0.0.3) (a.0.1.3) a.1
