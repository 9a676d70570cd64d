-- ===== src/Gogoc/Redirect/File.antt =====
-- gogoc/gogoc-tsp/src/tsp/tsp_redirect.c: a file of brokers is read back. The files hold no zero bytes.
use mathlib.Core.List.{map}
use maiccu.Base.{
  ℕ, zero, suc, ◌+◌, ◌-◌, ◌≤◌, ◌<◌, ◌≡◌, ◌≢◌, refl, ap, ◌∙◌, arith, Bool, true, false, ◌||◌, List,
  [], ◌∷◌, ◌++◌, Option, some, ltb, ◌==◌, length, u8, Bool-cases, inl, inr, if_past, ltb→lt, lt→ltb,
  pos-==_zero, ==_refl, append_assoc, append-nil, length-append, take-append, take_all,
  get_or-append_right,
}
use maiccu.Gogoc.Redirect.{
  Broker, Brokers, ok, unspecified, max_brokers, max_line_length, is_ok, add_broker, write_list,
  fgets, strip, read_lines, read_list,
}

-- No byte ends a line.
abbrev pub IsPlain : List ℕ → Type 0
IsPlain [] = Unit {0}
IsPlain (b ∷ bs) = (b ≢ b'\n') × (b ≢ b'\r') × IsPlain bs

abbrev pub IsAddress : List ℕ → Type 0
IsAddress a = (0 < length a) × (length a ≤ 254) × IsPlain a

abbrev pub AllAddresses : List Broker → Type 0
AllAddresses [] = Unit {0}
AllAddresses (b ∷ bs) = IsAddress b.address × AllAddresses bs

-- A broker as the file tells it.
abbrev pub from_file : Broker → Broker
from_file b = record { address = b.address; distance = 0; address_type = unspecified }

fgets-line :
    (n : ℕ) (a rest : List ℕ)
    → length a < n
    → IsPlain a
    → fgets n (a ++ (b'\n' ∷ rest)) ≡ (a ++ (b'\n' ∷ []), rest)
unfolding fgets
fgets-line zero a rest h p = absurd (omega arith)
fgets-line (suc n) [] rest h p = refl
fgets-line (suc n) (x ∷ a) rest h p =
    rw (fgets-line n a rest (omega arith) (p.2)) (if_past (x == b'\n') _ (ground arith) refl)

fgets-full : (n : ℕ) (a rest : List ℕ) → length a ≡ n → IsPlain a → fgets n (a ++ rest) ≡ (a, rest)
unfolding fgets
fgets-full zero [] rest h p = refl
fgets-full zero (x ∷ a) rest h p = absurd (omega arith)
fgets-full (suc n) [] rest h p = absurd (omega arith)
fgets-full (suc n) (x ∷ a) rest h p =
    rw (fgets-full n a rest (omega arith) (p.2)) (if_past (x == b'\n') _ (ground arith) refl)

last-plain :
    (a : List ℕ) (i : ℕ) → IsPlain a → i < length a → (u8 a i == b'\n' || u8 a i == b'\r') ≡ false
last-plain [] i p h = absurd (omega arith)
last-plain (x ∷ a) zero p h = ground arith
last-plain (x ∷ a) (suc i) p h = last-plain a i (p.2) (omega arith)

strip-plain : (a : List ℕ) → IsPlain a → strip a ≡ a
unfolding strip
strip-plain [] p = refl
strip-plain (x ∷ a) p = rw (last-plain (x ∷ a) (length (x ∷ a) - 1) p (omega arith)) (ground arith)

strip-newline : (a : List ℕ) → strip (a ++ (b'\n' ∷ [])) ≡ a
unfolding strip
strip-newline a =
    let l = a ++ (b'\n' ∷ []) in
    let e : length l ≡ suc (length a) = omega (arith, length-append a (b'\n' ∷ [])) in
    let f : length l - 1 ≡ length a = omega arith in
    let g : (length l == 0) ≡ false = ground arith in
    rw (g, f, get_or-append_right a (b'\n' ∷ []) (length a) 0 refl)
      (take-append a (b'\n' ∷ []) (length a) refl)

strip-line : (a : List ℕ) → IsPlain a → strip (strip (a ++ (b'\n' ∷ []))) ≡ a
strip-line a p = rw (strip-newline a) (strip-plain a p)

module _ (memory : ℕ → Bool) (m : (n : ℕ) → memory n ≡ true) where
  -- A round that reads an address adds a broker.
  read_lines-address :
      (f c : ℕ) (bytes got rest a : List ℕ) (list : List Broker)
      → fgets (max_line_length - 1) (c ∷ bytes) ≡ (got, rest)
      → strip (strip got) ≡ a
      → IsAddress a
      → length list < max_brokers
      → read_lines (suc f) memory (c ∷ bytes) list
        ≡ read_lines f memory rest
            (list ++ (record { address = a; distance = 0; address_type = unspecified } ∷ []))
  unfolding read_lines add_broker is_ok
  read_lines-address f c bytes got rest a list h s (p, q, r) l =
      let full = take_all 254 a q in
      let z : (length a == 0) ≡ false = pos-==_zero (length a) p in
      let k : ltb (length list) max_brokers ≡ true = lt→ltb (length list) max_brokers l in
      let y = ==_refl (length a) in rw (h, s, z, k, m (length list), full, y) refl

  -- The newline of an address of 254 bytes is read in a round of its own.
  read_lines-newline :
      (f : ℕ) (rest : List ℕ) (list : List Broker)
      → read_lines (suc f) memory (b'\n' ∷ rest) list ≡ read_lines f memory rest list
  unfolding read_lines fgets strip
  read_lines-newline f rest list = refl

  read_lines-nil :
      (f : ℕ) (list : List Broker)
      → read_lines (suc f) memory [] list ≡ some (record { status = ok; list = list })
  unfolding read_lines
  read_lines-nil f list = refl

  read_lines-rest :
      (f : ℕ) (rest : List ℕ) (list : List Broker) {r : Option Brokers}
      → 0 < f
      → ((g : ℕ) → f ≡ suc g → read_lines g memory rest list ≡ r)
      → read_lines f memory (b'\n' ∷ rest) list ≡ r
  read_lines-rest zero rest list h k = absurd (omega arith)
  read_lines-rest (suc f) rest list h k = read_lines-newline f rest list ∙ k f refl

  read_lines-full :
      (f : ℕ) (a rest got left : List ℕ) (list : List Broker)
      → fgets (max_line_length - 1) (a ++ (b'\n' ∷ rest)) ≡ (got, left)
      → strip (strip got) ≡ a
      → IsAddress a
      → length list < max_brokers
      → read_lines (suc f) memory (a ++ (b'\n' ∷ rest)) list
        ≡ read_lines f memory left
            (list ++ (record { address = a; distance = 0; address_type = unspecified } ∷ []))
  read_lines-full f [] rest got left list h s p l = absurd (omega (arith, p.0))
  read_lines-full f (c ∷ a) rest got left list h s p l =
      read_lines-address f c (a ++ (b'\n' ∷ rest)) got left (c ∷ a) list h s p l

  read_lines-write_list :
      (f : ℕ) (bs list : List Broker)
      → AllAddresses bs
      → length list + length bs ≤ max_brokers
      → length (write_list bs) < f
      → read_lines f memory (write_list bs) list
        ≡ some (record { status = ok; list = list ++ map from_file bs })
  unfolding write_list
  read_lines-write_list zero bs list a h k = absurd (omega arith)
  read_lines-write_list (suc f) [] list a h k = rw (append-nil list) (read_lines-nil f list)
  read_lines-write_list (suc f) (b ∷ bs) list a h k =
      let l = length-append b.address (b'\n' ∷ write_list bs) in
      let ih = λ (g : ℕ) (q : length (write_list bs) < g).
        read_lines-write_list g bs (list ++ (from_file b ∷ [])) a.1
          (omega (arith, length-append list (from_file b ∷ []))) q
        ∙ ap (λ (x : List Broker). some (record { status = ok; list = x }))
            (append_assoc list (from_file b ∷ []) (map from_file bs)) in
      elim (Bool-cases (ltb (length b.address) 254)) [
        | inl e ↦
            read_lines-full f b.address (write_list bs) _ (write_list bs) list
              (fgets-line 254 b.address (write_list bs) (ltb→lt _ 254 e) (a.0.2))
              (strip-line b.address (a.0.2)) a.0 (omega arith)
            ∙ ih f (omega arith)
        | inr e ↦
            let n : length b.address ≡ 254 = ground (arith, e, a.0.1) in
            read_lines-full f b.address (write_list bs) b.address (b'\n' ∷ write_list bs) list
              (fgets-full 254 b.address (b'\n' ∷ write_list bs) n (a.0.2))
              (rw (strip-plain b.address (a.0.2)) (strip-plain b.address (a.0.2))) a.0 (omega arith)
            ∙ read_lines-rest f (write_list bs) (list ++ (from_file b ∷ [])) (omega arith)
                (λ g q. ih g (omega arith))
      ]

-- A list of at most fifty brokers, with addresses of 1 to 254 bytes without ends of lines, that is written to a
-- file is read back in its order, with the distances and the types forgotten.
pub read_list-write_list :
    (memory : ℕ → Bool) (bs : List Broker)
    → ((n : ℕ) → memory n ≡ true)
    → AllAddresses bs
    → length bs ≤ max_brokers
    → read_list memory (write_list bs) ≡ some (record { status = ok; list = map from_file bs })
unfolding read_list
read_list-write_list memory bs m a h =
    read_lines-write_list memory m (suc (length (write_list bs))) bs [] a (omega arith)
      (omega arith)
