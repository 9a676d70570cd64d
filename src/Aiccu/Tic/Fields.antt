-- ===== src/Aiccu/Tic/Fields.antt =====
-- aiccu/common.c: `countfields` and `copyfield` agree on the fields of a line.
use maiccu.Base.{
  ℕ, suc, ◌-◌, ◌≤◌, ◌<◌, ◌≡◌, refl, ap, ◌∙◌, arith, false, List, [], ◌∷◌, ◌++◌, ◌==◌, length, take,
  append_assoc, append-nil, length-append, if_past, pos-==_zero,
}
use maiccu.Aiccu.Tic.Tunnels.{
  ListedTunnel, buf2_size, count_fields, found, missing, field_from, copy_field,
}

-- No byte is a blank.
abbrev pub IsField : List ℕ → Type 0
IsField [] = Unit {0}
IsField (c ∷ cs) = ((c == b' ') ≡ false) × IsField cs

-- The line of a tunnel.
abbrev pub print_entry : ListedTunnel → List ℕ
print_entry t = t.id ++ (b' ' ∷ (t.ipv6 ++ (b' ' ∷ (t.ipv4 ++ (b' ' ∷ t.pop_id)))))

-- Four fields, each short enough for `buf2`.
pub record AreFields (t : ListedTunnel) : Type 0 where
  pub id_field : IsField t.id
  pub ipv6_field : IsField t.ipv6
  pub ipv4_field : IsField t.ipv4
  pub pop_id_field : IsField t.pop_id
  pub short : length (print_entry t) ≤ buf2_size

field_from-step :
    (n c : ℕ) (field rest : List ℕ)
    → (c == b' ') ≡ false
    → field_from n field (c ∷ rest) ≡ field_from n (field ++ (c ∷ [])) rest
unfolding field_from
field_from-step n c field [] h = rw h refl
field_from-step n c field (d ∷ rest) h = rw h refl

-- The field that is looked for, before a blank and at the end.
pub field_from-here :
    (w field rest : List ℕ)
    → IsField w
    → field_from 0 field (w ++ (b' ' ∷ rest)) ≡ found (take buf2_size (field ++ w))
unfolding field_from
field_from-here [] field [] h = rw (append-nil field) refl
field_from-here [] field (d ∷ rest) h = rw (append-nil field) refl
field_from-here (c ∷ w) field rest (h, k) =
    field_from-step 0 c field (w ++ (b' ' ∷ rest)) h
    ∙ field_from-here w (field ++ (c ∷ [])) rest k
    ∙ ap (λ x. found (take buf2_size x)) (append_assoc field (c ∷ []) w)

pub field_from-last :
    (w field : List ℕ) → IsField w → field_from 0 field w ≡ found (take buf2_size (field ++ w))
unfolding field_from
field_from-last [] field h = rw (append-nil field) refl
field_from-last (c ∷ w) field (h, k) =
    field_from-step 0 c field w h
    ∙ field_from-last w (field ++ (c ∷ [])) k
    ∙ ap (λ x. found (take buf2_size x)) (append_assoc field (c ∷ []) w)

pred : (n : ℕ) → suc n - 1 ≡ n
pred n = omega arith

-- A field that is skipped.
pub field_from-next :
    (n : ℕ) (w field rest : List ℕ)
    → IsField w
    → 0 < length rest
    → field_from (suc n) field (w ++ (b' ' ∷ rest)) ≡ field_from n [] rest
unfolding field_from
field_from-next n [] field [] h p = absurd (omega (arith, p))
field_from-next n [] field (d ∷ rest) h p =
    if_past (suc n == 0) _ (pos-==_zero (suc n) (omega arith))
      (ap (λ k. field_from k [] (d ∷ rest)) (pred n))
field_from-next n (c ∷ w) field rest (h, k) p =
    field_from-step (suc n) c field (w ++ (b' ' ∷ rest)) h
    ∙ field_from-next n w (field ++ (c ∷ [])) rest k p

pub field_from-missing :
    (n : ℕ) (w field : List ℕ) → IsField w → field_from (suc n) field (w ++ (b' ' ∷ [])) ≡ missing
unfolding field_from
field_from-missing n [] field h = if_past (suc n == 0) _ (pos-==_zero (suc n) (omega arith)) refl
field_from-missing n (c ∷ w) field (h, k) =
    field_from-step (suc n) c field (w ++ (b' ' ∷ [])) h
    ∙ field_from-missing n w (field ++ (c ∷ [])) k

pub copy_field-from :
    (n : ℕ) (line : List ℕ) → 0 < length line → copy_field (suc n) line ≡ field_from n [] line
unfolding copy_field
copy_field-from n [] p = absurd (omega (arith, p))
copy_field-from n (c ∷ line) p = ap (λ k. field_from k [] (c ∷ line)) (pred n)

pub length-blank : (w rest : List ℕ) → 0 < length (w ++ (b' ' ∷ rest))
length-blank w rest = omega (arith, length-append w (b' ' ∷ rest))

count_fields-blank :
    (w rest : List ℕ) → IsField w → count_fields (w ++ (b' ' ∷ rest)) ≡ suc (count_fields rest)
unfolding count_fields
count_fields-blank [] rest h = refl
count_fields-blank (c ∷ w) rest (h, k) = if_past (c == b' ') _ h (count_fields-blank w rest k)

count_fields-one : (w : List ℕ) → IsField w → count_fields w ≡ 1
unfolding count_fields
count_fields-one [] h = refl
count_fields-one (c ∷ w) (h, k) = if_past (c == b' ') _ h (count_fields-one w k)

pub count_fields-print : (t : ListedTunnel) → AreFields t → count_fields (print_entry t) ≡ 4
count_fields-print t a =
    count_fields-blank t.id _ a.id_field
    ∙ ap suc (
        count_fields-blank t.ipv6 _ a.ipv6_field
        ∙ ap suc (
            count_fields-blank t.ipv4 _ a.ipv4_field
            ∙ ap suc (count_fields-one t.pop_id a.pop_id_field)))
