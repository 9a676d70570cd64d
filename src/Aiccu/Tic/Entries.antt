-- ===== src/Aiccu/Tic/Entries.antt =====
-- aiccu/tic.c: what `tic_ListTunnels` makes of a line.
use maiccu.Base.{
  ℕ, suc, ◌+◌, ◌≤◌, ◌<◌, ◌≡◌, ◌⊎◌, refl, ap, subst, ◌∙◌, arith, Bool, true, not, List, [], ◌∷◌,
  ◌++◌, ◌==◌, ==_iff, length, take, take_all, Bool-cases, inl, inr, length-append, if_past,
}
use maiccu.Aiccu.Tic.Tunnels.{
  ListedTunnel, buf2_size, count_fields, found, field_from, copy_field, entry, broken, with_field,
  read_entry,
}
use maiccu.Aiccu.Tic.Fields.{
  IsField, print_entry, AreFields, field_from-here, field_from-last, field_from-next,
  field_from-missing, copy_field-from, length-blank, count_fields-print,
}

module _ (t : ListedTunnel) (a : AreFields t) where
  take-field : (w : List ℕ) → length w ≤ length (print_entry t) → found (take buf2_size w) ≡ found w
  take-field w h = ap found (take_all buf2_size w (omega (arith, h, a.short)))

  lengths :
      length (print_entry t) ≡ length t.id + length t.ipv6 + length t.ipv4 + length t.pop_id + 3
  lengths = omega (
    arith,
    length-append t.id (b' ' ∷ (t.ipv6 ++ (b' ' ∷ (t.ipv4 ++ (b' ' ∷ t.pop_id))))),
    length-append t.ipv6 (b' ' ∷ (t.ipv4 ++ (b' ' ∷ t.pop_id))),
    length-append t.ipv4 (b' ' ∷ t.pop_id),
  )

  id-copied : copy_field 1 (print_entry t) ≡ found t.id
  id-copied =
      copy_field-from 0 (print_entry t) (length-blank t.id _)
      ∙ field_from-here t.id [] _ a.id_field
      ∙ take-field t.id (omega (arith, lengths))

  ipv6-copied : copy_field 2 (print_entry t) ≡ found t.ipv6
  ipv6-copied =
      copy_field-from 1 (print_entry t) (length-blank t.id _)
      ∙ field_from-next 0 t.id [] _ a.id_field (length-blank t.ipv6 _)
      ∙ field_from-here t.ipv6 [] _ a.ipv6_field
      ∙ take-field t.ipv6 (omega (arith, lengths))

  ipv4-copied : copy_field 3 (print_entry t) ≡ found t.ipv4
  ipv4-copied =
      copy_field-from 2 (print_entry t) (length-blank t.id _)
      ∙ field_from-next 1 t.id [] _ a.id_field (length-blank t.ipv6 _)
      ∙ field_from-next 0 t.ipv6 [] _ a.ipv6_field (length-blank t.ipv4 _)
      ∙ field_from-here t.ipv4 [] _ a.ipv4_field
      ∙ take-field t.ipv4 (omega (arith, lengths))

  last-from : copy_field 4 (print_entry t) ≡ field_from 1 [] (t.ipv4 ++ (b' ' ∷ t.pop_id))
  last-from =
      copy_field-from 3 (print_entry t) (length-blank t.id _)
      ∙ field_from-next 2 t.id [] _ a.id_field (length-blank t.ipv6 _)
      ∙ field_from-next 1 t.ipv6 [] _ a.ipv6_field (length-blank t.ipv4 _)

  pop_id-copied : 0 < length t.pop_id → copy_field 4 (print_entry t) ≡ found t.pop_id
  pop_id-copied p =
      last-from
      ∙ field_from-next 0 t.ipv4 [] t.pop_id a.ipv4_field p
      ∙ field_from-last t.pop_id [] a.pop_id_field
      ∙ take-field t.pop_id (omega (arith, lengths))

  pub read_entry-print : 0 < length t.pop_id → read_entry true (print_entry t) ≡ entry t
  unfolding read_entry with_field
  read_entry-print p =
      if_past _ _ (ap not ((==_iff _ _).1 (count_fields-print t a)))
        (rw (id-copied, ipv6-copied, ipv4-copied, pop_id-copied p) refl)

  read_entry-broken : t.pop_id ≡ [] → read_entry true (print_entry t) ≡ broken
  unfolding read_entry with_field
  read_entry-broken e =
      let m =
        last-from
        ∙ ap (λ x. field_from 1 [] (t.ipv4 ++ (b' ' ∷ x))) e
        ∙ field_from-missing 0 t.ipv4 [] a.ipv4_field in
      if_past _ _ (ap not ((==_iff _ _).1 (count_fields-print t a)))
        (rw (id-copied, ipv6-copied, ipv4-copied, m) refl)

-- A text of more than one field is a field and a text with one field less.
split :
    (line : List ℕ) (n : ℕ)
    → count_fields line ≡ suc (suc n)
    → (w : List ℕ) × (rest : List ℕ) × IsField w
      × (line ≡ w ++ (b' ' ∷ rest))
      × (count_fields rest ≡ suc n)
unfolding count_fields
split [] n h = absurd (omega (arith, h))
split (c ∷ cs) n h = elim (Bool-cases (c == b' ')) [
  | inl e ↦ ([], cs, tt, ap (λ x. x ∷ cs) ((==_iff _ _).0 e), omega (arith, rw e at h))
  | inr e ↦
      let (w, rest, f, p, k) = split cs n (rw e at h) in (c ∷ w, rest, (e, f), ap (◌∷◌ c) p, k)
]

count_fields-pos : (bs : List ℕ) → 0 < count_fields bs
unfolding count_fields
count_fields-pos [] = omega arith
count_fields-pos (c ∷ cs) = ground (arith, count_fields-pos cs)

single : (line : List ℕ) → count_fields line ≡ 1 → IsField line
unfolding count_fields
single [] h = tt
single (c ∷ cs) h = elim (Bool-cases (c == b' ')) [
  | inl e ↦ absurd (omega (arith, rw e at h, count_fields-pos cs))
  | inr e ↦ (e, single cs (rw e at h))
]

-- A line of four fields is the line of a tunnel.
parts :
    (line : List ℕ)
    → count_fields line ≡ 4
    → length line ≤ buf2_size
    → (t : ListedTunnel) × AreFields t × (line ≡ print_entry t)
parts line h l =
    let (a, r1, fa, p, h1) = split line 2 h in
    let (b, r2, fb, q, h2) = split r1 1 h1 in
    let (c, d, fc, r, h3) = split r2 0 h2 in
    let t : ListedTunnel = record { id = a; ipv6 = b; ipv4 = c; pop_id = d } in
    let e : line ≡ print_entry t =
      p ∙ ap (λ x. a ++ (b' ' ∷ x)) (q ∙ ap (λ x. b ++ (b' ' ∷ x)) r) in
    (
      t,
      record {
        id_field = fa;
        ipv6_field = fb;
        ipv4_field = fc;
        pop_id_field = single d h3;
        short = subst (λ x. length x ≤ buf2_size) e l;
      },
      e,
    )

-- A tunnel that a line can name.
abbrev pub IsListed : ListedTunnel → Type 0
IsListed t = AreFields t × (0 < length t.pop_id)

pub read_entry-cases :
    (memory : Bool) (line : List ℕ)
    → length line ≤ buf2_size
    → (read_entry memory line ≡ broken)
      ⊎ ((t : ListedTunnel) × IsListed t
          × (line ≡ print_entry t)
          × (read_entry memory line ≡ entry t))
unfolding read_entry
read_entry-cases memory line l = elim (Bool-cases (count_fields line == 4)) [
  | inr e ↦ inl (rw e refl)
  | inl e ↦ elim (Bool-cases memory) [
    | inr m ↦ inl (rw (e, m) refl)
    | inl m ↦
        let (t, a, p) = parts line ((==_iff _ _).0 e) l in
        rw (m, p)
          (elim (empty-cases t.pop_id) [
            | inl z ↦ inl (read_entry-broken t a z)
            | inr z ↦ inr (t, (a, z), refl, read_entry-print t a z)
          ])
  ]
]
  where
    empty-cases : (bs : List ℕ) → (bs ≡ []) ⊎ (0 < length bs)
    empty-cases [] = inl refl
    empty-cases (c ∷ cs) = inr (omega arith)
