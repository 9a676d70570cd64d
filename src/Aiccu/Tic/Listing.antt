-- ===== src/Aiccu/Tic/Listing.antt =====
-- aiccu/tic.c: `tic_ListTunnels` reads a list of tunnels, and nothing else.
use mathlib.Core.List.{map}
use maiccu.Base.{
  ℕ, suc, ◌≤◌, ◌≡◌, refl, ap, ap₂, sym, subst, ◌∙◌, Bool, true, false, not, List, [], ◌∷◌, ◌++◌,
  length, Bool-cases, inl, inr, append_assoc, append-nil, Option, none, some, if_past,
}
use maiccu.Aiccu.Tic.Tunnels.{
  ListedTunnel, buf2_size, Listing, listed, no_list, stuck, fault, is_code, collect, list_tunnels,
}
use maiccu.Aiccu.Tic.Fields.{print_entry}
use maiccu.Aiccu.Tic.Entries.{IsListed, read_entry-cases, read_entry-print}

-- Every line fits into a field.
abbrev pub AllShort : List (Option (List ℕ)) → Type 0
AllShort [] = Unit {0}
AllShort (none ∷ replies) = AllShort replies
AllShort (some line ∷ replies) = (length line ≤ buf2_size) × AllShort replies

abbrev pub AllListed : List ListedTunnel → Type 0
AllListed [] = Unit {0}
AllListed (t ∷ ts) = IsListed t × AllListed ts

-- The lines of tunnels.
abbrev pub entry_lines : List ListedTunnel → List (Option (List ℕ))
entry_lines = map (λ t. some (print_entry t))

-- The replies are the lines of the new tunnels, the end of the list and the rest.
abbrev IsCollected : List ListedTunnel → List (Option (List ℕ)) → Listing → Type 0
IsCollected old replies (listed ts rest) =
    (new : List ListedTunnel) × (last : List ℕ) × AllListed new
    × (ts ≡ old ++ new)
    × (replies ≡ entry_lines new ++ (some last ∷ rest))
    × (is_code b'2' last ≡ true)
IsCollected old replies no_list = Unit {0}
IsCollected old replies stuck = Unit {0}
IsCollected old replies fault = ⊥

-- One line more.
collected :
    (old : List ListedTunnel) (t : ListedTunnel) (line : List ℕ) (replies : List (Option (List ℕ)))
    (l : Listing)
    → IsListed t
    → line ≡ print_entry t
    → IsCollected (old ++ (t ∷ [])) replies l
    → IsCollected old (some line ∷ replies) l
collected old t line replies (listed ts rest) a p (new, last, b, q, r, c) =
    (t ∷ new, last, (a, b), q ∙ append_assoc old (t ∷ []) new, ap₂ (λ x y. some x ∷ y) p r, c)
collected old t line replies no_list a p h = h
collected old t line replies stuck a p h = h
collected old t line replies fault a p h = h

collect-IsCollected :
    (memory : ℕ → Bool) (n : ℕ) (old : List ListedTunnel) (replies : List (Option (List ℕ)))
    → AllShort replies
    → IsCollected old replies (collect memory n old replies)
unfolding collect
collect-IsCollected memory n old [] s = tt
collect-IsCollected memory n old (none ∷ replies) s = tt
collect-IsCollected memory n old (some line ∷ replies) s = elim (Bool-cases (is_code b'2' line)) [
  | inl e ↦ rw (e, collect) ([], line, tt, sym (append-nil old), refl, e)
  | inr e ↦ elim (read_entry-cases (memory n) line (s.0)) [
    | inl b ↦ rw (e, b, collect) tt
    | inr (t, a, p, b) ↦
        rw (e, b, collect)
          (collected old t line replies _ a p
            (collect-IsCollected memory (suc n) (old ++ (t ∷ [])) replies (s.1)))
  ]
]

-- What a list of tunnels was made of.
abbrev pub IsListing : List (Option (List ℕ)) → Listing → Type 0
IsListing replies (listed ts rest) =
    (first last : List ℕ) × AllListed ts
    × (replies ≡ some first ∷ (entry_lines ts ++ (some last ∷ rest)))
    × (is_code b'1' first ≡ true)
    × (is_code b'2' last ≡ true)
IsListing replies no_list = Unit {0}
IsListing replies stuck = Unit {0}
IsListing replies fault = ⊥

listing :
    (first : List ℕ) (replies : List (Option (List ℕ))) (l : Listing)
    → is_code b'1' first ≡ true
    → IsCollected [] replies l
    → IsListing (some first ∷ replies) l
listing first replies (listed ts rest) e (new, last, a, p, q, c) = (
  first,
  last,
  subst AllListed (sym p) a,
  ap (◌∷◌ (some first)) (q ∙ ap (λ x. entry_lines x ++ (some last ∷ rest)) (sym p)),
  e,
  c,
)
listing first replies no_list e h = h
listing first replies stuck e h = h
listing first replies fault e h = h

-- Of replies of at most 1024 bytes: `tic_ListTunnels` never reads behind a line, and a list that it returns
-- was sent as such, between the codes 201 and 202, with a line of four fields for each tunnel in this order.
pub list_tunnels-IsListing :
    (memory : ℕ → Bool) (replies : List (Option (List ℕ)))
    → AllShort replies
    → IsListing replies (list_tunnels memory replies)
unfolding list_tunnels
list_tunnels-IsListing memory [] s = tt
list_tunnels-IsListing memory (none ∷ replies) s = tt
list_tunnels-IsListing memory (some line ∷ replies) s = elim (Bool-cases (is_code b'1' line)) [
  | inl e ↦ rw e (listing line replies _ e (collect-IsCollected memory 0 [] replies (s.1)))
  | inr e ↦ rw e tt
]

-- No line of a tunnel is taken for the end of the list.
abbrev pub NoneEnds : List ListedTunnel → Type 0
NoneEnds [] = Unit {0}
NoneEnds (t ∷ ts) = (is_code b'2' (print_entry t) ≡ false) × NoneEnds ts

collect-lines :
    (memory : ℕ → Bool) (n : ℕ) (old ts : List ListedTunnel) (last : List ℕ)
    (rest : List (Option (List ℕ)))
    → ((i : ℕ) → memory i ≡ true)
    → AllListed ts
    → NoneEnds ts
    → is_code b'2' last ≡ true
    → collect memory n old (entry_lines ts ++ (some last ∷ rest)) ≡ listed (old ++ ts) rest
unfolding collect
collect-lines memory n old [] last rest m a e c =
    rw (c, collect) (ap (λ x. listed x rest) (sym (append-nil old)))
collect-lines memory n old (t ∷ ts) last rest m a e c =
    rw (e.0, m n, read_entry-print t (a.0.0) (a.0.1), collect)
      (collect-lines memory (suc n) (old ++ (t ∷ [])) ts last rest m (a.1) (e.1) c
        ∙ ap (λ x. listed x rest) (append_assoc old (t ∷ []) ts))

-- If memory can be allocated, a list of tunnels that a server sends line by line is read as it is, unless the
-- line of a tunnel begins like the end of the list.
pub list_tunnels-lines :
    (memory : ℕ → Bool) (ts : List ListedTunnel) (first last : List ℕ)
    (rest : List (Option (List ℕ)))
    → ((i : ℕ) → memory i ≡ true)
    → AllListed ts
    → NoneEnds ts
    → is_code b'1' first ≡ true
    → is_code b'2' last ≡ true
    → list_tunnels memory (some first ∷ (entry_lines ts ++ (some last ∷ rest))) ≡ listed ts rest
unfolding list_tunnels
list_tunnels-lines memory ts first last rest m a e b c =
    if_past _ _ (ap not b) (collect-lines memory 0 [] ts last rest m a e c)
