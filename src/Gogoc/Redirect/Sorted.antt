-- ===== src/Gogoc/Redirect/Sorted.antt =====
-- gogoc/gogoc-tsp/src/tsp/tsp_redirect.c: the list of brokers is sorted by distance.
use mathlib.Core.List.{Perm, perm_middle, append-nil}
use mathlib.Core.List.Perm
use maiccu.Base.{
  length, ap, ℕ, suc, ◌+◌, ◌≤◌, ◌≡◌, ◌≢◌, refl, subst, arith, Bool, true, not, List, [], ◌∷◌, ◌++◌,
  Option, none, some, ltb, Bool-cases, Option-cases, inl, inr, past, none-ne-some,
}
use maiccu.Gogoc.Redirect.{Broker, Status, ok, insert, insert_all, measured, sort_list}

-- No broker of the list is nearer than `d`.
abbrev pub IsFar : ℕ → List Broker → Type 0
IsFar d [] = Unit {0}
IsFar d (b ∷ bs) = (d ≤ b.distance) × IsFar d bs

abbrev pub IsSorted : List Broker → Type 0
IsSorted [] = Unit {0}
IsSorted (b ∷ bs) = IsFar b.distance bs × IsSorted bs

IsFar-le : (d e : ℕ) (bs : List Broker) → d ≤ e → IsFar e bs → IsFar d bs
IsFar-le d e [] h f = tt
IsFar-le d e (b ∷ bs) h f = (omega (arith, f.0), IsFar-le d e bs h f.1)

insert-IsFar :
    (d : ℕ) (b : Broker) (bs : List Broker) → d ≤ b.distance → IsFar d bs → IsFar d (insert b bs)
unfolding insert
insert-IsFar d b [] h f = (h, tt)
insert-IsFar d b (c ∷ cs) h f = elim (Bool-cases (ltb c.distance b.distance)) [
  | inl e ↦ rw e (f.0, insert-IsFar d b cs h f.1)
  | inr e ↦ rw e (h, (f.0, f.1))
]

insert-IsSorted : (b : Broker) (bs : List Broker) → IsSorted bs → IsSorted (insert b bs)
unfolding insert
insert-IsSorted b [] s = (tt, tt)
insert-IsSorted b (c ∷ cs) s = elim (Bool-cases (ltb c.distance b.distance)) [
  | inl e ↦ rw e (insert-IsFar c.distance b cs (ground (arith, e)) s.0, insert-IsSorted b cs s.1)
  | inr e ↦
      let h : b.distance ≤ c.distance = ground (arith, e) in
      rw e ((h, IsFar-le b.distance c.distance cs h s.0), (s.0, s.1))
]

insert-perm : (b : Broker) (bs : List Broker) → Perm (insert b bs) (b ∷ bs)
unfolding insert
insert-perm b [] = Perm.refl (b ∷ [])
insert-perm b (c ∷ cs) = elim (Bool-cases (ltb c.distance b.distance)) [
  | inl e ↦ rw e (Perm.trans (Perm.cons c (insert-perm b cs)) (Perm.swap b c cs))
  | inr e ↦ rw e (Perm.refl (b ∷ c ∷ cs))
]

insert_all-IsSorted :
    (memory : ℕ → Bool) (n : ℕ) (bs sorted : List Broker) {result : List Broker}
    → IsSorted sorted
    → insert_all memory n bs sorted ≡ some result
    → IsSorted result × Perm result (bs ++ sorted)
unfolding insert_all
insert_all-IsSorted memory n [] sorted {result} s h =
    let e : sorted ≡ result = cc in
    (subst IsSorted e s, subst (λ r. Perm r sorted) e (Perm.refl sorted))
insert_all-IsSorted memory n (b ∷ bs) sorted s h =
    let (t, p) =
      insert_all-IsSorted memory (suc n) bs (insert b sorted) (insert-IsSorted b sorted s)
        (past (not (memory n)) h none-ne-some).1 in
    (
      t,
      Perm.trans p
          (Perm.trans (Perm.append_left bs (insert-perm b sorted)) (perm_middle bs sorted)),
    )

-- With memory for the copies nothing fails.
insert_all_total :
    (memory : ℕ → Bool) (n : ℕ) (bs sorted : List Broker)
    → ((i : ℕ) → memory i ≡ true)
    → (result : List Broker) × (insert_all memory n bs sorted ≡ some result)
unfolding insert_all
insert_all_total memory n [] sorted m = (sorted, refl)
insert_all_total memory n (b ∷ bs) sorted m =
    let (result, e) = insert_all_total memory (suc n) bs (insert b sorted) m in (result, rw (m n) e)

-- A list that is sorted with success holds the same brokers, with the distances that were measured, the
-- nearest first.
pub sort_list-IsSorted :
    (memory : ℕ → Bool) (distances : List ℕ) (list : List Broker)
    → (sort_list memory (some distances) list).status ≡ ok
    → IsSorted (sort_list memory (some distances) list).list
      × Perm (sort_list memory (some distances) list).list (measured distances list)
unfolding sort_list
sort_list-IsSorted memory distances list h =
    elim (Option-cases (insert_all memory 0 (measured distances list) [])) [
      | inl e ↦ absurd (not_ok (rw (e, sort_list) at h))
      | inr (r, e) ↦
          let (s, p) = insert_all-IsSorted memory 0 (measured distances list) [] tt e in
          rw (e, sort_list) (s, rw (append-nil (measured distances list)) at p)
    ]
  where
    not_ok : Status.cant_allocate_mem ≢ ok
    not_ok g = cc

sort_list_total :
    (memory : ℕ → Bool) (distances : List ℕ) (list : List Broker)
    → ((i : ℕ) → memory i ≡ true)
    → (sort_list memory (some distances) list).status ≡ ok
unfolding sort_list
sort_list_total memory distances list m =
    let (r, e) = insert_all_total memory 0 (measured distances list) [] m in rw (e, sort_list)

length-insert : (b : Broker) (bs : List Broker) → length (insert b bs) ≡ suc (length bs)
unfolding insert
length-insert b [] = refl
length-insert b (c ∷ cs) = ground (arith, length-insert b cs)

length-insert_all :
    (memory : ℕ → Bool) (n : ℕ) (bs sorted : List Broker) {result : List Broker}
    → insert_all memory n bs sorted ≡ some result
    → length result ≡ length bs + length sorted
unfolding insert_all
length-insert_all memory n [] sorted {result} h =
    let e : result ≡ sorted = cc in omega (arith, ap length e)
length-insert_all memory n (b ∷ bs) sorted h = omega (
  arith,
  length-insert_all memory (suc n) bs (insert b sorted) (past (not (memory n)) h none-ne-some).1,
  length-insert b sorted,
)

length-measured : (ds : List ℕ) (bs : List Broker) → length (measured ds bs) ≡ length bs
unfolding measured
length-measured [] bs = refl
length-measured (d ∷ ds) [] = refl
length-measured (d ∷ ds) (b ∷ bs) = ap suc (length-measured ds bs)

pub length-sort_list :
    (memory : ℕ → Bool) (distances : Option (List ℕ)) (list : List Broker)
    → length (sort_list memory distances list).list ≡ length list
unfolding sort_list
length-sort_list memory none list = refl
length-sort_list memory (some ds) list =
    elim (Option-cases (insert_all memory 0 (measured ds list) [])) [
      | inl e ↦ rw (e, sort_list) (length-measured ds list)
      | inr (r, e) ↦
          rw (e, sort_list)
            (omega
              (arith, length-insert_all memory 0 (measured ds list) [] e, length-measured ds list))
    ]

pub IsSorted-short : (bs : List Broker) → length bs ≤ 1 → IsSorted bs
IsSorted-short [] h = tt
IsSorted-short (b ∷ []) h = (tt, tt)
IsSorted-short (b ∷ c ∷ bs) h = absurd (omega arith)
