-- ===== src/Gogoc/Echo/Chain/Remove.antt =====
-- gogoc/gogoc-tsp/src/net/icmp_echo_engine.c: `_remove_free_echo_event` on the linked list of events.
use maiccu.Base.{
  ℕ, zero, suc, ◌<◌, Bool, true, false, ◌||◌, List, [], ◌∷◌, Option, none, some, ◌≡◌, refl, subst,
  sym, ◌∙◌, arith, ◌==◌, if◌then◌else◌, length, Bool-cases, inl, inr,
}
use maiccu.Gogoc.Echo.{Event, remove_echo_event}
use maiccu.Gogoc.Echo.Chain.{
  Ptr, Memory, Store, write, set_next, ended, remove_loop, Cells, has, events, Chain, null, link,
  frame,
}

abbrev contains : ℕ → Cells → Bool
contains seq [] = false
contains seq ((p, v) ∷ xs) = (v.echo_seq == seq) || contains seq xs

-- The cells without the first one of this sequence.
abbrev without : ℕ → Cells → Cells
without seq [] = []
without seq ((p, v) ∷ xs) = if v.echo_seq == seq then xs else (p, v) ∷ without seq xs

has-without : (b seq : ℕ) (xs : Cells) → has b xs ≡ false → has b (without seq xs) ≡ false
has-without b seq [] h = refl
has-without b seq ((p, v) ∷ xs) h = ground (arith, has-without b seq xs)

events-without :
    (seq : ℕ) (xs : Cells)
    → remove_echo_event seq (events xs)
      ≡ (if contains seq xs then some (events (without seq xs)) else none)
unfolding remove_echo_event
events-without seq [] = refl
events-without seq ((p, v) ∷ xs) = ground (arith, events-without seq xs)

abbrev SameOutside : Cells → Memory → Memory → Type 0
SameOutside xs m m' = (b : ℕ) → has b xs ≡ false → m' b ≡ m b

module _ (st : Store) (seq : ℕ) where
  remove_loop-without :
      (fuel : ℕ) {prev : ℕ} {h : Ptr} {u : Event} {xs : Cells}
      → st.cell prev ≡ some (record { event = u; next = h })
      → has prev xs ≡ false
      → Chain st.cell h xs
      → length xs < fuel
      → (m : Memory) × (remove_loop fuel st (some prev) seq
          ≡ ended (record st { cell = m }) (contains seq xs))
        × SameOutside ((prev, u) ∷ xs) st.cell m
        × Chain m (some prev) ((prev, u) ∷ without seq xs)
  unfolding remove_loop
  remove_loop-without zero e out c lt = absurd (omega arith)
  remove_loop-without (suc fuel) {prev} e out null lt =
      (st.cell, rw (e, remove_loop) refl, λ b o. refl, link e refl null)
  remove_loop-without (suc fuel) {prev} {u = u} e out (link {p} {q} {v = w} {xs} e' out' c) lt =
      elim (Bool-cases (w.echo_seq == seq)) [
        | inl same ↦
            let m : Memory = write (set_next st.cell prev q) p none in
            (
              m,
              rw (e, e', same, remove_loop) refl,
              ground (arith, e),
              rw same (link (ground (arith, e)) (ground arith) (frame c (ground (arith, e)))),
            )
        | inr other ↦
            let (m, run, same, chain) = remove_loop-without fuel e' out' c (omega arith) in
            (
              m,
              rw (e, e', other, remove_loop) run,
              λ b o. same b (ground arith),
              rw other (link (same prev out ∙ e) (ground (arith, has-without prev seq xs)) chain),
            )
      ]

-- What the list holds after a removal, where the list function gives this; whether an event has been found.
abbrev pub Removal : Store → Bool → Cells → Option (List Event) → Type 0
Removal st found xs none = (found ≡ false) × Chain st.cell st.event_list xs
Removal st found xs (some l) =
    (found ≡ true) × (ys : Cells) × Chain st.cell st.event_list ys × (events ys ≡ l)

absent : (seq : ℕ) (xs : Cells) → contains seq xs ≡ false → without seq xs ≡ xs
absent seq [] h = refl
absent seq ((p, v) ∷ xs) h = ground (arith, absent seq xs)

removal :
    (st : Store) (seq : ℕ) (xs : Cells)
    → Chain st.cell st.event_list (without seq xs)
    → Removal st (contains seq xs) xs (remove_echo_event seq (events xs))
removal st seq xs c = elim (Bool-cases (contains seq xs)) [
  | inl found ↦
      subst (Removal st (contains seq xs) xs) (sym (events-without seq xs ∙ pick_true found))
        (found, without seq xs, c, refl)
  | inr never ↦
      subst (Removal st (contains seq xs) xs) (sym (events-without seq xs ∙ pick_false never))
        (never, subst (Chain st.cell st.event_list) (absent seq xs never) c)
]
  where
    pick_true :
        contains seq xs ≡ true
        → (if contains seq xs then some (events (without seq xs)) else none)
          ≡ some (events (without seq xs))
    pick_true e = rw e refl

    pick_false :
        contains seq xs ≡ false
        → (if contains seq xs then some (events (without seq xs)) else none) ≡ none
    pick_false e = rw e refl

remove_head :
    (m : Memory) (seq fuel : ℕ) {h : Ptr} {xs : Cells}
    → Chain m h xs
    → length xs < fuel
    → (st : Store) × (remove_loop fuel (record { cell = m; event_list = h }) none seq
        ≡ ended st (contains seq xs))
      × Chain st.cell st.event_list (without seq xs)
unfolding remove_loop
remove_head m seq zero c lt = absurd (omega arith)
remove_head m seq (suc fuel) null lt = (record { cell = m; event_list = none }, refl, null)
remove_head m seq (suc fuel) (link {p} {q} {v = w} {xs} e out c) lt =
    elim (Bool-cases (w.echo_seq == seq)) [
      | inl same ↦ (
        record { cell = write m p none; event_list = q },
        rw (e, same, remove_loop) refl,
        rw same (frame c (ground (arith, e))),
      )
      | inr other ↦
          let st : Store = record { cell = m; event_list = some p } in
          let (m', run, same, chain) = remove_loop-without st seq fuel e out c (omega arith) in
          (
            record { cell = m'; event_list = some p },
            rw (e, other, remove_loop) run,
            rw other chain,
          )
    ]

-- On a list that ends, of events at distinct addresses, `_remove_free_echo_event` ends and does what the list
-- function does: it takes out the first event of this sequence, or it leaves the list and reports that
-- there is none.
pub remove_loop-refines :
    (fuel : ℕ) (st : Store) (seq : ℕ) (xs : Cells)
    → Chain st.cell st.event_list xs
    → length xs < fuel
    → (st' : Store) × (found : Bool) × (remove_loop fuel st none seq ≡ ended st' found)
      × Removal st' found xs (remove_echo_event seq (events xs))
remove_loop-refines fuel st seq xs c lt =
    let (st', run, chain) = remove_head st.cell seq fuel c lt in
    (st', contains seq xs, run, removal st' seq xs chain)
