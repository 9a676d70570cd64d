-- ===== src/Gogoc/Echo/Chain/Insert.antt =====
-- gogoc/gogoc-tsp/src/net/icmp_echo_engine.c: `_insert_echo_event` on the linked list of events.
use maiccu.Base.{
  ℕ, zero, suc, ◌<◌, true, false, List, [], ◌∷◌, ◌++◌, Option, none, some, ◌≡◌, ◌≢◌, refl, ap, sym,
  ◌∙◌, arith, ◌==◌, ltb, length, Bool-cases, inl, inr,
}
use maiccu.Gogoc.Echo.{micro, Event, insert_echo_event}
use maiccu.Gogoc.Echo.Chain.{
  Ptr, Cell, Memory, Store, write, set_next, ended, insert_loop, follow, Cells, has, events, Chain,
  null, link,
}

-- What the list from the pointer `h` on is after an insertion of the event `v` at the address `a`, where the list
-- function gives this.
abbrev pub Insertion : Memory → Ptr → Cells → ℕ → Event → Option (List Event) → Type 0
Insertion m h xs a v none = (n : ℕ) → follow n m h ≢ none
Insertion m h xs a v (some l) = Chain m h (xs ++ (a, v) ∷ []) × (events (xs ++ (a, v) ∷ []) ≡ l)

-- Only these cells and that at the address `a` have changed.
abbrev SameOutside : Cells → ℕ → Memory → Memory → Type 0
SameOutside xs a m m' = (b : ℕ) → has b xs ≡ false → (b == a) ≡ false → m' b ≡ m b

follow_step :
    (n : ℕ) (m : Memory) (p : ℕ) (c : Cell)
    → m p ≡ some c
    → follow (suc n) m (some p) ≡ follow n m c.next
unfolding follow
follow_step n m p c e = rw (e, follow)

-- Two cells that point to each other: the pointers never end.
cycle :
    (m : Memory) (p a : ℕ) (c d : Cell)
    → m p ≡ some c
    → c.next ≡ some a
    → m a ≡ some d
    → d.next ≡ some p
    → (n : ℕ) → (follow n m (some p) ≢ none) × (follow n m (some a) ≢ none)
unfolding follow
cycle m p a c d ep ec ea ed zero = ((λ e. cc), (λ e. cc))
cycle m p a c d ep ec ea ed (suc n) =
    let ih = cycle m p a c d ep ec ea ed n in
    (
      rw (follow_step n m p c ep ∙ ap (follow n m) ec) ih.1,
      rw (follow_step n m a d ea ∙ ap (follow n m) ed) ih.0,
    )

has-append :
    (b : ℕ) (xs : Cells) (a : ℕ) (v : Event)
    → has b xs ≡ false
    → (b == a) ≡ false
    → has b (xs ++ (a, v) ∷ []) ≡ false
has-append b [] a v h k = ground arith
has-append b ((p, w) ∷ xs) a v h k = ground (arith, has-append b xs a v)

behind :
    (m : Memory) (p : ℕ) (c : Cell)
    → m p ≡ some c
    → ((n : ℕ) → follow n m c.next ≢ none)
    → (n : ℕ) → follow n m (some p) ≢ none
unfolding follow
behind m p c e h zero = λ k. cc
behind m p c e h (suc n) = λ k. h n (sym (follow_step n m p c e) ∙ k)

-- An insertion behind a cell is one behind the cell before it.
linked :
    (a : ℕ) (v : Event) (m : Memory) (prev : ℕ) (u : Event) (p : ℕ) (w : Event) (xs : Cells)
    → m prev ≡ some (record { event = u; next = some p })
    → has prev ((p, w) ∷ xs) ≡ false
    → (prev == a) ≡ false
    → (o : Option (List Event))
    → Insertion m (some p) ((p, w) ∷ xs) a v (elim o [ none ↦ none | some l ↦ some (w ∷ l) ])
    → Insertion m
        (some prev)
        ((prev, u) ∷ (p, w) ∷ xs)
        a
        v
        (elim (elim o as (λ o'. Option (List Event)) [ none ↦ none | some l ↦ some (w ∷ l) ]) [
          | none ↦ none
          | some l ↦ some (u ∷ l)
        ])
linked a v m prev u p w xs e out far none endless = behind m prev _ e endless
linked a v m prev u p w xs e out far (some l) (c, same) =
    (link e (has-append prev ((p, w) ∷ xs) a v out far) c, ap (λ r. u ∷ r) same)

module _ (st : Store) (a : ℕ) (v : Event) (fresh : st.cell a ≡ none) where
  insert_loop-Insertion :
      (fuel : ℕ) {prev : ℕ} {h : Ptr} {u : Event} {xs : Cells}
      → st.cell prev ≡ some (record { event = u; next = h })
      → has prev xs ≡ false
      → Chain st.cell h xs
      → length xs < fuel
      → (m : Memory) × (insert_loop fuel st (some prev) a v ≡ ended (record st { cell = m }) true)
        × SameOutside ((prev, u) ∷ xs) a st.cell m
        × Insertion m
            (some prev)
            ((prev, u) ∷ xs)
            a
            v
            (elim (insert_echo_event v (events xs)) [ none ↦ none | some l ↦ some (u ∷ l) ])
  unfolding insert_loop insert_echo_event
  insert_loop-Insertion zero e out c lt = absurd (omega arith)
  insert_loop-Insertion (suc fuel) {prev} {u = u} e out null lt =
      let m : Memory =
        write (set_next st.cell prev (some a)) a (some (record { event = v; next = none })) in
      (
        m,
        rw (e, insert_loop) refl,
        ground (arith, e),
        (link {v = u} (ground (arith, e)) (ground arith) (link (ground arith) refl null), refl),
      )
  insert_loop-Insertion (suc fuel) {prev} {u = u} e out (link {p} {q} {v = w} {xs} e' out' c) lt =
      elim (Bool-cases (ltb (micro w.tv_timeout) (micro v.tv_timeout))) [
        | inr sooner ↦
            let m : Memory =
              set_next (write st.cell a (some (record { event = v; next = some p }))) p (some a) in
            let before : m prev ≡ some (record { event = u; next = some p }) = ground (arith, e) in
            let here : m p ≡ some (record { event = w; next = some a }) = ground (arith, e') in
            let there : m a ≡ some (record { event = v; next = some p }) = ground (arith, e') in
            (
              m,
              rw (e, e', sooner, insert_loop) refl,
              ground (arith, e'),
              rw sooner (behind m prev _ before (λ n. (cycle m p a _ _ here refl there refl n).0)),
            )
        | inl later ↦
            let (m, run, same, inserted) = insert_loop-Insertion fuel e' out' c (omega arith) in
            let before : m prev ≡ some (record { event = u; next = some p }) =
              same prev out (ground (arith, e)) ∙ e in
            (
              m,
              rw (e, e', later, insert_loop) run,
              ground (arith, same),
              rw later (
                  linked a v m prev u p w xs before out (ground (arith, e))
                    (insert_echo_event v (events xs)) inserted),
            )
      ]

insert_head :
    (m : Memory) (a : ℕ) (v : Event) (fuel : ℕ) {h : Ptr} {xs : Cells}
    → m a ≡ none
    → Chain m h xs
    → length xs < fuel
    → (st : Store) × (insert_loop fuel (record { cell = m; event_list = h }) none a v
        ≡ ended st true)
      × Insertion st.cell st.event_list xs a v (insert_echo_event v (events xs))
unfolding insert_loop insert_echo_event
insert_head m a v zero fresh c lt = absurd (omega arith)
insert_head m a v (suc fuel) fresh null lt = (
  record { cell = write m a (some (record { event = v; next = none })); event_list = some a },
  refl,
  (link (ground arith) refl null, refl),
)
insert_head m a v (suc fuel) fresh (link {p} {q} {v = w} {xs} e out c) lt =
    elim (Bool-cases (ltb (micro w.tv_timeout) (micro v.tv_timeout))) [
      | inr sooner ↦
          let m' : Memory =
            set_next (write m a (some (record { event = v; next = some p }))) p (some a) in
          let here : m' p ≡ some (record { event = w; next = some a }) = ground (arith, e) in
          let there : m' a ≡ some (record { event = v; next = some p }) = ground (arith, e) in
          (
            record { cell = m'; event_list = some p },
            rw (e, sooner, insert_loop) refl,
            rw sooner (λ n. (cycle m' p a _ _ here refl there refl n).0),
          )
      | inl later ↦
          let st : Store = record { cell = m; event_list = some p } in
          let (m', run, same, inserted) =
            insert_loop-Insertion st a v fresh fuel e out c (omega arith) in
          (
            record { cell = m'; event_list = some p },
            rw (e, later, insert_loop) run,
            rw later inserted,
          )
    ]

-- On a list that ends, of events at distinct addresses, with an event at a free address, `_insert_echo_event` does
-- what the list function does: behind events that are all due before it the new event becomes the
-- last one. If an event of the list is not due before it, the list does not end any more: from its head
-- the pointers never lead to NULL.
pub insert_loop-refines :
    (fuel : ℕ) (st : Store) (a : ℕ) (v : Event) (xs : Cells)
    → st.cell a ≡ none
    → Chain st.cell st.event_list xs
    → length xs < fuel
    → (st' : Store) × (insert_loop fuel st none a v ≡ ended st' true)
      × Insertion st'.cell st'.event_list xs a v (insert_echo_event v (events xs))
insert_loop-refines fuel st a v xs fresh c lt = insert_head st.cell a v fuel fresh c lt
