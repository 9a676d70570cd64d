-- ===== src/Gogoc/Echo/Chain.antt =====
-- gogoc/gogoc-tsp/src/net/icmp_echo_engine.c: the linked list of echo events, as `_insert_echo_event` and
-- `_remove_free_echo_event` change it. A pointer is an address, or nothing for NULL.
pub mod Insert
pub mod Remove
use maiccu.Base.{
  ℕ, zero, suc, Bool, true, false, ◌||◌, List, [], ◌∷◌, map, Option, none, some, ◌≡◌, refl, arith,
  ◌==◌, ltb, if◌then◌else◌,
}
use maiccu.Gogoc.Echo.{micro, Event}

abbrev pub Ptr : Type 0
Ptr = Option ℕ

-- `ECHO_EVENT`
pub record Cell : Type 0 where
  pub event : Event
  pub next : Ptr

abbrev pub Memory : Type 0
Memory = ℕ → Option Cell

-- The memory with the engine's pointer to its first event.
pub record Store : Type 0 where
  pub cell : Memory
  pub event_list : Ptr

abbrev pub write : Memory → ℕ → Option Cell → Memory
write m p c a = if a == p then c else m a

-- A pointer to a pointer: to `event_list` for nothing, or to the field `next` at this address.
abbrev pub read_slot : Store → Ptr → Ptr
read_slot st none = st.event_list
read_slot st (some p) = elim (st.cell p) [ none ↦ none | some c ↦ c.next ]

abbrev pub set_next : Memory → ℕ → Ptr → Memory
set_next m p q = elim (m p) [ none ↦ m | some c ↦ write m p (some (record c { next = q })) ]

abbrev pub write_slot : Store → Ptr → Ptr → Store
write_slot st none q = record st { event_list = q }
write_slot st (some p) q = record st { cell = set_next st.cell p q }

-- A loop on the list: it ends, with whether it has found an event; it meets a freed event; or it has gone on for
-- so many events.
pub data Walk : Type 0 where
  ended : Store → Bool → Walk
  dangling out_of_fuel : Walk

-- The loop of `_insert_echo_event`, with the new event, at the address `a`, in the memory.
unfoldable pub insert_loop : ℕ → Store → Ptr → ℕ → Event → Walk
insert_loop zero st slot a v = out_of_fuel
insert_loop (suc fuel) st slot a v = elim (read_slot st slot) [
  | none ↦
      ended
        (record (write_slot st slot (some a)) {
          cell =
              write (write_slot st slot (some a)).cell a (some (record { event = v; next = none }));
        })
        true
  | some p ↦ elim (st.cell p) [
    | none ↦ dangling
    | some c ↦
        let later = insert_loop fuel st (some p) a v in
        let linked = write st.cell a (some (record { event = v; next = some p })) in
        if ltb (micro c.event.tv_timeout) (micro v.tv_timeout)
        then later
        else ended (record st { cell = set_next linked p (some a) }) true
  ]
]

-- The loop of `_remove_free_echo_event`.
unfoldable pub remove_loop : ℕ → Store → Ptr → ℕ → Walk
remove_loop zero st slot seq = out_of_fuel
remove_loop (suc fuel) st slot seq = elim (read_slot st slot) [
  | none ↦ ended st false
  | some p ↦ elim (st.cell p) [
    | none ↦ dangling
    | some c ↦
        let rest = remove_loop fuel st (some p) seq in
        let unlinked = write_slot st slot c.next in
        if c.event.echo_seq == seq
        then ended (record unlinked { cell = write unlinked.cell p none }) true
        else rest
  ]
]

-- Where the pointers lead in so many steps.
unfoldable pub follow : ℕ → Memory → Ptr → Ptr
follow n m none = none
follow zero m (some p) = some p
follow (suc n) m (some p) = elim (m p) [ none ↦ none | some c ↦ follow n m c.next ]

-- The addresses and events of a list.
abbrev pub Cells : Type 0
Cells = List (ℕ × Event)

abbrev pub has : ℕ → Cells → Bool
has a [] = false
has a ((p, v) ∷ xs) = (a == p) || has a xs

abbrev pub events : Cells → List Event
events [] = []
events ((p, v) ∷ xs) = v ∷ events xs

-- From this pointer the memory holds these events at distinct addresses, up to a null pointer.
pub data Chain (m : Memory) : Ptr → Cells → Type 0 where
  null : Chain m none []
  link :
      {p : ℕ} {q : Ptr} {v : Event} {xs : Cells}
      → m p ≡ some (record { event = v; next = q })
      → has p xs ≡ false
      → Chain m q xs
      → Chain m (some p) ((p, v) ∷ xs)

-- A list does not change where the memory at its addresses does not.
pub frame :
    {m m' : Memory} {h : Ptr} {xs : Cells}
    → Chain m h xs
    → ((a : ℕ) → has a xs ≡ true → m' a ≡ m a)
    → Chain m' h xs
frame null same = null
frame (link {p} e out c) same =
    link (ground (arith, same p)) out (frame c (λ a i. same a (ground arith)))

pub not-mem_of_none :
    {m : Memory} {h : Ptr} {xs : Cells} (a : ℕ) → Chain m h xs → m a ≡ none → has a xs ≡ false
not-mem_of_none a null unused = refl
not-mem_of_none a (link e out c) unused = ground (arith, not-mem_of_none a c unused)
