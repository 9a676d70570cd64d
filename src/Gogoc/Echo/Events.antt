-- ===== src/Gogoc/Echo/Events.antt =====
-- gogoc/gogoc-tsp/src/net/icmp_echo_engine.c: what an insertion into the event list and a removal from it do.
use maiccu.Base.{
  ℕ, ◌<◌, List, [], ◌∷◌, some, ◌==◌, ltb, ◌≡◌, Bool-cases, Option-cases, inl, inr, ltb→lt, ==_iff,
  subst,
}
use maiccu.Gogoc.Echo.{micro, Event, insert_echo_event, remove_echo_event}

-- The event is put behind the others, which are all due before it.
pub data Inserted (v : Event) : List Event → List Event → Type 0 where
  last : Inserted v [] (v ∷ [])
  later :
      {l l' : List Event} (w : Event)
      → micro w.tv_timeout < micro v.tv_timeout
      → Inserted v l l'
      → Inserted v (w ∷ l) (w ∷ l')

-- The first event of this sequence is taken out.
pub data Removed (seq : ℕ) : List Event → List Event → Type 0 where
  hit : (w : Event) (ws : List Event) → w.echo_seq ≡ seq → Removed seq (w ∷ ws) ws
  miss : {l l' : List Event} (w : Event) → Removed seq l l' → Removed seq (w ∷ l) (w ∷ l')

pub insert-Inserted :
    (v : Event) (l l' : List Event) → insert_echo_event v l ≡ some l' → Inserted v l l'
unfolding insert_echo_event
insert-Inserted v [] l' e = subst (λ r. Inserted v [] r) (cc) last
insert-Inserted v (w ∷ ws) l' e =
    elim (Bool-cases (ltb (micro w.tv_timeout) (micro v.tv_timeout))) [
      | inr no_later ↦ absurd (cc (rw no_later at e))
      | inl yes_later ↦ elim (Option-cases (insert_echo_event v ws)) [
        | inl never ↦ absurd (cc (rw (yes_later, never) at e))
        | inr (r, found) ↦
            subst (λ r'. Inserted v (w ∷ ws) r') (cc (rw (yes_later, found) at e))
              (later w (ltb→lt _ _ yes_later) (insert-Inserted v ws r found))
      ]
    ]

pub remove-Removed :
    (seq : ℕ) (l l' : List Event) → remove_echo_event seq l ≡ some l' → Removed seq l l'
unfolding remove_echo_event
remove-Removed seq [] l' e = absurd (cc)
remove-Removed seq (w ∷ ws) l' e = elim (Bool-cases (w.echo_seq == seq)) [
  | inl same ↦
      subst (λ r. Removed seq (w ∷ ws) r) (cc (rw same at e)) (hit w ws ((==_iff _ _).0 same))
  | inr other ↦ elim (Option-cases (remove_echo_event seq ws)) [
    | inl never ↦ absurd (cc (rw (other, never) at e))
    | inr (r, found) ↦
        subst (λ r'. Removed seq (w ∷ ws) r') (cc (rw (other, found) at e))
          (miss w (remove-Removed seq ws r found))
  ]
]
