-- ===== src/Gogoc/Redirect/Create.antt =====
-- gogoc/gogoc-tsp/src/tsp/tsp_redirect.c: which brokers a redirection message gives.
use mathlib.Core.List.{map, map-append}
use mathlib.Core.Bool.{false≢true}
use maiccu.Base.{
  ℕ, ◌≤◌, ◌<◌, ◌≡◌, refl, sym, ◌∙◌, subst, arith, Bool, true, List, [], ◌∷◌, ◌++◌, Option, none,
  some, ltb, length, Bool-cases, inl, inr, append_assoc, append-nil, length-append,
}
use maiccu.Gogoc.Redirect.{
  Broker, Status, ok, AddressType, ipv4, ipv6, fqdn, max_brokers, is_ok, add_broker, add_all,
  create_list,
}

-- A broker as the message names it.
abbrev pub entry : Broker → Option (List ℕ) × AddressType
entry b = (some b.address, b.address_type)

abbrev pub entries : AddressType → List (Option (List ℕ)) → List (Option (List ℕ) × AddressType)
entries kind = map (λ a. (a, kind))

is_ok-eq : (s : Status) → is_ok s ≡ true → s ≡ ok
unfolding is_ok
is_ok-eq s h = ground (arith, h)

-- A broker that is added stands last.
add_broker-entry :
    (memory : Bool) (list : List Broker) (address : Option (List ℕ)) (kind : AddressType)
    → is_ok (add_broker memory list address kind).status ≡ true
    → (b : Broker) × ((add_broker memory list address kind).list ≡ list ++ (b ∷ []))
      × (entry b ≡ (address, kind))
unfolding add_broker is_ok
add_broker-entry memory list none kind h = absurd (false≢true h)
add_broker-entry memory list (some a) kind h =
    (record { address = a; distance = 0; address_type = kind }, ground (arith, h), refl)

-- A loop that succeeds adds all its addresses, in their order, up to the maximum.
abbrev Adds : List Broker → AddressType → List (Option (List ℕ)) → List Broker → Type 0
Adds list kind addresses result =
    (map entry result ≡ map entry list ++ entries kind addresses)
    × (length list ≤ max_brokers → length result ≤ max_brokers)

Adds-step :
    (list : List Broker) (kind : AddressType) (a : Option (List ℕ)) (as_ : List (Option (List ℕ)))
    (b : Broker) (result : List Broker)
    → entry b ≡ (a, kind)
    → length list < max_brokers
    → Adds (list ++ (b ∷ [])) kind as_ result
    → Adds list kind (a ∷ as_) result
Adds-step list kind a as_ b result e l (m, n) = (
  m
      ∙ rw (map-append entry list (b ∷ []))
          (rw e (append_assoc (map entry list) ((a, kind) ∷ []) (entries kind as_))),
  λ _. n (omega (arith, length-append list (b ∷ []))),
)

add_all-Adds :
    (memory : ℕ → Bool) (kind : AddressType) (addresses : List (Option (List ℕ)))
    (list : List Broker)
    → is_ok (add_all memory kind addresses list).status ≡ true
    → Adds list kind addresses (add_all memory kind addresses list).list
unfolding add_all
add_all-Adds memory kind [] list h = (sym (append-nil (map entry list)), λ l. l)
add_all-Adds memory kind (a ∷ as_) list h =
    let added = add_broker (memory (length list)) list a kind in
    elim (Bool-cases (ltb (length list) max_brokers)) [
      | inr e ↦ absurd (false≢true (rw (e, is_ok) at h))
      | inl e ↦ elim (Bool-cases (is_ok added.status)) [
        | inr g ↦ absurd (false≢true (rw (e, g, is_ok) at h))
        | inl g ↦
            let (b, l, n) = add_broker-entry (memory (length list)) list a kind g in
            let rest = rw (e, g) at h in
            rw (e, g)
              (Adds-step list kind a as_ b _ n (ground (arith, e)) (
                subst (λ x. Adds x kind as_ (add_all memory kind as_ added.list).list) l
                  (add_all-Adds memory kind as_ added.list rest)))
      ]
    ]

-- The brokers that a message names, in its order.
abbrev pub named :
    List (Option (List ℕ))
    → List (Option (List ℕ))
    → List (Option (List ℕ))
    → List (Option (List ℕ) × AddressType)
named v4 v6 names = entries ipv4 v4 ++ (entries ipv6 v6 ++ entries fqdn names)

-- A list that was created holds the brokers of the message in its order, fifty at most.
pub create_list-named :
    (memory : ℕ → Bool) (v4 v6 names : List (Option (List ℕ)))
    → is_ok (create_list memory v4 v6 names).status ≡ true
    → (map entry (create_list memory v4 v6 names).list ≡ named v4 v6 names)
      × (length (create_list memory v4 v6 names).list ≤ max_brokers)
unfolding create_list
create_list-named memory v4 v6 names h =
    let first = add_all memory ipv4 v4 [] in
    let second = add_all memory ipv6 v6 first.list in
    elim (Bool-cases (is_ok first.status)) [
      | inr e ↦ absurd (false≢true (sym e ∙ rw e at h))
      | inl e ↦ elim (Bool-cases (is_ok second.status)) [
        | inr g ↦ absurd (false≢true (sym g ∙ rw (e, g) at h))
        | inl g ↦
            let (m, k) = add_all-Adds memory ipv4 v4 [] e in
            let (n, l) = add_all-Adds memory ipv6 v6 first.list g in
            let (o, q) = add_all-Adds memory fqdn names second.list (rw (e, g) at h) in
            rw (e, g)
              (
                o
                    ∙ rw (n, m)
                        (append_assoc (entries ipv4 v4) (entries ipv6 v6) (entries fqdn names)),
                q (l (k (omega arith))),
              )
      ]
    ]
