-- ===== src/Gogoc/Redirect/Handle.antt =====
-- gogoc/gogoc-tsp/src/tsp/tsp_redirect.c: what `tspHandleRedirect` hands to the client.
use mathlib.Core.List.{Perm, map}
use mathlib.Core.List.Perm
use mathlib.Core.Bool.{false≢true}
use maiccu.Base.{
  ℕ, ◌≤◌, ◌<◌, ◌≡◌, ◌≢◌, refl, sym, ap, subst, arith, Bool, true, false, List, [], ◌∷◌, Option,
  none, some, ltb, ◌==◌, length, Bool-cases, ltb→lt, inl, inr,
}
use maiccu.Gogoc.Redirect.{
  Broker, Status, ok, Redirection, max_brokers, is_ok, create_list, measured, sort_list,
  handle_redirect, cant_create_list, cant_sort_list, empty_broker_list,
}
use maiccu.Gogoc.Redirect.Create.{entry, named, create_list-named}
use maiccu.Gogoc.Redirect.Sorted.{IsSorted, IsSorted-short, sort_list-IsSorted, length-sort_list}

-- The measurement changes distances only.
entry-measured : (ds : List ℕ) (bs : List Broker) → map entry (measured ds bs) ≡ map entry bs
unfolding measured
entry-measured [] bs = refl
entry-measured (d ∷ ds) [] = refl
entry-measured (d ∷ ds) (b ∷ bs) = ap (◌∷◌ (entry b)) (entry-measured ds bs)

pub is_ok_lem : (s : Status) → is_ok s ≡ true → s ≡ ok
unfolding is_ok
is_ok_lem s h = ground (arith, h)

-- What a client can rely on.
abbrev pub Usable : Redirection → List Broker → Type 0
Usable r list =
    IsSorted list
    × Perm (map entry list)
        (named r.broker_redirect_ipv4 r.broker_redirect_ipv6 r.broker_redirect_dn)
    × (0 < length list)
    × (length list ≤ max_brokers)

sorted-Usable :
    (copies : ℕ → Bool) (distances : Option (List ℕ)) (r : Redirection) (list : List Broker)
    → is_ok (sort_list copies distances list).status ≡ true
    → map entry list ≡ named r.broker_redirect_ipv4 r.broker_redirect_ipv6 r.broker_redirect_dn
    → length list ≤ max_brokers
    → 1 < length list
    → Usable r (sort_list copies distances list).list
unfolding is_ok sort_list
sorted-Usable copies none r list h m l p = absurd (false≢true h)
sorted-Usable copies (some ds) r list h m l p =
    let (s, q) = sort_list-IsSorted copies ds list (is_ok_lem _ h) in
    let n = length-sort_list copies (some ds) list in
    (s, rw (sym m) (rw (sym (entry-measured ds list)) (Perm.map entry q)), omega arith, omega arith)

-- One broker needs no sorting.
created-Usable :
    (r : Redirection) (list : List Broker)
    → map entry list ≡ named r.broker_redirect_ipv4 r.broker_redirect_ipv6 r.broker_redirect_dn
    → length list ≤ max_brokers
    → ltb 1 (length list) ≡ false
    → (length list == 0) ≡ false
    → Usable r list
created-Usable r list m l k z = (
  IsSorted-short list (ground (arith, k)),
  subst (λ x. Perm (map entry list) x) m (Perm.refl (map entry list)),
  ground (arith, z),
  l,
)

cant_create_list-ne-ok : cant_create_list ≢ ok
cant_create_list-ne-ok h = cc

cant_sort_list-ne-ok : cant_sort_list ≢ ok
cant_sort_list-ne-ok h = cc

empty_broker_list-ne-ok : empty_broker_list ≢ ok
empty_broker_list-ne-ok h = cc

-- A message that is handled with success gives the client a list that is not empty, of at most fifty brokers,
-- of just the brokers that the message names, the nearest first.
pub handle_redirect-Usable :
    (memory copies : ℕ → Bool) (distances : Option (List ℕ)) (r : Redirection) (list : List Broker)
    → (handle_redirect memory copies distances (some r) list).status ≡ ok
    → Usable r (handle_redirect memory copies distances (some r) list).list
unfolding handle_redirect
handle_redirect-Usable memory copies distances r list h =
    let created =
      create_list memory r.broker_redirect_ipv4 r.broker_redirect_ipv6 r.broker_redirect_dn in
    let sorted = sort_list copies distances created.list in
    elim (Bool-cases (is_ok created.status)) [
      | inr e ↦ absurd (cant_create_list-ne-ok (rw e at h))
      | inl e ↦
          let (m, l) =
            create_list-named memory r.broker_redirect_ipv4 r.broker_redirect_ipv6
              r.broker_redirect_dn e in
          elim (Bool-cases (ltb 1 (length created.list))) [
            | inl k ↦ elim (Bool-cases (is_ok sorted.status)) [
              | inl g ↦
                  rw (e, k, g) (sorted-Usable copies distances r created.list g m l (ltb→lt 1 _ k))
              | inr g ↦ absurd (cant_sort_list-ne-ok (rw (e, k, g) at h))
            ]
            | inr k ↦ elim (Bool-cases (length created.list == 0)) [
              | inl z ↦ absurd (empty_broker_list-ne-ok (rw (e, k, z) at h))
              | inr z ↦ rw (e, k, z) (created-Usable r created.list m l k z)
            ]
          ]
    ]
