-- ===== src/PeerList/Expiry.antt =====
-- What the garbage collector takes away, and when.
use maiccu.Base.{
  ℕ, Bool, true, List, [], ◌∷◌, ◌++◌, none, ◌≡◌, refl, sym, ◌∙◌, arith, length, inl, inr,
  Bool-cases,
}
use maiccu.Address.{Address}
use maiccu.Peer.{Peer}
use maiccu.PeerList.Keys.{Item, find, in6_refl}
use maiccu.PeerList.{PeerList, Memory, collect, item_of, is_head, to_front, insert, failed, lookup}
use maiccu.PeerList.Invariant.{IsList, collect-IsList}

item_of-collect : (l : PeerList) (j : Address) → item_of (collect l) j ≡ find j l.recent
unfolding collect item_of
item_of-collect l j = refl

find-head : (k : Address) (xs ys : List Item) → is_head k xs ≡ true → find k (xs ++ ys) ≡ find k xs
unfolding is_head find
find-head k [] ys h = ground arith
find-head k (x ∷ xs) ys h = rw h

head-to_front : (l : PeerList) (k : Address) (p : Peer) → is_head k (to_front l k p).recent ≡ true
unfolding to_front is_head
head-to_front l k p = elim (Bool-cases (is_head k l.recent)) [
  | inl e ↦ rw (e, to_front) e
  | inr e ↦ rw (e, to_front) (in6_refl k)
]

-- A peer that a lookup returns is the first of the recent ones.
pub head-lookup :
    (l : PeerList) (k : Address) (may : Bool) (m : Memory)
    → (lookup l k may m).found ≡ true
    → is_head k (lookup l k may m).list.recent ≡ true
unfolding lookup insert failed is_head
head-lookup l k may m h =
    ground (arith, λ (p : Peer). head-to_front (record l { locked = true }) k p, in6_refl k)

collect_empty :
    (l : PeerList) (j : Address)
    → (item_of (collect (collect l)) j ≡ none)
      × (length (collect (collect l)).recent ≡ 0)
      × (length (collect (collect l)).old ≡ 0)
unfolding collect item_of find
collect_empty l j = (refl, refl, refl)

-- A peer that a lookup has returned is still there, unchanged, after the next collection. What is
-- in the list at some time and not looked up again is gone after two collections, and then all the
-- room is free.
collect-lookup :
    {max : ℕ} (l : PeerList) (k : Address) (may : Bool) (m : Memory)
    → IsList max l
    → (lookup l k may m).found ≡ true
    → let r = lookup l k may m in
      (item_of (collect r.list) k ≡ item_of r.list k)
      × ((j : Address) → item_of (collect (collect l)) j ≡ none)
      × ((collect (collect l)).left ≡ max)
unfolding item_of
collect-lookup l k may m v h =
    let r = lookup l k may m in
    let e = collect_empty l k in
    (
      item_of-collect r.list k
          ∙ sym (find-head k r.list.recent r.list.old (head-lookup l k may m h)),
      λ j. (collect_empty l j).0,
      omega (arith, (collect-IsList (collect l) (collect-IsList l v)).room, e.1, e.2),
    )
