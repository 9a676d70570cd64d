-- ===== src/PeerList/Keys.antt =====
-- Items of the peer list and sequences of them, by key.
use maiccu.Base.{
  Bool, true, false, not, ◌&&◌, ◌||◌, List, [], ◌∷◌, ◌++◌, Option, none, some, ◌≡◌, refl, arith,
  if◌then◌else◌, length, ◌+◌,
}
use maiccu.Address.{Address, in6_are_addr_equal}
use maiccu.Address.Codec.{in6_are_addr_equal_iff}
use maiccu.Peer.{Peer}

-- `struct teredo_listitem`
pub record Item : Type 0 where
  pub key : Address
  pub peer : Peer

-- tfind(3)
unfoldable pub has : Address → List Address → Bool
has k [] = false
has k (j ∷ js) = in6_are_addr_equal k j || has k js

-- tdelete(3)
unfoldable pub drop_key : Address → List Address → List Address
drop_key k [] = []
drop_key k (j ∷ js) = let rest = drop_key k js in if in6_are_addr_equal k j then rest else j ∷ rest

unfoldable pub find : Address → List Item → Option Peer
find k [] = none
find k (i ∷ is) = let rest = find k is in if in6_are_addr_equal k i.key then some i.peer else rest

-- An item is unlinked.
unfoldable pub remove : Address → List Item → List Item
remove k [] = []
remove k (i ∷ is) = let rest = remove k is in if in6_are_addr_equal k i.key then is else i ∷ rest

abbrev pub keys : List Item → List Address
keys [] = []
keys (i ∷ is) = i.key ∷ keys is

-- No key twice.
abbrev pub Distinct : List Address → Type 0
Distinct [] = Unit {0}
Distinct (k ∷ ks) = (has k ks ≡ false) × Distinct ks

pub has-append : (k : Address) (xs ys : List Address) → has k (xs ++ ys) ≡ (has k xs || has k ys)
unfolding has
has-append k [] ys = refl
has-append k (x ∷ xs) ys = ground (arith, has-append k xs ys)

pub has-drop_key :
    (k j : Address) (ks : List Address)
    → has j (drop_key k ks) ≡ (not (in6_are_addr_equal k j) && has j ks)
unfolding has drop_key
has-drop_key k j [] = ground arith
has-drop_key k j (i ∷ ks) = ground (
  arith,
  has-drop_key k j ks,
  in6_are_addr_equal_iff k i,
  in6_are_addr_equal_iff j i,
  in6_are_addr_equal_iff k j,
)

pub Distinct-drop_key : (k : Address) (ks : List Address) → Distinct ks → Distinct (drop_key k ks)
unfolding drop_key
Distinct-drop_key k [] d = tt
Distinct-drop_key k (i ∷ ks) d = ground (arith, Distinct-drop_key k ks d.1, has-drop_key k i ks)

-- The tree finds a key exactly where the sequence has an item.
abbrev pub is_some {ℓ} : {A : Type ℓ} → Option A → Bool
is_some none = false
is_some (some a) = true

pub has-find : (k : Address) (is : List Item) → has k (keys is) ≡ is_some (find k is)
unfolding has find
has-find k [] = refl
has-find k (i ∷ is) = ground (arith, has-find k is)

pub find-append :
    (k : Address) (xs ys : List Item)
    → find k (xs ++ ys) ≡ (elim (find k xs) [ none ↦ find k ys | some p ↦ some p ])
unfolding find
find-append k [] ys = refl
find-append k (x ∷ xs) ys = ground (arith, find-append k xs ys)

module _ (k j : Address) where
  pub find-remove_ne :
      (is : List Item) → in6_are_addr_equal k j ≡ false → find j (remove k is) ≡ find j is
  unfolding find remove
  find-remove_ne [] h = refl
  find-remove_ne (i ∷ is) h = ground (
    arith,
    find-remove_ne is h,
    in6_are_addr_equal_iff k i.key,
    in6_are_addr_equal_iff j i.key,
    in6_are_addr_equal_iff k j,
  )

  pub has-remove :
      (is : List Item)
      → Distinct (keys is)
      → has j (keys (remove k is)) ≡ (not (in6_are_addr_equal k j) && has j (keys is))
  unfolding has remove
  has-remove [] d = ground arith
  has-remove (i ∷ is) d = ground (
    arith,
    has-remove is d.1,
    in6_are_addr_equal_iff k i.key,
    in6_are_addr_equal_iff j i.key,
    in6_are_addr_equal_iff k j,
  )

pub Distinct-remove :
    (k : Address) (is : List Item) → Distinct (keys is) → Distinct (keys (remove k is))
unfolding remove
Distinct-remove k [] d = tt
Distinct-remove k (i ∷ is) d = ground (arith, Distinct-remove k is d.1, has-remove k i.key is d.1)

pub length-remove :
    (k : Address) (is : List Item)
    → length (remove k is) + (if has k (keys is) then 1 else 0) ≡ length is
unfolding has remove
length-remove k [] = omega arith
length-remove k (i ∷ is) = ground (arith, length-remove k is)

pub in6_refl : (k : Address) → in6_are_addr_equal k k ≡ true
in6_refl k = (in6_are_addr_equal_iff k k).1 refl
