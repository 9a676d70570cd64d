-- ===== src/PeerList/Invariant.antt =====
-- The invariant of the peer list: both linked lists and the tree hold the same peers, each once,
-- and the room that is left and the peers make up the maximum.
use maiccu.Base.{
  ℕ, ◌+◌, ◌<◌, ◌%◌, ◌^◌, Bool, false, not, ◌&&◌, ◌||◌, List, [], ◌∷◌, ◌≡◌, refl, arith, length,
}
use maiccu.Address.{Address}
use maiccu.Address.Codec.{in6_are_addr_equal_iff}
use maiccu.PeerList.Keys.{Item, has, drop_key, keys, Distinct, has-drop_key, Distinct-drop_key}
use maiccu.PeerList.{PeerList, create, reset, expire, collect}

pub record IsList (max : ℕ) (l : PeerList) : Type 0 where
  pub recent_distinct : Distinct (keys l.recent)
  pub old_distinct : Distinct (keys l.old)
  pub disjoint : (k : Address) → (has k (keys l.recent) && has k (keys l.old)) ≡ false
  pub index_distinct : Distinct l.index
  pub index_keys : (k : Address) → has k l.index ≡ (has k (keys l.recent) || has k (keys l.old))
  pub room : l.left + length l.recent + length l.old ≡ max
  pub small : max < 2 ^ 32

pub create-IsList : (max expiration : ℕ) → max < 2 ^ 32 → IsList max (create max expiration)
unfolding create has
create-IsList max expiration h = record {
  recent_distinct = tt;
  old_distinct = tt;
  disjoint = λ k. refl;
  index_distinct = tt;
  index_keys = λ k. refl;
  room = omega arith;
  small = h;
}

pub reset-IsList : (max : ℕ) (l : PeerList) → max < 2 ^ 32 → IsList max (reset l max)
unfolding reset has
reset-IsList max l h = record {
  recent_distinct = tt;
  old_distinct = tt;
  disjoint = λ k. refl;
  index_distinct = tt;
  index_keys = λ k. refl;
  room = omega arith;
  small = h;
}

-- The mutex is no part of the invariant.
pub set_locked-IsList :
    {max : ℕ} {l : PeerList} (b : Bool) → IsList max l → IsList max (record l { locked = b })
set_locked-IsList b v = record {
  recent_distinct = v.recent_distinct;
  old_distinct = v.old_distinct;
  disjoint = v.disjoint;
  index_distinct = v.index_distinct;
  index_keys = v.index_keys;
  room = v.room;
  small = v.small;
}

has-expire :
    (is : List Item) (index : List Address) (left : ℕ) (j : Address)
    → has j (expire is index left).0 ≡ (not (has j (keys is)) && has j index)
unfolding expire has
has-expire [] index left j = refl
has-expire (i ∷ is) index left j = ground (
  arith,
  has-expire is (drop_key i.key index) ((left + 1) % 2 ^ 32) j,
  has-drop_key i.key j index,
  in6_are_addr_equal_iff i.key j,
  in6_are_addr_equal_iff j i.key,
)

left-expire :
    (is : List Item) (index : List Address) (left : ℕ)
    → left + length is < 2 ^ 32
    → (expire is index left).1 ≡ left + length is
unfolding expire
left-expire [] index left h = omega arith
left-expire (i ∷ is) index left h =
    omega (arith, left-expire is (drop_key i.key index) ((left + 1) % 2 ^ 32) (omega arith))

Distinct-expire :
    (is : List Item) (index : List Address) (left : ℕ)
    → Distinct index
    → Distinct (expire is index left).0
unfolding expire
Distinct-expire [] index left d = d
Distinct-expire (i ∷ is) index left d =
    Distinct-expire is (drop_key i.key index) ((left + 1) % 2 ^ 32)
      (Distinct-drop_key i.key index d)

pub collect-IsList : {max : ℕ} (l : PeerList) → IsList max l → IsList max (collect l)
unfolding collect has
collect-IsList l v = record {
  recent_distinct = tt;
  old_distinct = v.recent_distinct;
  disjoint = λ k. refl;
  index_distinct = Distinct-expire l.old l.index l.left v.index_distinct;
  index_keys = λ k. ground (arith, has-expire l.old l.index l.left k, v.index_keys k, v.disjoint k);
  room = omega (arith, left-expire l.old l.index l.left (omega (arith, v.room, v.small)), v.room);
  small = v.small;
}
