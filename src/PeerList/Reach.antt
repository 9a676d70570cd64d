-- ===== src/PeerList/Reach.antt =====
-- Every operation of the peer list keeps the invariant, and so does every sequence of them.
use maiccu.Base.{
  ℕ, ◌-◌, ◌<◌, ◌^◌, Bool, true, false, ◌&&◌, ◌||◌, List, [], ◌∷◌, ltb, ◌≡◌, refl, ap, suc, arith,
  length, inl, inr, Bool-cases, Option-cases,
}
use maiccu.Address.{Address}
use maiccu.Address.Codec.{in6_are_addr_equal_iff}
use maiccu.Peer.{Peer, peer_init}
use maiccu.PeerList.Keys.{
  Item, has, drop_key, remove, keys, has-drop_key, Distinct-drop_key, has-remove, Distinct-remove,
  length-remove, in6_refl,
}
use maiccu.PeerList.{
  PeerList, Memory, create, reset, release, collect, item_of, is_head, to_front, insert, failed,
  lookup, store_in, store,
}
use maiccu.PeerList.Invariant.{
  IsList, create-IsList, reset-IsList, set_locked-IsList, collect-IsList,
}

-- The peer's item leaves its list and becomes the first recent one.
moved-IsList :
    {max : ℕ} (l : PeerList) (k : Address) (p : Peer)
    → (has k (keys l.recent) || has k (keys l.old)) ≡ true
    → IsList max l
    → IsList max (record l {
      recent = record { key = k; peer = p } ∷ remove k l.recent;
      old = remove k l.old;
    })
unfolding has
moved-IsList l k p h v = record {
  recent_distinct = (
    ground (arith, has-remove k k l.recent v.recent_distinct, in6_refl k),
    Distinct-remove k l.recent v.recent_distinct,
  );
  old_distinct = Distinct-remove k l.old v.old_distinct;
  disjoint = λ j. ground (
    arith,
    has-remove k j l.recent v.recent_distinct,
    has-remove k j l.old v.old_distinct,
    in6_are_addr_equal_iff k j,
    in6_are_addr_equal_iff j k,
    v.disjoint j,
  );
  index_distinct = v.index_distinct;
  index_keys = λ j. ground (
    arith,
    has-remove k j l.recent v.recent_distinct,
    has-remove k j l.old v.old_distinct,
    in6_are_addr_equal_iff k j,
    in6_are_addr_equal_iff j k,
    v.index_keys j,
    v.index_keys k,
  );
  room = ground (arith, v.room, length-remove k l.recent, length-remove k l.old, v.disjoint k);
  small = v.small;
}

to_front-IsList :
    {max : ℕ} (l : PeerList) (k : Address) (p : Peer)
    → (has k (keys l.recent) || has k (keys l.old)) ≡ true
    → IsList max l
    → IsList max (to_front l k p)
unfolding to_front
to_front-IsList l k p h v = elim (Bool-cases (is_head k l.recent)) [
  | inl e ↦ rw e v
  | inr e ↦ rw e (moved-IsList l k p h v)
]

added-IsList :
    {max : ℕ} (l : PeerList) (k : Address) (p : Peer)
    → has k l.index ≡ false
    → 0 < l.left
    → IsList max l
    → IsList max (record l {
      recent = record { key = k; peer = p } ∷ l.recent;
      left = l.left - 1;
      index = k ∷ l.index;
    })
unfolding has
added-IsList l k p h q v = record {
  recent_distinct = (ground (arith, v.index_keys k), v.recent_distinct);
  old_distinct = v.old_distinct;
  disjoint = λ j. ground (arith, v.disjoint j, in6_are_addr_equal_iff j k, v.index_keys k);
  index_distinct = (h, v.index_distinct);
  index_keys = λ j. ground (arith, v.index_keys j);
  room = omega (arith, v.room);
  small = v.small;
}

-- A tree node without an item does not stay.
dropped-IsList :
    {max : ℕ} (l : PeerList) (k : Address)
    → has k l.index ≡ false
    → IsList max l
    → IsList max (record l { index = drop_key k (k ∷ l.index) })
unfolding has
dropped-IsList l k h v = record {
  recent_distinct = v.recent_distinct;
  old_distinct = v.old_distinct;
  disjoint = v.disjoint;
  index_distinct = Distinct-drop_key k (k ∷ l.index) (h, v.index_distinct);
  index_keys = λ j. ground (
    arith,
    has-drop_key k j (k ∷ l.index),
    in6_are_addr_equal_iff k j,
    in6_are_addr_equal_iff j k,
    v.index_keys j,
  );
  room = v.room;
  small = v.small;
}

insert-IsList :
    {max : ℕ} (l : PeerList) (k : Address) (m : Memory)
    → has k l.index ≡ false
    → IsList max l
    → IsList max (insert (record l { index = k ∷ l.index }) k m).list
unfolding insert failed
insert-IsList l k m h v = elim (Bool-cases (ltb 0 l.left && m.item)) [
  | inl e ↦ rw e (added-IsList l k (peer_init m.junk) h (ground arith) v)
  | inr e ↦ rw e (set_locked-IsList false (dropped-IsList l k h v))
]

pub lookup-IsList :
    {max : ℕ} (l : PeerList) (k : Address) (may : Bool) (m : Memory)
    → IsList max l
    → IsList max (lookup l k may m).list
unfolding lookup failed
lookup-IsList {max} l k may m v =
    let w = set_locked-IsList true v in
    let u = set_locked-IsList false v in
    elim (Bool-cases (has k l.index)) [
      | inl e ↦ elim (Option-cases (item_of l k)) [
        | inl none_there ↦ rw (e, none_there) u
        | inr (p, there) ↦ rw (e, there) (to_front-IsList _ k p (rw (← v.index_keys k) e) w)
      ]
      | inr e ↦ elim (Bool-cases may) [
        | inl c ↦ elim (Bool-cases m.node) [
          | inl n ↦ rw (e, c, n) (insert-IsList _ k m e w)
          | inr n ↦ rw (e, c, n) u
        ]
        | inr c ↦ rw (e, c) u
      ]
    ]

has-store_in : (k : Address) (p : Peer) (is : List Item) → keys (store_in k p is) ≡ keys is
unfolding store_in
has-store_in k p [] = refl
has-store_in k p (i ∷ is) = ground (arith, has-store_in k p is)

length-keys : (is : List Item) → length (keys is) ≡ length is
length-keys [] = refl
length-keys (i ∷ is) = ap suc (length-keys is)

pub store-IsList :
    {max : ℕ} (l : PeerList) (k : Address) (p : Peer) → IsList max l → IsList max (store l k p)
unfolding store
store-IsList l k p v = record {
  recent_distinct = rw (has-store_in k p l.recent) v.recent_distinct;
  old_distinct = v.old_distinct;
  disjoint = λ j. rw (has-store_in k p l.recent) (v.disjoint j);
  index_distinct = v.index_distinct;
  index_keys = λ j. rw (has-store_in k p l.recent) (v.index_keys j);
  room = omega (
    arith,
    v.room,
    length-keys (store_in k p l.recent),
    length-keys l.recent,
    ap length (has-store_in k p l.recent),
  );
  small = v.small;
}

-- The operations of the peer list.
pub data Step (max : ℕ) : PeerList → PeerList → Type 0 where
  look : (l : PeerList) (k : Address) (may : Bool) (m : Memory) → Step max l (lookup l k may m).list
  write : (l : PeerList) (k : Address) (p : Peer) → Step max l (store l k p)
  unlock : (l : PeerList) → Step max l (release l)
  expires : (l : PeerList) → Step max l (collect l)
  clear : (l : PeerList) → Step max l (reset l max)

pub data Reach (max : ℕ) (l : PeerList) : PeerList → Type 0 where
  here : Reach max l l
  next : {t u : PeerList} → Reach max l t → Step max t u → Reach max l u

Step-IsList : {max : ℕ} {t u : PeerList} → Step max t u → IsList max t → IsList max u
unfolding release
Step-IsList (look l k may m) v = lookup-IsList l k may m v
Step-IsList (write l k p) v = store-IsList l k p v
Step-IsList (unlock l) v = set_locked-IsList false v
Step-IsList (expires l) v = collect-IsList l v
Step-IsList {max} (clear l) v = reset-IsList max l v.small

Reach-Step : {max : ℕ} {l t : PeerList} → IsList max l → Reach max l t → IsList max t
Reach-Step v here = v
Reach-Step v (next r s) = Step-IsList s (Reach-Step v r)

-- Whatever sequence of lookups, writes to a peer, unlocks, garbage collections and resets follows
-- the creation of a list with a maximum below 2^32, and whatever memory there is: both linked lists
-- and the tree hold the same peers, each once, and peers and room make up the maximum.
pub Reach-IsList :
    (max expiration : ℕ) (l : PeerList)
    → max < 2 ^ 32
    → Reach max (create max expiration) l
    → IsList max l
Reach-IsList max expiration l h r = Reach-Step (create-IsList max expiration h) r
