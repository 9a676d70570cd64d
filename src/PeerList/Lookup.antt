-- ===== src/PeerList/Lookup.antt =====
-- What a lookup does to the peers, seen as a map from addresses.
use maiccu.Base.{
  ℕ, Bool, true, false, ◌&&◌, List, [], ◌∷◌, ◌++◌, Option, none, some, ltb, ◌≡◌, refl, ap, sym,
  subst, ◌∙◌, arith, if◌then◌else◌, inl, inr, Bool-cases, Option-cases,
}
use maiccu.Address.{Address, in6_are_addr_equal}
use maiccu.Address.Codec.{in6_are_addr_equal_iff}
use maiccu.Peer.{Peer, peer_init}
use maiccu.PeerList.Keys.{
  Item, has, find, remove, keys, has-append, is_some, has-find, find-append, find-remove_ne,
}
use maiccu.PeerList.{PeerList, Memory, Found, item_of, is_head, to_front, insert, failed, lookup}
use maiccu.PeerList.Invariant.{IsList}

-- The list as a map, and what one lookup promises of it.
abbrev pub Peers : Type 0
Peers = Address → Option Peer

pub record Outcome : Type 0 where
  pub found : Bool
  pub created : Bool
  pub locked : Bool
  pub peers : Peers

-- A known address is found; an unknown one is entered, with an empty queue, if the caller asks for
-- it and there is room and memory; else nothing happens. The list is locked if a peer is returned.
unfoldable pub promised : Peers → ℕ → Address → Bool → Memory → Outcome
promised peers left k may m =
    if is_some (peers k)
    then (record { found = true; created = false; locked = true; peers = peers })
    else if may && m.node && m.item && ltb 0 left
    then (record {
      found = true;
      created = true;
      locked = true;
      peers = λ j. if in6_are_addr_equal j k then some (peer_init m.junk) else peers j;
    })
    else (record { found = false; created = false; locked = false; peers = peers })

-- A lookup result delivers what is promised.
abbrev pub Delivers : Found → Outcome → Type 0
Delivers r o =
    (r.found ≡ o.found)
    × (r.created ≡ o.created)
    × (r.list.locked ≡ o.locked)
    × ((j : Address) → item_of r.list j ≡ o.peers j)

keys-append : (xs ys : List Item) → keys (xs ++ ys) ≡ keys xs ++ keys ys
keys-append [] ys = refl
keys-append (x ∷ xs) ys = ap (◌∷◌ x.key) (keys-append xs ys)

-- The tree finds exactly the peers of the linked lists.
has-item_of :
    {max : ℕ} (l : PeerList) (k : Address) → IsList max l → has k l.index ≡ is_some (item_of l k)
unfolding item_of
has-item_of l k v =
    v.index_keys k
    ∙ sym (has-append k (keys l.recent) (keys l.old))
    ∙ ap (has k) (sym (keys-append l.recent l.old))
    ∙ has-find k (l.recent ++ l.old)

eq_sym_false : (j k : Address) → in6_are_addr_equal j k ≡ false → in6_are_addr_equal k j ≡ false
eq_sym_false j k h = ground (arith, in6_are_addr_equal_iff j k, in6_are_addr_equal_iff k j)

find-both_removed :
    (k j : Address) (xs ys : List Item)
    → in6_are_addr_equal j k ≡ false
    → find j (remove k xs ++ remove k ys) ≡ find j (xs ++ ys)
find-both_removed k j xs ys h =
    rw (find-append j (remove k xs) (remove k ys), find-append j xs ys)
      (ground (
        arith,
        find-remove_ne k j xs (eq_sym_false j k h),
        find-remove_ne k j ys (eq_sym_false j k h),
      ))

-- Moving a peer to the front changes no peer.
item_of-to_front :
    (l : PeerList) (k j : Address) (p : Peer)
    → item_of l k ≡ some p
    → item_of (to_front l k p) j ≡ item_of l j
unfolding item_of to_front find
item_of-to_front l k j p h = elim (Bool-cases (is_head k l.recent)) [
  | inl e ↦ rw (e, to_front)
  | inr e ↦
      rw (e, to_front)
        (elim (Bool-cases (in6_are_addr_equal j k)) [
          | inl same ↦ rw same (
              subst (λ i. some p ≡ item_of l i) (sym ((in6_are_addr_equal_iff j k).0 same)) (sym h))
          | inr other ↦ rw other (find-both_removed k j l.recent l.old other)
        ])
]

insert-Delivers :
    (l : PeerList) (k : Address) (m : Memory)
    → l.locked ≡ true
    → item_of l k ≡ none
    → m.node ≡ true
    → Delivers
        (insert (record l { index = k ∷ l.index }) k m)
        (promised (item_of l) l.left k true m)
unfolding insert failed promised item_of find
insert-Delivers l k m b h n = elim (Bool-cases (ltb 0 l.left && m.item)) [
  | inl e ↦ ground arith
  | inr e ↦ ground arith
]

locked-to_front : (l : PeerList) (k : Address) (p : Peer) → (to_front l k p).locked ≡ l.locked
unfolding to_front
locked-to_front l k p = ground arith

-- For a list in its invariant, `teredo_list_lookup` keeps exactly this promise.
pub lookup-Delivers :
    {max : ℕ} (l : PeerList) (k : Address) (may : Bool) (m : Memory)
    → IsList max l
    → Delivers (lookup l k may m) (promised (item_of l) l.left k may m)
unfolding lookup promised item_of failed
lookup-Delivers l k may m v = elim (Option-cases (item_of l k)) [
  | inr (p, there) ↦
      let e : has k l.index ≡ true = has-item_of l k v ∙ ap is_some there in
      rw (e, there)
        (
          refl,
          refl,
          locked-to_front _ k p,
          λ j. item_of-to_front (record l { locked = true }) k j p there,
        )
  | inl missing ↦
      let e : has k l.index ≡ false = has-item_of l k v ∙ ap is_some missing in
      elim (Bool-cases may) [
        | inl c ↦ elim (Bool-cases m.node) [
          | inl n ↦
              rw (e, c)
                (rw n (rw n at (insert-Delivers (record l { locked = true }) k m refl missing n)))
          | inr n ↦ rw (e, c, n, missing) (refl, refl, refl, λ j. refl)
        ]
        | inr c ↦ rw (e, c, missing) (refl, refl, refl, λ j. refl)
      ]
]
