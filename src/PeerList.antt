-- ===== src/PeerList.antt =====
-- miredo/libteredo/peerlist.c: the list of peers, in the build of miredo/config.h (no Judy array):
-- two linked lists (recent and old peers) and a search tree over the same items.
-- A linked list is the sequence of its items; an item is known by its key, so the back links
-- (`pprev`) have no counterpart, and a pointer to an item is its key. The tree of tsearch(3) is the
-- set of the keys in it. Whether tsearch and malloc have memory is an argument.
mod Keys
pub mod Invariant
pub mod Reach
pub mod Lookup
pub mod Expiry
pub mod Writes
pub use Keys.{Item, has, drop_key, find, remove, keys}
use maiccu.Base.{
  ℕ, ◌+◌, ◌-◌, ◌%◌, ◌^◌, Bool, true, false, not, ◌&&◌, List, [], ◌∷◌, ◌++◌, Option, none, some, ltb,
  if◌then◌else◌,
}
use maiccu.Address.{Address, in6_are_addr_equal}
use maiccu.Peer.{Peer, peer_init}

-- `struct teredo_peerlist`. `index` is the tree `root`, `locked` the mutex.
pub record PeerList : Type 0 where
  pub recent : List Item
  pub old : List Item
  pub left : ℕ
  pub expiration : ℕ
  pub index : List Address
  pub locked : Bool

-- What the environment gives to one call: memory for a node of the tree, memory for an item, and
-- what `malloc` left in the item.
pub record Memory : Type 0 where
  pub node : Bool
  pub item : Bool
  pub junk : Peer

-- The result of a lookup: the list, whether a peer is returned, and, if one is, `*create`.
pub record Found : Type 0 where
  pub list : PeerList
  pub found : Bool
  pub created : Bool

unfoldable pub create : ℕ → ℕ → PeerList
create max expiration = record {
  recent = [];
  old = [];
  left = max;
  expiration = expiration;
  index = [];
  locked = false;
}

unfoldable pub reset : PeerList → ℕ → PeerList
reset l max = record l { recent = []; old = []; left = max; index = [] }

unfoldable pub release : PeerList → PeerList
release l = record l { locked = false }

-- The first loop of the garbage collector: every old peer leaves the tree and is counted.
unfoldable pub expire : List Item → List Address → ℕ → List Address × ℕ
expire [] index left = (index, left)
expire (i ∷ is) index left = expire is (drop_key i.key index) ((left + 1) % 2 ^ 32)

-- One round of `garbage_collector`.
unfoldable pub collect : PeerList → PeerList
unfolding expire
collect l =
    let (index, left) = expire l.old l.index l.left in
    record l { index = index; left = left; old = l.recent; recent = [] }

-- The peer that the tree leads to.
unfoldable pub item_of : PeerList → Address → Option Peer
unfolding find
item_of l k = find k (l.recent ++ l.old)

-- `list->recent == p`
unfoldable pub is_head : Address → List Item → Bool
is_head k [] = false
is_head k (i ∷ is) = in6_are_addr_equal k i.key

-- The peer is moved to the head of the recent list.
unfoldable pub to_front : PeerList → Address → Peer → PeerList
unfolding is_head remove
to_front l k p = if is_head k l.recent then l else (record l {
  recent = record { key = k; peer = p } ∷ remove k l.recent;
  old = remove k l.old;
})

unfoldable pub failed : PeerList → Found
failed l = record { list = record l { locked = false }; found = false; created = false }

-- The end of the lookup: a new entry at the head of the list, if there is room and memory.
unfoldable pub insert : PeerList → Address → Memory → Found
unfolding peer_init failed
insert l k m =
    if ltb 0 l.left && m.item
    then (record {
      list = record l {
        recent = record { key = k; peer = peer_init m.junk } ∷ l.recent;
        left = l.left - 1;
      };
      found = true;
      created = true;
    })
    else failed (record l { index = drop_key k l.index })

-- `teredo_list_lookup`; the third argument is `create != NULL`.
unfoldable pub lookup : PeerList → Address → Bool → Memory → Found
unfolding has item_of to_front insert failed
lookup l k create m =
    if has k l.index
    then (elim (item_of l k) [
      | some p ↦ record { list = to_front locked k p; found = true; created = false }
      | none ↦ failed locked
    ])
    else if not create
    then failed locked
    else if not m.node
    then failed locked
    else insert (record locked { index = k ∷ l.index }) k m
  where
    locked : PeerList
    locked = record l { locked = true }

-- A write through the pointer that a lookup returned.
unfoldable pub store_in : Address → Peer → List Item → List Item
store_in k p [] = []
store_in k p (i ∷ is) =
    if in6_are_addr_equal k i.key then record i { peer = p } ∷ is else i ∷ store_in k p is

unfoldable pub store : PeerList → Address → Peer → PeerList
unfolding store_in
store l k p = record l { recent = store_in k p l.recent }
