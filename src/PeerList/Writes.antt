-- ===== src/PeerList/Writes.antt =====
-- Writes through the pointer that a lookup returns.
use maiccu.Base.{true, List, [], ◌∷◌, ◌++◌, some, ◌≡◌, refl, arith}
use maiccu.Address.{Address}
use maiccu.Peer.{Peer}
use maiccu.PeerList.Keys.{Item, find}
use maiccu.PeerList.{PeerList, is_head, item_of, store, store_in, release}

find-store_in :
    (k : Address) (p : Peer) (xs ys : List Item)
    → is_head k xs ≡ true
    → find k (store_in k p xs ++ ys) ≡ some p
unfolding is_head store_in find
find-store_in k p [] ys h = absurd (ground (arith, h))
find-store_in k p (i ∷ is) ys h = rw (h, find, h) refl

-- What is written to the first peer is what a lookup of its address finds.
pub item_of-store :
    (l : PeerList) (k : Address) (p : Peer)
    → is_head k l.recent ≡ true
    → item_of (release (store l k p)) k ≡ some p
unfolding item_of store release
item_of-store l k p h = find-store_in k p l.recent l.old h
