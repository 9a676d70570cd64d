-- ===== src/Tests/Peers.antt =====
-- Peers, their queues and the peer list at concrete inputs.
use maiccu.Base.{◌≤◌, true, false, List, [], ◌∷◌, arith}
use maiccu.Peer.{Queued}
use maiccu.Peer.Bubbles.{bubble_times, count_within, bubbles_within_300}
use maiccu.PeerList.{PeerList, create, lookup, release, item_of}
use maiccu.PeerList.Invariant.{IsList, create-IsList}
use maiccu.PeerList.Reach.{Reach-IsList, here, next, look, unlock}
use maiccu.PeerList.Lookup.{Delivers, promised, lookup-Delivers}
use maiccu.Tests.{blank, plenty, remote}

bubbles_example :
    count_within 1000 (bubble_times blank (1000 ∷ 1001 ∷ 1003 ∷ 1006 ∷ 1009 ∷ 1012 ∷ [])) ≤ 4
bubbles_example =
    bubbles_within_300 1000 blank (1000 ∷ 1001 ∷ 1003 ∷ 1006 ∷ 1009 ∷ 1012 ∷ []) (omega arith)
      (omega arith)

abbrev incoming : Queued
incoming = record { bytes = 1 ∷ []; ipv4 = 5; port = 6; incoming = true }

abbrev outgoing : Queued
outgoing = record { bytes = 2 ∷ 3 ∷ []; ipv4 = 0; port = 0; incoming = false }

abbrev two : List Queued
two = incoming ∷ outgoing ∷ []

abbrev empty_list : PeerList
empty_list = create 1024 30

Reach-IsList_example : IsList 1024 (release (lookup empty_list remote true plenty).list)
Reach-IsList_example =
    Reach-IsList 1024 30 (release (lookup empty_list remote true plenty).list) (omega arith) (
      next (next here (look empty_list remote true plenty))
        (unlock (lookup empty_list remote true plenty).list))

lookup-Delivers_example :
    Delivers
      (lookup empty_list remote true plenty)
      (promised (item_of empty_list) empty_list.left remote true plenty)
lookup-Delivers_example =
    lookup-Delivers empty_list remote true plenty (create-IsList 1024 30 (omega arith))
