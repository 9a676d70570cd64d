-- ===== src/Discovery.antt =====
-- miredo/libteredo/discovery.c: the discovery of clients on the same network. The interfaces that
-- getifaddrs(3) gives, the regular expression and the results of the socket calls are arguments;
-- both threads of a discovery and its count of references are not modelled.
pub mod Choice
use Prim.Native.Nat.{bit_and, bit_xor}
use maiccu.Base.{
  ℕ, ◌+◌, Bool, true, false, not, ◌&&◌, List, [], ◌∷◌, ◌++◌, Option, none, some, ◌==◌,
  if◌then◌else◌,
}
use maiccu.Effect.{Effect}
use maiccu.Address.{
  Address, ipport_teredo, discovery_ipv4, all_nodes, in6_are_addr_equal, is_ipv4_global_unicast,
}
use maiccu.Packet.{Packet}
use maiccu.Message.{Net, ip6_dst, is_bubble, send_bubble_anyway}

-- `struct teredo_discovery_interface`
pub record Interface : Type 0 where
  pub addr : ℕ
  pub mask : ℕ

-- `struct teredo_discovery`. The array of interfaces ends at an address of zero.
pub record Discovery : Type 0 where
  pub ifaces : List Interface
  pub src : Address

-- `teredo_discovery_params`: `matches` is `regexec` on the name, none without an expression.
pub record Params : Type 0 where
  pub forced : Bool
  pub matches : Option (List ℕ → Bool)
  pub netmask : ℕ

-- One entry of getifaddrs(3); `inet` is whether it has an IPv4 address.
pub record Entry : Type 0 where
  pub inet : Bool
  pub multicast : Bool
  pub name : List ℕ
  pub iface : Interface

unfoldable pub is_ipv4_discovered : List Interface → ℕ → Bool
is_ipv4_discovered [] ip = false
is_ipv4_discovered (i ∷ is) ip =
    if i.addr == 0
    then false
    else if bit_and (bit_xor ip i.addr) i.mask == 0
    then true
    else is_ipv4_discovered is ip

-- `SendDiscoveryBubble`; `select` is whether the multicast interface can be set.
unfoldable pub send_discovery_bubble :
    Net → (Interface → Bool) → Address → List Interface → List Effect
send_discovery_bubble net select src [] = []
send_discovery_bubble net select src (i ∷ is) =
    if i.addr == 0
    then []
    else (if select i
        then (send_bubble_anyway net discovery_ipv4 ipport_teredo src all_nodes).0
        else [])
      ++ send_discovery_bubble net select src is

-- `IsDiscoveryBubble`
unfoldable pub is_discovery_bubble : Packet → Bool
is_discovery_bubble p =
    is_bubble p.ip6 && p.dest_ipv4 == discovery_ipv4 && in6_are_addr_equal (ip6_dst p.ip6) all_nodes

unfoldable pub is_suitable : Params → Entry → Bool
is_suitable p e =
    e.inet
    && e.multicast
    && not (not p.forced && is_ipv4_global_unicast e.iface.addr)
    && elim p.matches [ none ↦ true | some m ↦ m e.name ]

-- The loop over the entries; `room` is whether `realloc` has memory for the n-th interface.
unfoldable pub choose : Params → (ℕ → Bool) → ℕ → List Entry → List Interface
unfolding is_suitable
choose p room n [] = []
choose p room n (e ∷ es) =
    if not (is_suitable p e)
    then choose p room n es
    else if room n
    then e.iface ∷ choose p room (n + 1) es
    else []

-- `teredo_discovery_start`: none if the entries, an interface or the socket are missing.
unfoldable pub start_discovery :
    Params → Option (List Entry) → (ℕ → Bool) → Bool → Address → Option Discovery
unfolding choose
start_discovery p none room socket src = none
start_discovery p (some es) room socket src = (elim (choose p room 0 es) [
  | [] ↦ none
  | i ∷ is ↦ if socket then some (record { ifaces = i ∷ is; src = src }) else none
])
