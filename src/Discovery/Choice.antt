-- ===== src/Discovery/Choice.antt =====
-- miredo/libteredo/discovery.c: which interfaces are chosen, and whom they let in.
use mathlib.Core.List.{Memᴰ}
use mathlib.Core.List.Memᴰ.{head, tail}
use Prim.Native.Nat.{bit_and, bit_xor}
use maiccu.Base.{
  ℕ, ◌+◌, Bool, true, List, [], ◌∷◌, some, ◌==◌, ◌≡◌, ◌≢◌, refl, subst, arith, Bool-cases, inl, inr,
}
use maiccu.Address.{Address}
use maiccu.Discovery.{
  Discovery, Params, Entry, is_suitable, is_ipv4_discovered, choose, start_discovery,
}

-- An interface whose network has the address.
abbrev pub InNetwork : List Entry → Params → ℕ → Type 0
InNetwork es p ip =
    (e : Entry) × Memᴰ e es
    × (is_suitable p e ≡ true)
    × (e.iface.addr ≢ 0)
    × (bit_and (bit_xor ip e.iface.addr) e.iface.mask ≡ 0)

choose-InNetwork :
    (p : Params) (room : ℕ → Bool) (n : ℕ) (es : List Entry) (ip : ℕ)
    → is_ipv4_discovered (choose p room n es) ip ≡ true
    → InNetwork es p ip
unfolding choose is_ipv4_discovered
choose-InNetwork p room n [] ip h = absurd (ground (arith, h))
choose-InNetwork p room n (e ∷ es) ip h = elim (Bool-cases (is_suitable p e)) [
  | inr s ↦
      let (f, m, a, b', c) = choose-InNetwork p room n es ip (ground (arith, h, s)) in
      (f, tail m, a, b', c)
  | inl s ↦ elim (Bool-cases (bit_and (bit_xor ip e.iface.addr) e.iface.mask == 0)) [
    | inl b ↦ (e, head refl, s, ground (arith, h, s), ground (arith, b))
    | inr b ↦
        let (f, m, a, b', c) = choose-InNetwork p room (n + 1) es ip (ground (arith, h, s, b)) in
        (f, tail m, a, b', c)
  ]
]

started :
    (p : Params) (es : List Entry) (room : ℕ → Bool) (socket : Bool) (src : Address) (d : Discovery)
    → start_discovery p (some es) room socket src ≡ some d
    → (d.ifaces ≡ choose p room 0 es) × (d.src ≡ src)
unfolding start_discovery
started p es room socket src d h = ground (arith, h)

-- Whoever a discovery takes for a host of the network, at its start, is in the network of an
-- interface that is suitable, and the discovery announces the address that it was given.
pub start_discovery-InNetwork :
    (p : Params) (es : List Entry) (room : ℕ → Bool) (socket : Bool) (src : Address) (d : Discovery)
    (ip : ℕ)
    → start_discovery p (some es) room socket src ≡ some d
    → is_ipv4_discovered d.ifaces ip ≡ true
    → (d.src ≡ src) × InNetwork es p ip
start_discovery-InNetwork p es room socket src d ip h k =
    let parts = started p es room socket src d h in
    (
      parts.1,
      choose-InNetwork p room 0 es ip (subst (λ is. is_ipv4_discovered is ip ≡ true) parts.0 k),
    )
