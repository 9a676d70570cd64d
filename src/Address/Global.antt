-- ===== src/Address/Global.antt =====
-- Which IPv4 addresses v4global.c takes for global unicast ones.
use maiccu.Base.{
  ℕ, ◌-◌, ◌/◌, ◌^◌, ◌<◌, Bool, true, false, not, ◌||◌, List, [], ◌∷◌, ◌==◌, ◌≡◌, arith,
}
use maiccu.Address.{is_ipv4_global_unicast}

-- `ip` lies in the network `net/len`.
abbrev pub in_network : ℕ → ℕ × ℕ → Bool
in_network ip (net, len) = ip / 2 ^ (32 - len) == net / 2 ^ (32 - len)

abbrev pub in_any : ℕ → List (ℕ × ℕ) → Bool
in_any ip [] = false
in_any ip (n ∷ ns) = in_network ip n || in_any ip ns

-- The ranges that the constants of the code name: 0/8, 10/8, 127/8, 169.254/16, 172.16/12,
-- 192.168/16, 192.88.98/24, 224/4 and the broadcast address.
abbrev pub forbidden : List (ℕ × ℕ)
forbidden =
    (0, 8)
    ∷ (0x0a000000, 8)
    ∷ (0x7f000000, 8)
    ∷ (0xa9fe0000, 16)
    ∷ (0xac100000, 12)
    ∷ (0xc0a80000, 16)
    ∷ (0xc0586200, 24)
    ∷ (0xe0000000, 4)
    ∷ (0xffffffff, 32)
    ∷ []

-- 192.88.99.0/24, the range of the 6to4 relays that the comment of the code names.
abbrev pub relay_6to4 : ℕ × ℕ
relay_6to4 = (0xc0586300, 24)

-- The nested tests on classes accept exactly the addresses outside the forbidden networks.
is_ipv4_global_unicast_lem :
    (ip : ℕ) → ip < 2 ^ 32 → is_ipv4_global_unicast ip ≡ not (in_any ip forbidden)
unfolding is_ipv4_global_unicast
is_ipv4_global_unicast_lem ip h = ground arith

-- Every 6to4 relay address is taken for a global unicast address.
is_ipv4_global_unicast-relay_6to4 :
    (ip : ℕ) → in_network ip relay_6to4 ≡ true → is_ipv4_global_unicast ip ≡ true
unfolding is_ipv4_global_unicast
is_ipv4_global_unicast-relay_6to4 ip h = ground arith
