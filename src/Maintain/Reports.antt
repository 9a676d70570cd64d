-- ===== src/Maintain/Reports.antt =====
-- miredo/libteredo/maintain.c: when the state callback is called.
use maiccu.Base.{
  ℕ, zero, suc, ◌+◌, ◌/◌, ◌%◌, ◌^◌, ◌<◌, Bool, true, false, not, ◌||◌, List, [], ◌∷◌, ◌++◌, ◌==◌,
  ltb, if◌then◌else◌, ◌≡◌, ◌⊎◌, sym, subst, arith, ◌≤◌, Bool-cases, Option-cases, inl, inr,
}
use maiccu.Checksum.{Endian}
use maiccu.Address.{Address, ipport_teredo, in6_are_addr_equal}
use maiccu.Packet.{Packet}
use maiccu.Security.{Md5, Keys, get_nonce}
use maiccu.Message.{Net}
use maiccu.Tunnel.{State}
use maiccu.Maintain.Qualify.{await-server}
use maiccu.Maintain.{Config, Machine, Turn, await, no_reply, got_reply, solicit, next_deadline}

-- The parts of a state that the client of the callback sees.
abbrev pub differs : State → State → Bool
differs a b =
    (if a.up then not b.up else b.up)
    || not (in6_are_addr_equal a.addr b.addr)
    || not (a.mtu == b.mtu)

-- Either nothing is reported and nothing changes, or the new state is reported, and differs.
abbrev pub IsReport : Machine → Turn → Type 0
IsReport m t =
    ((t.reports ≡ []) × (t.machine.state ≡ m.state))
    ⊎ ((t.reports ≡ t.machine.state ∷ []) × (differs m.state t.machine.state ≡ true))

no_reply-IsReport : (c : Config) (m : Machine) → IsReport m (no_reply c m)
unfolding no_reply
no_reply-IsReport c m = ground arith

got_reply-IsReport :
    (e : Endian) (md5 : Md5) (k : Keys) (c : Config) (m : Machine) (s : State)
    → s.up ≡ true
    → IsReport m (got_reply e md5 k c m s)
unfolding got_reply
got_reply-IsReport e md5 k c m s u = ground (arith, u)

-- No reply for `n` solicitations: the machine, and what was reported.
pub silence : Config → ℕ → Machine → Machine × List State
silence c zero m = (m, [])
silence c (suc n) m =
    let rest = silence c n (no_reply c m).machine in (rest.0, (no_reply c m).reports ++ rest.1)

abbrev lost : Machine → State
lost m = record m.state { up = false }

-- A client that is up stays up, and nothing is reported, while fewer solicitations in a row have
-- gone without a reply than are allowed; with the last one that it is allowed it is reported down,
-- once.
pub silence-reports :
    (c : Config) (n : ℕ) (m : Machine)
    → m.state.up ≡ true
    → m.count < c.qualification_retries
    → m.count + n ≤ c.qualification_retries
    → ((silence c n m).1 ≡ (if m.count + n == c.qualification_retries then lost m ∷ [] else []))
      × ((silence c n m).0.state
          ≡ (if m.count + n == c.qualification_retries then lost m else m.state))
unfolding silence no_reply
silence-reports c zero m u l h = ground (arith, l)
silence-reports c (suc n) m u l h = elim (Bool-cases (ltb (m.count + 1) c.qualification_retries)) [
  | inl a ↦ ground (
    arith,
    a,
    h,
    silence-reports c n (record m { count = m.count + 1 }) u (ground (arith, a)) (omega (arith, h)),
  )
  | inr a ↦
      let z : n ≡ 0 = ground (arith, a, l, h) in
      subst (λ j. Goal j) (sym z) (ground (arith, a, u, l))
]
  where
    Goal : ℕ → Type 0
    Goal j =
        ((silence c (suc j) m).1
          ≡ (if m.count + suc j == c.qualification_retries then lost m ∷ [] else []))
        × ((silence c (suc j) m).0.state
            ≡ (if m.count + suc j == c.qualification_retries then lost m else m.state))

-- A solicitation calls the callback at most once, with the new state, and exactly if the address,
-- the MTU or whether the client is up has changed.
pub solicit-IsReport :
    (e : Endian) (md5 : Md5) (k : Keys) (c : Config) (net : Net) (m : Machine) (nows : List ℕ)
    (replies : List (Packet × Address))
    → IsReport m (solicit e md5 k c net m nows replies)
unfolding solicit
solicit-IsReport e md5 k c net m nows replies =
    let deadline = next_deadline c.qualification_delay m.deadline nows in
    let nonce = get_nonce md5 k e (deadline / 10 ^ 9 % 2 ^ 32) m.server_ip ipport_teredo in
    let m' = record m { deadline = deadline } in
    elim (Option-cases (await e m.server_ip nonce 1280 replies)) [
      | inl a ↦ rw (a, solicit) (no_reply-IsReport c m')
      | inr (s, a) ↦
          rw (a, solicit)
            (got_reply-IsReport e md5 k c m' s (await-server e m.server_ip nonce 1280 replies a).1)
    ]
