-- ===== src/Maintain/Qualify.antt =====
-- miredo/libteredo/maintain.c: what holds of the state machine of the maintenance.
use maiccu.Base.{
  ℕ, ◌/◌, ◌%◌, ◌^◌, ◌<◌, true, false, List, [], ◌∷◌, ◌++◌, subst, Option, none, some, ◌≡◌, ◌≢◌, ◌⊎◌,
  refl, arith, Bool-cases, Option-cases, inl, inr,
}
use maiccu.Checksum.{Endian}
use maiccu.Address.{Address, ipport_teredo, is_ipv4_global_unicast}
use maiccu.Packet.{Packet}
use maiccu.Security.{Md5, Keys, get_nonce}
use maiccu.Message.{Net}
use maiccu.Tunnel.{State}
use maiccu.Maintain.{
  Config, Machine, Turn, maintenance_recv, await, resolve, no_reply, flagged, got_reply, solicit,
  next_deadline,
}

-- The machine has no server while it looks one up, and is not up then. Else its address has the
-- server, which is global; and fewer time-outs are counted than are allowed.
pub record IsMachine (c : Config) (m : Machine) : Type 0 where
  pub counted : m.count < c.qualification_retries
  pub served :
      ((m.server_ip ≡ 0) × (m.state.up ≡ false))
      ⊎ ((is_ipv4_global_unicast m.server_ip ≡ true) × (m.state.addr.server_ip ≡ m.server_ip))

-- The thread looks its server up while it has none, and solicits it then.
pub data Step (e : Endian) (md5 : Md5) (k : Keys) (c : Config) : Machine → Turn → Type 0 where
  resolves :
      (m : Machine) (answer : Option ℕ) (now : ℕ)
      → m.server_ip ≡ 0
      → Step e md5 k c m (resolve c m answer now)
  solicits :
      (m : Machine) (net : Net) (nows : List ℕ) (replies : List (Packet × Address))
      → m.server_ip ≢ 0
      → Step e md5 k c m (solicit e md5 k c net m nows replies)

-- The machines that follow on one, and all the states that were reported on the way.
pub data Run (e : Endian) (md5 : Md5) (k : Keys) (c : Config) (m : Machine)
    : Machine → List State → Type 0 where
  start : Run e md5 k c m m []
  step :
      {n : Machine} {t : Turn} {rs : List State}
      → Run e md5 k c m n rs
      → Step e md5 k c n t
      → Run e md5 k c m t.machine (t.reports ++ rs)

-- Without a server the machine is down.
pub down : (c : Config) (m : Machine) → m.server_ip ≡ 0 → IsMachine c m → m.state.up ≡ false
unfolding is_ipv4_global_unicast
down c m z v = elim v.served [
  | inl d ↦ d.1
  | inr s ↦ absurd (ground (arith, subst (λ ip. is_ipv4_global_unicast ip ≡ true) z s.0))
]

resolve-IsMachine :
    (c : Config) (m : Machine) (answer : Option ℕ) (now : ℕ)
    → m.server_ip ≡ 0
    → IsMachine c m
    → IsMachine c (resolve c m answer now).machine
unfolding resolve
resolve-IsMachine c m none now z v = record {
  counted = v.counted;
  served = inl (refl, down c m z v);
}
resolve-IsMachine c m (some ip) now z v = elim (Bool-cases (is_ipv4_global_unicast ip)) [
  | inl g ↦ rw g (record { counted = v.counted; served = inr (g, refl) })
  | inr g ↦ rw g (record { counted = v.counted; served = inl (refl, down c m z v) })
]

-- Only an advertisement of the server that was asked is accepted.
pub await-server :
    (e : Endian) (server_ip : ℕ) (nonce : List ℕ) (mtu : ℕ) (ps : List (Packet × Address))
    {s : State}
    → await e server_ip nonce mtu ps ≡ some s
    → (s.addr.server_ip ≡ server_ip) × (s.up ≡ true)
unfolding await maintenance_recv
await-server e server_ip nonce mtu [] {s} h = ground (arith, h)
await-server e server_ip nonce mtu ((p, old) ∷ ps) {s} h =
    let r = maintenance_recv e p server_ip nonce old mtu in
    ground (arith, h, await-server e server_ip nonce r.1 ps {s = s})

no_reply-IsMachine :
    (c : Config) (m : Machine)
    → m.server_ip ≢ 0
    → IsMachine c m
    → IsMachine c (no_reply c m).machine
unfolding no_reply
no_reply-IsMachine c m n v = record {
  counted = ground (arith, v.counted);
  served = ground (arith, v.served, n);
}

got_reply-IsMachine :
    (e : Endian) (md5 : Md5) (k : Keys) (c : Config) (m : Machine) (s : State)
    → s.addr.server_ip ≡ m.server_ip
    → IsMachine c m
    → m.server_ip ≢ 0
    → IsMachine c (got_reply e md5 k c m s).machine
unfolding got_reply flagged
got_reply-IsMachine e md5 k c m s h v n = record {
  counted = ground (arith, v.counted);
  served = ground (arith, h, v.served, n);
}

solicit-IsMachine :
    (e : Endian) (md5 : Md5) (k : Keys) (c : Config) (net : Net) (m : Machine) (nows : List ℕ)
    (replies : List (Packet × Address))
    → m.server_ip ≢ 0
    → IsMachine c m
    → IsMachine c (solicit e md5 k c net m nows replies).machine
unfolding solicit
solicit-IsMachine e md5 k c net m nows replies n v =
    let deadline = next_deadline c.qualification_delay m.deadline nows in
    let nonce = get_nonce md5 k e (deadline / 10 ^ 9 % 2 ^ 32) m.server_ip ipport_teredo in
    let m' = record m { deadline = deadline } in
    let v' : IsMachine c m' = record { counted = v.counted; served = v.served } in
    elim (Option-cases (await e m.server_ip nonce 1280 replies)) [
      | inl a ↦ rw (a, solicit) (no_reply-IsMachine c m' n v')
      | inr (s, a) ↦
          rw (a, solicit)
            (got_reply-IsMachine e md5 k c m' s (await-server e m.server_ip nonce 1280 replies a).0
              v' n)
    ]

-- In whatever way names are resolved and advertisements arrive, from a machine on of which this
-- holds (as of the one at the start of the thread): fewer time-outs are counted than are allowed;
-- there is no server only while the machine is down, as is asserted before a server is reported; and
-- else the Teredo address has the server that is solicited, which is a global address.
pub Run-IsMachine :
    (e : Endian) (md5 : Md5) (k : Keys) (c : Config) (m n : Machine) (rs : List State)
    → IsMachine c m
    → Run e md5 k c m n rs
    → IsMachine c n
Run-IsMachine e md5 k c m n rs v start = v
Run-IsMachine e md5 k c m n rs v (step r (resolves m' answer now z)) =
    resolve-IsMachine c m' answer now z (Run-IsMachine e md5 k c m m' _ v r)
Run-IsMachine e md5 k c m n rs v (step r (solicits m' net nows replies z)) =
    solicit-IsMachine e md5 k c net m' nows replies z (Run-IsMachine e md5 k c m m' _ v r)
