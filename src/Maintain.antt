-- ===== src/Maintain.antt =====
-- miredo/libteredo/maintain.c: the maintenance of a Teredo client, the state machine that qualifies
-- with a server and keeps the mapping alive. Name resolution, the clock and the packets that arrive
-- before a deadline are arguments. Times are in nanoseconds; what a failed parse of an advertisement
-- left in the address is an argument too.
pub mod Qualify
pub mod Reports
use Prim.Native.Nat.{bit_and}
use maiccu.Base.{
  ℕ, ◌+◌, ◌-◌, ◌*◌, ◌/◌, ◌%◌, ◌^◌, Bool, true, false, not, ◌&&◌, ◌||◌, List, [], ◌∷◌, Option, none,
  some, ◌==◌, ltb, leb, if◌then◌else◌, eq_bytes,
}
use maiccu.Checksum.{Endian, little, big}
use maiccu.Effect.{Effect}
use maiccu.Address.{Address, ipport_teredo, in6_are_addr_equal, is_ipv4_global_unicast}
use maiccu.Packet.{Packet}
use maiccu.Security.{Md5, Keys, get_flbits, get_nonce}
use maiccu.Message.{Net}
use maiccu.Message.Router.{send_rs}
use maiccu.Message.Advert.{parse_ra}
use maiccu.Tunnel.{State}

-- The delays in seconds, and the number of solicitations without an answer.
pub record Config : Type 0 where
  pub qualification_delay : ℕ
  pub qualification_retries : ℕ
  pub refresh_delay : ℕ
  pub restart_delay : ℕ

-- The variables of `maintenance_thread`; `last_error` is only for messages.
pub record Machine : Type 0 where
  pub state : State
  pub server_ip : ℕ
  pub count : ℕ
  pub deadline : ℕ

-- What a step does: the next machine, the states that the callback is called with, and what is sent.
pub record Turn : Type 0 where
  pub machine : Machine
  pub reports : List State
  pub sends : List Effect

abbrev pub seconds : ℕ → ℕ
seconds n = n * 10 ^ 9

abbrev pub random_mask : ℕ
random_mask = 0x3cff

-- The number that `ntohs` reads from a `uint16_t` that the host has stored.
abbrev pub half_word : Endian → ℕ → ℕ
half_word little x = x % 256 * 256 + x / 256
half_word big x = x

-- `teredo_maintenance_start`: a delay of zero stands for the default.
unfoldable pub config_of : Config → Config
config_of c = record {
  qualification_delay = if c.qualification_delay == 0 then 4 else c.qualification_delay;
  qualification_retries = if c.qualification_retries == 0 then 3 else c.qualification_retries;
  refresh_delay = if c.refresh_delay == 0 then 30 else c.refresh_delay;
  restart_delay = if c.restart_delay == 0 then 100 else c.restart_delay;
}

-- `maintenance_recv`: the new state, none for an error; and the MTU variable afterwards.
unfoldable pub maintenance_recv : Endian → Packet → ℕ → List ℕ → Address → ℕ → Option State × ℕ
maintenance_recv e p server_ip nonce old mtu =
    if not (eq_bytes p.auth_nonce nonce)
    then (none, mtu)
    else if p.auth_fail
    then (none, mtu)
    else elim (parse_ra e p old false mtu) [
      | none ↦ (none, mtu)
      | some (a, m) ↦
          if a.server_ip == server_ip
          then (some (record { addr = a; mtu = m; up = true }), m)
          else (none, m)
    ]

-- The wait for an advertisement: the packets up to the deadline, each with what the address held
-- before; none is a time-out.
unfoldable pub await : Endian → ℕ → List ℕ → ℕ → List (Packet × Address) → Option State
unfolding maintenance_recv
await e server_ip nonce mtu [] = none
await e server_ip nonce mtu ((p, old) ∷ ps) =
    let r = maintenance_recv e p server_ip nonce old mtu in
    let rest = await e server_ip nonce r.1 ps in elim r.0 [ none ↦ rest | some s ↦ some s ]

-- The resolution of the server's name, and the wait after a failure.
unfoldable pub resolve : Config → Machine → Option ℕ → ℕ → Turn
resolve c m answer now = elim answer [
  | none ↦ failed
  | some ip ↦ if not (is_ipv4_global_unicast ip) then failed else resolved ip
]
  where
    failed : Turn
    failed = record {
      machine = record m { server_ip = 0; deadline = now + seconds c.restart_delay };
      reports = [];
      sends = [];
    }

    with_server : ℕ → State
    with_server ip = record m.state { addr = record m.state.addr { server_ip = ip } }

    resolved : ℕ → Turn
    resolved ip = record {
      machine = record m { state = with_server ip; server_ip = ip; deadline = now };
      reports = with_server ip ∷ [];
      sends = [];
    }

-- The next deadline: the clock is read once in each round of the loop, whose end is the end of the
-- readings, or a reading that is not past the deadline (`checkTimeDrift`).
unfoldable pub next_deadline : ℕ → ℕ → List ℕ → ℕ
next_deadline delay deadline [] = deadline + seconds delay
next_deadline delay deadline (now ∷ nows) =
    let later = next_deadline delay now nows in
    if ltb (deadline + seconds delay) now then later else deadline + seconds delay

-- No advertisement came in time.
unfoldable pub no_reply : Config → Machine → Turn
no_reply c m =
    if ltb (m.count + 1) c.qualification_retries
    then record { machine = record m { count = m.count + 1 }; reports = []; sends = [] }
    else record {
      machine = record m {
        count = 0;
        state = if m.state.up then lost else m.state;
        server_ip = if m.state.up then 0 else m.server_ip;
        deadline = m.deadline - seconds c.qualification_delay + seconds c.restart_delay;
      };
      reports = if m.state.up then lost ∷ [] else [];
      sends = [];
    }
  where
    lost : State
    lost = record m.state { up = false }

module _ (e : Endian) (md5 : Md5) (k : Keys) where
  -- The flags of a new address are random, those of the present one stay.
  unfoldable pub flagged : ℕ → Address → Address → Address
  flagged stamp present a =
      let same = record a { flags = present.flags } in
      if in6_are_addr_equal present same
      then same
      else record a { flags = bit_and (half_word e (get_flbits md5 k e stamp)) random_mask }

  -- An advertisement was accepted.
  unfoldable pub got_reply : Config → Machine → State → Turn
  unfolding flagged
  got_reply c m s =
      let addr = flagged (m.deadline / 10 ^ 9 % 2 ^ 32) m.state.addr s.addr in
      let new = record s { addr = addr } in
      let changes =
        not m.state.up
        || not (in6_are_addr_equal m.state.addr addr)
        || not (m.state.mtu == s.mtu) in
      record {
        machine = record m {
          count = 0;
          state = if changes then new else m.state;
          deadline = m.deadline - seconds c.qualification_delay + seconds c.refresh_delay;
        };
        reports = if changes then new ∷ [] else [];
        sends = [];
      }

  -- One solicitation, and what came of it.
  unfoldable pub solicit : Config → Net → Machine → List ℕ → List (Packet × Address) → Turn
  unfolding got_reply no_reply await
  solicit c net m nows replies =
      let deadline = next_deadline c.qualification_delay m.deadline nows in
      let nonce = get_nonce md5 k e (deadline / 10 ^ 9 % 2 ^ 32) m.server_ip ipport_teredo in
      let m' = record m { deadline = deadline } in
      let rest : Turn = elim (await e m.server_ip nonce 1280 replies) [
        | none ↦ no_reply c m'
        | some s ↦ got_reply c m' s
      ] in
      record rest { sends = (send_rs net m.server_ip nonce false).0 }
