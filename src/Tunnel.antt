-- ===== src/Tunnel.antt =====
-- miredo/libteredo/relay.c: the tunnel, its settings and state, and the limit on ICMPv6 errors.
-- One call runs at a time; the mutex of the peer list is in the effects, the locks of the state and of
-- the limit are held within one function and have no counterpart.
pub mod Transmit
pub mod Receive
pub mod Discipline
pub mod Limit
pub mod Delivery
pub mod Wait
pub mod Punch
use maiccu.Base.{
  ℕ, ◌+◌, ◌-◌, ◌*◌, ◌/◌, ◌%◌, ◌^◌, Bool, true, false, not, ◌&&◌, ◌||◌, List, [], ◌∷◌, ◌++◌, Option,
  none, some, ◌==◌, if◌then◌else◌, length,
}
use maiccu.Effect.{Effect, icmpv6, went_up, went_down, lock, unlock}
use maiccu.Address.{
  Address, teredo_prefix, flag_cone, is_valid_teredo_prefix, in6_teredo_ipv4, in6_teredo_port,
}
use maiccu.Checksum.{Endian}
use maiccu.Peer.{Peer}
use maiccu.PeerList.{PeerList, Memory, Found, create, reset, release, item_of, lookup, store}
use maiccu.Discovery.{Discovery, Interface, Params}
use maiccu.Message.{Net, ip6_src}
use maiccu.Message.Echo.{dst_unreach, icmpv6_error}

-- `teredo_state`; the address of the host in it is only shown in messages.
pub record State : Type 0 where
  pub addr : Address
  pub mtu : ℕ
  pub up : Bool

-- `struct teredo_tunnel`; `client` is whether it has a maintenance, `count` and `last` the limit.
pub record Tunnel : Type 0 where
  pub list : PeerList
  pub client : Bool
  pub discovery : Option Discovery
  pub params : Option Params
  pub state : State
  pub count : ℕ
  pub last : ℕ

-- The clock and what the host gives to one call.
pub record Host : Type 0 where
  pub now : ℕ
  pub net : Net
  pub memory : Memory
  pub select : Interface → Bool

-- A call leaves the tunnel, what it did, and its result: `true` for 0, `false` for -1.
pub record Outcome : Type 0 where
  pub tunnel : Tunnel
  pub effects : List Effect
  pub ok : Bool

abbrev pub max_peers : ℕ
max_peers = 1024

-- Return with nothing done.
abbrev pub quiet : Tunnel → Outcome
quiet t = record { tunnel = t; effects = []; ok = true }

-- What a call did before the rest of it.
abbrev pub after : List Effect → Outcome → Outcome
after es o = record o { effects = es ++ o.effects }

-- `teredo_send_unreach`: ten errors for each value of the clock. The callback is called for an empty
-- error too.
unfoldable pub send_unreach : Tunnel → ℕ → ℕ → List ℕ → Outcome
send_unreach t now code packet =
    let count = if not (now == t.last) then 10 else t.count in
    if count == 0
    then record { tunnel = record t { last = now; count = 0 }; effects = []; ok = true }
    else record {
      tunnel = record t { last = now; count = count - 1 };
      effects = icmpv6 (icmpv6_error dst_unreach code packet (length packet)) (ip6_src packet) ∷ [];
      ok = true;
    }

-- A lookup: the peer, if one is returned, its list is locked then.
unfoldable pub peer_of : Found → Address → Option Peer
peer_of f k = if f.found then item_of f.list k else none

-- The effects of a lookup on the mutex.
unfoldable pub locking : Option Peer → List Effect
locking none = lock ∷ unlock ∷ []
locking (some p) = lock ∷ []

-- The end of the use of a peer: what was written to it, and `teredo_list_release`.
unfoldable pub put_back : Tunnel → Address → Peer → Tunnel
put_back t k p = record t { list = release (store t.list k p) }

-- `teredo_create`, with the socket there; a relay keeps peers for thirty seconds.
unfoldable pub create_tunnel : ℕ → ℕ → Tunnel
create_tunnel ip port = record {
  list = create max_peers 30;
  client = false;
  discovery = none;
  params = none;
  state = record {
    addr = record {
      prefix = teredo_prefix;
      server_ip = 0;
      flags = 0;
      client_port = 0xffff - port;
      client_ip = 0xffffffff - ip;
    };
    mtu = 0;
    up = false;
  };
  count = 1;
  last = 0;
}

-- `teredo_state_change`; `fresh` is what `teredo_discovery_start` gives for the parameters.
unfoldable pub state_change : Tunnel → State → (Params → Address → Option Discovery) → Outcome
state_change t s fresh =
    if s.up
    then (record {
      tunnel = record t {
        state = s;
        list = reset t.list max_peers;
        discovery = elim t.params [ none ↦ none | some p ↦ fresh p s.addr ];
      };
      effects = lock ∷ unlock ∷ went_up s.addr s.mtu ∷ [];
      ok = true;
    })
    else (record {
      tunnel = record t { state = s };
      effects = if t.state.up then went_down ∷ [] else [];
      ok = true;
    })

unfoldable pub set_prefix : Endian → Tunnel → ℕ → Outcome
set_prefix e t prefix =
    if not (is_valid_teredo_prefix e prefix) || t.client
    then record { tunnel = t; effects = []; ok = false }
    else (record {
      tunnel = record t {
        state = record t.state { addr = record t.state.addr { prefix = prefix } };
      };
      effects = [];
      ok = true;
    })

-- The cone flag is the highest of the sixteen flags.
unfoldable pub set_cone_flag : Tunnel → Bool → Outcome
set_cone_flag t cone =
    if t.client then record { tunnel = t; effects = []; ok = false } else (record {
      tunnel = record t {
        state = record t.state {
          addr = record t.state.addr {
            flags = t.state.addr.flags % flag_cone + (if cone then flag_cone else 0);
          };
        };
      };
      effects = [];
      ok = true;
    })

unfoldable pub set_relay_mode : Tunnel → Bool
set_relay_mode t = not t.client

-- `teredo_set_client_mode`: whether there is memory for a list, and whether the maintenance starts.
unfoldable pub set_client_mode : Tunnel → Bool → Bool → Outcome
set_client_mode t room started =
    if t.client || not room then record { tunnel = t; effects = []; ok = false } else record {
      tunnel = record t { list = create max_peers 600; client = started };
      effects = [];
      ok = started;
    }

unfoldable pub set_discovery_params : Tunnel → Params → Tunnel
set_discovery_params t p = record t { params = some p }
