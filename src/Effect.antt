-- ===== src/Effect.antt =====
-- What the Teredo code does to the outside, as values in their order: UDP datagrams that it sends,
-- IPv6 packets for the tunnel's receive callback, ICMPv6 errors for the other one, the callbacks of
-- the state, packets for the maintenance thread, the mutex of the peer list, and the release of a
-- discovery that is null, which ends the process.
use maiccu.Base.{ℕ, List}
use maiccu.Address.{Address}

pub data Effect : Type 0 where
  sent : ℕ → ℕ → List ℕ → Effect
  delivered : List ℕ → Effect
  icmpv6 : List ℕ → Address → Effect
  went_up : Address → ℕ → Effect
  went_down : Effect
  maintained : List ℕ → Effect
  lock unlock : Effect
  null_released : Effect
