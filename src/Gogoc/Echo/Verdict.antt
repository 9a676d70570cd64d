-- ===== src/Gogoc/Echo/Verdict.antt =====
-- gogoc/gogoc-tsp/src/net/icmp_echo_engine.c: what has come when the engine assesses connectivity.
use maiccu.Base.{ℕ, List, [], ◌∷◌, ◌≡◌, ◌≢◌, ◌⊎◌}
use maiccu.Gogoc.Echo.{Engine, EngineMode, Family}
use maiccu.Gogoc.Echo.Packet.{Host}
use maiccu.Gogoc.Echo.Process.{
  iee_success, invalid_parms, resource_starvation, connectivity_assessed, general_timeout,
  general_error, Sent, sent, tangled, Poll, Progress, done, waiting, knotted, Pass,
}
use maiccu.Gogoc.Echo.Fixed.{Fixed}
use maiccu.Gogoc.Echo.Brings.{Brings}

-- Assessed connectivity has these grounds, and the engine that goes on is like this.
abbrev Grounded : (Engine → Type 0) → Type 0 → Progress → Type 0
Grounded L G (done iee_success e) = L e
Grounded L G (done invalid_parms e) = Unit {0}
Grounded L G (done resource_starvation e) = Unit {0}
Grounded L G (done connectivity_assessed e) = G
Grounded L G (done general_timeout e) = Unit {0}
Grounded L G (done general_error e) = Unit {0}
Grounded L G (waiting e) = Unit {0}
Grounded L G knotted = Unit {0}

-- One of these reads has brought a reply.
abbrev pub AnyBrings : Host → Family → ℕ → List Poll → Type 0
AnyBrings h af id [] = ⊥
AnyBrings h af id (p ∷ ps) = Brings h af id p.incoming ⊎ AnyBrings h af id ps

-- One of the reads of these passes has brought a reply.
abbrev pub Answered : Host → Family → ℕ → List Pass → Type 0
Answered h af id [] = ⊥
Answered h af id (p ∷ ps) = AnyBrings h af id p.polls ⊎ Answered h af id ps

module _ (h : Host) (m : EngineMode) (af : Family) (id : ℕ) where
  Like : Engine → Type 0
  Like e = (e.eng_mode ≡ m) × (e.icmp_saf ≡ af) × (e.icmp_echo_id ≡ id)

  LikeSent : Sent → Type 0
  LikeSent (sent e bs s) = Like e × (s ≢ connectivity_assessed)
  LikeSent tangled = Unit {0}
