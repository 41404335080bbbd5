-- ===== src/Simulator.antt =====
-- The simulator: many nodes that share a medium (components/simulator/src/sim.rs). The protocol is a
-- parameter, as is the location of a node, which only the test for visibility looks at. Log output
-- is left out.
pub mod Medium
pub mod Loop
pub mod Owners
pub mod Forwarding
pub mod Queue
pub mod Deliveries
pub mod Transmissions
pub mod Rounds
pub mod Start
pub mod Collisions
pub mod Network
use holistic_framework_for_l.Base.{
  ℕ, ◌≡◌, arith, Bool, true, false, ◌&&◌, not, Option, none, some, List, Outcome, ok, ◌>>=◌, ◌>>◌,
  assert, Rng, ltb, if◌then◌else◌,
}
use holistic_framework_for_l.Api.{Action, Protocol}
use holistic_framework_for_l.SortedLinkedList.{Ord}

-- `TIME_ON_AIR`
abbrev pub time_on_air : ℕ
time_on_air = 80

pub data MessageKind : Type 0 where
  transmit : MessageKind
  receive : MessageKind

pub record MessageWrapper (Message : Type 0) : Type 0 where
  pub kind : MessageKind
  pub channel : ℕ
  pub message : Message
  pub is_corrupt : Bool

pub record Event (Message : Type 0) : Type 0 where
  pub time : ℕ
  pub node_id : ℕ
  pub message : Option (MessageWrapper Message)

pub later_asymm : (x y : ℕ) → ltb y x ≡ true → ltb x y ≡ false
later_asymm x y h = ground arith

pub later_trans : (x y z : ℕ) → ltb y x ≡ false → ltb z y ≡ false → ltb z x ≡ false
later_trans x y z h k = ground arith

-- Events are ordered by time.
unfoldable pub by_time : {Message : Type 0} → Ord (Event Message)
by_time = record {
  gt = λ x y. ltb y.time x.time;
  asymm = λ x y. later_asymm x.time y.time;
  trans = λ x y z. later_trans x.time y.time z.time;
}

module _ (P : Protocol) (Coordinates : Type 0) where
  pub record ProtocolWrapper : Type 0 where
    pub protocol : P.Node
    pub location : Coordinates
    pub receiving_channel : Option ℕ

  abbrev pub id_of : ProtocolWrapper → ℕ
  id_of node = P.id node.protocol

  abbrev pub channel_of : Action ℕ P.Message ℕ → Option ℕ
  channel_of (Action.receive end channel) = some channel
  channel_of _ = none

  -- The dummy payload, if there is none.
  abbrev pub supplied : P.Node → P.Node
  supplied node = if P.has_payload node then node else P.set_payload node P.default_payload

  abbrev pub is_some : {A : Type 0} → Option A → Bool
  is_some none = false
  is_some (some a) = true

  -- `ProtocolWrapper::progress`
  unfoldable pub progress :
      ProtocolWrapper
      → ℕ
      → Option P.Message
      → Rng
      → Outcome (ProtocolWrapper × Action ℕ P.Message ℕ × Option (List P.Data) × Rng)
  progress node time message rng = do
    (protocol, action, uplink_data, rng') ← P.progress node.protocol time message rng
    assert (not (not (P.is_sink protocol) && is_some uplink_data))
    ok (
      record node { protocol = supplied protocol; receiving_channel = channel_of action },
      action,
      uplink_data,
      rng',
    )
