-- ===== src/Api.antt =====
-- What a protocol offers its host (components/protocol/api/src/lib.rs).
use holistic_framework_for_l.Base.{ℕ, Bool, Option, List, Outcome, Rng}

-- A state's action: do nothing, wait until a time, listen on a channel until a time, or send.
pub data Action (Time Message Channel : Type 0) : Type 0 where
  none : Action Time Message Channel
  wait : Time → Action Time Message Channel
  receive : Time → Channel → Action Time Message Channel
  transmit : Channel → Message → Option Time → Action Time Message Channel

-- The trait `Protocol`, with its time in milliseconds and its channels and identifiers as numbers.
pub record Protocol : Type 1 where
  pub Node : Type 0
  pub Message : Type 0
  pub Data : Type 0
  pub Payload : Type 0
  pub default_payload : Payload
  pub progress :
      Node
      → ℕ
      → Option Message
      → Rng
      → Outcome (Node × Action ℕ Message ℕ × Option (List Data) × Rng)
  pub id : Node → ℕ
  pub is_sink : Node → Bool
  pub set_payload : Node → Payload → Node
  pub has_payload : Node → Bool
