-- ===== src/Lightning/Message.antt =====
-- The messages of the protocol (components/protocol/lightning/src/message.rs). `Data` is the type of
-- the vector that a data message carries.
use holistic_framework_for_l.Base.{ℕ, Option}
use holistic_framework_for_l.Lightning.Params.{NodeId, Payload, Hops}

pub record NodeData : Type 0 where
  pub source : NodeId
  pub payload : Payload

-- `next_window_min` is a number of minutes, a u8.
pub data Message (Data : Type 0) : Type 0 where
  beacon : Hops → ℕ → Option ℕ → Message Data
  connect : NodeId → Message Data
  connect_ack : ℕ → NodeId → Message Data
  own_data : Data → Message Data
  data_ack : ℕ → Message Data
  nack : Message Data
