-- ===== src/Simulator/Network.antt =====
-- The simulator with the protocol that it is built with: `use lightning::Lightning as ProtocolImpl`
-- in components/simulator/src/main.rs. The payload that its nodes are given is the default of a u16.
pub mod Addressed
pub mod Nodes
pub mod Events
pub mod Steps
pub mod Calls
pub mod Rounds
pub mod Start
use holistic_framework_for_l.Base.{Option, none, some, Outcome, ok, ◌>>=◌, List}
use holistic_framework_for_l.Api.{Protocol}
use holistic_framework_for_l.Lightning.Params.{Payload}
use holistic_framework_for_l.Lightning.Message.{Message, NodeData}
use holistic_framework_for_l.Lightning.Context.{Containers, OwnAndChildData, Lightning}
use holistic_framework_for_l.Lightning.Node.{Progress, progress, set_payload, has_payload}

module _ (H : Containers) where
  -- `into_iter` of what `progress` hands on.
  abbrev pub handed_on : Option (OwnAndChildData H) → Option (List NodeData)
  handed_on none = none
  handed_on (some v) = some (H.own_and_child_data.as_slice v)

  -- `impl Protocol for Lightning`
  abbrev pub lightning : Protocol
  lightning = record {
    Node = Lightning H;
    Message = Message (OwnAndChildData H);
    Data = NodeData;
    Payload = Payload;
    default_payload = 0;
    progress = λ node time message rng. progress H node time message rng >>= λ r.
        ok (r.node, r.action, handed_on r.uplink_data, r.rng);
    id = λ node. node.id;
    is_sink = λ node. node.is_sink;
    set_payload = set_payload H;
    has_payload = has_payload H;
  }
