-- ===== src/Lightning/Context.antt =====
-- What a node remembers beside its state (components/protocol/lightning/src/context.rs), and the
-- node itself (`Lightning` in lightning.rs). `Containers` stands for the crate `heapless`.
use holistic_framework_for_l.Base.{Bool, Option, none, false}
use holistic_framework_for_l.Heapless.{BoundedVec}
use holistic_framework_for_l.Lightning.Params.{
  TimeMs, NodeId, Payload, Hops, max_descendants, max_beacons_to_collect, min_window_clearance,
}
use holistic_framework_for_l.Base.{◌+◌}
use holistic_framework_for_l.Lightning.Channels.{Channels, default_channels}
use holistic_framework_for_l.Lightning.Message.{NodeData}
use holistic_framework_for_l.Lightning.States.{State, reset}
use holistic_framework_for_l.Lightning.Window.{WindowQueue}
use holistic_framework_for_l.Lightning.Windows
use holistic_framework_for_l.Lightning.Windows.{Windows}

pub record BeaconInfo : Type 0 where
  pub time_seen : TimeMs
  pub hops : Hops

-- The containers of `heapless` that the protocol instantiates.
pub record Containers : Type 1 where
  pub windows : WindowQueue
  pub child_data : BoundedVec NodeData max_descendants
  pub own_and_child_data : BoundedVec NodeData (max_descendants + 1)
  pub connect_beacons : BoundedVec BeaconInfo max_beacons_to_collect

module _ (H : Containers) where
  abbrev pub OwnAndChildData : Type 0
  OwnAndChildData = H.own_and_child_data.Vec

  pub record Context : Type 0 where
    pub channels : Channels
    pub windows : Windows H.windows
    pub hops_to_sink : Option Hops
    pub child_data : H.child_data.Vec
    pub potential_connect_beacons : H.connect_beacons.Vec

  -- `Context::default`, which is also what `Context::reset` writes.
  unfoldable pub default_context : Context
  unfolding Windows.new
  default_context = record {
    channels = default_channels;
    windows = Windows.new H.windows min_window_clearance;
    hops_to_sink = none;
    child_data = H.child_data.new;
    potential_connect_beacons = H.connect_beacons.new;
  }

  pub record Lightning : Type 0 where
    pub id : NodeId
    pub state : State OwnAndChildData
    pub context : Context
    pub is_sink : Bool
    pub payload : Option Payload

  -- `Lightning::new`
  unfoldable pub new : NodeId → Lightning
  unfolding default_context
  new id = record {
    id = id;
    state = reset;
    context = default_context;
    is_sink = false;
    payload = none;
  }
