-- ===== src/Lightning/States.antt =====
-- The states of the protocol and the action of each (components/protocol/lightning/src/states.rs).
use Prim.Native.String.{String}
use holistic_framework_for_l.Base.{ℕ, Option, some}
use holistic_framework_for_l.Api.{Action}
use holistic_framework_for_l.Lightning.Params.{TimeMs, Channel, NodeId, Hops, send_delay}
use holistic_framework_for_l.Lightning.Message.{Message}
use holistic_framework_for_l.Lightning.Window.{Window}

-- The fields stand in the order of the source.
pub data State (Data : Type 0) : Type 0 where
  reset : State Data
  listen_for_beacons : (end : TimeMs) (channel : Channel) → State Data
  wait_before_finding_parent : (end : TimeMs) → State Data
  wait_for_best_beacon : (best_beacon_hops : Hops) (end : TimeMs) → State Data
  listen_for_best_beacon : (best_beacon_hops : Hops) (end : TimeMs) (channel : Channel) → State Data
  delay_connect : (end connect_ack_listen_time : TimeMs) → State Data
  send_connect : (channel : Channel) (id : NodeId) (connect_ack_listen_time : TimeMs) → State Data
  wait_for_connect_ack : (end : TimeMs) (id : NodeId) → State Data
  listen_for_connect_ack : (end : TimeMs) (channel : Channel) (id : NodeId) → State Data
  idle : (end : TimeMs) → State Data
  send_beacon :
      (channel : Channel) (hops : Hops) (children_channel : Channel)
      (parent_channel : Option Channel)
      → State Data
  listen_for_data : (end : TimeMs) (channel : Channel) → State Data
  send_data_ack :
      (child_window : Window) (channel : Channel) (next_child_window_min : ℕ) → State Data
  send_data : (channel : Channel) → Data → State Data
  listen_for_data_ack : (end : TimeMs) (channel : Channel) → State Data
  listen_for_connect : (end : TimeMs) (channel : Channel) → State Data
  delay_connect_ack : (end : TimeMs) (id : NodeId) → State Data
  send_connect_ack :
      (child_window : Window) (channel : Channel) (next_child_window_min : ℕ) (id : NodeId)
      → State Data

abbrev pub LightningAction : Type 0 → Type 0
LightningAction Data = Action TimeMs (Message Data) Channel

-- `State::get_action`
unfoldable pub get_action : {Data : Type 0} → State Data → LightningAction Data
get_action reset = Action.none
get_action (listen_for_beacons end channel) = Action.receive end channel
get_action (wait_before_finding_parent end) = Action.wait end
get_action (wait_for_best_beacon best_beacon_hops end) = Action.wait end
get_action (listen_for_best_beacon best_beacon_hops end channel) = Action.receive end channel
get_action (send_connect channel id connect_ack_listen_time) =
    Action.transmit channel (Message.connect id) (some send_delay)
get_action (wait_for_connect_ack end id) = Action.wait end
get_action (listen_for_connect_ack end channel id) = Action.receive end channel
get_action (idle end) = Action.wait end
get_action (send_beacon channel hops children_channel parent_channel) =
    Action.transmit channel (Message.beacon hops children_channel parent_channel) (some send_delay)
get_action (listen_for_connect end channel) = Action.receive end channel
get_action (send_connect_ack child_window channel next_window_min id) =
    Action.transmit channel (Message.connect_ack next_window_min id) (some send_delay)
get_action (delay_connect_ack end id) = Action.wait end
get_action (listen_for_data end channel) = Action.receive end channel
get_action (send_data channel data_to_send) =
    Action.transmit channel (Message.own_data data_to_send) (some send_delay)
get_action (delay_connect end connect_ack_listen_time) = Action.wait end
get_action (send_data_ack child_window channel next_window_min) =
    Action.transmit channel (Message.data_ack next_window_min) (some send_delay)
get_action (listen_for_data_ack end channel) = Action.receive end channel

-- `State::state_as_string`
unfoldable pub state_as_string : {Data : Type 0} → State Data → String
state_as_string (delay_connect _ _) = "DelayConnect"
state_as_string (delay_connect_ack _ _) = "DelayConnectAck"
state_as_string (idle _) = "Idle"
state_as_string (listen_for_beacons _ _) = "ListenForBeacons"
state_as_string (listen_for_best_beacon _ _ _) = "ListenForBestBeacon"
state_as_string (listen_for_connect _ _) = "ListenForConnect"
state_as_string (listen_for_connect_ack _ _ _) = "ListenForConnectAck"
state_as_string (listen_for_data _ _) = "ListenForData"
state_as_string (listen_for_data_ack _ _) = "ListenForDataAck"
state_as_string reset = "Reset"
state_as_string (send_beacon _ _ _ _) = "SendBeacon"
state_as_string (send_connect _ _ _) = "SendConnect"
state_as_string (send_connect_ack _ _ _ _) = "SendConnectAck"
state_as_string (send_data _ _) = "SendData"
state_as_string (send_data_ack _ _ _) = "SendDataAck"
state_as_string (wait_before_finding_parent _) = "WaitBeforeFindingParent"
state_as_string (wait_for_best_beacon _ _) = "WaitForBestBeacon"
state_as_string (wait_for_connect_ack _ _) = "WaitForConnectAck"
