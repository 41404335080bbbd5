-- ===== src/Lightning/StateMachine.antt =====
-- `Lightning::next`, the transitions of the protocol
-- (components/protocol/lightning/src/state_machine.rs): the match on the state and the message. The
-- code of each state is a function in `Steps`, `Joining` or `Serving`. `self` is threaded through; a
-- panic loses it. Log output is left out.
pub mod Steps
pub mod Joining
pub mod Serving
use holistic_framework_for_l.Base.{
  ℕ, ◌+◌, ◌*◌, ◌/◌, ◌%◌, Bool, true, false, Option, none, some, List, [], ◌∷◌, Outcome, ok, panic,
  ◌>>=◌, ◌>>◌, unwrap, assert, add_u64, mul_u64, as_u8, Rng, next_u32, advance, ltb, ◌==◌,
  if◌then◌else◌,
}
use holistic_framework_for_l.Lightning.Params.{
  TimeMs, NodeId, Channel, Hops, Payload, ms_per_min, beacon_interval_ms, child_data_interval_min,
  response_listen_duration_ms, data_receive_window, random_connect_range_ms,
  connect_response_delay_ms, best_beacon_listen_time, send_delay, adjust_for_clock_inaccuracies,
  adjust_for_clock_inaccuracies_sub,
}
use holistic_framework_for_l.Lightning.Channels.{Channels, set_random_children_channel}
use holistic_framework_for_l.Lightning.Message.{NodeData, Message}
use holistic_framework_for_l.Lightning.Window.{
  WindowKind, beacon, child, parent, Window, minutes, delay, get_offset_min,
}
use holistic_framework_for_l.Lightning.Windows
use holistic_framework_for_l.Lightning.Windows.{Windows}
use holistic_framework_for_l.Lightning.States.{
  State, reset, listen_for_beacons, wait_before_finding_parent, wait_for_best_beacon,
  listen_for_best_beacon, delay_connect, send_connect, wait_for_connect_ack, listen_for_connect_ack,
  idle, send_beacon, listen_for_data, send_data_ack, send_data, listen_for_data_ack,
  listen_for_connect, delay_connect_ack, send_connect_ack,
}
use holistic_framework_for_l.Lightning.Context.{
  BeaconInfo, Containers, OwnAndChildData, Context, default_context, Lightning,
}
use Steps.{Next, Handler, to_idle}
use Joining.{
  wait_again, after_reset, hear_beacon, choose_beacon, hear_best_beacon, give_up_on_beacon,
  hear_connect_ack,
}
use Serving.{
  leave_idle, beacon_sent, hear_connect, hear_no_connect, acknowledge_connect, connect_ack_sent,
  data_sent, hear_data_ack, hear_data, data_ack_sent, adjusted,
}

module _ (H : Containers) where
  -- The state is the node's; it is overwritten by the caller, `progress`.
  unfoldable pub next_from :
      State (OwnAndChildData H) → Option (Message (OwnAndChildData H)) → Handler H
  next_from reset none n time rng = after_reset H n time rng
  next_from (wait_before_finding_parent end) none n time rng =
      ok (listen_for_beacons (add_u64 time beacon_interval_ms) n.context.channels.public, n, rng)
  next_from (listen_for_beacons end channel) (some (Message.beacon hops _ _)) n time rng =
      hear_beacon H end channel hops n time rng
  next_from (listen_for_beacons end channel) none n time rng = choose_beacon H n time rng
  next_from (listen_for_beacons end channel) (some _) n time rng =
      ok (listen_for_beacons end channel, n, rng)
  next_from (wait_for_best_beacon best_beacon_hops end) none n time rng = ok (
    listen_for_best_beacon best_beacon_hops (add_u64 time best_beacon_listen_time)
        n.context.channels.public,
    n,
    rng,
  )
  next_from (listen_for_best_beacon best end channel)
        (some (Message.beacon hops children_channel parent_channel)) n time rng =
      hear_best_beacon H best end channel hops children_channel parent_channel n time rng
  next_from (listen_for_best_beacon best end channel) none n time rng =
      give_up_on_beacon H n time rng
  next_from (listen_for_best_beacon best end channel) (some _) n time rng =
      ok (listen_for_best_beacon best end channel, n, rng)
  next_from (delay_connect end connect_ack_listen_time) none n time rng = do
    channel ← unwrap n.context.channels.parent
    ok (send_connect channel n.id connect_ack_listen_time, n, rng)
  next_from (send_connect channel id connect_ack_listen_time) none n time rng =
      ok (wait_for_connect_ack connect_ack_listen_time id, n, rng)
  next_from (wait_for_connect_ack end id) none n time rng = do
    channel ← unwrap n.context.channels.parent
    ok (listen_for_connect_ack (add_u64 time response_listen_duration_ms) channel id, n, rng)
  next_from (listen_for_connect_ack end channel id)
        (some (Message.connect_ack next_window_min ack_id)) n time rng =
      if id == ack_id then hear_connect_ack H next_window_min n time rng else ok (reset, n, rng)
  next_from (listen_for_connect_ack end channel id) _ n time rng = ok (reset, n, rng)
  next_from (idle end) none n time rng = leave_idle H n time rng
  next_from (send_beacon _ _ _ _) none n time rng = beacon_sent H n time rng
  next_from (listen_for_connect end channel) (some (Message.connect id)) n time rng =
      hear_connect H end id n time rng
  next_from (listen_for_connect end channel) none n time rng = to_idle H n rng
  next_from (listen_for_connect end channel) (some _) n time rng =
      hear_no_connect H end channel n time rng
  next_from (delay_connect_ack end id) none n time rng = acknowledge_connect H id n time rng
  next_from (send_connect_ack child_window channel next_child_window_min id) none n time rng =
      connect_ack_sent H child_window next_child_window_min
        (record n {
          state =
              send_connect_ack (adjusted H child_window next_child_window_min time) channel
                next_child_window_min id;
        })
        time rng
  next_from (send_data _ _) none n time rng = data_sent H n time rng
  next_from (listen_for_data_ack _ _) (some (Message.data_ack next_window_min)) n time rng =
      hear_data_ack H next_window_min n time rng
  next_from (listen_for_data_ack _ _) _ n time rng = ok (reset, n, rng)
  next_from (listen_for_data _ _) (some (Message.own_data child_data)) n time rng =
      hear_data H child_data n time rng
  next_from (listen_for_data _ _) _ n time rng = to_idle H n rng
  next_from (send_data_ack child_window channel next_child_window_min) none n time rng =
      data_ack_sent H child_window next_child_window_min
        (record n {
          state =
              send_data_ack (adjusted H child_window next_child_window_min time) channel
                next_child_window_min;
        })
        time rng
  -- The combinations that the code marks as unreachable.
  next_from _ (some _) n time rng = panic

  -- `Lightning::next`
  unfoldable pub next :
      Lightning H → TimeMs → Option (Message (OwnAndChildData H)) → Rng → Outcome (Next H)
  unfolding next_from
  next n time message rng = next_from n.state message n time rng
