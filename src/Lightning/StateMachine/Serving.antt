-- ===== src/Lightning/StateMachine/Serving.antt =====
-- The transitions of a connected node, from `Idle` to `SendDataAck`
-- (components/protocol/lightning/src/state_machine.rs).
use holistic_framework_for_l.Base.{
  ℕ, none, ok, ◌>>=◌, ◌>>◌, unwrap, assert, add_u64, mul_u64, as_u8, ltb, ◌==◌, if◌then◌else◌,
}
use holistic_framework_for_l.Lightning.Params.{
  TimeMs, NodeId, Channel, ms_per_min, beacon_interval_ms, child_data_interval_min,
  response_listen_duration_ms, data_receive_window, random_connect_range_ms,
  connect_response_delay_ms, send_delay, adjust_for_clock_inaccuracies,
}
use holistic_framework_for_l.Lightning.Window.{
  WindowKind, beacon, child, parent, Window, minutes, delay, get_offset_min,
}
use holistic_framework_for_l.Lightning.Windows
use holistic_framework_for_l.Lightning.Windows.{Windows}
use holistic_framework_for_l.Lightning.States.{
  send_beacon, listen_for_data, send_data_ack, send_data, listen_for_data_ack, listen_for_connect,
  delay_connect_ack, send_connect_ack,
}
use holistic_framework_for_l.Lightning.Context.{Containers, OwnAndChildData, Lightning}
use holistic_framework_for_l.Lightning.StateMachine.Steps.{
  min_to_ms, Handler, with_windows, push_window, to_idle, add_payload,
}

module _ (H : Containers) where
  -- The three cases of `Idle`, by the kind of the window that begins.
  unfoldable pub open_window : WindowKind → Handler H
  open_window beacon n time rng = do
    hops ← unwrap n.context.hops_to_sink
    children_channel ← unwrap n.context.channels.children
    ok (
      send_beacon n.context.channels.public hops children_channel n.context.channels.parent,
      n,
      rng,
    )
  open_window child n time rng = do
    channel ← unwrap n.context.channels.children
    ok (listen_for_data (add_u64 time data_receive_window) channel, n, rng)
  open_window parent n time rng = do
    collected ←
        unwrap (H.own_and_child_data.from_slice (H.child_data.as_slice n.context.child_data))
    let cleared = record n {
      context = record n.context { child_data = H.child_data.clear n.context.child_data };
      payload = none;
    }
    own_and_child ← add_payload H n.id n.payload collected
    channel ← unwrap n.context.channels.parent
    ok (send_data channel own_and_child, cleared, rng)

  -- `Idle`: the window that is due is taken out, and must begin now.
  unfoldable pub leave_idle : Handler H
  leave_idle n time rng = do
    (next_window, ws) ← Windows.pop H.windows n.context.windows
    assert (next_window.start == time)
    open_window next_window.kind (with_windows H n ws) time rng

  unfoldable pub beacon_sent : Handler H
  beacon_sent n time rng = do
    m ← push_window H n (record { kind = beacon; start = add_u64 time beacon_interval_ms })
    channel ← unwrap m.context.channels.children
    ok (
      listen_for_connect
          (add_u64 time
            (adjust_for_clock_inaccuracies (add_u64 random_connect_range_ms send_delay)))
          channel,
      m,
      rng,
    )

  unfoldable pub hear_connect : TimeMs → NodeId → Handler H
  hear_connect end id n time rng = ok (
    delay_connect_ack (add_u64 end (adjust_for_clock_inaccuracies connect_response_delay_ms)) id,
    n,
    rng,
  )

  unfoldable pub hear_no_connect : TimeMs → Channel → Handler H
  hear_no_connect end channel n time rng =
      if ltb time end then ok (listen_for_connect end channel, n, rng) else to_idle H n rng

  -- The window of a child five minutes on, delayed by whole minutes until it fits.
  unfoldable pub next_child_window : Lightning H → TimeMs → Window
  next_child_window n time =
      delay
        (record { kind = child; start = add_u64 time (mul_u64 child_data_interval_min ms_per_min) })
        (H.windows.iter n.context.windows.queue) n.context.windows.clearance minutes

  unfoldable pub acknowledge_connect : NodeId → Handler H
  acknowledge_connect id n time rng = do
    let child_window = next_child_window n time
    offset ← get_offset_min child_window time
    channel ← unwrap n.context.channels.children
    ok (send_connect_ack child_window channel (as_u8 offset) id, n, rng)

  -- The child's window, now that its message has been on the air.
  abbrev pub adjusted : Window → ℕ → TimeMs → Window
  adjusted child_window next_child_window_min time = record child_window {
    start = add_u64 time (min_to_ms next_child_window_min);
  }

  -- A node with as many children as it can serve no longer sends beacons.
  unfoldable pub stop_beacons_if_full : Lightning H → Lightning H
  stop_beacons_if_full n =
      if Windows.is_full H.windows n.context.windows
      then with_windows H n (Windows.pop_kind H.windows n.context.windows beacon).1
      else n

  unfoldable pub connect_ack_sent : Window → ℕ → Handler H
  connect_ack_sent child_window next_child_window_min n time rng = do
    m ← push_window H n (adjusted child_window next_child_window_min time)
    to_idle H (stop_beacons_if_full m) rng

  unfoldable pub data_sent : Handler H
  data_sent n time rng = do
    channel ← unwrap n.context.channels.parent
    ok (listen_for_data_ack (add_u64 time response_listen_duration_ms) channel, n, rng)

  unfoldable pub hear_data_ack : ℕ → Handler H
  hear_data_ack next_window_min n time rng = do
    m ← push_window H n (record {
      kind = parent;
      start = add_u64 time (adjust_for_clock_inaccuracies (min_to_ms next_window_min));
    })
    to_idle H m rng

  unfoldable pub hear_data : OwnAndChildData H → Handler H
  hear_data child_data n time rng = do
    collected ← unwrap (
        H.child_data.extend_from_slice (H.own_and_child_data.as_slice child_data)
          n.context.child_data)
    let m = record n { context = record n.context { child_data = collected } }
    let child_window = next_child_window m time
    offset ← get_offset_min child_window time
    channel ← unwrap m.context.channels.children
    ok (send_data_ack child_window channel (as_u8 offset), m, rng)

  unfoldable pub data_ack_sent : Window → ℕ → Handler H
  data_ack_sent child_window next_child_window_min n time rng = do
    m ← push_window H n (adjusted child_window next_child_window_min time)
    to_idle H m rng
