-- ===== src/Scenarios.antt =====
-- Runs of the protocol on concrete data, and the theorems applied there.
mod Checksums
pub mod Schedules
pub mod Answered
pub mod Libraries
pub mod Simulations
mod Boards
mod Networks
mod Services
mod Images
use holistic_framework_for_l.Base.{
  ℕ, ◌+◌, ◌*◌, ◌≤◌, ◌<◌, ◌≡◌, refl, true, false, Option, none, some, List, [], ◌∷◌, arith, length,
  All, Outcome, ok, panic, ◌>>=◌, Returns, Whenever, Rng, u64_mod, mul_u64,
}
use holistic_framework_for_l.Heapless.Lists.{list_vec, list_queue}
use holistic_framework_for_l.Lightning.Params.{
  TimeMs, max_descendants, max_windows, max_beacons_to_collect, min_window_clearance,
}
use holistic_framework_for_l.Lightning.Message.{Message, NodeData}
use holistic_framework_for_l.Lightning.Window.{
  WindowKind, beacon, child, parent, Window, WindowQueue, overlaps, delay, delay_in_gaps,
  delay_window, get_offset_min,
}
use holistic_framework_for_l.Lightning.Windows
use holistic_framework_for_l.Lightning.Windows.{Windows}
use holistic_framework_for_l.Lightning.Context.{
  BeaconInfo, Containers, OwnAndChildData, Context, Lightning, new, default_context,
}
use holistic_framework_for_l.Lightning.States.{State, idle, wait_before_finding_parent}
use holistic_framework_for_l.Lightning.Node.{set_is_sink, progress, take_uplink_data}
use holistic_framework_for_l.Lightning.Channels.{set_random_children_channel, free_channels}
use holistic_framework_for_l.Lightning.StateMachine.{next, next_from}
use holistic_framework_for_l.Lightning.StateMachine.Steps.{
  add_payload, push_window, to_idle, choose_children_channel,
}
use holistic_framework_for_l.Lightning.StateMachine.Joining.{after_reset}
use holistic_framework_for_l.Lightning.StateMachine.Serving.{
  leave_idle, open_window, beacon_sent, hear_connect, acknowledge_connect, connect_ack_sent,
  next_child_window, stop_beacons_if_full,
}
use holistic_framework_for_l.Lightning.Invariant.Runs.{
  Sound, Call, run, Obeys, run-Sound, Progressed, progress-Progressed,
}

abbrev pub queue : WindowQueue
queue = list_queue Window (λ w. w.start) max_windows

abbrev pub containers : Containers
containers = record {
  windows = queue;
  child_data = list_vec NodeData max_descendants;
  own_and_child_data = list_vec NodeData (max_descendants + 1);
  connect_beacons = list_vec BeaconInfo max_beacons_to_collect;
}

-- The windows of a queue after two pushes.
abbrev pub window : WindowKind → ℕ → Window
window k s = record { kind = k; start = s }

-- A beacon makes way for a child.
two_pushes :
    (do
      ws ← Windows.push queue (Windows.new queue 300) (window beacon 1000)
      ws' ← Windows.push queue ws (window child 1500)
      ok (queue.iter ws'.queue))
    ≡ ok (window child 1500 ∷ window beacon 2155 ∷ [])
unfolding list_queue Windows.push Windows.push_loop Windows.push_round
    Windows.pop_overlapping_window Windows.new Windows.push_queue overlaps Windows.resolve delay
two_pushes = refl

abbrev pub zeros : Rng
zeros = λ _. 0

-- A sink that takes on one child.
abbrev pub sink : Lightning containers
sink = set_is_sink containers (new containers 1) true

sink-Sound : Sound containers 1000 sink
unfolding set_is_sink new
sink-Sound = tt

abbrev pub host : List (Call containers)
host =
    (0, none)
    ∷ (0, none)
    ∷ (85, none)
    ∷ (300, some (Message.connect 7))
    ∷ (700, none)
    ∷ (780, none)
    ∷ []

host-Obeys : Obeys containers 1000 sink host zeros
unfolding list_queue list_vec set_is_sink new default_context run Obeys progress take_uplink_data
    next next_from after_reset push_window to_idle choose_children_channel
    set_random_children_channel free_channels leave_idle open_window beacon_sent hear_connect
    acknowledge_connect connect_ack_sent next_child_window stop_beacons_if_full Windows.is_full
    mul_u64 delay_in_gaps delay_window Windows.push Windows.push_loop Windows.push_round
    Windows.pop_overlapping_window Windows.new Windows.push_queue overlaps Windows.resolve delay
    get_offset_min Windows.next Windows.pop
host-Obeys = (
  omega arith,
  tt,
  (
    omega arith,
    refl,
    (omega arith, tt, (omega arith, tt, (omega arith, tt, (omega arith, (tt, tt), tt)))),
  ),
)

run-Sound_example : Returns (λ r. Sound containers 120_001_000 r.0) (run containers sink host zeros)
run-Sound_example = run-Sound containers host 1000 sink zeros (omega arith) sink-Sound host-Obeys

-- It has a child's window next, and then its own beacon's.
abbrev pub outcome : Lightning containers × Rng → State (OwnAndChildData containers) × List Window
outcome r = (r.0.state, queue.iter r.0.context.windows.queue)

host-run :
    (run containers sink host zeros >>= λ r. ok (outcome r))
    ≡ ok (idle 30_085, window beacon 30_085 ∷ window child 300_780 ∷ [])
unfolding list_queue list_vec set_is_sink new default_context run progress take_uplink_data next
    next_from after_reset push_window to_idle choose_children_channel set_random_children_channel
    free_channels leave_idle open_window beacon_sent hear_connect acknowledge_connect
    connect_ack_sent next_child_window stop_beacons_if_full mul_u64 delay_in_gaps delay_window
    Windows.push Windows.push_loop Windows.push_round Windows.pop_overlapping_window Windows.is_full
    Windows.new Windows.push_queue overlaps Windows.resolve delay get_offset_min Windows.next
    Windows.pop
host-run = refl

-- A sink that has a child's data and a payload of its own.
abbrev collecting : Lightning containers
unfolding list_vec
collecting = record sink {
  state = wait_before_finding_parent 0;
  context = record sink.context {
    child_data = (record { source = 7; payload = 70 } ∷ [], omega arith);
  };
  payload = some 10;
}

collecting-Sound : Sound containers 1000 collecting
unfolding list_queue list_vec set_is_sink new default_context Windows.new
collecting-Sound = record { clear = refl; no_windows = refl }

progress-Progressed_example :
    Returns
      (Progressed containers 20_001_000 collecting 0 none zeros)
      (progress containers collecting 0 none zeros)
unfolding collecting
progress-Progressed_example =
    progress-Progressed containers 1000 collecting 0 none zeros (omega arith) (omega arith)
      collecting-Sound tt

abbrev handed_on : Option (OwnAndChildData containers) → List (ℕ × ℕ)
handed_on none = []
handed_on (some v) = pairs (containers.own_and_child_data.as_slice v)
  where
    pairs : List NodeData → List (ℕ × ℕ)
    pairs [] = []
    pairs (d ∷ ds) = (d.source, d.payload) ∷ pairs ds

-- It hands on both.
both_handed_on :
    (progress containers collecting 0 none zeros >>= λ r. ok (handed_on r.uplink_data))
    ≡ ok ((7, 70) ∷ (1, 10) ∷ [])
unfolding collecting list_queue list_vec set_is_sink new default_context progress take_uplink_data
    next next_from add_payload
both_handed_on = refl
