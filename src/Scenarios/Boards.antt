-- ===== src/Scenarios/Boards.antt =====
-- The theorems on the firmware, applied to a concrete board, and runs on it
-- (components/firmware/src/main.rs).
use holistic_framework_for_l.Base.{
  mul_u64, add_u64, sub_u64, ℕ, ◌+◌, ◌*◌, ◌/◌, ap, inr, ◌≤◌, ◌<◌, ◌≡◌, refl, true, none, some, List,
  [], ◌∷◌, arith, Returns, length, ◌↔◌, ok, panic, ◌>>=◌,
}
use holistic_framework_for_l.Heapless.Lists.{list_vec, list_queue}
use holistic_framework_for_l.Lightning.Params.{adjust_for_clock_inaccuracies}
use holistic_framework_for_l.Lightning.Message.{Message}
use holistic_framework_for_l.Lightning.Context.{OwnAndChildData}
use holistic_framework_for_l.Firmware.{negsuc, Reception, packet, Board}
use holistic_framework_for_l.Firmware.Frequencies.{
  InBand, lora_bandwidth_hz, get_channel_frequency, get_channel_frequency-InBand,
  get_channel_frequency_apart,
}
use holistic_framework_for_l.Firmware.Late.{round-late}
use holistic_framework_for_l.Firmware.Radio.{listen}
use holistic_framework_for_l.Firmware.Listening.{Heard, listen-Heard}
use holistic_framework_for_l.Firmware.Host.{Host, supply, round, rounds}
use holistic_framework_for_l.Firmware.Running.{IsRunning, StaysFair, rounds-IsRunning}
use holistic_framework_for_l.Lightning.States.{idle, State, get_action, delay_connect_ack}
use holistic_framework_for_l.Lightning.Context.{new, default_context}
use holistic_framework_for_l.Lightning.Windows
use holistic_framework_for_l.Lightning.Window.{
  beacon, overlaps, delay, delay_in_gaps, delay_window, get_offset_min,
}
use holistic_framework_for_l.Lightning.Node.{
  set_is_sink, set_payload, has_payload, progress, take_uplink_data,
}
use holistic_framework_for_l.Lightning.Channels.{set_random_children_channel, free_channels}
use holistic_framework_for_l.Lightning.StateMachine.{next, next_from}
use holistic_framework_for_l.Lightning.StateMachine.Steps.{
  push_window, to_idle, choose_children_channel,
}
use holistic_framework_for_l.Lightning.StateMachine.Joining.{after_reset}
use holistic_framework_for_l.Lightning.StateMachine.Serving.{
  leave_idle, open_window, beacon_sent, hear_connect,
}
use holistic_framework_for_l.Firmware.Radio.{get_modulation_params, lora_receive, lora_transmit}
use holistic_framework_for_l.Firmware.Host.{perform, progress_at}
use holistic_framework_for_l.Scenarios.{containers, sink, sink-Sound, zeros, window}

get_channel_frequency-InBand_example : Returns (λ f. InBand f ↔ (7 < 10)) (get_channel_frequency 7)
get_channel_frequency-InBand_example = get_channel_frequency-InBand 7 (omega arith)

get_channel_frequency_apart_example :
    Returns
      (λ f. Returns (λ g. f + 3 * lora_bandwidth_hz / 2 ≤ g) (get_channel_frequency 7))
      (get_channel_frequency 6)
get_channel_frequency_apart_example = get_channel_frequency_apart 6 7 (omega arith) (omega arith)

-- A clock that stands still but for packets and timers, and a radio that hears a message in each
-- packet.
abbrev hear_packet : ℕ → List ℕ → ℕ → Reception × ℕ
hear_packet timeout buffer t = (packet buffer (negsuc 19), t + 40)

abbrev board : Board (Message (OwnAndChildData containers))
board = record {
  State = ℕ;
  Modulation = ℕ;
  clock = λ t. t;
  now = λ t. (t, t);
  timer_at = λ end t. end;
  timer_after = λ delay t. t + delay;
  create_modulation_params = λ f t. (some f, t);
  prepare_for_rx = λ m t. (true, t);
  rx = hear_packet;
  enter_standby = λ t. t;
  prepare_for_tx = λ m buffer t. (true, t);
  tx = λ t. (true, t + 80);
  from_bytes = λ bytes. some (Message.connect (length bytes));
  to_vec = λ m. some (1 ∷ []);
  now-clock = λ t. refl;
  clock-now = λ t. omega arith;
  clock-create_modulation_params = λ f t. omega arith;
  clock-prepare_for_rx = λ m t. omega arith;
  create-HasValue = λ f t. (f, refl);
  clock-rx = λ timeout buffer received s t t' e. omega (arith, ap (λ p. p.1) e);
}

listen-Heard_example : Returns (Heard board) (listen board 1001 3 2000 1000 1000)
listen-Heard_example = listen-Heard board 1001 3 2000 1000 1000 (omega arith) (omega arith)

-- A sink that has just been switched on.
abbrev start : Host containers board
start = record { node = sink; n = 0; rx_msg = none; rng = zeros; board = 0 }

start-IsRunning : IsRunning containers board 1000 start
start-IsRunning = record { sound = sink-Sound; heard = tt }

abbrev shown : Host containers board → State (OwnAndChildData containers) × ℕ × ℕ
shown f = (f.node.state, f.board, f.n)

-- It sends a beacon, hears an answer and prepares to acknowledge it.
four_rounds :
    (rounds containers board 4 start >>= λ f. ok (shown f)) ≡ ok (delay_connect_ack 590 32, 590, 1)
unfolding list_queue list_vec set_is_sink set_payload has_payload new default_context progress
    take_uplink_data next next_from after_reset push_window to_idle choose_children_channel
    set_random_children_channel free_channels leave_idle open_window beacon_sent hear_connect
    mul_u64 add_u64 sub_u64 delay_in_gaps delay_window Windows.push Windows.push_loop
    Windows.push_round Windows.pop_overlapping_window Windows.new Windows.push_queue overlaps
    Windows.resolve delay get_offset_min Windows.next Windows.pop rounds round supply progress_at
    perform listen lora_receive lora_transmit get_modulation_params get_channel_frequency get_action
    adjust_for_clock_inaccuracies
four_rounds = refl

start-StaysFair : StaysFair containers board 4 1000 start
unfolding StaysFair list_queue list_vec set_is_sink set_payload has_payload new default_context
    progress take_uplink_data next next_from after_reset push_window to_idle choose_children_channel
    set_random_children_channel free_channels leave_idle open_window beacon_sent hear_connect
    mul_u64 add_u64 sub_u64 delay_in_gaps delay_window Windows.push Windows.push_loop
    Windows.push_round Windows.pop_overlapping_window Windows.new Windows.push_queue overlaps
    Windows.resolve delay get_offset_min Windows.next Windows.pop rounds round supply progress_at
    perform listen lora_receive lora_transmit get_modulation_params get_channel_frequency get_action
    adjust_for_clock_inaccuracies
start-StaysFair = (
  record { past = omega arith; granted = tt; feasible = tt },
  (
    record { past = omega arith; granted = refl; feasible = (omega arith, (1 ∷ [], refl)) },
    (
      record { past = omega arith; granted = tt; feasible = omega arith },
      (record { past = omega arith; granted = inr tt; feasible = tt }, tt),
    ),
  ),
)

rounds-IsRunning_example :
    Returns (IsRunning containers board 80_001_000) (rounds containers board 4 start)
rounds-IsRunning_example =
    rounds-IsRunning containers board 4 1000 start (omega arith) start-IsRunning start-StaysFair

-- The same node, about to send its beacon, but a millisecond late.
late : Host containers board
unfolding list_queue
late = record start {
  node = record sink {
    state = idle 0;
    context = record sink.context {
      windows = record { queue = (window beacon 0 ∷ [], (tt, tt), omega arith); clearance = 300 };
    };
  };
  board = 1;
}

round-late_example : round containers board late ≡ panic
unfolding late list_queue
round-late_example =
    round-late containers board late 0 (window beacon 0) [] refl refl refl (omega arith)
