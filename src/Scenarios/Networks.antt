-- ===== src/Scenarios/Networks.antt =====
-- A simulation of a sink and another node that hear each other, and the theorem on networks applied
-- to it (components/simulator/src/main.rs).
use holistic_framework_for_l.Base.{
  ℕ, ◌≡◌, refl, inl, inr, Bool, true, false, none, List, [], ◌∷◌, arith, Outcome, ok, ◌>>=◌,
  Returns, mul_u64, add_u64, sub_u64,
}
use holistic_framework_for_l.Heapless.Lists.{list_vec, list_queue}
use holistic_framework_for_l.Lightning.Params.{
  adjust_for_clock_inaccuracies, adjust_for_clock_inaccuracies_sub,
}
use holistic_framework_for_l.Lightning.Channels.{set_random_children_channel, free_channels}
use holistic_framework_for_l.Lightning.Context.{OwnAndChildData, new, default_context}
use holistic_framework_for_l.Lightning.States.{State, get_action, idle, wait_for_best_beacon}
use holistic_framework_for_l.Lightning.Window.{overlaps, delay, delay_in_gaps, delay_window}
use holistic_framework_for_l.Lightning.Windows
use holistic_framework_for_l.Lightning.Node
use holistic_framework_for_l.Lightning.Node.{
  set_is_sink, set_payload, has_payload, take_uplink_data,
}
use holistic_framework_for_l.Lightning.StateMachine.{next, next_from}
use holistic_framework_for_l.Lightning.StateMachine.Steps.{
  push_window, to_idle, choose_children_channel,
}
use holistic_framework_for_l.Lightning.StateMachine.Joining.{after_reset, hear_beacon}
use holistic_framework_for_l.Lightning.StateMachine.Serving.{leave_idle, open_window, beacon_sent}
use holistic_framework_for_l.SortedLinkedList
use holistic_framework_for_l.Simulator
use holistic_framework_for_l.Simulator.{ProtocolWrapper, by_time}
use holistic_framework_for_l.Simulator.Medium.{
  does_not_overlap, get_recipients, drop_visible, mark_collisions, lose_some, deliver, forward_to,
  forward_message,
}
use holistic_framework_for_l.Simulator.Loop.{
  Simulation, start_up, start, event_of, transmit_message, progress_node, handle, round, rounds,
  loop,
}
use holistic_framework_for_l.Simulator.Network.{lightning}
use holistic_framework_for_l.Simulator.Network.Calls.{IsNetwork}
use holistic_framework_for_l.Simulator.Network.Rounds.{StaysFair, finished, loop-IsNetwork}
use holistic_framework_for_l.Simulator.Network.Start.{start-IsNetwork}
use holistic_framework_for_l.Scenarios.{containers, zeros}

abbrev node : ℕ → Bool → ProtocolWrapper (lightning containers) ℕ
node id is_sink = record {
  protocol = set_is_sink containers (new containers id) is_sink;
  location = 0;
  receiving_channel = none;
}

abbrev two_nodes : List (ProtocolWrapper (lightning containers) ℕ)
two_nodes = node 0 true ∷ node 1 false ∷ []

abbrev in_range :
    ProtocolWrapper (lightning containers) ℕ → ProtocolWrapper (lightning containers) ℕ → Bool
in_range a b = true

abbrev begun : Simulation (lightning containers) ℕ in_range
begun = start (lightning containers) ℕ in_range two_nodes zeros

begun-IsNetwork : IsNetwork containers ℕ in_range 100_000 begun
unfolding set_is_sink new
begun-IsNetwork =
    start-IsNetwork containers ℕ in_range 100_000 two_nodes zeros (refl, (refl, tt)) (omega arith)
      (omega arith) ((refl, refl), ((refl, refl), tt))

abbrev states :
    List (ProtocolWrapper (lightning containers) ℕ) → List (State (OwnAndChildData containers))
states [] = []
states (w ∷ ws) = w.protocol.state ∷ states ws

abbrev shown :
    Simulation (lightning containers) ℕ in_range × Bool
    → Outcome (List (State (OwnAndChildData containers)) × ℕ)
shown r = ok (states r.0.nodes, r.0.time)

-- The sink's beacon reaches the other node, which listens.
eight_rounds :
    (rounds (lightning containers) ℕ in_range 8 90 begun >>= shown)
    ≡ ok (idle 30085 ∷ wait_for_best_beacon 0 30084 ∷ [], 490)
unfolding list_queue list_vec set_is_sink set_payload has_payload new default_context Node.progress
    take_uplink_data next next_from after_reset push_window to_idle choose_children_channel
    set_random_children_channel free_channels leave_idle open_window beacon_sent hear_beacon mul_u64
    add_u64 sub_u64 delay_in_gaps delay_window Windows.push Windows.push_loop Windows.push_round
    Windows.pop_overlapping_window Windows.new Windows.push_queue overlaps Windows.resolve delay
    Windows.next Windows.pop get_action adjust_for_clock_inaccuracies
    adjust_for_clock_inaccuracies_sub rounds round handle progress_node transmit_message event_of
    Simulator.progress start start_up by_time SortedLinkedList.new SortedLinkedList.push
    SortedLinkedList.insert SortedLinkedList.pop SortedLinkedList.retain
    SortedLinkedList.retain_from forward_message forward_to deliver lose_some mark_collisions
    drop_visible get_recipients does_not_overlap
eight_rounds = refl

begun-StaysFair : StaysFair containers ℕ in_range 8 90 100_000 begun
unfolding list_queue list_vec set_is_sink set_payload has_payload new default_context Node.progress
    take_uplink_data next next_from after_reset push_window to_idle choose_children_channel
    set_random_children_channel free_channels leave_idle open_window beacon_sent hear_beacon mul_u64
    add_u64 sub_u64 delay_in_gaps delay_window Windows.push Windows.push_loop Windows.push_round
    Windows.pop_overlapping_window Windows.new Windows.push_queue overlaps Windows.resolve delay
    Windows.next Windows.pop get_action adjust_for_clock_inaccuracies
    adjust_for_clock_inaccuracies_sub StaysFair round handle progress_node transmit_message event_of
    Simulator.progress start start_up by_time SortedLinkedList.new SortedLinkedList.push
    SortedLinkedList.insert SortedLinkedList.pop SortedLinkedList.retain
    SortedLinkedList.retain_from forward_message forward_to deliver lose_some mark_collisions
    drop_visible get_recipients does_not_overlap
begun-StaysFair = (
  (omega arith, omega arith, λ h. (inr tt, omega arith)),
  λ e. (
    (omega arith, omega arith, λ h. (inr tt, omega arith)),
    λ e. (
      (omega arith, omega arith, λ h. (inl (0, refl), omega arith)),
      λ e. (
        (omega arith, omega arith, λ h. (inr tt, omega arith)),
        λ e. (
          (omega arith, omega arith, λ h. cc),
          λ e. (
            (omega arith, omega arith, λ h. (inr (inr (inl refl)), omega arith)),
            λ e. (
              (omega arith, omega arith, λ h. (inr tt, omega arith)),
              λ e. ((omega arith, omega arith, λ h. (inr tt, omega arith)), λ e. tt),
            ),
          ),
        ),
      ),
    ),
  ),
)

loop-IsNetwork_example :
    Returns
      (λ r.
        IsNetwork containers ℕ in_range 160_100_000 r.0
        × (loop (lightning containers) ℕ in_range 8 90 begun ≡ finished containers ℕ in_range r))
      (rounds (lightning containers) ℕ in_range 8 90 begun)
loop-IsNetwork_example =
    loop-IsNetwork containers ℕ in_range 8 90 100_000 begun (omega arith) begun-IsNetwork
      begun-StaysFair
