-- ===== src/Simulator/Loop.antt =====
-- The main loop of the simulator (`run` in components/simulator/src/main.rs): each round handles the
-- earliest event. The loop runs for as many rounds as it is given, since nothing in the code bounds
-- them. Log output is left out.
use holistic_framework_for_l.Base.{
  ℕ, zero, suc, ◌*◌, ◌/◌, ◌%◌, Bool, true, false, not, Option, none, some, List, [], ◌∷◌, ◌++◌,
  length, get_elem?, set, Outcome, ok, diverges, ◌>>=◌, ◌>>◌, unwrap, assert, add_u64, Rng,
  next_u32, advance, ltb, leb, ◌==◌, if◌then◌else◌,
}
use holistic_framework_for_l.Api.{Action, Protocol}
use holistic_framework_for_l.SortedLinkedList
use holistic_framework_for_l.SortedLinkedList.{SortedLinkedList}
use holistic_framework_for_l.Simulator.{
  time_on_air, transmit, receive, MessageWrapper, Event, by_time, ProtocolWrapper, id_of, progress,
}
use holistic_framework_for_l.Simulator.Medium.{forward_message}

abbrev pub startup_delay_range_ms : ℕ
startup_delay_range_ms = 5 * 60 * 1000

abbrev pub packet_error_rate_ppt : Option ℕ
packet_error_rate_ppt = none

-- What an event that is a transmission sends, and on which channel.
abbrev pub sent : {Message : Type 0} → Option (MessageWrapper Message) → Option (ℕ × Message)
sent none = none
sent (some m) = elim m.kind [ transmit ↦ some (m.channel, m.message) | receive ↦ none ]

-- What a node receives with an event.
abbrev pub received : {Message : Type 0} → Option (MessageWrapper Message) → Option Message
received none = none
received (some m) = elim m.kind [
  | transmit ↦ none
  | receive ↦ (if m.is_corrupt then none else some m.message)
]

abbrev pub delay_or_zero : Option ℕ → ℕ
delay_or_zero none = 0
delay_or_zero (some delay) = delay

abbrev pub or_nil : {A : Type 0} → Option (List A) → List A
or_nil none = []
or_nil (some xs) = xs

-- Whether the action's end is in the past.
abbrev pub ends_before : {Message : Type 0} → ℕ → Action ℕ Message ℕ → Bool
ends_before time (Action.wait end) = ltb end time
ends_before time (Action.receive end channel) = ltb end time
ends_before time (Action.transmit channel message delay) = false
ends_before time Action.none = false

-- The event with which a node's action is over, or its transmission begins.
unfoldable pub event_of : {Message : Type 0} → ℕ → ℕ → Action ℕ Message ℕ → Event Message
event_of time node_id (Action.wait end) = record { time = end; node_id = node_id; message = none }
event_of time node_id (Action.receive end channel) = record {
  time = end;
  node_id = node_id;
  message = none;
}
event_of time node_id (Action.transmit channel message delay) = record {
  time = add_u64 time (delay_or_zero delay);
  node_id = node_id;
  message =
      some (record { kind = transmit; channel = channel; message = message; is_corrupt = false });
}
event_of time node_id Action.none = record { time = time; node_id = node_id; message = none }

module _ (P : Protocol) (Coordinates : Type 0)
    (check_visibility : ProtocolWrapper P Coordinates → ProtocolWrapper P Coordinates → Bool) where
  -- The variables of `run`.
  pub record Simulation : Type 0 where
    pub nodes : List (ProtocolWrapper P Coordinates)
    pub event_queue : SortedLinkedList (Event P.Message)
    pub data_so_far : List P.Data
    pub time : ℕ
    pub rng : Rng

  -- The loop over the nodes in front of the main loop.
  unfoldable pub start_up :
      List (ProtocolWrapper P Coordinates)
      → SortedLinkedList (Event P.Message)
      → Rng
      → SortedLinkedList (Event P.Message) × Rng
  start_up [] event_queue rng = (event_queue, rng)
  start_up (node ∷ nodes) event_queue rng =
      start_up nodes
        (SortedLinkedList.push by_time
          (record {
            time = next_u32 rng % startup_delay_range_ms;
            node_id = id_of P Coordinates node;
            message = none;
          })
          event_queue)
        (advance rng)

  unfoldable pub start : List (ProtocolWrapper P Coordinates) → Rng → Simulation
  unfolding start_up
  start nodes rng =
      let (event_queue, rng') = start_up nodes SortedLinkedList.new rng in
      record { nodes = nodes; event_queue = event_queue; data_so_far = []; time = 0; rng = rng' }

  -- A transmission: the message is forwarded, and its sender goes on when it has been sent.
  unfoldable pub transmit_message :
      Simulation → Event P.Message → ℕ × P.Message → Outcome Simulation
  transmit_message s event (channel, message) = do
    (event_queue, rng) ←
        forward_message P Coordinates check_visibility s.time event.node_id channel message
          s.event_queue s.nodes packet_error_rate_ppt s.rng
    ok (record s {
      event_queue =
          SortedLinkedList.push by_time
            (record { time = add_u64 s.time time_on_air; node_id = event.node_id; message = none })
            event_queue;
      rng = rng;
    })

  -- Any other event: its node makes progress.
  unfoldable pub progress_node : Simulation → Event P.Message → Outcome Simulation
  progress_node s event = do
    node ← unwrap (get_elem? s.nodes event.node_id)
    (node', action, uplink_data, rng) ←
        progress P Coordinates node s.time (received event.message) s.rng
    assert (not (ends_before s.time action))
    ok (record s {
      nodes = set s.nodes event.node_id node';
      event_queue =
          SortedLinkedList.push by_time (event_of s.time event.node_id action) s.event_queue;
      data_so_far = s.data_so_far ++ or_nil uplink_data;
      rng = rng;
    })

  -- The rest of a round, once the event has been taken out: the simulation, and whether it is over.
  unfoldable pub handle : ℕ → Simulation → Event P.Message → Outcome (Simulation × Bool)
  handle minutes s event = elim (sent event.message) [
    | some m ↦ (transmit_message s event m >>= λ s'. ok (s', false))
    | none ↦ (progress_node s event >>= λ s'. ok (s', leb minutes (s'.time / (1000 * 60))))
  ]

  -- One round of the loop.
  unfoldable pub round : ℕ → Simulation → Outcome (Simulation × Bool)
  round minutes s = do
    assert (s.event_queue.len == length s.nodes)
    (event, event_queue) ← unwrap (SortedLinkedList.pop s.event_queue)
    assert (leb s.time event.time)
    let time = if ltb s.time event.time then event.time else s.time
    handle minutes (record s { event_queue = event_queue; time = time }) event

  -- The loop, for so many rounds: the data that has been collected when it is over.
  unfoldable pub loop : ℕ → ℕ → Simulation → Outcome (List P.Data)
  loop zero minutes s = diverges
  loop (suc fuel) minutes s =
      let rest = loop fuel minutes in
      round minutes s >>= λ (s', over). if over then ok s'.data_so_far else rest s'

  -- The same loop, cut off after so many rounds: the simulation, and whether it is over.
  unfoldable pub rounds : ℕ → ℕ → Simulation → Outcome (Simulation × Bool)
  rounds zero minutes s = ok (s, false)
  rounds (suc k) minutes s =
      let rest = rounds k minutes in
      round minutes s >>= λ (s', over). if over then ok (s', true) else rest s'
