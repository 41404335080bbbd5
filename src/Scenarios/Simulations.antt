-- ===== src/Scenarios/Simulations.antt =====
-- The theorems on the simulator, applied to two nodes of a small protocol.
use holistic_framework_for_l.Base.{
  ℕ, ◌≡◌, refl, inr, true, false, Bool, none, some, List, [], ◌∷◌, arith, get_elem?, ok, Returns,
  sub_u64, add_u64,
}
use holistic_framework_for_l.Api.{Action, Protocol}
use holistic_framework_for_l.SortedLinkedList.{new, push, insert, pop}
use holistic_framework_for_l.Simulator.{receive, Event, ProtocolWrapper, by_time}
use holistic_framework_for_l.Simulator.Medium.{does_not_overlap}
use holistic_framework_for_l.Simulator.Loop.{Simulation, start_up, start, round}
use holistic_framework_for_l.Simulator.Rounds.{Running, Promised, round-Running}
use holistic_framework_for_l.Simulator.Start.{start-Running}
use holistic_framework_for_l.Simulator.Collisions.{after_collisions}
use holistic_framework_for_l.Scenarios.{zeros}

-- A node that sends its number on channel 3, whatever happens.
abbrev shouting : Protocol
shouting = record {
  Node = ℕ;
  Message = ℕ;
  Data = ℕ;
  Payload = ℕ;
  default_payload = 0;
  progress = λ node time message rng. ok (node, Action.transmit 3 node none, none, rng);
  id = λ node. node;
  is_sink = λ node. false;
  set_payload = λ node payload. node;
  has_payload = λ node. true;
}

abbrev wrapped : ℕ → ProtocolWrapper shouting ℕ
wrapped n = record { protocol = n; location = 0; receiving_channel = some 3 }

abbrev two : List (ProtocolWrapper shouting ℕ)
two = wrapped 0 ∷ wrapped 1 ∷ []

abbrev all_in_range : ProtocolWrapper shouting ℕ → ProtocolWrapper shouting ℕ → Bool
all_in_range a b = true

abbrev begun : Simulation shouting ℕ all_in_range
begun = start shouting ℕ all_in_range two zeros

start-Running_example : Running shouting ℕ all_in_range (start shouting ℕ all_in_range two zeros)
start-Running_example =
    start-Running shouting ℕ all_in_range two zeros (refl, (refl, tt)) (omega arith)

begun-Running : Running shouting ℕ all_in_range begun
begun-Running = start-Running shouting ℕ all_in_range two zeros (refl, (refl, tt)) (omega arith)

abbrev at_start : ℕ → Event ℕ
at_start id = record { time = 0; node_id = id; message = none }

begun-pop :
    pop begun.event_queue ≡ some (at_start 0, record { elements = at_start 1 ∷ []; len = 1 })
unfolding start start_up push insert pop by_time new add_u64 sub_u64
begun-pop = refl

begun-promise :
    (node : ProtocolWrapper shouting ℕ)
    → get_elem? begun.nodes 0 ≡ some node
    → Returns
        (Promised shouting ℕ all_in_range 0 node.protocol)
        (shouting.progress node.protocol 0 none begun.rng)
begun-promise node e = record {
  same_id = refl;
  supplied_id = refl;
  in_time = omega arith;
  at_sink = inr refl;
}

round-Running_example :
    Returns
      (λ r. Running shouting ℕ all_in_range r.0 × (r.0.time ≡ 0))
      (round shouting ℕ all_in_range 90 begun)
round-Running_example =
    round-Running shouting ℕ all_in_range 90 begun (at_start 0)
      (record { elements = at_start 1 ∷ []; len = 1 }) begun-Running begun-pop (omega arith)
      (λ nothing_sent. begun-promise)

-- A time-out, the arrivals of two messages at other nodes, and a recipient for a third.
abbrev upcoming : List (Event ℕ)
upcoming =
    record { time = 1030; node_id = 6; message = none }
    ∷ record {
      time = 1050;
      node_id = 7;
      message = some (record { kind = receive; channel = 3; message = 5; is_corrupt = false });
    }
    ∷ record {
      time = 1060;
      node_id = 8;
      message = some (record { kind = receive; channel = 3; message = 9; is_corrupt = false });
    }
    ∷ []

abbrev corrupt : List (Event ℕ) → List Bool
corrupt [] = []
corrupt (e ∷ es) = elim e.message [ none ↦ corrupt es | some m ↦ m.is_corrupt ∷ corrupt es ]

-- The recipient is dropped, and of the arrivals only the first is corrupt.
one_corrupt :
    let r = after_collisions shouting ℕ all_in_range 1000 3 upcoming (1 ∷ []) in
    (corrupt r.0 ≡ true ∷ false ∷ []) × (r.1 ≡ [])
unfolding does_not_overlap add_u64 sub_u64
one_corrupt = (refl, refl)
