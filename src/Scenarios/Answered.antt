-- ===== src/Scenarios/Answered.antt =====
-- The theorems on a connected node, applied to a node with one window.
use holistic_framework_for_l.Base.{
  ℕ, ◌<◌, ◌+◌, ◌≤◌, ◌≡◌, refl, inl, inr, ◌⊎◌, none, some, false, [], ◌∷◌, arith, length, ok, panic,
  HasValue, Returns, Rng,
}
use holistic_framework_for_l.Heapless.Lists.{list_vec, list_queue}
use holistic_framework_for_l.Lightning.Params.{TimeMs, min_window_clearance, max_descendants}
use holistic_framework_for_l.Lightning.Message.{Message, NodeData}
use holistic_framework_for_l.Lightning.Window.{WindowKind, beacon, child, parent}
use holistic_framework_for_l.Lightning.Windows.Accepted.{IsValid}
use holistic_framework_for_l.Lightning.States.{State, reset, idle}
use holistic_framework_for_l.Lightning.Context.{OwnAndChildData, Lightning}
use holistic_framework_for_l.Lightning.StateMachine.{next_from}
use holistic_framework_for_l.Lightning.StateMachine.Serving.{
  open_window, hear_data, connect_ack_sent, leave_idle,
}
use holistic_framework_for_l.Lightning.Invariant.{windows_in, Connected, Open, ChildFits, reach}
use holistic_framework_for_l.Lightning.Invariant.Bounds.{Holds}
use holistic_framework_for_l.Lightning.Invariant.Acks.{connect_ack_sent-Holds}
use holistic_framework_for_l.Lightning.Invariant.Payloads.{child_data_of}
use holistic_framework_for_l.Lightning.Listening.{Listens, Listens-or-panic}
use holistic_framework_for_l.Lightning.Uplink.{
  SentUp, open_window-SentUp, TakenIn, hear_data-TakenIn,
}
use holistic_framework_for_l.Lightning.Faults.{last_child_lost-panic}
use holistic_framework_for_l.Lightning.Node.{next_data_transmission}
use holistic_framework_for_l.Lightning.Upcoming.{Upcoming, next_data_transmission-Upcoming}
use holistic_framework_for_l.Lightning.Windows.Accepted.{of_kind}
use holistic_framework_for_l.Lightning.Windows.Views.{windows_of}
use holistic_framework_for_l.Scenarios.{containers, window, zeros}

abbrev datum : ℕ → NodeData
datum d = record { source = 9; payload = d }

-- A node whose only window is of the given kind, at 40 seconds.
unfoldable serving : WindowKind → Lightning containers
unfolding list_queue list_vec
serving k = record {
  id = 1;
  state = reset;
  context = record {
    channels = record {
      public = 0;
      parent = some 2;
      children = some 1;
      parents_parent_channel = none;
    };
    windows = record { queue = (window k 40_000 ∷ [], (tt, tt), omega arith); clearance = 300 };
    hops_to_sink = some 1;
    child_data = (datum 5 ∷ [], omega arith);
    potential_connect_beacons = ([], omega arith);
  };
  is_sink = false;
  payload = some 7;
}

serving-parent : HasValue (serving beacon).context.channels.parent
unfolding serving
serving-parent = (2, refl)

serving-children : HasValue (serving beacon).context.channels.children
unfolding serving
serving-children = (1, refl)

serving_child-children : HasValue (serving child).context.channels.children
unfolding serving
serving_child-children = (1, refl)

open_window-SentUp_example :
    Returns
      (SentUp containers (serving beacon))
      (open_window containers parent (serving beacon) 100 zeros)
open_window-SentUp_example = open_window-SentUp containers (serving beacon) 100 zeros serving-parent

serving-IsValid :
    IsValid containers.windows min_window_clearance 50_000 (serving beacon).context.windows
unfolding serving list_queue
serving-IsValid = record { clear = refl; apart = (tt, tt); within = (omega arith, tt) }

unfoldable received : OwnAndChildData containers
unfolding list_vec
received = (datum 8 ∷ [], omega arith)

received-few :
    length (child_data_of containers (serving beacon).context)
      + length (containers.own_and_child_data.as_slice received)
    ≤ max_descendants
unfolding serving received list_vec
received-few = omega arith

hear_data-TakenIn_example :
    Returns
      (TakenIn containers (serving beacon) received 100)
      (hear_data containers received (serving beacon) 100 zeros)
hear_data-TakenIn_example =
    hear_data-TakenIn containers 50_000 100 (serving beacon) received zeros (omega arith)
      (omega arith) serving-IsValid serving-children received-few

serving-Connected : Connected containers 0 0 0 50_000 (serving beacon).context
unfolding serving list_queue
serving-Connected = record {
  valid = serving-IsValid;
  children_known = (1, refl);
  hops_known = (1, refl);
  one_beacon = omega arith;
  one_parent = omega arith;
  few_children = omega arith;
  room_for_child = inl (omega arith);
  parent_known = inr (2, refl);
}

serving-Open : Open containers (serving beacon).context
unfolding serving list_queue
serving-Open = (omega arith, omega arith)

serving-ChildFits : ChildFits containers (window child 0) 6 100 (serving beacon).context
unfolding serving list_queue
serving-ChildFits = (tt, tt)

connect_ack_sent-Holds_example :
    Returns
      (Holds containers (50_000 + reach))
      (connect_ack_sent containers (window child 0) 6 (serving beacon) 100 zeros)
connect_ack_sent-Holds_example =
    connect_ack_sent-Holds containers 50_000 100 (omega arith) (omega arith) (serving beacon)
      (window child 0) 6 zeros (serving-Connected, serving-Open) refl (omega arith)
      serving-ChildFits

Listens-or-panic_example :
    Listens containers (idle 5)
    ⊎ ((n : Lightning containers) (time : TimeMs) (rng : Rng)
        → next_from containers (idle 5) (some (Message.data_ack 6)) n time rng ≡ panic)
Listens-or-panic_example = Listens-or-panic containers (idle 5) (Message.data_ack 6)

serving-alone : windows_in containers (serving child).context ≡ window child 40_000 ∷ []
unfolding serving list_queue
serving-alone = refl

last_child_lost-panic_example :
    (st : State (OwnAndChildData containers)) × (m : Lightning containers) × (leave_idle containers
        (serving child)
        40_000
        zeros
      ≡ ok (st, m, zeros))
    × (next_from containers st none m 40_350 zeros ≡ panic)
last_child_lost-panic_example =
    last_child_lost-panic containers (serving child) (window child 40_000) 40_000 40_350 zeros
      serving-alone refl refl serving_child-children

serving-sends : 0 < of_kind parent (windows_of containers.windows (serving parent).context.windows)
unfolding serving list_queue
serving-sends = omega arith

next_data_transmission-Upcoming_example :
    Returns
      (λ t.
        Upcoming parent (windows_of containers.windows (serving parent).context.windows) (some t))
      (next_data_transmission containers (serving parent))
next_data_transmission-Upcoming_example =
    next_data_transmission-Upcoming containers (serving parent) serving-sends
