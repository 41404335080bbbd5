-- ===== src/Lightning/Uplink.antt =====
-- The way of the data: what `ListenForData` takes in and a parent window sends
-- (components/protocol/lightning/src/state_machine.rs).
use holistic_framework_for_l.Base.{
  ℕ, ◌+◌, ◌≤◌, ◌≡◌, refl, none, some, [], ◌++◌, length, Returns, Returns-bind, Returns-unwrap,
  HasValue, Rng,
}
use holistic_framework_for_l.Lightning.Params.{TimeMs, Channel, max_descendants}
use holistic_framework_for_l.Lightning.Window.{parent}
use holistic_framework_for_l.Lightning.States.{send_data}
use holistic_framework_for_l.Lightning.Context.{Containers, OwnAndChildData, Lightning}
use holistic_framework_for_l.Lightning.StateMachine.Steps.{Next, add_payload}
use holistic_framework_for_l.Lightning.StateMachine.Serving.{
  open_window, hear_data, next_child_window,
}
use holistic_framework_for_l.Base.{as_u8, u64_mod, ◌<◌}
use holistic_framework_for_l.Lightning.Params.{min_window_clearance}
use holistic_framework_for_l.Lightning.Window.{Window}
use holistic_framework_for_l.Lightning.Windows.Accepted.{IsValid}
use holistic_framework_for_l.Lightning.States.{send_data_ack}
use holistic_framework_for_l.Lightning.Reservation.{Reserved, next_child_window-Reserved}
use holistic_framework_for_l.Lightning.Invariant.{windows_in}
use holistic_framework_for_l.Lightning.Invariant.Payloads.{
  child_data_of, Collected, collect-room, add_payload-returns,
}

module _ (H : Containers) where
  -- What a node sends up: everything it has, once.
  pub record SentUp (n : Lightning H) (r : Next H) : Type 0 where
    pub channel : Channel
    pub to_parent : n.context.channels.parent ≡ some channel
    pub data_to_send : OwnAndChildData H
    pub sends : r.0 ≡ send_data channel data_to_send
    pub all : Collected H n.id n.payload n.context data_to_send
    pub none_kept : child_data_of H r.1.context ≡ []
    pub payload_taken : r.1.payload ≡ none

  -- At its parent window a node that has a parent sends the data of its children, in the order of
  -- arrival, and its own payload behind it, and keeps none of it.
  pub open_window-SentUp :
      (n : Lightning H) (time : TimeMs) (rng : Rng)
      → HasValue n.context.channels.parent
      → Returns (SentUp n) (open_window H parent n time rng)
  unfolding open_window
  open_window-SentUp n time rng known =
      let (collected, copied, all) = collect-room H n.context in
      rw copied (
        Returns-bind (Collected H n.id n.payload n.context) (SentUp n)
          (add_payload H n.id n.payload collected) _
          (add_payload-returns H n.id n.payload n.context collected all)
          (λ v c. Returns-unwrap (SentUp n) n.context.channels.parent _ known (λ channel e. record {
            channel = channel;
            to_parent = e;
            data_to_send = v;
            sends = refl;
            all = c;
            none_kept = H.child_data.as_slice-clear n.context.child_data;
            payload_taken = refl;
          })))

  -- The answer to a child's data: the data is kept, and a window reserved and announced.
  pub record TakenIn (n : Lightning H) (d : OwnAndChildData H) (time : TimeMs) (r : Next H)
      : Type 0 where
    pub window : Window
    pub minutes : ℕ
    pub reserved : Reserved H n time window minutes
    pub channel : Channel
    pub on_channel : n.context.channels.children ≡ some channel
    pub replies : r.0 ≡ send_data_ack window channel (as_u8 minutes)
    pub kept :
        child_data_of H r.1.context ≡ child_data_of H n.context ++ H.own_and_child_data.as_slice d
    pub unmoved : windows_in H r.1.context ≡ windows_in H n.context

  -- A node with valid windows, a children channel, room on the clock and room for the data of a
  -- child keeps the data, behind what it has, and answers
  -- with the first whole minute, from the fifth on, at which the child's next window is clear of
  -- its own, as an eight-bit number.
  pub hear_data-TakenIn :
      (t : ℕ) (time : TimeMs) (n : Lightning H) (d : OwnAndChildData H) (rng : Rng)
      → t + 1_000_000 < u64_mod
      → time ≤ t
      → IsValid H.windows min_window_clearance t n.context.windows
      → HasValue n.context.channels.children
      → length (child_data_of H n.context) + length (H.own_and_child_data.as_slice d)
        ≤ max_descendants
      → Returns (TakenIn n d time) (hear_data H d n time rng)
  unfolding hear_data
  hear_data-TakenIn t time n d rng budget past v c few =
      let (taken, extended, all) =
        H.child_data.extend_room (H.own_and_child_data.as_slice d) n.context.child_data few in
      let m = record n { context = record n.context { child_data = taken } } in
      let (k, r) = next_child_window-Reserved H t time m budget past v in
      rw (extended, r.offset)
        (Returns-unwrap (TakenIn n d time) n.context.channels.children _ c (λ channel e. record {
          window = next_child_window H m time;
          minutes = k;
          reserved = record {
            window = r.window;
            later = r.later;
            apart = r.apart;
            earliest = r.earliest;
            offset = r.offset;
          };
          channel = channel;
          on_channel = e;
          replies = refl;
          kept = all;
          unmoved = refl;
        }))
