-- ===== src/Simulator/Medium.antt =====
-- Who hears a message, and what collides (`get_recipients` and `forward_message` in
-- components/simulator/src/sim.rs).
use holistic_framework_for_l.Base.{
  ℕ, ◌%◌, Bool, true, false, ◌&&◌, ◌||◌, not, Option, none, some, List, [], ◌∷◌, get_elem?, Outcome,
  ok, ◌>>=◌, unwrap, add_u64, sub_u64, Rng, next_u32, advance, ltb, leb, ◌==◌, if◌then◌else◌,
}
use holistic_framework_for_l.Api.{Protocol}
use holistic_framework_for_l.SortedLinkedList
use holistic_framework_for_l.SortedLinkedList.{SortedLinkedList}
use holistic_framework_for_l.Simulator.{
  time_on_air, transmit, receive, MessageWrapper, Event, by_time, ProtocolWrapper, id_of,
}

-- The test of the recipients' membership.
abbrev pub contains : List ℕ → ℕ → Bool
contains [] n = false
contains (x ∷ xs) n = x == n || contains xs n

abbrev pub is_channel : Option ℕ → ℕ → Bool
is_channel none channel = false
is_channel (some c) channel = c == channel

-- Whether the event ends the search for collisions.
unfoldable pub does_not_overlap : {Message : Type 0} → ℕ → Event Message → Bool
does_not_overlap departure_time event =
    leb event.time departure_time
    || leb (add_u64 departure_time time_on_air) (sub_u64 event.time time_on_air)

-- Whether the event is the arrival of a message on the channel.
abbrev pub arrives_on : {Message : Type 0} → ℕ → Option (MessageWrapper Message) → Bool
arrives_on channel none = false
arrives_on channel (some m) = elim m.kind [ transmit ↦ false | receive ↦ m.channel == channel ]

abbrev pub spoil :
    {Message : Type 0} → Bool → Option (MessageWrapper Message) → Option (MessageWrapper Message)
spoil hit none = none
spoil hit (some m) = some (record m { is_corrupt = m.is_corrupt || hit })

module _ (P : Protocol) (Coordinates : Type 0)
    (check_visibility : ProtocolWrapper P Coordinates → ProtocolWrapper P Coordinates → Bool) where
  abbrev Wrapper : Type 0
  Wrapper = ProtocolWrapper P Coordinates

  abbrev Events : Type 0
  Events = SortedLinkedList (Event P.Message)

  -- The test of `get_recipients`.
  abbrev pub is_recipient : Wrapper → ℕ → Wrapper → Bool
  is_recipient sender channel node =
      is_channel node.receiving_channel channel
      && (check_visibility sender node
          && not (id_of P Coordinates node == id_of P Coordinates sender))

  unfoldable pub get_recipients : Wrapper → ℕ → List Wrapper → List ℕ
  get_recipients sender channel [] = []
  get_recipients sender channel (node ∷ nodes) =
      let rest = get_recipients sender channel nodes in
      if is_recipient sender channel node then id_of P Coordinates node ∷ rest else rest

  -- The `retain` on a collision: the recipients that are kept, and whether one was not.
  unfoldable pub drop_visible : Wrapper → List Wrapper → List ℕ → Outcome (List ℕ × Bool)
  drop_visible sender nodes [] = ok ([], false)
  drop_visible sender nodes (r ∷ rs) = do
    node ← unwrap (get_elem? nodes r)
    (kept, hit) ← drop_visible sender nodes rs
    ok (if check_visibility sender node then (kept, true) else (r ∷ kept, hit))

  -- The loop over the events.
  unfoldable pub mark_collisions :
      ℕ
      → Wrapper
      → ℕ
      → List Wrapper
      → List (Event P.Message)
      → List ℕ
      → Outcome (List (Event P.Message) × List ℕ)
  mark_collisions departure_time sender channel nodes [] recipients = ok ([], recipients)
  mark_collisions departure_time sender channel nodes (event ∷ events) recipients =
      let later = mark_collisions departure_time sender channel nodes events in
      if does_not_overlap departure_time event
      then ok (event ∷ events, recipients)
      else (if arrives_on channel event.message
          then (do
            (kept, hit) ← drop_visible sender nodes recipients
            (marked, left) ← later kept
            ok (record event { message = spoil hit event.message } ∷ marked, left))
          else (do (marked, left) ← later recipients; ok (event ∷ marked, left)))

  -- The simulated packet errors.
  unfoldable pub lose : ℕ → List ℕ → Rng → List ℕ × Rng
  lose per [] rng = ([], rng)
  lose per (r ∷ rs) rng =
      let (kept, rng') = lose per rs (advance rng) in
      (if ltb (next_u32 rng % 1000) per then kept else r ∷ kept, rng')

  unfoldable pub lose_some : Option ℕ → List ℕ → Rng → List ℕ × Rng
  lose_some none recipients rng = (recipients, rng)
  lose_some (some per) recipients rng = lose per recipients rng

  -- The arrivals.
  unfoldable pub deliver : ℕ → ℕ → P.Message → List ℕ → Events → Events
  deliver arrival channel message [] event_queue = event_queue
  deliver arrival channel message (r ∷ rs) event_queue = deliver arrival channel message rs (
      SortedLinkedList.push by_time
        (record {
          time = arrival;
          node_id = r;
          message =
              some (record {
                kind = receive;
                channel = channel;
                message = message;
                is_corrupt = false;
              });
        })
        event_queue)

  -- `forward_message`, from the search for collisions on.
  unfoldable pub forward_to : ℕ → ℕ → P.Message → Option ℕ → Events → List ℕ → Rng → Events × Rng
  forward_to departure_time channel message packet_error_rate_ppt event_queue [] rng =
      (event_queue, rng)
  forward_to departure_time channel message packet_error_rate_ppt event_queue (r ∷ rs) rng =
      let (recipients, rng') = lose_some packet_error_rate_ppt (r ∷ rs) rng in
      (
        deliver (add_u64 departure_time time_on_air) channel message recipients
            (SortedLinkedList.retain (λ e. not (contains recipients e.node_id)) event_queue),
        rng',
      )

  -- `forward_message`
  unfoldable pub forward_message :
      ℕ → ℕ → ℕ → P.Message → Events → List Wrapper → Option ℕ → Rng → Outcome (Events × Rng)
  forward_message departure_time sender_id channel message event_queue nodes per rng = do
    sender ← unwrap (get_elem? nodes sender_id)
    (events, recipients) ←
        mark_collisions departure_time sender channel nodes event_queue.elements
          (get_recipients sender channel nodes)
    ok (
        forward_to departure_time channel message per (record event_queue { elements = events })
          recipients rng)
