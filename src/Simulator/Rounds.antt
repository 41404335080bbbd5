-- ===== src/Simulator/Rounds.antt =====
-- A round of the simulator leaves every node one event and never goes back in time
-- (components/simulator/src/main.rs).
use holistic_framework_for_l.Base.{
  ◌/◌, ◌*◌, ◌⊎◌, ℕ, zero, suc, ◌+◌, ◌≤◌, ◌<◌, ◌≡◌, refl, sym, ap, ◌∙◌, inl, inr, Bool, true, false,
  Option, none, some, List, [], ◌∷◌, arith, length, get_elem?, set, Bool-cases, u64_mod, ok, ◌>>=◌,
  Returns, Returns-bind, Returns-unwrap, ◌==◌, ltb, leb, if◌then◌else◌, Rng,
}
use mathlib.Core.Path.{subst}
use holistic_framework_for_l.Api.{Action, Protocol}
use holistic_framework_for_l.SortedLinkedList.{SortedLinkedList, push, pop}
use holistic_framework_for_l.Simulator.{
  supplied, time_on_air, Event, by_time, ProtocolWrapper, id_of, progress,
}
use holistic_framework_for_l.Simulator.Medium.{forward_message}
use holistic_framework_for_l.Simulator.Owners.{OneEach-length}
use holistic_framework_for_l.Simulator.Forwarding.{Numbered, get_elem?-HasValue}
use holistic_framework_for_l.Simulator.Queue.{Waiting, Waiting-length, Due, push-Due, pop-Waiting}
use holistic_framework_for_l.Base.{add_u64, add_u64_exact}
use holistic_framework_for_l.Simulator.Forwarding.{Numbered-id}
use holistic_framework_for_l.Simulator.Loop.{
  delay_or_zero, sent, received, ends_before, event_of, Simulation, transmit_message, progress_node,
  handle, round,
}
use holistic_framework_for_l.Simulator.Transmissions.{forward_message-Waiting}

module _ (P : Protocol) (Coordinates : Type 0)
    (check_visibility : ProtocolWrapper P Coordinates → ProtocolWrapper P Coordinates → Bool) where
  -- The node is in time: what it waits for, or is to send, is not in the past.
  abbrev pub InTime : ℕ → Action ℕ P.Message ℕ → Type 0
  InTime time (Action.wait end) = time ≤ end
  InTime time (Action.receive end channel) = time ≤ end
  InTime time (Action.transmit channel message delay) = time + delay_or_zero delay < u64_mod
  InTime time Action.none = Unit

  -- What the protocol promises of a call: it keeps the node's identifier, hands data on at a sink
  -- only, and asks for no action in the past.
  pub record Promised (time : ℕ) (node : P.Node)
      (r : P.Node × Action ℕ P.Message ℕ × Option (List P.Data) × Rng) : Type 0 where
    pub same_id : P.id r.0 ≡ P.id node
    pub supplied_id : P.id (supplied P Coordinates r.0) ≡ P.id r.0
    pub in_time : InTime time r.1
    pub at_sink : (P.is_sink r.0 ≡ true) ⊎ (r.2 ≡ none)

  -- What holds between two rounds.
  pub record Running (s : Simulation P Coordinates check_visibility) : Type 0 where
    pub numbered : Numbered P Coordinates check_visibility 0 s.nodes
    pub due : Due (length s.nodes) s.time s.event_queue
    pub countable : length s.nodes + length s.nodes < u64_mod

  event_of-due :
      (time node_id : ℕ) (action : Action ℕ P.Message ℕ)
      → InTime time action
      → (ends_before time action ≡ false)
        × (time ≤ (event_of time node_id action).time)
        × ((event_of time node_id action).node_id ≡ node_id)
  unfolding event_of
  event_of-due time id (Action.wait end) h = (ground arith, h, refl)
  event_of-due time id (Action.receive end channel) h = (ground arith, h, refl)
  event_of-due time id (Action.transmit channel message delay) h =
      (refl, omega (arith, add_u64_exact time (delay_or_zero delay) h), refl)
  event_of-due time id Action.none h = (refl, omega arith, refl)

  set-Numbered :
      (k : ℕ) (nodes : List (ProtocolWrapper P Coordinates)) (i : ℕ)
      (node : ProtocolWrapper P Coordinates)
      → Numbered P Coordinates check_visibility k nodes
      → (i < length nodes → id_of P Coordinates node ≡ k + i)
      → Numbered P Coordinates check_visibility k (set nodes i node)
        × (length (set nodes i node) ≡ length nodes)
  set-Numbered k [] i node h e = (tt, refl)
  set-Numbered k (x ∷ nodes) zero node h e = ((e (omega arith) ∙ omega arith, h.1), refl)
  set-Numbered k (x ∷ nodes) (suc i) node h e =
      let r = set-Numbered (suc k) nodes i node h.1 (λ b. e (omega arith) ∙ omega arith) in
      ((h.0, r.0), ap suc r.1)

  -- The call of the wrapper.
  progress-Promised :
      (node : ProtocolWrapper P Coordinates) (time : ℕ) (message : Option P.Message) (rng : Rng)
      → Returns (Promised time node.protocol) (P.progress node.protocol time message rng)
      → Returns
          (λ r. (id_of P Coordinates r.0 ≡ id_of P Coordinates node) × InTime time r.1)
          (progress P Coordinates node time message rng)
  unfolding progress
  progress-Promised node time message rng h =
      Returns-bind _ _ (P.progress node.protocol time message rng) _ h
        (λ (protocol, action, uplink, rng') p. elim p.at_sink [
          | inl sink ↦ rw sink (p.supplied_id ∙ p.same_id, p.in_time)
          | inr nothing ↦ elim (Bool-cases (P.is_sink protocol)) [
            | inl sink ↦ rw sink (p.supplied_id ∙ p.same_id, p.in_time)
            | inr other ↦ rw (other, nothing) (p.supplied_id ∙ p.same_id, p.in_time)
          ]
        ])

  -- While the event of a node is being handled.
  pub record Handling (s : Simulation P Coordinates check_visibility) (event : Event P.Message)
      : Type 0 where
    pub numbered : Numbered P Coordinates check_visibility 0 s.nodes
    pub waiting : Waiting (length s.nodes) event.node_id s.time s.event_queue
    pub known : event.node_id < length s.nodes
    pub countable : length s.nodes + length s.nodes < u64_mod
    pub clock : s.time + time_on_air < u64_mod

  abbrev Kept :
      Simulation P Coordinates check_visibility → Simulation P Coordinates check_visibility → Type 0
  Kept s s' = Running s' × (s'.time ≡ s.time)

  transmit_message-Kept :
      (s : Simulation P Coordinates check_visibility) (event : Event P.Message) (c : ℕ)
      (m : P.Message)
      → Handling s event
      → Returns (Kept s) (transmit_message P Coordinates check_visibility s event (c, m))
  unfolding transmit_message
  transmit_message-Kept s event c m h =
      let short = Waiting-length (length s.nodes) s.time s.event_queue event h.waiting h.known in
      Returns-bind _ (Kept s)
        (forward_message P Coordinates check_visibility s.time event.node_id c m s.event_queue
          s.nodes none s.rng)
        _
        (forward_message-Waiting P Coordinates check_visibility s.time event.node_id c m
          s.event_queue s.nodes s.rng h.numbered h.waiting h.known (omega (arith, h.countable))
          h.clock)
        (λ (q, rng) w.
          let next : Event P.Message = record {
            time = add_u64 s.time time_on_air;
            node_id = event.node_id;
            message = none;
          } in
          let left = Waiting-length (length s.nodes) s.time q next w h.known in
          (
            record {
              numbered = h.numbered;
              due =
                  push-Due (length s.nodes) s.time q next w h.known
                    (omega (arith, add_u64_exact s.time time_on_air h.clock))
                    (omega (arith, h.countable));
              countable = h.countable;
            },
            refl,
          ))

  progress_node-Kept :
      (s : Simulation P Coordinates check_visibility) (event : Event P.Message)
      → Handling s event
      → ((node : ProtocolWrapper P Coordinates)
          → get_elem? s.nodes event.node_id ≡ some node
          → Returns
              (Promised s.time node.protocol)
              (P.progress node.protocol s.time (received event.message) s.rng))
      → Returns (Kept s) (progress_node P Coordinates check_visibility s event)
  unfolding progress_node
  progress_node-Kept s event h promise =
      let short = Waiting-length (length s.nodes) s.time s.event_queue event h.waiting h.known in
      Returns-unwrap (Kept s) (get_elem? s.nodes event.node_id) _
        (get_elem?-HasValue s.nodes event.node_id h.known)
        (λ node at_id.
          Returns-bind _ (Kept s)
            (progress P Coordinates node s.time (received event.message) s.rng) _
            (progress-Promised node s.time (received event.message) s.rng (promise node at_id))
            (λ (node', action, uplink, rng) (id, in_time).
              let (on_time, due, owner) = event_of-due s.time event.node_id action in_time in
              let (numbered, same) = set-Numbered 0 s.nodes event.node_id node' h.numbered (λ _.
                id
                ∙ Numbered-id P Coordinates check_visibility 0 s.nodes event.node_id node h.numbered
                    at_id) in
              let e = event_of s.time event.node_id action in
              rw on_time (
                record {
                  numbered = numbered;
                  due =
                      subst (λ n. Due n s.time (push by_time e s.event_queue)) (sym same)
                        (push-Due (length s.nodes) s.time s.event_queue e
                          (subst (λ i. Waiting (length s.nodes) i s.time s.event_queue) (sym owner)
                            h.waiting)
                          (subst (λ i. i < length s.nodes) (sym owner) h.known) due
                          (omega (arith, h.countable)));
                  countable = omega (arith, h.countable, same);
                },
                refl,
              )))

  handle-Kept :
      (minutes : ℕ) (s : Simulation P Coordinates check_visibility) (event : Event P.Message)
      → Handling s event
      → (sent event.message ≡ none
          → (node : ProtocolWrapper P Coordinates) → get_elem? s.nodes event.node_id ≡ some node
          → Returns
              (Promised s.time node.protocol)
              (P.progress node.protocol s.time (received event.message) s.rng))
      → Returns (λ r. Kept s r.0) (handle P Coordinates check_visibility minutes s event)
  unfolding handle
  handle-Kept minutes s event h promise = by_sent (sent event.message) refl
    where
      by_sent :
          (o : Option (ℕ × P.Message))
          → sent event.message ≡ o
          → Returns
              (λ (r : Simulation P Coordinates check_visibility × Bool). Kept s r.0)
              (elim o [
                | some m ↦
                    (transmit_message P Coordinates check_visibility s event m >>= λ s'.
                    ok (s', false))
                | none ↦
                    (progress_node P Coordinates check_visibility s event >>= λ s'.
                    ok (s', leb minutes (s'.time / (1000 * 60))))
              ])
      by_sent none nothing_sent =
          Returns-bind (Kept s) _ (progress_node P Coordinates check_visibility s event) _
            (progress_node-Kept s event h (promise nothing_sent)) (λ s' k. k)
      by_sent (some (c, m)) is_sent =
          Returns-bind (Kept s) _ (transmit_message P Coordinates check_visibility s event (c, m)) _
            (transmit_message-Kept s event c m h) (λ s' k. k)

  -- When every node has one event, a round whose node, if it is called, keeps its promise and whose
  -- time leaves room on the clock returns: no assertion fails. Its time is that of the first event, and
  -- every node has one event again, which is not in the past.
  pub round-Running :
      (minutes : ℕ) (s : Simulation P Coordinates check_visibility) (event : Event P.Message)
      (rest : SortedLinkedList (Event P.Message))
      → Running s
      → pop s.event_queue ≡ some (event, rest)
      → event.time + time_on_air < u64_mod
      → (sent event.message ≡ none
          → (node : ProtocolWrapper P Coordinates) → get_elem? s.nodes event.node_id ≡ some node
          → Returns
              (Promised event.time node.protocol)
              (P.progress node.protocol event.time (received event.message) s.rng))
      → Returns
          (λ r. Running r.0 × (r.0.time ≡ event.time))
          (round P Coordinates check_visibility minutes s)
  unfolding round
  round-Running minutes s event rest h popped clock promise =
      let (waiting, after, known) =
        pop-Waiting (length s.nodes) s.time s.event_queue rest event h.due popped in
      let all_there : (s.event_queue.len == length s.nodes) ≡ true = ground (
        arith,
        h.due.in_order.counted,
        OneEach-length (length s.nodes) s.event_queue.elements h.due.each,
      ) in
      let forward : leb s.time event.time ≡ true = ground arith in
      let now : (if ltb s.time event.time then event.time else s.time) ≡ event.time =
        ground arith in
      rw (all_there, popped, forward, now)
        (handle-Kept minutes (record s { event_queue = rest; time = event.time }) event
          (record {
            numbered = h.numbered;
            waiting = waiting;
            known = known;
            countable = h.countable;
            clock = clock;
          })
          promise)
