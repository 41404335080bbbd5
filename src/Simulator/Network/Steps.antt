-- ===== src/Simulator/Network/Steps.antt =====
-- What an event does to a network of sound nodes (`run` in components/simulator/src/main.rs).
use holistic_framework_for_l.Base.{
  ◌/◌, ◌*◌, ℕ, ◌+◌, ◌≤◌, ◌<◌, ◌≡◌, ◌≢◌, refl, sym, ◌∙◌, Bool, false, not, Option, none, some, List,
  [], ◌∷◌, arith, length, get_elem?, set, All, All-map, ok, ◌>>=◌, assert, Returns, Whenever,
  Whenever-bind, Whenever-after, Whenever-unwrap, add_u64, leb,
}
use mathlib.Core.Path.{subst}
use holistic_framework_for_l.Api.{Action}
use holistic_framework_for_l.Lightning.Message.{Message}
use holistic_framework_for_l.Lightning.Context.{Containers, OwnAndChildData}
use holistic_framework_for_l.Lightning.States.{LightningAction, get_action}
use holistic_framework_for_l.Lightning.Invariant.{reach}
use holistic_framework_for_l.Simulator
use holistic_framework_for_l.Simulator.{
  time_on_air, MessageWrapper, Event, by_time, ProtocolWrapper,
}
use holistic_framework_for_l.Simulator.Medium.{forward_message}
use holistic_framework_for_l.Simulator.Forwarding.{Numbered}
use holistic_framework_for_l.Simulator.Deliveries.{pushed_All}
use holistic_framework_for_l.Simulator.Loop.{
  sent, received, ends_before, event_of, Simulation, transmit_message, progress_node, handle,
}
use holistic_framework_for_l.Simulator.Network.{lightning}
use holistic_framework_for_l.Simulator.Network.Addressed.{forward_message-Of}
use holistic_framework_for_l.Simulator.Network.Nodes.{
  IsNode, IsNode-mono, Called, Wrapped, progress-Wrapped,
}
use holistic_framework_for_l.Simulator.Network.Events.{
  get_elem?-set_other, get_elem?-set_same, All-set, length-set, Fits, Meets, spoil-Fits, Hears-Fits,
  Meets-sent, event_of-Meets,
}

event_of-node_id :
    {M : Type 0} (time id : ℕ) (action : Action ℕ M ℕ) → (event_of time id action).node_id ≡ id
unfolding event_of
event_of-node_id time id (Action.wait end) = refl
event_of-node_id time id (Action.receive end channel) = refl
event_of-node_id time id (Action.transmit channel message delay) = refl
event_of-node_id time id Action.none = refl

module _ (H : Containers) (Coordinates : Type 0)
    (check_visibility : ProtocolWrapper (lightning H) Coordinates
      → ProtocolWrapper (lightning H) Coordinates
      → Bool) where
  abbrev pub Network : Type 0
  Network = Simulation (lightning H) Coordinates check_visibility

  abbrev pub Wrapper : Type 0
  Wrapper = ProtocolWrapper (lightning H) Coordinates

  abbrev pub NetworkEvent : Type 0
  NetworkEvent = Event (Message (OwnAndChildData H))

  abbrev pub Addressed : List (Wrapper) → NetworkEvent → Type 0
  Addressed nodes e = Fits H Coordinates check_visibility nodes e.node_id e.time e.message

  -- What stays of a network apart from its running.
  pub record Stays (t : ℕ) (s : Network) : Type 0 where
    pub inhabited : 0 < length s.nodes
    pub nodes : All (IsNode H Coordinates check_visibility t) s.nodes
    pub addressed : All (Addressed s.nodes) s.event_queue.elements

  pub Stays-mono : (t u : ℕ) (s : Network) → t ≤ u → Stays t s → Stays u s
  Stays-mono t u s b h = record {
    inhabited = h.inhabited;
    nodes =
        All-map _ _ (λ v k. IsNode-mono H Coordinates check_visibility t u v b k) s.nodes h.nodes;
    addressed = h.addressed;
  }

  transmit_message-Stays :
      (t : ℕ) (s : Network) (event : NetworkEvent) (c : ℕ) (m : Message (OwnAndChildData H))
      → Numbered (lightning H) Coordinates check_visibility 0 s.nodes
      → sent event.message ≡ some (c, m)
      → Addressed s.nodes event
      → Stays t s
      → Whenever
          (Stays t)
          (transmit_message (lightning H) Coordinates check_visibility s event (c, m))
  unfolding transmit_message
  transmit_message-Stays t s event c m numbered is_sent fits h =
      Whenever-bind (λ r. All (Addressed s.nodes) r.0.elements) (Stays t)
        (forward_message (lightning H) Coordinates check_visibility s.time event.node_id c m
          s.event_queue s.nodes none s.rng)
        _
        (forward_message-Of (lightning H) Coordinates check_visibility
          (Fits H Coordinates check_visibility s.nodes) s.nodes
          (spoil-Fits H Coordinates check_visibility s.nodes)
          (Hears-Fits H Coordinates check_visibility s.nodes) s.time event.node_id c m s.event_queue
          s.rng numbered h.addressed)
        (λ (q, rng) a. record {
          inhabited = h.inhabited;
          nodes = h.nodes;
          addressed =
              pushed_All
                (record {
                  time = add_u64 s.time time_on_air;
                  node_id = event.node_id;
                  message = none;
                })
                q (Addressed s.nodes)
                (λ w e end i. absurd (
                  Meets-sent H Coordinates check_visibility event.time w event.message (c, m)
                    is_sent (fits w e) end i))
                a;
        })

  progress_node-Stays :
      (t : ℕ) (s : Network) (event : NetworkEvent)
      → All (λ (e : NetworkEvent). event.node_id ≢ e.node_id) s.event_queue.elements
      → ((w : Wrapper)
          → get_elem? s.nodes event.node_id ≡ some w
          → Returns
              (Called H Coordinates check_visibility t s.time w.protocol)
              ((lightning H).progress w.protocol s.time (received event.message) s.rng))
      → Stays t s
      → Whenever
          (Stays (t + reach))
          (progress_node (lightning H) Coordinates check_visibility s event)
  unfolding progress_node
  progress_node-Stays t s event others called h =
      Whenever-unwrap (Stays (t + reach)) (get_elem? s.nodes event.node_id) _ (λ w at_id.
        Whenever-bind (Wrapped H Coordinates check_visibility t) (Stays (t + reach))
          (Simulator.progress (lightning H) Coordinates w s.time (received event.message) s.rng) _
          (progress-Wrapped H Coordinates check_visibility t s.time w (received event.message) s.rng
            (called w at_id))
          (λ (w', action, uplink, rng) (n, asks).
            Whenever-after (Stays (t + reach)) (assert (not (ends_before s.time action))) _ (λ u.
              let e = event_of s.time event.node_id action in
              let nodes = set s.nodes event.node_id w' in
              record {
                inhabited = omega (arith, h.inhabited, length-set s.nodes event.node_id w');
                nodes =
                    All-set (IsNode H Coordinates check_visibility (t + reach)) s.nodes
                      event.node_id w' n
                      (All-map _ _
                        (λ v k. IsNode-mono H Coordinates check_visibility t _ v (omega arith) k)
                        s.nodes h.nodes);
                addressed =
                    pushed_All e s.event_queue (Addressed nodes) (own_addressed w' action asks)
                      (others_addressed w' s.event_queue.elements others h.addressed);
              })))
    where
      others_addressed :
          (w : Wrapper) (es : List NetworkEvent)
          → All (λ (e : NetworkEvent). event.node_id ≢ e.node_id) es
          → All (Addressed s.nodes) es
          → All (Addressed (set s.nodes event.node_id w)) es
      others_addressed w [] o a = tt
      others_addressed w (e ∷ es) o a = (
        λ v at_id. a.0 v (sym (get_elem?-set_other s.nodes event.node_id e.node_id w o.0) ∙ at_id),
        others_addressed w es o.1 a.1,
      )

      own_addressed :
          (w : Wrapper) (action : LightningAction (OwnAndChildData H))
          → action ≡ get_action w.protocol.state
          → Addressed (set s.nodes event.node_id w) (event_of s.time event.node_id action)
      own_addressed w action asks v at_id =
          let here =
            subst (λ i. get_elem? (set s.nodes event.node_id w) i ≡ some v)
              (event_of-node_id s.time event.node_id action) at_id in
          subst
            (λ (x : Wrapper).
              Meets H Coordinates check_visibility x (event_of s.time event.node_id action).time
                (event_of s.time event.node_id action).message)
            (get_elem?-set_same s.nodes event.node_id w v here)
            (event_of-Meets H Coordinates check_visibility w s.time event.node_id action asks)

  pub handle-Stays :
      (minutes t : ℕ) (s : Network) (event : NetworkEvent)
      → Numbered (lightning H) Coordinates check_visibility 0 s.nodes
      → Addressed s.nodes event
      → All (λ (e : NetworkEvent). event.node_id ≢ e.node_id) s.event_queue.elements
      → (sent event.message ≡ none
          → (w : Wrapper) → get_elem? s.nodes event.node_id ≡ some w
          → Returns
              (Called H Coordinates check_visibility t s.time w.protocol)
              ((lightning H).progress w.protocol s.time (received event.message) s.rng))
      → Stays t s
      → Whenever
          (λ r. Stays (t + reach) r.0)
          (handle (lightning H) Coordinates check_visibility minutes s event)
  unfolding handle
  handle-Stays minutes t s event numbered fits others called h = by_sent (sent event.message) refl
    where
      by_sent :
          (o : Option (ℕ × Message (OwnAndChildData H)))
          → sent event.message ≡ o
          → Whenever
              (λ (r : Network × Bool). Stays (t + reach) r.0)
              (elim o [
                | some m ↦
                    (transmit_message (lightning H) Coordinates check_visibility s event m >>= λ s'.
                    ok (s', false))
                | none ↦
                    (progress_node (lightning H) Coordinates check_visibility s event >>= λ s'.
                    ok (s', leb minutes (s'.time / (1000 * 60))))
              ])
      by_sent none nothing_sent =
          Whenever-bind (Stays (t + reach)) _
            (progress_node (lightning H) Coordinates check_visibility s event) _
            (progress_node-Stays t s event others (called nothing_sent) h) (λ s' k. k)
      by_sent (some (c, m)) is_sent =
          Whenever-bind (Stays t) _
            (transmit_message (lightning H) Coordinates check_visibility s event (c, m)) _
            (transmit_message-Stays t s event c m numbered is_sent fits h)
            (λ s' k. Stays-mono t (t + reach) s' (omega arith) k)
