-- ===== src/Simulator/Network/Calls.antt =====
-- What a round of a network relies on, and the call of a node that it makes
-- (`run` in components/simulator/src/main.rs).
use holistic_framework_for_l.Base.{
  ◌*◌, ◌⊎◌, ℕ, ◌+◌, ◌≤◌, ◌<◌, ◌≡◌, ◌≢◌, refl, sym, inl, inr, Bool, Option, none, some, List, [],
  ◌∷◌, arith, length, get_elem?, get_elem?-All, All, u64_mod, Returns, sub_u64, Rng,
}
use mathlib.Core.Path.{subst}
use holistic_framework_for_l.Lightning.Message.{Message}
use holistic_framework_for_l.Lightning.Context.{Containers, OwnAndChildData}
use holistic_framework_for_l.Lightning.States.{idle}
use holistic_framework_for_l.Lightning.Invariant.{Expected, reach}
use holistic_framework_for_l.Lightning.Heard.{HeardIn, Granted, heard-Expected}
use holistic_framework_for_l.SortedLinkedList.{SortedLinkedList, pop}
use holistic_framework_for_l.SortedLinkedList.Order.{pop-IsSorted}
use holistic_framework_for_l.Simulator.{time_on_air, MessageWrapper, by_time, ProtocolWrapper}
use holistic_framework_for_l.Simulator.Queue.{pop-Waiting}
use holistic_framework_for_l.Simulator.Loop.{sent, received}
use holistic_framework_for_l.Simulator.Rounds.{Running}
use holistic_framework_for_l.Simulator.Network.{lightning}
use holistic_framework_for_l.Simulator.Network.Nodes.{IsNode, AsksInTime, Called, progress-Called}
use holistic_framework_for_l.Simulator.Network.Steps.{Network, NetworkEvent, Addressed, Stays}
use holistic_framework_for_l.Simulator.Network.Events.{
  owned-none, Meets, Listens-NotIdle, Meets-call,
}

-- What is there satisfies the predicate.
abbrev pub OfSome : {A : Type 0} → (A → Type 0) → Option A → Type 0
OfSome P none = Unit
OfSome P (some a) = P a

pub OfSome-eq : {A : Type 0} (P : A → Type 0) (o : Option A) (a : A) → o ≡ some a → OfSome P o → P a
OfSome-eq P o a e h = rw e at h

pub pop-HasValue :
    {A : Type 0} (q : SortedLinkedList A)
    → 0 < length q.elements
    → (a : A) × (rest : SortedLinkedList A) × (pop q ≡ some (a, rest))
unfolding pop
pop-HasValue {A} q h = by_elements q.elements refl
  where
    by_elements :
        (xs : List A)
        → q.elements ≡ xs
        → (a : A) × (rest : SortedLinkedList A) × (pop q ≡ some (a, rest))
    by_elements [] e = absurd (omega (arith, rw e at h))
    by_elements (x ∷ xs) e = (x, record { elements = xs; len = sub_u64 q.len 1 }, rw e refl)

module _ (H : Containers) (Coordinates : Type 0)
    (check_visibility : ProtocolWrapper (lightning H) Coordinates
      → ProtocolWrapper (lightning H) Coordinates
      → Bool) where
  -- Every node is sound and has one event, which is addressed to it.
  pub record IsNetwork (t : ℕ) (s : Network H Coordinates check_visibility) : Type 0 where
    pub running : Running (lightning H) Coordinates check_visibility s
    pub stays : Stays H Coordinates check_visibility t s

  -- What a call of a node relies on: of an idle node nothing, of any other what the code takes for
  -- granted of a message or of its absence. The action it asks for must not be in the past.
  abbrev pub IsFairCall :
      ℕ
      → Option (MessageWrapper (Message (OwnAndChildData H)))
      → Rng
      → ProtocolWrapper (lightning H) Coordinates
      → Type 0
  IsFairCall time message rng w =
      (((end : ℕ) × (w.protocol.state ≡ idle end))
        ⊎ Granted H w.protocol.state (received message) time w.protocol)
      × AsksInTime H Coordinates check_visibility w.protocol time (received message) rng

  -- What a round relies on, for windows that end before `t`.
  abbrev pub IsFairRound :
      ℕ
      → Network H Coordinates check_visibility
      → NetworkEvent H Coordinates check_visibility
        × SortedLinkedList (NetworkEvent H Coordinates check_visibility)
      → Type 0
  IsFairRound t s (event, rest) =
      (event.time ≤ t)
      × (event.time + time_on_air < u64_mod)
      × (sent event.message ≡ none
          → OfSome (IsFairCall event.time event.message s.rng) (get_elem? s.nodes event.node_id))

  call-Expected :
      (w : ProtocolWrapper (lightning H) Coordinates) (o : Option (Message (OwnAndChildData H)))
      (time : ℕ)
      → HeardIn H o w.protocol.state
      → ((end : ℕ) → w.protocol.state ≡ idle end → time ≡ end)
      → ((end : ℕ) × (w.protocol.state ≡ idle end)) ⊎ Granted H w.protocol.state o time w.protocol
      → Expected H w.protocol.state o time w.protocol.context
  call-Expected w o time heard on_time (inr g) =
      heard-Expected H w.protocol.state o time w.protocol heard g
  call-Expected w none time heard on_time (inl (end, e)) =
      subst (λ st. Expected H st none time w.protocol.context) (sym e) (on_time end e)
  call-Expected w (some m) time heard on_time (inl (end, e)) =
      absurd (Listens-NotIdle H Coordinates check_visibility w heard end e)

  -- The call that the round makes.
  event-Called :
      (t : ℕ) (s : Network H Coordinates check_visibility)
      (event : NetworkEvent H Coordinates check_visibility)
      (w : ProtocolWrapper (lightning H) Coordinates)
      → t + 2 * reach < u64_mod
      → event.time ≤ t
      → IsNode H Coordinates check_visibility t w
      → sent event.message ≡ none
      → Meets H Coordinates check_visibility w event.time event.message
      → IsFairCall event.time event.message s.rng w
      → Returns
          (Called H Coordinates check_visibility t event.time w.protocol)
          ((lightning H).progress w.protocol event.time (received event.message) s.rng)
  event-Called t s event w budget past n nothing_sent meets (granted, in_time) =
      let (heard, on_time) =
        Meets-call H Coordinates check_visibility t event.time w event.message n nothing_sent
          meets in
      progress-Called H Coordinates check_visibility t event.time w.protocol
        (received event.message) s.rng budget past n.sound
        (call-Expected w (received event.message) event.time heard on_time granted) in_time

  IsNode-at :
      {t : ℕ} (nodes : List (ProtocolWrapper (lightning H) Coordinates)) (i : ℕ)
      (w : ProtocolWrapper (lightning H) Coordinates)
      → i < length nodes
      → get_elem? nodes i ≡ some w
      → All (IsNode H Coordinates check_visibility t) nodes
      → IsNode H Coordinates check_visibility t w
  IsNode-at {t} nodes i w known at_id all =
      let (x, e, n) = get_elem?-All (IsNode H Coordinates check_visibility t) nodes i all known in
      let same : x ≡ w = cc in subst (IsNode H Coordinates check_visibility t) same n

  -- The event that a round takes out, and those that are left.
  pub record Popped (t : ℕ) (s : Network H Coordinates check_visibility)
      (event : NetworkEvent H Coordinates check_visibility)
      (rest : SortedLinkedList (NetworkEvent H Coordinates check_visibility)) : Type 0 where
    pub fits : Addressed H Coordinates check_visibility s.nodes event
    pub others :
        All
          (λ (e : NetworkEvent H Coordinates check_visibility). event.node_id ≢ e.node_id)
          rest.elements
    pub addressed : All (Addressed H Coordinates check_visibility s.nodes) rest.elements
    pub not_past : s.time ≤ event.time
    pub called :
        sent event.message ≡ none
        → (w : ProtocolWrapper (lightning H) Coordinates) → get_elem? s.nodes event.node_id ≡ some w
        → Returns
            (Called H Coordinates check_visibility t event.time w.protocol)
            ((lightning H).progress w.protocol event.time (received event.message) s.rng)

  pub pop-Popped :
      (t : ℕ) (s : Network H Coordinates check_visibility)
      (event : NetworkEvent H Coordinates check_visibility)
      (rest : SortedLinkedList (NetworkEvent H Coordinates check_visibility))
      → t + 2 * reach < u64_mod
      → IsNetwork t s
      → pop s.event_queue ≡ some (event, rest)
      → IsFairRound t s (event, rest)
      → Popped t s event rest
  pop-Popped t s event rest budget net popped (past, clock, fair) =
      let due = net.running.due in
      let (waiting, after, known) =
        pop-Waiting (length s.nodes) s.time s.event_queue rest event due popped in
      let (sorted, split, least) =
        pop-IsSorted by_time s.event_queue event rest due.in_order popped in
      let addressed =
        subst (All (Addressed H Coordinates check_visibility s.nodes)) split net.stays.addressed in
      record {
        fits = addressed.0;
        others = owned-none event.node_id rest.elements waiting.none_of;
        addressed = addressed.1;
        not_past = after;
        called = λ nothing_sent w at_id.
            event-Called t s event w budget past
              (IsNode-at s.nodes event.node_id w known at_id net.stays.nodes) nothing_sent
              (addressed.0 w at_id)
              (OfSome-eq (IsFairCall event.time event.message s.rng)
                (get_elem? s.nodes event.node_id) w at_id (fair nothing_sent));
      }
