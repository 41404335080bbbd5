-- ===== src/Simulator/Network/Addressed.antt =====
-- Properties of events and of the nodes that they are addressed to, when a message is forwarded
-- (`forward_message` in components/simulator/src/sim.rs).
use holistic_framework_for_l.Base.{
  ℕ, suc, ◌≡◌, refl, inl, inr, Bool, true, false, ◌&&◌, not, Option, none, some, List, [], ◌∷◌,
  arith, get_elem?, All, Bool-cases, unwrap, Whenever, Whenever-bind, Whenever-after, HasValue,
  sub_u64, Rng,
}
use mathlib.Core.Path.{subst}
use holistic_framework_for_l.Api.{Protocol}
use holistic_framework_for_l.SortedLinkedList.{SortedLinkedList, push, retain, retain_from}
use holistic_framework_for_l.Simulator.{
  receive, MessageWrapper, Event, by_time, ProtocolWrapper, id_of,
}
use holistic_framework_for_l.Simulator.Medium.{
  contains, is_channel, does_not_overlap, arrives_on, spoil, is_recipient, get_recipients,
  drop_visible, mark_collisions, lose_some, deliver, forward_to, forward_message,
}
use holistic_framework_for_l.Simulator.Forwarding.{Numbered, Numbered-id}
use holistic_framework_for_l.Simulator.Deliveries.{pushed_All}

retain_from-All :
    {A : Type 0} (Q : A → Type 0) (f : A → Bool) (xs : List A) (len : ℕ)
    → All Q xs
    → All Q (retain_from f xs len).elements
unfolding retain_from
retain_from-All Q f [] len h = tt
retain_from-All Q f (x ∷ xs) len h = elim (Bool-cases (f x)) [
  | inl kept ↦ rw kept (h.0, retain_from-All Q f xs len h.1)
  | inr dropped ↦ rw dropped (retain_from-All Q f xs (sub_u64 len 1) h.1)
]

module _ (P : Protocol) (Coordinates : Type 0)
    (check_visibility : ProtocolWrapper P Coordinates → ProtocolWrapper P Coordinates → Bool) where
  -- A node that can be a recipient: one that listens.
  abbrev pub Hears : List (ProtocolWrapper P Coordinates) → ℕ → Type 0
  Hears nodes r =
      (node : ProtocolWrapper P Coordinates)
      → get_elem? nodes r ≡ some node
      → HasValue node.receiving_channel

  is_channel-HasValue : (o : Option ℕ) (c : ℕ) → is_channel o c ≡ true → HasValue o
  is_channel-HasValue none c h = cc
  is_channel-HasValue (some d) c h = (d, refl)

  and_left : (a b : Bool) → a && b ≡ true → a ≡ true
  and_left true b h = refl
  and_left false b h = h

  get_recipients-All :
      (Q : ℕ → Type 0) (sender : ProtocolWrapper P Coordinates) (c : ℕ)
      (nodes : List (ProtocolWrapper P Coordinates))
      → ((i : ℕ) (node : ProtocolWrapper P Coordinates)
          → get_elem? nodes i ≡ some node
          → HasValue node.receiving_channel
          → Q (id_of P Coordinates node))
      → All Q (get_recipients P Coordinates check_visibility sender c nodes)
  unfolding get_recipients
  get_recipients-All Q sender c [] h = tt
  get_recipients-All Q sender c (node ∷ nodes) h =
      let rest = get_recipients-All Q sender c nodes (λ i n e. h (suc i) n e) in
      elim (Bool-cases (is_recipient P Coordinates check_visibility sender c node)) [
        | inl hears ↦ rw hears (
          h 0 node refl (is_channel-HasValue node.receiving_channel c (and_left _ _ hears)),
          rest,
        )
        | inr deaf ↦ rw deaf rest
      ]

  -- Recipients listen.
  get_recipients-Hears :
      (sender : ProtocolWrapper P Coordinates) (c : ℕ)
      (nodes : List (ProtocolWrapper P Coordinates))
      → Numbered P Coordinates check_visibility 0 nodes
      → All (Hears nodes) (get_recipients P Coordinates check_visibility sender c nodes)
  get_recipients-Hears sender c nodes numbered =
      get_recipients-All (Hears nodes) sender c nodes (λ i node at_i listens node' at_id.
        let id = Numbered-id P Coordinates check_visibility 0 nodes i node numbered at_i in
        let index : id_of P Coordinates node ≡ i = omega (arith, id) in
        let there : get_elem? nodes i ≡ some node' =
          subst (λ j. get_elem? nodes j ≡ some node') index at_id in
        let same : node ≡ node' = cc in
        subst (λ (n : ProtocolWrapper P Coordinates). HasValue n.receiving_channel) same listens)

  drop_visible-All :
      (Q : ℕ → Type 0) (sender : ProtocolWrapper P Coordinates)
      (nodes : List (ProtocolWrapper P Coordinates)) (rs : List ℕ)
      → All Q rs
      → Whenever
          (λ (r : List ℕ × Bool). All Q r.0)
          (drop_visible P Coordinates check_visibility sender nodes rs)
  unfolding drop_visible
  drop_visible-All Q sender nodes [] h = tt
  drop_visible-All Q sender nodes (r ∷ rs) h =
      Whenever-after _ (unwrap (get_elem? nodes r)) _ (λ node.
        Whenever-bind (λ (k : List ℕ × Bool). All Q k.0) _
          (drop_visible P Coordinates check_visibility sender nodes rs) _
          (drop_visible-All Q sender nodes rs h.1)
          (λ (kept, hit) a. elim (Bool-cases (check_visibility sender node)) [
            | inl seen ↦ rw seen a
            | inr hidden ↦ rw hidden (h.0, a)
          ]))

  -- A property of events, by the node's number and the time, that a collision does not change and
  -- that an arrival at a node which listens has.
  module _ (Q : ℕ → ℕ → Option (MessageWrapper P.Message) → Type 0)
      (nodes : List (ProtocolWrapper P Coordinates))
      (spoiled : (id time : ℕ) (hit : Bool) (m : Option (MessageWrapper P.Message))
        → Q id time m
        → Q id time (spoil hit m))
      (heard : (id time : ℕ) (m : MessageWrapper P.Message)
        → m.kind ≡ receive
        → Hears nodes id
        → Q id time (some m)) where
    abbrev Of : Event P.Message → Type 0
    Of e = Q e.node_id e.time e.message

    abbrev Marked : List (Event P.Message) × List ℕ → Type 0
    Marked r = All Of r.0 × All (Hears nodes) r.1

    mark_collisions-Marked :
        (d : ℕ) (sender : ProtocolWrapper P Coordinates) (c : ℕ) (es : List (Event P.Message))
        (rs : List ℕ)
        → All Of es
        → All (Hears nodes) rs
        → Whenever Marked (mark_collisions P Coordinates check_visibility d sender c nodes es rs)
    unfolding mark_collisions
    mark_collisions-Marked d sender c [] rs h k = (tt, k)
    mark_collisions-Marked d sender c (e ∷ es) rs h k = elim (Bool-cases (does_not_overlap d e)) [
      | inl apart ↦ rw apart (h, k)
      | inr close ↦ elim (Bool-cases (arrives_on c e.message)) [
        | inl arrives ↦
            rw (close, arrives)
              (Whenever-bind (λ (r : List ℕ × Bool). All (Hears nodes) r.0) Marked
                (drop_visible P Coordinates check_visibility sender nodes rs) _
                (drop_visible-All (Hears nodes) sender nodes rs k)
                (λ (kept, hit) a.
                  Whenever-bind Marked Marked
                    (mark_collisions P Coordinates check_visibility d sender c nodes es kept) _
                    (mark_collisions-Marked d sender c es kept h.1 a)
                    (λ (marked, left) b. ((spoiled e.node_id e.time hit e.message h.0, b.0), b.1))))
        | inr other ↦
            rw (close, other)
              (Whenever-bind Marked Marked
                (mark_collisions P Coordinates check_visibility d sender c nodes es rs) _
                (mark_collisions-Marked d sender c es rs h.1 k)
                (λ (marked, left) b. ((h.0, b.0), b.1)))
      ]
    ]

    deliver-Of :
        (arrival c : ℕ) (m : P.Message) (rs : List ℕ) (q : SortedLinkedList (Event P.Message))
        → All (Hears nodes) rs
        → All Of q.elements
        → All Of (deliver P Coordinates check_visibility arrival c m rs q).elements
    unfolding deliver
    deliver-Of arrival c m [] q k h = h
    deliver-Of arrival c m (r ∷ rs) q k h =
        let message : MessageWrapper P.Message = record {
          kind = receive;
          channel = c;
          message = m;
          is_corrupt = false;
        } in
        let e : Event P.Message = record { time = arrival; node_id = r; message = some message } in
        deliver-Of arrival c m rs (push by_time e q) k.1
          (pushed_All e q Of (heard r arrival message refl k.0) h)

    forward_to-Of :
        (t c : ℕ) (m : P.Message) (q : SortedLinkedList (Event P.Message)) (rs : List ℕ) (rng : Rng)
        → All (Hears nodes) rs
        → All Of q.elements
        → All Of (forward_to P Coordinates check_visibility t c m none q rs rng).0.elements
    unfolding forward_to lose_some retain
    forward_to-Of t c m q [] rng k h = h
    forward_to-Of t c m q (r ∷ rs) rng k h =
        let cancel = λ (e : Event P.Message). not (contains (r ∷ rs) e.node_id) in
        deliver-Of _ c m (r ∷ rs) (retain cancel q) k (retain_from-All Of cancel q.elements q.len h)

    pub forward_message-Of :
        (t sender_id c : ℕ) (m : P.Message) (q : SortedLinkedList (Event P.Message)) (rng : Rng)
        → Numbered P Coordinates check_visibility 0 nodes
        → All Of q.elements
        → Whenever
            (λ (r : SortedLinkedList (Event P.Message) × Rng). All Of r.0.elements)
            (forward_message P Coordinates check_visibility t sender_id c m q nodes none rng)
    unfolding forward_message
    forward_message-Of t sender_id c m q rng numbered h =
        Whenever-after _ (unwrap (get_elem? nodes sender_id)) _ (λ sender.
          Whenever-bind Marked _
            (mark_collisions P Coordinates check_visibility t sender c nodes q.elements
              (get_recipients P Coordinates check_visibility sender c nodes))
            _
            (mark_collisions-Marked t sender c q.elements _ h
              (get_recipients-Hears sender c nodes numbered))
            (λ (marked, left) b.
              forward_to-Of t c m (record q { elements = marked }) left rng b.1 b.0))
