-- ===== src/Simulator/Transmissions.antt =====
-- Forwarding a message leaves every node but the sender its event
-- (components/simulator/src/sim.rs).
use holistic_framework_for_l.Base.{
  ℕ, ◌+◌, ◌≤◌, ◌<◌, ◌≡◌, sym, ◌∙◌, Bool, none, List, arith, length, get_elem?, All-map, u64_mod,
  Returns, Returns-bind, Returns-unwrap, Rng,
}
use mathlib.Core.Path.{subst}
use holistic_framework_for_l.Api.{Protocol}
use holistic_framework_for_l.SortedLinkedList.{SortedLinkedList}
use holistic_framework_for_l.Simulator.{time_on_air, Event, ProtocolWrapper, id_of}
use holistic_framework_for_l.Simulator.Medium.{get_recipients, mark_collisions, forward_message}
use holistic_framework_for_l.Simulator.Owners.{times}
use holistic_framework_for_l.Simulator.Forwarding.{
  Alike, Alike-owned, Alike-length, Alike-All, mark_collisions-Alike, Numbered,
  get_recipients-short, get_recipients-AreRecipients, get_elem?-HasValue,
}
use holistic_framework_for_l.Simulator.Queue.{Waiting}
use holistic_framework_for_l.Simulator.Deliveries.{forward_to-Waiting}
use holistic_framework_for_l.Simulator.Forwarding.{Alike-IsSorted, Numbered-id}

module _ {Message : Type 0} where
  Alike-Waiting :
      (n handled t : ℕ) (q : SortedLinkedList (Event Message)) (ms : List (Event Message))
      → Alike q.elements ms
      → Waiting n handled t q
      → Waiting n handled t (record q { elements = ms })
  Alike-Waiting n handled t q ms h w = record {
    in_order = Alike-IsSorted q ms h w.in_order;
    of_nodes = Alike-All (λ x i. i < n) q.elements ms h w.of_nodes;
    one = λ id k other. sym (Alike-owned id q.elements ms h) ∙ w.one id k other;
    none_of = sym (Alike-owned handled q.elements ms h) ∙ w.none_of;
    not_past = Alike-All (λ x i. t ≤ x) q.elements ms h w.not_past;
  }

module _ (P : Protocol) (Coordinates : Type 0)
    (check_visibility : ProtocolWrapper P Coordinates → ProtocolWrapper P Coordinates → Bool) where
  -- Forwarding returns, and every node but the sender still has one event.
  pub forward_message-Waiting :
      (t sender_id channel : ℕ) (message : P.Message) (q : SortedLinkedList (Event P.Message))
      (nodes : List (ProtocolWrapper P Coordinates)) (rng : Rng)
      → Numbered P Coordinates check_visibility 0 nodes
      → Waiting (length nodes) sender_id t q
      → sender_id < length nodes
      → length q.elements + length nodes < u64_mod
      → t + time_on_air < u64_mod
      → Returns
          (λ r. Waiting (length nodes) sender_id t r.0)
          (forward_message P Coordinates check_visibility t sender_id channel message q nodes none
            rng)
  unfolding forward_message
  forward_message-Waiting t sender_id c m q nodes rng numbered w h room clock =
      Returns-unwrap _ (get_elem? nodes sender_id) _ (get_elem?-HasValue nodes sender_id h)
        (λ sender at_id.
          let rs = get_recipients P Coordinates check_visibility sender c nodes in
          let r =
            get_recipients-AreRecipients P Coordinates check_visibility sender c 0 nodes numbered in
          let short = get_recipients-short P Coordinates check_visibility sender c nodes in
          let own : id_of P Coordinates sender ≡ sender_id =
            Numbered-id P Coordinates check_visibility 0 nodes sender_id sender numbered at_id
            ∙ omega arith in
          Returns-bind _ _
            (mark_collisions P Coordinates check_visibility t sender c nodes q.elements rs) _
            (mark_collisions-Alike P Coordinates check_visibility t sender c nodes q.elements rs
              (All-map _ (λ x. x < length nodes) (λ x k. omega (arith, k.1)) rs r.in_range))
            (λ (marked, left) (alike, b, fewer).
              forward_to-Waiting P Coordinates check_visibility (length nodes) sender_id t c m
                (record q { elements = marked }) left rng
                (Alike-Waiting (length nodes) sender_id t q marked alike w) b
                (λ id. omega (arith, fewer.each id, r.once id))
                (omega (arith, fewer.each sender_id, subst (λ x. times x rs ≡ 0) own r.not_sender))
                (omega (arith, fewer.shorter, short, Alike-length q.elements marked alike)) clock))
