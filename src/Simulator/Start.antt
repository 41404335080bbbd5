-- ===== src/Simulator/Start.antt =====
-- The start of a simulation gives every node its first event (components/simulator/src/main.rs).
use holistic_framework_for_l.Base.{
  ℕ, suc, ◌+◌, ◌≤◌, ◌<◌, ◌≡◌, refl, sym, ◌∙◌, inl, inr, Bool, none, List, [], ◌∷◌, arith, length,
  All, All-map, All-Inserted, Bool-cases, u64_mod, ◌==◌, Rng,
}
use mathlib.Core.Path.{subst}
use holistic_framework_for_l.Api.{Protocol}
use holistic_framework_for_l.SortedLinkedList.{SortedLinkedList, push}
use holistic_framework_for_l.SortedLinkedList.Order.{insert-Inserted, push-IsSorted}
use holistic_framework_for_l.Simulator.{Event, by_time, ProtocolWrapper, id_of}
use holistic_framework_for_l.Simulator.Owners.{owned, OneEach-length, owned-insert}
use holistic_framework_for_l.Simulator.Forwarding.{Numbered}
use holistic_framework_for_l.Simulator.Queue.{Due}
use holistic_framework_for_l.SortedLinkedList.{new}
use holistic_framework_for_l.Simulator.Loop.{start_up, start, startup_delay_range_ms}
use holistic_framework_for_l.Simulator.Rounds.{Running}
use holistic_framework_for_l.Base.{next_u32, advance, ◌%◌}

module _ (P : Protocol) (Coordinates : Type 0)
    (check_visibility : ProtocolWrapper P Coordinates → ProtocolWrapper P Coordinates → Bool) where
  -- The nodes so far have one event each.
  push-OneEach :
      (k : ℕ) (q : SortedLinkedList (Event P.Message)) (e : Event P.Message)
      → Due k 0 q
      → e.node_id ≡ k
      → suc (length q.elements) < u64_mod
      → Due (suc k) 0 (push by_time e q)
  unfolding push
  push-OneEach k q e d is room =
      let i = insert-Inserted by_time e q.elements in
      record {
        in_order = (push-IsSorted by_time e q d.in_order room).0;
        each = record {
          of_nodes =
              All-Inserted (λ x. x.node_id < suc k) i (omega arith)
                (All-map _ (λ x. x.node_id < suc k) (λ x b. omega arith) q.elements
                  d.each.of_nodes);
          one = λ id b. elim (Bool-cases (e.node_id == id)) [
            | inl own ↦
                let same : k ≡ id = sym is ∙ ground arith in
                owned-insert id e q.elements
                ∙ rw own (
                    omega (
                      arith,
                      subst (λ j. owned j q.elements ≡ 0) same
                          (none_of_k k q.elements d.each.of_nodes),
                    ))
            | inr other ↦
                owned-insert id e q.elements
                ∙ rw other (omega (arith, d.each.one id (ground arith)))
          ];
        };
        not_past = All-Inserted (λ x. 0 ≤ x.time) i (omega arith) d.not_past;
      }
    where
      none_of_k :
          (k : ℕ) (es : List (Event P.Message)) → All (λ e. e.node_id < k) es → owned k es ≡ 0
      none_of_k k [] h = refl
      none_of_k k (e ∷ es) h = ground (arith, none_of_k k es h.1)

  start_up-Due :
      (k : ℕ) (nodes : List (ProtocolWrapper P Coordinates))
      (q : SortedLinkedList (Event P.Message)) (rng : Rng)
      → Numbered P Coordinates check_visibility k nodes
      → Due k 0 q
      → k + length nodes < u64_mod
      → Due (k + length nodes) 0 (start_up P Coordinates check_visibility nodes q rng).0
  unfolding start_up
  start_up-Due k [] q rng h d room = subst (λ n. Due n 0 q) (omega arith) d
  start_up-Due k (node ∷ nodes) q rng h d room =
      let e : Event P.Message = record {
        time = next_u32 rng % startup_delay_range_ms;
        node_id = id_of P Coordinates node;
        message = none;
      } in
      let so_far = OneEach-length k q.elements d.each in
      subst
        (λ n.
          Due n 0
            (start_up P Coordinates check_visibility nodes (push by_time e q) (advance rng)).0)
        (omega arith)
        (start_up-Due (suc k) nodes (push by_time e q) (advance rng) h.1
          (push-OneEach k q e d h.0 (omega arith)) (omega arith))

  empty-Due : Due {Message = P.Message} 0 0 new
  unfolding new
  empty-Due = record {
    in_order = record { ordered = tt; counted = refl; small = omega arith };
    each = record { of_nodes = tt; one = λ id k. absurd (omega (arith, k)) };
    not_past = tt;
  }

  -- A simulation of nodes that are numbered in their order, and not too many, starts with one event
  -- for each node.
  pub start-Running :
      (nodes : List (ProtocolWrapper P Coordinates)) (rng : Rng)
      → Numbered P Coordinates check_visibility 0 nodes
      → length nodes + length nodes < u64_mod
      → Running P Coordinates check_visibility (start P Coordinates check_visibility nodes rng)
  unfolding start new
  start-Running nodes rng h room = record {
    numbered = h;
    due =
        subst (λ n. Due n 0 (start_up P Coordinates check_visibility nodes new rng).0) (omega arith)
          (start_up-Due 0 nodes new rng h empty-Due (omega arith));
    countable = room;
  }
