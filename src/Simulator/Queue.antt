-- ===== src/Simulator/Queue.antt =====
-- The event queue of the simulator between two rounds and within one
-- (components/simulator/src/main.rs).
use holistic_framework_for_l.Base.{
  ℕ, suc, ◌≤◌, ◌<◌, ◌≡◌, ◌≢◌, sym, ap, ◌∙◌, inl, inr, true, false, some, ◌∷◌, arith, length, All,
  All-map, All-Inserted, Bool-cases, u64_mod, ◌==◌,
}
use mathlib.Core.Path.{subst}
use holistic_framework_for_l.SortedLinkedList.{SortedLinkedList, push, pop}
use holistic_framework_for_l.SortedLinkedList.Order.{
  IsSorted, insert-Inserted, push-IsSorted, pop-IsSorted,
}
use holistic_framework_for_l.Simulator.{Event, by_time}
use holistic_framework_for_l.Simulator.Owners.{owned, OneEach, OneEach-length, owned-insert}

module _ {Message : Type 0} where
  -- The event queue while the event of one node is being handled: every other node has one event.
  pub record Waiting (n handled t : ℕ) (q : SortedLinkedList (Event Message)) : Type 0 where
    pub in_order : IsSorted by_time q
    pub of_nodes : All (λ e. e.node_id < n) q.elements
    pub one : (id : ℕ) → id < n → id ≢ handled → owned id q.elements ≡ 1
    pub none_of : owned handled q.elements ≡ 0
    pub not_past : All (λ e. t ≤ e.time) q.elements

  -- The event queue between two rounds.
  pub record Due (n t : ℕ) (q : SortedLinkedList (Event Message)) : Type 0 where
    pub in_order : IsSorted by_time q
    pub each : OneEach n q.elements
    pub not_past : All (λ e. t ≤ e.time) q.elements

  -- With an event of the node that is being handled every node has one.
  Waiting-OneEach :
      (n t : ℕ) (q : SortedLinkedList (Event Message)) (e : Event Message)
      → Waiting n e.node_id t q
      → e.node_id < n
      → OneEach n (e ∷ q.elements)
  Waiting-OneEach n t q e w h = record {
    of_nodes = (h, w.of_nodes);
    one = λ id k. elim (Bool-cases (e.node_id == id)) [
      | inl own ↦
          let same : e.node_id ≡ id = ground arith in
          rw own (omega (arith, subst (λ j. owned j q.elements ≡ 0) same w.none_of))
      | inr other ↦ rw other (omega (arith, w.one id k (λ x. ground arith)))
    ];
  }

  pub Waiting-length :
      (n t : ℕ) (q : SortedLinkedList (Event Message)) (e : Event Message)
      → Waiting n e.node_id t q
      → e.node_id < n
      → suc (length q.elements) ≡ n
  Waiting-length n t q e w h = OneEach-length n (e ∷ q.elements) (Waiting-OneEach n t q e w h)

  -- The node gets its next event.
  pub push-Due :
      (n t : ℕ) (q : SortedLinkedList (Event Message)) (e : Event Message)
      → Waiting n e.node_id t q
      → e.node_id < n
      → t ≤ e.time
      → suc (length q.elements) < u64_mod
      → Due n t (push by_time e q)
  unfolding push
  push-Due n t q e w h due room =
      let i = insert-Inserted by_time e q.elements in
      let o = Waiting-OneEach n t q e w h in
      record {
        in_order = (push-IsSorted by_time e q w.in_order room).0;
        each = record {
          of_nodes = All-Inserted (λ x. x.node_id < n) i h w.of_nodes;
          one = λ id k. owned-insert id e q.elements ∙ o.one id k;
        };
        not_past = All-Inserted (λ x. t ≤ x.time) i due w.not_past;
      }

  -- The node's event is taken out.
  pub pop-Waiting :
      (n t : ℕ) (q rest : SortedLinkedList (Event Message)) (e : Event Message)
      → Due n t q
      → pop q ≡ some (e, rest)
      → Waiting n e.node_id e.time rest × (t ≤ e.time) × (e.node_id < n)
  unfolding by_time
  pop-Waiting n t q rest e d p =
      let (sorted, split, least) = pop-IsSorted by_time q e rest d.in_order p in
      let below = subst (All (λ x. x.node_id < n)) split d.each.of_nodes in
      let due = subst (All (λ x. t ≤ x.time)) split d.not_past in
      let counts = λ (id : ℕ) (k : id < n). sym (ap (owned id) split) ∙ d.each.one id k in
      (
        record {
          in_order = sorted;
          of_nodes = below.1;
          one = λ id k other.
              let differs : (e.node_id == id) ≡ false = ground (arith, other) in
              omega (arith, rw differs at (counts id k));
          none_of =
              let own : (e.node_id == e.node_id) ≡ true = ground arith in
              omega (arith, rw own at (counts e.node_id below.0));
          not_past =
              All-map _ (λ x. e.time ≤ x.time) (λ x k. ground (arith, k)) rest.elements least;
        },
        due.0,
        below.0,
      )
