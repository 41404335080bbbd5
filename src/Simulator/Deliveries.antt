-- ===== src/Simulator/Deliveries.antt =====
-- The arrivals of a message take the place of the recipients' time-outs
-- (components/simulator/src/sim.rs).
use holistic_framework_for_l.Base.{
  ℕ, suc, ◌+◌, ◌≤◌, ◌<◌, ◌≡◌, sym, ap, ◌∙◌, inl, inr, Bool, false, not, none, some, List, [], ◌∷◌,
  arith, length, length-Inserted, count-le-length, length-keep, All, All-map, All-Inserted,
  All-keep, Bool-cases, u64_mod, Rng,
}
use mathlib.Core.Path.{subst}
use holistic_framework_for_l.Api.{Protocol}
use holistic_framework_for_l.SortedLinkedList.{SortedLinkedList, push, retain}
use holistic_framework_for_l.SortedLinkedList.Order.{
  IsSorted, insert-Inserted, push-IsSorted, retain-IsSorted,
}
use holistic_framework_for_l.Simulator.{receive, time_on_air, Event, by_time, ProtocolWrapper}
use holistic_framework_for_l.Simulator.Medium.{contains, lose_some, deliver, forward_to}
use holistic_framework_for_l.Simulator.Owners.{
  owned, owned-insert, times, times-contains, contains-times, owned-cancelled,
}
use holistic_framework_for_l.Simulator.Queue.{Waiting}
use holistic_framework_for_l.Base.{add_u64, add_u64_exact}

module _ {Message : Type 0} (e : Event Message) (q : SortedLinkedList (Event Message)) where
  pub pushed_All :
      (Q : Event Message → Type 0) → Q e → All Q q.elements → All Q (push by_time e q).elements
  unfolding push
  pushed_All Q h a = All-Inserted Q (insert-Inserted by_time e q.elements) h a

  pushed_length : length (push by_time e q).elements ≡ suc (length q.elements)
  unfolding push
  pushed_length = length-Inserted (insert-Inserted by_time e q.elements)

  pushed_owned : (id : ℕ) → owned id (push by_time e q).elements ≡ owned id (e ∷ q.elements)
  unfolding push
  pushed_owned id = owned-insert id e q.elements

-- What is known of the queue once the arrivals are in it.
pub record Delivered {Message : Type 0} (n t : ℕ) (rs : List ℕ)
    (old new : SortedLinkedList (Event Message)) : Type 0 where
  pub in_order : IsSorted by_time new
  pub of_nodes : All (λ e. e.node_id < n) new.elements
  pub counts : (id : ℕ) → owned id new.elements ≡ owned id old.elements + times id rs
  pub not_past : All (λ e. t ≤ e.time) new.elements
  pub longer : length new.elements ≡ length old.elements + length rs

module _ (P : Protocol) (Coordinates : Type 0)
    (check_visibility : ProtocolWrapper P Coordinates → ProtocolWrapper P Coordinates → Bool) where
  deliver-Delivered :
      (n t arrival channel : ℕ) (message : P.Message) (rs : List ℕ)
      (q : SortedLinkedList (Event P.Message))
      → t ≤ arrival
      → All (λ r. r < n) rs
      → IsSorted by_time q
      → All (λ e. e.node_id < n) q.elements
      → All (λ e. t ≤ e.time) q.elements
      → length q.elements + length rs < u64_mod
      → Delivered n t rs q (deliver P Coordinates check_visibility arrival channel message rs q)
  unfolding deliver
  deliver-Delivered n t arrival c m [] q h b s o p room = record {
    in_order = s;
    of_nodes = o;
    counts = λ id. omega arith;
    not_past = p;
    longer = omega arith;
  }
  deliver-Delivered n t arrival c m (r ∷ rs) q h b s o p room =
      let e : Event P.Message = record {
        time = arrival;
        node_id = r;
        message = some (record { kind = receive; channel = c; message = m; is_corrupt = false });
      } in
      let i = insert-Inserted by_time e q.elements in
      let longer = length-Inserted i in
      let d =
        deliver-Delivered n t arrival c m rs (push by_time e q) h b.1
          ((push-IsSorted by_time e q s (omega arith)).0)
          (pushed_All e q (λ x. x.node_id < n) b.0 o) (pushed_All e q (λ x. t ≤ x.time) h p)
          (omega (arith, pushed_length e q)) in
      record {
        in_order = d.in_order;
        of_nodes = d.of_nodes;
        counts = λ id. omega (arith, d.counts id, pushed_owned e q id);
        not_past = d.not_past;
        longer = omega (arith, d.longer, pushed_length e q);
      }

  -- The recipients' time-outs are cancelled, and the arrivals take their place.
  pub forward_to-Waiting :
      (n handled t channel : ℕ) (message : P.Message) (q : SortedLinkedList (Event P.Message))
      (rs : List ℕ) (rng : Rng)
      → Waiting n handled t q
      → All (λ r. r < n) rs
      → ((id : ℕ) → times id rs ≤ 1)
      → times handled rs ≡ 0
      → length q.elements + length rs < u64_mod
      → t + time_on_air < u64_mod
      → Waiting n handled t
          (forward_to P Coordinates check_visibility t channel message none q rs rng).0
  unfolding forward_to lose_some
  forward_to-Waiting n handled t c m q [] rng w b once not_sender room clock = w
  forward_to-Waiting n handled t c m q (r ∷ rs) rng w b once not_sender room clock =
      let rs' = r ∷ rs in
      let cancel = λ (e : Event P.Message). not (contains rs' e.node_id) in
      let (sorted, same) = retain-IsSorted by_time cancel q w.in_order in
      let q' = retain cancel q in
      let d =
        deliver-Delivered n t (add_u64 t time_on_air) c m rs' q'
          (omega (arith, add_u64_exact t time_on_air clock)) b sorted
          (subst (All (λ e. e.node_id < n)) (sym same) (
            All-map _ (λ e. e.node_id < n) (λ e k. k.0) _
              (All-keep (λ e. e.node_id < n) cancel q.elements w.of_nodes)))
          (subst (All (λ e. t ≤ e.time)) (sym same) (
            All-map _ (λ e. t ≤ e.time) (λ e k. k.0) _
              (All-keep (λ e. t ≤ e.time) cancel q.elements w.not_past)))
          (omega (
            arith,
            ap length same,
            length-keep cancel q.elements,
            count-le-length cancel q.elements,
          )) in
      let left = λ (id : ℕ). ap (owned id) same ∙ owned-cancelled id rs' q.elements in
      record {
        in_order = d.in_order;
        of_nodes = d.of_nodes;
        one = λ id k other. elim (Bool-cases (contains rs' id)) [
          | inl hears ↦
              omega
                (arith, d.counts id, rw hears at (left id), once id, contains-times id rs' hears)
          | inr deaf ↦ omega (
            arith,
            d.counts id,
            rw deaf at (left id),
            w.one id k other,
            times-contains id rs' deaf,
          )
        ];
        none_of = elim (Bool-cases (contains rs' handled)) [
          | inl hears ↦ omega (arith, d.counts handled, rw hears at (left handled))
          | inr deaf ↦ omega (arith, d.counts handled, rw deaf at (left handled), w.none_of)
        ];
        not_past = d.not_past;
      }
