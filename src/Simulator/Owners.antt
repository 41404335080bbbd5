-- ===== src/Simulator/Owners.antt =====
-- Each node has one event: what the operations on the event queue do to the number of a node's
-- events (components/simulator/src/sim.rs and main.rs).
use holistic_framework_for_l.Base.{
  ℕ, zero, suc, ◌+◌, ◌<◌, ◌≡◌, ◌≢◌, refl, ap, ◌∙◌, inl, inr, true, false, not, List, [], ◌∷◌, arith,
  length, keep, count, count-Inserted, All, Bool-cases, ◌==◌, if◌then◌else◌,
}
use holistic_framework_for_l.SortedLinkedList.{insert}
use holistic_framework_for_l.SortedLinkedList.Order.{insert-Inserted}
use holistic_framework_for_l.Simulator.{Event, by_time}
use holistic_framework_for_l.Simulator.Medium.{contains}

-- How often a number is in a list.
abbrev pub times : ℕ → List ℕ → ℕ
times n = count (λ x. x == n)

pub times-contains : (n : ℕ) (xs : List ℕ) → contains xs n ≡ false → times n xs ≡ 0
times-contains n [] h = refl
times-contains n (x ∷ xs) h = elim (Bool-cases (x == n)) [
  | inl same ↦ absurd (ground (arith, h))
  | inr other ↦ rw other (omega (arith, times-contains n xs (ground (arith, h))))
]

pub contains-times : (n : ℕ) (xs : List ℕ) → contains xs n ≡ true → 0 < times n xs
contains-times n [] h = absurd (ground arith)
contains-times n (x ∷ xs) h = elim (Bool-cases (x == n)) [
  | inl same ↦ rw same (omega arith)
  | inr other ↦ rw other (omega (arith, contains-times n xs (ground (arith, h))))
]

module _ {Message : Type 0} where
  -- How many events a node has.
  abbrev pub owned : ℕ → List (Event Message) → ℕ
  owned id = count (λ e. e.node_id == id)

  -- One event for each of `n` nodes, and none for any other.
  pub record OneEach (n : ℕ) (events : List (Event Message)) : Type 0 where
    pub of_nodes : All (λ e. e.node_id < n) events
    pub one : (id : ℕ) → id < n → owned id events ≡ 1

  owned-keep_other :
      (id other : ℕ) (events : List (Event Message))
      → id ≢ other
      → owned id (keep (λ e. not (e.node_id == other)) events) ≡ owned id events
  owned-keep_other id other [] n = refl
  owned-keep_other id other (e ∷ es) n = ground (arith, owned-keep_other id other es n)

  length-keep_other :
      (other : ℕ) (events : List (Event Message))
      → length (keep (λ e. not (e.node_id == other)) events) + owned other events ≡ length events
  length-keep_other other [] = refl
  length-keep_other other (e ∷ es) = ground (arith, length-keep_other other es)

  below-keep :
      (n : ℕ) (events : List (Event Message))
      → All (λ e. e.node_id < suc n) events
      → All (λ e. e.node_id < n) (keep (λ e. not (e.node_id == n)) events)
  below-keep n [] h = tt
  below-keep n (e ∷ es) h = elim (Bool-cases (e.node_id == n)) [
    | inl same ↦ rw same (below-keep n es h.1)
    | inr other ↦ rw other (ground (arith, h.0), below-keep n es h.1)
  ]

  -- Then there are as many events as nodes.
  pub OneEach-length :
      (n : ℕ) (events : List (Event Message)) → OneEach n events → length events ≡ n
  OneEach-length zero [] h = refl
  OneEach-length zero (e ∷ es) h = absurd (omega (arith, h.of_nodes.0))
  OneEach-length (suc n) events h =
      let fewer = OneEach-length n (keep (λ e. not (e.node_id == n)) events) (record {
        of_nodes = below-keep n events h.of_nodes;
        one = λ id k. owned-keep_other id n events (λ e. omega arith) ∙ h.one id (omega arith);
      }) in
      omega (arith, length-keep_other n events, h.one n (omega arith))

  pub owned-insert :
      (id : ℕ) (e : Event Message) (events : List (Event Message))
      → owned id (insert by_time e events) ≡ owned id (e ∷ events)
  owned-insert id e events =
      ground (arith, count-Inserted (λ x. x.node_id == id) (insert-Inserted by_time e events))

  -- Events of the nodes in the list are removed, and no other.
  pub owned-cancelled :
      (id : ℕ) (rs : List ℕ) (events : List (Event Message))
      → owned id (keep (λ e. not (contains rs e.node_id)) events)
        ≡ (if contains rs id then 0 else owned id events)
  owned-cancelled id rs [] = elim (Bool-cases (contains rs id)) [
    | inl t ↦ rw t refl
    | inr f ↦ rw f refl
  ]
  owned-cancelled id rs (e ∷ es) = elim (Bool-cases (e.node_id == id)) [
    | inl own ↦
        let same : e.node_id ≡ id = ground arith in
        elim (Bool-cases (contains rs id)) [
          | inl t ↦
              let dropped : contains rs e.node_id ≡ true = ap (contains rs) same ∙ t in
              rw (dropped, t) (owned-cancelled id rs es ∙ rw t refl)
          | inr f ↦
              let kept : contains rs e.node_id ≡ false = ap (contains rs) same ∙ f in
              rw (kept, f, own) (omega (arith, rw f at (owned-cancelled id rs es)))
        ]
    | inr other ↦
        let same : owned id (e ∷ es) ≡ owned id es = rw other (omega arith) in
        rw same (elim (Bool-cases (contains rs e.node_id)) [
          | inl t ↦ rw t (owned-cancelled id rs es)
          | inr f ↦ rw (f, other) (omega (arith, owned-cancelled id rs es))
        ])
  ]
