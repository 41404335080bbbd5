-- ===== src/Simulator/Forwarding.antt =====
-- Forwarding a message leaves every node its event (`forward_message` in
-- components/simulator/src/sim.rs).
use holistic_framework_for_l.Base.{
  ℕ, zero, suc, ◌+◌, ◌≤◌, ◌<◌, ◌≡◌, refl, sym, ap, ◌∙◌, inl, inr, Bool, false, some, List, [], ◌∷◌,
  arith, length, get_elem?, get_elem?-All, All, All-map, Pairs, Bool-cases, Returns, Returns-bind,
  Returns-unwrap, HasValue, ◌==◌,
}
use mathlib.Core.Path.{subst}
use holistic_framework_for_l.Base.{ltb}
use holistic_framework_for_l.SortedLinkedList.{SortedLinkedList}
use holistic_framework_for_l.SortedLinkedList.Order.{Le, IsSorted}
use holistic_framework_for_l.Api.{Protocol}
use holistic_framework_for_l.Simulator.{Event, by_time, ProtocolWrapper, id_of}
use holistic_framework_for_l.Simulator.Medium.{
  does_not_overlap, arrives_on, is_recipient, get_recipients, drop_visible, mark_collisions,
}
use holistic_framework_for_l.Simulator.Owners.{owned, times}

-- The first list is not longer, and no number is in it more often than in the second.
pub record Fewer (xs ys : List ℕ) : Type 0 where
  pub shorter : length xs ≤ length ys
  pub each : (n : ℕ) → times n xs ≤ times n ys

pub Fewer-self : (xs : List ℕ) → Fewer xs xs
Fewer-self xs = record { shorter = omega arith; each = λ n. omega arith }

pub Fewer-trans : (xs ys zs : List ℕ) → Fewer xs ys → Fewer ys zs → Fewer xs zs
Fewer-trans xs ys zs f g = record {
  shorter = omega (arith, f.shorter, g.shorter);
  each = λ n. omega (arith, f.each n, g.each n);
}

Fewer-drop : (x : ℕ) (xs ys : List ℕ) → Fewer xs ys → Fewer xs (x ∷ ys)
Fewer-drop x xs ys f = record {
  shorter = omega (arith, f.shorter);
  each = λ n. omega (arith, f.each n);
}

Fewer-keep : (x : ℕ) (xs ys : List ℕ) → Fewer xs ys → Fewer (x ∷ xs) (x ∷ ys)
Fewer-keep x xs ys f = record {
  shorter = omega (arith, f.shorter);
  each = λ n. omega (arith, f.each n);
}

pub get_elem?-HasValue :
    {A : Type 0} (xs : List A) (i : ℕ) → i < length xs → HasValue (get_elem? xs i)
get_elem?-HasValue xs i h = let (a, e, _) = get_elem?-All (λ _. Unit) xs i (all_unit xs) h in (a, e)
  where
    all_unit : {A : Type 0} (xs : List A) → All (λ _. Unit {0}) xs
    all_unit [] = tt
    all_unit (x ∷ xs) = (tt, all_unit xs)

module _ {Message : Type 0} where
  -- The same events but for what they carry.
  abbrev pub Alike : List (Event Message) → List (Event Message) → Type 0
  Alike [] [] = Unit
  Alike [] (m ∷ ms) = ⊥
  Alike (e ∷ es) [] = ⊥
  Alike (e ∷ es) (m ∷ ms) = (e.time ≡ m.time) × (e.node_id ≡ m.node_id) × Alike es ms

  pub Alike-self : (es : List (Event Message)) → Alike es es
  Alike-self [] = tt
  Alike-self (e ∷ es) = (refl, refl, Alike-self es)

  pub Alike-owned :
      (id : ℕ) (es ms : List (Event Message)) → Alike es ms → owned id es ≡ owned id ms
  Alike-owned id [] [] h = refl
  Alike-owned id [] (m ∷ ms) h = absurd h
  Alike-owned id (e ∷ es) [] h = absurd h
  Alike-owned id (e ∷ es) (m ∷ ms) h = rw (h.1) (omega (arith, Alike-owned id es ms h.2))

  pub Alike-length : (es ms : List (Event Message)) → Alike es ms → length es ≡ length ms
  Alike-length [] [] h = refl
  Alike-length [] (m ∷ ms) h = absurd h
  Alike-length (e ∷ es) [] h = absurd h
  Alike-length (e ∷ es) (m ∷ ms) h = ap suc (Alike-length es ms h.2)

  -- What holds of a time holds of the times of events that are alike.
  pub Alike-All :
      (Q : ℕ → ℕ → Type 0) (es ms : List (Event Message))
      → Alike es ms
      → All (λ e. Q e.time e.node_id) es
      → All (λ e. Q e.time e.node_id) ms
  Alike-All Q [] [] h a = tt
  Alike-All Q [] (m ∷ ms) h a = absurd h
  Alike-All Q (e ∷ es) [] h a = absurd h
  Alike-All Q (e ∷ es) (m ∷ ms) (x, y, h) a = (rw x at (rw y at a.0), Alike-All Q es ms h a.1)

  Alike-ordered :
      (es ms : List (Event Message)) → Alike es ms → Pairs (Le by_time) es → Pairs (Le by_time) ms
  unfolding by_time
  Alike-ordered [] [] h p = tt
  Alike-ordered [] (m ∷ ms) h p = absurd h
  Alike-ordered (e ∷ es) [] h p = absurd h
  Alike-ordered (e ∷ es) (m ∷ ms) (x, y, h) p = (
    subst (λ t. All (λ z. ltb z.time t ≡ false) ms) x
        (Alike-All (λ t i. ltb t e.time ≡ false) es ms h p.0),
    Alike-ordered es ms h p.1,
  )

  -- Sorting looks at times only.
  pub Alike-IsSorted :
      (q : SortedLinkedList (Event Message)) (ms : List (Event Message))
      → Alike q.elements ms
      → IsSorted by_time q
      → IsSorted by_time (record q { elements = ms })
  Alike-IsSorted q ms h s = record {
    ordered = Alike-ordered q.elements ms h s.ordered;
    counted = s.counted ∙ Alike-length q.elements ms h;
    small = omega (arith, s.small, Alike-length q.elements ms h);
  }

module _ (P : Protocol) (Coordinates : Type 0)
    (check_visibility : ProtocolWrapper P Coordinates → ProtocolWrapper P Coordinates → Bool) where
  drop_visible-Fewer :
      (sender : ProtocolWrapper P Coordinates) (nodes : List (ProtocolWrapper P Coordinates))
      (rs : List ℕ)
      → All (λ r. r < length nodes) rs
      → Returns
          (λ p. All (λ r. r < length nodes) p.0 × Fewer p.0 rs)
          (drop_visible P Coordinates check_visibility sender nodes rs)
  unfolding drop_visible
  drop_visible-Fewer sender nodes [] h = (tt, Fewer-self [])
  drop_visible-Fewer sender nodes (r ∷ rs) h =
      Returns-unwrap _ (get_elem? nodes r) _ (get_elem?-HasValue nodes r h.0) (λ node e.
        Returns-bind _ _ (drop_visible P Coordinates check_visibility sender nodes rs) _
          (drop_visible-Fewer sender nodes rs h.1)
          (λ (kept, hit) (a, f). elim (Bool-cases (check_visibility sender node)) [
            | inl seen ↦ rw seen (a, Fewer-drop r kept rs f)
            | inr hidden ↦ rw hidden ((h.0, a), Fewer-keep r kept rs f)
          ]))

  -- The loop over the events returns: it changes no event's time or node, and drops recipients only.
  pub mark_collisions-Alike :
      (departure_time : ℕ) (sender : ProtocolWrapper P Coordinates) (channel : ℕ)
      (nodes : List (ProtocolWrapper P Coordinates)) (es : List (Event P.Message)) (rs : List ℕ)
      → All (λ r. r < length nodes) rs
      → Returns
          (λ p. Alike es p.0 × All (λ r. r < length nodes) p.1 × Fewer p.1 rs)
          (mark_collisions P Coordinates check_visibility departure_time sender channel nodes es rs)
  unfolding mark_collisions
  mark_collisions-Alike d sender c nodes [] rs h = (tt, h, Fewer-self rs)
  mark_collisions-Alike d sender c nodes (e ∷ es) rs h = elim (Bool-cases (does_not_overlap d e)) [
    | inl apart ↦ rw apart ((refl, refl, Alike-self es), h, Fewer-self rs)
    | inr close ↦ elim (Bool-cases (arrives_on c e.message)) [
      | inl arrives ↦
          rw (close, arrives)
            (Returns-bind _ _ (drop_visible P Coordinates check_visibility sender nodes rs) _
              (drop_visible-Fewer sender nodes rs h)
              (λ (kept, hit) (a, f).
                Returns-bind _ _
                  (mark_collisions P Coordinates check_visibility d sender c nodes es kept) _
                  (mark_collisions-Alike d sender c nodes es kept a)
                  (λ (marked, left) (alike, b, g).
                    ((refl, refl, alike), b, Fewer-trans left kept rs g f))))
      | inr other ↦
          rw (close, other)
            (Returns-bind _ _
              (mark_collisions P Coordinates check_visibility d sender c nodes es rs) _
              (mark_collisions-Alike d sender c nodes es rs h)
              (λ (marked, left) (alike, b, g). ((refl, refl, alike), b, g)))
    ]
  ]

  -- The nodes are numbered in their order.
  abbrev pub Numbered : ℕ → List (ProtocolWrapper P Coordinates) → Type 0
  Numbered k [] = Unit
  Numbered k (node ∷ nodes) = (id_of P Coordinates node ≡ k) × Numbered (suc k) nodes

  pub Numbered-id :
      (k : ℕ) (nodes : List (ProtocolWrapper P Coordinates)) (i : ℕ)
      (node : ProtocolWrapper P Coordinates)
      → Numbered k nodes
      → get_elem? nodes i ≡ some node
      → id_of P Coordinates node ≡ k + i
  Numbered-id k [] i node h e = cc
  Numbered-id k (x ∷ nodes) zero node h e =
      let same : x ≡ node = cc in ap (id_of P Coordinates) (sym same) ∙ h.0 ∙ omega arith
  Numbered-id k (x ∷ nodes) (suc i) node h e = Numbered-id (suc k) nodes i node h.1 e ∙ omega arith

  times-above : (k : ℕ) (rs : List ℕ) → All (λ r. k < r) rs → times k rs ≡ 0
  times-above k [] h = refl
  times-above k (r ∷ rs) h = ground (arith, times-above k rs h.1)

  -- The recipients are other nodes, each once.
  pub record AreRecipients (sender_id k n : ℕ) (rs : List ℕ) : Type 0 where
    pub in_range : All (λ r. (k ≤ r) × (r < k + n)) rs
    pub once : (id : ℕ) → times id rs ≤ 1
    pub not_sender : times sender_id rs ≡ 0

  pub get_recipients-short :
      (sender : ProtocolWrapper P Coordinates) (channel : ℕ)
      (nodes : List (ProtocolWrapper P Coordinates))
      → length (get_recipients P Coordinates check_visibility sender channel nodes) ≤ length nodes
  unfolding get_recipients
  get_recipients-short sender c [] = omega arith
  get_recipients-short sender c (node ∷ nodes) =
      elim (Bool-cases (is_recipient P Coordinates check_visibility sender c node)) [
        | inl hears ↦ rw hears (omega (arith, get_recipients-short sender c nodes))
        | inr deaf ↦ rw deaf (omega (arith, get_recipients-short sender c nodes))
      ]

  pub get_recipients-AreRecipients :
      (sender : ProtocolWrapper P Coordinates) (channel k : ℕ)
      (nodes : List (ProtocolWrapper P Coordinates))
      → Numbered k nodes
      → AreRecipients
          (id_of P Coordinates sender)
          k
          (length nodes)
          (get_recipients P Coordinates check_visibility sender channel nodes)
  unfolding get_recipients
  get_recipients-AreRecipients sender c k [] h = record {
    in_range = tt;
    once = λ id. omega arith;
    not_sender = refl;
  }
  get_recipients-AreRecipients sender c k (node ∷ nodes) h =
      let rest = get_recipients P Coordinates check_visibility sender c nodes in
      let r = get_recipients-AreRecipients sender c (suc k) nodes h.1 in
      let wider =
        All-map (λ x. (suc k ≤ x) × (x < suc k + length nodes))
          (λ x. (k ≤ x) × (x < k + length (node ∷ nodes))) (λ x b. (omega arith, omega arith)) rest
          r.in_range in
      let none_of_k =
        times-above k rest (All-map _ (λ x. k < x) (λ x b. omega (arith, b.0)) rest r.in_range) in
      elim (Bool-cases (is_recipient P Coordinates check_visibility sender c node)) [
        | inl hears ↦
            let other : (id_of P Coordinates node == id_of P Coordinates sender) ≡ false =
              ground (arith, hears) in
            rw hears (record {
              in_range = ((omega arith, omega arith), wider);
              once = λ id. elim (Bool-cases (id_of P Coordinates node == id)) [
                | inl same ↦
                    let is_k : k ≡ id = sym h.0 ∙ ground arith in
                    rw same (omega (arith, subst (λ j. times j rest ≡ 0) is_k none_of_k))
                | inr differs ↦ rw differs (omega (arith, r.once id))
              ];
              not_sender = rw other (omega (arith, r.not_sender));
            })
        | inr deaf ↦ rw deaf (record { in_range = wider; once = r.once; not_sender = r.not_sender })
      ]
