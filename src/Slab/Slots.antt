-- ===== src/Slab/Slots.antt =====
-- Inserting and removing change one slot (components/cloud/src/slab.rs).
use holistic_framework_for_l.Base.{
  ℕ, zero, suc, ◌-◌, ◌<◌, ◌≤◌, ◌≡◌, ◌≢◌, refl, sym, ap, inl, inr, Option, none, some, [], ◌∷◌, ◌++◌,
  arith, length, length-append, get_elem?, set, ltb, Bool-cases,
}
use mathlib.Core.Path.{subst}
use holistic_framework_for_l.Slab.{
  Slab, get_free_index, count_on, insert_at, insert, flat, get, try_remove,
}

module _ {T : Type 0} where
  -- Only the slot at the index is another one.
  abbrev pub Elsewhere : ℕ → Slab T → Slab T → Type 0
  Elsewhere i old new = (j : ℕ) → j ≢ i → get new j ≡ get old j

  get-append : (v : Option T) (slab : Slab T) → get (slab ++ v ∷ []) (length slab) ≡ v
  unfolding get
  get-append v [] = refl
  get-append v (x ∷ slab) = get-append v slab

  get-append_other : (v : Option T) (slab : Slab T) → Elsewhere (length slab) slab (slab ++ v ∷ [])
  unfolding get
  get-append_other v [] zero n = absurd (n refl)
  get-append_other v [] (suc j) n = refl
  get-append_other v (x ∷ slab) zero n = refl
  get-append_other v (x ∷ slab) (suc j) n = get-append_other v slab j (λ e. n (ap suc e))

  get-set : (v : Option T) (slab : Slab T) (i : ℕ) → i < length slab → get (set slab i v) i ≡ v
  unfolding get
  get-set v [] i h = absurd (omega arith)
  get-set v (x ∷ slab) zero h = refl
  get-set v (x ∷ slab) (suc i) h = get-set v slab i (omega arith)

  get-set_other : (v : Option T) (slab : Slab T) (i : ℕ) → Elsewhere i slab (set slab i v)
  unfolding get
  get-set_other v [] i j n = refl
  get-set_other v (x ∷ slab) zero zero n = absurd (n refl)
  get-set_other v (x ∷ slab) zero (suc j) n = refl
  get-set_other v (x ∷ slab) (suc i) zero n = refl
  get-set_other v (x ∷ slab) (suc i) (suc j) n = get-set_other v slab i j (λ e. n (ap suc e))

  get-outside : (slab : Slab T) (i : ℕ) → length slab ≤ i → get slab i ≡ none
  unfolding get
  get-outside [] i h = refl
  get-outside (x ∷ slab) zero h = absurd (omega arith)
  get-outside (x ∷ slab) (suc i) h = get-outside slab i (omega arith)

  free_slot :
      (slab : Slab T) (i : ℕ)
      → get_free_index slab ≡ some i
      → (i < length slab) × (get slab i ≡ none)
  unfolding get_free_index get
  free_slot [] i e = cc
  free_slot (none ∷ slab) i e =
      let at_head : 0 ≡ i = cc in
      subst (λ k. (k < length (none ∷ slab)) × (flat (get_elem? (none ∷ slab) k) ≡ none)) at_head
        (omega arith, refl)
  free_slot (some x ∷ slab) i e = from_rest (get_free_index slab) (free_slot slab) e
    where
      from_rest :
          (r : Option ℕ)
          → ((k : ℕ) → r ≡ some k → (k < length slab) × (flat (get_elem? slab k) ≡ none))
          → count_on r ≡ some i
          → (i < length (some x ∷ slab)) × (flat (get_elem? (some x ∷ slab) i) ≡ none)
      from_rest none f h = cc
      from_rest (some k) f h =
          let r = f k refl in
          let next : suc k ≡ i = cc in
          subst (λ j. (j < length (some x ∷ slab)) × (flat (get_elem? (some x ∷ slab) j) ≡ none))
            next (omega (arith, r.0), r.1)

  -- What inserting does.
  pub record IsInserted (x : T) (old : Slab T) (r : ℕ × Slab T) : Type 0 where
    pub was_free : get old r.0 ≡ none
    pub stored : get r.1 r.0 ≡ some x
    pub others : Elsewhere r.0 old r.1

  -- `insert` stores the element at an index that was free, and no other index is affected.
  pub insert-IsInserted : (x : T) (slab : Slab T) → IsInserted x slab (insert x slab)
  unfolding insert
  insert-IsInserted x slab = at (get_free_index slab) refl
    where
      at : (r : Option ℕ) → get_free_index slab ≡ r → IsInserted x slab (insert_at x slab r)
      at none e =
          let last : length (slab ++ some x ∷ []) - 1 ≡ length slab =
            omega (arith, length-append slab (some x ∷ [])) in
          rw last (record {
            was_free = get-outside slab (length slab) (omega arith);
            stored = get-append (some x) slab;
            others = get-append_other (some x) slab;
          })
      at (some i) e =
          let f = free_slot slab i e in
          record {
            was_free = f.1;
            stored = get-set (some x) slab i f.0;
            others = get-set_other (some x) slab i;
          }

  flat-get : (slab : Slab T) (i : ℕ) → flat (get_elem? slab i) ≡ get slab i
  unfolding get
  flat-get slab i = refl

  -- What removing does.
  pub record IsRemoved (i : ℕ) (old : Slab T) (r : Option T × Slab T) : Type 0 where
    pub taken : r.0 ≡ get old i
    pub gone : get r.1 i ≡ none
    pub others : Elsewhere i old r.1

  -- `try_remove` returns what was at the index, within the slab or not, and frees it; no other
  -- index is affected.
  pub try_remove-IsRemoved : (i : ℕ) (slab : Slab T) → IsRemoved i slab (try_remove slab i)
  unfolding try_remove
  try_remove-IsRemoved i slab = elim (Bool-cases (ltb i (length slab))) [
    | inl inside ↦ rw inside (record {
      taken = flat-get slab i;
      gone = get-set none slab i (ground arith);
      others = get-set_other none slab i;
    })
    | inr outside ↦
        let nothing = get-outside slab i (ground arith) in
        rw outside (record { taken = sym nothing; gone = nothing; others = λ j n. refl })
  ]
