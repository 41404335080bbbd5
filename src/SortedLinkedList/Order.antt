-- ===== src/SortedLinkedList/Order.antt =====
-- The elements of a sorted linked list are in order and counted, and elements that compare equal
-- leave in the order in which they came (libraries/sorted_linked_list/src/lib.rs).
use mathlib.Core.Path.{subst}
use holistic_framework_for_l.Base.{
  sym, ℕ, suc, ◌+◌, ◌<◌, ◌≡◌, refl, ap, ◌∙◌, inl, inr, Bool, true, false, some, List, [], ◌∷◌, ◌++◌,
  arith, length, keep, length-keep, count-le-length, All-Inserted, length-Inserted, All, All-map,
  All-keep, Pairs, u64_mod, add_u64_exact, sub_u64_exact, sub_u64, Bool-cases, Inserted, here,
  there,
}
use holistic_framework_for_l.SortedLinkedList.{
  Ord, SortedLinkedList, detach, pop, retain_from, retain, insert, push,
}

module _ {A : Type 0} (O : Ord A) where
  -- `x ≤ y`
  abbrev pub Le : A → A → Type 0
  Le x y = O.gt x y ≡ false

  -- In order, with the right length.
  pub record IsSorted (l : SortedLinkedList A) : Type 0 where
    pub ordered : Pairs Le l.elements
    pub counted : l.len ≡ length l.elements
    pub small : length l.elements < u64_mod

  -- Where a new element goes: behind everything that is not greater, in front of all that is.
  pub record IsPlaced (x : A) (old new : List A) : Type 0 where
    pub before : List A
    pub after : List A
    pub was : old ≡ before ++ after
    pub is : new ≡ before ++ x ∷ after
    pub not_greater : All (λ y. Le y x) before
    pub greater : All (λ y. O.gt y x ≡ true) after

  all_greater :
      (x y : A) (ys : List A) → O.gt y x ≡ true → All (Le y) ys → All (λ z. O.gt z x ≡ true) ys
  all_greater x y [] g h = tt
  all_greater x y (z ∷ ys) g h = (
    elim (Bool-cases (O.gt z x)) [
      | inl t ↦ t
      | inr f ↦ absurd (ground (arith, O.trans y z x h.0 f))
    ],
    all_greater x y ys g h.1,
  )

  insert-IsPlaced : (x : A) (xs : List A) → Pairs Le xs → IsPlaced x xs (insert O x xs)
  unfolding insert
  insert-IsPlaced x [] h = record {
    before = [];
    after = [];
    was = refl;
    is = refl;
    not_greater = tt;
    greater = tt;
  }
  insert-IsPlaced x (y ∷ ys) h = elim (Bool-cases (O.gt y x)) [
    | inl g ↦ rw g (record {
      before = [];
      after = y ∷ ys;
      was = refl;
      is = refl;
      not_greater = tt;
      greater = (g, all_greater x y ys g h.0);
    })
    | inr l ↦
        let r = insert-IsPlaced x ys h.1 in
        rw l (record {
          before = y ∷ r.before;
          after = r.after;
          was = ap (◌∷◌ y) r.was;
          is = ap (◌∷◌ y) r.is;
          not_greater = (l, r.not_greater);
          greater = r.greater;
        })
  ]

  pub insert-Inserted : (x : A) (xs : List A) → Inserted x xs (insert O x xs)
  unfolding insert
  insert-Inserted x [] = here
  insert-Inserted x (y ∷ ys) = elim (Bool-cases (O.gt y x)) [
    | inl g ↦ rw g here
    | inr l ↦ rw l (there (insert-Inserted x ys))
  ]

  insert_ordered : (x : A) (xs : List A) → Pairs Le xs → Pairs Le (insert O x xs)
  unfolding insert
  insert_ordered x [] h = (tt, tt)
  insert_ordered x (y ∷ ys) h = elim (Bool-cases (O.gt y x)) [
    | inl g ↦
        let before : Le x y = O.asymm y x g in
        rw g ((before, All-map (Le y) (Le x) (λ z k. O.trans x y z before k) ys h.0), h)
    | inr l ↦ rw l (All-Inserted (Le y) (insert-Inserted x ys) l h.0, insert_ordered x ys h.1)
  ]

  -- `push` keeps a sorted list sorted and counted, as long as its length fits in a word. It puts
  -- the element behind all that are not greater and in front of all that are.
  pub push-IsSorted :
      (x : A) (l : SortedLinkedList A)
      → IsSorted l
      → suc (length l.elements) < u64_mod
      → IsSorted (push O x l) × IsPlaced x l.elements (push O x l).elements
  unfolding push
  push-IsSorted x l h room =
      let longer = length-Inserted (insert-Inserted x l.elements) in
      (
        record {
          ordered = insert_ordered x l.elements h.ordered;
          counted = add_u64_exact l.len 1 (omega (arith, h.counted)) ∙ omega (arith, h.counted);
          small = omega arith;
        },
        insert-IsPlaced x l.elements h.ordered,
      )

  detach-IsSorted :
      (xs : List A) (len : ℕ) (x : A) (rest : SortedLinkedList A)
      → Pairs Le xs
      → len ≡ length xs
      → length xs < u64_mod
      → detach xs len ≡ some (x, rest)
      → IsSorted rest × (xs ≡ x ∷ rest.elements) × All (Le x) rest.elements
  detach-IsSorted [] len x rest h k r e = cc
  detach-IsSorted (y ∷ ys) len x rest h k r e =
      let rest_is : record { elements = ys; len = sub_u64 len 1 } ≡ rest = cc in
      let head_is : y ≡ x = cc in
      subst (λ r. IsSorted r × (y ∷ ys ≡ x ∷ r.elements) × All (Le x) r.elements) rest_is
        (
          record {
            ordered = h.1;
            counted = sub_u64_exact len 1 (omega arith) (omega arith) ∙ omega arith;
            small = omega arith;
          },
          ap (λ z. z ∷ ys) head_is,
          subst (λ z. All (Le z) ys) head_is h.0,
        )

  -- What `pop` takes from a sorted list is not greater than any element that stays, and the list
  -- stays sorted and counted.
  pub pop-IsSorted :
      (l : SortedLinkedList A) (x : A) (rest : SortedLinkedList A)
      → IsSorted l
      → pop l ≡ some (x, rest)
      → IsSorted rest × (l.elements ≡ x ∷ rest.elements) × All (Le x) rest.elements
  unfolding pop
  pop-IsSorted l x rest h e = detach-IsSorted l.elements l.len x rest h.ordered h.counted h.small e

  retain_from-elements :
      (f : A → Bool) (xs : List A) (n : ℕ) → (retain_from f xs n).elements ≡ keep f xs
  unfolding retain_from
  retain_from-elements f [] n = refl
  retain_from-elements f (x ∷ xs) n = elim (Bool-cases (f x)) [
    | inl t ↦ rw t (ap (◌∷◌ x) (retain_from-elements f xs n))
    | inr d ↦ rw d (retain_from-elements f xs (sub_u64 n 1))
  ]

  retain_from-len :
      (f : A → Bool) (xs : List A) (k n : ℕ)
      → n ≡ k + length xs
      → n < u64_mod
      → (retain_from f xs n).len ≡ k + length (keep f xs)
  unfolding retain_from
  retain_from-len f [] k n e h = e
  retain_from-len f (x ∷ xs) k n e h = elim (Bool-cases (f x)) [
    | inl t ↦ rw t (retain_from-len f xs (suc k) n (omega arith) h ∙ omega arith)
    | inr d ↦
        let one_less : sub_u64 n 1 ≡ k + length xs =
          sub_u64_exact n 1 (omega arith) h ∙ omega arith in
        rw d (retain_from-len f xs k (sub_u64 n 1) one_less (omega arith))
  ]

  keep_ordered : (f : A → Bool) (xs : List A) → Pairs Le xs → Pairs Le (keep f xs)
  keep_ordered f [] h = tt
  keep_ordered f (x ∷ xs) h = elim (Bool-cases (f x)) [
    | inl t ↦ rw t (
      All-map _ (Le x) (λ y k. k.0) (keep f xs) (All-keep (Le x) f xs h.0),
      keep_ordered f xs h.1,
    )
    | inr n ↦ rw n (keep_ordered f xs h.1)
  ]

  -- `retain` leaves exactly the elements that pass the test, in their order, counted.
  pub retain-IsSorted :
      (f : A → Bool) (l : SortedLinkedList A)
      → IsSorted l
      → IsSorted (retain f l) × ((retain f l).elements ≡ keep f l.elements)
  unfolding retain
  retain-IsSorted f l h =
      let same = retain_from-elements f l.elements l.len in
      let number =
        retain_from-len f l.elements 0 l.len (omega (arith, h.counted))
          (omega (arith, h.counted, h.small)) in
      (
        record {
          ordered = subst (Pairs Le) (sym same) (keep_ordered f l.elements h.ordered);
          counted = omega (arith, number, ap length same);
          small = omega (
            arith,
            h.small,
            ap length same,
            length-keep f l.elements,
            count-le-length f l.elements,
          );
        },
        same,
      )
