-- ===== src/Heapless/Lists.antt =====
-- Plain lists meet both interfaces of `Heapless`, so what these ask for can be had.
use mathlib.Core.Logic.{dite, dif_pos, dif_neg}
use native.Mathlib.Decide.{dec_lt, dec_le}
use native.Mathlib.Nat.{le_trans}
use native.Mathlib.Bridge.{le_prop}
use holistic_framework_for_l.Base.{
  ℕ, ◌+◌, ◌≤◌, ◌<◌, ◌≡◌, refl, Bool, Option, none, some, List, [], ◌∷◌, ◌++◌, arith, length,
  length-append, first, uncons, take_first, take_first-Inserted, Inserted, here, there,
  length-Inserted, Inserted-All, All-map, All-Inserted, Pairs,
}
use holistic_framework_for_l.Heapless.{BoundedVec, SortedQueue, read}

module _ (A : Type 0) (n : ℕ) where
  abbrev pub ShortList : Type 0
  ShortList = (xs : List A) × (length xs ≤ n)

  -- The list, if it is short enough.
  abbrev pub fit : List A → Option ShortList
  fit xs = dite (dec_le (length xs) n) (λ h. some (xs, h)) (λ _. none)

  pub fit_room : (xs : List A) → length xs ≤ n → (w : ShortList) × (fit xs ≡ some w) × (w.0 ≡ xs)
  fit_room xs h = ((xs, h), dif_pos (dec_le (length xs) n) le_prop h _ _, refl)

  pub fit_full : (xs : List A) → n < length xs → fit xs ≡ none
  fit_full xs h = dif_neg (dec_le (length xs) n) (omega arith) _ _

  pub list_vec_push_room :
      (a : A) (v : ShortList)
      → length v.0 < n
      → (w : ShortList) × (fit (v.0 ++ a ∷ []) ≡ some w) × (w.0 ≡ v.0 ++ a ∷ [])
  list_vec_push_room a v h = fit_room (v.0 ++ a ∷ []) (omega (arith, length-append v.0 (a ∷ [])))

  pub list_vec_push_full : (a : A) (v : ShortList) → length v.0 ≡ n → fit (v.0 ++ a ∷ []) ≡ none
  list_vec_push_full a v h = fit_full _ (omega (arith, length-append v.0 (a ∷ [])))

  pub list_vec_extend_room :
      (xs : List A) (v : ShortList)
      → length v.0 + length xs ≤ n
      → (w : ShortList) × (fit (v.0 ++ xs) ≡ some w) × (w.0 ≡ v.0 ++ xs)
  list_vec_extend_room xs v h = fit_room (v.0 ++ xs) (omega (arith, length-append v.0 xs))

  pub list_vec_extend_full :
      (xs : List A) (v : ShortList) → n < length v.0 + length xs → fit (v.0 ++ xs) ≡ none
  list_vec_extend_full xs v h = fit_full _ (omega (arith, length-append v.0 xs))

  pub nil_fits : length {A = A} [] ≤ n
  nil_fits = omega arith

  unfoldable pub list_vec : BoundedVec A n
  unfolding dec_le
  list_vec = record {
    Vec = ShortList;
    new = ([], nil_fits);
    as_slice = λ v. v.0;
    push = λ a v. fit (v.0 ++ a ∷ []);
    from_slice = fit;
    extend_from_slice = λ xs v. fit (v.0 ++ xs);
    clear = λ _. ([], nil_fits);
    bounded = λ v. v.1;
    as_slice-new = refl;
    as_slice-clear = λ _. refl;
    push_room = list_vec_push_room;
    push_full = list_vec_push_full;
    from_slice_room = fit_room;
    extend_room = list_vec_extend_room;
    extend_full = list_vec_extend_full;
  }

module _ (A : Type 0) (key : A → ℕ) (n : ℕ) where
  abbrev pub Le : A → A → Type 0
  Le x y = key x ≤ key y

  abbrev pub SortedList : Type 0
  SortedList = (xs : List A) × Pairs Le xs × (length xs ≤ n)

  -- Before the first element that is not smaller.
  pub place : A → List A → List A
  place a [] = a ∷ []
  place a (x ∷ xs) = elim (dec_lt (key x) (key a)) [ yes _ ↦ x ∷ place a xs | no _ ↦ a ∷ x ∷ xs ]

  pub place-Inserted : (a : A) (xs : List A) → Inserted a xs (place a xs)
  unfolding place
  place-Inserted a [] = here
  place-Inserted a (x ∷ xs) =
      elim (dec_lt (key x) (key a))
        as (λ d. Inserted a (x ∷ xs) (elim d [ yes _ ↦ x ∷ place a xs | no _ ↦ a ∷ x ∷ xs ])) [
          | yes _ ↦ there (place-Inserted a xs)
          | no _ ↦ here
        ]

  pub place_sorted : (a : A) (xs : List A) → Pairs Le xs → Pairs Le (place a xs)
  unfolding place
  place_sorted a [] h = (tt, tt)
  place_sorted a (x ∷ xs) h =
      elim (dec_lt (key x) (key a))
        as (λ d. Pairs Le (elim d [ yes _ ↦ x ∷ place a xs | no _ ↦ a ∷ x ∷ xs ])) [
          | yes p ↦
              (All-Inserted (Le x) (place-Inserted a xs) (omega arith) h.0, place_sorted a xs h.1)
          | no p ↦ ((omega arith, All-map (Le x) (Le a) (λ y l. omega arith) xs h.0), h)
        ]

  pub Inserted-sorted : {a : A} {xs ys : List A} → Inserted a xs ys → Pairs Le ys → Pairs Le xs
  Inserted-sorted here h = h.1
  Inserted-sorted (there {x = x} i) h = ((Inserted-All (Le x) i h.0).1, Inserted-sorted i h.1)

  pub put : A → SortedList → Option SortedList
  put a q =
      dite (dec_lt (length q.0) n)
        (λ h. some (
          place a q.0,
          place_sorted a q.0 q.1,
          omega (arith, length-Inserted (place-Inserted a q.0)),
        ))
        (λ _. none)

  pub put_room :
      (a : A) (q : SortedList)
      → length q.0 < n
      → (r : SortedList) × (put a q ≡ some r) × Inserted a q.0 r.0
  unfolding put
  put_room a q h = (_, dif_pos (dec_lt (length q.0) n) le_prop h _ _, place-Inserted a q.0)

  pub put_full : (a : A) (q : SortedList) → length q.0 ≡ n → put a q ≡ none
  unfolding put
  put_full a q h = dif_neg (dec_lt (length q.0) n) (omega arith) _ _

  pub take_out :
      (p : A → Bool) (q : SortedList) (r : Option (A × List A))
      → take_first p q.0 ≡ r
      → Option (A × SortedList)
  take_out p q none e = none
  take_out p q (some (a, ys)) e =
      let i = (take_first-Inserted p q.0 e).1 in
      some (a, (ys, Inserted-sorted i q.1, omega (arith, length-Inserted i, q.2)))

  pub read-take_out :
      (p : A → Bool) (q : SortedList) (r : Option (A × List A)) (e : take_first p q.0 ≡ r)
      → read (λ s. s.0) (take_out p q r e) ≡ r
  unfolding take_out
  read-take_out p q none e = refl
  read-take_out p q (some (a, ys)) e = refl

  pub none_fit : length {A = A} [] ≤ n
  none_fit = omega arith

  pub shift : SortedList → Option (A × SortedList)
  shift ([], s, b) = none
  shift (x ∷ xs, s, b) = some (x, (xs, s.1, le_trans (omega arith) b))

  pub read-shift : (q : SortedList) → read (λ s. s.0) (shift q) ≡ uncons q.0
  unfolding shift
  read-shift ([], s, b) = refl
  read-shift (x ∷ xs, s, b) = refl

  unfoldable pub list_queue : SortedQueue A key n
  unfolding dec_lt place put take_out shift
  list_queue = record {
    Queue = SortedList;
    new = ([], tt, none_fit);
    iter = λ q. q.0;
    push = put;
    pop = shift;
    peek = λ q. first q.0;
    find_pop = λ p q. take_out p q (take_first p q.0) refl;
    bounded = λ q. q.2;
    sorted = λ q. q.1;
    iter-new = refl;
    push_room = put_room;
    push_full = put_full;
    iter-pop = read-shift;
    peek-first = λ _. refl;
    iter-find_pop = λ p q. read-take_out p q (take_first p q.0) refl;
  }
