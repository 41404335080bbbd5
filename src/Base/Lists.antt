-- ===== src/Base/Lists.antt =====
-- Lists measured by native numbers, predicates on all their members, and insertion at some place.
use Prim.Native.Nat.{ℕ, zero, suc, ◌+◌, ◌-◌, ◌<◌}
use mathlib.Core.Path.{◌≡◌, refl, ap}
use mathlib.Core.Bool.{Bool, true, false}
use mathlib.Core.List.{List, [], ◌∷◌, ◌++◌}
use mathlib.Core.Option.{Option, none, some}
use native.Mathlib.Omega.{arith}
use mathlib.Core.Logic.{◌⊎◌, inl, inr}
use holistic_framework_for_l.Base.Tests.{if◌then◌else◌, Bool-cases, Option-cases}

module _ {ℓ} {A : Type ℓ} where
  abbrev pub length : List A → ℕ
  length [] = 0
  length (x ∷ xs) = suc (length xs)

  abbrev pub get_elem? : List A → ℕ → Option A
  get_elem? [] i = none
  get_elem? (x ∷ xs) zero = some x
  get_elem? (x ∷ xs) (suc i) = get_elem? xs i

  -- A write out of bounds changes nothing.
  abbrev pub set : List A → ℕ → A → List A
  set [] i v = []
  set (x ∷ xs) zero v = v ∷ xs
  set (x ∷ xs) (suc i) v = x ∷ set xs i v

  abbrev pub take : ℕ → List A → List A
  take zero xs = []
  take (suc n) [] = []
  take (suc n) (x ∷ xs) = x ∷ take n xs

  abbrev pub drop : ℕ → List A → List A
  drop zero xs = xs
  drop (suc n) [] = []
  drop (suc n) (x ∷ xs) = drop n xs

  pub take-append-drop : (n : ℕ) (xs : List A) → take n xs ++ drop n xs ≡ xs
  take-append-drop zero xs = refl
  take-append-drop (suc n) [] = refl
  take-append-drop (suc n) (x ∷ xs) = ap (◌∷◌ x) (take-append-drop n xs)

  pub length-drop : (n : ℕ) (xs : List A) → length (drop n xs) ≡ length xs - n
  length-drop zero xs = omega arith
  length-drop (suc n) [] = omega arith
  length-drop (suc n) (x ∷ xs) = omega (arith, length-drop n xs)

  pub length-append : (xs ys : List A) → length (xs ++ ys) ≡ length xs + length ys
  length-append [] ys = omega arith
  length-append (x ∷ xs) ys = omega (arith, length-append xs ys)

  -- The first element, if there is one.
  abbrev pub first : List A → Option A
  first [] = none
  first (x ∷ xs) = some x

  -- The first element and the others, if there is one.
  abbrev pub uncons : List A → Option (A × List A)
  uncons [] = none
  uncons (x ∷ xs) = some (x, xs)

  -- The elements that pass the test, in order.
  abbrev pub keep : (A → Bool) → List A → List A
  keep p [] = []
  keep p (x ∷ xs) = if p x then x ∷ keep p xs else keep p xs

  -- The first element that passes the test.
  abbrev pub find : (A → Bool) → List A → Option A
  find p [] = none
  find p (x ∷ xs) = if p x then some x else find p xs

  abbrev also : A → Option (A × List A) → Option (A × List A)
  also x none = none
  also x (some (y, ys)) = some (y, x ∷ ys)

  -- The first element that passes the test, and the list without it.
  abbrev pub take_first : (A → Bool) → List A → Option (A × List A)
  take_first p [] = none
  take_first p (x ∷ xs) = if p x then some (x, xs) else also x (take_first p xs)

  -- `ys` is `xs` with `a` put in somewhere.
  pub data Inserted (a : A) : List A → List A → Type ℓ where
    here : {xs : List A} → Inserted a xs (a ∷ xs)
    there : {x : A} {xs ys : List A} → Inserted a xs ys → Inserted a (x ∷ xs) (x ∷ ys)

  pub length-Inserted : {a : A} {xs ys : List A} → Inserted a xs ys → length ys ≡ suc (length xs)
  length-Inserted here = refl
  length-Inserted (there i) = ap suc (length-Inserted i)

  abbrev pub All {κ} : (A → Type κ) → List A → Type κ
  All P [] = Unit
  All P (x ∷ xs) = P x × All P xs

  pub All-map {κ μ} :
      (P : A → Type κ) (Q : A → Type μ)
      → ((a : A) → P a → Q a)
      → (xs : List A) → All P xs
      → All Q xs
  All-map P Q f [] h = tt
  All-map P Q f (x ∷ xs) h = (f x h.0, All-map P Q f xs h.1)

  pub All-Inserted {κ} :
      (P : A → Type κ) {a : A} {xs ys : List A} → Inserted a xs ys → P a → All P xs → All P ys
  All-Inserted P here p h = (p, h)
  All-Inserted P (there i) p h = (h.0, All-Inserted P i p h.1)

  pub Inserted-All {κ} :
      (P : A → Type κ) {a : A} {xs ys : List A} → Inserted a xs ys → All P ys → P a × All P xs
  Inserted-All P here h = h
  Inserted-All P (there i) h = let r = Inserted-All P i h.1 in (r.0, (h.0, r.1))

  -- Every element is related to each one behind it.
  abbrev pub Pairs {κ} : (A → A → Type κ) → List A → Type κ
  Pairs R [] = Unit
  Pairs R (x ∷ xs) = All (R x) xs × Pairs R xs

  -- For a symmetric relation the place of insertion does not matter.
  pub Pairs-Inserted {κ} :
      (R : A → A → Type κ) (flip : (a b : A) → R a b → R b a) {a : A} {xs ys : List A}
      → Inserted a xs ys
      → All (R a) xs
      → Pairs R xs
      → Pairs R ys
  Pairs-Inserted R flip here p h = (p, h)
  Pairs-Inserted R flip {a} (there {x = x} i) p h =
      (All-Inserted (R x) i (flip a x p.0) h.0, Pairs-Inserted R flip i p.1 h.1)

  pub Inserted-Pairs {κ} :
      (R : A → A → Type κ) (flip : (a b : A) → R a b → R b a) {a : A} {xs ys : List A}
      → Inserted a xs ys
      → Pairs R ys
      → All (R a) xs × Pairs R xs
  Inserted-Pairs R flip here h = h
  Inserted-Pairs R flip {a} (there {x = x} i) h =
      let r = Inserted-Pairs R flip i h.1 in
      let s = Inserted-All (R x) i h.0 in ((flip x a s.0, r.0), (s.1, r.1))

  -- The two ways in which `take_first` finds an element in a list with a head.
  take_first-cons :
      (b : Bool) (x : A) (xs : List A) (r : Option (A × List A)) (a : A) (ys : List A)
      → (if b then some (x, xs) else also x r) ≡ some (a, ys)
      → ((b ≡ true) × (x ≡ a) × (xs ≡ ys)) ⊎ ((zs : List A) × (r ≡ some (a, zs)) × (ys ≡ x ∷ zs))
  take_first-cons true x xs r a ys e = inl (refl, cc, cc)
  take_first-cons false x xs none a ys e = cc
  take_first-cons false x xs (some (b, bs)) a ys e = inr (bs, cc, cc)

  -- What `take_first` takes out passes the test and was in the list.
  pub take_first-Inserted :
      (p : A → Bool) (xs : List A) {a : A} {ys : List A}
      → take_first p xs ≡ some (a, ys)
      → (p a ≡ true) × Inserted a ys xs
  take_first-Inserted p [] e = cc
  take_first-Inserted p (x ∷ xs) {a} {ys} e =
      elim (take_first-cons (p x) x xs (take_first p xs) a ys e) [
        | inl (t, h, t') ↦ rw (← h, ← t') (t, here)
        | inr (zs, e', h) ↦ let r = take_first-Inserted p xs e' in rw h (r.0, there r.1)
      ]

  -- If nothing is taken out, nothing passes the test.
  pub take_first-none :
      (p : A → Bool) (xs : List A) → take_first p xs ≡ none → All (λ a. p a ≡ false) xs
  take_first-none p [] e = tt
  take_first-none p (x ∷ xs) e = elim (Bool-cases (p x)) [
    | inl t ↦ ground arith
    | inr f ↦ elim (Option-cases (take_first p xs)) [
      | inl none_left ↦ (f, take_first-none p xs none_left)
      | inr (r, e') ↦ ground arith
    ]
  ]

module _ {ℓ} {A : Type ℓ} where
  pub All-keep {κ} :
      (P : A → Type κ) (p : A → Bool) (xs : List A)
      → All P xs
      → All (λ x. P x × (p x ≡ true)) (keep p xs)
  All-keep P p [] h = tt
  All-keep P p (x ∷ xs) h = elim (Bool-cases (p x)) [
    | inl t ↦ rw t ((h.0, t), All-keep P p xs h.1)
    | inr f ↦ rw f (All-keep P p xs h.1)
  ]

  pub get_elem?-All {κ} :
      (P : A → Type κ) (xs : List A) (i : ℕ)
      → All P xs
      → i < length xs
      → (x : A) × (get_elem? xs i ≡ some x) × P x
  get_elem?-All P [] i h l = absurd (omega arith)
  get_elem?-All P (x ∷ xs) zero h l = (x, refl, h.0)
  get_elem?-All P (x ∷ xs) (suc i) h l = get_elem?-All P xs i h.1 (omega arith)

-- The numbers from `lo` on, so many.
abbrev pub range : ℕ → ℕ → List ℕ
range lo zero = []
range lo (suc n) = lo ∷ range (suc lo) n

pub All-append {ℓ} :
    {A : Type ℓ} (P : A → Type 0) (xs ys : List A) → All P xs → All P ys → All P (xs ++ ys)
All-append P [] ys h k = k
All-append P (x ∷ xs) ys h k = (h.0, All-append P xs ys h.1 k)
