-- ===== src/Heapless.antt =====
-- The two containers of the crate `heapless` that the protocol uses. The crate is not part of the
-- repository, so each is an interface: the calls that the protocol makes, and the documented
-- behaviour as laws. `Heapless.Lists` shows that both can be met.
pub mod Lists
use holistic_framework_for_l.Base.{
  ℕ, ◌+◌, ◌≤◌, ◌<◌, ◌≡◌, Bool, Option, none, some, List, [], ◌∷◌, ◌++◌, length, first, uncons,
  take_first, Inserted, Pairs,
}

-- `heapless::Vec<A, n>`: a vector that refuses to grow beyond `n` elements.
pub record BoundedVec (A : Type 0) (n : ℕ) : Type 1 where
  pub Vec : Type 0
  pub new : Vec
  pub as_slice : Vec → List A
  -- `none` stands for an `Err`
  pub push : A → Vec → Option Vec
  pub from_slice : List A → Option Vec
  pub extend_from_slice : List A → Vec → Option Vec
  pub clear : Vec → Vec
  pub bounded : (v : Vec) → length (as_slice v) ≤ n
  pub as_slice-new : as_slice new ≡ []
  pub as_slice-clear : (v : Vec) → as_slice (clear v) ≡ []
  pub push_room :
      (a : A) (v : Vec)
      → length (as_slice v) < n
      → (w : Vec) × (push a v ≡ some w) × (as_slice w ≡ as_slice v ++ a ∷ [])
  pub push_full : (a : A) (v : Vec) → length (as_slice v) ≡ n → push a v ≡ none
  pub from_slice_room :
      (xs : List A) → length xs ≤ n → (w : Vec) × (from_slice xs ≡ some w) × (as_slice w ≡ xs)
  pub extend_room :
      (xs : List A) (v : Vec)
      → length (as_slice v) + length xs ≤ n
      → (w : Vec) × (extend_from_slice xs v ≡ some w) × (as_slice w ≡ as_slice v ++ xs)
  pub extend_full :
      (xs : List A) (v : Vec) → n < length (as_slice v) + length xs → extend_from_slice xs v ≡ none

-- Both parts of a successful removal, with the queue read as its elements.
abbrev pub read : {A Q : Type 0} → (Q → List A) → Option (A × Q) → Option (A × List A)
read iter none = none
read iter (some (a, q)) = some (a, iter q)

-- `heapless::sorted_linked_list::SortedLinkedList<A, _, Min, n>`, ordered by `key`.
pub record SortedQueue (A : Type 0) (key : A → ℕ) (n : ℕ) : Type 1 where
  pub Queue : Type 0
  pub new : Queue
  pub iter : Queue → List A
  -- `none` stands for an `Err`
  pub push : A → Queue → Option Queue
  pub pop : Queue → Option (A × Queue)
  pub peek : Queue → Option A
  -- `find_mut(p).map(|w| w.pop())`
  pub find_pop : (A → Bool) → Queue → Option (A × Queue)
  pub bounded : (q : Queue) → length (iter q) ≤ n
  pub sorted : (q : Queue) → Pairs (λ x y. key x ≤ key y) (iter q)
  pub iter-new : iter new ≡ []
  pub push_room :
      (a : A) (q : Queue)
      → length (iter q) < n
      → (r : Queue) × (push a q ≡ some r) × Inserted a (iter q) (iter r)
  pub push_full : (a : A) (q : Queue) → length (iter q) ≡ n → push a q ≡ none
  pub iter-pop : (q : Queue) → read iter (pop q) ≡ uncons (iter q)
  pub peek-first : (q : Queue) → peek q ≡ first (iter q)
  pub iter-find_pop : (p : A → Bool) (q : Queue) → read iter (find_pop p q) ≡ take_first p (iter q)
