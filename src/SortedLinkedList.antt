-- ===== src/SortedLinkedList.antt =====
-- The event queue of the simulator: a priority queue on a linked list
-- (libraries/sorted_linked_list/src/lib.rs). The chain of nodes behind `head` is a list; the loops
-- over `&mut` references to its links are recursions on it.
pub mod Order
use holistic_framework_for_l.Base.{
  ℕ, ◌≡◌, Bool, true, false, Option, none, some, List, [], ◌∷◌, add_u64, sub_u64, ◌==◌,
  if◌then◌else◌,
}

-- `Ord`, by its strict comparison, with the laws that the trait demands.
pub record Ord (A : Type 0) : Type 0 where
  -- `x > y`
  pub gt : A → A → Bool
  pub asymm : (x y : A) → gt x y ≡ true → gt y x ≡ false
  pub trans : (x y z : A) → gt x y ≡ false → gt y z ≡ false → gt x z ≡ false

pub record SortedLinkedList (A : Type 0) : Type 0 where
  pub elements : List A
  pub len : ℕ

module _ {A : Type 0} where
  unfoldable pub new : SortedLinkedList A
  new = record { elements = []; len = 0 }

  -- The node behind `head`, if there is one, taken off.
  abbrev pub detach : List A → ℕ → Option (A × SortedLinkedList A)
  detach [] len = none
  detach (x ∷ xs) len = some (x, record { elements = xs; len = sub_u64 len 1 })

  unfoldable pub pop : SortedLinkedList A → Option (A × SortedLinkedList A)
  pop l = detach l.elements l.len

  unfoldable pub peek : SortedLinkedList A → Option A
  peek l = elim l.elements [ [] ↦ none | x ∷ xs ↦ some x ]

  unfoldable pub is_empty : SortedLinkedList A → Bool
  is_empty l = l.len == 0

  -- The loop of `retain`.
  unfoldable pub retain_from : (A → Bool) → List A → ℕ → SortedLinkedList A
  retain_from f [] len = record { elements = []; len = len }
  retain_from f (x ∷ xs) len =
      let kept = retain_from f xs len in
      let dropped = retain_from f xs (sub_u64 len 1) in
      if f x then record kept { elements = x ∷ kept.elements } else dropped

  unfoldable pub retain : (A → Bool) → SortedLinkedList A → SortedLinkedList A
  retain f l = retain_from f l.elements l.len

  module _ (O : Ord A) where
    -- The loop of `push`: in front of the first greater element.
    unfoldable pub insert : A → List A → List A
    insert element [] = element ∷ []
    insert element (x ∷ xs) = if O.gt x element then element ∷ x ∷ xs else x ∷ insert element xs

    unfoldable pub push : A → SortedLinkedList A → SortedLinkedList A
    push element l = record { elements = insert element l.elements; len = add_u64 l.len 1 }
