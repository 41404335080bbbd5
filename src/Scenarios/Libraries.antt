-- ===== src/Scenarios/Libraries.antt =====
-- The theorems on the sorted linked list, the slab and the colours, applied to concrete data, and the
-- tests of libraries/sorted_linked_list/src/lib.rs and components/cloud/src/slab.rs.
use holistic_framework_for_l.Base.{
  ℕ, ◌<◌, length, Returns, inr, ◌≡◌, refl, true, false, none, some, [], ◌∷◌, arith, ltb, keep, All,
  sub_u64,
}
use holistic_framework_for_l.SortedLinkedList.{Ord, SortedLinkedList, pop, retain, push}
use holistic_framework_for_l.SortedLinkedList.Order.{
  Le, IsSorted, IsPlaced, push-IsSorted, pop-IsSorted, retain-IsSorted,
}
use holistic_framework_for_l.Slab
use holistic_framework_for_l.Slab.{Slab}
use holistic_framework_for_l.Slab.Slots.{
  IsInserted, insert-IsInserted, IsRemoved, try_remove-IsRemoved,
}
use holistic_framework_for_l.Colors
use holistic_framework_for_l.Colors.{RgbColor, Colors}
use holistic_framework_for_l.Colors.Assignment.{new-AllDifferent, IsAssigned, get_color-IsAssigned}

-- Numbers, as `Ord` has them.
ltb-asymm : (x y : ℕ) → ltb y x ≡ true → ltb x y ≡ false
ltb-asymm x y h = ground arith

ltb_trans : (x y z : ℕ) → ltb y x ≡ false → ltb z y ≡ false → ltb z x ≡ false
ltb_trans x y z h k = ground arith

abbrev numbers : Ord ℕ
numbers = record { gt = λ x y. ltb y x; asymm = ltb-asymm; trans = ltb_trans }

abbrev one_two_four : SortedLinkedList ℕ
one_two_four = record { elements = 1 ∷ 2 ∷ 4 ∷ []; len = 3 }

one_two_four-IsSorted : IsSorted numbers one_two_four
one_two_four-IsSorted = record {
  ordered = ((refl, (refl, tt)), ((refl, tt), (tt, tt)));
  counted = refl;
  small = omega arith;
}

push-IsSorted_example :
    IsSorted numbers (push numbers 2 one_two_four)
    × IsPlaced numbers 2 one_two_four.elements (push numbers 2 one_two_four).elements
push-IsSorted_example = push-IsSorted numbers 2 one_two_four one_two_four-IsSorted (omega arith)

abbrev two_four : SortedLinkedList ℕ
two_four = record { elements = 2 ∷ 4 ∷ []; len = 2 }

one_popped : pop one_two_four ≡ some (1, two_four)
unfolding pop sub_u64
one_popped = refl

pop-IsSorted_example :
    IsSorted numbers two_four
    × (one_two_four.elements ≡ 1 ∷ two_four.elements)
    × All (Le numbers 1) two_four.elements
pop-IsSorted_example = pop-IsSorted numbers one_two_four 1 two_four one_two_four-IsSorted one_popped

retain-IsSorted_example :
    IsSorted numbers (retain (ltb 1) one_two_four)
    × ((retain (ltb 1) one_two_four).elements ≡ keep (ltb 1) one_two_four.elements)
retain-IsSorted_example = retain-IsSorted numbers (ltb 1) one_two_four one_two_four-IsSorted

abbrev slots : Slab ℕ
slots = some 1 ∷ none ∷ some 3 ∷ []

insert-IsInserted_example : IsInserted 2 slots (Slab.insert 2 slots)
insert-IsInserted_example = insert-IsInserted 2 slots

try_remove-IsRemoved_example : IsRemoved 2 slots (Slab.try_remove slots 2)
try_remove-IsRemoved_example = try_remove-IsRemoved 2 slots

colors_left : 0 < length Colors.new.left
unfolding Colors.new
colors_left = omega arith

get_color-IsAssigned_example : Returns (IsAssigned 7 Colors.new) (Colors.get_color Colors.new 7)
get_color-IsAssigned_example = get_color-IsAssigned Colors.new 7 new-AllDifferent (inr colors_left)
