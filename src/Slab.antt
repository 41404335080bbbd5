-- ===== src/Slab.antt =====
-- The clients of the cloud service are kept in a slab, where an index stays valid until its entry
-- is removed (components/cloud/src/slab.rs). A `Vec` is a list; `&mut` results are read as values.
pub mod Slots
use holistic_framework_for_l.Base.{
  ℕ, suc, ◌+◌, ◌-◌, Option, none, some, Option-cases, List, [], ◌∷◌, ◌++◌, length, get_elem?, set,
  ltb, if◌then◌else◌,
}

abbrev pub Slab : Type 0 → Type 0
Slab T = List (Option T)

abbrev pub count_on : Option ℕ → Option ℕ
count_on none = none
count_on (some i) = some (suc i)

module _ {T : Type 0} where
  unfoldable pub new : Slab T
  new = []

  -- The index of the first free slot.
  unfoldable pub get_free_index : Slab T → Option ℕ
  get_free_index [] = none
  get_free_index (none ∷ slots) = some 0
  get_free_index (some _ ∷ slots) = count_on (get_free_index slots)

  -- Where `insert` puts the element: in the free slot, or at the end.
  abbrev pub insert_at : T → Slab T → Option ℕ → ℕ × Slab T
  insert_at element slab (some index) = (index, set slab index (some element))
  insert_at element slab none = let slots = slab ++ some element ∷ [] in (length slots - 1, slots)

  unfoldable pub insert : T → Slab T → ℕ × Slab T
  insert element slab = insert_at element slab (get_free_index slab)

  abbrev pub flat : Option (Option T) → Option T
  flat none = none
  flat (some slot) = slot

  -- `get` and `get_mut`
  unfoldable pub get : Slab T → ℕ → Option T
  get slab index = flat (get_elem? slab index)

  -- The entry that was taken out, and the slab.
  unfoldable pub try_remove : Slab T → ℕ → Option T × Slab T
  try_remove slab index =
      if ltb index (length slab)
      then (flat (get_elem? slab index), set slab index none)
      else (none, slab)
