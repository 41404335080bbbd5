-- ===== src/Base/Members.antt =====
-- Membership and counting along an insertion.
use mathlib.Core.List.{Memᴰ}
use Prim.Native.Nat.{ℕ, ◌+◌, ◌≤◌}
use mathlib.Core.Path.{◌≡◌, refl}
use mathlib.Core.Logic.{◌⊎◌, inl, inr}
use mathlib.Core.Bool.{Bool}
use mathlib.Core.List.{List, [], ◌∷◌}
use native.Mathlib.Omega.{arith}
use holistic_framework_for_l.Base.Tests.{if◌then◌else◌}
use holistic_framework_for_l.Base.Lists.{length, keep, Inserted, here, there, All}

module _ {ℓ} {A : Type ℓ} where
  pub mem-Inserted : {a b : A} {xs ys : List A} → Inserted b xs ys → Memᴰ a xs → Memᴰ a ys
  mem-Inserted here m = Memᴰ.tail m
  mem-Inserted (there i) (Memᴰ.head e) = Memᴰ.head e
  mem-Inserted (there i) (Memᴰ.tail m) = Memᴰ.tail (mem-Inserted i m)

  pub Inserted-mem_self : {b : A} {xs ys : List A} → Inserted b xs ys → Memᴰ b ys
  Inserted-mem_self here = Memᴰ.head refl
  Inserted-mem_self (there i) = Memᴰ.tail (Inserted-mem_self i)

  pub Inserted-mem : {a b : A} {xs ys : List A} → Inserted b xs ys → Memᴰ a ys → (a ≡ b) ⊎ Memᴰ a xs
  Inserted-mem here (Memᴰ.head e) = inl e
  Inserted-mem here (Memᴰ.tail m) = inr m
  Inserted-mem (there i) (Memᴰ.head e) = inr (Memᴰ.head e)
  Inserted-mem (there i) (Memᴰ.tail m) = elim (Inserted-mem i m) [
    | inl e ↦ inl e
    | inr m' ↦ inr (Memᴰ.tail m')
  ]

  pub All-mem {κ} : (P : A → Type κ) {a : A} {xs : List A} → All P xs → Memᴰ a xs → P a
  All-mem P h (Memᴰ.head e) = rw e h.0
  All-mem P h (Memᴰ.tail m) = All-mem P h.1 m

  pub All-map₂ {κ μ ν} :
      (P : A → Type κ) (Q : A → Type μ) (R : A → Type ν)
      → ((a : A) → P a → Q a → R a)
      → (xs : List A) → All P xs
      → All Q xs
      → All R xs
  All-map₂ P Q R f [] h k = tt
  All-map₂ P Q R f (x ∷ xs) h k = (f x h.0 k.0, All-map₂ P Q R f xs h.1 k.1)

  -- How many elements pass the test.
  abbrev pub count : (A → Bool) → List A → ℕ
  count p [] = 0
  count p (x ∷ xs) = (if p x then 1 else 0) + count p xs

  pub count-le-length : (p : A → Bool) (xs : List A) → count p xs ≤ length xs
  count-le-length p [] = omega arith
  count-le-length p (x ∷ xs) = ground (arith, count-le-length p xs)

  pub count-Inserted :
      (p : A → Bool) {a : A} {xs ys : List A}
      → Inserted a xs ys
      → count p ys ≡ (if p a then 1 else 0) + count p xs
  count-Inserted p here = refl
  count-Inserted p (there i) = omega (arith, count-Inserted p i)

  pub length-keep : (p : A → Bool) (xs : List A) → length (keep p xs) ≡ count p xs
  length-keep p [] = refl
  length-keep p (x ∷ xs) = ground (arith, length-keep p xs)
