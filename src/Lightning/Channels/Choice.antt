-- ===== src/Lightning/Channels/Choice.antt =====
-- The random choice of a children channel never fails and never takes a channel in use.
use holistic_framework_for_l.Base.{
  ℕ, suc, ◌+◌, ◌%◌, ◌≤◌, ◌<◌, ◌≡◌, refl, ap, ◌∙◌, ◌≢◌, inl, inr, Bool, true, false, not, ◌||◌,
  Option, none, some, List, [], ◌∷◌, arith, length, keep, range, All, All-keep, get_elem?-All,
  Returns, Rng, next_u32, ◌==◌, Bool-cases,
}
use native.Mathlib.Nat.{mod-lt}
use holistic_framework_for_l.Lightning.Params.{Channel, num_channels}
use holistic_framework_for_l.Lightning.Channels.{
  Channels, is_channel, is_free, free_channels, set_random_children_channel,
}

-- Ascending numbers from `lo` on.
abbrev Ascends : ℕ → List ℕ → Type 0
Ascends lo [] = Unit
Ascends lo (x ∷ xs) = (lo ≤ x) × Ascends (suc x) xs

Ascends-mono : (lo hi : ℕ) (xs : List ℕ) → lo ≤ hi → Ascends hi xs → Ascends lo xs
Ascends-mono lo hi [] h a = tt
Ascends-mono lo hi (x ∷ xs) h a = (omega arith, a.1)

keep-Ascends : (p : ℕ → Bool) (lo : ℕ) (xs : List ℕ) → Ascends lo xs → Ascends lo (keep p xs)
keep-Ascends p lo [] a = tt
keep-Ascends p lo (x ∷ xs) a = elim (Bool-cases (p x)) [
  | inl t ↦ rw t (a.0, keep-Ascends p (suc x) xs a.1)
  | inr f ↦ rw f (Ascends-mono lo (suc x) _ (omega arith) (keep-Ascends p (suc x) xs a.1))
]

length-keep_above :
    (d lo : ℕ) (xs : List ℕ)
    → d < lo
    → Ascends lo xs
    → length (keep (λ c. not (is_channel (some d) c)) xs) ≡ length xs
length-keep_above d lo [] h a = refl
length-keep_above d lo (x ∷ xs) h a = ground (arith, length-keep_above d (suc x) xs)

-- A channel that may be absent is no obstacle to more than one number.
length-keep_ne :
    (o : Option ℕ) (lo : ℕ) (xs : List ℕ)
    → Ascends lo xs
    → length xs ≤ suc (length (keep (λ c. not (is_channel o c)) xs))
length-keep_ne none lo [] a = omega arith
length-keep_ne none lo (x ∷ xs) a = omega (arith, length-keep_ne none (suc x) xs a.1)
length-keep_ne (some d) lo [] a = omega arith
length-keep_ne (some d) lo (x ∷ xs) a =
    ground (arith, length-keep_ne (some d) (suc x) xs a.1, length-keep_above d (suc x) xs)

keep-or :
    (p q : ℕ → Bool) (xs : List ℕ)
    → keep (λ c. not (p c || q c)) xs ≡ keep (λ c. not (p c)) (keep (λ c. not (q c)) xs)
keep-or p q [] = refl
keep-or p q (x ∷ xs) = elim (Bool-cases (p x)) [
  | inl a ↦ elim (Bool-cases (q x)) [
    | inl b ↦ simp (a, b) (keep-or p q xs)
    | inr b ↦ simp (a, b) (keep-or p q xs)
  ]
  | inr a ↦ elim (Bool-cases (q x)) [
    | inl b ↦ simp (a, b) (keep-or p q xs)
    | inr b ↦ simp (a, b) (ap (◌∷◌ x) (keep-or p q xs))
  ]
]

keep-is_free :
    (chs : Channels) (xs : List ℕ)
    → keep (is_free chs) xs
      ≡ keep
          (λ c. not (is_channel (some chs.public) c))
          (keep
            (λ c. not (is_channel chs.parent c))
            (keep (λ c. not (is_channel chs.parents_parent_channel c)) xs))
keep-is_free chs xs =
    let p = is_channel (some chs.public) in
    let q = is_channel chs.parent in
    let r = is_channel chs.parents_parent_channel in
    keep-or (λ c. p c || q c) r xs ∙ keep-or p q (keep (λ c. not (r c)) xs)

-- Channels in use, three at most, leave all but three of a list free.
length-keep-is_free :
    (chs : Channels) (lo : ℕ) (xs : List ℕ)
    → Ascends lo xs
    → length xs ≤ 3 + length (keep (is_free chs) xs)
length-keep-is_free chs lo xs a =
    let p = is_channel (some chs.public) in
    let q = is_channel chs.parent in
    let r = is_channel chs.parents_parent_channel in
    let xs₁ = keep (λ c. not (r c)) xs in
    let a₁ = keep-Ascends (λ c. not (r c)) lo xs a in
    let a₂ = keep-Ascends (λ c. not (q c)) lo xs₁ a₁ in
    rw (keep-is_free chs xs) (
      omega (
        arith,
        length-keep_ne chs.parents_parent_channel lo xs a,
        length-keep_ne chs.parent lo xs₁ a₁,
        length-keep_ne (some chs.public) lo (keep (λ c. not (q c)) xs₁) a₂,
      ))

free_channels-length : (chs : Channels) → 5 ≤ length (free_channels chs)
unfolding free_channels
free_channels-length chs =
    omega (arith, length-keep-is_free chs 0 (range 0 num_channels) (omega arith))

free_channels-All :
    (chs : Channels) → All (λ c. (c < num_channels) × (is_free chs c ≡ true)) (free_channels chs)
unfolding free_channels
free_channels-All chs =
    All-keep (λ c. c < num_channels) (is_free chs) (range 0 num_channels) (omega arith)

-- What a choice of the children channel is to be.
pub record Chosen (old new : Channels) : Type 0 where
  pub channel : Channel
  pub chosen : new ≡ record old { children = some channel }
  pub exists : channel < num_channels
  pub not_public : old.public ≢ channel
  pub not_parent : old.parent ≢ some channel
  pub not_parents_parent : old.parents_parent_channel ≢ some channel

is_free-ne :
    (chs : Channels) (c : Channel)
    → is_free chs c ≡ true
    → (chs.public ≢ c) × (chs.parent ≢ some c) × (chs.parents_parent_channel ≢ some c)
is_free-ne chs c h = (
  λ e. ne (some chs.public) (ground arith) (ap some e),
  ne chs.parent (ground arith),
  ne chs.parents_parent_channel (ground arith),
)
  where
    ne : (o : Option Channel) → is_channel o c ≡ false → o ≢ some c
    ne none f = λ e. cc
    ne (some d) f = λ e. ground arith

-- Whatever the generator returns, a children channel is chosen: one of the eight channels, and
-- none that the node, its parent or its parent's parent uses. Nothing else changes.
pub set_random_children_channel-Chosen :
    (chs : Channels) (rng : Rng) → Returns (Chosen chs) (set_random_children_channel chs rng)
unfolding set_random_children_channel
set_random_children_channel-Chosen chs rng =
    let n = length (free_channels chs) in
    let many = free_channels-length chs in
    let (c, e, p) =
      get_elem?-All (λ c. (c < num_channels) × (is_free chs c ≡ true)) (free_channels chs)
        (next_u32 rng % n) (free_channels-All chs) (mod-lt (next_u32 rng) (omega arith)) in
    let (a, b, d) = is_free-ne chs c p.1 in
    let some_left : (n == 0) ≡ false = ground arith in
    rw (some_left, e)
      (record {
        channel = c;
        chosen = refl;
        exists = p.0;
        not_public = a;
        not_parent = b;
        not_parents_parent = d;
      })
