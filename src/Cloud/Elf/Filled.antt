-- ===== src/Cloud/Elf/Filled.antt =====
-- What the loop that fills an image writes (components/cloud/src/elf.rs).
use holistic_framework_for_l.Base.{
  ℕ, zero, suc, ◌+◌, ◌-◌, ◌≤◌, ◌≡◌, refl, sym, ap, ◌∙◌, inl, inr, Bool, true, false, Bool-cases,
  ◌&&◌, ◌||◌, Option, none, some, List, [], ◌∷◌, arith, length, get_elem?, All, All-map, Returns,
  Returns-bind, Returns-map, ltb, leb, if◌then◌else◌,
}
use holistic_framework_for_l.Cloud.Elf.{overwrite, fill}

-- What is at an address once a segment has been copied there, over what was there.
abbrev pub covered : ℕ → List ℕ → ℕ → Option ℕ → Option ℕ
covered start bytes i old =
    if leb start i && ltb i (start + length bytes) then get_elem? bytes (i - start) else old

covered-cons :
    (d : ℕ) (ds : List ℕ) (i : ℕ) (old : Option ℕ)
    → covered 0 (d ∷ ds) (suc i) old ≡ covered 0 ds i old
covered-cons d ds i old =
    let whole : suc i - 0 ≡ suc i = omega arith in
    let rest : i - 0 ≡ i = omega arith in
    elim (Bool-cases (ltb i (length ds))) [
      | inl inside ↦
          let a : ltb (suc i) (0 + suc (length ds)) ≡ true = ground arith in
          let b : ltb i (0 + length ds) ≡ true = ground arith in
          let c : leb 0 (suc i) ≡ true = ground arith in
          let e : leb 0 i ≡ true = ground arith in rw (a, b, c, e, whole, rest) refl
      | inr outside ↦
          let a : ltb (suc i) (0 + suc (length ds)) ≡ false = ground arith in
          let b : ltb i (0 + length ds) ≡ false = ground arith in
          let c : leb 0 (suc i) ≡ true = ground arith in
          let e : leb 0 i ≡ true = ground arith in rw (a, b, c, e) refl
    ]

covered-suc :
    (start : ℕ) (ds : List ℕ) (i : ℕ) (old : Option ℕ)
    → covered (suc start) ds (suc i) old ≡ covered start ds i old
covered-suc start ds i old =
    let a : leb (suc start) (suc i) ≡ leb start i = ground arith in
    let b : ltb (suc i) (suc start + length ds) ≡ ltb i (start + length ds) = ground arith in
    let c : suc i - suc start ≡ i - start = omega arith in rw (a, b, c) refl

pub record IsOver (start : ℕ) (bytes bin r : List ℕ) : Type 0 where
  pub as_long : length r ≡ length bin
  pub at : (i : ℕ) → get_elem? r i ≡ covered start bytes i (get_elem? bin i)

overwrite-IsOver :
    (start : ℕ) (bytes bin : List ℕ)
    → start + length bytes ≤ length bin
    → Returns (IsOver start bytes bin) (overwrite start bytes bin)
unfolding overwrite
overwrite-IsOver zero [] bin h = record { as_long = refl; at = λ i. ground arith }
overwrite-IsOver zero (d ∷ ds) [] h = absurd (omega arith)
overwrite-IsOver zero (d ∷ ds) (b ∷ bin) h =
    Returns-bind (IsOver zero ds bin) (IsOver zero (d ∷ ds) (b ∷ bin)) (overwrite zero ds bin) _
      (overwrite-IsOver zero ds bin (omega arith))
      (λ r o. record { as_long = omega (arith, o.as_long); at = shifted r o })
  where
    shifted :
        (r : List ℕ)
        → IsOver zero ds bin r
        → (i : ℕ) → get_elem? (d ∷ r) i ≡ covered zero (d ∷ ds) i (get_elem? (b ∷ bin) i)
    shifted r o zero = ground arith
    shifted r o (suc i) = o.at i ∙ sym (covered-cons d ds i (get_elem? bin i))
overwrite-IsOver (suc start) ds [] h = absurd (omega arith)
overwrite-IsOver (suc start) ds (b ∷ bin) h =
    Returns-bind (IsOver start ds bin) (IsOver (suc start) ds (b ∷ bin)) (overwrite start ds bin) _
      (overwrite-IsOver start ds bin (omega arith))
      (λ r o. record { as_long = omega (arith, o.as_long); at = shifted r o })
  where
    shifted :
        (r : List ℕ)
        → IsOver start ds bin r
        → (i : ℕ) → get_elem? (b ∷ r) i ≡ covered (suc start) ds i (get_elem? (b ∷ bin) i)
    shifted r o zero = ground arith
    shifted r o (suc i) = o.at i ∙ sym (covered-suc start ds i (get_elem? bin i))

-- The byte at an index of the image: that of the last segment that covers it, or what was there.
abbrev pub byte_of : ℕ → List (ℕ × List ℕ) → ℕ → Option ℕ → Option ℕ
byte_of start [] i old = old
byte_of start ((addr, bytes) ∷ xs) i old = byte_of start xs i (covered (addr - start) bytes i old)

abbrev pub any_below : ℕ → List (ℕ × List ℕ) → Bool
any_below start [] = false
any_below start ((addr, bytes) ∷ xs) = ltb addr start || any_below start xs

abbrev pub EndsBy : ℕ → ℕ × List ℕ → Type 0
EndsBy end x = x.0 + length x.1 ≤ end

-- What the image is filled with, unless a segment lies below its start.
pub data IsFilled (start : ℕ) (xs : List (ℕ × List ℕ)) (bin : List ℕ)
    : Option (List ℕ) → Type 0 where
  too_low : any_below start xs ≡ true → IsFilled start xs bin none
  filled :
      (r : List ℕ)
      → any_below start xs ≡ false
      → length r ≡ length bin
      → ((i : ℕ) → get_elem? r i ≡ byte_of start xs i (get_elem? bin i))
      → IsFilled start xs bin (some r)

IsFilled-cons :
    (start addr : ℕ) (bytes bin r : List ℕ) (xs : List (ℕ × List ℕ)) (o : Option (List ℕ))
    → start ≤ addr
    → IsOver (addr - start) bytes bin r
    → IsFilled start xs r o
    → IsFilled start ((addr, bytes) ∷ xs) bin o
IsFilled-cons start addr bytes bin r xs _ h over (too_low t) = too_low (ground (arith, t))
IsFilled-cons start addr bytes bin r xs _ h over (filled s t l k) =
    filled s (ground (arith, t)) (l ∙ over.as_long) (λ i. k i ∙ ap (byte_of start xs i) (over.at i))

pub fill-IsFilled :
    (start : ℕ) (xs : List (ℕ × List ℕ)) (bin : List ℕ)
    → All (EndsBy (start + length bin)) xs
    → Returns (IsFilled start xs bin) (fill start xs bin)
unfolding fill
fill-IsFilled start [] bin h = filled bin refl refl (λ i. refl)
fill-IsFilled start ((addr, bytes) ∷ xs) bin h = elim (Bool-cases (leb start addr)) [
  | inr below ↦ rw below (too_low (ground arith))
  | inl above ↦ rw above (
      Returns-bind (IsOver (addr - start) bytes bin) (IsFilled start ((addr, bytes) ∷ xs) bin)
        (overwrite (addr - start) bytes bin) _
        (overwrite-IsOver (addr - start) bytes bin (ground arith))
        (λ r over.
          Returns-map (IsFilled start xs r) (IsFilled start ((addr, bytes) ∷ xs) bin)
            (fill start xs r) (λ o. IsFilled-cons start addr bytes bin r xs o (ground arith) over)
            (fill-IsFilled start xs r (
              All-map (EndsBy (start + length bin)) (EndsBy (start + length r))
                (λ x e. omega (arith, over.as_long)) xs h.1))))
]
