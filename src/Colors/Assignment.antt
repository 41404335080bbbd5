-- ===== src/Colors/Assignment.antt =====
-- A client keeps its colour, and no two clients have the same (components/cloud/src/client.rs).
use holistic_framework_for_l.Base.{
  Bool, not, ◌&&◌, ℕ, ◌<◌, ◌≡◌, ◌≢◌, refl, sym, ap, ◌∙◌, inl, inr, Option, none, some, List, [],
  ◌∷◌, ◌++◌, arith, length, All, Pairs, Inserted, here, there, Inserted-Pairs, ◌⊎◌, false, Returns,
  HasValue, ◌==◌, true,
}
use mathlib.Core.Path.{subst}
use holistic_framework_for_l.Colors.{
  RgbColor, Colors, new, lookup, behind, pop_last, get_or_assign, get_color,
}

abbrev pub colors_of : List (ℕ × RgbColor) → List RgbColor
colors_of [] = []
colors_of ((i, c) ∷ rest) = c ∷ colors_of rest

-- No colour stands twice among those that are assigned and those that are left.
abbrev pub AllDifferent : Colors → Type 0
AllDifferent cs = Pairs (λ x y. x ≢ y) (colors_of cs.assigned ++ cs.left)

-- A test of colours for different amounts of red.
abbrev other_red : RgbColor → List RgbColor → Bool
other_red c [] = true
other_red c (d ∷ ds) = not (c.0 == d.0) && other_red c ds

abbrev other_reds : List RgbColor → Bool
other_reds [] = true
other_reds (c ∷ cs) = other_red c cs && other_reds cs

other_red-All : (c : RgbColor) (cs : List RgbColor) → other_red c cs ≡ true → All (λ d. c ≢ d) cs
other_red-All c [] h = tt
other_red-All c (d ∷ ds) h =
    let differs : c.0 ≢ d.0 = ground arith in
    (λ p. differs (ap (λ x. x.0) p), other_red-All c ds (ground arith))

other_reds-Pairs : (cs : List RgbColor) → other_reds cs ≡ true → Pairs (λ x y. x ≢ y) cs
other_reds-Pairs [] h = tt
other_reds-Pairs (c ∷ cs) h =
    (other_red-All c cs (ground arith), other_reds-Pairs cs (ground arith))

-- The eight colours of the start.
pub new-AllDifferent : AllDifferent new
unfolding new
new-AllDifferent = other_reds-Pairs new.left refl

pop_last-append :
    (left : List RgbColor) (c : RgbColor) (init : List RgbColor)
    → pop_last left ≡ some (c, init)
    → left ≡ init ++ c ∷ []
pop_last-append [] c init e = cc
pop_last-append (d ∷ []) c init e =
    let last : d ≡ c = cc in
    let none_before : [] ≡ init = cc in ap (λ x. x ∷ []) last ∙ ap (λ l. l ++ c ∷ []) none_before
pop_last-append (d ∷ b ∷ ds) c init e =
    let r = behind b (pop_last ds) in
    let last : r.0 ≡ c = cc in
    let before : d ∷ r.1 ≡ init = cc in
    ap (◌∷◌ d) (pop_last-append (b ∷ ds) r.0 r.1 refl)
    ∙ ap (λ x. d ∷ r.1 ++ x ∷ []) last
    ∙ ap (λ l. l ++ c ∷ []) before

Inserted-last : (c : RgbColor) (xs : List RgbColor) → Inserted c xs (xs ++ c ∷ [])
Inserted-last c [] = here
Inserted-last c (x ∷ xs) = there (Inserted-last c xs)

Inserted-append :
    (c : RgbColor) (xs ys zs : List RgbColor) → Inserted c ys zs → Inserted c (xs ++ ys) (xs ++ zs)
Inserted-append c [] ys zs i = i
Inserted-append c (x ∷ xs) ys zs i = there (Inserted-append c xs ys zs i)

pop_last-some : (left : List RgbColor) → 0 < length left → HasValue (pop_last left)
pop_last-some [] h = absurd (omega arith)
pop_last-some (c ∷ cs) h = (behind c (pop_last cs), refl)

-- What the client and all others have afterwards.
pub record IsAssigned (node_id : ℕ) (old : Colors) (r : RgbColor × Colors) : Type 0 where
  pub has : lookup r.1.assigned node_id ≡ some r.0
  pub others : (j : ℕ) → j ≢ node_id → lookup r.1.assigned j ≡ lookup old.assigned j
  pub keeps : (c : RgbColor) → lookup old.assigned node_id ≡ some c → r.0 ≡ c
  pub different : AllDifferent r.1

assign-IsAssigned :
    (cs : Colors) (node_id : ℕ) (c : RgbColor) (init : List RgbColor)
    → AllDifferent cs
    → lookup cs.assigned node_id ≡ none
    → pop_last cs.left ≡ some (c, init)
    → IsAssigned node_id cs (c, record { assigned = (node_id, c) ∷ cs.assigned; left = init })
assign-IsAssigned cs node_id c init d n e =
    let own : (node_id == node_id) ≡ true = ground arith in
    record {
      has = rw own refl;
      others = λ j other.
          let differs : (node_id == j) ≡ false = ground (arith, other) in rw differs refl;
      keeps = λ c' k. absurd (some≢none (sym k ∙ n));
      different =
          Inserted-Pairs (λ x y. x ≢ y) (λ x y k p. k (sym p))
            (subst (λ l. Inserted c (colors_of cs.assigned ++ init) (colors_of cs.assigned ++ l))
              (sym (pop_last-append cs.left c init e))
              (Inserted-append c (colors_of cs.assigned) init (init ++ c ∷ [])
                (Inserted-last c init)))
            d;
    }
  where
    some≢none : {c : RgbColor} → some c ≢ none
    some≢none = λ p. cc

-- If all colours differ, and the client has one or one is left: `get_color` returns the colour that
-- is then the client's. A client that has a colour keeps it. The colours of the other clients stay as
-- they are, and all colours still differ.
pub get_color-IsAssigned :
    (cs : Colors) (node_id : ℕ)
    → AllDifferent cs
    → HasValue (lookup cs.assigned node_id) ⊎ (0 < length cs.left)
    → Returns (IsAssigned node_id cs) (get_color cs node_id)
unfolding get_color
get_color-IsAssigned cs node_id d h = known (lookup cs.assigned node_id) refl h
  where
    known :
        (o : Option RgbColor)
        → lookup cs.assigned node_id ≡ o
        → HasValue (lookup cs.assigned node_id) ⊎ (0 < length cs.left)
        → Returns (IsAssigned node_id cs) (get_or_assign cs node_id o)
    known (some c) e h = record {
      has = e;
      others = λ j other. refl;
      keeps = λ c' k. ground (arith, e, k);
      different = d;
    }
    known none e (inl (c, k)) = cc
    known none e (inr room) =
        let ((c, init), popped) = pop_last-some cs.left room in
        rw popped (assign-IsAssigned cs node_id c init d e popped)
