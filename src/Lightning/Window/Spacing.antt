-- ===== src/Lightning/Window/Spacing.antt =====
-- When windows keep the clearance, in exact arithmetic, and when the code's tests agree with it.
use holistic_framework_for_l.Base.{
  ℕ, ◌+◌, ◌-◌, ◌*◌, ◌/◌, ◌≤◌, ◌<◌, ◌≡◌, ◌⊎◌, inl, inr, false, List, [], ◌∷◌, arith, All, Pairs,
  u64_mod,
}
use holistic_framework_for_l.Lightning.Window.{
  WindowKind, beacon, child, parent, kind_duration, Window, duration, window_end,
  WindowDelayIncrement, milliseconds, minutes, as_ms, delay_window, overlaps,
}

-- The end of a window on an unbounded clock.
abbrev pub finish : Window → ℕ
finish w = w.start + duration w

-- One of the two ends a clearance before the other starts.
abbrev pub Apart : ℕ → Window → Window → Type 0
Apart c a b = (finish a + c ≤ b.start) ⊎ (finish b + c ≤ a.start)

abbrev pub Before : ℕ → Window → Window → Type 0
Before c a b = finish a + c ≤ b.start

-- Windows in ascending order with a clearance between them.
abbrev pub IsSpaced : ℕ → List Window → Type 0
IsSpaced c ws = Pairs (Before c) ws

abbrev pub Within : ℕ → Window → Type 0
Within t w = finish w ≤ t

abbrev pub longest : ℕ
longest = 710

pub duration-bounds : (k : WindowKind) → (0 < kind_duration k) × (kind_duration k ≤ longest)
duration-bounds beacon = omega arith
duration-bounds child = omega arith
duration-bounds parent = omega arith

pub Apart-symm : (c : ℕ) (a b : Window) → Apart c a b → Apart c b a
Apart-symm c a b (inl h) = inr h
Apart-symm c a b (inr h) = inl h

pub window_end_exact : (w : Window) → finish w < u64_mod → window_end w ≡ finish w
unfolding window_end
window_end_exact w h = omega arith

-- On a queue in order, keeping apart is the same as being spaced.
All-Before :
    (c : ℕ) (a : Window) (ws : List Window)
    → All (λ x. a.start ≤ x.start) ws
    → All (Apart c a) ws
    → All (Before c a) ws
All-Before c a [] s h = tt
All-Before c a (x ∷ xs) s h = (ground (arith, duration-bounds x.kind), All-Before c a xs s.1 h.1)

pub IsSpaced-of_Apart :
    (c : ℕ) (ws : List Window)
    → Pairs (λ x y. x.start ≤ y.start) ws
    → Pairs (Apart c) ws
    → IsSpaced c ws
IsSpaced-of_Apart c [] s h = tt
IsSpaced-of_Apart c (x ∷ xs) s h = (All-Before c x xs s.0 h.0, IsSpaced-of_Apart c xs s.1 h.1)

-- The test of the code is the negation of keeping apart.
module _ (c t : ℕ) (a b : Window) (room : t + c < u64_mod) (wa : Within t a) (wb : Within t b) where
  pub overlaps-false : overlaps c a b ≡ false → Apart c a b
  unfolding overlaps window_end
  overlaps-false h = ground arith

  pub Apart-overlaps : Apart c a b → overlaps c a b ≡ false
  unfolding overlaps window_end
  Apart-overlaps h = ground arith

-- A delay is the least number of increments that reaches the given time, and none if the start is
-- there already.
pub record Delayed (start inc time : ℕ) (s : ℕ) : Type 0 where
  pub steps : ℕ
  pub stepped : s ≡ start + steps * inc
  pub reached : time ≤ s
  pub least : (j : ℕ) → time ≤ start + j * inc → s ≤ start + j * inc
  pub near : (s < time + inc) ⊎ (s ≡ start)

pub delay_window-Delayed :
    (start time : ℕ) (i : WindowDelayIncrement)
    → start < u64_mod
    → time + as_ms i < u64_mod
    → Delayed start (as_ms i) time (delay_window start (as_ms i) time)
unfolding delay_window
delay_window-Delayed start time milliseconds h k = record {
  steps = time - start;
  stepped = ground arith;
  reached = ground arith;
  least = λ j g. ground arith;
  near = ground arith;
}
delay_window-Delayed start time minutes h k = record {
  steps = (time - start + 59999) / 60000;
  stepped = ground arith;
  reached = ground arith;
  least = λ j g. ground arith;
  near = ground arith;
}
