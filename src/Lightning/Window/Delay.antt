-- ===== src/Lightning/Window/Delay.antt =====
-- `Window::delay` is a first fit: it moves a window by the fewest increments after which it keeps
-- the clearance to every window of the queue.
use holistic_framework_for_l.Base.{
  ℕ, ◌+◌, ◌-◌, ◌*◌, ◌≤◌, ◌<◌, ◌≡◌, ◌⊎◌, inl, inr, ◌&&◌, List, [], ◌∷◌, arith, All, All-map,
  Bool-cases, u64_mod, add_u64_exact, sub_u64_exact, ap, refl, leb, if◌then◌else◌,
}
use holistic_framework_for_l.Lightning.Window.{
  Window, duration, WindowDelayIncrement, as_ms, delay_window, in_range, delay_in_gaps, delay,
  get_offset_min,
}
use holistic_framework_for_l.Base.{◌∙◌, ◌%◌, ◌/◌, ok, sub_u64, ◌==◌, true}
use holistic_framework_for_l.Lightning.Params.{ms_per_min}
use holistic_framework_for_l.Lightning.Window.Spacing.{
  finish, Apart, Before, IsSpaced, Within, longest, duration-bounds, Delayed, delay_window-Delayed,
  window_end_exact,
}

-- The window at another start.
abbrev pub moved : Window → ℕ → Window
moved w s = record w { start = s }

-- What a delay behind `lo` and clear of `ws` comes to.
pub record Placed (c t inc lo : ℕ) (w : Window) (ws : List Window) (r : Window) : Type 0 where
  pub steps : ℕ
  pub placed : r ≡ moved w (w.start + steps * inc)
  pub behind : lo ≤ r.start
  pub apart : All (Apart c r) ws
  pub least :
      (j : ℕ)
      → lo ≤ w.start + j * inc
      → All (Apart c (moved w (w.start + j * inc))) ws
      → r.start ≤ w.start + j * inc
  pub near : (r.start < t + c + inc) ⊎ (r.start ≡ w.start)

module _ (c t : ℕ) (i : WindowDelayIncrement) (w : Window)
    (start_room : w.start + longest + c < u64_mod)
    (room : t + c + as_ms i + longest < u64_mod) where
  abbrev candidate : ℕ → ℕ
  candidate lo = delay_window w.start (as_ms i) lo

  candidate-Delayed : (lo : ℕ) → lo ≤ t + c → Delayed w.start (as_ms i) lo (candidate lo)
  candidate-Delayed lo h = delay_window-Delayed w.start lo i (omega arith) (omega arith)

  -- One gap, with the arithmetic of the code made exact.
  delay_in_gaps-cons :
      (e : ℕ) (x : Window) (xs : List Window)
      → e ≤ t
      → e + c ≤ x.start
      → Within t x
      → delay_in_gaps w (as_ms i) c e (x ∷ xs) ≡ (
          if in_range (e + c) (x.start - c) (candidate (e + c))
            && in_range (e + c) (x.start - c) (candidate (e + c) + duration w)
          then moved w (candidate (e + c))
          else delay_in_gaps w (as_ms i) c (finish x) xs)
  unfolding delay_in_gaps
  delay_in_gaps-cons e x xs he hx hw =
      let d = candidate-Delayed (e + c) (omega arith) in
      let long = duration-bounds w.kind in
      rw (
        add_u64_exact e c (omega arith),
        sub_u64_exact x.start c (omega arith) (omega arith),
        window_end_exact x (omega arith),
        add_u64_exact (candidate (e + c)) (duration w) (omega (arith, d.near)),
      )

  delay_in_gaps-nil :
      (e : ℕ) → e ≤ t → delay_in_gaps w (as_ms i) c e [] ≡ moved w (candidate (e + c))
  unfolding delay_in_gaps
  delay_in_gaps-nil e he = rw (add_u64_exact e c (omega arith))

  -- Behind all windows every candidate fits.
  ends-Placed : (lo : ℕ) → lo ≤ t + c → Placed c t (as_ms i) lo w [] (moved w (candidate lo))
  ends-Placed lo hl =
      let d = candidate-Delayed lo hl in
      record {
        steps = d.steps;
        placed = ap (moved w) d.stepped;
        behind = d.reached;
        apart = tt;
        least = λ j g _. d.least j g;
        near = ground (arith, d.near);
      }

  -- The candidate fits the gap before `x`.
  fits-Placed :
      (lo : ℕ) (x : Window) (xs : List Window)
      → lo ≤ t + c
      → candidate lo + duration w + c ≤ x.start
      → All (Before c x) xs
      → Placed c t (as_ms i) lo w (x ∷ xs) (moved w (candidate lo))
  fits-Placed lo x xs hl fits hp =
      let d = candidate-Delayed lo hl in
      record {
        steps = d.steps;
        placed = ap (moved w) d.stepped;
        behind = d.reached;
        apart = (
          inl fits,
          All-map (Before c x) (Apart c (moved w (candidate lo))) (λ y b. inl (omega arith)) xs hp,
        );
        least = λ j g _. d.least j g;
        near = ground (arith, d.near);
      }

  -- It does not, so the delay goes on behind `x`.
  skips-Placed :
      (lo : ℕ) (x : Window) (xs : List Window) (r : Window)
      → lo ≤ t + c
      → lo ≤ x.start
      → ¬ (candidate lo + duration w + c ≤ x.start)
      → Placed c t (as_ms i) (finish x + c) w xs r
      → Placed c t (as_ms i) lo w (x ∷ xs) r
  skips-Placed lo x xs r hl hx tight p =
      let d = candidate-Delayed lo hl in
      record {
        steps = p.steps;
        placed = p.placed;
        behind = omega (arith, p.behind);
        apart = (inr p.behind, p.apart);
        least = λ j g a. elim a.0 [
          | inl before ↦ absurd (tight (omega (arith, d.least j g)))
          | inr after ↦ p.least j after a.1
        ];
        near = p.near;
      }

  delay_in_gaps-Placed :
      (previous_end : ℕ) (ws : List Window)
      → previous_end ≤ t
      → All (λ x. previous_end + c ≤ x.start) ws
      → IsSpaced c ws
      → All (Within t) ws
      → Placed c t (as_ms i) (previous_end + c) w ws (delay_in_gaps w (as_ms i) c previous_end ws)
  delay_in_gaps-Placed e [] he hs hp hw =
      rw (delay_in_gaps-nil e he) (ends-Placed (e + c) (omega arith))
  delay_in_gaps-Placed e (x ∷ xs) he hs hp hw =
      rw (delay_in_gaps-cons e x xs he hs.0 hw.0)
        (elim (Bool-cases (
          in_range (e + c) (x.start - c) (candidate (e + c))
          && in_range (e + c) (x.start - c) (candidate (e + c) + duration w))) [
            | inl fits ↦ rw fits (
                fits-Placed (e + c) x xs (omega arith) (ground (arith, duration-bounds w.kind))
                  hp.0)
            | inr tight ↦ rw tight (
                skips-Placed (e + c) x xs _ (omega arith) hs.0
                  (λ f. ground (arith, (candidate-Delayed (e + c) (omega arith)).reached))
                  (delay_in_gaps-Placed (finish x) xs (omega arith) hp.0 hp.1 hw.1))
          ])

-- What `delay` promises, for a queue in order whose windows end by `t`: a whole number of increments
-- is added, the window then keeps the clearance to all others, and no smaller number does that.
pub record FirstFit (c t inc : ℕ) (w : Window) (ws : List Window) (r : Window) : Type 0 where
  pub steps : ℕ
  pub placed : r ≡ moved w (w.start + steps * inc)
  pub apart : All (Apart c r) ws
  pub least : (j : ℕ) → All (Apart c (moved w (w.start + j * inc))) ws → r.start ≤ w.start + j * inc
  pub near : (r.start < t + c + inc) ⊎ (r.start ≡ w.start)

module _ (c t : ℕ) (i : WindowDelayIncrement) (w : Window)
    (start_room : w.start + longest + c < u64_mod)
    (room : t + c + as_ms i + longest < u64_mod) where
  stays-FirstFit : (ws : List Window) → All (Before c w) ws → FirstFit c t (as_ms i) w ws w
  stays-FirstFit ws h = record {
    steps = 0;
    placed = ground arith;
    apart = All-map (Before c w) (Apart c w) (λ y b. inl b) ws h;
    least = λ j _. omega arith;
    near = inr refl;
  }

  -- Behind the first window, or before it where the window would have stayed.
  moves-FirstFit :
      (x : Window) (xs : List Window) (r : Window)
      → ¬ (finish w + c ≤ x.start)
      → Placed c t (as_ms i) (finish x + c) w xs r
      → FirstFit c t (as_ms i) w (x ∷ xs) r
  moves-FirstFit x xs r tight p = record {
    steps = p.steps;
    placed = p.placed;
    apart = (inr p.behind, p.apart);
    least = λ j a. elim a.0 [
      | inl before ↦ absurd (tight (omega arith))
      | inr after ↦ p.least j after a.1
    ];
    near = p.near;
  }

  -- On a queue in order, and with room on the clock, `delay` is a first fit: it adds the least number
  -- of increments after which the window keeps the clearance to every window of the queue.
  pub delay-FirstFit :
      (ws : List Window)
      → IsSpaced c ws
      → All (Within t) ws
      → FirstFit c t (as_ms i) w ws (delay w ws c i)
  unfolding delay
  delay-FirstFit [] hp hw = stays-FirstFit [] tt
  delay-FirstFit (x ∷ xs) hp hw =
      let long = duration-bounds w.kind in
      rw
        (
          window_end_exact w (omega arith),
          add_u64_exact (finish w) c (omega arith),
          window_end_exact x (omega arith),
        )
        (elim (Bool-cases (leb (finish w + c) x.start)) [
          | inl stays ↦ rw stays (
              stays-FirstFit (x ∷ xs)
                (ground arith, All-map (Before c x) (Before c w) (λ y b. ground arith) xs hp.0))
          | inr tight ↦ rw tight (
              moves-FirstFit x xs _ (λ f. ground arith)
                (delay_in_gaps-Placed c t i w start_room room (finish x) xs (omega arith) hp.0 hp.1
                  hw.1))
        ])

-- Whole minutes are what the offset of a window is counted in.
pub get_offset_min-exact :
    (w : Window) (time k : ℕ)
    → w.start < u64_mod
    → w.start ≡ time + k * ms_per_min
    → get_offset_min w time ≡ ok k
unfolding get_offset_min
get_offset_min-exact w time k h e =
    let exact : sub_u64 w.start time ≡ k * ms_per_min =
      sub_u64_exact w.start time (omega arith) h ∙ ground arith in
    let whole : (k * ms_per_min % ms_per_min == 0) ≡ true = ground arith in
    let quotient : k * ms_per_min / ms_per_min ≡ k = omega arith in rw (exact, whole, quotient) refl
