-- ===== src/Lightning/Reservation.antt =====
-- The window that a node reserves for a child in its acknowledgement
-- (components/protocol/lightning/src/state_machine.rs).
use holistic_framework_for_l.Base.{
  ℕ, ◌+◌, ◌-◌, ◌*◌, ◌≤◌, ◌<◌, ◌≡◌, ap, ◌∙◌, inl, inr, arith, All, u64_mod, add_u64, add_u64_exact,
  mul_u64, ok,
}
use mathlib.Core.Path.{subst}
use holistic_framework_for_l.Lightning.Params.{
  TimeMs, min_window_clearance, child_data_interval_min, ms_per_min,
}
use holistic_framework_for_l.Lightning.Window.{child, Window, minutes, delay, get_offset_min}
use holistic_framework_for_l.Lightning.Window.Spacing.{Apart, IsSpaced-of_Apart}
use holistic_framework_for_l.Lightning.Window.Delay.{delay-FirstFit, get_offset_min-exact}
use holistic_framework_for_l.Lightning.Windows.Accepted.{IsValid}
use holistic_framework_for_l.Lightning.Context.{Containers, Lightning}
use holistic_framework_for_l.Lightning.StateMachine.Serving.{next_child_window}
use holistic_framework_for_l.Lightning.Invariant.{windows_in}

-- A child window so many minutes from now.
abbrev pub child_in : TimeMs → ℕ → Window
child_in time k = record { kind = child; start = time + k * ms_per_min }

module _ (H : Containers) where
  -- The first whole minute, five minutes on or later, at which a child window keeps the clearance
  -- to every window of the node.
  pub record Reserved (n : Lightning H) (time : TimeMs) (w : Window) (k : ℕ) : Type 0 where
    pub window : w ≡ child_in time k
    pub later : 5 ≤ k
    pub apart : All (Apart min_window_clearance w) (windows_in H n.context)
    pub earliest :
        (j : ℕ)
        → 5 ≤ j
        → All (Apart min_window_clearance (child_in time j)) (windows_in H n.context)
        → k ≤ j
    pub offset : get_offset_min w time ≡ ok k

  pub next_child_window-Reserved :
      (t : ℕ) (time : TimeMs) (n : Lightning H)
      → t + 1_000_000 < u64_mod
      → time ≤ t
      → IsValid H.windows min_window_clearance t n.context.windows
      → (k : ℕ) × Reserved n time (next_child_window H n time) k
  unfolding next_child_window mul_u64
  next_child_window-Reserved t time n budget past v =
      let first : Window = record {
        kind = child;
        start = add_u64 time (mul_u64 child_data_interval_min ms_per_min);
      } in
      let exact : first.start ≡ time + 300_000 = add_u64_exact time 300_000 (omega arith) in
      let f =
        delay-FirstFit min_window_clearance t minutes first (omega arith) (omega arith)
          (windows_in H n.context)
          (IsSpaced-of_Apart min_window_clearance _ (H.windows.sorted n.context.windows.queue)
            v.apart)
          v.within in
      let r = delay first (windows_in H n.context) min_window_clearance minutes in
      let moved_start : first.start + f.steps * 60_000 ≡ time + (5 + f.steps) * ms_per_min =
        omega arith in
      let start : r.start ≡ time + (5 + f.steps) * ms_per_min =
        ap (λ x. x.start) f.placed ∙ moved_start in
      let near : r.start < u64_mod = elim f.near [ inl a ↦ omega arith | inr e ↦ omega arith ] in
      (
        5 + f.steps,
        rw (v.clear) (record {
          window = f.placed ∙ ap (λ s. record { kind = child; start = s }) moved_start;
          later = omega arith;
          apart = f.apart;
          earliest = λ j five free.
              let same : time + j * ms_per_min ≡ first.start + (j - 5) * 60_000 = omega arith in
              let least = f.least (j - 5) (
                subst
                  (λ s.
                    All (Apart min_window_clearance (record { kind = child; start = s }))
                      (windows_in H n.context))
                  same free) in
              omega arith;
          offset = get_offset_min-exact r time (5 + f.steps) near (omega arith);
        }),
      )
