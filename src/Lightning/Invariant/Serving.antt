-- ===== src/Lightning/Invariant/Serving.antt =====
-- The transitions of a connected node keep the invariant and do not panic.
use holistic_framework_for_l.Base.{
  ℕ, ◌≤◌, ◌<◌, ◌≡◌, ap, ◌∙◌, inl, inr, true, ◌∷◌, arith, mul_u64, Returns, Returns-bind,
  Returns-unwrap, Rng, HasValue, ◌==◌,
}
use holistic_framework_for_l.Lightning.Params.{TimeMs, adjust_for_clock_inaccuracies}
use holistic_framework_for_l.Lightning.Window.{WindowKind, beacon, child, parent, Window}
use holistic_framework_for_l.Lightning.Windows.{Windows}
use holistic_framework_for_l.Lightning.Windows.Views.{windows_of}
use holistic_framework_for_l.Lightning.Windows.Accepted.{of_kind}
use holistic_framework_for_l.Lightning.Windows.Removal.{pop-cons}
use holistic_framework_for_l.Lightning.Context.{Containers, Context, Lightning}
use holistic_framework_for_l.Lightning.StateMachine.Steps.{with_windows, add_payload, min_to_ms}
use holistic_framework_for_l.Lightning.StateMachine.Serving.{open_window, leave_idle}
use holistic_framework_for_l.Lightning.Invariant.Payloads.{
  with_child_data, collect-room, add_payload-returns, Collected,
}
use holistic_framework_for_l.Lightning.Invariant.{windows_in, Connected, DueAt}
use holistic_framework_for_l.Lightning.Invariant.Pushes.{one, rescheduled}
use holistic_framework_for_l.Lightning.Invariant.Bounds.{Holds}

-- 255 minutes, stretched by the clock drift.
pub adjust-min_to_ms-le :
    (m : ℕ) → m < 256 → adjust_for_clock_inaccuracies (min_to_ms m) ≤ 15_300_459
unfolding adjust_for_clock_inaccuracies
adjust-min_to_ms-le m h = omega arith

pub min_to_ms-le : (m : ℕ) → m < 256 → min_to_ms m ≤ 15_300_000
unfolding mul_u64
min_to_ms-le m h = omega arith

module _ (H : Containers) where
  -- The window that is due is out of the queue.
  popped-Connected :
      (t : ℕ) (ctx : Context H) (w : Window) (ws : Windows H.windows)
      → Connected H 0 0 0 t ctx
      → windows_in H ctx ≡ w ∷ windows_of H.windows ws
      → ws.clearance ≡ ctx.windows.clearance
      → Connected H
          (one w.kind beacon)
          (one w.kind child)
          (one w.kind parent)
          t
          (rescheduled H ctx ws)
  popped-Connected t ctx w ws h e k =
      let apart = rw e at h.valid.apart in
      let within = rw e at h.valid.within in
      let counts = λ (j : WindowKind). ap (of_kind j) e in
      record {
        valid = record { clear = k ∙ h.valid.clear; apart = apart.1; within = within.1 };
        children_known = h.children_known;
        hops_known = h.hops_known;
        one_beacon = omega (arith, counts beacon, h.one_beacon);
        one_parent = omega (arith, counts parent, h.one_parent);
        few_children = omega (arith, counts child, h.few_children);
        room_for_child = elim h.room_for_child [
          | inl room ↦ inl (omega (arith, counts child))
          | inr silent ↦ inr (omega (arith, counts beacon))
        ];
        parent_known = elim h.parent_known [
          | inl alone ↦ inl (omega (arith, counts parent))
          | inr known ↦ inr known
        ];
      }

  open_window-Holds :
      (k : WindowKind) (n : Lightning H) (t : ℕ) (time : TimeMs) (rng : Rng)
      → Connected H (one k beacon) (one k child) (one k parent) t n.context
      → Returns (Holds H t) (open_window H k n time rng)
  unfolding open_window
  open_window-Holds beacon n t time rng h =
      Returns-unwrap (Holds H t) n.context.hops_to_sink _ h.hops_known (λ hops _.
        Returns-unwrap (Holds H t) n.context.channels.children _ h.children_known (λ c _. h))
  open_window-Holds child n t time rng h =
      Returns-unwrap (Holds H t) n.context.channels.children _ h.children_known (λ c _. h)
  open_window-Holds parent n t time rng h =
      let (collected, copied, all) = collect-room H n.context in
      rw copied (
        Returns-bind (Collected H n.id n.payload n.context) (Holds H t)
          (add_payload H n.id n.payload collected) _
          (add_payload-returns H n.id n.payload n.context collected all)
          (λ v _.
            Returns-unwrap (Holds H t) n.context.channels.parent _ (sends h)
              (λ c _. with_child_data H 0 0 1 t n.context _ h)))
    where
      sends : Connected H 0 0 1 t n.context → HasValue n.context.channels.parent
      sends h = elim h.parent_known [ inl e ↦ absurd (omega (arith, e)) | inr k ↦ k ]

  pub leave_idle-Holds :
      (n : Lightning H) (t : ℕ) (time : TimeMs) (rng : Rng)
      → Connected H 0 0 0 t n.context
      → DueAt H time n.context
      → Returns (Holds H t) (leave_idle H n time rng)
  unfolding leave_idle
  leave_idle-Holds n t time rng h (w, ws, e, due) =
      let (ws', popped, rest, k) = pop-cons H.windows n.context.windows w ws e in
      let on_time : (w.start == time) ≡ true = ground arith in
      rw (popped, on_time)
        (open_window-Holds w.kind (with_windows H n ws') t time rng
          (popped-Connected t n.context w ws' h (rw rest e) k))
