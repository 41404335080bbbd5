-- ===== src/Lightning/Invariant/Pushes.antt =====
-- A push into the window queue of a connected node.
use holistic_framework_for_l.Base.{
  ℕ, ◌+◌, ◌*◌, ◌<◌, ◌≡◌, refl, sym, ◌>>=◌, inl, inr, false, List, [], ◌∷◌, arith, length, All,
  u64_mod, Returns, Returns-bind, Rng, if◌then◌else◌,
}
use mathlib.Core.Path.{subst}
use holistic_framework_for_l.Lightning.Params.{min_window_clearance, max_windows}
use holistic_framework_for_l.Lightning.Window.{WindowKind, beacon, child, parent, Window, same_kind}
use holistic_framework_for_l.Lightning.Window.Spacing.{Apart, Within}
use holistic_framework_for_l.Lightning.Windows.{Windows}
use holistic_framework_for_l.Lightning.Windows.Accepted.{Settled, of_kind, IsValid, Accepted}
use holistic_framework_for_l.Lightning.Windows.Push.{push-Accepted}
use holistic_framework_for_l.Lightning.Windows.Removal.{length-of_kind, next-cons}
use holistic_framework_for_l.Lightning.Context.{Containers, Context, Lightning}
use holistic_framework_for_l.Lightning.StateMachine.Steps.{with_windows, push_window, to_idle}
use holistic_framework_for_l.Lightning.Invariant.Bounds.{Holds}
use holistic_framework_for_l.Lightning.Invariant.{windows_in, Connected}

-- The clock of a push: eight displaced windows at most, each by less than this.
abbrev pub per_push : ℕ
per_push = 8088

-- Whether a window of kind `k` counts as one of kind `j`.
abbrev pub one : WindowKind → WindowKind → ℕ
one k j = if same_kind k j then 1 else 0

Settled_other : (P : Type 0) (k j : WindowKind) → same_kind j k ≡ false → Settled k j P
Settled_other P beacon j h = Settled_other_beacon P j
  where
    Settled_other_beacon : (P : Type 0) (j : WindowKind) → Settled beacon j P
    Settled_other_beacon P beacon = tt
    Settled_other_beacon P child = tt
    Settled_other_beacon P parent = tt
Settled_other P child beacon h = tt
Settled_other P child parent h = tt
Settled_other P child child h = cc
Settled_other P parent beacon h = tt
Settled_other P parent child h = tt
Settled_other P parent parent h = cc

-- No window of the kind, so none that could clash.
pub All-Settled :
    (P : Window → Type 0) (k : WindowKind) (ws : List Window)
    → of_kind k ws ≡ 0
    → All (λ a. Settled k a.kind (P a)) ws
All-Settled P k [] h = tt
All-Settled P k (a ∷ ws) h =
    (Settled_other (P a) k a.kind (ground arith), All-Settled P k ws (ground arith))

module _ (H : Containers) where
  -- The context of a node with other windows.
  abbrev pub rescheduled : Context H → Windows H.windows → Context H
  rescheduled ctx ws = record ctx { windows = ws }

  -- What is known of the node after a push.
  pub record Pushed (t : ℕ) (w : Window) (n m : Lightning H) : Type 0 where
    pub after : Windows H.windows
    pub same : m ≡ with_windows H n after
    pub accepted : Accepted H.windows min_window_clearance (t + per_push) w n.context.windows after

  pub push_window-Pushed :
      (n : Lightning H) (w : Window) (t : ℕ)
      → IsValid H.windows min_window_clearance t n.context.windows
      → All (λ a. Settled w.kind a.kind (Apart min_window_clearance w a)) (windows_in H n.context)
      → length (windows_in H n.context) < max_windows
      → Within t w
      → t + 2 * per_push < u64_mod
      → Returns (Pushed t w n) (push_window H n w)
  unfolding push_window
  push_window-Pushed n w t v s room hw budget =
      Returns-bind (Accepted H.windows min_window_clearance (t + per_push) w n.context.windows)
        (Pushed t w n) _ _
        (push-Accepted H.windows min_window_clearance w t n.context.windows v s room hw
          (omega arith))
        (λ ws r. record { after = ws; same = refl; accepted = r })

  -- The queue takes back a window of the kind that was out.
  pub pushed-Connected :
      (w : Window) (k : WindowKind) (t : ℕ) (ctx : Context H) (ws : Windows H.windows)
      → w.kind ≡ k
      → Connected H (one k beacon) (one k child) (one k parent) t ctx
      → Accepted H.windows min_window_clearance (t + per_push) w ctx.windows ws
      → Connected H 0 0 0 (t + per_push) (rescheduled ctx ws)
  pushed-Connected w k t ctx ws e h r = record {
    valid = r.valid;
    children_known = h.children_known;
    hops_known = h.hops_known;
    one_beacon = omega (arith, rw e at (r.counts beacon), h.one_beacon);
    one_parent = omega (arith, rw e at (r.counts parent), h.one_parent);
    few_children = omega (arith, rw e at (r.counts child), h.few_children);
    room_for_child = elim h.room_for_child [
      | inl room ↦ inl (omega (arith, rw e at (r.counts child)))
      | inr silent ↦ inr (omega (arith, rw e at (r.counts beacon)))
    ];
    parent_known = elim h.parent_known [
      | inl alone ↦ inl (omega (arith, rw e at (r.counts parent)))
      | inr known ↦ inr known
    ];
  }

  -- There is room for the window that is out.
  pub room_of_Connected :
      (k : WindowKind) (t : ℕ) (ctx : Context H)
      → Connected H (one k beacon) (one k child) (one k parent) t ctx
      → length (windows_in H ctx) < max_windows
  room_of_Connected beacon t ctx h =
      omega (arith, length-of_kind (windows_in H ctx), h.one_beacon, h.one_parent, h.few_children)
  room_of_Connected child t ctx h =
      omega (arith, length-of_kind (windows_in H ctx), h.one_beacon, h.one_parent, h.few_children)
  room_of_Connected parent t ctx h =
      omega (arith, length-of_kind (windows_in H ctx), h.one_beacon, h.one_parent, h.few_children)

  pub to_idle-Holds :
      (n : Lightning H) (t : ℕ) (rng : Rng)
      → Connected H 0 0 0 t n.context
      → 0 < length (windows_in H n.context)
      → Returns (Holds H t) (to_idle H n rng)
  unfolding to_idle
  to_idle-Holds n t rng h l = from_list (windows_in H n.context) refl l
    where
      from_list :
          (l : List Window)
          → windows_in H n.context ≡ l
          → 0 < length l
          → Returns (Holds H t) (to_idle H n rng)
      from_list [] e l = absurd (omega arith)
      from_list (w ∷ ws) e l =
          rw (next-cons H.windows n.context.windows w ws e) (h, (w, ws, e, refl))

  -- A window of the kind that was out goes in.
  pub push-Connected :
      (n : Lightning H) (w : Window) (k : WindowKind) (t : ℕ)
      → w.kind ≡ k
      → Connected H (one k beacon) (one k child) (one k parent) t n.context
      → All (λ a. Settled k a.kind (Apart min_window_clearance w a)) (windows_in H n.context)
      → Within t w
      → t + 2 * per_push < u64_mod
      → Returns (Pushed t w n) (push_window H n w)
  push-Connected n w k t e h s hw budget =
      push_window-Pushed n w t h.valid
        (subst
          (λ j.
            All (λ a. Settled j a.kind (Apart min_window_clearance w a)) (windows_in H n.context))
          (sym e) s)
        (room_of_Connected k t n.context h) hw budget

  -- Then the node idles.
  pub push_and_idle :
      (n : Lightning H) (w : Window) (k : WindowKind) (t : ℕ) (rng : Rng)
      → w.kind ≡ k
      → Connected H (one k beacon) (one k child) (one k parent) t n.context
      → All (λ a. Settled k a.kind (Apart min_window_clearance w a)) (windows_in H n.context)
      → Within t w
      → t + 2 * per_push < u64_mod
      → Returns (Holds H (t + per_push)) (push_window H n w >>= λ m. to_idle H m rng)
  push_and_idle n w k t rng e h s hw budget =
      Returns-bind (Pushed t w n) (Holds H (t + per_push)) _ _
        (push-Connected n w k t e h s hw budget)
        (λ m p. rw p.same (
          to_idle-Holds (with_windows H n p.after) (t + per_push) rng
            (pushed-Connected w k t n.context p.after e h p.accepted) p.accepted.nonempty))
