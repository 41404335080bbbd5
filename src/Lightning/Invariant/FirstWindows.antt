-- ===== src/Lightning/Invariant/FirstWindows.antt =====
-- The transitions with which a node schedules its first windows keep the invariant and do not panic
-- (components/protocol/lightning/src/state_machine.rs).
use holistic_framework_for_l.Base.{
  ℕ, ◌+◌, ◌*◌, ◌≤◌, ◌<◌, ◌≡◌, refl, sym, ap, ◌∙◌, ◌⊎◌, inl, inr, true, some, arith, All, Pairs,
  u64_mod, add_u64, add_u64-le, ◌>>=◌, Returns, Returns-bind, Returns-map, Rng, HasValue,
  Bool-cases,
}
use mathlib.Core.Path.{subst}
use native.Mathlib.Nat.{mod-lt}
use holistic_framework_for_l.Lightning.Params.{
  TimeMs, min_window_clearance, beacon_interval_ms, adjust_for_clock_inaccuracies,
}
use holistic_framework_for_l.Lightning.Window.{WindowKind, beacon, child, parent, Window}
use holistic_framework_for_l.Lightning.Window.Spacing.{Apart, Within}
use holistic_framework_for_l.Lightning.Windows
use holistic_framework_for_l.Lightning.Windows.{Windows, is_full, pop_kind}
use holistic_framework_for_l.Lightning.Windows.Views.{windows_of}
use holistic_framework_for_l.Lightning.Windows.Accepted.{of_kind, Accepted}
use holistic_framework_for_l.Lightning.Context.{default_context, Containers, Context, Lightning}
use holistic_framework_for_l.Lightning.StateMachine.Steps.{
  with_windows, push_window, to_idle, min_to_ms, random_below, choose_children_channel,
}
use holistic_framework_for_l.Lightning.StateMachine.Joining.{after_reset, hear_connect_ack}
use holistic_framework_for_l.Lightning.Invariant.{
  Searching, Connecting, windows_in, Connected, reach,
}
use holistic_framework_for_l.Lightning.Invariant.Pushes.{
  per_push, All-Settled, Pushed, pushed-Connected, push-Connected, push_and_idle,
}
use holistic_framework_for_l.Lightning.Invariant.Bounds.{Holds, Connected-mono}
use holistic_framework_for_l.Lightning.Invariant.Serving.{adjust-min_to_ms-le}
use holistic_framework_for_l.Lightning.Invariant.Bounds.{Holds-mono}
use holistic_framework_for_l.Lightning.Channels.{Channels}
use holistic_framework_for_l.Lightning.Channels.Choice.{Chosen, set_random_children_channel-Chosen}
use holistic_framework_for_l.Lightning.Invariant.Answers.{ahead}
use holistic_framework_for_l.Base.{next_u32, advance}

random_below-lt : (k : ℕ) (rng : Rng) → 0 < k → random_below k rng < k
random_below-lt k rng h = mod-lt (next_u32 rng) h

module _ (H : Containers) (t : ℕ) (time : TimeMs) (budget : t + 2 * reach < u64_mod)
    (past : time ≤ t) where
  cleared-Searching : Searching H (default_context H)
  unfolding default_context Windows.new
  cleared-Searching = record { clear = refl; no_windows = H.windows.iter-new }

  -- The node with other channels.
  abbrev rechannelled : Lightning H → Channels → Lightning H
  rechannelled n chs = record n { context = record n.context { channels = chs } }

  abbrev Rechannelled : Lightning H → Lightning H → Type 0
  Rechannelled n m = (chs : Channels) × Chosen n.context.channels chs × (m ≡ rechannelled n chs)

  choose_children_channel-returns :
      (n : Lightning H) (rng : Rng) → Returns (Rechannelled n) (choose_children_channel H n rng)
  unfolding choose_children_channel
  choose_children_channel-returns n rng =
      Returns-bind (Chosen n.context.channels) (Rechannelled n) _ _
        (set_random_children_channel-Chosen n.context.channels rng) (λ chs c. (chs, c, refl))

  -- Before the first windows go in.
  fresh-Connected :
      (b p : ℕ) (ctx : Context H)
      → Searching H ctx
      → HasValue ctx.channels.children
      → HasValue ctx.hops_to_sink
      → b ≤ 1
      → p ≤ 1
      → (p ≡ 0) ⊎ HasValue ctx.channels.parent
      → Connected H b 0 p t ctx
  fresh-Connected b p ctx s c h hb hp known =
      let none_of = λ (k : WindowKind). ap (of_kind k) s.no_windows in
      record {
        valid = record {
          clear = s.clear;
          apart = subst (Pairs (Apart min_window_clearance)) (sym s.no_windows) tt;
          within = subst (All (Within t)) (sym s.no_windows) tt;
        };
        children_known = c;
        hops_known = h;
        one_beacon = omega (arith, none_of beacon);
        one_parent = omega (arith, none_of parent);
        few_children = omega (arith, none_of child);
        room_for_child = inl (omega (arith, none_of child));
        parent_known = elim known [ inl e ↦ inl (omega (arith, none_of parent)) | inr k ↦ inr k ];
      }

  -- A sink's first beacon.
  first_beacon-Holds :
      (n : Lightning H) (rng : Rng)
      → Searching H n.context
      → HasValue n.context.hops_to_sink
      → Returns (Holds H (t + reach)) (do
        m ← choose_children_channel H n rng
        m' ← push_window H m (record {
          kind = beacon;
          start = add_u64 time (random_below beacon_interval_ms (advance rng));
        })
        to_idle H m' (advance (advance rng)))
  first_beacon-Holds n rng h hops =
      let w : Window = record {
        kind = beacon;
        start = add_u64 time (random_below beacon_interval_ms (advance rng));
      } in
      let soon = random_below-lt beacon_interval_ms (advance rng) (omega arith) in
      Returns-bind (Rechannelled n) (Holds H (t + reach)) (choose_children_channel H n rng) _
        (choose_children_channel-returns n rng)
        (λ m (chs, c, e). rw e (
          Returns-map (Holds H (t + ahead + per_push)) (Holds H (t + reach)) _
            (λ r i. Holds-mono H _ _ r (omega arith) i)
            (push_and_idle H (rechannelled n chs) w beacon (t + ahead) (advance (advance rng)) refl
              (Connected-mono H 1 0 0 t (t + ahead) _ (omega arith) (
                fresh-Connected 1 0 (rechannelled n chs).context
                  (record { clear = h.clear; no_windows = h.no_windows })
                  (c.channel, ap (λ x. x.children) c.chosen) hops (omega arith) (omega arith)
                  (inl refl)))
              (All-Settled (Apart min_window_clearance w) beacon (windows_in H n.context)
                (ap (of_kind beacon) h.no_windows))
              (omega (arith, soon, add_u64-le time (random_below beacon_interval_ms (advance rng))))
              (omega arith))))

  -- A sink takes its channel and begins to send beacons; any other node waits.
  pub after_reset-Holds :
      (n : Lightning H) (rng : Rng) → Returns (Holds H (t + reach)) (after_reset H n time rng)
  unfolding after_reset
  after_reset-Holds n rng = elim (Bool-cases n.is_sink) [
    | inr other ↦ simp (other) cleared-Searching
    | inl sink ↦
        let cleared = record n { context = default_context H } in
        let n' = record cleared {
          context = record cleared.context { hops_to_sink = some 0 };
          is_sink = true;
        } in
        simp (sink) (
          first_beacon-Holds n' rng
            (record { clear = cleared-Searching.clear; no_windows = cleared-Searching.no_windows })
            (0, refl))
  ]

  -- The beacon window is still to be pushed.
  awaiting_beacon :
      (u : ℕ) (ctx : Context H)
      → Connected H 0 0 0 u ctx
      → of_kind beacon (windows_in H ctx) ≡ 0
      → of_kind child (windows_in H ctx) ≡ 0
      → Connected H 1 0 0 u ctx
  awaiting_beacon u ctx h b c = record {
    valid = h.valid;
    children_known = h.children_known;
    hops_known = h.hops_known;
    one_beacon = omega arith;
    one_parent = h.one_parent;
    few_children = h.few_children;
    room_for_child = inl (omega arith);
    parent_known = h.parent_known;
  }

  second_window-Holds :
      (n : Lightning H) (w : Window) (ws : Windows H.windows) (rng : Rng)
      → w.kind ≡ parent
      → Searching H n.context
      → Connected H 0 0 1 (t + ahead) n.context
      → Accepted H.windows min_window_clearance (t + ahead + per_push) w n.context.windows ws
      → Returns (Holds H (t + reach)) (do
        m ← push_window H (with_windows H n ws) (record {
          kind = beacon;
          start =
              add_u64
                (add_u64 time beacon_interval_ms)
                (random_below beacon_interval_ms (advance rng));
        })
        to_idle H m (advance (advance rng)))
  second_window-Holds n w ws rng kind empty h a =
      let w' : Window = record {
        kind = beacon;
        start =
            add_u64 (add_u64 time beacon_interval_ms)
              (random_below beacon_interval_ms (advance rng));
      } in
      let u = t + ahead + per_push in
      let soon = random_below-lt beacon_interval_ms (advance rng) (omega arith) in
      let silent : of_kind beacon (windows_of H.windows ws) ≡ 0 =
        omega (arith, rw kind at (a.counts beacon), ap (of_kind beacon) empty.no_windows) in
      let childless : of_kind child (windows_of H.windows ws) ≡ 0 =
        omega (arith, rw kind at (a.counts child), ap (of_kind child) empty.no_windows) in
      Returns-map (Holds H (u + per_push)) (Holds H (t + reach)) _
        (λ r i. Holds-mono H _ _ r (omega arith) i)
        (push_and_idle H (with_windows H n ws) w' beacon u (advance (advance rng)) refl
          (awaiting_beacon u _ (pushed-Connected H w parent (t + ahead) n.context ws kind h a)
            silent childless)
          (All-Settled (Apart min_window_clearance w') beacon (windows_of H.windows ws) silent)
          (omega (
            arith,
            soon,
            add_u64-le time beacon_interval_ms,
            add_u64-le (add_u64 time beacon_interval_ms)
                (random_below beacon_interval_ms (advance rng)),
          ))
          (omega arith))

  -- A node that has been acknowledged has a parent window and a beacon window.
  pub hear_connect_ack-Holds :
      (n : Lightning H) (m : ℕ) (rng : Rng)
      → Connecting H n.context
      → m < 256
      → Returns (Holds H (t + reach)) (hear_connect_ack H m n time rng)
  unfolding hear_connect_ack
  hear_connect_ack-Holds n m rng h few =
      let w : Window = record {
        kind = parent;
        start = add_u64 time (adjust_for_clock_inaccuracies (min_to_ms m));
      } in
      Returns-bind (Rechannelled n) (Holds H (t + reach)) (choose_children_channel H n rng) _
        (choose_children_channel-returns n rng)
        (λ n' (chs, c, e).
          let ready = Connected-mono H 0 0 1 t (t + ahead) _ (omega arith) (
            fresh-Connected 0 1 (rechannelled n chs).context
              (record { clear = h.searching.clear; no_windows = h.searching.no_windows })
              (c.channel, ap (λ x. x.children) c.chosen) h.hops_known (omega arith) (omega arith)
              (inr (h.parent_known.0, ap (λ x. x.parent) c.chosen ∙ h.parent_known.1))) in
          rw e (
            Returns-bind (Pushed H (t + ahead) w (rechannelled n chs)) (Holds H (t + reach)) _ _
              (push-Connected H (rechannelled n chs) w parent (t + ahead) refl ready
                (All-Settled (Apart min_window_clearance w) parent (windows_in H n.context)
                  (ap (of_kind parent) h.searching.no_windows))
                (omega (
                  arith,
                  adjust-min_to_ms-le m few,
                  add_u64-le time (adjust_for_clock_inaccuracies (min_to_ms m)),
                ))
                (omega arith))
              (λ n'' p. rw p.same (
                second_window-Holds (rechannelled n chs) w p.after rng refl
                  (record { clear = h.searching.clear; no_windows = h.searching.no_windows }) ready
                  p.accepted))))
