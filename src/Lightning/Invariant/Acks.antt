-- ===== src/Lightning/Invariant/Acks.antt =====
-- The acknowledgements that a connected node has sent or heard keep the invariant and do not panic
-- (components/protocol/lightning/src/state_machine.rs).
use holistic_framework_for_l.Base.{
  ℕ, ◌+◌, ◌*◌, ◌≤◌, ◌<◌, ◌≡◌, refl, sym, ◌⊎◌, inl, inr, arith, length, All, u64_mod, add_u64,
  add_u64-le, Returns, Returns-bind, Returns-map, Returns-unwrap, Rng, HasValue, Bool-cases,
}
use mathlib.Core.Path.{subst}
use holistic_framework_for_l.Lightning.Params.{
  TimeMs, min_window_clearance, max_children, adjust_for_clock_inaccuracies,
}
use holistic_framework_for_l.Lightning.Window.{WindowKind, beacon, child, parent, Window}
use holistic_framework_for_l.Lightning.Window.Spacing.{Apart, Within, duration-bounds}
use holistic_framework_for_l.Lightning.Windows.{is_full, pop_kind}
use holistic_framework_for_l.Lightning.Windows.Views.{windows_of}
use holistic_framework_for_l.Lightning.Windows.Accepted.{Settled, of_kind, IsValid}
use holistic_framework_for_l.Lightning.Windows.Removal.{
  length-of_kind, pop_kind-Without, is_full-eq,
}
use holistic_framework_for_l.Lightning.Context.{Containers, Lightning}
use holistic_framework_for_l.Lightning.StateMachine.Steps.{with_windows, to_idle, min_to_ms}
use holistic_framework_for_l.Lightning.StateMachine.Serving.{
  adjusted, stop_beacons_if_full, connect_ack_sent, data_sent, hear_data_ack, data_ack_sent,
}
use holistic_framework_for_l.Lightning.Invariant.{windows_in, Connected, Open, ChildFits, reach}
use holistic_framework_for_l.Lightning.Invariant.Pushes.{
  per_push, All-Settled, Pushed, to_idle-Holds, push_and_idle,
}
use holistic_framework_for_l.Lightning.Invariant.Bounds.{Holds, Connected-mono}
use holistic_framework_for_l.Lightning.Invariant.Serving.{min_to_ms-le, adjust-min_to_ms-le}
use holistic_framework_for_l.Lightning.Invariant.Pushes.{push_window-Pushed}
use holistic_framework_for_l.Lightning.Invariant.Bounds.{Holds-mono}
use holistic_framework_for_l.Lightning.Invariant.Answers.{ahead}

module _ (H : Containers) (t : ℕ) (time : TimeMs) (budget : t + 2 * reach < u64_mod)
    (past : time ≤ t) where
  in_time :
      (w : Window) (m : ℕ) → w.kind ≡ child → m < 256 → Within (t + ahead) (adjusted H w m time)
  in_time w m kind few =
      let long = duration-bounds w.kind in
      omega (arith, min_to_ms-le m few, add_u64-le time (min_to_ms m), long)

  -- A child's acknowledgement has been sent, and its window goes in.
  pub data_ack_sent-Holds :
      (n : Lightning H) (w : Window) (m : ℕ) (rng : Rng)
      → Connected H 0 1 0 t n.context
      → w.kind ≡ child
      → m < 256
      → ChildFits H w m time n.context
      → Returns (Holds H (t + reach)) (data_ack_sent H w m n time rng)
  unfolding data_ack_sent
  data_ack_sent-Holds n w m rng h kind few fits =
      Returns-map (Holds H (t + ahead + per_push)) (Holds H (t + reach)) _
        (λ r i. Holds-mono H _ _ r (omega arith) i)
        (push_and_idle H n (adjusted H w m time) child (t + ahead) rng kind
          (Connected-mono H 0 1 0 t (t + ahead) n.context (omega arith) h) fits
          (in_time w m kind few) (omega arith))

  -- A parent's acknowledgement has been heard, and the next window goes in.
  pub hear_data_ack-Holds :
      (n : Lightning H) (m : ℕ) (rng : Rng)
      → Connected H 0 0 1 t n.context
      → m < 256
      → Returns (Holds H (t + reach)) (hear_data_ack H m n time rng)
  unfolding hear_data_ack
  hear_data_ack-Holds n m rng h few =
      let w : Window = record {
        kind = parent;
        start = add_u64 time (adjust_for_clock_inaccuracies (min_to_ms m));
      } in
      Returns-map (Holds H (t + ahead + per_push)) (Holds H (t + reach)) _
        (λ r i. Holds-mono H _ _ r (omega arith) i)
        (push_and_idle H n w parent (t + ahead) rng refl
          (Connected-mono H 0 0 1 t (t + ahead) n.context (omega arith) h)
          (All-Settled (Apart min_window_clearance w) parent (windows_in H n.context)
            (omega (arith, h.one_parent)))
          (omega (
            arith,
            adjust-min_to_ms-le m few,
            add_u64-le time (adjust_for_clock_inaccuracies (min_to_ms m)),
          ))
          (omega arith))

  pub data_sent-Holds :
      (n : Lightning H) (rng : Rng)
      → Connected H 0 0 1 t n.context
      → Returns (Holds H t) (data_sent H n time rng)
  unfolding data_sent
  data_sent-Holds n rng h =
      Returns-unwrap (Holds H t) n.context.channels.parent _
        (elim h.parent_known [ inl e ↦ absurd (omega (arith, e)) | inr k ↦ k ]) (λ c _. h)

  -- With the child's window in, beacons go on only if another child may come.
  stopped-Holds :
      (n : Lightning H) (u : ℕ) (rng : Rng)
      → IsValid H.windows min_window_clearance u n.context.windows
      → HasValue n.context.channels.children
      → HasValue n.context.hops_to_sink
      → of_kind beacon (windows_in H n.context) ≤ 1
      → of_kind parent (windows_in H n.context) ≤ 1
      → of_kind child (windows_in H n.context) ≤ max_children
      → (of_kind parent (windows_in H n.context) ≡ 0) ⊎ HasValue n.context.channels.parent
      → 0 < length (windows_in H n.context)
      → Returns (Holds H u) (to_idle H (stop_beacons_if_full H n) rng)
  unfolding stop_beacons_if_full
  stopped-Holds n u rng valid channel hops beacons parents children known some_left =
      let ws = n.context.windows in
      let less = pop_kind-Without H.windows min_window_clearance u beacon ws valid in
      elim (Bool-cases (is_full H.windows ws)) [
        | inl full ↦
            let six : of_kind child (windows_in H n.context) ≡ max_children =
              ground (arith, is_full-eq H.windows ws) in
            rw full (
              to_idle-Holds H (with_windows H n (pop_kind H.windows ws beacon).1) u rng
                (record {
                  valid = less.valid;
                  children_known = channel;
                  hops_known = hops;
                  one_beacon = omega (arith, less.fewer);
                  one_parent = omega (arith, less.others parent refl);
                  few_children = omega (arith, less.others child refl);
                  room_for_child = inr (omega (arith, less.fewer));
                  parent_known = elim known [
                    | inl gone ↦ inl (omega (arith, less.others parent refl))
                    | inr k ↦ inr k
                  ];
                })
                (omega (
                  arith,
                  less.others child refl,
                  length-of_kind (windows_of H.windows (pop_kind H.windows ws beacon).1),
                )))
        | inr room ↦ rw room (
            to_idle-Holds H n u rng
              (record {
                valid = valid;
                children_known = channel;
                hops_known = hops;
                one_beacon = omega arith;
                one_parent = omega arith;
                few_children = omega arith;
                room_for_child = inl (ground (arith, is_full-eq H.windows ws));
                parent_known = elim known [ inl gone ↦ inl (omega arith) | inr k ↦ inr k ];
              })
              some_left)
      ]

  -- When the acknowledgement of a child has been sent, on a connected node with room for the child
  -- and an eight-bit number of minutes, and the adjusted window is clear of the other children's,
  -- the node idles until its next window and keeps the invariant. With six children it has no
  -- beacon window any more.
  pub connect_ack_sent-Holds :
      (n : Lightning H) (w : Window) (m : ℕ) (rng : Rng)
      → Connected H 0 0 0 t n.context × Open H n.context
      → w.kind ≡ child
      → m < 256
      → ChildFits H w m time n.context
      → Returns (Holds H (t + reach)) (connect_ack_sent H w m n time rng)
  unfolding connect_ack_sent
  connect_ack_sent-Holds n w m rng (h, (room, _)) kind few fits =
      let w' = adjusted H w m time in
      let h' = Connected-mono H 0 0 0 t (t + ahead) n.context (omega arith) h in
      let count = length-of_kind (windows_in H n.context) in
      Returns-bind (Pushed H (t + ahead) w' n) (Holds H (t + reach)) _ _
        (push_window-Pushed H n w' (t + ahead) h'.valid
          (subst
            (λ k.
              All (λ a. Settled k a.kind (Apart min_window_clearance w' a))
                (windows_in H n.context))
            (sym kind) fits)
          (omega (arith, count, h.one_beacon, h.one_parent)) (in_time w m kind few) (omega arith))
        (λ m' p.
          let c = λ (j : WindowKind). p.accepted.counts j in
          rw p.same (
            Returns-map (Holds H (t + ahead + per_push)) (Holds H (t + reach)) _
              (λ r i. Holds-mono H _ _ r (omega arith) i)
              (stopped-Holds (with_windows H n p.after) (t + ahead + per_push) rng p.accepted.valid
                h.children_known h.hops_known (omega (arith, rw kind at (c beacon), h.one_beacon))
                (omega (arith, rw kind at (c parent), h.one_parent))
                (omega (arith, rw kind at (c child)))
                (elim h.parent_known [
                  | inl gone ↦ inl (omega (arith, rw kind at (c parent)))
                  | inr k ↦ inr k
                ])
                p.accepted.nonempty)))
