-- ===== src/Lightning/Invariant/Answers.antt =====
-- The transitions of a connected node that answer its children keep the invariant and do not panic.
use holistic_framework_for_l.Base.{
  ℕ, ◌+◌, ◌*◌, ◌≤◌, ◌<◌, refl, ap, inl, inr, arith, length, u64_mod, add_u64, add_u64-le, Returns,
  Returns-bind, Returns-unwrap, Rng, Bool-cases, ltb,
}
use holistic_framework_for_l.Lightning.Params.{
  TimeMs, min_window_clearance, max_descendants, NodeId, Channel, beacon_interval_ms,
}
use holistic_framework_for_l.Lightning.Window.{beacon, child, Window}
use holistic_framework_for_l.Lightning.Window.Spacing.{Apart}
use holistic_framework_for_l.Lightning.Context.{Containers, OwnAndChildData, Lightning}
use holistic_framework_for_l.Lightning.StateMachine.Serving.{
  beacon_sent, hear_connect, hear_no_connect, acknowledge_connect, hear_data,
}
use holistic_framework_for_l.Lightning.Invariant.Payloads.{child_data_of, with_child_data}
use holistic_framework_for_l.Base.{ap}
use holistic_framework_for_l.Lightning.Reservation.{next_child_window-Reserved}
use holistic_framework_for_l.Lightning.Invariant.{windows_in, Connected, Open, reach}
use holistic_framework_for_l.Lightning.Invariant.Pushes.{
  per_push, All-Settled, Pushed, pushed-Connected, to_idle-Holds, push-Connected,
}
use holistic_framework_for_l.Lightning.Invariant.Bounds.{Holds, Connected-mono}

-- How far ahead the windows reach that the transitions push.
abbrev pub ahead : ℕ
ahead = 16_000_000

module _ (H : Containers) (t : ℕ) (time : TimeMs) (budget : t + 2 * reach < u64_mod)
    (past : time ≤ t) where
  -- After a beacon there is room for a child, and a window in the queue.
  pub beacon_sent-Holds :
      (n : Lightning H) (rng : Rng)
      → Connected H 1 0 0 t n.context
      → Returns (Holds H (t + reach)) (beacon_sent H n time rng)
  unfolding beacon_sent
  beacon_sent-Holds n rng h =
      let w : Window = record { kind = beacon; start = add_u64 time beacon_interval_ms } in
      Returns-bind (Pushed H (t + ahead) w n) (Holds H (t + reach)) _ _
        (push-Connected H n w beacon (t + ahead) refl
          (Connected-mono H 1 0 0 t (t + ahead) n.context (omega arith) h)
          (All-Settled (Apart min_window_clearance w) beacon (windows_in H n.context)
            (omega (arith, h.one_beacon)))
          (omega (arith, add_u64-le time beacon_interval_ms)) (omega arith))
        (λ m p. rw p.same (
          Returns-unwrap (Holds H (t + reach)) n.context.channels.children _ h.children_known
            (λ c _. (
              Connected-mono H 0 0 0 (t + ahead + per_push) (t + reach) _ (omega arith) (
                  pushed-Connected H w beacon (t + ahead) n.context p.after refl
                    (Connected-mono H 1 0 0 t (t + ahead) n.context (omega arith) h) p.accepted),
              (
                elim h.room_for_child [
                  | inl r ↦ omega (arith, p.accepted.counts child)
                  | inr e ↦ absurd (omega (arith, e))
                ],
                p.accepted.nonempty,
              ),
            ))))

  pub hear_connect-Holds :
      (n : Lightning H) (end : TimeMs) (id : NodeId) (rng : Rng)
      → Connected H 0 0 0 t n.context × Open H n.context
      → Returns (Holds H t) (hear_connect H end id n time rng)
  unfolding hear_connect
  hear_connect-Holds n end id rng h = h

  pub hear_no_connect-Holds :
      (n : Lightning H) (end : TimeMs) (channel : Channel) (rng : Rng)
      → Connected H 0 0 0 t n.context × Open H n.context
      → Returns (Holds H t) (hear_no_connect H end channel n time rng)
  unfolding hear_no_connect
  hear_no_connect-Holds n end channel rng (h, o) = elim (Bool-cases (ltb time end)) [
    | inl early ↦ rw early (h, o)
    | inr late ↦ rw late (to_idle-Holds H n t rng h o.1)
  ]

  pub acknowledge_connect-Holds :
      (n : Lightning H) (id : NodeId) (rng : Rng)
      → Connected H 0 0 0 t n.context × Open H n.context
      → Returns (Holds H t) (acknowledge_connect H id n time rng)
  unfolding acknowledge_connect
  acknowledge_connect-Holds n id rng (h, o) =
      let (k, r) = next_child_window-Reserved H t time n (omega arith) past h.valid in
      rw (r.offset) (
        Returns-unwrap (Holds H t) n.context.channels.children _ h.children_known
          (λ c _. (h, o, ap (λ w. w.kind) r.window, omega arith)))

  pub hear_data-Holds :
      (n : Lightning H) (d : OwnAndChildData H) (rng : Rng)
      → Connected H 0 1 0 t n.context
      → length (child_data_of H n.context) + length (H.own_and_child_data.as_slice d)
        ≤ max_descendants
      → Returns (Holds H t) (hear_data H d n time rng)
  unfolding hear_data
  hear_data-Holds n d rng h few =
      let (v, extended, all) =
        H.child_data.extend_room (H.own_and_child_data.as_slice d) n.context.child_data few in
      let m = record n { context = record n.context { child_data = v } } in
      let (k, r) = next_child_window-Reserved H t time m (omega arith) past h.valid in
      rw (extended, r.offset)
        (Returns-unwrap (Holds H t) n.context.channels.children _ h.children_known (λ c _.
          (with_child_data H 0 1 0 t n.context v h, ap (λ w. w.kind) r.window, omega arith)))
