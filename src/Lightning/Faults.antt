-- ===== src/Lightning/Faults.antt =====
-- Where the code of the protocol panics although its host does nothing wrong
-- (components/protocol/lightning/src/state_machine.rs).
use holistic_framework_for_l.Base.{
  add_u64, ◌≡◌, refl, ap, ◌∙◌, true, none, [], ◌∷◌, arith, ok, panic, Rng, first, HasValue, ◌==◌,
}
use holistic_framework_for_l.Lightning.Params.{data_receive_window, TimeMs}
use holistic_framework_for_l.Lightning.Window.{child, Window}
use holistic_framework_for_l.Lightning.Windows.{next}
use holistic_framework_for_l.Lightning.Windows.Removal.{pop-cons}
use holistic_framework_for_l.Lightning.States.{State, listen_for_data}
use holistic_framework_for_l.Lightning.Context.{Containers, OwnAndChildData, Lightning}
use holistic_framework_for_l.Lightning.StateMachine.{next_from}
use holistic_framework_for_l.Lightning.StateMachine.Steps.{to_idle, with_windows}
use holistic_framework_for_l.Lightning.StateMachine.Serving.{leave_idle, open_window}
use holistic_framework_for_l.Lightning.Invariant.{windows_in}

module _ (H : Containers) where
  to_idle-empty :
      (n : Lightning H) (rng : Rng) → windows_in H n.context ≡ [] → to_idle H n rng ≡ panic
  unfolding to_idle next
  to_idle-empty n rng e =
      let nothing : H.windows.peek n.context.windows.queue ≡ none =
        H.windows.peek-first n.context.windows.queue ∙ ap first e in
      rw nothing refl

  -- A node with a children channel whose only window is a child's, and begins now, leaves `Idle`,
  -- and panics in its next state if no message comes.
  pub last_child_lost-panic :
      (n : Lightning H) (w : Window) (time later : TimeMs) (rng : Rng)
      → windows_in H n.context ≡ w ∷ []
      → w.kind ≡ child
      → w.start ≡ time
      → HasValue n.context.channels.children
      → (st : State (OwnAndChildData H)) × (m : Lightning H) × (leave_idle H n time rng
          ≡ ok (st, m, rng))
        × (next_from H st none m later rng ≡ panic)
  unfolding leave_idle open_window next_from
  last_child_lost-panic n w time later rng e kind due (c, known) =
      let (ws', popped, rest, k) = pop-cons H.windows n.context.windows w [] e in
      let on_time : (w.start == time) ≡ true = ground arith in
      (
        listen_for_data (add_u64 time data_receive_window) c,
        with_windows H n ws',
        rw (popped, on_time, kind, known) refl,
        to_idle-empty (with_windows H n ws') rng rest,
      )
