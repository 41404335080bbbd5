-- ===== src/Firmware/Late.antt =====
-- A round that comes late (components/firmware/src/main.rs): the timer promises to wake the node not
-- before the time that it asked for, and the state machine wants to be called exactly then.
use holistic_framework_for_l.Base.{
  ℕ, ◌+◌, ◌%◌, ◌^◌, ◌≡◌, ◌≢◌, ap, ◌∙◌, refl, false, Bool-cases, inl, inr, arith, Option, none, List,
  ◌∷◌, panic, ◌==◌, Rng,
}
use holistic_framework_for_l.Lightning.Message.{Message}
use holistic_framework_for_l.Lightning.Window.{Window}
use holistic_framework_for_l.Lightning.States.{idle}
use holistic_framework_for_l.Lightning.Context.{Containers, OwnAndChildData, Lightning}
use holistic_framework_for_l.Lightning.StateMachine.{next, next_from}
use holistic_framework_for_l.Lightning.StateMachine.Serving.{leave_idle}
use holistic_framework_for_l.Lightning.Windows.Removal.{pop-cons}
use holistic_framework_for_l.Lightning.Node.{progress, has_payload, set_payload}
use holistic_framework_for_l.Lightning.Invariant.{windows_in}
use holistic_framework_for_l.Firmware.{Board}
use holistic_framework_for_l.Firmware.Host.{Host, supply, progress_at, round}

module _ (H : Containers) where
  leave_idle-late :
      (n : Lightning H) (time : ℕ) (rng : Rng) (w : Window) (ws : List Window)
      → windows_in H n.context ≡ w ∷ ws
      → w.start ≢ time
      → leave_idle H n time rng ≡ panic
  unfolding leave_idle
  leave_idle-late n time rng w ws e late =
      let (q, popped, rest, k) = pop-cons H.windows n.context.windows w ws e in
      let differs : (w.start == time) ≡ false = ground (arith, late) in rw (popped, differs) refl

  next-late :
      (n : Lightning H) (time end : ℕ) (m : Option (Message (OwnAndChildData H))) (rng : Rng)
      (w : Window) (ws : List Window)
      → n.state ≡ idle end
      → m ≡ none
      → windows_in H n.context ≡ w ∷ ws
      → w.start ≢ time
      → next H n time m rng ≡ panic
  unfolding next next_from
  next-late n time end m rng w ws waits silent e late =
      ap (λ st. next_from H st m n time rng) waits
      ∙ ap (λ o. next_from H (idle end) o n time rng) silent
      ∙ leave_idle-late n time rng w ws e late

module _ (H : Containers) (B : Board (Message (OwnAndChildData H))) where
  progress_at-late :
      (f : Host H B) (now end : ℕ) (w : Window) (ws : List Window)
      → f.node.state ≡ idle end
      → f.rx_msg ≡ none
      → windows_in H f.node.context ≡ w ∷ ws
      → w.start ≢ now
      → progress_at H B now f ≡ panic
  unfolding progress_at progress
  progress_at-late f now end w ws waits silent e late =
      rw (next-late H f.node now end f.rx_msg f.rng w ws waits silent e late) refl

  supplied :
      (P : Host H B → Type 0) (f : Host H B)
      → P f
      → P (record f { node = set_payload H f.node f.n; n = (f.n + 1) % 2 ^ 16 })
      → P (supply H B f)
  unfolding supply
  supplied P f h k = elim (Bool-cases (has_payload H f.node)) [
    | inl full ↦ rw full h
    | inr empty ↦ rw empty k
  ]

  -- A node that waits for its next window panics in any round whose time is not the start of that
  -- window, be it a millisecond later.
  pub round-late :
      (f : Host H B) (end : ℕ) (w : Window) (ws : List Window)
      → f.node.state ≡ idle end
      → f.rx_msg ≡ none
      → windows_in H f.node.context ≡ w ∷ ws
      → w.start ≢ B.clock f.board
      → round H B f ≡ panic
  unfolding round set_payload
  round-late f end w ws waits silent e late =
      supplied
        (λ g. progress_at H B (B.now g.board).0 (record g { board = (B.now g.board).1 }) ≡ panic) f
        (progress_at-late _ (B.now f.board).0 end w ws waits silent e
          (rw (B.now-clock f.board) late))
        (progress_at-late _ (B.now f.board).0 end w ws waits silent e
          (rw (B.now-clock f.board) late))
