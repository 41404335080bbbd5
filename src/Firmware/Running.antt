-- ===== src/Firmware/Running.antt =====
-- The firmware is a host that a node can rely on (components/firmware/src/main.rs).
use holistic_framework_for_l.Base.{
  ℕ, zero, suc, ◌+◌, ◌-◌, ◌*◌, ◌≤◌, ◌<◌, ◌≡◌, refl, sym, inl, inr, Bool-cases, Option, none, some,
  arith, u64_mod, Returns, Returns-bind, Returns-map, Returns-eq, Returns-unwrap, HasValue,
  Whenever,
}
use mathlib.Core.Path.{subst}
use holistic_framework_for_l.Api.{Action}
use holistic_framework_for_l.Lightning.Message.{Message}
use holistic_framework_for_l.Lightning.Context.{Containers, OwnAndChildData}
use holistic_framework_for_l.Lightning.States.{LightningAction, get_action}
use holistic_framework_for_l.Lightning.Node.{progress, has_payload, set_payload}
use holistic_framework_for_l.Lightning.Heard.{HeardIn, Granted, heard-Expected}
use holistic_framework_for_l.Lightning.Invariant.{reach}
use holistic_framework_for_l.Lightning.Invariant.Runs.{Sound, progress-Progressed}
use holistic_framework_for_l.Firmware.{Board}
use holistic_framework_for_l.Firmware.Frequencies.{
  get_channel_frequency, get_channel_frequency-Returns,
}
use holistic_framework_for_l.Firmware.Radio.{get_modulation_params, listen}
use holistic_framework_for_l.Firmware.Listening.{listen-Heard}
use holistic_framework_for_l.Firmware.Host.{Host, supply, perform, progress_at, round, rounds}

module _ (H : Containers) (B : Board (Message (OwnAndChildData H))) where
  -- The node is sound, and a message that waits for it is one that it listened for.
  pub record IsRunning (t : ℕ) (f : Host H B) : Type 0 where
    pub sound : Sound H t f.node
    pub heard : HeardIn H f.rx_msg f.node.state

  -- What the radio has to be able to do for the action: the channel is one of eleven, and the message
  -- has room in the buffer.
  abbrev pub Feasible : LightningAction (OwnAndChildData H) → Type 0
  Feasible (Action.receive end channel) = channel ≤ 10
  Feasible (Action.transmit channel message delay) = (channel ≤ 10) × HasValue (B.to_vec message)
  Feasible (Action.wait end) = Unit
  Feasible Action.none = Unit

  -- All that a round relies on once the node has a payload, for windows that end before `t`.
  pub record IsFair (t : ℕ) (f : Host H B) : Type 0 where
    pub past : B.clock f.board ≤ t
    pub granted : Granted H f.node.state f.rx_msg (B.clock f.board) f.node
    pub feasible :
        Whenever (λ r. Feasible r.action) (progress H f.node (B.clock f.board) f.rx_msg f.rng)

  get_modulation_params-returns :
      (channel : ℕ) (board : B.State)
      → channel ≤ 10
      → Returns (λ r. B.clock board ≤ B.clock r.1) (get_modulation_params B channel board)
  unfolding get_modulation_params
  get_modulation_params-returns channel board h =
      Returns-bind (λ f. Unit) _ (get_channel_frequency channel) _
        (get_channel_frequency-Returns channel h)
        (λ f u.
          let created = B.create_modulation_params f board in
          Returns-unwrap (λ r. B.clock board ≤ B.clock r.1) created.0 _ (B.create-HasValue f board)
            (λ m e. B.clock-create_modulation_params f board))

  -- An action that is feasible is performed, and then only a node that listens has a message.
  perform-IsRunning :
      (t now : ℕ) (action : LightningAction (OwnAndChildData H)) (f : Host H B)
      → now ≤ B.clock f.board
      → Feasible action
      → action ≡ get_action f.node.state
      → f.rx_msg ≡ none
      → Sound H t f.node
      → Returns (IsRunning t) (perform H B now action f)
  unfolding perform
  perform-IsRunning t now (Action.wait end) f h k asks empty s = record {
    sound = s;
    heard = rw empty tt;
  }
  perform-IsRunning t now Action.none f h k asks empty s = record { sound = s; heard = rw empty tt }
  perform-IsRunning t now (Action.transmit channel message delay) f h k asks empty s =
      Returns-bind _ (IsRunning t) (get_modulation_params B channel _) _
        (get_modulation_params-returns channel _ k.0)
        (λ r later.
          Returns-unwrap (IsRunning t) (B.to_vec message) _ k.1
            (λ buffer e. record { sound = s; heard = rw empty tt }))
  perform-IsRunning t now (Action.receive end channel) f h k asks empty s =
      Returns-bind _ (IsRunning t) (get_modulation_params B channel f.board) _
        (get_modulation_params-returns channel f.board k)
        (λ (modulation, board) later.
          Returns-bind _ (IsRunning t) (listen B (suc (end - now)) modulation end now board) _
            (listen-Heard B (suc (end - now)) modulation end now board (omega (arith, h, later))
              (omega arith))
            (λ (m, b) u. record { sound = s; heard = heard m }))
    where
      heard : (m : Option (Message (OwnAndChildData H))) → HeardIn H m f.node.state
      heard none = tt
      heard (some m) = (end, channel, sym asks)

  supply-IsRunning : (t : ℕ) (f : Host H B) → IsRunning t f → IsRunning t (supply H B f)
  unfolding supply set_payload
  supply-IsRunning t f r = elim (Bool-cases (has_payload H f.node)) [
    | inl full ↦ rw full r
    | inr empty ↦ rw empty (record { sound = r.sound; heard = r.heard })
  ]

  progress_at-IsRunning :
      (t : ℕ) (f : Host H B) (board : B.State)
      → t + 2 * reach < u64_mod
      → IsRunning t f
      → IsFair t f
      → B.clock f.board ≤ B.clock board
      → Returns
          (IsRunning (t + reach))
          (progress_at H B (B.clock f.board) (record f { board = board }))
  unfolding progress_at
  progress_at-IsRunning t f board budget r fair later =
      let (p, called, known) = Returns-eq _ (progress H f.node (B.clock f.board) f.rx_msg f.rng) (
        progress-Progressed H t f.node (B.clock f.board) f.rx_msg f.rng budget fair.past r.sound
          (heard-Expected H f.node.state f.rx_msg (B.clock f.board) f.node r.heard fair.granted)) in
      rw called (
        perform-IsRunning (t + reach) (B.clock f.board) p.action _ later
          (rw called at fair.feasible) known.asks refl known.sound)

  -- A round returns: no assertion fails, nothing is unwrapped that is not there, and the loop that
  -- listens ends. The node is sound afterwards, and has a message only if it listened for one. The
  -- round relies on the time, on what the code takes for granted of the messages that it listens
  -- for, and on a radio that can do what is asked of it.
  pub round-IsRunning :
      (t : ℕ) (f : Host H B)
      → t + 2 * reach < u64_mod
      → IsRunning t f
      → IsFair t (supply H B f)
      → Returns (IsRunning (t + reach)) (round H B f)
  unfolding round
  round-IsRunning t f budget r fair =
      let g = supply H B f in
      rw (B.now-clock g.board) (
        progress_at-IsRunning t g (B.now g.board).1 budget (supply-IsRunning t f r) fair
          (B.clock-now g.board))

  -- What so many rounds rely on.
  unfoldable pub StaysFair : ℕ → ℕ → Host H B → Type 0
  StaysFair zero t f = Unit
  StaysFair (suc k) t f = IsFair t (supply H B f) × Whenever (StaysFair k (t + reach)) (round H B f)

  -- So do any number of rounds, if the clock has room for 20,000 seconds for each and for two more.
  pub rounds-IsRunning :
      (k t : ℕ) (f : Host H B)
      → t + (k + 2) * reach < u64_mod
      → IsRunning t f
      → StaysFair k t f
      → Returns (IsRunning (t + k * reach)) (rounds H B k f)
  unfolding rounds StaysFair
  rounds-IsRunning zero t f budget r fair = subst (λ u. IsRunning u f) (omega arith) r
  rounds-IsRunning (suc k) t f budget r (fair, rest) =
      let (g, done, running) =
        Returns-eq _ (round H B f) (round-IsRunning t f (omega arith) r fair) in
      rw done (
        Returns-map _ _ (rounds H B k g) (λ h i. subst (λ u. IsRunning u h) (omega arith) i)
          (rounds-IsRunning k (t + reach) g (omega arith) running (rw done at rest)))
