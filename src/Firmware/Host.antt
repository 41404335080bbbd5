-- ===== src/Firmware/Host.antt =====
-- The main loop of the firmware (`main` in components/firmware/src/main.rs), with the node that
-- components/protocol/lightning models. The set-up of the hardware is left out.
use holistic_framework_for_l.Base.{
  ℕ, zero, suc, ◌+◌, ◌-◌, ◌%◌, ◌^◌, Option, none, some, Outcome, ok, ◌>>=◌, unwrap, Rng,
  if◌then◌else◌,
}
use holistic_framework_for_l.Api.{Action}
use holistic_framework_for_l.Lightning.Message.{Message}
use holistic_framework_for_l.Lightning.Context.{Containers, OwnAndChildData, Lightning}
use holistic_framework_for_l.Lightning.States.{LightningAction}
use holistic_framework_for_l.Lightning.Node.{progress, has_payload, set_payload}
use holistic_framework_for_l.Firmware.{Board}
use holistic_framework_for_l.Firmware.Radio.{get_modulation_params, lora_transmit, listen}

module _ (H : Containers) (B : Board (Message (OwnAndChildData H))) where
  -- The variables of `main`.
  pub record Host : Type 0 where
    pub node : Lightning H
    pub n : ℕ
    pub rx_msg : Option (Message (OwnAndChildData H))
    pub rng : Rng
    pub board : B.State

  -- A node without a payload is given the next number, a u16.
  unfoldable pub supply : Host → Host
  supply f =
      if has_payload H f.node
      then f
      else record f { node = set_payload H f.node f.n; n = (f.n + 1) % 2 ^ 16 }

  abbrev pub after_delay : Option ℕ → B.State → B.State
  after_delay none board = board
  after_delay (some delay_ms) board = B.timer_after delay_ms board

  -- What is done for an action. A loop that listens gets a round for each millisecond, and one more.
  unfoldable pub perform : ℕ → LightningAction (OwnAndChildData H) → Host → Outcome Host
  perform now (Action.wait end) f = ok (record f { board = B.timer_at end f.board })
  perform now (Action.receive end channel) f = do
    (modulation, board) ← get_modulation_params B channel f.board
    (rx_msg, board') ← listen B (suc (end - now)) modulation end now board
    ok (record f { rx_msg = rx_msg; board = B.enter_standby board' })
  perform now (Action.transmit channel message delay) f = do
    (modulation, board) ← get_modulation_params B channel (after_delay delay f.board)
    transmit_buffer ← unwrap (B.to_vec message)
    ok (record f { board = lora_transmit B modulation transmit_buffer board })
  perform now Action.none f = ok f

  -- The rest of a round, once the clock has been read.
  unfoldable pub progress_at : ℕ → Host → Outcome Host
  progress_at now f = do
    p ← progress H f.node now f.rx_msg f.rng
    perform now p.action (record f { node = p.node; rx_msg = none; rng = p.rng })

  -- One round of the loop.
  unfoldable pub round : Host → Outcome Host
  round f =
      let g = supply f in
      let (now, board) = B.now g.board in progress_at now (record g { board = board })

  -- So many rounds.
  unfoldable pub rounds : ℕ → Host → Outcome Host
  rounds zero f = ok f
  rounds (suc k) f = round f >>= λ g. rounds k g
