-- ===== src/Lightning/Listening.antt =====
-- Which states may be given a message (components/protocol/lightning/src/states.rs and
-- state_machine.rs).
use holistic_framework_for_l.Base.{◌≡◌, refl, ◌⊎◌, inl, inr, some, panic, Rng}
use holistic_framework_for_l.Lightning.Params.{TimeMs, Channel}
use holistic_framework_for_l.Api.{Action}
use holistic_framework_for_l.Lightning.Message.{Message}
use holistic_framework_for_l.Lightning.States.{
  State, reset, listen_for_beacons, wait_before_finding_parent, wait_for_best_beacon,
  listen_for_best_beacon, delay_connect, send_connect, wait_for_connect_ack, listen_for_connect_ack,
  idle, send_beacon, listen_for_data, send_data_ack, send_data, listen_for_data_ack,
  listen_for_connect, delay_connect_ack, send_connect_ack, get_action,
}
use holistic_framework_for_l.Lightning.Context.{Containers, OwnAndChildData, Lightning}
use holistic_framework_for_l.Lightning.StateMachine.{next_from}

module _ (H : Containers) where
  abbrev pub Listens : State (OwnAndChildData H) → Type 0
  Listens st = (end : TimeMs) × (channel : Channel) × (get_action st ≡ Action.receive end channel)

  -- A state's action is to listen, or a message in that state is a panic.
  pub Listens-or-panic :
      (st : State (OwnAndChildData H)) (message : Message (OwnAndChildData H))
      → Listens st
        ⊎ ((n : Lightning H) (time : TimeMs) (rng : Rng)
            → next_from H st (some message) n time rng ≡ panic)
  unfolding next_from get_action
  Listens-or-panic reset m = inr (λ n time rng. refl)
  Listens-or-panic (wait_before_finding_parent _) m = inr (λ n time rng. refl)
  Listens-or-panic (wait_for_best_beacon _ _) m = inr (λ n time rng. refl)
  Listens-or-panic (delay_connect _ _) m = inr (λ n time rng. refl)
  Listens-or-panic (send_connect _ _ _) m = inr (λ n time rng. refl)
  Listens-or-panic (wait_for_connect_ack _ _) m = inr (λ n time rng. refl)
  Listens-or-panic (idle _) m = inr (λ n time rng. refl)
  Listens-or-panic (send_beacon _ _ _ _) m = inr (λ n time rng. refl)
  Listens-or-panic (send_data_ack _ _ _) m = inr (λ n time rng. refl)
  Listens-or-panic (send_data _ _) m = inr (λ n time rng. refl)
  Listens-or-panic (delay_connect_ack _ _) m = inr (λ n time rng. refl)
  Listens-or-panic (send_connect_ack _ _ _ _) m = inr (λ n time rng. refl)
  Listens-or-panic (listen_for_beacons end c) m = inl (end, c, refl)
  Listens-or-panic (listen_for_best_beacon _ end c) m = inl (end, c, refl)
  Listens-or-panic (listen_for_connect_ack end c _) m = inl (end, c, refl)
  Listens-or-panic (listen_for_data end c) m = inl (end, c, refl)
  Listens-or-panic (listen_for_data_ack end c) m = inl (end, c, refl)
  Listens-or-panic (listen_for_connect end c) m = inl (end, c, refl)
