-- ===== src/Lightning/Invariant/Preserved.antt =====
-- The transitions put together: the invariant across `Lightning::next`
-- (components/protocol/lightning/src/state_machine.rs).
use holistic_framework_for_l.Base.{
  ℕ, ◌+◌, ◌*◌, ◌≤◌, ◌<◌, sym, Option, none, some, u64_mod, Returns, Returns-unwrap, Rng,
}
use mathlib.Core.Path.{subst}
use holistic_framework_for_l.Lightning.Params.{TimeMs}
use holistic_framework_for_l.Lightning.Message.{Message}
use holistic_framework_for_l.Lightning.Context.{Containers, OwnAndChildData, Lightning}
use holistic_framework_for_l.Lightning.Invariant.{DueAt, Inv, reach}
use holistic_framework_for_l.Lightning.Invariant.Bounds.{Holds}
use holistic_framework_for_l.Lightning.States.{
  State, reset, listen_for_beacons, wait_before_finding_parent, wait_for_best_beacon,
  listen_for_best_beacon, delay_connect, send_connect, wait_for_connect_ack, listen_for_connect_ack,
  idle, send_beacon, listen_for_data, send_data_ack, send_data, listen_for_data_ack,
  listen_for_connect, delay_connect_ack, send_connect_ack,
}
use holistic_framework_for_l.Lightning.StateMachine.{next, next_from}
use holistic_framework_for_l.Lightning.Invariant.{Expected}
use holistic_framework_for_l.Lightning.Invariant.Serving.{leave_idle-Holds}
use holistic_framework_for_l.Lightning.Invariant.Answers.{
  beacon_sent-Holds, acknowledge_connect-Holds,
}
use holistic_framework_for_l.Lightning.Invariant.Acks.{
  connect_ack_sent-Holds, data_sent-Holds, data_ack_sent-Holds,
}
use holistic_framework_for_l.Lightning.Invariant.FirstWindows.{after_reset-Holds}
use holistic_framework_for_l.Lightning.Invariant.Listening.{
  later, Kept, from_listen_for_data, from_listen_for_connect, from_listen_for_beacons,
  from_listen_for_best_beacon, from_listen_for_connect_ack, from_listen_for_data_ack,
}

module _ (H : Containers) (t : ℕ) (time : TimeMs) (budget : t + 2 * reach < u64_mod)
    (past : time ≤ t) where
  from_state :
      (st : State (OwnAndChildData H)) (message : Option (Message (OwnAndChildData H)))
      → Kept H t time budget past st message
  unfolding next_from
  from_state reset none n rng i e = after_reset-Holds H t time budget past n rng
  from_state (wait_before_finding_parent _) none n rng i e = i
  from_state (listen_for_beacons end c) message n rng i e =
      from_listen_for_beacons H t time budget past end c message n rng i e
  from_state (wait_for_best_beacon _ _) none n rng i e = i
  from_state (listen_for_best_beacon best end c) message n rng i e =
      from_listen_for_best_beacon H t time budget past best end c message n rng i e
  from_state (delay_connect _ _) none n rng i e =
      Returns-unwrap (Holds H (t + reach)) n.context.channels.parent _ i.parent_known (λ c _. i)
  from_state (send_connect _ _ _) none n rng i e = i
  from_state (wait_for_connect_ack _ _) none n rng i e =
      Returns-unwrap (Holds H (t + reach)) n.context.channels.parent _ i.parent_known (λ c _. i)
  from_state (listen_for_connect_ack end c id) message n rng i e =
      from_listen_for_connect_ack H t time budget past end c id message n rng i e
  from_state (idle end) none n rng i e =
      later H t time budget past _
        (leave_idle-Holds H n t time rng i.0 (subst (λ x. DueAt H x n.context) (sym e) i.1))
  from_state (send_beacon _ _ _ _) none n rng i e = beacon_sent-Holds H t time budget past n rng i
  from_state (listen_for_data end c) message n rng i e =
      from_listen_for_data H t time budget past end c message n rng i e
  from_state (send_data_ack w c m) none n rng i e =
      data_ack_sent-Holds H t time budget past _ w m rng i.0 i.1 i.2 e
  from_state (send_data _ _) none n rng i e =
      later H t time budget past _ (data_sent-Holds H t time budget past n rng i)
  from_state (listen_for_data_ack end c) message n rng i e =
      from_listen_for_data_ack H t time budget past end c message n rng i e
  from_state (listen_for_connect end c) message n rng i e =
      from_listen_for_connect H t time budget past end c message n rng i e
  from_state (delay_connect_ack end id) none n rng i e =
      later H t time budget past _ (acknowledge_connect-Holds H t time budget past n id rng i)
  from_state (send_connect_ack w c m id) none n rng i e =
      connect_ack_sent-Holds H t time budget past _ w m rng (i.0, i.1) i.2 i.3 e
  from_state reset (some _) n rng i e = absurd e
  from_state (wait_before_finding_parent _) (some _) n rng i e = absurd e
  from_state (wait_for_best_beacon _ _) (some _) n rng i e = absurd e
  from_state (delay_connect _ _) (some _) n rng i e = absurd e
  from_state (send_connect _ _ _) (some _) n rng i e = absurd e
  from_state (wait_for_connect_ack _ _) (some _) n rng i e = absurd e
  from_state (idle _) (some _) n rng i e = absurd e
  from_state (send_beacon _ _ _ _) (some _) n rng i e = absurd e
  from_state (send_data_ack _ _ _) (some _) n rng i e = absurd e
  from_state (send_data _ _) (some _) n rng i e = absurd e
  from_state (delay_connect_ack _ _) (some _) n rng i e = absurd e
  from_state (send_connect_ack _ _ _ _) (some _) n rng i e = absurd e

  -- A transition does not panic, and the invariant holds in the next state.
  pub next-Holds :
      (n : Lightning H) (message : Option (Message (OwnAndChildData H))) (rng : Rng)
      → Inv H n.state t n.context
      → Expected H n.state message time n.context
      → Returns (Holds H (t + reach)) (next H n time message rng)
  unfolding next
  next-Holds n message rng i e = from_state n.state message n rng i e
