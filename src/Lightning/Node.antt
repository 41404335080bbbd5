-- ===== src/Lightning/Node.antt =====
-- The node as its host sees it: `impl Protocol for Lightning`
-- (components/protocol/lightning/src/lightning.rs). Log output is left out.
use holistic_framework_for_l.Base.{
  Bool, true, false, ◌&&◌, not, Option, none, some, Outcome, ok, ◌>>=◌, unwrap, Rng, if◌then◌else◌,
}
use holistic_framework_for_l.Lightning.Params.{TimeMs, Payload}
use holistic_framework_for_l.Lightning.Message.{Message}
use holistic_framework_for_l.Lightning.Window.{parent}
use holistic_framework_for_l.Lightning.Windows
use holistic_framework_for_l.Lightning.States.{LightningAction, get_action}
use holistic_framework_for_l.Lightning.Context.{Containers, OwnAndChildData, Lightning}
use holistic_framework_for_l.Lightning.StateMachine.{next}
use holistic_framework_for_l.Lightning.StateMachine.Steps.{is_nil, add_payload}

module _ (H : Containers) where
  -- The node after `progress`, what it is to do, what a sink hands on, and the generator.
  pub record Progress : Type 0 where
    pub node : Lightning H
    pub action : LightningAction (OwnAndChildData H)
    pub uplink_data : Option (OwnAndChildData H)
    pub rng : Rng

  -- The data of a sink's children, with its own payload: taken out and handed on.
  unfoldable pub take_uplink_data : Lightning H → Outcome (Lightning H × Option (OwnAndChildData H))
  take_uplink_data n =
      if n.is_sink && not (is_nil (H.child_data.as_slice n.context.child_data))
      then (do
        collected ←
            unwrap (H.own_and_child_data.from_slice (H.child_data.as_slice n.context.child_data))
        own_and_child ← add_payload H n.id n.payload collected
        ok (
          record n {
            context = record n.context { child_data = H.child_data.clear n.context.child_data };
            payload = none;
          },
          some own_and_child,
        ))
      else ok (n, none)

  -- `Protocol::progress`
  unfoldable pub progress :
      Lightning H → TimeMs → Option (Message (OwnAndChildData H)) → Rng → Outcome Progress
  progress n time message rng = do
    (next_state, m, rng') ← next H n time message rng
    (m', uplink_data) ← take_uplink_data (record m { state = next_state })
    ok (record { node = m'; action = get_action m'.state; uplink_data = uplink_data; rng = rng' })

  -- `Protocol::set_is_sink`
  unfoldable pub set_is_sink : Lightning H → Bool → Lightning H
  set_is_sink n is_sink = record n { is_sink = is_sink }

  -- `Protocol::set_payload`
  unfoldable pub set_payload : Lightning H → Payload → Lightning H
  set_payload n payload = record n { payload = some payload }

  -- `Protocol::has_payload`
  unfoldable pub has_payload : Lightning H → Bool
  has_payload n = elim n.payload [ none ↦ false | some _ ↦ true ]

  -- `Lightning::next_data_transmission`
  unfoldable pub next_data_transmission : Lightning H → Outcome TimeMs
  next_data_transmission n = unwrap (Windows.next_kind H.windows n.context.windows parent)
