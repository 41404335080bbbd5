-- ===== src/Lightning/Heard.antt =====
-- What a host relies on when it calls a node with what the node has heard
-- (components/protocol/lightning/src/lightning.rs).
use holistic_framework_for_l.Base.{
  ℕ, ◌≡◌, ◌⊎◌, inl, inr, sym, ap, ◌∙◌, Bool, true, false, Option, none, some,
}
use holistic_framework_for_l.Api.{Action}
use holistic_framework_for_l.Lightning.Message.{Message}
use holistic_framework_for_l.Lightning.Context.{Containers, OwnAndChildData, Lightning}
use holistic_framework_for_l.Lightning.States.{State, LightningAction, get_action}
use holistic_framework_for_l.Lightning.Listening.{Listens}
use holistic_framework_for_l.Lightning.Invariant.{Expected}

module _ (H : Containers) where
  -- A message has been received only if the node's state is one that listens.
  abbrev pub HeardIn : Option (Message (OwnAndChildData H)) → State (OwnAndChildData H) → Type 0
  HeardIn none st = Unit
  HeardIn (some message) st = Listens H st

  -- Whether the state listens.
  abbrev is_receive : LightningAction (OwnAndChildData H) → Bool
  is_receive (Action.receive end channel) = true
  is_receive _ = false

  -- What the code takes for granted of a call, apart from that only states that listen are given a
  -- message.
  abbrev pub Granted :
      State (OwnAndChildData H) → Option (Message (OwnAndChildData H)) → ℕ → Lightning H → Type 0
  Granted st none now n = Expected H st none now n.context
  Granted st (some message) now n =
      (is_receive (get_action st) ≡ false) ⊎ Expected H st (some message) now n.context

  pub heard-Expected :
      (st : State (OwnAndChildData H)) (message : Option (Message (OwnAndChildData H))) (now : ℕ)
      (n : Lightning H)
      → HeardIn message st
      → Granted st message now n
      → Expected H st message now n.context
  heard-Expected st none now n h g = g
  heard-Expected st (some m) now n (end, channel, e) (inl deaf) =
      absurd (true≢false (sym (ap is_receive e) ∙ deaf))
    where
      true≢false : true ≡ false → ⊥
      true≢false = λ p. cc
  heard-Expected st (some m) now n h (inr x) = x
