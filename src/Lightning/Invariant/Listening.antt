-- ===== src/Lightning/Invariant/Listening.antt =====
-- The transitions out of the states in which a node listens keep the invariant and do not panic.
use holistic_framework_for_l.Base.{
  ℕ, ◌+◌, ◌*◌, ◌≤◌, ◌<◌, inl, inr, Option, none, some, arith, length, u64_mod, Outcome, Returns,
  Returns-map, Rng, Bool-cases, ◌==◌,
}
use holistic_framework_for_l.Lightning.Params.{TimeMs, NodeId, Channel}
use holistic_framework_for_l.Lightning.Message.{Message}
use holistic_framework_for_l.Lightning.Context.{Containers, OwnAndChildData, Context, Lightning}
use holistic_framework_for_l.Lightning.StateMachine.Steps.{Next, to_idle}
use holistic_framework_for_l.Lightning.Invariant.{windows_in, Connected, Inv, reach}
use holistic_framework_for_l.Lightning.Invariant.Pushes.{to_idle-Holds}
use holistic_framework_for_l.Lightning.Invariant.Bounds.{Holds}
use holistic_framework_for_l.Lightning.Invariant.Bounds.{Holds-mono}
use holistic_framework_for_l.Lightning.States.{
  State, listen_for_beacons, listen_for_best_beacon, listen_for_connect_ack, listen_for_data,
  listen_for_data_ack, listen_for_connect,
}
use holistic_framework_for_l.Lightning.StateMachine.{next_from}
use holistic_framework_for_l.Lightning.Invariant.{Expected}
use holistic_framework_for_l.Lightning.Invariant.Answers.{
  hear_connect-Holds, hear_no_connect-Holds, hear_data-Holds,
}
use holistic_framework_for_l.Lightning.Invariant.Acks.{hear_data_ack-Holds}
use holistic_framework_for_l.Lightning.Invariant.Joining.{
  hear_beacon-Holds, choose_beacon-Holds, hear_best_beacon-Holds, give_up_on_beacon-Holds,
}
use holistic_framework_for_l.Lightning.Invariant.FirstWindows.{hear_connect_ack-Holds}

module _ (H : Containers) (t : ℕ) (time : TimeMs) (budget : t + 2 * reach < u64_mod)
    (past : time ≤ t) where
  pub later : (m : Outcome (Next H)) → Returns (Holds H t) m → Returns (Holds H (t + reach)) m
  later m h =
      Returns-map (Holds H t) (Holds H (t + reach)) m (λ r i. Holds-mono H t _ r (omega arith) i) h

  -- A child that has not been heard loses its window.
  child_lost : (ctx : Context H) → Connected H 0 1 0 t ctx → Connected H 0 0 0 t ctx
  child_lost ctx h = record {
    valid = h.valid;
    children_known = h.children_known;
    hops_known = h.hops_known;
    one_beacon = h.one_beacon;
    one_parent = h.one_parent;
    few_children = omega (arith, h.few_children);
    room_for_child = elim h.room_for_child [ inl r ↦ inl (omega arith) | inr s ↦ inr s ];
    parent_known = h.parent_known;
  }

  abbrev pub Kept : State (OwnAndChildData H) → Option (Message (OwnAndChildData H)) → Type 0
  Kept st message =
      (n : Lightning H) (rng : Rng)
      → Inv H st t n.context
      → Expected H st message time n.context
      → Returns (Holds H (t + reach)) (next_from H st message n time rng)

  no_data :
      (n : Lightning H) (rng : Rng)
      → Connected H 0 1 0 t n.context
      → 0 < length (windows_in H n.context)
      → Returns (Holds H (t + reach)) (to_idle H n rng)
  no_data n rng h l = later _ (to_idle-Holds H n t rng (child_lost n.context h) l)

  pub from_listen_for_data :
      (end : TimeMs) (c : Channel) (message : Option (Message (OwnAndChildData H)))
      → Kept (listen_for_data end c) message
  unfolding next_from
  from_listen_for_data end c (some (Message.own_data d)) n rng i e =
      later _ (hear_data-Holds H t time budget past n d rng i e)
  from_listen_for_data end c none n rng i e = no_data n rng i e
  from_listen_for_data end c (some (Message.beacon _ _ _)) n rng i e = no_data n rng i e
  from_listen_for_data end c (some (Message.connect _)) n rng i e = no_data n rng i e
  from_listen_for_data end c (some (Message.connect_ack _ _)) n rng i e = no_data n rng i e
  from_listen_for_data end c (some (Message.data_ack _)) n rng i e = no_data n rng i e
  from_listen_for_data end c (some Message.nack) n rng i e = no_data n rng i e

  pub from_listen_for_connect :
      (end : TimeMs) (c : Channel) (message : Option (Message (OwnAndChildData H)))
      → Kept (listen_for_connect end c) message
  unfolding next_from
  from_listen_for_connect end c none n rng i e = later _ (to_idle-Holds H n t rng i.0 i.1.1)
  from_listen_for_connect end c (some (Message.connect id)) n rng i e =
      later _ (hear_connect-Holds H t time budget past n end id rng i)
  from_listen_for_connect end c (some (Message.own_data _)) n rng i e =
      later _ (hear_no_connect-Holds H t time budget past n end c rng i)
  from_listen_for_connect end c (some (Message.beacon _ _ _)) n rng i e =
      later _ (hear_no_connect-Holds H t time budget past n end c rng i)
  from_listen_for_connect end c (some (Message.connect_ack _ _)) n rng i e =
      later _ (hear_no_connect-Holds H t time budget past n end c rng i)
  from_listen_for_connect end c (some (Message.data_ack _)) n rng i e =
      later _ (hear_no_connect-Holds H t time budget past n end c rng i)
  from_listen_for_connect end c (some Message.nack) n rng i e =
      later _ (hear_no_connect-Holds H t time budget past n end c rng i)

  pub from_listen_for_beacons :
      (end : TimeMs) (c : Channel) (message : Option (Message (OwnAndChildData H)))
      → Kept (listen_for_beacons end c) message
  unfolding next_from
  from_listen_for_beacons end c none n rng i e =
      later _ (choose_beacon-Holds H t time budget past n rng i)
  from_listen_for_beacons end c (some (Message.beacon hops _ _)) n rng i e =
      later _ (hear_beacon-Holds H t time budget past n end c hops rng i e)
  from_listen_for_beacons end c (some (Message.connect _)) n rng i e = i
  from_listen_for_beacons end c (some (Message.own_data _)) n rng i e = i
  from_listen_for_beacons end c (some (Message.connect_ack _ _)) n rng i e = i
  from_listen_for_beacons end c (some (Message.data_ack _)) n rng i e = i
  from_listen_for_beacons end c (some Message.nack) n rng i e = i

  pub from_listen_for_best_beacon :
      (best : ℕ) (end : TimeMs) (c : Channel) (message : Option (Message (OwnAndChildData H)))
      → Kept (listen_for_best_beacon best end c) message
  unfolding next_from
  from_listen_for_best_beacon best end c none n rng i e =
      later _ (give_up_on_beacon-Holds H t time budget past n rng i)
  from_listen_for_best_beacon best end c (some (Message.beacon hops k p)) n rng i e =
      later _ (hear_best_beacon-Holds H t time budget past n best end c hops k p rng i e)
  from_listen_for_best_beacon best end c (some (Message.connect _)) n rng i e = i
  from_listen_for_best_beacon best end c (some (Message.own_data _)) n rng i e = i
  from_listen_for_best_beacon best end c (some (Message.connect_ack _ _)) n rng i e = i
  from_listen_for_best_beacon best end c (some (Message.data_ack _)) n rng i e = i
  from_listen_for_best_beacon best end c (some Message.nack) n rng i e = i

  pub from_listen_for_connect_ack :
      (end : TimeMs) (c : Channel) (id : NodeId) (message : Option (Message (OwnAndChildData H)))
      → Kept (listen_for_connect_ack end c id) message
  unfolding next_from
  from_listen_for_connect_ack end c id none n rng i e = tt
  from_listen_for_connect_ack end c id (some (Message.beacon _ _ _)) n rng i e = tt
  from_listen_for_connect_ack end c id (some (Message.connect _)) n rng i e = tt
  from_listen_for_connect_ack end c id (some (Message.own_data _)) n rng i e = tt
  from_listen_for_connect_ack end c id (some (Message.data_ack _)) n rng i e = tt
  from_listen_for_connect_ack end c id (some Message.nack) n rng i e = tt
  from_listen_for_connect_ack end c id (some (Message.connect_ack m to)) n rng i e =
      elim (Bool-cases (id == to)) [
        | inl own ↦ rw own (hear_connect_ack-Holds H t time budget past n m rng i e)
        | inr other ↦ rw other tt
      ]

  pub from_listen_for_data_ack :
      (end : TimeMs) (c : Channel) (message : Option (Message (OwnAndChildData H)))
      → Kept (listen_for_data_ack end c) message
  unfolding next_from
  from_listen_for_data_ack end c none n rng i e = tt
  from_listen_for_data_ack end c (some (Message.data_ack m)) n rng i e =
      hear_data_ack-Holds H t time budget past n m rng i e
  from_listen_for_data_ack end c (some (Message.beacon _ _ _)) n rng i e = tt
  from_listen_for_data_ack end c (some (Message.connect _)) n rng i e = tt
  from_listen_for_data_ack end c (some (Message.own_data _)) n rng i e = tt
  from_listen_for_data_ack end c (some (Message.connect_ack _ _)) n rng i e = tt
  from_listen_for_data_ack end c (some Message.nack) n rng i e = tt
