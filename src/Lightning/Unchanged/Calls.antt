-- ===== src/Lightning/Unchanged/Calls.antt =====
-- A call of `Lightning::next` or of `Protocol::progress` changes neither the node's identifier nor its role
-- (components/protocol/lightning/src/state_machine.rs and lightning.rs).
use holistic_framework_for_l.Base.{
  refl, ◌&&◌, not, Option, none, some, unwrap, Whenever, Whenever-bind, Whenever-after, Rng, ◌==◌,
}
use holistic_framework_for_l.Lightning.Params.{TimeMs, Channel, NodeId, Hops}
use holistic_framework_for_l.Lightning.Message.{Message}
use holistic_framework_for_l.Lightning.Context.{Containers, OwnAndChildData, Lightning}
use holistic_framework_for_l.Lightning.States.{
  State, reset, listen_for_beacons, wait_before_finding_parent, wait_for_best_beacon,
  listen_for_best_beacon, delay_connect, send_connect, wait_for_connect_ack, listen_for_connect_ack,
  idle, send_beacon, listen_for_data, send_data_ack, send_data, listen_for_data_ack,
  listen_for_connect, delay_connect_ack, send_connect_ack,
}
use holistic_framework_for_l.Lightning.StateMachine.{next, next_from}
use holistic_framework_for_l.Lightning.StateMachine.Steps.{is_nil, add_payload}
use holistic_framework_for_l.Lightning.StateMachine.Joining.{wait_again, give_up_on_beacon}
use holistic_framework_for_l.Lightning.StateMachine.Serving.{hear_connect, data_sent}
use holistic_framework_for_l.Lightning.Node.{progress, take_uplink_data}
use holistic_framework_for_l.Lightning.Unchanged.{
  IsSame, Stays, acknowledge_connect-Stays, after_reset-Stays, beacon_sent-Stays,
  choose_beacon-Stays, connect_ack_sent-Stays, data_ack_sent-Stays, hear_beacon-Stays,
  hear_best_beacon-Stays, hear_connect_ack-Stays, hear_data-Stays, hear_data_ack-Stays,
  hear_no_connect-Stays, leave_idle-Stays, parent_told-Stays, to_idle-Stays, Whenever-if,
}

module _ (H : Containers) where
  from_listen_for_beacons-Stays :
      (end : TimeMs) (c : Channel) (message : Option (Message (OwnAndChildData H)))
      (n : Lightning H) (time : TimeMs) (rng : Rng)
      → Whenever (Stays H n) (next_from H (listen_for_beacons end c) message n time rng)
  unfolding next_from give_up_on_beacon wait_again
  from_listen_for_beacons-Stays end c none n time rng = choose_beacon-Stays H n time rng
  from_listen_for_beacons-Stays end c (some (Message.beacon a b d)) n time rng =
      hear_beacon-Stays H end c a n time rng
  from_listen_for_beacons-Stays end c (some (Message.connect id')) n time rng = (refl, refl)
  from_listen_for_beacons-Stays end c (some (Message.connect_ack w id')) n time rng = (refl, refl)
  from_listen_for_beacons-Stays end c (some (Message.own_data v)) n time rng = (refl, refl)
  from_listen_for_beacons-Stays end c (some (Message.data_ack w)) n time rng = (refl, refl)
  from_listen_for_beacons-Stays end c (some Message.nack) n time rng = (refl, refl)

  from_listen_for_best_beacon-Stays :
      (best : Hops) (end : TimeMs) (c : Channel) (message : Option (Message (OwnAndChildData H)))
      (n : Lightning H) (time : TimeMs) (rng : Rng)
      → Whenever (Stays H n) (next_from H (listen_for_best_beacon best end c) message n time rng)
  unfolding next_from give_up_on_beacon wait_again
  from_listen_for_best_beacon-Stays best end c none n time rng = (refl, refl)
  from_listen_for_best_beacon-Stays best end c (some (Message.beacon a b d)) n time rng =
      hear_best_beacon-Stays H best end c a b d n time rng
  from_listen_for_best_beacon-Stays best end c (some (Message.connect id')) n time rng =
      (refl, refl)
  from_listen_for_best_beacon-Stays best end c (some (Message.connect_ack w id')) n time rng =
      (refl, refl)
  from_listen_for_best_beacon-Stays best end c (some (Message.own_data v)) n time rng = (refl, refl)
  from_listen_for_best_beacon-Stays best end c (some (Message.data_ack w)) n time rng = (refl, refl)
  from_listen_for_best_beacon-Stays best end c (some Message.nack) n time rng = (refl, refl)

  from_listen_for_connect_ack-Stays :
      (end : TimeMs) (c : Channel) (id : NodeId) (message : Option (Message (OwnAndChildData H)))
      (n : Lightning H) (time : TimeMs) (rng : Rng)
      → Whenever (Stays H n) (next_from H (listen_for_connect_ack end c id) message n time rng)
  unfolding next_from
  from_listen_for_connect_ack-Stays end c id none n time rng = (refl, refl)
  from_listen_for_connect_ack-Stays end c id (some (Message.beacon a b d)) n time rng = (refl, refl)
  from_listen_for_connect_ack-Stays end c id (some (Message.connect id')) n time rng = (refl, refl)
  from_listen_for_connect_ack-Stays end c id (some (Message.connect_ack w id')) n time rng =
      Whenever-if (Stays H n) (id == id') _ _ (hear_connect_ack-Stays H w n time rng) (refl, refl)
  from_listen_for_connect_ack-Stays end c id (some (Message.own_data v)) n time rng = (refl, refl)
  from_listen_for_connect_ack-Stays end c id (some (Message.data_ack w)) n time rng = (refl, refl)
  from_listen_for_connect_ack-Stays end c id (some Message.nack) n time rng = (refl, refl)

  from_listen_for_connect-Stays :
      (end : TimeMs) (c : Channel) (message : Option (Message (OwnAndChildData H)))
      (n : Lightning H) (time : TimeMs) (rng : Rng)
      → Whenever (Stays H n) (next_from H (listen_for_connect end c) message n time rng)
  unfolding next_from hear_connect
  from_listen_for_connect-Stays end c none n time rng = to_idle-Stays H n n rng (refl, refl)
  from_listen_for_connect-Stays end c (some (Message.beacon a b d)) n time rng =
      hear_no_connect-Stays H end c n time rng
  from_listen_for_connect-Stays end c (some (Message.connect id')) n time rng = (refl, refl)
  from_listen_for_connect-Stays end c (some (Message.connect_ack w id')) n time rng =
      hear_no_connect-Stays H end c n time rng
  from_listen_for_connect-Stays end c (some (Message.own_data v)) n time rng =
      hear_no_connect-Stays H end c n time rng
  from_listen_for_connect-Stays end c (some (Message.data_ack w)) n time rng =
      hear_no_connect-Stays H end c n time rng
  from_listen_for_connect-Stays end c (some Message.nack) n time rng =
      hear_no_connect-Stays H end c n time rng

  from_listen_for_data_ack-Stays :
      (end : TimeMs) (c : Channel) (message : Option (Message (OwnAndChildData H)))
      (n : Lightning H) (time : TimeMs) (rng : Rng)
      → Whenever (Stays H n) (next_from H (listen_for_data_ack end c) message n time rng)
  unfolding next_from
  from_listen_for_data_ack-Stays end c none n time rng = (refl, refl)
  from_listen_for_data_ack-Stays end c (some (Message.beacon a b d)) n time rng = (refl, refl)
  from_listen_for_data_ack-Stays end c (some (Message.connect id')) n time rng = (refl, refl)
  from_listen_for_data_ack-Stays end c (some (Message.connect_ack w id')) n time rng = (refl, refl)
  from_listen_for_data_ack-Stays end c (some (Message.own_data v)) n time rng = (refl, refl)
  from_listen_for_data_ack-Stays end c (some (Message.data_ack w)) n time rng =
      hear_data_ack-Stays H w n time rng
  from_listen_for_data_ack-Stays end c (some Message.nack) n time rng = (refl, refl)

  from_listen_for_data-Stays :
      (end : TimeMs) (c : Channel) (message : Option (Message (OwnAndChildData H)))
      (n : Lightning H) (time : TimeMs) (rng : Rng)
      → Whenever (Stays H n) (next_from H (listen_for_data end c) message n time rng)
  unfolding next_from
  from_listen_for_data-Stays end c none n time rng = to_idle-Stays H n n rng (refl, refl)
  from_listen_for_data-Stays end c (some (Message.beacon a b d)) n time rng =
      to_idle-Stays H n n rng (refl, refl)
  from_listen_for_data-Stays end c (some (Message.connect id')) n time rng =
      to_idle-Stays H n n rng (refl, refl)
  from_listen_for_data-Stays end c (some (Message.connect_ack w id')) n time rng =
      to_idle-Stays H n n rng (refl, refl)
  from_listen_for_data-Stays end c (some (Message.own_data v)) n time rng =
      hear_data-Stays H v n time rng
  from_listen_for_data-Stays end c (some (Message.data_ack w)) n time rng =
      to_idle-Stays H n n rng (refl, refl)
  from_listen_for_data-Stays end c (some Message.nack) n time rng =
      to_idle-Stays H n n rng (refl, refl)

  next_from-Stays :
      (st : State (OwnAndChildData H)) (message : Option (Message (OwnAndChildData H)))
      (n : Lightning H) (time : TimeMs) (rng : Rng)
      → Whenever (Stays H n) (next_from H st message n time rng)
  unfolding next_from data_sent
  next_from-Stays reset none n time rng = after_reset-Stays H n time rng
  next_from-Stays reset (some _) n time rng = tt
  next_from-Stays (wait_before_finding_parent _) none n time rng = (refl, refl)
  next_from-Stays (wait_before_finding_parent _) (some _) n time rng = tt
  next_from-Stays (wait_for_best_beacon _ _) none n time rng = (refl, refl)
  next_from-Stays (wait_for_best_beacon _ _) (some _) n time rng = tt
  next_from-Stays (delay_connect _ l) none n time rng =
      parent_told-Stays H n (λ c. send_connect c n.id l) rng
  next_from-Stays (delay_connect _ l) (some _) n time rng = tt
  next_from-Stays (send_connect _ _ _) none n time rng = (refl, refl)
  next_from-Stays (send_connect _ _ _) (some _) n time rng = tt
  next_from-Stays (wait_for_connect_ack _ id) none n time rng = parent_told-Stays H n _ rng
  next_from-Stays (wait_for_connect_ack _ id) (some _) n time rng = tt
  next_from-Stays (idle _) none n time rng = leave_idle-Stays H n time rng
  next_from-Stays (idle _) (some _) n time rng = tt
  next_from-Stays (send_beacon _ _ _ _) none n time rng = beacon_sent-Stays H n time rng
  next_from-Stays (send_beacon _ _ _ _) (some _) n time rng = tt
  next_from-Stays (delay_connect_ack _ id) none n time rng =
      acknowledge_connect-Stays H id n time rng
  next_from-Stays (delay_connect_ack _ id) (some _) n time rng = tt
  next_from-Stays (send_connect_ack w _ k _) none n time rng =
      connect_ack_sent-Stays H w k n _ time rng (refl, refl)
  next_from-Stays (send_connect_ack w _ k _) (some _) n time rng = tt
  next_from-Stays (send_data _ _) none n time rng = parent_told-Stays H n _ rng
  next_from-Stays (send_data _ _) (some _) n time rng = tt
  next_from-Stays (send_data_ack w _ k) none n time rng =
      data_ack_sent-Stays H w k n _ time rng (refl, refl)
  next_from-Stays (send_data_ack w _ k) (some _) n time rng = tt
  next_from-Stays (listen_for_beacons end c) message n time rng =
      from_listen_for_beacons-Stays end c message n time rng
  next_from-Stays (listen_for_best_beacon best end c) message n time rng =
      from_listen_for_best_beacon-Stays best end c message n time rng
  next_from-Stays (listen_for_connect_ack end c id) message n time rng =
      from_listen_for_connect_ack-Stays end c id message n time rng
  next_from-Stays (listen_for_connect end c) message n time rng =
      from_listen_for_connect-Stays end c message n time rng
  next_from-Stays (listen_for_data_ack end c) message n time rng =
      from_listen_for_data_ack-Stays end c message n time rng
  next_from-Stays (listen_for_data end c) message n time rng =
      from_listen_for_data-Stays end c message n time rng

  pub next-IsSame :
      (n : Lightning H) (time : TimeMs) (message : Option (Message (OwnAndChildData H))) (rng : Rng)
      → Whenever (λ r. IsSame H n r.1) (next H n time message rng)
  unfolding next
  next-IsSame n time message rng = next_from-Stays n.state message n time rng

  abbrev Taken : Lightning H → Lightning H × Option (OwnAndChildData H) → Type 0
  Taken n r = IsSame H n r.0

  take_uplink_data-IsSame :
      (n m : Lightning H) → IsSame H n m → Whenever (Taken n) (take_uplink_data H m)
  unfolding take_uplink_data
  take_uplink_data-IsSame n m s =
      Whenever-if (Taken n) (m.is_sink && not (is_nil (H.child_data.as_slice m.context.child_data)))
        _ _
        (Whenever-after (Taken n)
          (unwrap (H.own_and_child_data.from_slice (H.child_data.as_slice m.context.child_data))) _
          (λ collected.
            Whenever-after (Taken n) (add_payload H m.id m.payload collected) _ (λ v. s)))
        s

  -- A call of `progress`, if it returns, keeps the node's identifier and whether it is a sink.
  pub progress-IsSame :
      (n : Lightning H) (time : TimeMs) (message : Option (Message (OwnAndChildData H))) (rng : Rng)
      → Whenever (λ r. IsSame H n r.node) (progress H n time message rng)
  unfolding progress
  progress-IsSame n time message rng =
      Whenever-bind (Stays H n) _ (next H n time message rng) _ (next-IsSame n time message rng)
        (λ (st, m, rng') s.
          Whenever-bind (Taken n) _ (take_uplink_data H (record m { state = st })) _
            (take_uplink_data-IsSame n (record m { state = st }) s) (λ (k, v) t. t))
