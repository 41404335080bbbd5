-- ===== src/Lightning/Unchanged.antt =====
-- What no transition changes: a node's identifier, and whether it is a sink
-- (components/protocol/lightning/src/state_machine.rs).
pub mod Calls
use holistic_framework_for_l.Base.{
  ℕ, ◌≡◌, refl, Bool, true, false, if◌then◌else◌, ◌∙◌, inl, inr, ◌&&◌, not, Bool-cases, Option,
  none, some, Outcome, ok, ◌>>=◌, unwrap, Whenever, Whenever-bind, assert, Whenever-after, Rng,
  ◌==◌, ltb,
}
use holistic_framework_for_l.Lightning.Params.{TimeMs, Channel, NodeId, Hops}
use holistic_framework_for_l.Lightning.Message.{Message}
use holistic_framework_for_l.Lightning.Window.{
  WindowKind, beacon, child, parent, Window, get_offset_min,
}
use holistic_framework_for_l.Lightning.Windows
use holistic_framework_for_l.Lightning.Channels.{set_random_children_channel}
use holistic_framework_for_l.Lightning.Context.{Containers, OwnAndChildData, Lightning}
use holistic_framework_for_l.Lightning.States.{
  State, reset, listen_for_beacons, wait_before_finding_parent, wait_for_best_beacon,
  listen_for_best_beacon, delay_connect, send_connect, wait_for_connect_ack, listen_for_connect_ack,
  idle, send_beacon, listen_for_data, send_data_ack, send_data, listen_for_data_ack,
  listen_for_connect, delay_connect_ack, send_connect_ack,
}
use holistic_framework_for_l.Lightning.StateMachine.{next, next_from}
use holistic_framework_for_l.Lightning.StateMachine.Steps.{
  Next, is_nil, best_beacon_of, checked_suc, with_windows, push_window, to_idle,
  choose_children_channel, add_payload,
}
use holistic_framework_for_l.Lightning.StateMachine.Joining.{
  wait_again, after_reset, hear_beacon, choose_beacon, hear_best_beacon, give_up_on_beacon,
  hear_connect_ack,
}
use holistic_framework_for_l.Lightning.StateMachine.Serving.{
  open_window, leave_idle, beacon_sent, hear_connect, hear_no_connect, next_child_window,
  acknowledge_connect, stop_beacons_if_full, connect_ack_sent, data_sent, hear_data_ack, hear_data,
  data_ack_sent,
}
use holistic_framework_for_l.Lightning.Node.{progress, take_uplink_data}

-- What holds of both branches.
pub Whenever-if {ℓ} :
    {A : Type ℓ} (P : A → Type 0) (c : Bool) (m k : Outcome A)
    → Whenever P m
    → Whenever P k
    → Whenever P (if c then m else k)
Whenever-if P true m k h i = h
Whenever-if P false m k h i = i

module _ (H : Containers) where
  -- The same node as far as others can tell.
  abbrev pub IsSame : Lightning H → Lightning H → Type 0
  IsSame n m = (m.id ≡ n.id) × (m.is_sink ≡ n.is_sink)

  IsSame-trans : (n m k : Lightning H) → IsSame n m → IsSame m k → IsSame n k
  IsSame-trans n m k (i, s) (j, t) = (j ∙ i, t ∙ s)

  abbrev pub Stays : Lightning H → Next H → Type 0
  Stays n r = IsSame n r.1

  push_window-IsSame :
      (n m : Lightning H) (w : Window) → IsSame n m → Whenever (IsSame n) (push_window H m w)
  unfolding push_window
  push_window-IsSame n m w s =
      Whenever-after (IsSame n) (Windows.push H.windows m.context.windows w) _ (λ ws. s)

  pub to_idle-Stays :
      (n m : Lightning H) (rng : Rng) → IsSame n m → Whenever (Stays n) (to_idle H m rng)
  unfolding to_idle
  to_idle-Stays n m rng s =
      Whenever-after (Stays n) (Windows.next H.windows m.context.windows) _ (λ end. s)

  choose_children_channel-IsSame :
      (n m : Lightning H) (rng : Rng)
      → IsSame n m
      → Whenever (IsSame n) (choose_children_channel H m rng)
  unfolding choose_children_channel
  choose_children_channel-IsSame n m rng s =
      Whenever-after (IsSame n) (set_random_children_channel m.context.channels rng) _ (λ chs. s)

  -- A window is pushed, and the node goes on.
  pushed-Stays :
      (n m : Lightning H) (w : Window) (f : Lightning H → Outcome (Next H))
      → IsSame n m
      → ((k : Lightning H) → IsSame n k → Whenever (Stays n) (f k))
      → Whenever (Stays n) (push_window H m w >>= f)
  pushed-Stays n m w f s k =
      Whenever-bind (IsSame n) (Stays n) (push_window H m w) f (push_window-IsSame n m w s) k

  pub after_reset-Stays :
      (n : Lightning H) (time : TimeMs) (rng : Rng) → Whenever (Stays n) (after_reset H n time rng)
  unfolding after_reset
  after_reset-Stays n time rng =
      Whenever-if (Stays n) n.is_sink _ _
        (Whenever-bind (IsSame n) (Stays n) _ _
          (choose_children_channel-IsSame n _ rng (refl, refl))
          (λ m s. pushed-Stays n m _ _ s (λ k t. to_idle-Stays n k _ t)))
        (refl, refl)

  pub hear_beacon-Stays :
      (end : TimeMs) (c : Channel) (hops : Hops) (n : Lightning H) (time : TimeMs) (rng : Rng)
      → Whenever (Stays n) (hear_beacon H end c hops n time rng)
  unfolding hear_beacon
  hear_beacon-Stays end c hops n time rng =
      Whenever-if (Stays n) (hops == 0) _ _ (refl, refl)
        (Whenever-after (Stays n)
          (unwrap (
            H.connect_beacons.push (record { time_seen = time; hops = hops })
              n.context.potential_connect_beacons))
          _ (λ beacons. (refl, refl)))

  pub choose_beacon-Stays :
      (n : Lightning H) (time : TimeMs) (rng : Rng)
      → Whenever (Stays n) (choose_beacon H n time rng)
  unfolding choose_beacon wait_again
  choose_beacon-Stays n time rng =
      let beacons = H.connect_beacons.as_slice n.context.potential_connect_beacons in
      Whenever-if (Stays n) (is_nil beacons) _ _ (refl, refl)
        (Whenever-after (Stays n) (unwrap (best_beacon_of beacons)) _ (λ best. (refl, refl)))

  pub hear_best_beacon-Stays :
      (best : Hops) (end : TimeMs) (c : Channel) (hops : Hops) (k : ℕ) (p : Option ℕ)
      (n : Lightning H) (time : TimeMs) (rng : Rng)
      → Whenever (Stays n) (hear_best_beacon H best end c hops k p n time rng)
  unfolding hear_best_beacon
  hear_best_beacon-Stays best end c hops k p n time rng =
      Whenever-if (Stays n) (hops == best) _ _
        (Whenever-after (Stays n) (unwrap (checked_suc hops)) _ (λ h. (refl, refl))) (refl, refl)

  pub hear_connect_ack-Stays :
      (m : ℕ) (n : Lightning H) (time : TimeMs) (rng : Rng)
      → Whenever (Stays n) (hear_connect_ack H m n time rng)
  unfolding hear_connect_ack
  hear_connect_ack-Stays m n time rng =
      Whenever-bind (IsSame n) (Stays n) _ _ (choose_children_channel-IsSame n n rng (refl, refl))
        (λ k s.
          pushed-Stays n k _ _ s
            (λ k' s'. pushed-Stays n k' _ _ s' (λ k'' s''. to_idle-Stays n k'' _ s'')))

  open_window-Stays :
      (kind : WindowKind) (n m : Lightning H) (time : TimeMs) (rng : Rng)
      → IsSame n m
      → Whenever (Stays n) (open_window H kind m time rng)
  unfolding open_window
  open_window-Stays beacon n m time rng s =
      Whenever-after (Stays n) (unwrap m.context.hops_to_sink) _
        (λ hops. Whenever-after (Stays n) (unwrap m.context.channels.children) _ (λ channel. s))
  open_window-Stays child n m time rng s =
      Whenever-after (Stays n) (unwrap m.context.channels.children) _ (λ channel. s)
  open_window-Stays parent n m time rng s =
      Whenever-after (Stays n)
        (unwrap (H.own_and_child_data.from_slice (H.child_data.as_slice m.context.child_data))) _
        (λ collected.
          Whenever-after (Stays n) (add_payload H m.id m.payload collected) _ (λ own_and_child.
            Whenever-after (Stays n) (unwrap m.context.channels.parent) _ (λ channel. s)))

  pub leave_idle-Stays :
      (n : Lightning H) (time : TimeMs) (rng : Rng) → Whenever (Stays n) (leave_idle H n time rng)
  unfolding leave_idle
  leave_idle-Stays n time rng =
      Whenever-after (Stays n) (Windows.pop H.windows n.context.windows) _ (λ (w, ws).
        Whenever-after (Stays n) (assert (w.start == time)) _
          (λ u. open_window-Stays w.kind n (with_windows H n ws) time rng (refl, refl)))

  pub beacon_sent-Stays :
      (n : Lightning H) (time : TimeMs) (rng : Rng) → Whenever (Stays n) (beacon_sent H n time rng)
  unfolding beacon_sent
  beacon_sent-Stays n time rng =
      pushed-Stays n n _ _ (refl, refl)
        (λ m s. Whenever-after (Stays n) (unwrap m.context.channels.children) _ (λ channel. s))

  pub hear_no_connect-Stays :
      (end : TimeMs) (c : Channel) (n : Lightning H) (time : TimeMs) (rng : Rng)
      → Whenever (Stays n) (hear_no_connect H end c n time rng)
  unfolding hear_no_connect
  hear_no_connect-Stays end c n time rng =
      Whenever-if (Stays n) (ltb time end) _ _ (refl, refl) (to_idle-Stays n n rng (refl, refl))

  pub acknowledge_connect-Stays :
      (id : NodeId) (n : Lightning H) (time : TimeMs) (rng : Rng)
      → Whenever (Stays n) (acknowledge_connect H id n time rng)
  unfolding acknowledge_connect
  acknowledge_connect-Stays id n time rng =
      Whenever-after (Stays n) (get_offset_min (next_child_window H n time) time) _ (λ offset.
        Whenever-after (Stays n) (unwrap n.context.channels.children) _ (λ channel. (refl, refl)))

  pub connect_ack_sent-Stays :
      (w : Window) (k : ℕ) (n m : Lightning H) (time : TimeMs) (rng : Rng)
      → IsSame n m
      → Whenever (Stays n) (connect_ack_sent H w k m time rng)
  unfolding connect_ack_sent stop_beacons_if_full
  connect_ack_sent-Stays w k n m time rng s =
      pushed-Stays n m _ _ s (λ l t. to_idle-Stays n (stop_beacons_if_full H l) rng (stopped l t))
    where
      stopped : (l : Lightning H) → IsSame n l → IsSame n (stop_beacons_if_full H l)
      stopped l t = elim (Bool-cases (Windows.is_full H.windows l.context.windows)) [
        | inl full ↦ rw full t
        | inr room ↦ rw room t
      ]

  pub hear_data-Stays :
      (d : OwnAndChildData H) (n : Lightning H) (time : TimeMs) (rng : Rng)
      → Whenever (Stays n) (hear_data H d n time rng)
  unfolding hear_data
  hear_data-Stays d n time rng =
      Whenever-after (Stays n)
        (unwrap
          (H.child_data.extend_from_slice (H.own_and_child_data.as_slice d) n.context.child_data))
        _
        (λ collected.
          let m = record n { context = record n.context { child_data = collected } } in
          Whenever-after (Stays n) (get_offset_min (next_child_window H m time) time) _ (λ offset.
            Whenever-after (Stays n) (unwrap m.context.channels.children) _
              (λ channel. (refl, refl))))

  pub data_ack_sent-Stays :
      (w : Window) (k : ℕ) (n m : Lightning H) (time : TimeMs) (rng : Rng)
      → IsSame n m
      → Whenever (Stays n) (data_ack_sent H w k m time rng)
  unfolding data_ack_sent
  data_ack_sent-Stays w k n m time rng s = pushed-Stays n m _ _ s (λ l t. to_idle-Stays n l rng t)

  pub hear_data_ack-Stays :
      (m : ℕ) (n : Lightning H) (time : TimeMs) (rng : Rng)
      → Whenever (Stays n) (hear_data_ack H m n time rng)
  unfolding hear_data_ack
  hear_data_ack-Stays m n time rng =
      pushed-Stays n n _ _ (refl, refl) (λ l t. to_idle-Stays n l rng t)

  pub parent_told-Stays :
      (n : Lightning H) (f : Channel → State (OwnAndChildData H)) (rng : Rng)
      → Whenever (Stays n) (unwrap n.context.channels.parent >>= λ c. ok (f c, n, rng))
  parent_told-Stays n f rng =
      Whenever-after (Stays n) (unwrap n.context.channels.parent) _ (λ c. (refl, refl))
