-- ===== src/Simulator/Network/Nodes.antt =====
-- The promises that the simulator relies on, for a node of the protocol
-- (`ProtocolWrapper::progress` in components/simulator/src/sim.rs).
use holistic_framework_for_l.Base.{
  ℕ, ◌+◌, ◌*◌, ◌≤◌, ◌<◌, ◌≡◌, refl, ◌∙◌, ◌⊎◌, inl, inr, Bool, true, ◌&&◌, not, Bool-cases, Option,
  none, some, List, u64_mod, assert, Returns, Returns-bind, Returns-Whenever, Returns-Always,
  Whenever, Whenever-bind, Whenever-after, ap, sym, Rng,
}
use holistic_framework_for_l.Lightning.Message.{Message, NodeData}
use holistic_framework_for_l.Lightning.Context.{Containers, OwnAndChildData, Lightning}
use holistic_framework_for_l.Lightning.States.{LightningAction, get_action}
use holistic_framework_for_l.Lightning.Node.{Progress, progress, set_payload, has_payload}
use holistic_framework_for_l.Lightning.Invariant.{Expected, reach}
use holistic_framework_for_l.Lightning.Invariant.Bounds.{Inv-mono}
use holistic_framework_for_l.Lightning.Invariant.Runs.{
  Sound, Uplink, Progressed, progress-Progressed,
}
use holistic_framework_for_l.Lightning.Unchanged.{IsSame}
use holistic_framework_for_l.Lightning.Unchanged.Calls.{next-IsSame, progress-IsSame}
use holistic_framework_for_l.Simulator
use holistic_framework_for_l.Simulator.{ProtocolWrapper, id_of, channel_of, supplied, is_some}
use holistic_framework_for_l.Simulator.Rounds.{InTime, Promised}
use holistic_framework_for_l.Simulator.Network.{handed_on, lightning}

module _ (H : Containers) (Coordinates : Type 0)
    (check_visibility : ProtocolWrapper (lightning H) Coordinates
      → ProtocolWrapper (lightning H) Coordinates
      → Bool) where
  -- A sound node, and the channel on which the simulator has it listen.
  pub record IsNode (t : ℕ) (w : ProtocolWrapper (lightning H) Coordinates) : Type 0 where
    pub sound : Sound H t w.protocol
    pub tuned :
        w.receiving_channel ≡ channel_of (lightning H) Coordinates (get_action w.protocol.state)

  pub IsNode-mono :
      (t u : ℕ) (w : ProtocolWrapper (lightning H) Coordinates) → t ≤ u → IsNode t w → IsNode u w
  IsNode-mono t u w h n = record {
    sound = Inv-mono H w.protocol.state t u w.protocol.context h n.sound;
    tuned = n.tuned;
  }

  -- What the action of the call says of the time, if it returns.
  abbrev pub AsksInTime : Lightning H → ℕ → Option (Message (OwnAndChildData H)) → Rng → Type 0
  AsksInTime n time message rng =
      Whenever (λ r. InTime (lightning H) Coordinates check_visibility time r.action)
        (progress H n time message rng)

  -- What a call comes to.
  pub record Called (t time : ℕ) (n : Lightning H)
      (r : Lightning H × LightningAction (OwnAndChildData H) × Option (List NodeData) × Rng)
      : Type 0 where
    pub promised : Promised (lightning H) Coordinates check_visibility time n r
    pub sound : Sound H (t + reach) r.0
    pub asks : r.1 ≡ get_action r.0.state

  supplied-Sound :
      (t : ℕ) (n : Lightning H)
      → Sound H t n
      → Sound H t (supplied (lightning H) Coordinates n)
        × ((supplied (lightning H) Coordinates n).id ≡ n.id)
        × ((supplied (lightning H) Coordinates n).state ≡ n.state)
  unfolding set_payload
  supplied-Sound t n s = elim (Bool-cases (has_payload H n)) [
    | inl full ↦ rw full (s, refl, refl)
    | inr empty ↦ rw empty (s, refl, refl)
  ]

  at_sink :
      (n m k : Lightning H) (v : Option (OwnAndChildData H))
      → IsSame H n m
      → IsSame H n k
      → Uplink H m k v
      → (k.is_sink ≡ true) ⊎ (handed_on H v ≡ none)
  at_sink n m k none i j u = inr refl
  at_sink n m k (some v) i j u = inl cc

  -- A sound node that is called at the right time, and with a message only if it listens, keeps its
  -- promises.
  pub progress-Called :
      (t time : ℕ) (n : Lightning H) (message : Option (Message (OwnAndChildData H))) (rng : Rng)
      → t + 2 * reach < u64_mod
      → time ≤ t
      → Sound H t n
      → Expected H n.state message time n.context
      → AsksInTime n time message rng
      → Returns (Called t time n) ((lightning H).progress n time message rng)
  progress-Called t time n message rng budget past s e in_time =
      let P = Progressed H (t + reach) n time message rng in
      let Q = λ (r : Progress H). IsSame H n r.node in
      let R = λ (r : Progress H). InTime (lightning H) Coordinates check_visibility time r.action in
      Returns-bind (λ r. (P r × Q r) × R r) (Called t time n) (progress H n time message rng) _
        (Returns-Whenever (λ r. P r × Q r) R _
          (Returns-Whenever P Q _ (progress-Progressed H t n time message rng budget past s e)
            (progress-IsSame H n time message rng))
          in_time)
        (λ r ((p, same), in_time). record {
          promised = record {
            same_id = same.0;
            supplied_id = (supplied-Sound (t + reach) r.node p.sound).1;
            in_time = in_time;
            at_sink =
                at_sink n p.stepped r.node r.uplink_data
                  (rw p.transition at (next-IsSame H n time message rng)) same p.uplink;
          };
          sound = p.sound;
          asks = p.asks;
        })

  -- The wrapper of the node afterwards, and the action.
  abbrev pub Wrapped :
      ℕ
      → ProtocolWrapper (lightning H) Coordinates
        × LightningAction (OwnAndChildData H)
        × Option (List NodeData)
        × Rng
      → Type 0
  Wrapped t r = IsNode (t + reach) r.0 × (r.1 ≡ get_action r.0.protocol.state)

  -- The call of the wrapper.
  pub progress-Wrapped :
      (t time : ℕ) (w : ProtocolWrapper (lightning H) Coordinates)
      (message : Option (Message (OwnAndChildData H))) (rng : Rng)
      → Returns (Called t time w.protocol) ((lightning H).progress w.protocol time message rng)
      → Whenever (Wrapped t) (Simulator.progress (lightning H) Coordinates w time message rng)
  unfolding Simulator.progress
  progress-Wrapped t time w message rng h =
      Whenever-bind (Called t time w.protocol) (Wrapped t)
        ((lightning H).progress w.protocol time message rng) _
        (Returns-Always (Called t time w.protocol) _ h)
        (λ (n, action, uplink, rng') c.
          Whenever-after (Wrapped t)
            (assert (not (not n.is_sink && is_some (lightning H) Coordinates uplink))) _
            (λ u.
              let (sound, id, state) = supplied-Sound (t + reach) n c.sound in
              let asks : action ≡ get_action (supplied (lightning H) Coordinates n).state =
                c.asks ∙ ap get_action (sym state) in
              (
                record { sound = sound; tuned = ap (channel_of (lightning H) Coordinates) asks },
                asks,
              )))
