-- ===== src/Lightning/Invariant/Runs.antt =====
-- Whole runs of a node: a host that calls `Protocol::progress` again and again
-- (components/protocol/lightning/src/lightning.rs).
use holistic_framework_for_l.Base.{
  ℕ, ◌⊎◌, ◌≢◌, Bool, false, ◌+◌, ◌*◌, ◌≤◌, ◌<◌, ◌≡◌, refl, sym, ap, ◌∙◌, inl, inr, true, Option,
  none, some, List, [], ◌∷◌, arith, length, u64_mod, Outcome, ok, ◌>>=◌, Returns, Returns-bind,
  Returns-map, Rng, Bool-cases,
}
use mathlib.Core.Path.{subst}
use holistic_framework_for_l.Lightning.Params.{TimeMs}
use holistic_framework_for_l.Lightning.Message.{Message, NodeData}
use holistic_framework_for_l.Lightning.Context.{Containers, OwnAndChildData, Context, Lightning}
use holistic_framework_for_l.Lightning.StateMachine.Steps.{add_payload}
use holistic_framework_for_l.Lightning.Invariant.Payloads.{
  child_data_of, with_child_data, collect-room, add_payload-returns, Collected,
}
use holistic_framework_for_l.Lightning.Invariant.{Inv, reach}
use holistic_framework_for_l.Lightning.States.{
  State, reset, listen_for_beacons, wait_before_finding_parent, wait_for_best_beacon,
  listen_for_best_beacon, delay_connect, send_connect, wait_for_connect_ack, listen_for_connect_ack,
  idle, send_beacon, listen_for_data, send_data_ack, send_data, listen_for_data_ack,
  listen_for_connect, delay_connect_ack, send_connect_ack, get_action,
}
use holistic_framework_for_l.Lightning.StateMachine.{next}
use holistic_framework_for_l.Lightning.Node.{Progress, progress, take_uplink_data}
use holistic_framework_for_l.Lightning.Invariant.{Expected}
use holistic_framework_for_l.Lightning.Invariant.Preserved.{next-Holds}
use holistic_framework_for_l.Base.{◌&&◌, not, Returns-eq, Whenever}
use holistic_framework_for_l.Lightning.StateMachine.Steps.{is_nil}
use holistic_framework_for_l.Lightning.Invariant.{Searching, Connecting}

module _ (H : Containers) where
  -- The invariant of a node.
  abbrev pub Sound : ℕ → Lightning H → Type 0
  Sound t n = Inv H n.state t n.context

  -- A call of the host: the time, and a message if one has arrived.
  abbrev pub Call : Type 0
  Call = TimeMs × Option (Message (OwnAndChildData H))

  -- What `progress` hands on, after the transition to `n`, and the node `k` that is left. At a sink whose
  -- children have sent data it is all of that data, with the sink's own payload behind it, and none of it
  -- is kept. Nothing is handed on only if the node is no sink or has no data of children, and then it is
  -- as the transition left it.
  abbrev pub Uplink : Lightning H → Lightning H → Option (OwnAndChildData H) → Type 0
  Uplink n k none =
      ((n.is_sink ≡ false) ⊎ (child_data_of H n.context ≡ [])) × (k ≡ record n { state = k.state })
  Uplink n k (some v) =
      (n.is_sink ≡ true)
      × (child_data_of H n.context ≢ [])
      × Collected H n.id n.payload n.context v
      × (child_data_of H k.context ≡ [])
      × (k.payload ≡ none)

  Searching-child_data :
      (ctx : Context H) (v : H.child_data.Vec)
      → Searching H ctx
      → Searching H (record ctx { child_data = v })
  Searching-child_data ctx v h = record { clear = h.clear; no_windows = h.no_windows }

  Connecting-child_data :
      (ctx : Context H) (v : H.child_data.Vec)
      → Connecting H ctx
      → Connecting H (record ctx { child_data = v })
  Connecting-child_data ctx v h = record {
    searching = Searching-child_data ctx v h.searching;
    parent_known = h.parent_known;
    hops_known = h.hops_known;
  }

  -- The invariant does not look at the children's data.
  Inv-child_data :
      (st : State (OwnAndChildData H)) (t : ℕ) (ctx : Context H) (v : H.child_data.Vec)
      → Inv H st t ctx
      → Inv H st t (record ctx { child_data = v })
  Inv-child_data reset t ctx v i = tt
  Inv-child_data (listen_for_beacons _ _) t ctx v i = Searching-child_data ctx v i
  Inv-child_data (wait_before_finding_parent _) t ctx v i = Searching-child_data ctx v i
  Inv-child_data (wait_for_best_beacon _ _) t ctx v i = Searching-child_data ctx v i
  Inv-child_data (listen_for_best_beacon _ _ _) t ctx v i = Searching-child_data ctx v i
  Inv-child_data (delay_connect _ _) t ctx v i = Connecting-child_data ctx v i
  Inv-child_data (send_connect _ _ _) t ctx v i = Connecting-child_data ctx v i
  Inv-child_data (wait_for_connect_ack _ _) t ctx v i = Connecting-child_data ctx v i
  Inv-child_data (listen_for_connect_ack _ _ _) t ctx v i = Connecting-child_data ctx v i
  Inv-child_data (idle end) t ctx v i = (with_child_data H 0 0 0 t ctx v i.0, i.1)
  Inv-child_data (send_beacon _ _ _ _) t ctx v i = with_child_data H 1 0 0 t ctx v i
  Inv-child_data (listen_for_data _ _) t ctx v i = with_child_data H 0 1 0 t ctx v i
  Inv-child_data (send_data_ack w _ m) t ctx v i = (with_child_data H 0 1 0 t ctx v i.0, i.1, i.2)
  Inv-child_data (send_data _ _) t ctx v i = with_child_data H 0 0 1 t ctx v i
  Inv-child_data (listen_for_data_ack _ _) t ctx v i = with_child_data H 0 0 1 t ctx v i
  Inv-child_data (listen_for_connect _ _) t ctx v i = (with_child_data H 0 0 0 t ctx v i.0, i.1)
  Inv-child_data (delay_connect_ack _ _) t ctx v i = (with_child_data H 0 0 0 t ctx v i.0, i.1)
  Inv-child_data (send_connect_ack w _ m _) t ctx v i =
      (with_child_data H 0 0 0 t ctx v i.0, i.1, i.2, i.3)

  abbrev Taken : ℕ → Lightning H → Lightning H × Option (OwnAndChildData H) → Type 0
  Taken t n r = Sound t r.0 × (r.0.state ≡ n.state) × Uplink n r.0 r.1

  take_uplink_data-Taken :
      (t : ℕ) (n : Lightning H) → Sound t n → Returns (Taken t n) (take_uplink_data H n)
  unfolding take_uplink_data
  take_uplink_data-Taken t n i =
      elim (Bool-cases (n.is_sink && not (is_nil (child_data_of H n.context)))) [
        | inr nothing ↦
            simp (nothing)
              (i, refl, (no_uplink n.is_sink (child_data_of H n.context) nothing, refl))
        | inl due ↦
            let (collected, copied, all) = collect-room H n.context in
            simp (due, copied)
              (Returns-bind (Collected H n.id n.payload n.context) (Taken t n)
                (add_payload H n.id n.payload collected) _
                (add_payload-returns H n.id n.payload n.context collected all)
                (λ v c. (
                  Inv-child_data n.state t n.context _ i,
                  refl,
                  (
                    (an_uplink n.is_sink (child_data_of H n.context) due).0,
                    (an_uplink n.is_sink (child_data_of H n.context) due).1,
                    c,
                    H.child_data.as_slice-clear n.context.child_data,
                    refl,
                  ),
                )))
      ]
    where
      no_uplink :
          (sink : Bool) (ds : List NodeData)
          → sink && not (is_nil ds) ≡ false
          → (sink ≡ false) ⊎ (ds ≡ [])
      no_uplink false ds h = inl refl
      no_uplink true [] h = inr refl
      no_uplink true (d ∷ rest) h = cc

      an_uplink :
          (sink : Bool) (ds : List NodeData)
          → sink && not (is_nil ds) ≡ true
          → (sink ≡ true) × (ds ≢ [])
      an_uplink false ds h = cc
      an_uplink true [] h = cc
      an_uplink true (d ∷ rest) h = (refl, λ e. cc)

  -- What is known of a call of `progress`.
  pub record Progressed (t : ℕ) (n : Lightning H) (time : TimeMs)
      (message : Option (Message (OwnAndChildData H))) (rng : Rng) (r : Progress H) : Type 0 where
    pub sound : Sound t r.node
    pub asks : r.action ≡ get_action r.node.state
    pub stepped : Lightning H
    pub transition : next H n time message rng ≡ ok (r.node.state, stepped, r.rng)
    pub uplink : Uplink stepped r.node r.uplink_data

  -- A call of `progress` on a sound node, at a time not later than the bound on its windows, with
  -- room left on the clock, that meets what the code takes for granted returns. The node is sound
  -- afterwards, up to windows that reach 20,000 seconds further; the action is that of its state;
  -- a sink whose children have sent data hands on all of it and its own payload, in this order, and
  -- keeps none of it; any other node hands on nothing and is left as the transition has it.
  pub progress-Progressed :
      (t : ℕ) (n : Lightning H) (time : TimeMs) (message : Option (Message (OwnAndChildData H)))
      (rng : Rng)
      → t + 2 * reach < u64_mod
      → time ≤ t
      → Sound t n
      → Expected H n.state message time n.context
      → Returns (Progressed (t + reach) n time message rng) (progress H n time message rng)
  unfolding progress
  progress-Progressed t n time message rng budget past i e =
      let ((st, m, rng'), stepped, sound) =
        Returns-eq _ (next H n time message rng)
          (next-Holds H t time budget past n message rng i e) in
      rw stepped (
        Returns-bind (Taken (t + reach) (record m { state = st })) _ _ _
          (take_uplink_data-Taken (t + reach) (record m { state = st }) sound)
          (λ (m', v) (h, s, u). record {
            sound = h;
            asks = refl;
            stepped = m;
            transition = stepped ∙ ap (λ x. ok (x, m, rng')) (sym s);
            uplink = before_state m m' st v u;
          }))
    where
      before_state :
          (m k : Lightning H) (st : State (OwnAndChildData H)) (v : Option (OwnAndChildData H))
          → Uplink (record m { state = st }) k v
          → Uplink m k v
      before_state m k st none u = u
      before_state m k st (some v) u = u

  -- The calls of a host, one after the other.
  unfoldable pub run : Lightning H → List Call → Rng → Outcome (Lightning H × Rng)
  run n [] rng = ok (n, rng)
  run n ((time, message) ∷ calls) rng =
      progress H n time message rng >>= λ r. run r.node calls r.rng

  -- Each call meets what the code takes for granted of it.
  unfoldable pub Obeys : ℕ → Lightning H → List Call → Rng → Type 0
  Obeys t n [] rng = Unit
  Obeys t n ((time, message) ∷ calls) rng =
      (time ≤ t)
      × Expected H n.state message time n.context
      × Whenever (λ r. Obeys (t + reach) r.node calls r.rng) (progress H n time message rng)

  -- A sound node whose host obeys never panics, and it is sound after all the calls. The clock has
  -- room for 20,000 seconds for each call and for two more.
  pub run-Sound :
      (calls : List Call) (t : ℕ) (n : Lightning H) (rng : Rng)
      → t + (length calls + 2) * reach < u64_mod
      → Sound t n
      → Obeys t n calls rng
      → Returns (λ r. Sound (t + length calls * reach) r.0) (run n calls rng)
  unfolding run Obeys
  run-Sound [] t n rng budget i o = subst (λ u. Sound u n) (omega arith) i
  run-Sound ((time, message) ∷ calls) t n rng budget i (past, e, o) =
      let (r, stepped, p) =
        Returns-eq _ (progress H n time message rng)
          (progress-Progressed t n time message rng (omega arith) past i e) in
      rw stepped (
        Returns-map _ _ (run r.node calls r.rng) (λ s h. subst (λ u. Sound u s.0) (omega arith) h)
          (run-Sound calls (t + reach) r.node r.rng (omega arith) p.sound (rw stepped at o)))
