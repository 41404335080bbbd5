-- ===== src/Lightning/Invariant/Payloads.antt =====
-- What a node collects to send or to hand on: its children's data, then its own.
use holistic_framework_for_l.Base.{
  ℕ, ◌≡◌, ◌∙◌, ap, Option, none, some, List, [], ◌∷◌, ◌++◌, arith, length, Returns,
}
use mathlib.Core.List.{append-nil}
use holistic_framework_for_l.Base.{sym}
use holistic_framework_for_l.Lightning.Params.{NodeId, Payload}
use holistic_framework_for_l.Lightning.Message.{NodeData}
use holistic_framework_for_l.Lightning.Context.{Containers, OwnAndChildData, Context}
use holistic_framework_for_l.Lightning.Invariant.{Connected}
use holistic_framework_for_l.Lightning.StateMachine.Steps.{add_payload}

-- The node's own entry, if it has a payload.
abbrev pub own_data : NodeId → Option Payload → List NodeData
own_data id none = []
own_data id (some d) = record { source = id; payload = d } ∷ []

module _ (H : Containers) where
  abbrev pub child_data_of : Context H → List NodeData
  child_data_of ctx = H.child_data.as_slice ctx.child_data

  -- The vector holds the children's data and the node's own.
  abbrev pub Collected : NodeId → Option Payload → Context H → OwnAndChildData H → Type 0
  Collected id p ctx v = H.own_and_child_data.as_slice v ≡ child_data_of ctx ++ own_data id p

  -- The invariant does not look at the children's data.
  pub with_child_data :
      (b c p t : ℕ) (ctx : Context H) (v : H.child_data.Vec)
      → Connected H b c p t ctx
      → Connected H b c p t (record ctx { child_data = v })
  with_child_data b c p t ctx v h = record {
    valid = h.valid;
    children_known = h.children_known;
    hops_known = h.hops_known;
    one_beacon = h.one_beacon;
    one_parent = h.one_parent;
    few_children = h.few_children;
    room_for_child = h.room_for_child;
    parent_known = h.parent_known;
  }

  -- There is room for the children's data.
  pub collect-room :
      (ctx : Context H)
      → (v : OwnAndChildData H) × (H.own_and_child_data.from_slice (child_data_of ctx) ≡ some v)
        × (H.own_and_child_data.as_slice v ≡ child_data_of ctx)
  collect-room ctx =
      let few = H.child_data.bounded ctx.child_data in
      H.own_and_child_data.from_slice_room (child_data_of ctx) (omega (arith, few))

  -- There is a place more than the children's data can fill.
  pub add_payload-returns :
      (id : NodeId) (p : Option Payload) (ctx : Context H) (v : OwnAndChildData H)
      → H.own_and_child_data.as_slice v ≡ child_data_of ctx
      → Returns (Collected id p ctx) (add_payload H id p v)
  unfolding add_payload
  add_payload-returns id none ctx v e = e ∙ sym (append-nil (child_data_of ctx))
  add_payload-returns id (some d) ctx v e =
      let few = H.child_data.bounded ctx.child_data in
      let (w, pushed, all) =
        H.own_and_child_data.push_room (record { source = id; payload = d }) v
          (omega (arith, ap length e, few)) in
      rw pushed (all ∙ ap (λ l. l ++ own_data id (some d)) e)
