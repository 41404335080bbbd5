-- ===== src/Simulator/Network/Events.antt =====
-- The events of a simulation, seen from the nodes that they are for: what a node has to be doing when
-- its event is due
-- (components/simulator/src/sim.rs and main.rs).
use holistic_framework_for_l.Base.{
  ℕ, zero, suc, ◌≡◌, ◌≢◌, refl, sym, ap, ◌∙◌, inl, inr, Bool, Bool-cases, Option, none, some, List,
  [], ◌∷◌, arith, length, get_elem?, set, All, HasValue, ◌==◌,
}
use holistic_framework_for_l.Api.{Action}
use holistic_framework_for_l.Lightning.Message.{Message}
use holistic_framework_for_l.Lightning.Context.{Containers, OwnAndChildData}
use holistic_framework_for_l.Lightning.States.{idle, LightningAction, get_action}
use holistic_framework_for_l.Lightning.Listening.{Listens}
use holistic_framework_for_l.Lightning.Heard.{HeardIn}
use holistic_framework_for_l.Simulator.{
  MessageKind, transmit, receive, MessageWrapper, Event, ProtocolWrapper, channel_of,
}
use holistic_framework_for_l.Simulator.Loop.{sent, received, event_of}
use holistic_framework_for_l.Simulator.Medium.{spoil}
use holistic_framework_for_l.Simulator.Owners.{owned}
use holistic_framework_for_l.Simulator.Network.{lightning}
use holistic_framework_for_l.Simulator.Network.Addressed.{Hears}
use holistic_framework_for_l.Simulator.Network.Nodes.{IsNode}

module _ {A : Type 0} where
  pub get_elem?-set_other :
      (xs : List A) (i j : ℕ) (x : A) → i ≢ j → get_elem? (set xs i x) j ≡ get_elem? xs j
  get_elem?-set_other [] i j x n = refl
  get_elem?-set_other (y ∷ xs) zero zero x n = absurd (n refl)
  get_elem?-set_other (y ∷ xs) zero (suc j) x n = refl
  get_elem?-set_other (y ∷ xs) (suc i) zero x n = refl
  get_elem?-set_other (y ∷ xs) (suc i) (suc j) x n =
      get_elem?-set_other xs i j x (λ e. n (ap suc e))

  pub get_elem?-set_same :
      (xs : List A) (i : ℕ) (x y : A) → get_elem? (set xs i x) i ≡ some y → x ≡ y
  get_elem?-set_same [] i x y h = cc
  get_elem?-set_same (z ∷ xs) zero x y h = cc
  get_elem?-set_same (z ∷ xs) (suc i) x y h = get_elem?-set_same xs i x y h

  pub All-set : (P : A → Type 0) (xs : List A) (i : ℕ) (x : A) → P x → All P xs → All P (set xs i x)
  All-set P [] i x h a = tt
  All-set P (y ∷ xs) zero x h a = (h, a.1)
  All-set P (y ∷ xs) (suc i) x h a = (a.0, All-set P xs i x h a.1)

  pub length-set : (xs : List A) (i : ℕ) (x : A) → length (set xs i x) ≡ length xs
  length-set [] i x = refl
  length-set (y ∷ xs) zero x = refl
  length-set (y ∷ xs) (suc i) x = ap suc (length-set xs i x)

-- None of the events is the node's.
pub owned-none :
    {Message : Type 0} (id : ℕ) (es : List (Event Message))
    → owned id es ≡ 0
    → All (λ e. id ≢ e.node_id) es
owned-none id [] h = tt
owned-none id (e ∷ es) h = elim (Bool-cases (e.node_id == id)) [
  | inl own ↦ absurd (ground arith)
  | inr other ↦ (λ same. ground arith, owned-none id es (omega (arith, rw other at h)))
]

module _ (H : Containers) (Coordinates : Type 0)
    (check_visibility : ProtocolWrapper (lightning H) Coordinates
      → ProtocolWrapper (lightning H) Coordinates
      → Bool) where
  abbrev pub Wrapper : Type 0
  Wrapper = ProtocolWrapper (lightning H) Coordinates

  abbrev pub Carried : Type 0
  Carried = Option (MessageWrapper (Message (OwnAndChildData H)))

  abbrev pub NotIdle : Wrapper → Type 0
  NotIdle w = (end : ℕ) → w.protocol.state ≡ idle end → ⊥

  -- What an event at a time means to its node: a call, which an idle node has asked for; the start
  -- of a transmission; or the arrival of a message, if the node listens.
  abbrev pub Meets : Wrapper → ℕ → Carried → Type 0
  Meets w time none = (end : ℕ) → w.protocol.state ≡ idle end → time ≡ end
  Meets w time (some m) = elim m.kind [
    | transmit ↦ NotIdle w
    | receive ↦ HasValue w.receiving_channel
  ]

  abbrev pub Fits : List Wrapper → ℕ → ℕ → Carried → Type 0
  Fits nodes id time message = (w : Wrapper) → get_elem? nodes id ≡ some w → Meets w time message

  -- A node that listens has an action that is to listen.
  tuned-Listens :
      (t : ℕ) (w : Wrapper)
      → IsNode H Coordinates check_visibility t w
      → HasValue w.receiving_channel
      → Listens H w.protocol.state
  tuned-Listens t w n (c, e) = by_action (get_action w.protocol.state) refl (sym n.tuned ∙ e)
    where
      by_action :
          (a : LightningAction (OwnAndChildData H))
          → get_action w.protocol.state ≡ a
          → channel_of (lightning H) Coordinates a ≡ some c
          → Listens H w.protocol.state
      by_action (Action.receive end channel) same h = (end, channel, same)
      by_action (Action.wait end) same h = cc
      by_action (Action.transmit channel message delay) same h = cc
      by_action Action.none same h = cc

  pub Listens-NotIdle : (w : Wrapper) → Listens H w.protocol.state → NotIdle w
  unfolding get_action
  Listens-NotIdle w (end', c, e) end s =
      let both : Action.wait end ≡ Action.receive end' c = sym (ap get_action s) ∙ e in cc

  pub spoil-Fits :
      (nodes : List Wrapper) (id time : ℕ) (hit : Bool) (m : Carried)
      → Fits nodes id time m
      → Fits nodes id time (spoil hit m)
  spoil-Fits nodes id time hit none h = h
  spoil-Fits nodes id time hit (some m) h = h

  pub Hears-Fits :
      (nodes : List Wrapper) (id time : ℕ) (m : MessageWrapper (Message (OwnAndChildData H)))
      → m.kind ≡ receive
      → Hears (lightning H) Coordinates check_visibility nodes id
      → Fits nodes id time (some m)
  Hears-Fits nodes id time m k h w e = rw k (h w e)

  -- What the node has heard when it is called, and the time of the call, are as it expects.
  pub Meets-call :
      (t time : ℕ) (w : Wrapper) (message : Carried)
      → IsNode H Coordinates check_visibility t w
      → sent message ≡ none
      → Meets w time message
      → HeardIn H (received message) w.protocol.state
        × ((end : ℕ) → w.protocol.state ≡ idle end → time ≡ end)
  Meets-call t time w none n s m = (tt, m)
  Meets-call t time w (some m) n s h = by_kind m.kind refl
    where
      by_kind :
          (k : MessageKind)
          → m.kind ≡ k
          → HeardIn H (received (some m)) w.protocol.state
            × ((end : ℕ) → w.protocol.state ≡ idle end → time ≡ end)
      by_kind transmit k = let nothing = rw k at s in cc
      by_kind receive k =
          let listens = tuned-Listens t w n (rw k at h) in
          (
            rw k (elim (Bool-cases m.is_corrupt) [
              | inl corrupt ↦ rw corrupt tt
              | inr intact ↦ rw intact listens
            ]),
            λ end i. absurd (Listens-NotIdle w listens end i),
          )

  -- A node that transmits is not idle.
  pub Meets-sent :
      (time : ℕ) (w : Wrapper) (message : Carried) (what : ℕ × Message (OwnAndChildData H))
      → sent message ≡ some what
      → Meets w time message
      → NotIdle w
  Meets-sent time w none what s h = cc
  Meets-sent time w (some m) what s h = by_kind m.kind refl
    where
      by_kind : (k : MessageKind) → m.kind ≡ k → NotIdle w
      by_kind transmit k = rw k at h
      by_kind receive k = let nothing = rw k at s in cc

  -- The event that follows a call.
  pub event_of-Meets :
      (w : Wrapper) (time id : ℕ) (action : LightningAction (OwnAndChildData H))
      → action ≡ get_action w.protocol.state
      → Meets w (event_of time id action).time (event_of time id action).message
  unfolding event_of get_action
  event_of-Meets w time id (Action.wait end) e =
      λ end' i. let both : Action.wait end ≡ Action.wait end' = e ∙ ap get_action i in cc
  event_of-Meets w time id (Action.receive end channel) e =
      λ end' i. let both : Action.receive end channel ≡ Action.wait end' = e ∙ ap get_action i in cc
  event_of-Meets w time id (Action.transmit channel message delay) e = λ end' i.
      let both : Action.transmit channel message delay ≡ Action.wait end' = e ∙ ap get_action i in
      cc
  event_of-Meets w time id Action.none e =
      λ end' i. let both : Action.none ≡ Action.wait end' = e ∙ ap get_action i in cc
