-- ===== src/Simulator/Collisions.antt =====
-- What a collision does to a message (`forward_message` in components/simulator/src/sim.rs).
use holistic_framework_for_l.Base.{
  ℕ, ◌≡◌, Bool, true, false, not, ◌&&◌, ◌||◌, some, List, [], ◌∷◌, get_elem?, All, if◌then◌else◌,
}
use holistic_framework_for_l.Api.{Protocol}
use holistic_framework_for_l.Simulator.{Event, ProtocolWrapper}
use holistic_framework_for_l.Simulator.Medium.{does_not_overlap, arrives_on, spoil}

module _ (P : Protocol) (Coordinates : Type 0)
    (check_visibility : ProtocolWrapper P Coordinates → ProtocolWrapper P Coordinates → Bool) where
  -- The sender is visible from all recipients.
  abbrev pub AllVisible :
      ProtocolWrapper P Coordinates → List (ProtocolWrapper P Coordinates) → List ℕ → Type 0
  AllVisible sender nodes = All (λ r.
      (node : ProtocolWrapper P Coordinates) × (get_elem? nodes r ≡ some node)
      × (check_visibility sender node ≡ true))

  -- Whether an arrival on the channel overlaps the transmission: the events that overlap stand in front,
  -- and the first that does not ends the search.
  abbrev pub collides : ℕ → ℕ → List (Event P.Message) → Bool
  collides departure_time channel [] = false
  collides departure_time channel (e ∷ es) =
      not (does_not_overlap departure_time e)
      && (arrives_on channel e.message || collides departure_time channel es)

  -- The events, with the first arrival on the channel corrupt.
  abbrev pub first_spoiled : ℕ → List (Event P.Message) → List (Event P.Message)
  first_spoiled channel [] = []
  first_spoiled channel (e ∷ es) =
      if arrives_on channel e.message
      then record e { message = spoil true e.message } ∷ es
      else e ∷ first_spoiled channel es

  -- The events and the recipients that the search for collisions leaves.
  abbrev pub after_collisions :
      ℕ → ℕ → List (Event P.Message) → List ℕ → List (Event P.Message) × List ℕ
  after_collisions departure_time channel es rs =
      if collides departure_time channel es then (first_spoiled channel es, []) else (es, rs)
