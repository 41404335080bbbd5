-- ===== src/Lightning/StateMachine/Steps.antt =====
-- What the transitions share: results, the window queue of a node, and the choice of a beacon
-- (components/protocol/lightning/src/state_machine.rs).
use holistic_framework_for_l.Base.{
  ℕ, ◌+◌, ◌%◌, Bool, true, false, Option, none, some, List, [], ◌∷◌, Outcome, ok, ◌>>=◌, unwrap,
  mul_u64, Rng, next_u32, ltb, if◌then◌else◌,
}
use holistic_framework_for_l.Lightning.Params.{TimeMs, NodeId, Hops, Payload, ms_per_min}
use holistic_framework_for_l.Lightning.Channels.{set_random_children_channel}
use holistic_framework_for_l.Lightning.Window.{Window}
use holistic_framework_for_l.Lightning.Windows
use holistic_framework_for_l.Lightning.Windows.{Windows}
use holistic_framework_for_l.Lightning.States.{State, idle}
use holistic_framework_for_l.Lightning.Context.{BeaconInfo, Containers, OwnAndChildData, Lightning}

-- The closure that `reduce` folds with, over the beacons after the first.
abbrev pub best_of : BeaconInfo → List BeaconInfo → BeaconInfo
best_of best_beacon [] = best_beacon
best_of best_beacon (b ∷ bs) = best_of (if ltb b.hops best_beacon.hops then b else best_beacon) bs

-- `Iterator::reduce` with that closure.
abbrev pub best_beacon_of : List BeaconInfo → Option BeaconInfo
best_beacon_of [] = none
best_beacon_of (b ∷ bs) = some (best_of b bs)

-- `u8::checked_add(1)`
abbrev pub checked_suc : Hops → Option Hops
checked_suc hops = if ltb hops 255 then some (hops + 1) else none

abbrev pub is_nil {ℓ} : {A : Type ℓ} → List A → Bool
is_nil [] = true
is_nil (x ∷ xs) = false

-- `next_window_min as TimeMs * MS_PER_MIN`
abbrev pub min_to_ms : ℕ → TimeMs
min_to_ms m = mul_u64 m ms_per_min

-- `rng.next_u32() as TimeMs % range`
abbrev pub random_below : ℕ → Rng → TimeMs
random_below n rng = next_u32 rng % n

module _ (H : Containers) where
  -- What a transition yields: the next state, the node, and the generator.
  abbrev pub Next : Type 0
  Next = State (OwnAndChildData H) × Lightning H × Rng

  abbrev pub Handler : Type 0
  Handler = Lightning H → TimeMs → Rng → Outcome Next

  abbrev pub with_windows : Lightning H → Windows H.windows → Lightning H
  with_windows n ws = record n { context = record n.context { windows = ws } }

  -- `self.context.windows.push(w)`
  unfoldable pub push_window : Lightning H → Window → Outcome (Lightning H)
  push_window n w = do ws ← Windows.push H.windows n.context.windows w; ok (with_windows n ws)

  -- `State::Idle { end: self.context.windows.next() }`
  unfoldable pub to_idle : Lightning H → Rng → Outcome Next
  to_idle n rng = do end ← Windows.next H.windows n.context.windows; ok (idle end, n, rng)

  -- `self.context.channels.set_random_children_channel(&mut rng)`
  unfoldable pub choose_children_channel : Lightning H → Rng → Outcome (Lightning H)
  choose_children_channel n rng = do
    chs ← set_random_children_channel n.context.channels rng
    ok (record n { context = record n.context { channels = chs } })

  -- `if let Some(d) = self.payload.take() { data.push(..).unwrap() }`; the caller drops the payload.
  unfoldable pub add_payload :
      NodeId → Option Payload → OwnAndChildData H → Outcome (OwnAndChildData H)
  add_payload id none collected = ok collected
  add_payload id (some d) collected =
      unwrap (H.own_and_child_data.push (record { source = id; payload = d }) collected)
