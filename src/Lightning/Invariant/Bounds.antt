-- ===== src/Lightning/Invariant/Bounds.antt =====
-- The invariant of a node holds for later bounds on its windows.
use holistic_framework_for_l.Base.{ℕ, ◌≤◌, arith, All-map}
use holistic_framework_for_l.Lightning.Window.Spacing.{Within}
use holistic_framework_for_l.Lightning.Context.{Containers, OwnAndChildData, Context}
use holistic_framework_for_l.Lightning.States.{
  State, reset, listen_for_beacons, wait_before_finding_parent, wait_for_best_beacon,
  listen_for_best_beacon, delay_connect, send_connect, wait_for_connect_ack, listen_for_connect_ack,
  idle, send_beacon, listen_for_data, send_data_ack, send_data, listen_for_data_ack,
  listen_for_connect, delay_connect_ack, send_connect_ack,
}
use holistic_framework_for_l.Lightning.StateMachine.Steps.{Next}
use holistic_framework_for_l.Lightning.Invariant.{Connected, Inv}

module _ (H : Containers) where
  -- A queue that is not empty is due at some time, which `Idle` waits for.
  abbrev pub Holds : ℕ → Next H → Type 0
  Holds t r = Inv H r.0 t r.1.context

  pub Connected-mono :
      (b c p t u : ℕ) (ctx : Context H) → t ≤ u → Connected H b c p t ctx → Connected H b c p u ctx
  Connected-mono b c p t u ctx h r = record {
    valid = record {
      clear = r.valid.clear;
      apart = r.valid.apart;
      within = All-map (Within t) (Within u) (λ a b'. omega arith) _ r.valid.within;
    };
    children_known = r.children_known;
    hops_known = r.hops_known;
    one_beacon = r.one_beacon;
    one_parent = r.one_parent;
    few_children = r.few_children;
    room_for_child = r.room_for_child;
    parent_known = r.parent_known;
  }

  pub Inv-mono :
      (st : State (OwnAndChildData H)) (t u : ℕ) (ctx : Context H)
      → t ≤ u
      → Inv H st t ctx
      → Inv H st u ctx
  Inv-mono reset t u ctx h i = i
  Inv-mono (listen_for_beacons _ _) t u ctx h i = i
  Inv-mono (wait_before_finding_parent _) t u ctx h i = i
  Inv-mono (wait_for_best_beacon _ _) t u ctx h i = i
  Inv-mono (listen_for_best_beacon _ _ _) t u ctx h i = i
  Inv-mono (delay_connect _ _) t u ctx h i = i
  Inv-mono (send_connect _ _ _) t u ctx h i = i
  Inv-mono (wait_for_connect_ack _ _) t u ctx h i = i
  Inv-mono (listen_for_connect_ack _ _ _) t u ctx h i = i
  Inv-mono (idle end) t u ctx h i = (Connected-mono 0 0 0 t u ctx h i.0, i.1)
  Inv-mono (send_beacon _ _ _ _) t u ctx h i = Connected-mono 1 0 0 t u ctx h i
  Inv-mono (listen_for_data _ _) t u ctx h i = Connected-mono 0 1 0 t u ctx h i
  Inv-mono (send_data_ack w _ m) t u ctx h i = (Connected-mono 0 1 0 t u ctx h i.0, i.1, i.2)
  Inv-mono (send_data _ _) t u ctx h i = Connected-mono 0 0 1 t u ctx h i
  Inv-mono (listen_for_data_ack _ _) t u ctx h i = Connected-mono 0 0 1 t u ctx h i
  Inv-mono (listen_for_connect _ _) t u ctx h i = (Connected-mono 0 0 0 t u ctx h i.0, i.1)
  Inv-mono (delay_connect_ack _ _) t u ctx h i = (Connected-mono 0 0 0 t u ctx h i.0, i.1)
  Inv-mono (send_connect_ack w _ m _) t u ctx h i =
      (Connected-mono 0 0 0 t u ctx h i.0, i.1, i.2, i.3)

  -- The bound on the windows may grow.
  pub Holds-mono : (t u : ℕ) (r : Next H) → t ≤ u → Holds t r → Holds u r
  Holds-mono t u r h i = Inv-mono r.0 t u r.1.context h i
