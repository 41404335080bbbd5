-- ===== src/Lightning/Invariant.antt =====
-- What holds of a node in each state, and what the host has to provide for the transition out of it
-- (components/protocol/lightning/src/state_machine.rs).
pub mod Pushes
pub mod Payloads
pub mod Joining
pub mod Serving
pub mod Answers
pub mod Acks
pub mod FirstWindows
pub mod Bounds
pub mod Listening
pub mod Preserved
pub mod Runs
use holistic_framework_for_l.Base.{
  ℕ, ◌+◌, ◌≤◌, ◌<◌, ◌≡◌, ◌≢◌, ◌⊎◌, Option, none, some, List, [], ◌∷◌, length, All, HasValue,
}
use holistic_framework_for_l.Lightning.Params.{
  TimeMs, max_children, max_windows, max_descendants, max_beacons_to_collect, min_window_clearance,
}
use holistic_framework_for_l.Lightning.Message.{Message}
use holistic_framework_for_l.Lightning.Window.{beacon, child, parent, Window}
use holistic_framework_for_l.Lightning.Window.Spacing.{Apart}
use holistic_framework_for_l.Lightning.Windows.{Windows}
use holistic_framework_for_l.Lightning.Windows.Views.{windows_of}
use holistic_framework_for_l.Lightning.Windows.Accepted.{Settled, of_kind, IsValid}
use holistic_framework_for_l.Lightning.States.{
  State, reset, listen_for_beacons, wait_before_finding_parent, wait_for_best_beacon,
  listen_for_best_beacon, delay_connect, send_connect, wait_for_connect_ack, listen_for_connect_ack,
  idle, send_beacon, listen_for_data, send_data_ack, send_data, listen_for_data_ack,
  listen_for_connect, delay_connect_ack, send_connect_ack,
}
use holistic_framework_for_l.Lightning.Context.{Containers, OwnAndChildData, Context, Lightning}
use holistic_framework_for_l.Lightning.StateMachine.Serving.{adjusted}

-- How much later than the present, and than all windows so far, a transition may place a window:
-- 255 minutes and a few seconds.
abbrev pub reach : ℕ
reach = 20_000_000

module _ (H : Containers) where
  abbrev pub windows_in : Context H → List Window
  windows_in ctx = windows_of H.windows ctx.windows

  abbrev pub how_many : Context H → ℕ × ℕ × ℕ
  how_many ctx = (
    of_kind beacon (windows_in ctx),
    of_kind child (windows_in ctx),
    of_kind parent (windows_in ctx),
  )

  -- No window is scheduled.
  pub record Searching (ctx : Context H) : Type 0 where
    pub clear : ctx.windows.clearance ≡ min_window_clearance
    pub no_windows : windows_in ctx ≡ []

  -- A parent has been found.
  pub record Connecting (ctx : Context H) : Type 0 where
    pub searching : Searching ctx
    pub parent_known : HasValue ctx.channels.parent
    pub hops_known : HasValue ctx.hops_to_sink

  -- The node is connected, or a sink. So many windows of each kind are not in the queue because
  -- they are being served.
  pub record Connected (beacons children parents : ℕ) (t : ℕ) (ctx : Context H) : Type 0 where
    pub valid : IsValid H.windows min_window_clearance t ctx.windows
    pub children_known : HasValue ctx.channels.children
    pub hops_known : HasValue ctx.hops_to_sink
    pub one_beacon : of_kind beacon (windows_in ctx) + beacons ≤ 1
    pub one_parent : of_kind parent (windows_in ctx) + parents ≤ 1
    pub few_children : of_kind child (windows_in ctx) + children ≤ max_children
    -- a node that sends beacons has room for a child
    pub room_for_child :
        (of_kind child (windows_in ctx) + children < max_children)
        ⊎ (of_kind beacon (windows_in ctx) + beacons ≡ 0)
    pub parent_known :
        (of_kind parent (windows_in ctx) + parents ≡ 0) ⊎ HasValue ctx.channels.parent

  -- The queue's first window, at the given time.
  abbrev pub DueAt : TimeMs → Context H → Type 0
  DueAt time ctx = (w : Window) × (ws : List Window) × (windows_in ctx ≡ w ∷ ws) × (w.start ≡ time)

  -- A child may be taken on, and the queue is not empty.
  abbrev pub Open : Context H → Type 0
  Open ctx = (of_kind child (windows_in ctx) < max_children) × (0 < length (windows_in ctx))

  -- The invariant, by state: `t` bounds the ends of all windows.
  abbrev pub Inv : State (OwnAndChildData H) → ℕ → Context H → Type 0
  Inv reset t ctx = Unit
  Inv (listen_for_beacons _ _) t ctx = Searching ctx
  Inv (wait_before_finding_parent _) t ctx = Searching ctx
  Inv (wait_for_best_beacon _ _) t ctx = Searching ctx
  Inv (listen_for_best_beacon _ _ _) t ctx = Searching ctx
  Inv (delay_connect _ _) t ctx = Connecting ctx
  Inv (send_connect _ _ _) t ctx = Connecting ctx
  Inv (wait_for_connect_ack _ _) t ctx = Connecting ctx
  Inv (listen_for_connect_ack _ _ _) t ctx = Connecting ctx
  Inv (idle end) t ctx = Connected 0 0 0 t ctx × DueAt end ctx
  Inv (send_beacon _ _ _ _) t ctx = Connected 1 0 0 t ctx
  Inv (listen_for_data _ _) t ctx = Connected 0 1 0 t ctx
  Inv (send_data_ack w _ m) t ctx = Connected 0 1 0 t ctx × (w.kind ≡ child) × (m < 256)
  Inv (send_data _ _) t ctx = Connected 0 0 1 t ctx
  Inv (listen_for_data_ack _ _) t ctx = Connected 0 0 1 t ctx
  Inv (listen_for_connect _ _) t ctx = Connected 0 0 0 t ctx × Open ctx
  Inv (delay_connect_ack _ _) t ctx = Connected 0 0 0 t ctx × Open ctx
  Inv (send_connect_ack w _ m _) t ctx =
      Connected 0 0 0 t ctx × Open ctx × (w.kind ≡ child) × (m < 256)

  -- The child window, once its time on the air is known, does not run into another child's.
  abbrev pub ChildFits : Window → ℕ → TimeMs → Context H → Type 0
  ChildFits w m time ctx =
      All (λ a. Settled child a.kind (Apart min_window_clearance (adjusted H w m time) a))
        (windows_in ctx)

  -- What the host provides: a message only where the node listens, the call at the time that was
  -- asked for, a u8 where the format has one; and what the code takes for granted: room in the
  -- buffers, a hop count below 255, a child window that still fits, and a queue that is not empty
  -- when a child is given up.
  abbrev pub Expected :
      State (OwnAndChildData H) → Option (Message (OwnAndChildData H)) → TimeMs → Context H → Type 0
  Expected (listen_for_beacons _ _) (some (Message.beacon hops _ _)) time ctx =
      (hops ≡ 0)
      ⊎ (length (H.connect_beacons.as_slice ctx.potential_connect_beacons) < max_beacons_to_collect)
  Expected (listen_for_beacons _ _) _ time ctx = Unit
  Expected (listen_for_best_beacon best _ _) (some (Message.beacon hops _ _)) time ctx =
      (hops ≢ best) ⊎ (hops < 255)
  Expected (listen_for_best_beacon _ _ _) _ time ctx = Unit
  Expected (listen_for_connect_ack _ _ _) (some (Message.connect_ack m _)) time ctx = m < 256
  Expected (listen_for_connect_ack _ _ _) _ time ctx = Unit
  Expected (listen_for_data_ack _ _) (some (Message.data_ack m)) time ctx = m < 256
  Expected (listen_for_data_ack _ _) _ time ctx = Unit
  Expected (listen_for_data _ _) (some (Message.own_data d)) time ctx =
      length (H.child_data.as_slice ctx.child_data) + length (H.own_and_child_data.as_slice d)
      ≤ max_descendants
  Expected (listen_for_data _ _) _ time ctx = 0 < length (windows_in ctx)
  Expected (listen_for_connect _ _) _ time ctx = Unit
  Expected (idle end) none time ctx = time ≡ end
  Expected (send_connect_ack w _ m _) none time ctx = ChildFits w m time ctx
  Expected (send_data_ack w _ m) none time ctx = ChildFits w m time ctx
  Expected _ none time ctx = Unit
  Expected _ (some _) time ctx = ⊥
