-- ===== src/Scenarios/Schedules.antt =====
-- The theorems on windows, channels and beacons, applied to concrete data.
use holistic_framework_for_l.Base.{
  All, length, inl, add_u64, sub_u64, ℕ, ◌+◌, ◌*◌, ◌≤◌, ◌≡◌, refl, some, [], ◌∷◌, arith, Returns,
}
use holistic_framework_for_l.Heapless.Lists.{list_queue}
use holistic_framework_for_l.Lightning.Window.{beacon, child, parent, minutes, as_ms, delay}
use holistic_framework_for_l.Lightning.Window.{delay_in_gaps, delay_window, window_end}
use holistic_framework_for_l.Lightning.Window.Spacing.{Apart}
use holistic_framework_for_l.Lightning.Window.Delay.{FirstFit, delay-FirstFit}
use holistic_framework_for_l.Lightning.Windows.{Windows, push, pop_kind, next_kind}
use holistic_framework_for_l.Lightning.Upcoming.{Upcoming, next_kind-Upcoming}
use holistic_framework_for_l.Lightning.Windows.Views.{windows_of}
use holistic_framework_for_l.Lightning.Windows.Accepted.{IsValid, Accepted, grow, Settled}
use holistic_framework_for_l.Lightning.Windows.Push.{push-Accepted}
use holistic_framework_for_l.Lightning.Windows.Removal.{Without, pop_kind-Without}
use holistic_framework_for_l.Lightning.Channels.{default_channels, set_random_children_channel}
use holistic_framework_for_l.Lightning.Channels.Choice.{Chosen, set_random_children_channel-Chosen}
use holistic_framework_for_l.Lightning.Context.{BeaconInfo}
use holistic_framework_for_l.Lightning.StateMachine.Steps.{best_beacon_of}
use holistic_framework_for_l.Lightning.Beacons.{IsFirstBest, best_beacon_of-IsFirstBest}
use holistic_framework_for_l.Scenarios.{queue, window, zeros}

-- A child and, after it, a beacon.
unfoldable two_windows : Windows queue
unfolding list_queue
two_windows = record {
  queue = (window child 1500 ∷ window beacon 9000 ∷ [], omega arith, omega arith);
  clearance = 300;
}

two_windows-IsValid : IsValid queue 300 20_000 two_windows
unfolding two_windows list_queue
two_windows-IsValid = record {
  clear = refl;
  apart = ((inl (omega arith), tt), (tt, tt));
  within = (omega arith, (omega arith, tt));
}

two_windows-settled :
    All
      (λ a. Settled parent a.kind (Apart 300 (window parent 1600) a))
      (windows_of queue two_windows)
unfolding two_windows list_queue
two_windows-settled = (tt, (tt, tt))

two_windows-few : length (windows_of queue two_windows) ≤ 2
unfolding two_windows list_queue
two_windows-few = omega arith

-- A parent window displaces the child's window that it overlaps.
push-Accepted_example :
    Returns
      (Accepted queue 300
        (20_000 + 8 * grow queue 300 (window parent 1600))
        (window parent 1600)
        two_windows)
      (push queue two_windows (window parent 1600))
push-Accepted_example =
    push-Accepted queue 300 (window parent 1600) 20_000 two_windows two_windows-IsValid
      two_windows-settled (omega (arith, two_windows-few)) (omega arith) (omega arith)

pop_kind-Without_example :
    Without queue 300 20_000 beacon two_windows (pop_kind queue two_windows beacon).1
pop_kind-Without_example = pop_kind-Without queue 300 20_000 beacon two_windows two_windows-IsValid

-- The gap in front of the beacon is too short for a window that starts on a minute.
delay-FirstFit_example :
    FirstFit 300 20_000
      (as_ms minutes)
      (window child 1000)
      (window child 1500 ∷ window beacon 9000 ∷ [])
      (delay (window child 1000) (window child 1500 ∷ window beacon 9000 ∷ []) 300 minutes)
delay-FirstFit_example =
    delay-FirstFit 300 20_000 minutes (window child 1000) (omega arith) (omega arith)
      (window child 1500 ∷ window beacon 9000 ∷ []) ((omega arith, tt), (tt, tt))
      (omega arith, (omega arith, tt))

-- It goes behind the beacon.
delay-example :
    delay (window child 1000) (window child 1500 ∷ window beacon 9000 ∷ []) 300 minutes
    ≡ window child 61_000
unfolding delay delay_in_gaps delay_window add_u64 sub_u64 window_end
delay-example = refl

set_random_children_channel-Chosen_example :
    Returns (Chosen default_channels) (set_random_children_channel default_channels zeros)
set_random_children_channel-Chosen_example =
    set_random_children_channel-Chosen default_channels zeros

abbrev heard : ℕ → ℕ → BeaconInfo
heard time hops = record { time_seen = time; hops = hops }

best_beacon_of-IsFirstBest_example :
    (best : BeaconInfo) × (best_beacon_of (heard 10 3 ∷ heard 20 1 ∷ heard 30 1 ∷ []) ≡ some best)
    × IsFirstBest best (heard 10 3 ∷ heard 20 1 ∷ heard 30 1 ∷ [])
best_beacon_of-IsFirstBest_example =
    best_beacon_of-IsFirstBest (heard 10 3) (heard 20 1 ∷ heard 30 1 ∷ [])

next_kind-Upcoming_example :
    Upcoming beacon (windows_of queue two_windows) (next_kind queue two_windows beacon)
next_kind-Upcoming_example = next_kind-Upcoming queue two_windows beacon
