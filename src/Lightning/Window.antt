-- ===== src/Lightning/Window.antt =====
-- A window and its delay (components/protocol/lightning/src/window.rs). The queue that holds the
-- windows is in `Lightning.Windows`.
pub mod Spacing
pub mod Delay
use holistic_framework_for_l.Base.{
  ℕ, zero, suc, ◌+◌, ◌-◌, ◌*◌, ◌/◌, ◌%◌, Bool, true, false, not, ◌&&◌, ◌||◌, Option, none, some,
  List, [], ◌∷◌, length, keep, find, Outcome, ok, panic, diverges, ◌>>=◌, ◌>>◌, unwrap, assert,
  add_u64, sub_u64, mul_u64, leb, ◌==◌, if◌then◌else◌,
}
use holistic_framework_for_l.Heapless.{SortedQueue}
use holistic_framework_for_l.Lightning.Params.{
  TimeMs, ms_per_min, max_windows, max_children, random_connect_range_ms, connect_response_delay_ms,
  response_listen_duration_ms, send_delay, data_receive_window,
}

pub data WindowKind : Type 0 where
  beacon child parent : WindowKind

-- `WindowKind::duration`
abbrev pub kind_duration : WindowKind → TimeMs
kind_duration beacon =
    random_connect_range_ms
    + connect_response_delay_ms
    + response_listen_duration_ms
    + 2 * send_delay
kind_duration parent = response_listen_duration_ms + send_delay
kind_duration child = data_receive_window + send_delay

pub record Window : Type 0 where
  pub kind : WindowKind
  pub start : TimeMs

abbrev pub duration : Window → TimeMs
duration w = kind_duration w.kind

unfoldable pub window_end : Window → TimeMs
unfolding add_u64
window_end w = add_u64 w.start (duration w)

pub data WindowDelayIncrement : Type 0 where
  milliseconds minutes : WindowDelayIncrement

abbrev pub as_ms : WindowDelayIncrement → TimeMs
as_ms milliseconds = 1
as_ms minutes = ms_per_min

-- `u64::div_ceil`
abbrev pub div_ceil : ℕ → ℕ → ℕ
div_ceil a b = if a % b == 0 then a / b else a / b + 1

-- The closure of `Window::delay`; `saturating_sub` is the subtraction of ℕ.
unfoldable pub delay_window : TimeMs → TimeMs → TimeMs → TimeMs
unfolding add_u64 mul_u64
delay_window start increment time =
    add_u64 start (mul_u64 increment (div_ceil (time - start) increment))

-- `RangeInclusive::contains`
abbrev pub in_range : ℕ → ℕ → ℕ → Bool
in_range lo hi x = leb lo x && leb x hi

-- The loop over the gaps between windows, and what follows it.
unfoldable pub delay_in_gaps : Window → TimeMs → TimeMs → TimeMs → List Window → Window
delay_in_gaps w increment clearance previous_end [] = record w {
  start = delay_window w.start increment (add_u64 previous_end clearance);
}
delay_in_gaps w increment clearance previous_end (x ∷ xs) =
    let lo = add_u64 previous_end clearance in
    let hi = sub_u64 x.start clearance in
    let delayed_window_start = delay_window w.start increment lo in
    let rest = delay_in_gaps w increment clearance (window_end x) xs in
    if in_range lo hi delayed_window_start
      && in_range lo hi (add_u64 delayed_window_start (duration w))
    then record w { start = delayed_window_start }
    else rest

-- `Window::delay`, on the windows that the queue's iterator yields.
unfoldable pub delay : Window → List Window → TimeMs → WindowDelayIncrement → Window
delay w [] clearance increment = w
delay w (x ∷ xs) clearance increment =
    if leb (add_u64 (window_end w) clearance) x.start
    then w
    else delay_in_gaps w (as_ms increment) clearance (window_end x) xs

-- `Window::get_offset_min`
unfoldable pub get_offset_min : Window → TimeMs → Outcome ℕ
unfolding sub_u64
get_offset_min w time =
    let offset = sub_u64 w.start time in
    assert (offset % ms_per_min == 0) >> ok (offset / ms_per_min)

-- `mem::discriminant` of two kinds
abbrev pub same_kind : WindowKind → WindowKind → Bool
same_kind beacon beacon = true
same_kind child child = true
same_kind parent parent = true
same_kind _ _ = false

-- The test of `pop_overlapping_window`.
unfoldable pub overlaps : TimeMs → Window → Window → Bool
unfolding add_u64 window_end
overlaps clearance new_window w = not (
    leb (add_u64 (window_end new_window) clearance) w.start
    || leb (add_u64 (window_end w) clearance) new_window.start)

abbrev pub WindowQueue : Type 1
WindowQueue = SortedQueue Window (λ w. w.start) max_windows
