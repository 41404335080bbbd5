-- ===== src/Lightning/Windows.antt =====
-- The window queue (`Windows` in components/protocol/lightning/src/window.rs). The list that holds
-- the windows is `heapless`'s, an argument of every function here.
pub mod Views
pub mod Accepted
pub mod Rounds
pub mod Push
pub mod Removal
use holistic_framework_for_l.Base.{
  ℕ, zero, suc, Bool, true, false, Option, none, some, length, keep, find, Outcome, ok, panic,
  diverges, ◌>>=◌, unwrap, add_u64, ◌==◌,
}
use holistic_framework_for_l.Lightning.Params.{TimeMs, max_children}
use holistic_framework_for_l.Lightning.Window.{
  WindowKind, beacon, child, parent, Window, window_end, milliseconds, delay, same_kind, overlaps,
  WindowQueue,
}

module _ (Q : WindowQueue) where
  pub record Windows : Type 0 where
    pub queue : Q.Queue
    pub clearance : TimeMs

  -- `Windows::new`
  unfoldable pub new : TimeMs → Windows
  new clearance = record { queue = Q.new; clearance = clearance }

  -- The result of a removal, with the queue put back in place.
  abbrev pub with_queue : Windows → Option (Window × Q.Queue) → Option (Window × Windows)
  with_queue ws none = none
  with_queue ws (some (w, q)) = some (w, record ws { queue = q })

  -- `self.queue.push(w).unwrap()`
  unfoldable pub push_queue : Windows → Window → Outcome Windows
  push_queue ws w = do q ← unwrap (Q.push w ws.queue); ok (record ws { queue = q })

  unfoldable pub pop_overlapping_window : Windows → Window → Option (Window × Windows)
  pop_overlapping_window ws new_window =
      with_queue ws (Q.find_pop (overlaps ws.clearance new_window) ws.queue)

  -- The `match` in the loop of `push`, on the kinds of the new window and of the one that it
  -- overlaps, which has been taken out. `again` is the next round of the loop.
  unfoldable pub resolve :
      (Windows → Window → Outcome Windows)
      → WindowKind
      → WindowKind
      → Windows
      → Window
      → Window
      → Outcome Windows
  resolve again _ beacon ws new_window overlapping_window =
      let moved = record overlapping_window {
        start = add_u64 (window_end new_window) ws.clearance;
      } in
      do
        ws' ← push_queue ws (delay moved (Q.iter ws.queue) ws.clearance milliseconds)
        again ws' new_window
  resolve again beacon _ ws new_window overlapping_window = do
    ws' ← push_queue ws overlapping_window
    push_queue ws' (delay new_window (Q.iter ws'.queue) ws'.clearance milliseconds)
  resolve again child parent ws new_window overlapping_window = push_queue ws overlapping_window
  resolve again parent child ws new_window overlapping_window = again ws new_window
  resolve again parent parent ws new_window overlapping_window = panic
  resolve again child child ws new_window overlapping_window = panic

  -- One round of the loop of `push`.
  unfoldable pub push_round :
      (Windows → Window → Outcome Windows)
      → Windows
      → Window
      → Option (Window × Windows)
      → Outcome Windows
  push_round again ws new_window none = push_queue ws new_window
  push_round again ws new_window (some (w, ws')) =
      resolve again new_window.kind w.kind ws' new_window w

  -- The loop of `push`, for so many rounds.
  unfoldable pub push_loop : ℕ → Windows → Window → Outcome Windows
  push_loop zero ws new_window = diverges
  push_loop (suc fuel) ws new_window =
      push_round (push_loop fuel) ws new_window (pop_overlapping_window ws new_window)

  -- `Windows::push`: no round is repeated more often than there are windows.
  unfoldable pub push : Windows → Window → Outcome Windows
  push ws new_window = push_loop (suc (length (Q.iter ws.queue))) ws new_window

  -- `Windows::pop`
  unfoldable pub pop : Windows → Outcome (Window × Windows)
  pop ws = unwrap (with_queue ws (Q.pop ws.queue))

  -- The found window and the queue after `pop_kind`.
  abbrev pub removed : Windows → Option (Window × Windows) → Option Window × Windows
  removed ws none = (none, ws)
  removed ws (some (w, ws')) = (some w, ws')

  -- `Windows::pop_kind`
  unfoldable pub pop_kind : Windows → WindowKind → Option Window × Windows
  pop_kind ws kind = removed ws (with_queue ws (Q.find_pop (λ w. same_kind w.kind kind) ws.queue))

  -- `Windows::next`
  unfoldable pub next : Windows → Outcome TimeMs
  next ws = do w ← unwrap (Q.peek ws.queue); ok w.start

  abbrev pub start_of : Option Window → Option TimeMs
  start_of none = none
  start_of (some w) = some w.start

  -- `Windows::next_kind`
  unfoldable pub next_kind : Windows → WindowKind → Option TimeMs
  next_kind ws kind = start_of (find (λ w. same_kind w.kind kind) (Q.iter ws.queue))

  -- `Windows::is_full`
  unfoldable pub is_full : Windows → Bool
  is_full ws = length (keep (λ w. same_kind w.kind child) (Q.iter ws.queue)) == max_children
