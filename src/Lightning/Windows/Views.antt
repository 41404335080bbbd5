-- ===== src/Lightning/Windows/Views.antt =====
-- What the calls of the sorted list come to, as cases on their results.
use holistic_framework_for_l.Base.{
  ◌<◌, ◌≡◌, refl, sym, Bool, true, false, Option, none, some, List, length, take_first,
  take_first-Inserted, take_first-none, Inserted, All, ok,
}
use holistic_framework_for_l.Heapless.{read}
use holistic_framework_for_l.Lightning.Params.{max_windows}
use holistic_framework_for_l.Lightning.Window.{Window, overlaps, WindowQueue}
use holistic_framework_for_l.Lightning.Windows.{
  Windows, with_queue, push_queue, pop_overlapping_window,
}

module _ (Q : WindowQueue) where
  abbrev pub windows_of : Windows Q → List Window
  windows_of ws = Q.iter ws.queue

  -- What a search takes out of a queue.
  pub data Found (p : Window → Bool) (ws : Windows Q) : Option (Window × Windows Q) → Type 0 where
    missing : All (λ w. p w ≡ false) (windows_of ws) → Found p ws none
    found :
        {w : Window} {ws' : Windows Q}
        → p w ≡ true
        → Inserted w (windows_of ws') (windows_of ws)
        → ws'.clearance ≡ ws.clearance
        → Found p ws (some (w, ws'))

  find_pop-cases :
      (p : Window → Bool) (ws : Windows Q) (r : Option (Window × Q.Queue))
      → read Q.iter r ≡ take_first p (windows_of ws)
      → Found p ws (with_queue Q ws r)
  find_pop-cases p ws none e = missing (take_first-none p _ (sym e))
  find_pop-cases p ws (some (w, q)) e =
      let (h, i) = take_first-Inserted p _ (sym e) in found h i refl

  pub find_pop-Found :
      (p : Window → Bool) (ws : Windows Q) → Found p ws (with_queue Q ws (Q.find_pop p ws.queue))
  find_pop-Found p ws = find_pop-cases p ws _ (Q.iter-find_pop p ws.queue)

  pub pop_overlapping-Found :
      (ws : Windows Q) (w : Window)
      → Found (overlaps ws.clearance w) ws (pop_overlapping_window Q ws w)
  unfolding pop_overlapping_window
  pop_overlapping-Found ws w = find_pop-Found (overlaps ws.clearance w) ws

  -- A push into a queue with room.
  pub push_queue_room :
      (ws : Windows Q) (w : Window)
      → length (windows_of ws) < max_windows
      → (ws' : Windows Q) × (push_queue Q ws w ≡ ok ws')
        × Inserted w (windows_of ws) (windows_of ws')
        × (ws'.clearance ≡ ws.clearance)
  unfolding push_queue
  push_queue_room ws w h =
      let (q, e, i) = Q.push_room w ws.queue h in (record ws { queue = q }, rw e, i, refl)
