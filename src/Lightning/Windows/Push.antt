-- ===== src/Lightning/Windows/Push.antt =====
-- `Windows::push` ends, does not panic, and leaves a queue whose windows keep the clearance.
use holistic_framework_for_l.Base.{
  ℕ, zero, suc, ◌+◌, ◌*◌, ◌≤◌, ◌<◌, ◌≡◌, refl, ap, ◌∙◌, ◌≢◌, Option, none, some, arith, length, All,
  count-le-length, u64_mod, add_u64, add_u64_exact, Outcome, ◌>>=◌, Returns, Returns-map,
}
use holistic_framework_for_l.Lightning.Params.{max_windows}
use holistic_framework_for_l.Lightning.Window.{
  WindowKind, beacon, child, parent, Window, window_end, milliseconds, delay, overlaps, WindowQueue,
}
use holistic_framework_for_l.Lightning.Window.Spacing.{finish, Apart, Within, window_end_exact}
use holistic_framework_for_l.Lightning.Window.Delay.{moved}
use holistic_framework_for_l.Lightning.Windows.{
  Windows, push_queue, pop_overlapping_window, resolve, push_round, push_loop, push,
}
use holistic_framework_for_l.Lightning.Windows.Views.{
  windows_of, Found, missing, found, pop_overlapping-Found,
}
use holistic_framework_for_l.Lightning.Windows.Accepted.{
  Settled, IsValid, Accepted, Ready, Ready-mono, grow, overlapping, Accepted-mono, enters-Accepted,
  Taken, found-Taken,
}
use holistic_framework_for_l.Lightning.Windows.Rounds.{
  child_yields, clash, parent_takes, makes_way, beacon_moves, beacon_fits,
}

Settled_same : (P : Type 0) {j l m : WindowKind} → j ≡ m → l ≡ m → m ≢ beacon → Settled j l P → P
Settled_same P {j = child} {l = child} e f b h = h
Settled_same P {j = parent} {l = parent} e f b h = h
Settled_same P e f b h = absurd (ground arith)

module _ (Q : WindowQueue) (c : ℕ) (w : Window) (again : Windows Q → Window → Outcome (Windows Q))
    (t last : ℕ) (hl : t + grow Q c w ≤ last) (ws : Windows Q) (hw : Within t w)
    (budget : t + grow Q c w + grow Q c w < u64_mod)
    (ih : (q : Windows Q)
      → Ready Q c w (t + grow Q c w) q
      → suc (overlapping Q c w q) ≡ overlapping Q c w ws
      → Returns (Accepted Q c last w q) (again q w)) where
  shifted-eq :
      (ws' : Windows Q) (a : Window)
      → ws'.clearance ≡ c
      → delay
          (moved a (add_u64 (window_end w) ws'.clearance))
          (windows_of Q ws')
          ws'.clearance
          milliseconds
        ≡ delay (moved a (finish w + c)) (windows_of Q ws') c milliseconds
  shifted-eq ws' a e =
      ap (λ z. delay (moved a (add_u64 (window_end w) z)) (windows_of Q ws') z milliseconds) e
      ∙ rw (window_end_exact w (omega arith), add_u64_exact (finish w) c (omega arith))

  beacon-Accepted :
      (ws' : Windows Q) (a : Window)
      → Taken Q c w t ws ws' a
      → a.kind ≡ beacon
      → Returns (Accepted Q c last w ws) (
          push_queue Q ws' (
            delay
              (moved a (add_u64 (window_end w) ws'.clearance))
              (windows_of Q ws')
              ws'.clearance
              milliseconds)
          >>= λ q. again q w)
  beacon-Accepted ws' a k ab =
      let (q, e, r, same, i) = makes_way Q c w t ws ws' a k hw budget ab in
      rw (shifted-eq ws' a k.ready.valid.clear, e)
        (Returns-map (Accepted Q c last w q) (Accepted Q c last w ws) (again q w)
          (λ new. beacon_moves Q c w t ws ws' a k hw budget last q new ab i)
          (ih q r (omega (arith, k.fewer))))

  lifted :
      (u : ℕ) (m : Outcome (Windows Q))
      → u ≤ last
      → Returns (Accepted Q c u w ws) m
      → Returns (Accepted Q c last w ws) m
  lifted u m h r =
      Returns-map (Accepted Q c u w ws) (Accepted Q c last w ws) m
        (λ new. Accepted-mono Q c w u last ws new h) r

  resolve-Accepted :
      (ws' : Windows Q) (a : Window) (j l : WindowKind)
      → Taken Q c w t ws ws' a
      → w.kind ≡ j
      → a.kind ≡ l
      → Returns (Accepted Q c last w ws) (resolve Q again j l ws' w a)
  unfolding resolve
  resolve-Accepted ws' a beacon beacon k wj al = beacon-Accepted ws' a k al
  resolve-Accepted ws' a child beacon k wj al = beacon-Accepted ws' a k al
  resolve-Accepted ws' a parent beacon k wj al = beacon-Accepted ws' a k al
  resolve-Accepted ws' a beacon child k wj al =
      lifted (t + grow Q c w) _ hl (beacon_fits Q c w t ws ws' a k hw budget wj)
  resolve-Accepted ws' a beacon parent k wj al =
      lifted (t + grow Q c w) _ hl (beacon_fits Q c w t ws ws' a k hw budget wj)
  resolve-Accepted ws' a child parent k wj al =
      lifted t _ (omega arith) (child_yields Q c w t ws ws' a k hw budget wj al)
  resolve-Accepted ws' a parent child k wj al =
      Returns-map (Accepted Q c last w ws') (Accepted Q c last w ws) (again ws' w)
        (λ new. parent_takes Q c w t ws ws' a k hw budget last new wj)
        (ih ws' (Ready-mono Q c w t _ ws' (omega arith) k.ready) k.fewer)
  resolve-Accepted ws' a child child k wj al =
      clash Q c w t ws ws' a k hw budget (Settled_same _ wj al (λ e. cc) k.agree)
  resolve-Accepted ws' a parent parent k wj al =
      clash Q c w t ws ws' a k hw budget (Settled_same _ wj al (λ e. cc) k.agree)

  round-Accepted :
      (r : Option (Window × Windows Q))
      → Ready Q c w t ws
      → Found Q (overlaps ws.clearance w) ws r
      → Returns (Accepted Q c last w ws) (push_round Q again ws w r)
  unfolding push_round
  round-Accepted none r (missing free) =
      lifted t _ (omega arith)
        (enters-Accepted Q c w t ws r hw (omega arith) (rw r.valid.clear at free))
  round-Accepted (some (a, ws')) r (found h i k) =
      resolve-Accepted ws' a w.kind a.kind
        (found-Taken Q c w t ws ws' a r (rw r.valid.clear at h) i k) refl refl

rounds-le : (n g : ℕ) → n < max_windows → suc n * g ≤ 8 * g
rounds-le n g h = grind arith

module _ (Q : WindowQueue) (c : ℕ) (w : Window) where
  -- The clock after so many rounds.
  abbrev pub horizon : ℕ → ℕ → ℕ
  horizon t fuel = t + fuel * grow Q c w

  push_loop-Accepted :
      (fuel t : ℕ) (ws : Windows Q)
      → overlapping Q c w ws < fuel
      → Ready Q c w t ws
      → Within t w
      → horizon t fuel + grow Q c w < u64_mod
      → Returns (Accepted Q c (horizon t fuel) w ws) (push_loop Q fuel ws w)
  unfolding push_loop
  push_loop-Accepted zero t ws h r hw budget = absurd (omega arith)
  push_loop-Accepted (suc fuel) t ws h r hw budget =
      round-Accepted Q c w (push_loop Q fuel) t (horizon t (suc fuel)) (omega arith) ws hw
        (omega arith)
        (λ q rq e.
          Returns-map (Accepted Q c (horizon (t + grow Q c w) fuel) w q) _ (push_loop Q fuel q w)
            (λ new. Accepted-mono Q c w _ _ q new (omega arith))
            (push_loop-Accepted fuel (t + grow Q c w) q (omega arith) rq (omega arith)
              (omega arith)))
        (pop_overlapping_window Q ws w) r (pop_overlapping-Found Q ws w)

  -- `push` returns whenever the windows keep the clearance, there is room for one more, the clock has
  -- room, and no window of the new one's kind overlaps it (two beacons may overlap). The windows
  -- still keep the clearance. No parent or child window has moved, and none is missing but those
  -- that a new parent window overlaps. A new parent window is in the queue; a new child window is,
  -- or overlaps a parent window.
  pub push-Accepted :
      (t : ℕ) (ws : Windows Q)
      → IsValid Q c t ws
      → All (λ a. Settled w.kind a.kind (Apart c w a)) (windows_of Q ws)
      → length (windows_of Q ws) < max_windows
      → Within t w
      → t + 9 * grow Q c w < u64_mod
      → Returns (Accepted Q c (t + 8 * grow Q c w) w ws) (push Q ws w)
  unfolding push
  push-Accepted t ws v s room hw budget =
      let n = length (windows_of Q ws) in
      let few = rounds-le n (grow Q c w) room in
      Returns-map (Accepted Q c (horizon t (suc n)) w ws) _ (push_loop Q (suc n) ws w)
        (λ new. Accepted-mono Q c w _ _ ws new (omega arith))
        (push_loop-Accepted (suc n) t ws
          (omega (arith, count-le-length (overlaps c w) (windows_of Q ws)))
          (record { valid = v; settled = s; room = room }) hw (omega arith))
