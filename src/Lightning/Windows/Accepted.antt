-- ===== src/Lightning/Windows/Accepted.antt =====
-- What `Windows::push` is to make of a queue, and what is known when it has taken out a window.
use holistic_framework_for_l.Base.{
  ℕ, suc, ◌+◌, ◌≤◌, ◌<◌, ◌≡◌, ◌∙◌, ◌≢◌, ◌⊎◌, inl, true, false, List, ◌∷◌, Memᴰ, arith, length,
  length-Inserted, Inserted, All, All-map, All-map₂, All-Inserted, Inserted-All, Pairs,
  Pairs-Inserted, Inserted-Pairs, mem-Inserted, Inserted-mem_self, count, count-Inserted, u64_mod,
  Returns,
}
use holistic_framework_for_l.Lightning.Params.{max_windows}
use holistic_framework_for_l.Lightning.Window.{
  WindowKind, beacon, child, parent, Window, same_kind, overlaps, WindowQueue,
}
use holistic_framework_for_l.Lightning.Window.Spacing.{
  Apart, Apart-symm, Within, longest, overlaps-false,
}
use holistic_framework_for_l.Lightning.Windows.{Windows, push_queue}
use holistic_framework_for_l.Lightning.Windows.Views.{windows_of, push_queue_room}

-- A new window must not overlap one of its own kind, unless both are beacons: the code calls that
-- unreachable.
abbrev pub Settled : WindowKind → WindowKind → Type 0 → Type 0
Settled child child P = P
Settled parent parent P = P
Settled _ _ P = Unit

-- How many windows of a kind there are.
abbrev pub of_kind : WindowKind → List Window → ℕ
of_kind k = count (λ a. same_kind a.kind k)

module _ (Q : WindowQueue) (c : ℕ) where
  -- A queue whose windows keep the clearance and end by `t`.
  pub record IsValid (t : ℕ) (ws : Windows Q) : Type 0 where
    pub clear : ws.clearance ≡ c
    pub apart : Pairs (Apart c) (windows_of Q ws)
    pub within : All (Within t) (windows_of Q ws)

  -- What a push of `w` makes of a queue: a valid queue, in which no parent or child window has
  -- been moved, and none is missing unless `w` is a parent window that overlaps it. A parent window
  -- is in; a child window is in, or it overlaps a parent window.
  pub record Accepted (t : ℕ) (w : Window) (old new : Windows Q) : Type 0 where
    pub valid : IsValid t new
    pub kept :
        (a : Window)
        → a.kind ≢ beacon
        → (w.kind ≡ parent → Apart c w a)
        → Memᴰ a (windows_of Q old)
        → Memᴰ a (windows_of Q new)
    pub counts : (k : WindowKind) → of_kind k (windows_of Q new) ≤ of_kind k (w ∷ windows_of Q old)
    pub nonempty : 0 < length (windows_of Q new)
    pub parent_enters : w.kind ≡ parent → Memᴰ w (windows_of Q new)
    pub child_enters :
        w.kind ≡ child
        → Memᴰ w (windows_of Q new)
          ⊎ ((a : Window) × (a.kind ≡ parent) × Memᴰ a (windows_of Q old) × (overlaps c w a ≡ true))

module _ (Q : WindowQueue) (c : ℕ) (w : Window) where
  pub Accepted-mono :
      (t u : ℕ) (old new : Windows Q) → t ≤ u → Accepted Q c t w old new → Accepted Q c u w old new
  Accepted-mono t u old new h r = record {
    valid = record {
      clear = r.valid.clear;
      apart = r.valid.apart;
      within = All-map (Within t) (Within u) (λ a b. omega arith) _ r.valid.within;
    };
    kept = r.kept;
    counts = r.counts;
    nonempty = r.nonempty;
    parent_enters = r.parent_enters;
    child_enters = r.child_enters;
  }

  pub record Ready (t : ℕ) (ws : Windows Q) : Type 0 where
    pub valid : IsValid Q c t ws
    pub settled : All (λ a. Settled w.kind a.kind (Apart c w a)) (windows_of Q ws)
    pub room : length (windows_of Q ws) < max_windows

  pub Ready-mono : (t u : ℕ) (ws : Windows Q) → t ≤ u → Ready t ws → Ready u ws
  Ready-mono t u ws h r = record {
    valid = record {
      clear = r.valid.clear;
      apart = r.valid.apart;
      within = All-map (Within t) (Within u) (λ a b. omega arith) _ r.valid.within;
    };
    settled = r.settled;
    room = r.room;
  }

  abbrev pub grow : ℕ
  grow = c + longest + 1

  abbrev pub overlapping : Windows Q → ℕ
  overlapping ws = count (overlaps c w) (windows_of Q ws)

  -- No window overlaps: the new one goes in.
  pub enters-Accepted :
      (t : ℕ) (ws : Windows Q)
      → Ready t ws
      → Within t w
      → t + c < u64_mod
      → All (λ a. overlaps c w a ≡ false) (windows_of Q ws)
      → Returns (Accepted Q c t w ws) (push_queue Q ws w)
  enters-Accepted t ws r hw ht free =
      let (ws', e, i, k) = push_queue_room Q ws w r.room in
      let v = r.valid in
      let away =
        All-map₂ _ _ (Apart c w) (λ a n x. overlaps-false c t w a ht hw n x) _ v.within free in
      rw e (record {
        valid = record {
          clear = k ∙ v.clear;
          apart = Pairs-Inserted (Apart c) (Apart-symm c) i away v.apart;
          within = All-Inserted (Within t) i hw v.within;
        };
        kept = λ a _ _ m. mem-Inserted i m;
        counts = λ k'. omega (arith, count-Inserted (λ x. same_kind x.kind k') i);
        nonempty = omega (arith, length-Inserted i);
        parent_enters = λ _. Inserted-mem_self i;
        child_enters = λ _. inl (Inserted-mem_self i);
      })

  -- What is known once an overlapping window `a` has been taken out of `ws`, leaving `ws'`.
  pub record Taken (t : ℕ) (ws ws' : Windows Q) (a : Window) : Type 0 where
    pub ready : Ready t ws'
    pub hit : overlaps c w a ≡ true
    pub from : Inserted a (windows_of Q ws') (windows_of Q ws)
    pub away : All (Apart c a) (windows_of Q ws')
    pub fits : Within t a
    pub agree : Settled w.kind a.kind (Apart c w a)
    pub spare : suc (length (windows_of Q ws')) < max_windows
    pub fewer : suc (overlapping ws') ≡ overlapping ws

  pub found-Taken :
      (t : ℕ) (ws ws' : Windows Q) (a : Window)
      → Ready t ws
      → overlaps c w a ≡ true
      → Inserted a (windows_of Q ws') (windows_of Q ws)
      → ws'.clearance ≡ ws.clearance
      → Taken t ws ws' a
  found-Taken t ws ws' a r h i k =
      let v = r.valid in
      let (away, rest) = Inserted-Pairs (Apart c) (Apart-symm c) i v.apart in
      let (fits, within) = Inserted-All (Within t) i v.within in
      let (agree, settled) = Inserted-All (λ a. Settled w.kind a.kind (Apart c w a)) i r.settled in
      let longer = length-Inserted i in
      let more = count-Inserted (overlaps c w) i in
      record {
        ready = record {
          valid = record { clear = k ∙ v.clear; apart = rest; within = within };
          settled = settled;
          room = omega (arith, r.room);
        };
        hit = h;
        from = i;
        away = away;
        fits = fits;
        agree = agree;
        spare = omega (arith, r.room);
        fewer = ground arith;
      }
