-- ===== src/Lightning/Upcoming.antt =====
-- What `Windows::next_kind` and `Lightning::next_data_transmission` answer (window.rs and lightning.rs
-- of components/protocol/lightning/src).
use holistic_framework_for_l.Base.{
  ℕ, ◌≤◌, ◌<◌, ◌≡◌, inl, inr, Bool-cases, true, false, Option, none, some, List, [], ◌∷◌, arith,
  All, Pairs, Inserted, here, there, find, Returns, unwrap,
}
use holistic_framework_for_l.Lightning.Window.{WindowKind, parent, Window, same_kind, WindowQueue}
use holistic_framework_for_l.Lightning.Windows.{Windows, start_of, next_kind}
use holistic_framework_for_l.Lightning.Windows.Views.{windows_of}
use holistic_framework_for_l.Lightning.Windows.Accepted.{of_kind}
use holistic_framework_for_l.Lightning.Windows.Removal.{none_of_kind}
use holistic_framework_for_l.Lightning.Node.{next_data_transmission}
use holistic_framework_for_l.Lightning.Context.{Containers, Lightning}

-- No window of the kind starts before `t`.
abbrev pub NotBefore : WindowKind → ℕ → Window → Type 0
NotBefore k t w = same_kind w.kind k ≡ true → t ≤ w.start

-- The start of the earliest window of the kind, if there is one.
pub data Upcoming (k : WindowKind) (ws : List Window) : Option ℕ → Type 0 where
  without : All (λ w. same_kind w.kind k ≡ false) ws → Upcoming k ws none
  earliest :
      (w : Window) (others : List Window)
      → Inserted w others ws
      → same_kind w.kind k ≡ true
      → All (NotBefore k w.start) ws
      → Upcoming k ws (some w.start)

later_windows :
    (k : WindowKind) (w : Window) (ws : List Window)
    → All (λ v. w.start ≤ v.start) ws
    → All (NotBefore k w.start) ws
later_windows k w [] h = tt
later_windows k w (v ∷ ws) h = (λ own. h.0, later_windows k w ws h.1)

behind_other :
    (k : WindowKind) (v : Window) (ws : List Window) (r : Option ℕ)
    → same_kind v.kind k ≡ false
    → Upcoming k ws r
    → Upcoming k (v ∷ ws) r
behind_other k v ws _ h (without a) = without (h, a)
behind_other k v ws _ h (earliest w others i own a) =
    earliest w (v ∷ others) (there i) own (λ e. ground (arith, h, e), a)

found-Upcoming :
    (Q : WindowQueue) (k : WindowKind) (ws : List Window)
    → Pairs (λ x y. x.start ≤ y.start) ws
    → Upcoming k ws (start_of Q (find (λ w. same_kind w.kind k) ws))
found-Upcoming Q k [] s = without tt
found-Upcoming Q k (w ∷ ws) s = elim (Bool-cases (same_kind w.kind k)) [
  | inl own ↦ rw own (earliest w ws here own (λ e. omega arith, later_windows k w ws s.0))
  | inr other ↦ rw other (behind_other k w ws _ other (found-Upcoming Q k ws s.1))
]

module _ (Q : WindowQueue) where
  -- `next_kind` returns the start of the earliest window of the kind, or nothing if the queue has no
  -- window of the kind.
  pub next_kind-Upcoming :
      (ws : Windows Q) (k : WindowKind) → Upcoming k (windows_of Q ws) (next_kind Q ws k)
  unfolding next_kind
  next_kind-Upcoming ws k = found-Upcoming Q k (windows_of Q ws) (Q.sorted ws.queue)

unwrap-Upcoming :
    (k : WindowKind) (ws : List Window) (r : Option ℕ)
    → 0 < of_kind k ws
    → Upcoming k ws r
    → Returns (λ t. Upcoming k ws (some t)) (unwrap r)
unwrap-Upcoming k ws none h (without a) = absurd (omega (arith, none_of_kind k ws a))
unwrap-Upcoming k ws (some t) h u = u

-- The next transmission of data of a node that has a parent window is at the start of its earliest
-- parent window.
pub next_data_transmission-Upcoming :
    (H : Containers) (n : Lightning H)
    → 0 < of_kind parent (windows_of H.windows n.context.windows)
    → Returns
        (λ t. Upcoming parent (windows_of H.windows n.context.windows) (some t))
        (next_data_transmission H n)
unfolding next_data_transmission
next_data_transmission-Upcoming H n h =
    unwrap-Upcoming parent _ _ h (next_kind-Upcoming H.windows n.context.windows parent)
