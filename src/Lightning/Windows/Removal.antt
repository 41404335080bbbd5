-- ===== src/Lightning/Windows/Removal.antt =====
-- What `pop`, `next`, `pop_kind` and `is_full` do to a valid queue.
use holistic_framework_for_l.Base.{
  ℕ, ◌+◌, ◌-◌, ◌≡◌, refl, ap, ◌∙◌, true, false, Option, none, some, List, [], ◌∷◌, arith, length,
  length-keep, uncons, All, Inserted-All, Inserted-Pairs, count-Inserted, ok, unwrap, ◌==◌,
}
use holistic_framework_for_l.Heapless.{read}
use holistic_framework_for_l.Lightning.Params.{max_children}
use holistic_framework_for_l.Lightning.Window.{
  WindowKind, beacon, child, parent, Window, same_kind, WindowQueue,
}
use holistic_framework_for_l.Lightning.Window.Spacing.{Apart, Apart-symm, Within}
use holistic_framework_for_l.Lightning.Windows.{
  Windows, with_queue, removed, pop, pop_kind, next, is_full,
}
use holistic_framework_for_l.Lightning.Windows.Views.{
  windows_of, Found, missing, found, find_pop-Found,
}
use holistic_framework_for_l.Lightning.Windows.Accepted.{of_kind, IsValid}

pub length-of_kind :
    (ws : List Window) → length ws ≡ of_kind beacon ws + of_kind child ws + of_kind parent ws
length-of_kind [] = refl
length-of_kind (w ∷ ws) = ground (arith, length-of_kind ws)

pub none_of_kind :
    (k : WindowKind) (ws : List Window)
    → All (λ w. same_kind w.kind k ≡ false) ws
    → of_kind k ws ≡ 0
none_of_kind k [] h = refl
none_of_kind k (w ∷ ws) h = rw (h.0, none_of_kind k ws h.1)

module _ (Q : WindowQueue) where
  pop_queue :
      (ws : Windows Q) (x : Window) (xs : List Window) (r : Option (Window × Q.Queue))
      → read Q.iter r ≡ some (x, xs)
      → (ws' : Windows Q) × (unwrap (with_queue Q ws r) ≡ ok (x, ws'))
        × (windows_of Q ws' ≡ xs)
        × (ws'.clearance ≡ ws.clearance)
  pop_queue ws x xs none e = cc
  pop_queue ws x xs (some (w, q)) e =
      let same : w ≡ x = cc in
      let rest : Q.iter q ≡ xs = cc in (record ws { queue = q }, rw same, rest, refl)

  -- `pop` takes the head of a queue that is not empty.
  pub pop-cons :
      (ws : Windows Q) (x : Window) (xs : List Window)
      → windows_of Q ws ≡ x ∷ xs
      → (ws' : Windows Q) × (pop Q ws ≡ ok (x, ws'))
        × (windows_of Q ws' ≡ xs)
        × (ws'.clearance ≡ ws.clearance)
  unfolding pop
  pop-cons ws x xs e = pop_queue ws x xs (Q.pop ws.queue) (Q.iter-pop ws.queue ∙ ap uncons e)

  pub next-cons :
      (ws : Windows Q) (x : Window) (xs : List Window)
      → windows_of Q ws ≡ x ∷ xs
      → next Q ws ≡ ok x.start
  unfolding next
  next-cons ws x xs e = rw (Q.peek-first ws.queue, e)

  -- What the removal of a window of kind `k` leaves.
  pub record Without (c t : ℕ) (k : WindowKind) (ws ws' : Windows Q) : Type 0 where
    pub valid : IsValid Q c t ws'
    pub fewer : of_kind k (windows_of Q ws') ≡ of_kind k (windows_of Q ws) - 1
    pub others :
        (j : WindowKind)
        → same_kind k j ≡ false
        → of_kind j (windows_of Q ws') ≡ of_kind j (windows_of Q ws)

  other_kind :
      (i k j : WindowKind) → same_kind i k ≡ true → same_kind k j ≡ false → same_kind i j ≡ false
  other_kind i k j h n = ground arith

  pop_kind-cases :
      (c t : ℕ) (k : WindowKind) (ws : Windows Q) (r : Option (Window × Windows Q))
      → IsValid Q c t ws
      → Found Q (λ w. same_kind w.kind k) ws r
      → Without c t k ws (removed Q ws r).1
  pop_kind-cases c t k ws none v (missing h) = record {
    valid = v;
    fewer = omega (arith, none_of_kind k _ h);
    others = λ j n. refl;
  }
  pop_kind-cases c t k ws (some (w, ws')) v (found h i e) = record {
    valid = record {
      clear = e ∙ v.clear;
      apart = (Inserted-Pairs (Apart c) (Apart-symm c) i v.apart).1;
      within = (Inserted-All (Within t) i v.within).1;
    };
    fewer = ground (arith, count-Inserted (λ a. same_kind a.kind k) i);
    others = λ j n.
        ground (arith, count-Inserted (λ a. same_kind a.kind j) i, other_kind w.kind k j h n);
  }

  -- `pop_kind` on a valid queue leaves a valid queue with one window of the kind less, if there was
  -- one, and as many of every other kind.
  pub pop_kind-Without :
      (c t : ℕ) (k : WindowKind) (ws : Windows Q)
      → IsValid Q c t ws
      → Without c t k ws (pop_kind Q ws k).1
  unfolding pop_kind
  pop_kind-Without c t k ws v = pop_kind-cases c t k ws _ v (find_pop-Found Q _ ws)

  pub is_full-eq :
      (ws : Windows Q) → is_full Q ws ≡ (of_kind child (windows_of Q ws) == max_children)
  unfolding is_full
  is_full-eq ws = rw length-keep
