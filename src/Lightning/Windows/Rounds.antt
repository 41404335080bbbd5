-- ===== src/Lightning/Windows/Rounds.antt =====
-- The branches of the loop of `Windows::push`, after an overlapping window has been taken out.
use holistic_framework_for_l.Base.{
  ℕ, ◌+◌, ◌<◌, ◌≡◌, ap, ◌∙◌, inl, inr, Memᴰ, arith, length, length-Inserted, Inserted, All-map,
  All-Inserted, Pairs-Inserted, mem-Inserted, Inserted-mem, Inserted-mem_self, count-Inserted,
  u64_mod, ok, ◌>>=◌, Returns,
}
use holistic_framework_for_l.Lightning.Params.{max_windows}
use holistic_framework_for_l.Lightning.Window.{
  WindowKind, beacon, child, parent, Window, milliseconds, delay, same_kind, overlaps, WindowQueue,
}
use holistic_framework_for_l.Lightning.Window.Spacing.{
  finish, Apart, Apart-symm, Within, duration-bounds, IsSpaced-of_Apart, Apart-overlaps,
}
use holistic_framework_for_l.Lightning.Window.Delay.{moved, FirstFit, delay-FirstFit}
use holistic_framework_for_l.Lightning.Windows.{Windows, push_queue}
use holistic_framework_for_l.Lightning.Windows.Views.{windows_of, push_queue_room}
use holistic_framework_for_l.Lightning.Windows.Accepted.{
  Settled, IsValid, Accepted, Ready, grow, overlapping, Taken,
}

Settled-beacon : (P : Type 0) (k : WindowKind) → Settled k beacon P
Settled-beacon P beacon = tt
Settled-beacon P child = tt
Settled-beacon P parent = tt

module _ (Q : WindowQueue) (c : ℕ) (w : Window) (t : ℕ) (ws ws' : Windows Q) (a : Window)
    (k : Taken Q c w t ws ws' a) (hw : Within t w)
    (budget : t + grow Q c w + grow Q c w < u64_mod) where
  -- The window taken out goes back: nothing has changed but the order.
  back :
      (q : Windows Q) × (push_queue Q ws' a ≡ ok q)
      × IsValid Q c t q
      × ((x : Window) → Memᴰ x (windows_of Q ws) → Memᴰ x (windows_of Q q))
      × (length (windows_of Q q) < max_windows)
      × Inserted a (windows_of Q ws') (windows_of Q q)
  back =
      let v = k.ready.valid in
      let (q, e, i, s) = push_queue_room Q ws' a k.ready.room in
      (
        q,
        e,
        record {
          clear = s ∙ v.clear;
          apart = Pairs-Inserted (Apart c) (Apart-symm c) i k.away v.apart;
          within = All-Inserted (Within t) i k.fits v.within;
        },
        λ x m. elim (Inserted-mem k.from m) [
          | inl same ↦ rw same (Inserted-mem_self i)
          | inr left ↦ mem-Inserted i left
        ],
        omega (arith, length-Inserted i, k.spare),
        i,
      )

  -- A child window yields to a parent window.
  pub child_yields :
      w.kind ≡ child → a.kind ≡ parent → Returns (Accepted Q c t w ws) (push_queue Q ws' a)
  child_yields wc ap =
      let (q, e, v, keeps, _, i) = back in
      rw e (record {
        valid = v;
        kept = λ x _ _ m. keeps x m;
        counts = λ k'. omega (
          arith,
          count-Inserted (λ x. same_kind x.kind k') i,
          count-Inserted (λ x. same_kind x.kind k') k.from,
        );
        nonempty = omega (arith, length-Inserted i);
        parent_enters = λ p. cc;
        child_enters = λ _. inr (a, ap, Inserted-mem_self k.from, k.hit);
      })

  -- Two windows of a kind that must not overlap.
  pub clash : Apart c w a → ⊥
  clash h = let free = Apart-overlaps c t w a (omega arith) hw k.fits h in let hit = k.hit in cc

  -- A parent window drives out a child window.
  pub parent_takes :
      (T : ℕ) (new : Windows Q)
      → w.kind ≡ parent
      → Accepted Q c T w ws' new
      → Accepted Q c T w ws new
  parent_takes T new wp r = record {
    valid = r.valid;
    kept = λ x b far m. elim (Inserted-mem k.from m) [
      | inl same ↦ absurd (clash (rw same at (far wp)))
      | inr left ↦ r.kept x b far left
    ];
    counts = λ k'. omega (arith, r.counts k', count-Inserted (λ x. same_kind x.kind k') k.from);
    nonempty = r.nonempty;
    parent_enters = r.parent_enters;
    child_enters = λ wc. cc;
  }

  -- A beacon window makes way for the new one: it moves behind it, to the first place that is free.
  abbrev pub shifted : Window
  shifted = delay (moved a (finish w + c)) (windows_of Q ws') c milliseconds

  shifted-FirstFit : FirstFit c t 1 (moved a (finish w + c)) (windows_of Q ws') shifted
  shifted-FirstFit =
      let long = duration-bounds a.kind in
      let v = k.ready.valid in
      delay-FirstFit c t milliseconds (moved a (finish w + c)) (omega arith) (omega arith) _
        (IsSpaced-of_Apart c _ (Q.sorted ws'.queue) v.apart) v.within

  shifted-Within : Within (t + grow Q c w) shifted
  shifted-Within =
      let f = shifted-FirstFit in
      let long = duration-bounds a.kind in
      let kind : shifted.kind ≡ a.kind = ap (λ x. x.kind) f.placed in
      rw kind (omega (arith, f.near))

  shifted-Apart : Apart c w shifted
  shifted-Apart = let f = shifted-FirstFit in inl (rw f.placed (omega arith))

  -- What the loop goes on with.
  pub makes_way :
      a.kind ≡ beacon
      → (q : Windows Q) × (push_queue Q ws' shifted ≡ ok q)
        × Ready Q c w (t + grow Q c w) q
        × (overlapping Q c w q ≡ overlapping Q c w ws')
        × Inserted shifted (windows_of Q ws') (windows_of Q q)
  makes_way ab =
      let f = shifted-FirstFit in
      let v = k.ready.valid in
      let (q, e, i, s) = push_queue_room Q ws' shifted k.ready.room in
      let kind : shifted.kind ≡ beacon = ap (λ x. x.kind) f.placed ∙ ab in
      let within = All-map (Within t) (Within (t + grow Q c w)) (λ x h. omega arith) _ v.within in
      let free =
        Apart-overlaps c (t + grow Q c w) w shifted (omega arith) (omega arith) shifted-Within
          shifted-Apart in
      (
        q,
        e,
        record {
          valid = record {
            clear = s ∙ v.clear;
            apart = Pairs-Inserted (Apart c) (Apart-symm c) i f.apart v.apart;
            within = All-Inserted (Within (t + grow Q c w)) i shifted-Within within;
          };
          settled = All-Inserted _ i (rw kind (Settled-beacon _ w.kind)) k.ready.settled;
          room = omega (arith, length-Inserted i, k.spare);
        },
        omega (arith, rw free at (count-Inserted (overlaps c w) i)),
        i,
      )

  pub beacon_moves :
      (T : ℕ) (q new : Windows Q)
      → a.kind ≡ beacon
      → Inserted shifted (windows_of Q ws') (windows_of Q q)
      → Accepted Q c T w q new
      → Accepted Q c T w ws new
  beacon_moves T q new ab i r = record {
    valid = r.valid;
    kept = λ x b far m. elim (Inserted-mem k.from m) [
      | inl same ↦ absurd (b (rw same ab))
      | inr left ↦ r.kept x b far (mem-Inserted i left)
    ];
    counts = λ k'.
        let kind : same_kind shifted.kind k' ≡ same_kind a.kind k' =
          ap (λ x. same_kind x.kind k') (shifted-FirstFit).placed in
        ground (
          arith,
          r.counts k',
          count-Inserted (λ x. same_kind x.kind k') i,
          count-Inserted (λ x. same_kind x.kind k') k.from,
        );
    nonempty = r.nonempty;
    parent_enters = r.parent_enters;
    child_enters = λ wc. elim (r.child_enters wc) [
      | inl enters ↦ inl enters
      | inr (p, pk, m, h) ↦ elim (Inserted-mem i m) [
        | inl same ↦
            (let kind : shifted.kind ≡ beacon = ap (λ x. x.kind) (shifted-FirstFit).placed ∙ ab in
              let also : p.kind ≡ beacon = ap (λ x. x.kind) same ∙ kind in cc)
        | inr left ↦ inr (p, pk, mem-Inserted k.from left, h)
      ]
    ];
  }

  -- A new beacon window makes way itself.
  pub beacon_fits :
      w.kind ≡ beacon
      → Returns (Accepted Q c (t + grow Q c w) w ws) (
          push_queue Q ws' a >>= λ q.
          push_queue Q q (delay w (windows_of Q q) q.clearance milliseconds))
  beacon_fits wb =
      let (q, e, v, keeps, room, j) = back in
      let long = duration-bounds w.kind in
      let f =
        delay-FirstFit c t milliseconds w (omega arith) (omega arith) _
          (IsSpaced-of_Apart c _ (Q.sorted q.queue) v.apart) v.within in
      let r = delay w (windows_of Q q) c milliseconds in
      let (new, e', i, s) = push_queue_room Q q r room in
      let kind : r.kind ≡ w.kind = ap (λ x. x.kind) f.placed in
      let fits : Within (t + grow Q c w) r = rw kind (omega (arith, f.near)) in
      let within = All-map (Within t) (Within (t + grow Q c w)) (λ x h. omega arith) _ v.within in
      rw (e, v.clear, e')
        (record {
          valid = record {
            clear = s ∙ v.clear;
            apart = Pairs-Inserted (Apart c) (Apart-symm c) i f.apart v.apart;
            within = All-Inserted (Within (t + grow Q c w)) i fits within;
          };
          kept = λ x _ _ m. mem-Inserted i (keeps x m);
          counts = λ k'.
              let same : same_kind r.kind k' ≡ same_kind w.kind k' =
                ap (λ z. same_kind z k') kind in
              ground (
                arith,
                count-Inserted (λ x. same_kind x.kind k') i,
                count-Inserted (λ x. same_kind x.kind k') j,
                count-Inserted (λ x. same_kind x.kind k') k.from,
              );
          nonempty = omega (arith, length-Inserted i);
          parent_enters = λ p. cc;
          child_enters = λ p. cc;
        })
