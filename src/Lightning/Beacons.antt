-- ===== src/Lightning/Beacons.antt =====
-- The choice of a beacon in `ListenForBeacons`
-- (components/protocol/lightning/src/state_machine.rs, lines 74 to 95).
use holistic_framework_for_l.Base.{
  ◌≤◌, ◌<◌, ◌≡◌, refl, ap, ◌∙◌, inl, inr, some, List, [], ◌∷◌, ◌++◌, arith, All, All-map,
  Bool-cases, ltb,
}
use mathlib.Core.List.{append_assoc}
use mathlib.Core.Path.{subst}
use holistic_framework_for_l.Base.{sym, All-append}
use holistic_framework_for_l.Lightning.Context.{BeaconInfo}
use holistic_framework_for_l.Lightning.StateMachine.Steps.{best_of, best_beacon_of}

-- The first of the beacons with the fewest hops.
pub record IsFirstBest (best : BeaconInfo) (beacons : List BeaconInfo) : Type 0 where
  pub before : List BeaconInfo
  pub after : List BeaconInfo
  pub among : beacons ≡ before ++ best ∷ after
  pub fewer : All (λ b. best.hops < b.hops) before
  pub fewest : All (λ b. best.hops ≤ b.hops) after

-- The beacons that have been passed over since the best one so far come behind it.
best_of-IsFirstBest :
    (b : BeaconInfo) (skipped bs : List BeaconInfo)
    → All (λ c. b.hops ≤ c.hops) skipped
    → ((best_of b bs).hops ≤ b.hops) × IsFirstBest (best_of b bs) (b ∷ skipped ++ bs)
best_of-IsFirstBest b skipped [] h = (
  omega arith,
  record {
    before = [];
    after = skipped ++ [];
    among = refl;
    fewer = tt;
    fewest = All-append (λ c. b.hops ≤ c.hops) skipped [] h tt;
  },
)
best_of-IsFirstBest b skipped (c ∷ bs) h = elim (Bool-cases (ltb c.hops b.hops)) [
  | inl better ↦
      let (le, r) = best_of-IsFirstBest c [] bs tt in
      rw better (
        ground arith,
        record {
          before = b ∷ skipped ++ r.before;
          after = r.after;
          among =
              ap (λ l. b ∷ skipped ++ l) r.among
              ∙ ap (◌∷◌ b) (sym (append_assoc skipped r.before (best_of c bs ∷ r.after)));
          fewer = (
            ground arith,
            All-append (λ x. (best_of c bs).hops < x.hops) skipped r.before
                (All-map (λ x. b.hops ≤ x.hops) _ (λ x k. ground arith) skipped h) r.fewer,
          );
          fewest = r.fewest;
        },
      )
  | inr worse ↦
      let kept : best_of b (c ∷ bs) ≡ best_of b bs = rw worse refl in
      rw kept (
        subst (λ l. ((best_of b bs).hops ≤ b.hops) × IsFirstBest (best_of b bs) (b ∷ l))
          (append_assoc skipped (c ∷ []) bs)
          (best_of-IsFirstBest b (skipped ++ c ∷ []) bs
            (All-append (λ x. b.hops ≤ x.hops) skipped (c ∷ []) h (ground arith, tt))))
]

-- Of one or more beacons the first with the fewest hops is chosen.
pub best_beacon_of-IsFirstBest :
    (b : BeaconInfo) (bs : List BeaconInfo)
    → (best : BeaconInfo) × (best_beacon_of (b ∷ bs) ≡ some best) × IsFirstBest best (b ∷ bs)
best_beacon_of-IsFirstBest b bs = (best_of b bs, refl, (best_of-IsFirstBest b [] bs tt).1)
