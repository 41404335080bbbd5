-- ===== src/Lightning/Invariant/Joining.antt =====
-- The transitions of a node on its way into the network keep the invariant and do not panic.
use holistic_framework_for_l.Base.{
  ℕ, ◌+◌, ◌*◌, ◌≤◌, ◌<◌, ◌≡◌, refl, ◌≢◌, ◌⊎◌, inl, inr, true, Option, List, [], ◌∷◌, arith, length,
  u64_mod, Returns, Rng, Bool-cases, ltb, ◌==◌,
}
use holistic_framework_for_l.Lightning.Params.{TimeMs, Channel}
use holistic_framework_for_l.Lightning.Context.{BeaconInfo, Containers, Lightning}
use holistic_framework_for_l.Lightning.StateMachine.Joining.{
  wait_again, hear_beacon, choose_beacon, hear_best_beacon, give_up_on_beacon,
}
use holistic_framework_for_l.Lightning.Invariant.{Searching, reach}
use holistic_framework_for_l.Lightning.Invariant.Bounds.{Holds}
use holistic_framework_for_l.Lightning.Params.{max_beacons_to_collect, Hops}

module _ (H : Containers) (t : ℕ) (time : TimeMs) (budget : t + 2 * reach < u64_mod)
    (past : time ≤ t) where
  pub hear_beacon-Holds :
      (n : Lightning H) (end : TimeMs) (channel : Channel) (hops : Hops) (rng : Rng)
      → Searching H n.context
      → (hops ≡ 0)
        ⊎ (length (H.connect_beacons.as_slice n.context.potential_connect_beacons)
            < max_beacons_to_collect)
      → Returns (Holds H t) (hear_beacon H end channel hops n time rng)
  unfolding hear_beacon
  hear_beacon-Holds n end channel hops rng h room = elim (Bool-cases (hops == 0)) [
    | inl near ↦ rw near h
    | inr far ↦ rw far (
        let (v, pushed, all) =
          H.connect_beacons.push_room (record { time_seen = time; hops = hops })
            n.context.potential_connect_beacons
            (elim room [ inl e ↦ absurd (ground arith) | inr r ↦ r ]) in
        rw pushed (record { clear = h.clear; no_windows = h.no_windows }))
  ]

  pub choose_beacon-Holds :
      (n : Lightning H) (rng : Rng)
      → Searching H n.context
      → Returns (Holds H t) (choose_beacon H n time rng)
  unfolding choose_beacon wait_again
  choose_beacon-Holds n rng h =
      of_list (H.connect_beacons.as_slice n.context.potential_connect_beacons) refl
    where
      of_list :
          (l : List BeaconInfo)
          → H.connect_beacons.as_slice n.context.potential_connect_beacons ≡ l
          → Returns (Holds H t) (choose_beacon H n time rng)
      of_list [] e = simp (e) h
      of_list (b ∷ bs) e = simp (e) h

  pub give_up_on_beacon-Holds :
      (n : Lightning H) (rng : Rng)
      → Searching H n.context
      → Returns (Holds H t) (give_up_on_beacon H n time rng)
  unfolding give_up_on_beacon wait_again
  give_up_on_beacon-Holds n rng h = record { clear = h.clear; no_windows = h.no_windows }

  pub hear_best_beacon-Holds :
      (n : Lightning H) (best : Hops) (end : TimeMs) (channel : Channel) (hops : Hops)
      (children_channel : ℕ) (parent_channel : Option ℕ) (rng : Rng)
      → Searching H n.context
      → (hops ≢ best) ⊎ (hops < 255)
      → Returns
          (Holds H t)
          (hear_best_beacon H best end channel hops children_channel parent_channel n time rng)
  unfolding hear_best_beacon
  hear_best_beacon-Holds n best end channel hops c p rng h low = elim (Bool-cases (hops == best)) [
    | inl it ↦
        let below : ltb hops 255 ≡ true = elim low [
          | inl e ↦ absurd (e (ground arith))
          | inr l ↦ ground arith
        ] in
        rw (it, below)
          (record {
            searching = record { clear = h.clear; no_windows = h.no_windows };
            parent_known = (c, refl);
            hops_known = (hops + 1, refl);
          })
    | inr other ↦ rw other h
  ]
