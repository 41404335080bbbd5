-- ===== src/Simulator/Network/Start.antt =====
-- Networks of new nodes (`run` in components/simulator/src/main.rs, up to its main loop).
use holistic_framework_for_l.Base.{
  ℕ, zero, suc, some, Bool, ◌+◌, ◌<◌, ◌≡◌, sym, ap, ◌∙◌, none, List, [], ◌∷◌, length, get_elem?,
  All, All-map, u64_mod, Rng, advance, next_u32, ◌%◌,
}
use holistic_framework_for_l.Lightning.Context.{Containers}
use holistic_framework_for_l.Lightning.States.{reset, idle, get_action}
use holistic_framework_for_l.SortedLinkedList.{SortedLinkedList, new, push}
use holistic_framework_for_l.Simulator.{by_time, ProtocolWrapper, id_of, channel_of}
use holistic_framework_for_l.Simulator.Forwarding.{Numbered}
use holistic_framework_for_l.Simulator.Deliveries.{pushed_All}
use holistic_framework_for_l.Simulator.Loop.{start_up, start, startup_delay_range_ms}
use holistic_framework_for_l.Simulator.Start.{start-Running}
use holistic_framework_for_l.Simulator.Network.{lightning}
use holistic_framework_for_l.Simulator.Network.Nodes.{IsNode}
use holistic_framework_for_l.Simulator.Network.Steps.{NetworkEvent, Addressed}
use holistic_framework_for_l.Simulator.Network.Calls.{IsNetwork}

module _ (H : Containers) (Coordinates : Type 0)
    (check_visibility : ProtocolWrapper (lightning H) Coordinates
      → ProtocolWrapper (lightning H) Coordinates
      → Bool) where
  -- A node that has just been made.
  abbrev pub IsNew : ProtocolWrapper (lightning H) Coordinates → Type 0
  IsNew w = (w.protocol.state ≡ reset) × (w.receiving_channel ≡ none)

  start_up-All :
      (Q : NetworkEvent H Coordinates check_visibility → Type 0)
      (nodes : List (ProtocolWrapper (lightning H) Coordinates))
      (q : SortedLinkedList (NetworkEvent H Coordinates check_visibility)) (rng : Rng)
      → ((time id : ℕ) → Q (record { time = time; node_id = id; message = none }))
      → All Q q.elements
      → All Q (start_up (lightning H) Coordinates check_visibility nodes q rng).0.elements
  unfolding start_up
  start_up-All Q [] q rng h a = a
  start_up-All Q (w ∷ nodes) q rng h a =
      let time = next_u32 rng % startup_delay_range_ms in
      let id = id_of (lightning H) Coordinates w in
      start_up-All Q nodes (push by_time (record { time = time; node_id = id; message = none }) q)
        (advance rng) h
        (pushed_All (record { time = time; node_id = id; message = none }) q Q (h time id) a)

  IsNew-IsNode :
      (t : ℕ) (w : ProtocolWrapper (lightning H) Coordinates)
      → IsNew w
      → IsNode H Coordinates check_visibility t w
  unfolding get_action
  IsNew-IsNode t w (fresh, deaf) = record {
    sound = rw fresh tt;
    tuned = deaf ∙ ap (λ st. channel_of (lightning H) Coordinates (get_action st)) (sym fresh);
  }

  pub start-IsNetwork :
      (t : ℕ) (nodes : List (ProtocolWrapper (lightning H) Coordinates)) (rng : Rng)
      → Numbered (lightning H) Coordinates check_visibility 0 nodes
      → length nodes + length nodes < u64_mod
      → 0 < length nodes
      → All IsNew nodes
      → IsNetwork H Coordinates check_visibility t
          (start (lightning H) Coordinates check_visibility nodes rng)
  unfolding start new
  start-IsNetwork t nodes rng numbered countable inhabited all_new = record {
    running = start-Running (lightning H) Coordinates check_visibility nodes rng numbered countable;
    stays = record {
      inhabited = inhabited;
      nodes = All-map IsNew _ (IsNew-IsNode t) nodes all_new;
      addressed =
          start_up-All (Addressed H Coordinates check_visibility nodes) nodes new rng
            (λ time id w at_id end i. not_idle nodes id w end at_id i all_new time) tt;
    };
  }
    where
      not_idle :
          (nodes : List (ProtocolWrapper (lightning H) Coordinates)) (i : ℕ)
          (w : ProtocolWrapper (lightning H) Coordinates) (end : ℕ)
          → get_elem? nodes i ≡ some w
          → w.protocol.state ≡ idle end
          → All IsNew nodes
          → (time : ℕ) → time ≡ end
      not_idle [] i w end h e a time = cc
      not_idle (x ∷ xs) zero w end h e a time = let fresh = a.0.0 in cc
      not_idle (x ∷ xs) (suc i) w end h e a time = not_idle xs i w end h e a.1 time
