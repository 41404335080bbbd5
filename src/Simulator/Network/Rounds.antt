-- ===== src/Simulator/Network/Rounds.antt =====
-- Rounds of a network of sound nodes (`run` in components/simulator/src/main.rs).
use holistic_framework_for_l.Base.{
  ◌*◌, ℕ, zero, suc, ◌+◌, ◌≤◌, ◌<◌, ◌≡◌, refl, ap, ◌∙◌, Bool, true, false, some, List, arith,
  length, u64_mod, Outcome, ok, ◌>>=◌, assert, panic, diverges, Returns, Returns-map, Returns-eq,
  Returns-Whenever, Whenever, Whenever-after, ltb, leb, ◌==◌, if◌then◌else◌,
}
use holistic_framework_for_l.Lightning.Message.{NodeData}
use holistic_framework_for_l.Lightning.Context.{Containers}
use holistic_framework_for_l.Lightning.Invariant.{reach}
use holistic_framework_for_l.SortedLinkedList.{SortedLinkedList, pop}
use holistic_framework_for_l.Simulator.{ProtocolWrapper}
use holistic_framework_for_l.Simulator.Owners.{OneEach-length}
use holistic_framework_for_l.Simulator.Loop.{round, loop, rounds}
use holistic_framework_for_l.Simulator.Rounds.{round-Running}
use holistic_framework_for_l.Simulator.Network.{lightning}
use holistic_framework_for_l.Simulator.Network.Nodes.{Called}
use holistic_framework_for_l.Simulator.Network.Steps.{
  Network, NetworkEvent, Stays, Stays-mono, handle-Stays,
}
use holistic_framework_for_l.Simulator.Network.Calls.{
  IsNetwork, IsFairRound, Popped, pop-Popped, OfSome, OfSome-eq, pop-HasValue,
}

module _ (H : Containers) (Coordinates : Type 0)
    (check_visibility : ProtocolWrapper (lightning H) Coordinates
      → ProtocolWrapper (lightning H) Coordinates
      → Bool) where
  -- The round, as far as its nodes and events go.
  round-Stays :
      (minutes t : ℕ) (s : Network H Coordinates check_visibility)
      (event : NetworkEvent H Coordinates check_visibility)
      (rest : SortedLinkedList (NetworkEvent H Coordinates check_visibility))
      → IsNetwork H Coordinates check_visibility t s
      → pop s.event_queue ≡ some (event, rest)
      → Popped H Coordinates check_visibility t s event rest
      → Whenever
          (λ r. Stays H Coordinates check_visibility (t + reach) r.0)
          (round (lightning H) Coordinates check_visibility minutes s)
  unfolding round
  round-Stays minutes t s event rest net popped p =
      let not_past = p.not_past in
      let now : (if ltb s.time event.time then event.time else s.time) ≡ event.time =
        ground arith in
      rw (popped, now)
        (Whenever-after _ (assert (s.event_queue.len == length s.nodes)) _ (λ u.
          Whenever-after _ (assert (leb s.time event.time)) _ (λ v.
            handle-Stays H Coordinates check_visibility minutes t
              (record s { event_queue = rest; time = event.time }) event net.running.numbered p.fits
              p.others p.called
              (record {
                inhabited = net.stays.inhabited;
                nodes = net.stays.nodes;
                addressed = p.addressed;
              }))))

  -- A round of a network returns, and the network is one afterwards.
  round-IsNetwork :
      (minutes t : ℕ) (s : Network H Coordinates check_visibility)
      → t + 2 * reach < u64_mod
      → IsNetwork H Coordinates check_visibility t s
      → OfSome (IsFairRound H Coordinates check_visibility t s) (pop s.event_queue)
      → Returns
          (λ r. IsNetwork H Coordinates check_visibility (t + reach) r.0)
          (round (lightning H) Coordinates check_visibility minutes s)
  round-IsNetwork minutes t s budget net fair =
      let filled : 0 < length s.event_queue.elements = omega (
        arith,
        net.stays.inhabited,
        OneEach-length (length s.nodes) s.event_queue.elements net.running.due.each,
      ) in
      let (event, rest, popped) = pop-HasValue s.event_queue filled in
      let fair_round =
        OfSome-eq (IsFairRound H Coordinates check_visibility t s) (pop s.event_queue) (event, rest)
          popped fair in
      let p =
        pop-Popped H Coordinates check_visibility t s event rest budget net popped fair_round in
      Returns-map _ _ (round (lightning H) Coordinates check_visibility minutes s)
        (λ r (running, stays). record { running = running.0; stays = stays })
        (Returns-Whenever _ _ (round (lightning H) Coordinates check_visibility minutes s)
          (round-Running (lightning H) Coordinates check_visibility minutes s event rest net.running
            popped fair_round.1
            (λ nothing_sent w at_id.
              Returns-map (Called H Coordinates check_visibility t event.time w.protocol) _ _
                (λ r c. c.promised) (p.called nothing_sent w at_id)))
          (round-Stays minutes t s event rest net popped p))

  -- What so many rounds rely on.
  unfoldable pub StaysFair : ℕ → ℕ → ℕ → Network H Coordinates check_visibility → Type 0
  StaysFair zero minutes t s = Unit
  StaysFair (suc k) minutes t s =
      OfSome (IsFairRound H Coordinates check_visibility t s) (pop s.event_queue)
      × Whenever (λ r. r.1 ≡ false → StaysFair k minutes (t + reach) r.0)
          (round (lightning H) Coordinates check_visibility minutes s)

  -- What the loop of `run` comes to after so many rounds: the data, if it is over.
  abbrev pub finished : Network H Coordinates check_visibility × Bool → Outcome (List NodeData)
  finished (s, over) = if over then ok s.data_so_far else diverges

  IsNetwork-mono :
      (t u : ℕ) (s : Network H Coordinates check_visibility)
      → t ≤ u
      → IsNetwork H Coordinates check_visibility t s
      → IsNetwork H Coordinates check_visibility u s
  IsNetwork-mono t u s b n = record {
    running = n.running;
    stays = Stays-mono H Coordinates check_visibility t u s b n.stays;
  }

  -- The rounds, and then what they come to, are the loop.
  loop-rounds :
      (k minutes : ℕ) (s : Network H Coordinates check_visibility)
      → loop (lightning H) Coordinates check_visibility k minutes s
        ≡ (rounds (lightning H) Coordinates check_visibility k minutes s >>= finished)
  unfolding loop rounds
  loop-rounds zero minutes s = refl
  loop-rounds (suc k) minutes s =
      after (round (lightning H) Coordinates check_visibility minutes s) (loop-rounds k minutes)
    where
      after :
          (m : Outcome (Network H Coordinates check_visibility × Bool))
          → ((r : Network H Coordinates check_visibility)
              → loop (lightning H) Coordinates check_visibility k minutes r
                ≡ (rounds (lightning H) Coordinates check_visibility k minutes r >>= finished))
          → (m >>= λ (r : Network H Coordinates check_visibility × Bool).
              if r.1
              then ok r.0.data_so_far
              else loop (lightning H) Coordinates check_visibility k minutes r.0)
            ≡ (m
                >>= (λ r.
                    if r.1
                    then ok (r.0, true)
                    else rounds (lightning H) Coordinates check_visibility k minutes r.0)
                >>= finished)
      after panic others = refl
      after diverges others = refl
      after (ok (s', true)) others = refl
      after (ok (s', false)) others = others s'

  rounds-IsNetwork :
      (k minutes t : ℕ) (s : Network H Coordinates check_visibility)
      → t + (k + 2) * reach < u64_mod
      → IsNetwork H Coordinates check_visibility t s
      → StaysFair k minutes t s
      → Returns
          (λ r. IsNetwork H Coordinates check_visibility (t + k * reach) r.0)
          (rounds (lightning H) Coordinates check_visibility k minutes s)
  unfolding rounds StaysFair
  rounds-IsNetwork zero minutes t s budget net fair = IsNetwork-mono t _ s (omega arith) net
  rounds-IsNetwork (suc k) minutes t s budget net (fair, later) =
      let (r, done, next) =
        Returns-eq _ (round (lightning H) Coordinates check_visibility minutes s)
          (round-IsNetwork minutes t s (omega arith) net fair) in
      rw done (
        after r.0 r.1 next (rw done at later)
          (λ s' next' fair'. rounds-IsNetwork k minutes (t + reach) s' (omega arith) next' fair'))
    where
      after :
          (s' : Network H Coordinates check_visibility) (over : Bool)
          → IsNetwork H Coordinates check_visibility (t + reach) s'
          → (over ≡ false → StaysFair k minutes (t + reach) s')
          → ((r : Network H Coordinates check_visibility)
              → IsNetwork H Coordinates check_visibility (t + reach) r
              → StaysFair k minutes (t + reach) r
              → Returns
                  (λ q. IsNetwork H Coordinates check_visibility (t + reach + k * reach) q.0)
                  (rounds (lightning H) Coordinates check_visibility k minutes r))
          → Returns
              (λ (r : Network H Coordinates check_visibility × Bool).
                IsNetwork H Coordinates check_visibility (t + suc k * reach) r.0)
              (if over
                then ok (s', true)
                else rounds (lightning H) Coordinates check_visibility k minutes s')
      after s' true next later others = IsNetwork-mono (t + reach) _ s' (omega arith) next
      after s' false next later others =
          Returns-map _ _ (rounds (lightning H) Coordinates check_visibility k minutes s')
            (λ r net'. IsNetwork-mono _ _ r.0 (omega arith) net') (others s' next (later refl))

  -- A network runs for any number of rounds, or until the time is over: no assertion of the simulator
  -- or of the protocol fails, and nothing is unwrapped that is not there. It is a network again: every
  -- node is sound and has one event, a message is on its way only to a node that listens, and an idle
  -- node is called at the time it asked for. The loop of `run` returns the data that has been collected
  -- if it is over. The rounds rely on a clock with room for 20,000 seconds for each of them and for two
  -- more, on what the code takes for granted of a message and of its absence, and on actions that do
  -- not end in the past.
  pub loop-IsNetwork :
      (k minutes t : ℕ) (s : Network H Coordinates check_visibility)
      → t + (k + 2) * reach < u64_mod
      → IsNetwork H Coordinates check_visibility t s
      → StaysFair k minutes t s
      → Returns
          (λ r.
            IsNetwork H Coordinates check_visibility (t + k * reach) r.0
            × (loop (lightning H) Coordinates check_visibility k minutes s ≡ finished r))
          (rounds (lightning H) Coordinates check_visibility k minutes s)
  loop-IsNetwork k minutes t s budget net fair =
      let (r, ran, net') =
        Returns-eq _ (rounds (lightning H) Coordinates check_visibility k minutes s)
          (rounds-IsNetwork k minutes t s budget net fair) in
      rw ran (net', loop-rounds k minutes s ∙ ap (λ m. m >>= finished) ran)
