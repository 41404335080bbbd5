-- ===== src/Lightning/StateMachine/Joining.antt =====
-- The transitions of a node on its way into the network, from `Reset` to `ListenForConnectAck`
-- (components/protocol/lightning/src/state_machine.rs).
use holistic_framework_for_l.Base.{
  ℕ, ◌/◌, Option, some, ok, ◌>>=◌, unwrap, add_u64, advance, ◌==◌, if◌then◌else◌,
}
use holistic_framework_for_l.Lightning.Params.{
  TimeMs, Channel, Hops, beacon_interval_ms, random_connect_range_ms, connect_response_delay_ms,
  adjust_for_clock_inaccuracies, adjust_for_clock_inaccuracies_sub,
}
use holistic_framework_for_l.Lightning.Window.{beacon, parent}
use holistic_framework_for_l.Lightning.States.{
  listen_for_beacons, wait_before_finding_parent, wait_for_best_beacon, listen_for_best_beacon,
  delay_connect,
}
use holistic_framework_for_l.Lightning.Context.{Containers, default_context}
use holistic_framework_for_l.Lightning.StateMachine.Steps.{
  best_beacon_of, checked_suc, is_nil, min_to_ms, random_below, Handler, push_window, to_idle,
  choose_children_channel,
}

module _ (H : Containers) where
  unfoldable pub wait_again : TimeMs → Handler H
  wait_again pause n time rng = ok (
    wait_before_finding_parent (add_u64 (add_u64 time pause) (random_below beacon_interval_ms rng)),
    n,
    advance rng,
  )

  unfoldable pub after_reset : Handler H
  after_reset n time rng =
      let cleared = record n { context = default_context H } in
      let sink = record cleared { context = record cleared.context { hops_to_sink = some 0 } } in
      if n.is_sink
      then (do
        m ← choose_children_channel H sink rng
        m' ← push_window H m (record {
          kind = beacon;
          start = add_u64 time (random_below beacon_interval_ms (advance rng));
        })
        to_idle H m' (advance (advance rng)))
      else ok (
        wait_before_finding_parent (add_u64 time (random_below beacon_interval_ms rng)),
        cleared,
        advance rng,
      )

  unfoldable pub hear_beacon : TimeMs → Channel → Hops → Handler H
  hear_beacon end channel hops n time rng =
      if hops == 0
      then ok (
        wait_for_best_beacon hops
            (add_u64 time (adjust_for_clock_inaccuracies_sub beacon_interval_ms)),
        n,
        rng,
      )
      else (do
        beacons ← unwrap (
            H.connect_beacons.push (record { time_seen = time; hops = hops })
              n.context.potential_connect_beacons)
        ok (
          listen_for_beacons end channel,
          record n { context = record n.context { potential_connect_beacons = beacons } },
          rng,
        ))

  unfoldable pub choose_beacon : Handler H
  choose_beacon n time rng =
      let beacons = H.connect_beacons.as_slice n.context.potential_connect_beacons in
      if is_nil beacons then wait_again (beacon_interval_ms / 2) n time rng else (do
        best ← unwrap (best_beacon_of beacons)
        ok (
          wait_for_best_beacon best.hops
              (add_u64 best.time_seen (adjust_for_clock_inaccuracies_sub beacon_interval_ms)),
          n,
          rng,
        ))

  unfoldable pub hear_best_beacon : Hops → TimeMs → Channel → Hops → ℕ → Option ℕ → Handler H
  hear_best_beacon best_beacon_hops end channel hops children_channel parent_channel n time rng =
      if hops == best_beacon_hops
      then (do
        hops' ← unwrap (checked_suc hops)
        let chs = record n.context.channels {
          parent = some children_channel;
          parents_parent_channel = parent_channel;
        }
        ok (
          delay_connect (add_u64 time (random_below random_connect_range_ms rng))
              (add_u64 (add_u64 time random_connect_range_ms) connect_response_delay_ms),
          record n { context = record n.context { hops_to_sink = some hops'; channels = chs } },
          advance rng,
        ))
      else ok (listen_for_best_beacon best_beacon_hops end channel, n, rng)

  unfoldable pub give_up_on_beacon : Handler H
  give_up_on_beacon n time rng =
      let beacons = H.connect_beacons.clear n.context.potential_connect_beacons in
      wait_again (beacon_interval_ms / 2)
        (record n { context = record n.context { potential_connect_beacons = beacons } }) time rng

  unfoldable pub hear_connect_ack : ℕ → Handler H
  hear_connect_ack next_window_min n time rng = do
    m ← choose_children_channel H n rng
    m' ← push_window H m (record {
      kind = parent;
      start = add_u64 time (adjust_for_clock_inaccuracies (min_to_ms next_window_min));
    })
    m'' ← push_window H m' (record {
      kind = beacon;
      start =
          add_u64 (add_u64 time beacon_interval_ms) (random_below beacon_interval_ms (advance rng));
    })
    to_idle H m'' (advance (advance rng))
