-- ===== src/Lightning/Params.antt =====
-- The types and parameters of the protocol (components/protocol/lightning/src/lib.rs). All of
-- `TimeMs`, `NodeId`, `Channel`, `Hops` and `Payload` are machine words, here native numbers.
use holistic_framework_for_l.Base.{ℕ, ◌+◌, ◌*◌, ◌-◌, ◌/◌, mul_u64}

abbrev pub TimeMs : Type 0
TimeMs = ℕ

abbrev pub NodeId : Type 0
NodeId = ℕ

abbrev pub Channel : Type 0
Channel = ℕ

abbrev pub Payload : Type 0
Payload = ℕ

abbrev pub Hops : Type 0
Hops = ℕ

abbrev pub ms_per_s : ℕ
ms_per_s = 1000

abbrev pub ms_per_min : ℕ
ms_per_min = 60 * ms_per_s

abbrev pub beacon_interval_ms : ℕ
beacon_interval_ms = 30 * 1000

abbrev pub child_data_interval_min : ℕ
child_data_interval_min = 5

abbrev pub num_channels : ℕ
num_channels = 8

abbrev pub max_children : ℕ
max_children = 6

abbrev pub max_descendants : ℕ
max_descendants = 16

abbrev pub max_windows : ℕ
max_windows = max_children + 2

abbrev pub max_beacons_to_collect : ℕ
max_beacons_to_collect = 16

abbrev pub response_listen_duration_ms : ℕ
response_listen_duration_ms = 200

abbrev pub min_window_clearance : ℕ
min_window_clearance = 300

abbrev pub data_receive_window : ℕ
data_receive_window = 350

abbrev pub random_connect_range_ms : ℕ
random_connect_range_ms = 400

abbrev pub connect_response_delay_ms : ℕ
connect_response_delay_ms = 100

abbrev pub clock_drift_ppm : ℕ
clock_drift_ppm = 30

abbrev pub best_beacon_listen_time : ℕ
best_beacon_listen_time = min_window_clearance * 3

abbrev pub send_delay : ℕ
send_delay = 5

-- The sum and the difference of the constants are below 2 ^ 32.
unfoldable pub adjust_for_clock_inaccuracies : TimeMs → TimeMs
unfolding mul_u64
adjust_for_clock_inaccuracies duration = mul_u64 duration (1_000_000 + clock_drift_ppm) / 1_000_000

unfoldable pub adjust_for_clock_inaccuracies_sub : TimeMs → TimeMs
unfolding mul_u64
adjust_for_clock_inaccuracies_sub duration =
    mul_u64 duration (1_000_000 - clock_drift_ppm) / 1_000_000
