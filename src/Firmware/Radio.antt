-- ===== src/Firmware/Radio.antt =====
-- Sending and receiving with the radio (`get_modulation_params`, `lora_transmit` and `lora_receive`
-- in components/firmware/src/main.rs).
use holistic_framework_for_l.Base.{
  ℕ, zero, suc, Bool, true, false, Option, none, some, List, [], ◌∷◌, Outcome, ok, diverges, ◌>>=◌,
  unwrap, ltb, if◌then◌else◌, sub_u64,
}
use holistic_framework_for_l.Firmware.{ℤ, pos, negsuc, Reception, packet, failed, timed_out, Board}
use holistic_framework_for_l.Firmware.Frequencies.{get_channel_frequency}

abbrev pub max_message_size : ℕ
max_message_size = 32

-- `rssi < MIN_RSSI`, which is -70.
abbrev pub is_weak : ℤ → Bool
is_weak (pos n) = false
is_weak (negsuc n) = ltb 69 n

pub data ReceiveError : Type 0 where
  insufficient_signal_strength : ReceiveError
  radio_error : ReceiveError
  timeout : ReceiveError

-- `Result<(), ReceiveError>`, with the buffer of a message that was received.
pub data ReceiveResult : Type 0 where
  received : List ℕ → ReceiveResult
  error : ReceiveError → ReceiveResult

abbrev pub zeros : ℕ → List ℕ
zeros zero = []
zeros (suc n) = 0 ∷ zeros n

-- What a reception comes to.
abbrev pub result_of : Reception → ReceiveResult
result_of (packet buffer rssi) =
    if is_weak rssi then error insufficient_signal_strength else received buffer
result_of failed = error radio_error
result_of timed_out = error timeout

module _ {Message : Type 0} (B : Board Message) where
  abbrev pub first_unwrapped : Option B.Modulation × B.State → Outcome (B.Modulation × B.State)
  first_unwrapped (m, board) = unwrap m >>= λ modulation. ok (modulation, board)

  unfoldable pub get_modulation_params : ℕ → B.State → Outcome (B.Modulation × B.State)
  get_modulation_params channel board = do
    frequency ← get_channel_frequency channel
    first_unwrapped (B.create_modulation_params frequency board)

  abbrev pub receive_prepared : ℕ → Bool × B.State → ReceiveResult × B.State
  receive_prepared duration (false, board) = (error radio_error, board)
  receive_prepared duration (true, board) =
      let (reception, board') = B.rx duration (zeros max_message_size) board in
      (result_of reception, board')

  unfoldable pub lora_receive : B.Modulation → ℕ → B.State → ReceiveResult × B.State
  lora_receive modulation duration board =
      receive_prepared duration (B.prepare_for_rx modulation board)

  abbrev pub transmit_prepared : Bool × B.State → B.State
  transmit_prepared (false, board) = board
  transmit_prepared (true, board) = (B.tx board).1

  unfoldable pub lora_transmit : B.Modulation → List ℕ → B.State → B.State
  lora_transmit modulation buffer board =
      transmit_prepared (B.prepare_for_tx modulation buffer board)

  abbrev pub decoded :
      (B.State → Outcome (Option Message × B.State))
      → Option Message
      → B.State
      → Outcome (Option Message × B.State)
  decoded again (some message) board = ok (some message, board)
  decoded again none board = again board

  -- The `match` on the result of a reception: `again` is the rest of the loop.
  abbrev pub heard :
      (B.State → Outcome (Option Message × B.State))
      → ReceiveResult × B.State
      → Outcome (Option Message × B.State)
  heard again (received buffer, board) = decoded again (B.from_bytes buffer) board
  heard again (error insufficient_signal_strength, board) = again board
  heard again (error radio_error, board) = ok (none, board)
  heard again (error timeout, board) = ok (none, board)

  -- The loop of an `Action::Receive`: the message, if one has been heard. It runs for as many rounds
  -- as it is given.
  unfoldable pub listen : ℕ → B.Modulation → ℕ → ℕ → B.State → Outcome (Option Message × B.State)
  listen zero modulation end now board = diverges
  listen (suc fuel) modulation end now board =
      let again =
        λ (b : B.State). let (later, b') = B.now b in listen fuel modulation end later b' in
      if ltb now end
      then heard again (lora_receive modulation (sub_u64 end now) board)
      else ok (none, board)
