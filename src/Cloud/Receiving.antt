-- ===== src/Cloud/Receiving.antt =====
-- What the cloud service does with the bytes of a client (the inner loop of `main` in
-- components/cloud/src/main.rs, and `decode_log_data` in client.rs).
pub mod Handled
pub mod Drained
use holistic_framework_for_l.Base.{
  ℕ, zero, suc, ◌+◌, Bool, true, false, Option, none, some, List, [], ◌∷◌, ◌++◌, length, drop,
  Outcome, ok, diverges, ◌>>=◌, ◌>>◌, ◌==◌, if◌then◌else◌,
}
use holistic_framework_for_l.Colors.{Colors, get_color}
use holistic_framework_for_l.Cloud.{
  FirmwareState, unknown, correct, incorrect, Message, log, init_fw_update, fw_chunk,
  finish_fw_update, reset, halt, get_info, info, error, halted, FeedResult, goes_on, complete,
  invalid, DecodeResult, frame, unexpected_eof, malformed, Codec, Parts, Client, identifier_str,
}

-- `EVENT_INDICATOR_CHAR`, a dollar sign.
abbrev pub event_indicator_char : ℕ
event_indicator_char = 36

-- What a text adds to the file of events: all but the indicator, if it begins with it.
abbrev pub write_event : List ℕ → List (List ℕ) → List (List ℕ)
write_event [] events = events
write_event (c ∷ cs) events = if c == event_indicator_char then events ++ cs ∷ [] else events

-- How the decoding of a buffer ends: it holds no whole frame, a frame of so many bytes, or none.
pub data Decoded : Type 0 where
  incomplete : Decoded
  decoded : List ℕ → ℕ → Decoded
  undecodable : Decoded

-- The `while let` that skips to the next zero.
unfoldable pub skip_message : List ℕ → List ℕ
skip_message [] = []
skip_message (x ∷ buffer) = if x == 0 then buffer else skip_message buffer

abbrev pub judged : ℕ → Option ℕ → FirmwareState
judged expected none = unknown
judged expected (some crc) = if crc == expected then correct else incorrect

abbrev pub is_correct : FirmwareState → Bool
is_correct correct = true
is_correct unknown = false
is_correct incorrect = false

abbrev pub has_id : ℕ → Option ℕ → Bool
has_id id none = false
has_id id (some i) = i == id

module _ (C : Codec) where
  abbrev pub after_feed : (C.CobsDecoder → Decoded) → ℕ → FeedResult × C.CobsDecoder → Decoded
  after_feed others i (goes_on, decoder) = others decoder
  after_feed others i (complete bytes, decoder) = decoded bytes (i + 1)
  after_feed others i (invalid, decoder) = undecodable

  unfoldable pub feed_all : List ℕ → ℕ → C.CobsDecoder → Decoded
  feed_all [] i decoder = incomplete
  feed_all (d ∷ ds) i decoder = after_feed (feed_all ds (i + 1)) i (C.feed d decoder)

  unfoldable pub cobs_decode_from_iter : List ℕ → Decoded
  cobs_decode_from_iter bytes = feed_all bytes 0 C.new

module _ (P : Parts) where
  -- The variables of the loop: the client, all colours, and the lines of the file of events.
  pub record Conversation : Type 0 where
    pub client : Client P
    pub colors : Colors
    pub events : List (List ℕ)

  abbrev pub after_decode :
      (List (List ℕ) → P.logs.State → Outcome (List (List ℕ) × P.logs.State))
      → List (List ℕ)
      → DecodeResult × P.logs.State
      → Outcome (List (List ℕ) × P.logs.State)
  after_decode again events (frame text, decoder) = again (write_event text events) decoder
  after_decode again events (unexpected_eof, decoder) = ok (events, decoder)
  after_decode again events (malformed, decoder) = again events decoder

  -- The loop of `decode_log_data`, for as many rounds as it is given.
  unfoldable pub decode_all :
      ℕ → List (List ℕ) → P.logs.State → Outcome (List (List ℕ) × P.logs.State)
  decode_all zero events decoder = diverges
  decode_all (suc fuel) events decoder =
      after_decode (decode_all fuel) events (P.logs.decode decoder)

  -- A round for each frame that may be pending, and one more.
  unfoldable pub decode_log_data : List ℕ → Conversation → Outcome Conversation
  decode_log_data bytes v = do
    let decoder = P.logs.received bytes v.client.log_decoder
    identifier_str P v.client
    (events, decoder') ← decode_all (suc (P.logs.pending decoder)) v.events decoder
    ok (record v { client = record v.client { log_decoder = decoder' }; events = events })

  -- `Message::Info`. Its texts name the client before and after.
  unfoldable pub take_info : ℕ → ℕ → Option ℕ → Conversation → Outcome Conversation
  take_info expected id crc v = do
    renamed ←
        if has_id id v.client.node_id
        then ok v.client
        else (identifier_str P v.client >> ok (record v.client { node_id = some id }))
    (color, colors) ← get_color v.colors id
    ok (record v {
      client = record renamed { color = color; firmware_state = judged expected crc };
      colors = colors;
    })

  -- The `match` on a message.
  unfoldable pub handle_message : ℕ → Message → Conversation → Outcome Conversation
  handle_message expected (log bytes) v =
      if is_correct v.client.firmware_state then decode_log_data bytes v else ok v
  handle_message expected (info id crc) v = take_info expected id crc v
  handle_message expected (halted h) v = do
    let client = record v.client { halted = some h }
    identifier_str P client
    ok (record v { client = client })
  handle_message expected (error text) v = ok v
  handle_message expected init_fw_update v = ok v
  handle_message expected (fw_chunk offset bytes) v = ok v
  handle_message expected finish_fw_update v = ok v
  handle_message expected reset v = ok v
  handle_message expected halt v = ok v
  handle_message expected get_info v = ok v

  abbrev pub with_buffer : Conversation → List ℕ → Conversation
  with_buffer v buffer = record v { client = record v.client { buffer = buffer } }

  abbrev pub handle_object : ℕ → Option Message → Conversation → Outcome Conversation
  handle_object expected none v = ok v
  handle_object expected (some message) v = handle_message expected message v

  abbrev pub after_cobs :
      (Conversation → Outcome Conversation) → ℕ → Decoded → Conversation → Outcome Conversation
  after_cobs again expected incomplete v = ok v
  after_cobs again expected undecodable v = again (with_buffer v (skip_message v.client.buffer))
  after_cobs again expected (decoded bytes n) v =
      handle_object expected (P.codec.from_reader bytes) (with_buffer v (drop n v.client.buffer))
      >>= again

  -- The loop over the frames in the buffer, for as many rounds as it is given.
  unfoldable pub receive_all : ℕ → ℕ → Conversation → Outcome Conversation
  receive_all zero expected v = diverges
  receive_all (suc fuel) expected v =
      after_cobs (receive_all fuel expected) expected
        (cobs_decode_from_iter P.codec v.client.buffer) v

  -- A round for each byte, and one more.
  unfoldable pub receive_buffered : ℕ → Conversation → Outcome Conversation
  receive_buffered expected v = receive_all (suc (length v.client.buffer)) expected v
