-- ===== src/Cloud.antt =====
-- The cloud service, to which nodes in a test bed connect (components/cloud/src/main.rs and
-- client.rs). Sockets, the encodings and the log decoder are interfaces; what is printed is left out.
pub mod Sending
pub mod Receiving
pub mod Commands
pub mod Server
pub mod Elf
use holistic_framework_for_l.Base.{
  ℕ, ◌+◌, ◌≤◌, ◌<◌, ◌≡◌, ◌⊎◌, Bool, Option, none, some, List, [], ◌++◌, length, take, Outcome, ok,
  ◌>>=◌, unwrap,
}
use holistic_framework_for_l.Colors.{RgbColor}

-- The colour of a client that has not told who it is.
abbrev pub white : RgbColor
white = (0xff, 0xff, 0xff)

pub data FirmwareState : Type 0 where
  unknown : FirmwareState
  correct : FirmwareState
  incorrect : FirmwareState

-- Bytes and texts are lists of numbers.
pub data Message : Type 0 where
  log : List ℕ → Message
  init_fw_update : Message
  fw_chunk : ℕ → List ℕ → Message
  finish_fw_update : Message
  reset : Message
  halt : Message
  get_info : Message
  info : ℕ → Option ℕ → Message
  error : List ℕ → Message
  halted : Bool → Message

-- How a write ends: so many bytes were taken, or none for now, or it failed.
pub data WriteResult : Type 0 where
  written : ℕ → WriteResult
  would_block : WriteResult
  interrupted : WriteResult
  failed : WriteResult

pub data ReadResult : Type 0 where
  bytes : List ℕ → ReadResult
  would_block : ReadResult
  interrupted : ReadResult
  failed : ReadResult

-- How `feed` of the COBS decoder ends: the frame goes on, it is complete with these bytes, or it is
-- not a frame.
pub data FeedResult : Type 0 where
  goes_on : FeedResult
  complete : List ℕ → FeedResult
  invalid : FeedResult

-- How `decode` of the log decoder ends: with the text of a frame.
pub data DecodeResult : Type 0 where
  frame : List ℕ → DecodeResult
  unexpected_eof : DecodeResult
  malformed : DecodeResult

-- A `TcpStream` of mio. `sent` are the bytes that have been taken. `patience` is how many put-off writes
-- the model follows on a connection; nothing is assumed of it here.
pub record Stream : Type 1 where
  pub Connection : Type 0
  pub write : List ℕ → Connection → WriteResult × Connection
  pub read : Connection → ReadResult × Connection
  -- `register`, which may fail
  pub register : Connection → Bool × Connection
  pub shutdown : Connection → Connection
  pub peer_addr : Connection → Option (List ℕ)
  pub sent : Connection → List ℕ
  pub patience : Connection → ℕ
  pub write-written :
      (buf : List ℕ) (c c' : Connection) (n : ℕ)
      → write buf c ≡ (written n, c')
      → (n ≤ length buf) × (sent c' ≡ sent c ++ take n buf)
  pub write-would_block :
      (buf : List ℕ) (c c' : Connection) → write buf c ≡ (would_block, c') → sent c' ≡ sent c
  pub write-interrupted :
      (buf : List ℕ) (c c' : Connection) → write buf c ≡ (interrupted, c') → sent c' ≡ sent c
  pub write-failed :
      (buf : List ℕ) (c c' : Connection) → write buf c ≡ (failed, c') → sent c' ≡ sent c

-- The peers go on reading: each put-off write uses up some of the connection's patience. mio does not
-- promise this, and a peer that stops reading breaks it.
pub record IsPatient (S : Stream) : Type 0 where
  pub written-patience :
      (buf : List ℕ) (c c' : S.Connection) (n : ℕ)
      → S.write buf c ≡ (written n, c')
      → S.patience c' ≤ S.patience c
  pub would_block-patience :
      (buf : List ℕ) (c c' : S.Connection)
      → S.write buf c ≡ (WriteResult.would_block, c')
      → S.patience c' < S.patience c
  pub interrupted-patience :
      (buf : List ℕ) (c c' : S.Connection)
      → S.write buf c ≡ (WriteResult.interrupted, c')
      → S.patience c' < S.patience c

-- The crates ciborium and cobs: a message as CBOR, a frame, and the decoder that reads a frame byte
-- by byte.
pub record Codec : Type 1 where
  pub into_writer : Message → Option (List ℕ)
  pub from_reader : List ℕ → Option Message
  pub encode_vec : List ℕ → List ℕ
  pub CobsDecoder : Type 0
  pub new : CobsDecoder
  pub feed : ℕ → CobsDecoder → FeedResult × CobsDecoder

-- A stream decoder of the crate defmt_decoder. `pending` bounds the frames that it may still hold.
pub record LogDecoder : Type 1 where
  pub State : Type 0
  pub new_stream_decoder : State
  pub received : List ℕ → State → State
  pub decode : State → DecodeResult × State
  pub pending : State → ℕ
  pub decode-pending :
      (s s' : State) (r : DecodeResult)
      → decode s ≡ (r, s')
      → (r ≡ unexpected_eof) ⊎ (pending s' < pending s)

-- The parts that are not the service's own.
pub record Parts : Type 1 where
  pub stream : Stream
  pub codec : Codec
  pub logs : LogDecoder

module _ (P : Parts) where
  pub record Client : Type 0 where
    pub node_id : Option ℕ
    pub firmware_state : FirmwareState
    pub halted : Option Bool
    pub connection : P.stream.Connection
    pub log_decoder : P.logs.State
    pub buffer : List ℕ
    pub color : RgbColor

  -- What a new connection gets.
  unfoldable pub new_client : P.stream.Connection → P.logs.State → Client
  new_client connection log_decoder = record {
    node_id = none;
    firmware_state = unknown;
    halted = none;
    connection = connection;
    log_decoder = log_decoder;
    buffer = [];
    color = white;
  }

  abbrev pub named : Option ℕ → P.stream.Connection → Outcome (Unit {0})
  named (some id) connection = ok tt
  named none connection = unwrap (P.stream.peer_addr connection) >>= λ address. ok tt

  -- `identifier_str`: its text is only printed, but a client without an identifier has to have an
  -- address.
  unfoldable pub identifier_str : Client → Outcome (Unit {0})
  identifier_str client = named client.node_id client.connection
