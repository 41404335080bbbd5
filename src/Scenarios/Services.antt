-- ===== src/Scenarios/Services.antt =====
-- The theorems on the cloud service, applied to a concrete stream, codec and decoder, and runs on them
-- (components/cloud/src/main.rs, client.rs and elf.rs).
use holistic_framework_for_l.Base.{
  ℕ, ◌≤◌, ◌<◌, ◌≡◌, refl, sym, ap, diverges, inl, inr, true, ◌⊎◌, Option, none, some, List, [], ◌∷◌,
  ◌++◌, arith, length, ok, ◌>>=◌, Returns, Ends, ◌==◌, if◌then◌else◌, take,
}
use mathlib.Core.Path.{subst}
use mathlib.Core.List.{append-nil}
use holistic_framework_for_l.Colors
use holistic_framework_for_l.Slab
use holistic_framework_for_l.Slab.{Slab}
use holistic_framework_for_l.Cloud.{
  incorrect, Message, log, info, WriteResult, written, ReadResult, bytes, FeedResult, goes_on,
  complete, DecodeResult, frame, unexpected_eof, Stream, IsPatient, Codec, LogDecoder, Parts,
  Client, new_client, identifier_str,
}
use holistic_framework_for_l.Cloud.Sending.{
  write_all, update_firmware, send_message, send_chunks, chunks_of, encoded,
}
use holistic_framework_for_l.Cloud.Sending.Delivered.{Delivered, write_all-Delivered}
use holistic_framework_for_l.Cloud.Sending.Updates.{IsUpdated, update_firmware-IsUpdated}
use holistic_framework_for_l.Cloud.Receiving.{
  Conversation, receive_buffered, receive_all, cobs_decode_from_iter, feed_all, handle_message,
  take_info, decode_log_data, decode_all,
}
use holistic_framework_for_l.Cloud.Receiving.Drained.{
  messages_in, IsReceived, receive_buffered-IsReceived,
}
use holistic_framework_for_l.Cloud.Commands.{handle_command, command_of, update_all, codes}
use holistic_framework_for_l.Cloud.Commands.Obeyed.{Pairwise, IsServed, update_all-IsServed}
use holistic_framework_for_l.Cloud.Server.{
  handle_events, handle_event, handle_server, handle_client, handle_stdin, add_client, is_admitted,
  trim, trim_start, is_whitespace, accepted, v4, Event, server, client_token, stdin, start, serve,
  Server,
}
use holistic_framework_for_l.Cloud.Server.Blocked.{serve-stuck}
use holistic_framework_for_l.Cloud.Server.Known.{IsKnown, serve-IsKnown, start-IsKnown}

-- What has been sent, and what can be read; each write takes one byte.
abbrev Pipe : Type 0
Pipe = List ℕ × List (List ℕ)

abbrev write_byte : List ℕ → Pipe → WriteResult × Pipe
write_byte [] p = (written 0, p)
write_byte (b ∷ bs) (sent, incoming) = (written 1, (sent ++ b ∷ [], incoming))

abbrev read_piece : Pipe → ReadResult × Pipe
read_piece (sent, []) = (bytes [], (sent, []))
read_piece (sent, piece ∷ pieces) = (bytes piece, (sent, pieces))

abbrev IsTaken : List ℕ → Pipe → WriteResult × Pipe → Type 0
IsTaken buf p (written n, q) = (n ≤ length buf) × (q.0 ≡ p.0 ++ take n buf)
IsTaken buf p (WriteResult.would_block, q) = ⊥
IsTaken buf p (WriteResult.interrupted, q) = ⊥
IsTaken buf p (WriteResult.failed, q) = ⊥

write_byte-IsTaken : (buf : List ℕ) (p : Pipe) → IsTaken buf p (write_byte buf p)
write_byte-IsTaken [] p = (omega arith, sym (append-nil p.0))
write_byte-IsTaken (b ∷ bs) (sent, incoming) = (omega arith, refl)

taken :
    (buf : List ℕ) (p q : Pipe) (w : WriteResult) → write_byte buf p ≡ (w, q) → IsTaken buf p (w, q)
taken buf p q w e = subst (IsTaken buf p) e (write_byte-IsTaken buf p)

abbrev pipe : Stream
pipe = record {
  Connection = Pipe;
  write = write_byte;
  read = read_piece;
  register = λ p. (true, p);
  shutdown = λ p. p;
  peer_addr = λ p. some [];
  sent = λ p. p.0;
  patience = λ p. 0;
  write-written = λ buf p q n e. taken buf p q (written n) e;
  write-would_block = λ buf p q e. absurd (taken buf p q WriteResult.would_block e);
  write-interrupted = λ buf p q e. absurd (taken buf p q WriteResult.interrupted e);
  write-failed = λ buf p q e. absurd (taken buf p q WriteResult.failed e);
}

pipe-IsPatient : IsPatient pipe
pipe-IsPatient = record {
  written-patience = λ buf p q n e. omega arith;
  would_block-patience = λ buf p q e. absurd (taken buf p q WriteResult.would_block e);
  interrupted-patience = λ buf p q e. absurd (taken buf p q WriteResult.interrupted e);
}

abbrev feed_byte : ℕ → List ℕ → FeedResult × List ℕ
feed_byte b seen = if b == 0 then (complete seen, []) else (goes_on, seen ++ b ∷ [])

abbrev read_message : List ℕ → Option Message
read_message (kind ∷ id ∷ crc ∷ []) =
    if kind == 2 then some (info id (some crc)) else some (log (id ∷ crc ∷ []))
read_message _ = none

abbrev codec : Codec
codec = record {
  into_writer = λ m. some (1 ∷ []);
  from_reader = read_message;
  encode_vec = λ l. l;
  CobsDecoder = List ℕ;
  new = [];
  feed = feed_byte;
}

abbrev next_text : List (List ℕ) → DecodeResult × List (List ℕ)
next_text [] = (unexpected_eof, [])
next_text (t ∷ ts) = (frame t, ts)

next_text-fewer :
    (ts : List (List ℕ))
    → ((next_text ts).0 ≡ unexpected_eof) ⊎ (length (next_text ts).1 < length ts)
next_text-fewer [] = inl refl
next_text-fewer (t ∷ ts) = inr (omega arith)

fewer :
    (s s' : List (List ℕ)) (r : DecodeResult)
    → next_text s ≡ (r, s')
    → (r ≡ unexpected_eof) ⊎ (length s' < length s)
fewer s s' r e =
    subst (λ (x : DecodeResult × List (List ℕ)). (x.0 ≡ unexpected_eof) ⊎ (length x.1 < length s)) e
      (next_text-fewer s)

abbrev texts : LogDecoder
texts = record {
  State = List (List ℕ);
  new_stream_decoder = [];
  received = λ b s. s ++ b ∷ [];
  decode = next_text;
  pending = length;
  decode-pending = fewer;
}

abbrev parts : Parts
parts = record { stream = pipe; codec = codec; logs = texts }

write_all-Delivered_example :
    Returns (Delivered pipe (1 ∷ 2 ∷ []) ([], [])) (write_all pipe 2 (1 ∷ 2 ∷ []) ([], []))
write_all-Delivered_example =
    write_all-Delivered pipe pipe-IsPatient 2 (1 ∷ 2 ∷ []) ([], []) (omega arith)

abbrev old_client : Client parts
old_client = record {
  node_id = some 7;
  firmware_state = incorrect;
  halted = none;
  connection = ([], []);
  log_decoder = [];
  buffer = 2 ∷ 7 ∷ 9 ∷ 0 ∷ 1 ∷ 36 ∷ 5 ∷ 0 ∷ 3 ∷ [];
  color = (255, 255, 255);
}

update_firmware-IsUpdated_example :
    Returns
      (IsUpdated parts (1 ∷ 2 ∷ 3 ∷ []) old_client)
      (update_firmware parts old_client (1 ∷ 2 ∷ 3 ∷ []))
update_firmware-IsUpdated_example =
    update_firmware-IsUpdated parts old_client (1 ∷ 2 ∷ 3 ∷ []) pipe-IsPatient (omega arith)

abbrev conversation : Conversation parts
conversation = record { client = old_client; colors = Colors.new; events = [] }

receive_buffered-IsReceived_example :
    Ends
      (IsReceived parts 9
        (messages_in parts 9 10 (2 ∷ 7 ∷ 9 ∷ 0 ∷ 1 ∷ 36 ∷ 5 ∷ 0 ∷ 3 ∷ []))
        conversation)
      (receive_buffered parts 9 conversation)
receive_buffered-IsReceived_example = receive_buffered-IsReceived parts 9 conversation

abbrev clients : Slab (Client parts)
clients = none ∷ some old_client ∷ []

update_all-IsServed_example :
    Returns
      (Pairwise parts (IsServed parts (1 ∷ 2 ∷ [])) clients)
      (update_all parts (1 ∷ 2 ∷ []) clients)
update_all-IsServed_example =
    update_all-IsServed parts (1 ∷ 2 ∷ []) clients pipe-IsPatient (omega arith) (inr (7, refl), tt)

-- A client connects, tells who it is, and is updated.
abbrev polls : List (List (Event parts))
polls =
    (server (accepted ([], (2 ∷ 7 ∷ 8 ∷ 0 ∷ []) ∷ []) (v4 10 0 0 1)) ∷ [])
    ∷ (client_token 0 ∷ [])
    ∷ (stdin (some (codes "FWU")) ∷ [])
    ∷ []

serve-IsKnown_example : Ends (IsKnown parts) (serve parts 9 (1 ∷ 2 ∷ []) polls (start parts))
serve-IsKnown_example =
    serve-IsKnown parts 9 (1 ∷ 2 ∷ []) polls (start parts) pipe-IsPatient (omega arith)
      (start-IsKnown parts)

unchanged :
    (p q : Pipe) (w : WriteResult)
    → ◌≡◌ {A = WriteResult × Pipe} (WriteResult.would_block, p) (w, q)
    → q.0 ≡ p.0
unchanged p q w e = ap (λ (r : WriteResult × Pipe). r.1.0) (sym e)

not_written :
    (p q : Pipe) (n : ℕ)
    → ◌≡◌ {A = WriteResult × Pipe} (WriteResult.would_block, p) (written n, q)
    → ⊥
not_written p q n e = cc

-- A peer that does not read: every write is put off.
abbrev full_pipe : Stream
full_pipe = record {
  Connection = Pipe;
  write = λ buf p. (WriteResult.would_block, p);
  read = read_piece;
  register = λ p. (true, p);
  shutdown = λ p. p;
  peer_addr = λ p. some [];
  sent = λ p. p.0;
  patience = λ p. 20;
  write-written = λ buf p q n e. absurd (not_written p q n e);
  write-would_block = λ buf p q e. unchanged p q WriteResult.would_block e;
  write-interrupted = λ buf p q e. unchanged p q WriteResult.interrupted e;
  write-failed = λ buf p q e. unchanged p q WriteResult.failed e;
}

abbrev full_parts : Parts
full_parts = record { stream = full_pipe; codec = codec; logs = texts }

abbrev full_client : Client full_parts
full_client = record {
  node_id = some 7;
  firmware_state = incorrect;
  halted = none;
  connection = ([], []);
  log_decoder = [];
  buffer = [];
  color = (255, 255, 255);
}

abbrev full_server : Server full_parts
full_server = record (start full_parts) { clients = some full_client ∷ none ∷ [] }

serve-stuck_example :
    serve full_parts 9 (1 ∷ 2 ∷ []) ((stdin (some (codes "reset all")) ∷ []) ∷ []) full_server
    ≡ diverges
serve-stuck_example =
    serve-stuck full_parts (λ p. Unit) (record { blocks = λ buf p u. (p, refl, tt) }) 9 (1 ∷ 2 ∷ [])
      (1 ∷ []) [] [] full_server full_client (none ∷ []) refl refl tt

-- What is seen of a run: the identifier and the state of the first client, and what it has been sent.
abbrev seen : Slab (Client parts) → List (Option ℕ × List ℕ)
seen [] = []
seen (none ∷ cs) = seen cs
seen (some c ∷ cs) = (c.node_id, c.connection.0) ∷ seen cs

abbrev events_of : Conversation parts → List (List ℕ)
events_of v = v.events

one_event : (receive_buffered parts 9 conversation >>= λ v. ok (events_of v)) ≡ ok ((5 ∷ []) ∷ [])
unfolding receive_buffered receive_all cobs_decode_from_iter feed_all handle_message take_info
    decode_log_data decode_all identifier_str Colors.get_color Colors.new
one_event = refl

-- The client runs other firmware: it gets a start, a chunk and an end.
one_update :
    (serve parts 9 (1 ∷ 2 ∷ []) polls (start parts) >>= λ s. ok (seen s.clients))
    ≡ ok ((some 7, 1 ∷ 0 ∷ 1 ∷ 0 ∷ 1 ∷ 0 ∷ []) ∷ [])
unfolding serve handle_events handle_event handle_server handle_client handle_stdin start add_client
    is_admitted new_client Slab.insert Slab.get_free_index Slab.get Slab.new receive_buffered
    receive_all cobs_decode_from_iter feed_all handle_message take_info identifier_str
    Colors.get_color Colors.new handle_command command_of update_all update_firmware send_message
    send_chunks chunks_of encoded write_all trim trim_start is_whitespace
one_update = refl
