-- ===== src/Cloud/Server.antt =====
-- The main loop of the cloud service (`main` in components/cloud/src/main.rs): one function for each
-- kind of event. What precedes the loop and what is printed are left out.
pub mod Clients
pub mod Known
pub mod Blocked
use holistic_framework_for_l.Base.{
  ℕ, zero, suc, ◌+◌, Bool, true, false, not, ◌&&◌, ◌||◌, Option, none, some, List, [], ◌∷◌, ◌++◌,
  length, set, Outcome, ok, panic, ◌>>=◌, ltb, leb, ◌==◌, if◌then◌else◌,
}
use mathlib.Core.List.{reverse}
use holistic_framework_for_l.Slab
use holistic_framework_for_l.Slab.{Slab}
use holistic_framework_for_l.Colors
use holistic_framework_for_l.Colors.{Colors}
use holistic_framework_for_l.Cloud.{ReadResult, bytes, Parts, Client, new_client}
use holistic_framework_for_l.Cloud.Receiving.{Conversation, receive_buffered}
use holistic_framework_for_l.Cloud.Commands.{handle_command}

-- `SocketAddr`
pub data SocketAddr : Type 0 where
  v4 : ℕ → ℕ → ℕ → ℕ → SocketAddr
  v6 : SocketAddr

-- `Ipv4Addr::is_private`, of the first two octets.
abbrev pub is_private : ℕ → ℕ → Bool
is_private a b = a == 10 || (a == 172 && leb 16 b && leb b 31) || (a == 192 && b == 168)

abbrev pub is_loopback : ℕ → Bool
is_loopback a = a == 127

-- The test that keeps out connections from elsewhere.
unfoldable pub is_admitted : ℕ → ℕ → Bool
is_admitted a b = is_private a b || is_loopback a || (a == 160 && b == 85)

-- `char::is_whitespace`
unfoldable pub is_whitespace : ℕ → Bool
is_whitespace c =
    (leb 9 c && leb c 13)
    || c == 32
    || c == 0x85
    || c == 0xa0
    || c == 0x1680
    || (leb 0x2000 c && leb c 0x200a)
    || c == 0x2028
    || c == 0x2029
    || c == 0x202f
    || c == 0x205f
    || c == 0x3000

unfoldable pub trim_start : List ℕ → List ℕ
trim_start [] = []
trim_start (c ∷ cs) = if is_whitespace c then trim_start cs else c ∷ cs

unfoldable pub trim : List ℕ → List ℕ
trim input = reverse (trim_start (reverse (trim_start input)))

-- How `accept` ends.
pub data AcceptResult (Connection : Type 0) : Type 0 where
  accepted : Connection → SocketAddr → AcceptResult Connection
  would_block : AcceptResult Connection
  failed : AcceptResult Connection

-- What goes on after an event: the next event, the next call of `poll`, or the end of `main`, without
-- or with an error.
pub data Next : Type 0 where
  continue : Next
  break : Next
  exit : Next
  fail : Next

module _ (P : Parts) where
  -- An event, with what the call that it leads to will return: a line, or an error; a connection; or
  -- the token of a client whose connection can be read.
  pub data Event : Type 0 where
    stdin : Option (List ℕ) → Event
    server : AcceptResult P.stream.Connection → Event
    client_token : ℕ → Event

  pub record Server : Type 0 where
    pub clients : Slab (Client P)
    pub client_colors : Colors
    pub events : List (List ℕ)

  abbrev pub Handled : Type 0
  Handled = Outcome (Next × Server)

  unfoldable pub start : Server
  unfolding Slab.new
  start = record { clients = Slab.new; client_colors = Colors.new; events = [] }

  -- `STDIN_TOKEN`: an empty line is the end of the input.
  unfoldable pub handle_stdin : List ℕ → Option (List ℕ) → Server → Handled
  handle_stdin binary none s = ok (fail, s)
  handle_stdin binary (some []) s = ok (exit, s)
  handle_stdin binary (some (c ∷ cs)) s = do
    (done, clients) ← handle_command P (trim (c ∷ cs)) s.clients binary
    ok (continue, record s { clients = clients })

  abbrev pub registered :
      ℕ → Slab (Client P) → Server → Client P → Bool × P.stream.Connection → Handled
  registered index clients s client (done, connection) =
      let s' = record s {
        clients = set clients index (some (record client { connection = connection }));
      } in
      ok (if done then continue else fail, s')

  -- A client for a new connection, whose index is its token.
  unfoldable pub add_client : P.stream.Connection → Server → Handled
  add_client connection s =
      let client = new_client P connection P.logs.new_stream_decoder in
      let (index, clients) = Slab.insert client s.clients in
      registered index clients s client (P.stream.register connection)

  -- `SERVER_TOKEN`
  unfoldable pub handle_server : AcceptResult P.stream.Connection → Server → Handled
  handle_server failed s = ok (fail, s)
  handle_server would_block s = ok (break, s)
  handle_server (accepted connection v6) s = panic
  handle_server (accepted connection (v4 a b c d)) s =
      if is_admitted a b then add_client connection s else ok (continue, s)

  abbrev pub put_back : ℕ → Client P → Server → Server
  put_back token client s = record s { clients = set s.clients token (some client) }

  abbrev pub shutdown : Client P → Client P
  shutdown client = record client { connection = P.stream.shutdown client.connection }

  -- The bytes that were read go behind the others. A client that sends too much is shut out.
  abbrev pub extend : List ℕ → Client P → Client P
  extend received client =
      let client' = record client { buffer = client.buffer ++ received } in
      if ltb 10_000 (length client'.buffer) then shutdown client' else client'

  abbrev pub converse : ℕ → ℕ → Client P → Server → Handled
  converse expected token client s = do
    v ←
        receive_buffered P expected
          (record { client = client; colors = s.client_colors; events = s.events })
    ok (
      continue,
      record {
        clients = set s.clients token (some v.client);
        client_colors = v.colors;
        events = v.events;
      },
    )

  abbrev pub after_read : ℕ → ℕ → Client P → Server → ReadResult × P.stream.Connection → Handled
  after_read expected token client s (bytes [], connection) =
      ok (continue, record s { clients = (Slab.try_remove s.clients token).1 })
  after_read expected token client s (bytes (b ∷ bs), connection) =
      converse expected token (extend (b ∷ bs) (record client { connection = connection })) s
  after_read expected token client s (ReadResult.would_block, connection) =
      ok (continue, put_back token (record client { connection = connection }) s)
  after_read expected token client s (ReadResult.interrupted, connection) =
      ok (continue, put_back token (record client { connection = connection }) s)
  after_read expected token client s (ReadResult.failed, connection) =
      ok (continue, put_back token (shutdown (record client { connection = connection })) s)

  abbrev pub read_client : ℕ → ℕ → Option (Client P) → Server → Handled
  read_client expected token none s = ok (fail, s)
  read_client expected token (some client) s =
      after_read expected token client s (P.stream.read client.connection)

  -- The token of a client.
  unfoldable pub handle_client : ℕ → ℕ → Server → Handled
  handle_client expected token s = read_client expected token (Slab.get s.clients token) s

  -- One event: `expected` is the checksum of the image.
  unfoldable pub handle_event : ℕ → List ℕ → Event → Server → Handled
  handle_event expected binary (stdin line) s = handle_stdin binary line s
  handle_event expected binary (server result) s = handle_server result s
  handle_event expected binary (client_token token) s = handle_client expected token s

  -- Whether `main` goes on, and the server.
  abbrev pub Served : Type 0
  Served = Outcome (Bool × Server)

  abbrev pub after_event : (Server → Served) → Next × Server → Served
  after_event others (continue, s) = others s
  after_event others (break, s) = ok (true, s)
  after_event others (exit, s) = ok (false, s)
  after_event others (fail, s) = ok (false, s)

  -- The events of one call of `poll`.
  unfoldable pub handle_events : ℕ → List ℕ → List Event → Server → Served
  handle_events expected binary [] s = ok (true, s)
  handle_events expected binary (event ∷ events) s =
      handle_event expected binary event s >>= after_event (handle_events expected binary events)

  abbrev pub after_poll : (Server → Outcome Server) → Bool × Server → Outcome Server
  after_poll others (true, s) = others s
  after_poll others (false, s) = ok s

  -- The calls of `poll`, each with its events, up to the end of `main`.
  unfoldable pub serve : ℕ → List ℕ → List (List Event) → Server → Outcome Server
  serve expected binary [] s = ok s
  serve expected binary (events ∷ polls) s =
      handle_events expected binary events s >>= after_poll (serve expected binary polls)
