-- ===== src/Cloud/Server/Known.antt =====
-- A client whose firmware is known has told who it is: what the service relies on when it names its
-- clients (components/cloud/src/main.rs).
use holistic_framework_for_l.Base.{
  ℕ, ◌<◌, ◌≡◌, refl, ◌∙◌, ◌⊎◌, inl, inr, Bool, true, false, Bool-cases, Option, none, some, List,
  [], ◌∷◌, ◌++◌, length, Ends, Ends-bind, Ends-map, Returns-Ends, HasValue, u32_mod, ltb,
}
use holistic_framework_for_l.Slab
use holistic_framework_for_l.Slab.{Slab, flat, insert_at}
use holistic_framework_for_l.Cloud.{
  FirmwareState, unknown, Message, log, init_fw_update, fw_chunk, finish_fw_update, reset, halt,
  get_info, info, error, halted, ReadResult, bytes, IsPatient, Parts, Client, new_client,
}
use holistic_framework_for_l.Cloud.Receiving.{Conversation, receive_buffered}
use holistic_framework_for_l.Cloud.Receiving.Handled.{id_after, state_after}
use holistic_framework_for_l.Cloud.Receiving.Drained.{
  ids_after, states_after, IsReceived, receive_buffered-IsReceived,
}
use holistic_framework_for_l.Cloud.Commands.{
  Command, fw_update, reset_nodes, halt_nodes, prints, command_of, split_command, to_lowercase,
  obey, update_all, handle_reset_and_halt_command, handle_command,
}
use holistic_framework_for_l.Cloud.Commands.Obeyed.{
  IsNamed, Pairwise, IsServed, update_all-IsServed,
}
use holistic_framework_for_l.Cloud.Commands.Answered.{
  IsObeyed, Answers-Ends, handle_reset_and_halt_command-Answers,
}
use holistic_framework_for_l.Cloud.Server.Clients.{
  AllNamed, AllNamed-set, AllNamed-get, AllNamed-insert, AllNamed-try_remove, IsServed-AllNamed,
  IsObeyed-AllNamed,
}
use holistic_framework_for_l.Cloud.Server.{
  v4, v6, is_admitted, trim, AcceptResult, accepted, would_block, failed, Next, continue, break,
  exit, fail, Event, stdin, server, client_token, Server, start, handle_stdin, add_client,
  handle_server, extend, after_read, read_client, handle_client, handle_event, after_event,
  handle_events, after_poll, serve,
}

module _ (P : Parts) where
  -- The service knows who its clients with known firmware are.
  abbrev pub IsKnown : Server P → Type 0
  IsKnown s = AllNamed P s.clients

  -- What messages tell of the firmware they tell with an identifier.
  states_after-named :
      (expected : ℕ) (ms : List Message) (s : FirmwareState) (o : Option ℕ)
      → (s ≡ unknown) ⊎ HasValue o
      → (states_after P expected ms s ≡ unknown) ⊎ HasValue (ids_after P expected ms o)
  states_after-named expected [] s o h = h
  states_after-named expected (m ∷ ms) s o h =
      states_after-named expected ms (state_after P expected m s) (id_after m o) (after m)
    where
      after : (m : Message) → (state_after P expected m s ≡ unknown) ⊎ HasValue (id_after m o)
      after (info id crc) = inr (id, refl)
      after (log b) = h
      after init_fw_update = h
      after (fw_chunk offset b) = h
      after finish_fw_update = h
      after reset = h
      after halt = h
      after get_info = h
      after (error text) = h
      after (halted b) = h

  IsReceived-IsNamed :
      (expected : ℕ) (ms : List Message) (v w : Conversation P)
      → IsReceived P expected ms v w
      → IsNamed P v.client
      → IsNamed P w.client
  IsReceived-IsNamed expected ms v w r h =
      carried (states_after-named expected ms v.client.firmware_state v.client.node_id h)
    where
      carried :
          (states_after P expected ms v.client.firmware_state ≡ unknown)
            ⊎ HasValue (ids_after P expected ms v.client.node_id)
          → IsNamed P w.client
      carried (inl e) = inl (r.firmware ∙ e)
      carried (inr (id, e)) = inr (id, r.identity ∙ e)

  handle_command-AllNamed :
      (input : List ℕ) (cs : Slab (Client P)) (binary : List ℕ)
      → IsPatient P.stream
      → length binary < u32_mod
      → AllNamed P cs
      → Ends (λ (r : Bool × Slab (Client P)). AllNamed P r.1) (handle_command P input cs binary)
  unfolding handle_command
  handle_command-AllNamed input cs binary patient small k =
      obeyed (command_of (to_lowercase (split_command input).0)) (split_command input).1
    where
      obeyed :
          (c : Command) (argument : List ℕ)
          → Ends (λ (r : Bool × Slab (Client P)). AllNamed P r.1) (obey P c argument cs binary)
      obeyed prints argument = k
      obeyed fw_update argument =
          Ends-bind (Pairwise P (IsServed P binary) cs) _ (update_all P binary cs) _
            (Returns-Ends (Pairwise P (IsServed P binary) cs) (update_all P binary cs)
              (update_all-IsServed P binary cs patient small k))
            (λ ds p. IsServed-AllNamed P binary cs ds p k)
      obeyed reset_nodes argument =
          Ends-map (IsObeyed P reset argument cs) _
            (handle_reset_and_halt_command P true argument cs)
            (λ r o. IsObeyed-AllNamed P reset argument cs r o k)
            (Answers-Ends P reset argument cs (handle_reset_and_halt_command P true argument cs)
              (handle_reset_and_halt_command-Answers P true argument cs patient))
      obeyed halt_nodes argument =
          Ends-map (IsObeyed P halt argument cs) _
            (handle_reset_and_halt_command P false argument cs)
            (λ r o. IsObeyed-AllNamed P halt argument cs r o k)
            (Answers-Ends P halt argument cs (handle_reset_and_halt_command P false argument cs)
              (handle_reset_and_halt_command-Answers P false argument cs patient))

  abbrev Kept : Next × Server P → Type 0
  Kept r = IsKnown r.1

  handle_stdin-IsKnown :
      (binary : List ℕ) (line : Option (List ℕ)) (s : Server P)
      → IsPatient P.stream
      → length binary < u32_mod
      → IsKnown s
      → Ends Kept (handle_stdin P binary line s)
  unfolding handle_stdin
  handle_stdin-IsKnown binary none s patient small k = k
  handle_stdin-IsKnown binary (some []) s patient small k = k
  handle_stdin-IsKnown binary (some (c ∷ cs)) s patient small k =
      Ends-bind (λ (r : Bool × Slab (Client P)). AllNamed P r.1) Kept
        (handle_command P (trim (c ∷ cs)) s.clients binary) _
        (handle_command-AllNamed (trim (c ∷ cs)) s.clients binary patient small k) (λ r h. h)

  handle_server-IsKnown :
      (a : AcceptResult P.stream.Connection) (s : Server P)
      → IsKnown s
      → Ends Kept (handle_server P a s)
  unfolding handle_server add_client new_client
  handle_server-IsKnown failed s k = k
  handle_server-IsKnown would_block s k = k
  handle_server-IsKnown (accepted connection v6) s k = tt
  handle_server-IsKnown (accepted connection (v4 a b c d)) s k =
      elim (Bool-cases (is_admitted a b)) [
        | inr foreign ↦ rw foreign k
        | inl own ↦
            let client = new_client P connection P.logs.new_stream_decoder in
            rw own (
              AllNamed-set P (Slab.insert client s.clients).1 (Slab.insert client s.clients).0 _
                (inl refl) (AllNamed-insert P client s.clients (inl refl) k))
      ]

  handle_client-IsKnown :
      (expected token : ℕ) (s : Server P) → IsKnown s → Ends Kept (handle_client P expected token s)
  unfolding handle_client Slab.get
  handle_client-IsKnown expected token s k = found (Slab.get s.clients token) refl
    where
      extended : (b : List ℕ) (c : Client P) → IsNamed P c → IsNamed P (extend P b c)
      extended b c h = elim (Bool-cases (ltb 10_000 (length (c.buffer ++ b)))) [
        | inl long ↦ rw long h
        | inr short ↦ rw short h
      ]

      read :
          (c : Client P)
          → IsNamed P c
          → (r : ReadResult × P.stream.Connection) → Ends Kept (after_read P expected token c s r)
      read c h (bytes [], d) = AllNamed-try_remove P s.clients token k
      read c h (bytes (b ∷ bs), d) =
          let v : Conversation P = record {
            client = extend P (b ∷ bs) (record c { connection = d });
            colors = s.client_colors;
            events = s.events;
          } in
          Ends-bind _ Kept (receive_buffered P expected v) _
            (receive_buffered-IsReceived P expected v)
            (λ w r.
              AllNamed-set P s.clients token w.client
                (IsReceived-IsNamed expected _ v w r
                  (extended (b ∷ bs) (record c { connection = d }) h))
                k)
      read c h (ReadResult.would_block, d) = AllNamed-set P s.clients token _ h k
      read c h (ReadResult.interrupted, d) = AllNamed-set P s.clients token _ h k
      read c h (ReadResult.failed, d) = AllNamed-set P s.clients token _ h k

      found :
          (o : Option (Client P))
          → Slab.get s.clients token ≡ o
          → Ends Kept (read_client P expected token o s)
      found none e = k
      found (some c) e = read c (AllNamed-get P s.clients token c e k) (P.stream.read c.connection)

  -- If the peers go on reading, any event ends, unless it leads to a panic, and the service still knows
  -- who its clients with known firmware are.
  pub handle_event-IsKnown :
      (expected : ℕ) (binary : List ℕ) (event : Event P) (s : Server P)
      → IsPatient P.stream
      → length binary < u32_mod
      → IsKnown s
      → Ends Kept (handle_event P expected binary event s)
  unfolding handle_event
  handle_event-IsKnown expected binary (stdin line) s patient small k =
      handle_stdin-IsKnown binary line s patient small k
  handle_event-IsKnown expected binary (server result) s patient small k =
      handle_server-IsKnown result s k
  handle_event-IsKnown expected binary (client_token token) s patient small k =
      handle_client-IsKnown expected token s k

  abbrev StillKnown : Bool × Server P → Type 0
  StillKnown r = IsKnown r.1

  handle_events-IsKnown :
      (expected : ℕ) (binary : List ℕ) (events : List (Event P)) (s : Server P)
      → IsPatient P.stream
      → length binary < u32_mod
      → IsKnown s
      → Ends StillKnown (handle_events P expected binary events s)
  unfolding handle_events
  handle_events-IsKnown expected binary [] s patient small k = k
  handle_events-IsKnown expected binary (event ∷ events) s patient small k =
      Ends-bind Kept StillKnown (handle_event P expected binary event s) _
        (handle_event-IsKnown expected binary event s patient small k)
        (λ r h. after r h (λ t. handle_events-IsKnown expected binary events t patient small))
    where
      after :
          (r : Next × Server P)
          → Kept r
          → ((t : Server P)
              → IsKnown t
              → Ends StillKnown (handle_events P expected binary events t))
          → Ends StillKnown (after_event P (handle_events P expected binary events) r)
      after (continue, t) h others = others t h
      after (break, t) h others = h
      after (exit, t) h others = h
      after (fail, t) h others = h

  -- If the peers go on reading, the service handles any events that come: it ends, unless it panics, and
  -- then knows who its clients with known firmware are, so that `fwupdate` and the log can name them.
  pub serve-IsKnown :
      (expected : ℕ) (binary : List ℕ) (polls : List (List (Event P))) (s : Server P)
      → IsPatient P.stream
      → length binary < u32_mod
      → IsKnown s
      → Ends IsKnown (serve P expected binary polls s)
  unfolding serve
  serve-IsKnown expected binary [] s patient small k = k
  serve-IsKnown expected binary (events ∷ polls) s patient small k =
      Ends-bind StillKnown IsKnown (handle_events P expected binary events s) _
        (handle_events-IsKnown expected binary events s patient small k)
        (λ r h. after r h (λ t. serve-IsKnown expected binary polls t patient small))
    where
      after :
          (r : Bool × Server P)
          → StillKnown r
          → ((t : Server P) → IsKnown t → Ends IsKnown (serve P expected binary polls t))
          → Ends IsKnown (after_poll P (serve P expected binary polls) r)
      after (true, t) h others = others t h
      after (false, t) h others = h

  -- No client is known at the start.
  pub start-IsKnown : IsKnown (start P)
  unfolding start Slab.new
  start-IsKnown = tt
