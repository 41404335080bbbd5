-- ===== src/Cloud/Receiving/Handled.antt =====
-- What a message does to what the service knows of a client (components/cloud/src/main.rs).
use holistic_framework_for_l.Base.{
  ℕ, suc, zero, ◌<◌, ◌≡◌, refl, ◌⊎◌, inl, inr, Bool, true, false, Bool-cases, Option, none, some,
  List, arith, ok, ◌>>◌, sym, ap, if◌then◌else◌, Returns-Ends, Ends, Ends-bind, Ends-unwrap,
  Returns,
}
use holistic_framework_for_l.Colors.{
  RgbColor, Colors, lookup, pop_last, assign, get_or_assign, get_color,
}
use holistic_framework_for_l.Cloud.{
  FirmwareState, Message, log, init_fw_update, fw_chunk, finish_fw_update, reset, halt, get_info,
  info, error, halted, DecodeResult, frame, unexpected_eof, malformed, Parts, Client, named,
  identifier_str,
}
use holistic_framework_for_l.Cloud.Receiving.{
  Conversation, after_decode, decode_all, decode_log_data, write_event, judged, is_correct, has_id,
  take_info, handle_message,
}

-- The identifier and the firmware state that a message leaves.
abbrev pub id_after : Message → Option ℕ → Option ℕ
id_after (info id crc) o = some id
id_after (log bytes) o = o
id_after init_fw_update o = o
id_after (fw_chunk offset bytes) o = o
id_after finish_fw_update o = o
id_after reset o = o
id_after halt o = o
id_after get_info o = o
id_after (error text) o = o
id_after (halted h) o = o

get_color-Ends : (cs : Colors) (id : ℕ) → Ends (λ r. Unit) (get_color cs id)
unfolding get_color
get_color-Ends cs id = of_known (lookup cs.assigned id)
  where
    of_popped : (r : Option (RgbColor × List RgbColor)) → Ends (λ r. Unit) (assign cs id r)
    of_popped none = tt
    of_popped (some r) = tt

    of_known : (o : Option RgbColor) → Ends (λ r. Unit) (get_or_assign cs id o)
    of_known none = of_popped (pop_last cs.left)
    of_known (some c) = tt

module _ (P : Parts) where
  pub identifier_str-Ends : (c : Client P) → Ends (λ u. Unit {0}) (identifier_str P c)
  unfolding identifier_str
  identifier_str-Ends c = of_id c.node_id
    where
      of_id : (o : Option ℕ) → Ends (λ u. Unit {0}) (named P o c.connection)
      of_id none =
          Ends-unwrap (λ u. Unit {0}) (P.stream.peer_addr c.connection) (λ a. ok tt) (λ a. tt)
      of_id (some id) = tt

module _ (P : Parts) (expected : ℕ) where
  abbrev pub state_after : Message → FirmwareState → FirmwareState
  state_after (info id crc) s = judged expected crc
  state_after (log bytes) s = s
  state_after init_fw_update s = s
  state_after (fw_chunk offset bytes) s = s
  state_after finish_fw_update s = s
  state_after reset s = s
  state_after halt s = s
  state_after get_info s = s
  state_after (error text) s = s
  state_after (halted h) s = s

  -- What a message leaves behind.
  pub record IsHandled (m : Message) (v w : Conversation P) : Type 0 where
    pub identity : w.client.node_id ≡ id_after m v.client.node_id
    pub firmware : w.client.firmware_state ≡ state_after m v.client.firmware_state
    pub connection : w.client.connection ≡ v.client.connection
    pub buffer : w.client.buffer ≡ v.client.buffer
    pub logged : (w.events ≡ v.events) ⊎ (is_correct v.client.firmware_state ≡ true)

  -- With a round for each frame that may be pending, and one more, the loop ends.
  decode_all-Returns :
      (fuel : ℕ) (events : List (List ℕ)) (s : P.logs.State)
      → P.logs.pending s < fuel
      → Returns (λ r. Unit) (decode_all P fuel events s)
  unfolding decode_all
  decode_all-Returns zero events s h = absurd (omega arith)
  decode_all-Returns (suc fuel) events s h =
      after (P.logs.decode s).0 (P.logs.decode s).1 (P.logs.decode-pending s _ _ refl)
        (decode_all-Returns fuel)
    where
      after :
          (r : DecodeResult) (s' : P.logs.State)
          → (r ≡ unexpected_eof) ⊎ (P.logs.pending s' < P.logs.pending s)
          → ((e : List (List ℕ)) (t : P.logs.State)
              → P.logs.pending t < fuel
              → Returns (λ r. Unit) (decode_all P fuel e t))
          → Returns (λ r. Unit) (after_decode P (decode_all P fuel) events (r, s'))
      after unexpected_eof s' k again = tt
      after (frame text) s' (inl e) again = cc
      after (frame text) s' (inr l) again = again (write_event text events) s' (omega arith)
      after malformed s' (inl e) again = cc
      after malformed s' (inr l) again = again events s' (omega arith)

  abbrev IsRenamed : ℕ → Client P → Client P → Type 0
  IsRenamed id old c =
      (c.node_id ≡ some id) × (c.connection ≡ old.connection) × (c.buffer ≡ old.buffer)

  decode_log_data-IsHandled :
      (bytes : List ℕ) (v : Conversation P)
      → is_correct v.client.firmware_state ≡ true
      → Ends (IsHandled (log bytes) v) (decode_log_data P bytes v)
  unfolding decode_log_data
  decode_log_data-IsHandled bytes v trusted =
      Ends-bind (λ u. Unit {0}) (IsHandled (log bytes) v) (identifier_str P v.client) _
        (identifier_str-Ends P v.client)
        (λ u n.
          Ends-bind (λ r. Unit {0}) (IsHandled (log bytes) v) _ _
            (Returns-Ends (λ r. Unit {0}) _
              (decode_all-Returns _ v.events (P.logs.received bytes v.client.log_decoder)
                (omega arith)))
            (λ r m. record {
              identity = refl;
              firmware = refl;
              connection = refl;
              buffer = refl;
              logged = inr trusted;
            }))

  take_info-IsHandled :
      (id : ℕ) (crc : Option ℕ) (v : Conversation P)
      → Ends (IsHandled (info id crc) v) (take_info P expected id crc v)
  unfolding take_info
  take_info-IsHandled id crc v =
      Ends-bind (IsRenamed id v.client) (IsHandled (info id crc) v) _ _
        (renamed v.client.node_id (has_id id v.client.node_id) refl refl)
        (λ c r.
          Ends-bind (λ x. Unit {0}) (IsHandled (info id crc) v) _ _ (get_color-Ends v.colors id)
            (λ x n. record {
              identity = r.0;
              firmware = refl;
              connection = r.1;
              buffer = r.2;
              logged = inl refl;
            }))
    where
      has_id-eq : (o : Option ℕ) → has_id id o ≡ true → o ≡ some id
      has_id-eq none h = cc
      has_id-eq (some i) h = ap some (ground arith)

      renamed :
          (o : Option ℕ) (b : Bool)
          → v.client.node_id ≡ o
          → has_id id v.client.node_id ≡ b
          → Ends (IsRenamed id v.client) (
              if b
              then ok v.client
              else (identifier_str P v.client >> ok (record v.client { node_id = some id })))
      renamed o true e h = (has_id-eq v.client.node_id h, refl, refl)
      renamed o false e h =
          Ends-bind (λ u. Unit {0}) (IsRenamed id v.client) (identifier_str P v.client) _
            (identifier_str-Ends P v.client) (λ u n. (refl, refl, refl))

  kept :
      (m : Message) (v : Conversation P)
      → id_after m v.client.node_id ≡ v.client.node_id
      → state_after m v.client.firmware_state ≡ v.client.firmware_state
      → IsHandled m v v
  kept m v i s = record {
    identity = sym i;
    firmware = sym s;
    connection = refl;
    buffer = refl;
    logged = inl refl;
  }

  -- Only `info` changes what is known of a client, only a client with the right firmware adds events,
  -- and the handling of a message does not run forever.
  pub handle_message-IsHandled :
      (m : Message) (v : Conversation P) → Ends (IsHandled m v) (handle_message P expected m v)
  unfolding handle_message
  handle_message-IsHandled (log bytes) v = elim (Bool-cases (is_correct v.client.firmware_state)) [
    | inl trusted ↦ rw trusted (decode_log_data-IsHandled bytes v trusted)
    | inr foreign ↦ rw foreign (kept (log bytes) v refl refl)
  ]
  handle_message-IsHandled (info id crc) v = take_info-IsHandled id crc v
  handle_message-IsHandled (halted h) v =
      Ends-bind (λ u. Unit {0}) (IsHandled (halted h) v) _ _ (identifier_str-Ends P _)
        (λ u n. record {
          identity = refl;
          firmware = refl;
          connection = refl;
          buffer = refl;
          logged = inl refl;
        })
  handle_message-IsHandled (error text) v = kept (error text) v refl refl
  handle_message-IsHandled init_fw_update v = kept init_fw_update v refl refl
  handle_message-IsHandled (fw_chunk offset bytes) v = kept (fw_chunk offset bytes) v refl refl
  handle_message-IsHandled finish_fw_update v = kept finish_fw_update v refl refl
  handle_message-IsHandled reset v = kept reset v refl refl
  handle_message-IsHandled halt v = kept halt v refl refl
  handle_message-IsHandled get_info v = kept get_info v refl refl
