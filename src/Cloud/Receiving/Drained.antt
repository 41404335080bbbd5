-- ===== src/Cloud/Receiving/Drained.antt =====
-- The loop over the frames of a client ends, and handles the messages in the buffer, one after the
-- other (components/cloud/src/main.rs).
use holistic_framework_for_l.Base.{
  ℕ, zero, suc, ◌+◌, ◌≤◌, ◌<◌, ◌≡◌, refl, ap, ◌∙◌, ◌⊎◌, inl, inr, Bool, true, false, Option, none,
  some, List, [], ◌∷◌, ◌||◌, arith, length, drop, length-drop, ◌>>=◌, Ends, Ends-map, Ends-bind,
}
use mathlib.Core.Path.{subst}
use holistic_framework_for_l.Cloud.{
  FirmwareState, Message, FeedResult, goes_on, complete, invalid, Codec, Parts,
}
use holistic_framework_for_l.Cloud.Receiving.{
  Conversation, Decoded, incomplete, decoded, undecodable, skip_message, after_feed, feed_all,
  cobs_decode_from_iter, is_correct, with_buffer, handle_message, handle_object, after_cobs,
  receive_all, receive_buffered,
}
use holistic_framework_for_l.Cloud.Receiving.Handled.{
  id_after, state_after, IsHandled, handle_message-IsHandled,
}

length-skip_message : (x : ℕ) (buffer : List ℕ) → length (skip_message (x ∷ buffer)) ≤ length buffer
unfolding skip_message
length-skip_message x [] = ground arith
length-skip_message x (y ∷ buffer) = ground (arith, length-skip_message y buffer)

-- A frame takes at least one byte.
abbrev Consumes : ℕ → List ℕ → Decoded → Type 0
Consumes i ds incomplete = Unit
Consumes i ds (decoded bytes n) = (i < n) × (0 < length ds)
Consumes i ds undecodable = 0 < length ds

module _ (C : Codec) where
  feed_all-Consumes : (ds : List ℕ) (i : ℕ) (s : C.CobsDecoder) → Consumes i ds (feed_all C ds i s)
  unfolding feed_all
  feed_all-Consumes [] i s = tt
  feed_all-Consumes (d ∷ ds) i s = after (C.feed d s) (feed_all-Consumes ds (i + 1))
    where
      later : (r : Decoded) → Consumes (i + 1) ds r → Consumes i (d ∷ ds) r
      later incomplete h = tt
      later (decoded bytes n) h = omega arith
      later undecodable h = omega arith

      after :
          (f : FeedResult × C.CobsDecoder)
          → ((t : C.CobsDecoder) → Consumes (i + 1) ds (feed_all C ds (i + 1) t))
          → Consumes i (d ∷ ds) (after_feed C (feed_all C ds (i + 1)) i f)
      after (goes_on, t) k = later (feed_all C ds (i + 1) t) (k t)
      after (complete bytes, t) k = omega arith
      after (invalid, t) k = omega arith

module _ (P : Parts) (expected : ℕ) where
  -- The messages in a buffer: of each frame that can be decoded to one, in order.
  abbrev object_before : Option Message → List Message → List Message
  object_before none ms = ms
  object_before (some m) ms = m ∷ ms

  abbrev messages_of : (List ℕ → List Message) → Decoded → List ℕ → List Message
  messages_of others incomplete buffer = []
  messages_of others undecodable buffer = others (skip_message buffer)
  messages_of others (decoded bytes n) buffer =
      object_before (P.codec.from_reader bytes) (others (drop n buffer))

  abbrev pub messages_in : ℕ → List ℕ → List Message
  messages_in zero buffer = []
  messages_in (suc n) buffer =
      messages_of (messages_in n) (cobs_decode_from_iter P.codec buffer) buffer

  -- What messages, one after the other, leave of an identifier and a firmware state, and whether one
  -- of them meets a client with the right firmware.
  abbrev pub ids_after : List Message → Option ℕ → Option ℕ
  ids_after [] o = o
  ids_after (m ∷ ms) o = ids_after ms (id_after m o)

  abbrev pub states_after : List Message → FirmwareState → FirmwareState
  states_after [] s = s
  states_after (m ∷ ms) s = states_after ms (state_after P expected m s)

  abbrev pub ever_correct : List Message → FirmwareState → Bool
  ever_correct [] s = false
  ever_correct (m ∷ ms) s = is_correct s || ever_correct ms (state_after P expected m s)

  -- What the messages leave behind, with no whole frame in the buffer.
  pub record IsReceived (ms : List Message) (v w : Conversation P) : Type 0 where
    pub identity : w.client.node_id ≡ ids_after ms v.client.node_id
    pub firmware : w.client.firmware_state ≡ states_after ms v.client.firmware_state
    pub connection : w.client.connection ≡ v.client.connection
    pub logged : (w.events ≡ v.events) ⊎ (ever_correct ms v.client.firmware_state ≡ true)
    pub drained : cobs_decode_from_iter P.codec w.client.buffer ≡ incomplete

  IsReceived-cons :
      (m : Message) (ms : List Message) (v u w : Conversation P)
      → IsHandled P expected m v u
      → IsReceived ms u w
      → IsReceived (m ∷ ms) v w
  IsReceived-cons m ms v u w h r = record {
    identity = r.identity ∙ ap (ids_after ms) h.identity;
    firmware = r.firmware ∙ ap (states_after ms) h.firmware;
    connection = r.connection ∙ h.connection;
    logged = both r.logged h.logged;
    drained = r.drained;
  }
    where
      both :
          (w.events ≡ u.events) ⊎ (ever_correct ms u.client.firmware_state ≡ true)
          → (u.events ≡ v.events) ⊎ (is_correct v.client.firmware_state ≡ true)
          → (w.events ≡ v.events) ⊎ (ever_correct (m ∷ ms) v.client.firmware_state ≡ true)
      both (inl e) (inl f) = inl (e ∙ f)
      both e (inr t) = inr (rw t refl)
      both (inr t) (inl f) = inr (ground (arith, t, ap (ever_correct ms) h.firmware))

  -- The bytes in front do not matter.
  IsReceived-behind :
      (ms : List Message) (v w : Conversation P) (buffer : List ℕ)
      → IsReceived ms (with_buffer P v buffer) w
      → IsReceived ms v w
  IsReceived-behind ms v w buffer r = record {
    identity = r.identity;
    firmware = r.firmware;
    connection = r.connection;
    logged = r.logged;
    drained = r.drained;
  }

  -- With a round for each byte and one more the loop ends.
  receive_all-IsReceived :
      (fuel : ℕ) (v : Conversation P)
      → length v.client.buffer < fuel
      → Ends (IsReceived (messages_in fuel v.client.buffer) v) (receive_all P fuel expected v)
  unfolding receive_all cobs_decode_from_iter
  receive_all-IsReceived zero v h = absurd (omega arith)
  receive_all-IsReceived (suc fuel) v h =
      after (cobs_decode_from_iter P.codec v.client.buffer) refl
        (feed_all-Consumes P.codec v.client.buffer 0 P.codec.new) (receive_all-IsReceived fuel)
    where
      shorter : (b : List ℕ) → 0 < length b → length (skip_message b) < length b
      shorter [] k = absurd (omega arith)
      shorter (x ∷ b) k = omega (arith, length-skip_message x b)

      handled :
          (o : Option Message) (u : Conversation P) (n : ℕ)
          → ((t : Conversation P)
              → length t.client.buffer < fuel
              → Ends
                  (IsReceived (messages_in fuel t.client.buffer) t)
                  (receive_all P fuel expected t))
          → length u.client.buffer < fuel
          → Ends
              (IsReceived (object_before o (messages_in fuel u.client.buffer)) u)
              (handle_object P expected o u >>= receive_all P fuel expected)
      handled none u n again k = again u k
      handled (some m) u n again k =
          Ends-bind (IsHandled P expected m u) _ (handle_message P expected m u) _
            (handle_message-IsHandled P expected m u)
            (λ t r.
              Ends-map _ _ (receive_all P fuel expected t)
                (λ w s.
                  IsReceived-cons m _ u t w r
                    (subst (λ b. IsReceived (messages_in fuel b) t w) r.buffer s))
                (again t (omega (arith, ap length r.buffer))))

      after :
          (d : Decoded)
          → cobs_decode_from_iter P.codec v.client.buffer ≡ d
          → Consumes 0 v.client.buffer d
          → ((t : Conversation P)
              → length t.client.buffer < fuel
              → Ends
                  (IsReceived (messages_in fuel t.client.buffer) t)
                  (receive_all P fuel expected t))
          → Ends
              (IsReceived (messages_of (messages_in fuel) d v.client.buffer) v)
              (after_cobs P (receive_all P fuel expected) expected d v)
      after incomplete e c again = record {
        identity = refl;
        firmware = refl;
        connection = refl;
        logged = inl refl;
        drained = e;
      }
      after undecodable e c again =
          Ends-map _ _ (receive_all P fuel expected _)
            (λ w.
              IsReceived-behind (messages_in fuel (skip_message v.client.buffer)) v w
                (skip_message v.client.buffer))
            (again (with_buffer P v (skip_message v.client.buffer))
              (omega (arith, shorter v.client.buffer c)))
      after (decoded bytes n) e c again =
          let others = messages_in fuel (drop n v.client.buffer) in
          let ms = object_before (P.codec.from_reader bytes) others in
          Ends-map (IsReceived ms (with_buffer P v (drop n v.client.buffer))) (IsReceived ms v) _
            (λ w. IsReceived-behind ms v w (drop n v.client.buffer))
            (handled (P.codec.from_reader bytes) (with_buffer P v (drop n v.client.buffer)) n again
              (omega (arith, length-drop n v.client.buffer)))

  -- The service gets through any buffer, with no whole frame left in it, unless it panics. What it
  -- knows of the client afterwards is what the last `info` of the buffer told, and it has written
  -- events only if a message met the client with the right firmware.
  pub receive_buffered-IsReceived :
      (v : Conversation P)
      → Ends
          (IsReceived (messages_in (suc (length v.client.buffer)) v.client.buffer) v)
          (receive_buffered P expected v)
  unfolding receive_buffered
  receive_buffered-IsReceived v = receive_all-IsReceived _ v (omega arith)
