-- ===== src/Cloud/Server/Blocked.antt =====
-- A peer that stops reading, and the loop that writes to it (`send_message` in
-- components/cloud/src/client.rs, and main.rs).
use holistic_framework_for_l.Base.{
  ℕ, zero, suc, ◌≡◌, refl, ap, ◌∙◌, Option, none, some, List, [], ◌∷◌, ◌++◌, diverges,
}
use holistic_framework_for_l.Slab.{Slab}
use holistic_framework_for_l.Cloud.{WriteResult, reset, Stream, Parts, Client}
use holistic_framework_for_l.Cloud.Sending.{write_all, encoded, send_bytes, send_message}
use holistic_framework_for_l.Cloud.Commands.{
  codes, command_of, send_all, handle_reset_and_halt_command, handle_command,
}
use holistic_framework_for_l.Cloud.Server.{
  is_whitespace, trim, trim_start, stdin, Event, Server, handle_stdin, handle_event, handle_events,
  serve,
}

module _ (S : Stream) where
  -- Connections whose peers have stopped reading: whatever is written, the write is put off, and the peer
  -- still does not read.
  pub record Stuck (IsStuck : S.Connection → Type 0) : Type 0 where
    pub blocks :
        (buf : List ℕ) (c : S.Connection)
        → IsStuck c
        → (c' : S.Connection) × (S.write buf c ≡ (WriteResult.would_block, c')) × IsStuck c'

  -- The loop is not over after any number of rounds.
  write_all-stuck :
      (IsStuck : S.Connection → Type 0)
      → Stuck IsStuck
      → (fuel b : ℕ) (bs : List ℕ) (c : S.Connection) → IsStuck c
      → write_all S fuel (b ∷ bs) c ≡ diverges
  unfolding write_all
  write_all-stuck Q h zero b bs c k = refl
  write_all-stuck Q h (suc fuel) b bs c k =
      let (c', put_off, still) = h.blocks (b ∷ bs) c k in
      rw put_off (write_all-stuck Q h fuel b bs c' still)

module _ (P : Parts) where
  encoded-some :
      (cbor : List ℕ)
      → P.codec.into_writer reset ≡ some cbor
      → encoded P reset ≡ some (P.codec.encode_vec cbor ++ 0 ∷ [])
  unfolding encoded
  encoded-some cbor e =
      ap
        (λ (o : Option (List ℕ)). elim o [
          | none ↦ none
          | some c ↦ some (P.codec.encode_vec c ++ 0 ∷ [])
        ])
        e

  send_message-stuck :
      (IsStuck : P.stream.Connection → Type 0)
      → Stuck P.stream IsStuck
      → (client : Client P) (cbor : List ℕ) → P.codec.into_writer reset ≡ some cbor
      → IsStuck client.connection
      → send_message P client reset ≡ diverges
  unfolding send_message
  send_message-stuck Q h client cbor e k =
      ap (send_bytes P client) (encoded-some cbor e) ∙ by_bytes (P.codec.encode_vec cbor)
    where
      by_bytes : (bytes : List ℕ) → send_bytes P client (some (bytes ++ 0 ∷ [])) ≡ diverges
      by_bytes [] = rw (write_all-stuck P.stream Q h _ 0 [] client.connection k) refl
      by_bytes (b ∷ bs) =
          rw (write_all-stuck P.stream Q h _ b (bs ++ 0 ∷ []) client.connection k) refl

  -- If the first client's peer has stopped reading, the operator's command to reset all nodes keeps the
  -- service from ever coming back to its events, however many writes are put off: it handles no other
  -- client any more.
  pub serve-stuck :
      (IsStuck : P.stream.Connection → Type 0)
      → Stuck P.stream IsStuck
      → (expected : ℕ) (binary cbor : List ℕ) (events : List (Event P))
        (polls : List (List (Event P))) (s : Server P) (client : Client P)
        (others : Slab (Client P))
      → P.codec.into_writer reset ≡ some cbor
      → s.clients ≡ some client ∷ others
      → IsStuck client.connection
      → serve P expected binary ((stdin (some (codes "reset all")) ∷ events) ∷ polls) s ≡ diverges
  unfolding serve handle_events handle_event handle_stdin trim trim_start is_whitespace
      handle_command command_of handle_reset_and_halt_command send_all
  serve-stuck Q h expected binary cbor events polls s client others e first k =
      rw (first, send_message-stuck Q h client cbor e k) refl
