-- ===== src/Cloud/Sending.antt =====
-- What the cloud service sends to a client (`send_message` and `update_firmware` in
-- components/cloud/src/client.rs).
pub mod Rounds
pub mod Delivered
pub mod Transmitted
pub mod Updates
pub mod Kept
use holistic_framework_for_l.Base.{
  ℕ, zero, suc, ◌+◌, Bool, true, false, Option, none, some, List, [], ◌∷◌, ◌++◌, length, drop,
  Outcome, ok, diverges, ◌>>=◌, ◌==◌, if◌then◌else◌, as_u32,
}
use holistic_framework_for_l.Crc.{Chunks, chunks}
use holistic_framework_for_l.Cloud.{
  Message, init_fw_update, fw_chunk, finish_fw_update, WriteResult, written, failed, Stream, Codec,
  Parts, Client,
}

abbrev pub bootloader_write_max_size : ℕ
bootloader_write_max_size = 256

-- The pieces that `slice::chunks` yields: the whole ones, and what is left.
abbrev pub pieces : Chunks → List (List ℕ)
pieces c = elim c.remainder [ [] ↦ c.words | b ∷ bs ↦ c.words ++ (b ∷ bs) ∷ [] ]

unfoldable pub chunks_of : List ℕ → List (List ℕ)
chunks_of binary = pieces (chunks bootloader_write_max_size bootloader_write_max_size [] binary)

module _ (S : Stream) where
  abbrev pub Written : Type 0
  Written = Outcome (Bool × S.Connection)

  abbrev pub after_write :
      (List ℕ → S.Connection → Written) → List ℕ → WriteResult × S.Connection → Written
  after_write again buf (written n, c) = if n == 0 then ok (false, c) else again (drop n buf) c
  after_write again buf (WriteResult.would_block, c) = again buf c
  after_write again buf (WriteResult.interrupted, c) = again buf c
  after_write again buf (WriteResult.failed, c) = ok (false, c)

  -- The loop of `send_message`: `false` stands for an error. It runs for as many rounds as it is given.
  unfoldable pub write_all : ℕ → List ℕ → S.Connection → Written
  write_all zero [] c = ok (true, c)
  write_all zero (b ∷ bs) c = diverges
  write_all (suc fuel) [] c = ok (true, c)
  write_all (suc fuel) (b ∷ bs) c = after_write (write_all fuel) (b ∷ bs) (S.write (b ∷ bs) c)

module _ (P : Parts) where
  -- A result, where `false` stands for an error, and the client.
  abbrev pub Sent : Type 0
  Sent = Outcome (Bool × Client P)

  -- The bytes of a message: COBS over CBOR, and a zero behind it.
  unfoldable pub encoded : Message → Option (List ℕ)
  encoded message = elim (P.codec.into_writer message) [
    | none ↦ none
    | some cbor ↦ some (P.codec.encode_vec cbor ++ 0 ∷ [])
  ]

  abbrev pub send_bytes : Client P → Option (List ℕ) → Sent
  send_bytes client none = ok (false, client)
  send_bytes client (some buf) =
      write_all P.stream (length buf + P.stream.patience client.connection) buf client.connection
      >>= λ (sent, connection). ok (sent, record client { connection = connection })

  -- The loop of the source has no bound. It is followed for a round for each byte, and one for each put-off
  -- write that the connection's patience allows; a peer that has used up that patience counts as one that
  -- never reads again, for which the loop diverges.
  unfoldable pub send_message : Client P → Message → Sent
  send_message client message = send_bytes client (encoded message)

  -- One send after the other, up to an error.
  abbrev pub then_send : (Client P → Sent) → Bool × Client P → Sent
  then_send next (true, client) = next client
  then_send next (false, client) = ok (false, client)

  -- The loop over the chunks, from an offset on.
  unfoldable pub send_chunks : ℕ → List (List ℕ) → Client P → Sent
  send_chunks offset [] client = ok (true, client)
  send_chunks offset (chunk ∷ others) client =
      send_message client (fw_chunk (as_u32 offset) chunk)
      >>= then_send (send_chunks (offset + length chunk) others)

  unfoldable pub update_firmware : Client P → List ℕ → Sent
  update_firmware client binary =
      send_message client init_fw_update
      >>= then_send (λ c.
        send_chunks 0 (chunks_of binary) c >>= then_send (λ d. send_message d finish_fw_update))
