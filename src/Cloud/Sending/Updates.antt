-- ===== src/Cloud/Sending/Updates.antt =====
-- A firmware update carries the image (`update_firmware` in components/cloud/src/client.rs).
use holistic_framework_for_l.Base.{
  ℕ, ◌+◌, ◌≤◌, ◌<◌, ◌≡◌, refl, sym, ap, ◌∙◌, Bool, true, false, Option, none, some, List, [], ◌∷◌,
  ◌++◌, arith, length, length-append, All, All-map, All-append, Returns, Returns-map, Returns-bind,
  ◌==◌, as_u32, u32_mod,
}
use mathlib.Core.List.{append_assoc, append-nil}
use holistic_framework_for_l.Crc.{Chunks, chunks}
use holistic_framework_for_l.Crc.Words.{joined, IsCut, chunks-IsCut}
use holistic_framework_for_l.Cloud.{
  Message, init_fw_update, fw_chunk, finish_fw_update, IsPatient, Parts, Client,
}
use holistic_framework_for_l.Cloud.Sending.{
  bootloader_write_max_size, pieces, chunks_of, send_message, send_chunks, update_firmware,
}
use holistic_framework_for_l.Cloud.Sending.Transmitted.{
  Transmitted, all, send_message-Transmitted, then_send-Transmitted,
}

abbrev then_write : Bool → (List ℕ → Option (List ℕ)) → List ℕ → Option (List ℕ)
then_write true rest image = rest image
then_write false rest image = none

-- The image that is in memory when each chunk is written where the one before it ends.
abbrev pub reassembled : List Message → List ℕ → Option (List ℕ)
reassembled [] image = some image
reassembled (fw_chunk offset bytes ∷ ms) image =
    then_write (offset == length image) (reassembled ms) (image ++ bytes)
reassembled (_ ∷ ms) image = none

-- A chunk that the bootloader can write in one go.
abbrev pub IsPiece : Message → Type 0
IsPiece (fw_chunk offset bytes) = (0 < length bytes) × (length bytes ≤ bootloader_write_max_size)
IsPiece _ = ⊥

abbrev chunk_messages : ℕ → List (List ℕ) → List Message
chunk_messages offset [] = []
chunk_messages offset (chunk ∷ others) =
    fw_chunk (as_u32 offset) chunk ∷ chunk_messages (offset + length chunk) others

reassembled-chunk_messages :
    (ws : List (List ℕ)) (offset : ℕ) (image : List ℕ)
    → length image ≡ offset
    → offset + length (joined ws) < u32_mod
    → reassembled (chunk_messages offset ws) image ≡ some (image ++ joined ws)
reassembled-chunk_messages [] offset image e h = ap some (sym (append-nil image))
reassembled-chunk_messages (w ∷ ws) offset image e h =
    let in_place : (as_u32 offset == length image) ≡ true =
      ground (arith, length-append w (joined ws)) in
    rw in_place (
      reassembled-chunk_messages ws (offset + length w) (image ++ w)
        (omega (arith, length-append image w)) (omega (arith, length-append w (joined ws)))
      ∙ ap some (append_assoc image w (joined ws)))

-- The pieces of some bytes are these bytes, cut.
joined-append : (vs ws : List (List ℕ)) → joined (vs ++ ws) ≡ joined vs ++ joined ws
joined-append [] ws = refl
joined-append (v ∷ vs) ws =
    ap (λ l. v ++ l) (joined-append vs ws) ∙ sym (append_assoc v (joined vs) (joined ws))

joined-pieces : (c : Chunks) → joined (pieces c) ≡ joined c.words ++ c.remainder
joined-pieces c = of_remainder c.remainder
  where
    of_remainder :
        (r : List ℕ)
        → joined (pieces (record { words = c.words; remainder = r })) ≡ joined c.words ++ r
    of_remainder [] = sym (append-nil (joined c.words))
    of_remainder (b ∷ bs) =
        joined-append c.words ((b ∷ bs) ∷ []) ∙ ap (λ l. joined c.words ++ l) (append-nil (b ∷ bs))

abbrev Fits : List ℕ → Type 0
Fits w = (0 < length w) × (length w ≤ bootloader_write_max_size)

pieces-Fits :
    (bytes : List ℕ) (c : Chunks) → IsCut bootloader_write_max_size bytes c → All Fits (pieces c)
pieces-Fits bytes c k = of_remainder c.remainder k.short
  where
    words : All Fits c.words
    words =
        All-map (λ w. length w ≡ bootloader_write_max_size) Fits (λ w e. (omega arith, omega arith))
          c.words k.sized

    of_remainder :
        (r : List ℕ)
        → length r < bootloader_write_max_size
        → All Fits (pieces (record { words = c.words; remainder = r }))
    of_remainder [] h = words
    of_remainder (b ∷ bs) h =
        All-append Fits c.words ((b ∷ bs) ∷ []) words ((omega arith, omega arith), tt)

chunk_messages-IsPiece :
    (ws : List (List ℕ)) (offset : ℕ) → All Fits ws → All IsPiece (chunk_messages offset ws)
chunk_messages-IsPiece [] offset h = tt
chunk_messages-IsPiece (w ∷ ws) offset h = (h.0, chunk_messages-IsPiece ws (offset + length w) h.1)

module _ (P : Parts) where
  send_chunks-Transmitted :
      (patient : IsPatient P.stream) (ws : List (List ℕ)) (offset : ℕ) (c : Client P)
      → Returns (Transmitted P (chunk_messages offset ws) c) (send_chunks P offset ws c)
  unfolding send_chunks
  send_chunks-Transmitted patient [] offset c = all c [] refl (sym (append-nil _))
  send_chunks-Transmitted patient (w ∷ ws) offset c =
      let first = fw_chunk (as_u32 offset) w in
      Returns-bind _ _ (send_message P c first) _ (send_message-Transmitted P patient c first)
        (λ r t.
          then_send-Transmitted P (first ∷ []) (chunk_messages (offset + length w) ws) c
            (send_chunks P (offset + length w) ws) r
            (send_chunks-Transmitted patient ws (offset + length w)) t)

  -- What an update has sent: a start, chunks from which the image can be put together, and an end, or
  -- with an error the front of these.
  pub record IsUpdated (binary : List ℕ) (c : Client P) (r : Bool × Client P) : Type 0 where
    pub chunks : List Message
    pub small : All IsPiece chunks
    pub restores : reassembled chunks [] ≡ some binary
    pub transmitted : Transmitted P (init_fw_update ∷ (chunks ++ finish_fw_update ∷ [])) c r

  -- If the peers go on reading, an update of an image below 4 GB returns. It sends a start, the image
  -- in chunks of 1 to 256 bytes, each with the offset at which the one before it ends, and an end;
  -- after an error, what has been sent is the front of that.
  pub update_firmware-IsUpdated :
      (client : Client P) (binary : List ℕ)
      → IsPatient P.stream
      → length binary < u32_mod
      → Returns (IsUpdated binary client) (update_firmware P client binary)
  unfolding update_firmware chunks_of
  update_firmware-IsUpdated client binary patient h =
      let cut =
        chunks-IsCut bootloader_write_max_size bootloader_write_max_size [] binary (omega arith)
          (omega arith) in
      let c = chunks bootloader_write_max_size bootloader_write_max_size [] binary in
      let whole : joined (pieces c) ≡ binary = joined-pieces c ∙ cut.complete in
      let ms = chunk_messages 0 (pieces c) in
      Returns-map (Transmitted P (init_fw_update ∷ (ms ++ finish_fw_update ∷ [])) client)
        (IsUpdated binary client) _
        (λ r t. record {
          chunks = ms;
          small = chunk_messages-IsPiece (pieces c) 0 (pieces-Fits binary c cut);
          restores =
              reassembled-chunk_messages (pieces c) 0 [] refl (omega (arith, ap length whole))
              ∙ ap some whole;
          transmitted = t;
        })
        (Returns-bind _ _ (send_message P client init_fw_update) _
          (send_message-Transmitted P patient client init_fw_update)
          (λ r t.
            then_send-Transmitted P (init_fw_update ∷ []) (ms ++ finish_fw_update ∷ []) client _ r
              (λ d.
                Returns-bind _ _ (send_chunks P 0 (pieces c) d) _
                  (send_chunks-Transmitted patient (pieces c) 0 d)
                  (λ s u.
                    then_send-Transmitted P ms (finish_fw_update ∷ []) d _ s
                      (λ e. send_message-Transmitted P patient e finish_fw_update) u))
              t))
