-- ===== src/Cloud/Sending/Kept.antt =====
-- Sending changes nothing of a client but its connection (components/cloud/src/client.rs).
use holistic_framework_for_l.Base.{
  ℕ, ◌+◌, ◌≡◌, refl, ap, ◌∙◌, Bool, true, false, Option, none, some, List, [], ◌∷◌, length,
  Whenever, Whenever-map, Whenever-bind, Whenever-after, ◌>>=◌, as_u32,
}
use holistic_framework_for_l.Cloud.{
  Message, init_fw_update, fw_chunk, finish_fw_update, Parts, Client,
}
use holistic_framework_for_l.Cloud.Sending.{
  write_all, Sent, encoded, send_bytes, send_message, then_send, chunks_of, send_chunks,
  update_firmware,
}

module _ (P : Parts) where
  abbrev pub Keeps : Client P → Bool × Client P → Type 0
  Keeps c r = r.1 ≡ record c { connection = r.1.connection }

  pub send_message-Keeps : (c : Client P) (m : Message) → Whenever (Keeps c) (send_message P c m)
  unfolding send_message
  send_message-Keeps c m = of_encoding (encoded P m)
    where
      of_encoding : (o : Option (List ℕ)) → Whenever (Keeps c) (send_bytes P c o)
      of_encoding none = refl
      of_encoding (some buf) =
          Whenever-after (Keeps c)
            (write_all P.stream (length buf + P.stream.patience c.connection) buf c.connection) _
            (λ r. refl)

  Keeps-twice : (c d : Client P) (r : Bool × Client P) → Keeps c (true, d) → Keeps d r → Keeps c r
  Keeps-twice c d r h k = k ∙ ap (λ (x : Client P). record x { connection = r.1.connection }) h

  then_send-Keeps :
      (c : Client P) (next : Client P → Sent P) (r : Bool × Client P)
      → ((d : Client P) → Whenever (Keeps d) (next d))
      → Keeps c r
      → Whenever (Keeps c) (then_send P next r)
  then_send-Keeps c next (true, d) k h =
      Whenever-map _ _ (next d) (λ r e. Keeps-twice c d r h e) (k d)
  then_send-Keeps c next (false, d) k h = h

  -- A message, and then what keeps the rest of the client.
  message_then-Keeps :
      (c : Client P) (m : Message) (next : Client P → Sent P)
      → ((d : Client P) → Whenever (Keeps d) (next d))
      → Whenever (Keeps c) (send_message P c m >>= then_send P next)
  message_then-Keeps c m next k =
      Whenever-bind (Keeps c) (Keeps c) (send_message P c m) _ (send_message-Keeps c m)
        (λ r h. then_send-Keeps c next r k h)

  send_chunks-Keeps :
      (ws : List (List ℕ)) (offset : ℕ) (c : Client P)
      → Whenever (Keeps c) (send_chunks P offset ws c)
  unfolding send_chunks
  send_chunks-Keeps [] offset c = refl
  send_chunks-Keeps (w ∷ ws) offset c =
      message_then-Keeps c (fw_chunk (as_u32 offset) w) (send_chunks P (offset + length w) ws)
        (send_chunks-Keeps ws (offset + length w))

  pub update_firmware-Keeps :
      (c : Client P) (binary : List ℕ) → Whenever (Keeps c) (update_firmware P c binary)
  unfolding update_firmware
  update_firmware-Keeps c binary = message_then-Keeps c init_fw_update _ (λ d.
      Whenever-bind (Keeps d) (Keeps d) (send_chunks P 0 (chunks_of binary) d) _
        (send_chunks-Keeps (chunks_of binary) 0 d)
        (λ r h. then_send-Keeps d _ r (λ e. send_message-Keeps e finish_fw_update) h))
