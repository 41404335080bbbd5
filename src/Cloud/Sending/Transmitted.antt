-- ===== src/Cloud/Sending/Transmitted.antt =====
-- What messages, sent one after the other, come to on the wire (components/cloud/src/client.rs).
use holistic_framework_for_l.Base.{
  ℕ, ◌+◌, ◌≡◌, refl, sym, ap, ◌∙◌, Bool, true, false, Option, none, some, List, [], ◌∷◌, ◌++◌,
  arith, length, Returns, Returns-map, Returns-bind,
}
use mathlib.Core.List.{append_assoc, append-nil}
use holistic_framework_for_l.Cloud.{Message, IsPatient, Parts, Client}
use holistic_framework_for_l.Cloud.Sending.{Sent, encoded, send_bytes, send_message, then_send}
use holistic_framework_for_l.Cloud.Sending.Delivered.{Delivered, whole, part, write_all-Delivered}

module _ (P : Parts) where
  open P use {stream}

  -- The bytes of messages, one after the other, if each can be encoded.
  abbrev pub in_front : Option (List ℕ) → Option (List ℕ) → Option (List ℕ)
  in_front none o = none
  in_front (some buf) none = none
  in_front (some buf) (some others) = some (buf ++ others)

  abbrev pub encoded_all : List Message → Option (List ℕ)
  encoded_all [] = some []
  encoded_all (m ∷ ms) = in_front (encoded P m) (encoded_all ms)

  in_front-some :
      (o q : Option (List ℕ)) (a : List ℕ)
      → in_front o q ≡ some a
      → (x : List ℕ) × (y : List ℕ) × (o ≡ some x) × (q ≡ some y) × (x ++ y ≡ a)
  in_front-some none q a e = cc
  in_front-some (some x) none a e = cc
  in_front-some (some x) (some y) a e = (x, y, refl, refl, cc)

  -- Bytes with which the encoding of a message begins; none, if it cannot be encoded.
  pub data IsFront (m : Message) (front : List ℕ) : Type 0 where
    of_frame : (rest : List ℕ) → encoded P m ≡ some (front ++ rest) → IsFront m front
    of_none : encoded P m ≡ none → front ≡ [] → IsFront m front

  -- What has been sent of some messages: all of them, or, with an error, those in front of one and
  -- some bytes of that one.
  pub data Transmitted (ms : List Message) (c : Client P) : Bool × Client P → Type 0 where
    all :
        (c' : Client P) (bytes : List ℕ)
        → encoded_all ms ≡ some bytes
        → stream.sent c'.connection ≡ stream.sent c.connection ++ bytes
        → Transmitted ms c (true, c')
    up_to :
        (c' : Client P) (before after : List Message) (m : Message) (bytes front : List ℕ)
        → before ++ m ∷ after ≡ ms
        → encoded_all before ≡ some bytes
        → IsFront m front
        → stream.sent c'.connection ≡ stream.sent c.connection ++ (bytes ++ front)
        → Transmitted ms c (false, c')

  Delivered-Transmitted :
      (c : Client P) (m : Message) (buf : List ℕ) (r : Bool × stream.Connection)
      → encoded P m ≡ some buf
      → Delivered stream buf c.connection r
      → Transmitted (m ∷ []) c (r.0, record c { connection = r.1 })
  Delivered-Transmitted c m buf _ e (whole d h) =
      all _ (buf ++ []) (rw e refl)
        (h ∙ ap (λ l. stream.sent c.connection ++ l) (sym (append-nil buf)))
  Delivered-Transmitted c m buf _ e (part d front rest k h) =
      up_to _ [] [] m [] front refl refl (of_frame rest (e ∙ ap some (sym k))) h

  pub send_message-Transmitted :
      (patient : IsPatient stream) (c : Client P) (m : Message)
      → Returns (Transmitted (m ∷ []) c) (send_message P c m)
  unfolding send_message
  send_message-Transmitted patient c m = of_encoding (encoded P m) refl
    where
      of_encoding :
          (o : Option (List ℕ))
          → encoded P m ≡ o
          → Returns (Transmitted (m ∷ []) c) (send_bytes P c o)
      of_encoding none e = up_to c [] [] m [] [] refl refl (of_none e refl) (sym (append-nil _))
      of_encoding (some buf) e =
          Returns-bind (Delivered stream buf c.connection) (Transmitted (m ∷ []) c) _ _
            (write_all-Delivered stream patient (length buf + stream.patience c.connection) buf
              c.connection (omega arith))
            (λ r d. Delivered-Transmitted c m buf r e d)

  encoded_all-append :
      (ms ns : List Message) (a b : List ℕ)
      → encoded_all ms ≡ some a
      → encoded_all ns ≡ some b
      → encoded_all (ms ++ ns) ≡ some (a ++ b)
  encoded_all-append [] ns a b h k =
      let none_sent : [] ≡ a = cc in k ∙ ap (λ l. some (l ++ b)) none_sent
  encoded_all-append (m ∷ ms) ns a b h k =
      let (x, y, first, others, both) = in_front-some (encoded P m) (encoded_all ms) a h in
      rw first (
        rw (encoded_all-append ms ns y b others k)
          (ap some (sym (append_assoc x y b) ∙ ap (λ l. l ++ b) both)))

  Transmitted-behind :
      (ms ns : List Message) (c c' : Client P) (a : List ℕ) (r : Bool × Client P)
      → encoded_all ms ≡ some a
      → stream.sent c'.connection ≡ stream.sent c.connection ++ a
      → Transmitted ns c' r
      → Transmitted (ms ++ ns) c r
  Transmitted-behind ms ns c c' a _ e s (all d b k h) =
      all d (a ++ b) (encoded_all-append ms ns a b e k)
        (h ∙ ap (λ l. l ++ b) s ∙ append_assoc (stream.sent c.connection) a b)
  Transmitted-behind ms ns c c' a _ e s (up_to d before after m b front split k f h) =
      up_to d (ms ++ before) after m (a ++ b) front
        (append_assoc ms before (m ∷ after) ∙ ap (λ l. ms ++ l) split)
        (encoded_all-append ms before a b e k) f
        (h
          ∙ ap (λ l. l ++ (b ++ front)) s
          ∙ append_assoc (stream.sent c.connection) a (b ++ front)
          ∙ ap (λ l. stream.sent c.connection ++ l) (sym (append_assoc a b front)))

  -- Sends one after the other have transmitted their messages one after the other.
  pub then_send-Transmitted :
      (ms ns : List Message) (c : Client P) (next : Client P → Sent P) (r : Bool × Client P)
      → ((d : Client P) → Returns (Transmitted ns d) (next d))
      → Transmitted ms c r
      → Returns (Transmitted (ms ++ ns) c) (then_send P next r)
  then_send-Transmitted ms ns c next _ k (all d a e s) =
      Returns-map _ _ (next d) (λ r t. Transmitted-behind ms ns c d a r e s t) (k d)
  then_send-Transmitted ms ns c next _ k (up_to d before after m b front split e f s) =
      up_to d before (after ++ ns) m b front
        (sym (append_assoc before (m ∷ after) ns) ∙ ap (λ l. l ++ ns) split) e f s
