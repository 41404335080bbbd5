-- ===== src/Cloud/Commands/Answered.antt =====
-- What the commands to reset and to halt do to the clients (components/cloud/src/main.rs).
use holistic_framework_for_l.Base.{
  ℕ, ok, panic, diverges, ◌>>=◌, Returns-map, ◌≡◌, refl, ◌⊎◌, inl, inr, Bool, true, false,
  Bool-cases, Option, none, some, List, [], ◌∷◌, set, Returns, Returns-bind, Returns-Whenever, Ends,
  if◌then◌else◌,
}
use holistic_framework_for_l.Slab
use holistic_framework_for_l.Slab.{Slab}
use holistic_framework_for_l.Cloud.{Message, reset, halt, IsPatient, Parts, Client, identifier_str}
use holistic_framework_for_l.Cloud.Sending.{send_message}
use holistic_framework_for_l.Cloud.Sending.Transmitted.{Transmitted, send_message-Transmitted}
use holistic_framework_for_l.Cloud.Sending.Kept.{Keeps, send_message-Keeps}
use holistic_framework_for_l.Cloud.Commands.{
  Obeyed, after_sending, send_all, send_to, send_to_index, parse_usize, same, codes,
  handle_reset_and_halt_command,
}

module _ (P : Parts) where
  -- A client has been sent a message, at least in part, and only its connection is another.
  abbrev pub IsGiven : Message → Client P → Bool × Client P → Type 0
  IsGiven m c r = Transmitted P (m ∷ []) c r × Keeps P c r

  send_message-IsGiven :
      (patient : IsPatient P.stream) (c : Client P) (m : Message)
      → Returns (IsGiven m c) (send_message P c m)
  send_message-IsGiven patient c m =
      Returns-Whenever (Transmitted P (m ∷ []) c) (Keeps P c) (send_message P c m)
        (send_message-Transmitted P patient c m) (send_message-Keeps P c m)

  -- How far a message for all clients has come: it went to the clients one after the other, up to the
  -- first that it could not be sent to in full.
  pub data IsSentTo (m : Message) : Slab (Client P) → Bool × Slab (Client P) → Type 0 where
    to_none : IsSentTo m [] (true, [])
    past_free :
        (cs ds : Slab (Client P)) (done : Bool)
        → IsSentTo m cs (done, ds)
        → IsSentTo m (none ∷ cs) (done, none ∷ ds)
    past_client :
        (c d : Client P) (cs ds : Slab (Client P)) (done : Bool)
        → IsGiven m c (true, d)
        → IsSentTo m cs (done, ds)
        → IsSentTo m (some c ∷ cs) (done, some d ∷ ds)
    failing :
        (c d : Client P) (cs : Slab (Client P))
        → IsGiven m c (false, d)
        → IsSentTo m (some c ∷ cs) (false, some d ∷ cs)

  send_all-IsSentTo :
      (patient : IsPatient P.stream) (m : Message) (clients : Slab (Client P))
      → Returns (IsSentTo m clients) (send_all P m clients)
  unfolding send_all
  send_all-IsSentTo patient m [] = to_none
  send_all-IsSentTo patient m (none ∷ cs) =
      Returns-bind (IsSentTo m cs) (IsSentTo m (none ∷ cs)) (send_all P m cs) _
        (send_all-IsSentTo patient m cs) (λ (done, ds) r. past_free cs ds done r)
  send_all-IsSentTo patient m (some c ∷ cs) =
      Returns-bind (IsGiven m c) (IsSentTo m (some c ∷ cs)) (send_message P c m) _
        (send_message-IsGiven patient c m) (λ r t. after r t (send_all-IsSentTo patient m cs))
    where
      after :
          (r : Bool × Client P)
          → IsGiven m c r
          → Returns (IsSentTo m cs) (send_all P m cs)
          → Returns (IsSentTo m (some c ∷ cs)) (after_sending P (send_all P m cs) cs r)
      after (true, d) t k =
          Returns-bind (IsSentTo m cs) (IsSentTo m (some c ∷ cs)) (send_all P m cs) _ k
            (λ (done, ds) s. past_client c d cs ds done t s)
      after (false, d) t k = failing c d cs t

  -- What a command to reset or to halt does.
  pub data IsObeyed (m : Message) (argument : List ℕ) (clients : Slab (Client P))
      : Bool × Slab (Client P) → Type 0 where
    to_all :
        (r : Bool × Slab (Client P))
        → same argument (codes "all") ≡ true
        → IsSentTo m clients r
        → IsObeyed m argument clients r
    to_one :
        (index : ℕ) (c d : Client P) (done : Bool)
        → parse_usize argument ≡ some index
        → Slab.get clients index ≡ some c
        → IsGiven m c (done, d)
        → IsObeyed m argument clients (done, set clients index (some d))
    to_nobody :
        (parse_usize argument ≡ none)
          ⊎ ((index : ℕ) × (parse_usize argument ≡ some index) × (Slab.get clients index ≡ none))
        → IsObeyed m argument clients (false, clients)

  -- The argument names a client that has not told who it is and has lost its address.
  abbrev pub IsNameless : List ℕ → Slab (Client P) → Type 0
  IsNameless argument clients =
      (same argument (codes "all") ≡ false)
      × (index : ℕ) × (c : Client P) × (parse_usize argument ≡ some index)
      × (Slab.get clients index ≡ some c)
      × (c.node_id ≡ none)
      × (P.stream.peer_addr c.connection ≡ none)

  -- What the command comes to: what it does, or a panic for want of a name.
  abbrev pub Answers : Message → List ℕ → Slab (Client P) → Obeyed P → Type 0
  Answers m argument clients (ok r) = IsObeyed m argument clients r
  Answers m argument clients panic = IsNameless argument clients
  Answers m argument clients diverges = ⊥

  Returns-Answers :
      (m : Message) (argument : List ℕ) (clients : Slab (Client P)) (o : Obeyed P)
      → Returns (IsObeyed m argument clients) o
      → Answers m argument clients o
  Returns-Answers m argument clients (ok r) h = h
  Returns-Answers m argument clients panic h = absurd h
  Returns-Answers m argument clients diverges h = absurd h

  pub Answers-Ends :
      (m : Message) (argument : List ℕ) (clients : Slab (Client P)) (o : Obeyed P)
      → Answers m argument clients o
      → Ends (IsObeyed m argument clients) o
  Answers-Ends m argument clients (ok r) h = h
  Answers-Ends m argument clients panic h = tt
  Answers-Ends m argument clients diverges h = absurd h

  -- A client has a name, or it has neither told who it is nor an address.
  identifier_str-cases :
      (c : Client P)
      → (identifier_str P c ≡ ok tt)
        ⊎ ((c.node_id ≡ none)
            × (P.stream.peer_addr c.connection ≡ none)
            × (identifier_str P c ≡ panic))
  unfolding identifier_str
  identifier_str-cases c = by_id c.node_id refl (P.stream.peer_addr c.connection) refl
    where
      by_id :
          (o : Option ℕ)
          → c.node_id ≡ o
          → (a : Option (List ℕ)) → P.stream.peer_addr c.connection ≡ a
          → (identifier_str P c ≡ ok tt)
            ⊎ ((c.node_id ≡ none)
                × (P.stream.peer_addr c.connection ≡ none)
                × (identifier_str P c ≡ panic))
      by_id (some id) i a e = inl (rw i refl)
      by_id none i (some address) e = inl (rw (i, e) refl)
      by_id none i none e = inr (i, e, rw (i, e) refl)

  pub handle_reset_and_halt_command-Answers :
      (is_reset : Bool) (argument : List ℕ) (clients : Slab (Client P))
      → IsPatient P.stream
      → Answers
          (if is_reset then reset else halt)
          argument
          clients
          (handle_reset_and_halt_command P is_reset argument clients)
  unfolding handle_reset_and_halt_command
  handle_reset_and_halt_command-Answers is_reset argument clients patient =
      let m = if is_reset then reset else halt in
      elim (Bool-cases (same argument (codes "all"))) [
        | inl whole ↦ rw whole (
            Returns-Answers m argument clients (send_all P m clients) (
              Returns-map (IsSentTo m clients) (IsObeyed m argument clients) (send_all P m clients)
                (λ r s. to_all r whole s) (send_all-IsSentTo patient m clients)))
        | inr one ↦ rw one (parsed one m (parse_usize argument) refl)
      ]
    where
      given :
          (m : Message) (index : ℕ) (c : Client P)
          → parse_usize argument ≡ some index
          → Slab.get clients index ≡ some c
          → Answers m argument clients
              (send_message P c m >>= λ (done, d). ok (done, set clients index (some d)))
      given m index c e g = Returns-Answers m argument clients _ (
          Returns-bind (IsGiven m c) (IsObeyed m argument clients) (send_message P c m) _
            (send_message-IsGiven patient c m) (λ (done, d) t. to_one index c d done e g t))

      sent :
          same argument (codes "all") ≡ false
          → (m : Message) (index : ℕ) (o : Option (Client P)) → parse_usize argument ≡ some index
          → Slab.get clients index ≡ o
          → Answers m argument clients (send_to P m index o clients)
      sent one m index none e g = to_nobody (inr (index, e, g))
      sent one m index (some c) e g = elim (identifier_str-cases c) [
        | inl named ↦ rw named (given m index c e g)
        | inr (id, address, nameless) ↦ rw nameless (one, index, c, e, g, id, address)
      ]

      parsed :
          same argument (codes "all") ≡ false
          → (m : Message) (o : Option ℕ) → parse_usize argument ≡ o
          → Answers m argument clients (send_to_index P m o clients)
      parsed one m none e = to_nobody (inl e)
      parsed one m (some index) e = sent one m index (Slab.get clients index) e refl
