-- ===== src/Firmware/Listening.antt =====
-- The loop in which the firmware listens ends, and what it hears (components/firmware/src/main.rs).
use holistic_framework_for_l.Base.{
  ◌-◌, ℕ, zero, suc, ◌≤◌, ◌<◌, ◌≡◌, refl, inl, inr, Bool, true, false, Bool-cases, Option, none,
  some, List, arith, Outcome, Returns, ltb, sub_u64,
}
use holistic_framework_for_l.Firmware.{ℤ, Reception, packet, failed, timed_out, Board}
use holistic_framework_for_l.Firmware.Radio.{
  max_message_size, is_weak, insufficient_signal_strength, radio_error, timeout, ReceiveResult,
  received, error, zeros, result_of, receive_prepared, lora_receive, decoded, heard, listen,
}

module _ {Message : Type 0} (B : Board Message) where
  -- A packet that is strong enough has been received, as the last thing that happened.
  abbrev pub IsStrong : List ℕ → B.State → Type 0
  IsStrong buffer board =
      (duration : ℕ) × (before : B.State) × (rssi : ℤ) × (B.rx duration (zeros max_message_size)
          before
        ≡ (packet buffer rssi, board))
      × (is_weak rssi ≡ false)

  -- What the loop returns: nothing, or a message that came in a packet that is strong enough.
  abbrev pub Heard : Option Message × B.State → Type 0
  Heard (none, board) = Unit
  Heard (some message, board) =
      (buffer : List ℕ) × (B.from_bytes buffer ≡ some message) × IsStrong buffer board

  -- What is known of a reception by its result.
  abbrev Afterwards : ℕ → ReceiveResult × B.State → Type 0
  Afterwards t (received buffer, board) = (t < B.clock board) × IsStrong buffer board
  Afterwards t (error insufficient_signal_strength, board) = t < B.clock board
  Afterwards t (error radio_error, board) = Unit
  Afterwards t (error timeout, board) = Unit

  reception-Afterwards :
      (t duration : ℕ) (board : B.State) (r : Reception) (board' : B.State)
      → t ≤ B.clock board
      → B.rx duration (zeros max_message_size) board ≡ (r, board')
      → Afterwards t (result_of r, board')
  reception-Afterwards t d board (packet buffer rssi) board' h e =
      let later : t < B.clock board' =
        omega (arith, B.clock-rx d (zeros max_message_size) buffer rssi board board' e) in
      elim (Bool-cases (is_weak rssi)) [
        | inl weak ↦ rw weak later
        | inr strong ↦ rw strong (later, (d, board, rssi, e, strong))
      ]
  reception-Afterwards t d board failed board' h e = tt
  reception-Afterwards t d board timed_out board' h e = tt

  lora_receive-Afterwards :
      (t duration : ℕ) (modulation : B.Modulation) (board : B.State)
      → t ≤ B.clock board
      → Afterwards t (lora_receive B modulation duration board)
  unfolding lora_receive
  lora_receive-Afterwards t d modulation board h =
      prepared (B.prepare_for_rx modulation board)
        (omega (arith, B.clock-prepare_for_rx modulation board))
    where
      prepared : (p : Bool × B.State) → t ≤ B.clock p.1 → Afterwards t (receive_prepared B d p)
      prepared (false, b) h = tt
      prepared (true, b) h =
          let r = B.rx d (zeros max_message_size) b in reception-Afterwards t d b r.0 r.1 h refl

  -- `heard` returns what has been heard, if the rest of the loop does so when time has passed.
  heard-Heard :
      (t : ℕ) (again : B.State → Outcome (Option Message × B.State))
      → ((b : B.State) → t < B.clock b → Returns Heard (again b))
      → (r : ReceiveResult × B.State) → Afterwards t r
      → Returns Heard (heard B again r)
  heard-Heard t again k (received buffer, b) h = of_decoded (B.from_bytes buffer) refl
    where
      of_decoded :
          (m : Option Message) → B.from_bytes buffer ≡ m → Returns Heard (decoded B again m b)
      of_decoded none e = k b h.0
      of_decoded (some message) e = (buffer, e, h.1)
  heard-Heard t again k (error insufficient_signal_strength, b) h = k b h
  heard-Heard t again k (error radio_error, b) h = tt
  heard-Heard t again k (error timeout, b) h = tt

  -- With a round for each millisecond that is left, and one more, the loop ends, and a message that
  -- it returns came in the last packet, which was not weak.
  pub listen-Heard :
      (fuel : ℕ) (modulation : B.Modulation) (end now : ℕ) (board : B.State)
      → now ≤ B.clock board
      → end - now < fuel
      → Returns Heard (listen B fuel modulation end now board)
  unfolding listen
  listen-Heard zero modulation end now board h enough = absurd (omega arith)
  listen-Heard (suc fuel) modulation end now board h enough = elim (Bool-cases (ltb now end)) [
    | inr over ↦ rw over tt
    | inl more ↦
        let again : (b : B.State)
            → now < B.clock b
            → Returns Heard (listen B fuel modulation end (B.now b).0 (B.now b).1) =
          λ b later.
            listen-Heard fuel modulation end (B.now b).0 (B.now b).1
              (omega (arith, B.now-clock b, B.clock-now b)) (ground (arith, B.now-clock b)) in
        rw more (
          heard-Heard now _ again _
            (lora_receive-Afterwards now (sub_u64 end now) modulation board h))
  ]
