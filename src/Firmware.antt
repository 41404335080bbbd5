-- ===== src/Firmware.antt =====
-- The firmware, a host of one node (components/firmware/src/main.rs and iv.rs). What it calls of
-- embassy, lora-phy and postcard is an interface. Log output is left out.
pub mod Frequencies
pub mod Radio
pub mod Host
pub mod Listening
pub mod Running
pub mod Late
pub mod Switches
pub mod Bus
use holistic_framework_for_l.Base.{ℕ, ◌≤◌, ◌<◌, ◌≡◌, Bool, Option, List, HasValue}

-- A signal strength in dBm: `negsuc n` is -(n + 1).
pub data ℤ : Type 0 where
  pos : ℕ → ℤ
  negsuc : ℕ → ℤ

-- How `with_timeout(timeout, lora.rx(..))` ends: the buffer that was written and the strength, or
-- not with a packet.
pub data Reception : Type 0 where
  packet : List ℕ → ℤ → Reception
  failed : Reception
  timed_out : Reception

-- The timers and the radio, and the encoding of messages. `clock` is the time in milliseconds.
pub record Board (Message : Type 0) : Type 1 where
  pub State : Type 0
  pub Modulation : Type 0
  pub clock : State → ℕ
  pub now : State → ℕ × State
  pub timer_at : ℕ → State → State
  pub timer_after : ℕ → State → State
  -- `none` stands for an `Err`, as does `false`
  pub create_modulation_params : ℕ → State → Option Modulation × State
  pub prepare_for_rx : Modulation → State → Bool × State
  pub rx : ℕ → List ℕ → State → Reception × State
  pub enter_standby : State → State
  pub prepare_for_tx : Modulation → List ℕ → State → Bool × State
  pub tx : State → Bool × State
  pub from_bytes : List ℕ → Option Message
  pub to_vec : Message → Option (List ℕ)
  -- `now` reads the clock, which does not go back.
  pub now-clock : (s : State) → (now s).0 ≡ clock s
  pub clock-now : (s : State) → clock s ≤ clock (now s).1
  pub clock-create_modulation_params :
      (frequency : ℕ) (s : State) → clock s ≤ clock (create_modulation_params frequency s).1
  pub clock-prepare_for_rx : (m : Modulation) (s : State) → clock s ≤ clock (prepare_for_rx m s).1
  pub create-HasValue :
      (frequency : ℕ) (s : State) → HasValue (create_modulation_params frequency s).0
  -- A packet is longer on the air than a millisecond.
  pub clock-rx :
      (timeout : ℕ) (buffer received : List ℕ) (strength : ℤ) (s s' : State)
      → rx timeout buffer s ≡ (packet received strength, s')
      → clock s < clock s'
