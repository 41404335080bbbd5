-- ===== src/Firmware/Switches.antt =====
-- The switches between antenna, receiver and transmitter (`Stm32wlInterfaceVariant` in
-- components/firmware/src/iv.rs).
pub mod Exclusion
use holistic_framework_for_l.Base.{◌≡◌, ◌⊎◌, Bool, true, false, Option, none, some}

-- An `OutputPin` of embedded-hal: `false` stands for an `Err`. A call that returns without an error
-- has set the pin, and one that is to set it low never raises it.
pub record OutputPin : Type 1 where
  pub Ctrl : Type 0
  pub set_low : Ctrl → Bool × Ctrl
  pub set_high : Ctrl → Bool × Ctrl
  pub is_high : Ctrl → Bool
  pub set_low_done : (p : Ctrl) → (set_low p).0 ≡ true → is_high (set_low p).1 ≡ false
  pub set_low_keeps : (p : Ctrl) → is_high p ≡ false → is_high (set_low p).1 ≡ false
  pub set_high_done : (p : Ctrl) → (set_high p).0 ≡ true → is_high (set_high p).1 ≡ true

pub data RadioError : Type 0 where
  rf_switch_rx_failed : RadioError
  rf_switch_tx_failed : RadioError

module _ (P : OutputPin) where
  pub record Stm32wlInterfaceVariant : Type 0 where
    pub rf_switch_rx : Option P.Ctrl
    pub rf_switch_tx : Option P.Ctrl

  abbrev pub failure_of : RadioError → Bool → Option RadioError
  failure_of e true = none
  failure_of e false = some e

  -- `pin.set_low().map_err(..)`, if there is a pin, and the same for `set_high`.
  abbrev pub lower : RadioError → Option P.Ctrl → Option RadioError × Option P.Ctrl
  lower e none = (none, none)
  lower e (some pin) = let (done, pin') = P.set_low pin in (failure_of e done, some pin')

  abbrev pub raise : RadioError → Option P.Ctrl → Option RadioError × Option P.Ctrl
  raise e none = (none, none)
  raise e (some pin) = let (done, pin') = P.set_high pin in (failure_of e done, some pin')

  abbrev pub then_rx :
      (Option P.Ctrl → Option RadioError × Option P.Ctrl)
      → Option P.Ctrl
      → Option RadioError × Option P.Ctrl
      → Option RadioError × Stm32wlInterfaceVariant
  then_rx act rx (some e, tx) = (some e, record { rf_switch_rx = rx; rf_switch_tx = tx })
  then_rx act rx (none, tx) =
      let (e, rx') = act rx in (e, record { rf_switch_rx = rx'; rf_switch_tx = tx })

  abbrev pub then_tx :
      (Option P.Ctrl → Option RadioError × Option P.Ctrl)
      → Option P.Ctrl
      → Option RadioError × Option P.Ctrl
      → Option RadioError × Stm32wlInterfaceVariant
  then_tx act tx (some e, rx) = (some e, record { rf_switch_rx = rx; rf_switch_tx = tx })
  then_tx act tx (none, rx) =
      let (e, tx') = act tx in (e, record { rf_switch_rx = rx; rf_switch_tx = tx' })

  unfoldable pub enable_rf_switch_rx :
      Stm32wlInterfaceVariant → Option RadioError × Stm32wlInterfaceVariant
  enable_rf_switch_rx v =
      then_rx (raise rf_switch_rx_failed) v.rf_switch_rx (lower rf_switch_tx_failed v.rf_switch_tx)

  unfoldable pub enable_rf_switch_tx :
      Stm32wlInterfaceVariant → Option RadioError × Stm32wlInterfaceVariant
  enable_rf_switch_tx v =
      then_tx (raise rf_switch_tx_failed) v.rf_switch_tx (lower rf_switch_rx_failed v.rf_switch_rx)

  unfoldable pub disable_rf_switch :
      Stm32wlInterfaceVariant → Option RadioError × Stm32wlInterfaceVariant
  disable_rf_switch v =
      then_tx (lower rf_switch_tx_failed) v.rf_switch_tx (lower rf_switch_rx_failed v.rf_switch_rx)

  abbrev pub IsLow : Option P.Ctrl → Type 0
  IsLow none = Unit
  IsLow (some pin) = P.is_high pin ≡ false

  abbrev pub IsHigh : Option P.Ctrl → Type 0
  IsHigh none = Unit
  IsHigh (some pin) = P.is_high pin ≡ true

  -- Not both switches are on.
  abbrev pub IsExclusive : Stm32wlInterfaceVariant → Type 0
  IsExclusive v = IsLow v.rf_switch_rx ⊎ IsLow v.rf_switch_tx
