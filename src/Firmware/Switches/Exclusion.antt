-- ===== src/Firmware/Switches/Exclusion.antt =====
-- Receiver and transmitter are never both switched on (components/firmware/src/iv.rs).
use holistic_framework_for_l.Base.{◌≡◌, refl, ◌⊎◌, inl, inr, Bool, true, false, Option, none, some}
use holistic_framework_for_l.Firmware.Switches.{
  OutputPin, RadioError, rf_switch_rx_failed, rf_switch_tx_failed, Stm32wlInterfaceVariant,
  failure_of, lower, raise, then_rx, then_tx, enable_rf_switch_rx, enable_rf_switch_tx,
  disable_rf_switch, IsLow, IsHigh, IsExclusive,
}

module _ (P : OutputPin) where
  failure_of-none : (e : RadioError) (b : Bool) → failure_of P e b ≡ none → b ≡ true
  failure_of-none e true h = refl
  failure_of-none e false h = cc

  -- The switches are never both on, and without an error they are as they should.
  pub record Switched (Wanted : Stm32wlInterfaceVariant P → Type 0)
      (r : Option RadioError × Stm32wlInterfaceVariant P) : Type 0 where
    pub exclusive : IsExclusive P r.1
    pub as_wanted : r.0 ≡ none → Wanted r.1

  lower-keeps : (e : RadioError) (pin : Option P.Ctrl) → IsLow P pin → IsLow P (lower P e pin).1
  lower-keeps e none h = tt
  lower-keeps e (some pin) h = P.set_low_keeps pin h

  lower-IsLow :
      (e : RadioError) (pin : Option P.Ctrl) → (lower P e pin).0 ≡ none → IsLow P (lower P e pin).1
  lower-IsLow e none h = tt
  lower-IsLow e (some pin) h = P.set_low_done pin (failure_of-none e (P.set_low pin).0 h)

  raise-IsHigh :
      (e : RadioError) (pin : Option P.Ctrl) → (raise P e pin).0 ≡ none → IsHigh P (raise P e pin).1
  raise-IsHigh e none h = tt
  raise-IsHigh e (some pin) h = P.set_high_done pin (failure_of-none e (P.set_high pin).0 h)

  lowered_exclusive :
      (e : RadioError) (a b : Option P.Ctrl)
      → IsLow P a ⊎ IsLow P b
      → IsLow P a ⊎ IsLow P (lower P e b).1
  lowered_exclusive e a b (inl h) = inl h
  lowered_exclusive e a b (inr h) = inr (lower-keeps e b h)

  swap : {A B : Type 0} → A ⊎ B → B ⊎ A
  swap (inl a) = inr a
  swap (inr b) = inl b

  then_rx-Switched :
      (act : Option P.Ctrl → Option RadioError × Option P.Ctrl) (W : Option P.Ctrl → Type 0)
      (rx : Option P.Ctrl) (r : Option RadioError × Option P.Ctrl)
      → IsLow P rx ⊎ IsLow P r.1
      → (r.0 ≡ none → IsLow P r.1)
      → ((act rx).0 ≡ none → W (act rx).1)
      → Switched (λ w. W w.rf_switch_rx × IsLow P w.rf_switch_tx) (then_rx P act rx r)
  then_rx-Switched act W rx (some e, tx) h low wanted = record {
    exclusive = h;
    as_wanted = λ k. cc;
  }
  then_rx-Switched act W rx (none, tx) h low wanted = record {
    exclusive = inr (low refl);
    as_wanted = λ k. (wanted k, low refl);
  }

  then_tx-Switched :
      (act : Option P.Ctrl → Option RadioError × Option P.Ctrl) (W : Option P.Ctrl → Type 0)
      (tx : Option P.Ctrl) (r : Option RadioError × Option P.Ctrl)
      → IsLow P r.1 ⊎ IsLow P tx
      → (r.0 ≡ none → IsLow P r.1)
      → ((act tx).0 ≡ none → W (act tx).1)
      → Switched (λ w. IsLow P w.rf_switch_rx × W w.rf_switch_tx) (then_tx P act tx r)
  then_tx-Switched act W tx (some e, rx) h low wanted = record {
    exclusive = h;
    as_wanted = λ k. cc;
  }
  then_tx-Switched act W tx (none, rx) h low wanted = record {
    exclusive = inl (low refl);
    as_wanted = λ k. (low refl, wanted k);
  }

  abbrev pub IsReceiving : Stm32wlInterfaceVariant P → Type 0
  IsReceiving v = IsHigh P v.rf_switch_rx × IsLow P v.rf_switch_tx

  abbrev pub IsSending : Stm32wlInterfaceVariant P → Type 0
  IsSending v = IsLow P v.rf_switch_rx × IsHigh P v.rf_switch_tx

  abbrev pub IsOff : Stm32wlInterfaceVariant P → Type 0
  IsOff v = IsLow P v.rf_switch_rx × IsLow P v.rf_switch_tx

  -- If not both switches are on, then none of the three calls switches both on, whatever fails; and
  -- after a call without an error the receiver alone is on, the transmitter alone, or neither, as far
  -- as there is a switch.
  pub rf_switch-Switched :
      (v : Stm32wlInterfaceVariant P)
      → IsExclusive P v
      → Switched IsReceiving (enable_rf_switch_rx P v)
        × Switched IsSending (enable_rf_switch_tx P v)
        × Switched IsOff (disable_rf_switch P v)
  unfolding enable_rf_switch_rx enable_rf_switch_tx disable_rf_switch
  rf_switch-Switched v h =
      let rx = v.rf_switch_rx in
      let tx = v.rf_switch_tx in
      let rx_lowered : IsLow P (lower P rf_switch_rx_failed rx).1 ⊎ IsLow P tx =
        swap (lowered_exclusive rf_switch_rx_failed tx rx (swap h)) in
      (
        then_rx-Switched (raise P rf_switch_rx_failed) (IsHigh P) rx
            (lower P rf_switch_tx_failed tx) (lowered_exclusive rf_switch_tx_failed rx tx h)
            (lower-IsLow rf_switch_tx_failed tx) (raise-IsHigh rf_switch_rx_failed rx),
        then_tx-Switched (raise P rf_switch_tx_failed) (IsHigh P) tx
            (lower P rf_switch_rx_failed rx) rx_lowered (lower-IsLow rf_switch_rx_failed rx)
            (raise-IsHigh rf_switch_tx_failed tx),
        then_tx-Switched (lower P rf_switch_tx_failed) (IsLow P) tx (lower P rf_switch_rx_failed rx)
            rx_lowered (lower-IsLow rf_switch_rx_failed rx) (lower-IsLow rf_switch_tx_failed tx),
      )
