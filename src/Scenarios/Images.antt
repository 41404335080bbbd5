-- ===== src/Scenarios/Images.antt =====
-- The theorems on the image of a firmware and on the drivers of the radio, applied to concrete data
-- (components/cloud/src/elf.rs and components/firmware/src/iv.rs).
use holistic_framework_for_l.Base.{
  ℕ, ◌≡◌, refl, inl, Bool, true, false, none, some, List, [], ◌∷◌, arith, ok, Returns,
}
use holistic_framework_for_l.Cloud.Elf.{
  Segment, ElfFile, has_sections, extract_segment, extract_all, overwrite, fill, extract_from_elf,
}
use holistic_framework_for_l.Cloud.Elf.Image.{IsImageOrError, extract_from_elf-IsImage}
use holistic_framework_for_l.Firmware.Switches.{
  OutputPin, Stm32wlInterfaceVariant, enable_rf_switch_rx, enable_rf_switch_tx, disable_rf_switch,
}
use holistic_framework_for_l.Firmware.Switches.Exclusion.{
  Switched, IsReceiving, IsSending, IsOff, rf_switch-Switched,
}
use holistic_framework_for_l.Firmware.Bus.{read, write, SpiBus, transaction}
use holistic_framework_for_l.Firmware.Bus.Transactions.{IsTransacted, transaction-IsTransacted}

-- Two segments of two bytes, with a gap of four bytes, and one at the first address that is not loaded.
abbrev first_segment : Segment
first_segment = record {
  physical_addr = 100;
  segment_data = some (5 ∷ 6 ∷ []);
  is_load = true;
  offset = 2;
  filesize = 2;
}

abbrev second_segment : Segment
second_segment = record {
  physical_addr = 106;
  segment_data = some (7 ∷ 8 ∷ []);
  is_load = true;
  offset = 4;
  filesize = 2;
}

abbrev other_segment : Segment
other_segment = record {
  physical_addr = 100;
  segment_data = some (7 ∷ 8 ∷ []);
  is_load = false;
  offset = 4;
  filesize = 2;
}

abbrev segments : List Segment
segments = first_segment ∷ second_segment ∷ other_segment ∷ []

abbrev file : ElfFile
file = record {
  elf_file = 0 ∷ 0 ∷ 5 ∷ 6 ∷ 7 ∷ 8 ∷ [];
  is_elf32 = true;
  segments = some segments;
  sections = some (2, 2) ∷ some (4, 2) ∷ [];
}

extract_from_elf-IsImage_example :
    Returns (IsImageOrError file segments 100) (extract_from_elf file 100)
extract_from_elf-IsImage_example = extract_from_elf-IsImage file segments 100 refl (
  record { in_file = omega arith; in_memory = omega arith },
  (
    record { in_file = omega arith; in_memory = omega arith },
    (record { in_file = omega arith; in_memory = omega arith }, tt),
  ),
)

two_segments : extract_from_elf file 100 ≡ ok (some (5 ∷ 6 ∷ 255 ∷ 255 ∷ 255 ∷ 255 ∷ 7 ∷ 8 ∷ []))
unfolding extract_from_elf extract_all extract_segment has_sections fill overwrite
two_segments = refl

-- A pin that always obeys, and one switch, for the transmitter.
abbrev pins : OutputPin
pins = record {
  Ctrl = Bool;
  set_low = λ p. (true, false);
  set_high = λ p. (true, true);
  is_high = λ p. p;
  set_low_done = λ p h. refl;
  set_low_keeps = λ p h. refl;
  set_high_done = λ p h. refl;
}

abbrev switches : Stm32wlInterfaceVariant pins
switches = record { rf_switch_rx = none; rf_switch_tx = some true }

rf_switch-Switched_example :
    Switched pins (IsReceiving pins) (enable_rf_switch_rx pins switches)
    × Switched pins (IsSending pins) (enable_rf_switch_tx pins switches)
    × Switched pins (IsOff pins) (disable_rf_switch pins switches)
rf_switch-Switched_example = rf_switch-Switched pins switches (inl tt)

-- A bus that reads zeros, cannot write, and knows the level of its chip select line.
abbrev bus : SpiBus
bus = record {
  State = Bool;
  Error = ℕ;
  read_bytes = λ b s. (none, b, s);
  write_bytes = λ b s. (some 1, s);
  transfer_bytes = λ r w s. (none, r, s);
  transfer_bytes_in_place = λ b s. (none, b, s);
  flush = λ s. (none, s);
  after_nanos = λ ns s. s;
  set_nss = λ level s. level;
  nss = λ s. s;
  nss-set_nss = λ level s. refl;
  nss-read_bytes = λ b s. refl;
  nss-write_bytes = λ b s. refl;
  nss-transfer_bytes = λ r w s. refl;
  nss-transfer_bytes_in_place = λ b s. refl;
  nss-flush = λ s. refl;
  nss-after_nanos = λ ns s. refl;
}

transaction-IsTransacted_example :
    IsTransacted bus
      (read (0 ∷ []) ∷ write (1 ∷ []) ∷ [])
      true
      (transaction bus (read (0 ∷ []) ∷ write (1 ∷ []) ∷ []) true)
transaction-IsTransacted_example =
    transaction-IsTransacted bus (read (0 ∷ []) ∷ write (1 ∷ []) ∷ []) true
