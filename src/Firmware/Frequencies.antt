-- ===== src/Firmware/Frequencies.antt =====
-- The frequencies of the channels (`get_channel_frequency` in components/firmware/src/main.rs). No
-- product or sum exceeds 32 bits.
use holistic_framework_for_l.Base.{
  refl, true, false, ◌↔◌, ℕ, ◌+◌, ◌*◌, ◌/◌, ◌-◌, ◌≤◌, ◌<◌, ◌≡◌, arith, Outcome, ok, panic, ◌>>◌,
  assert, Returns, leb,
}

-- `LORA_BANDWIDTH.hz()`
abbrev pub lora_bandwidth_hz : ℕ
lora_bandwidth_hz = 125_000

unfoldable pub get_channel_frequency : ℕ → Outcome ℕ
get_channel_frequency n =
    assert (leb n 10) >> ok (863_000_000 + lora_bandwidth_hz * (2 + 3 * n) / 2)

-- The channel's band lies between 863 and 865 MHz.
abbrev pub InBand : ℕ → Type 0
InBand f = (863_000_000 ≤ f - lora_bandwidth_hz / 2) × (f + lora_bandwidth_hz / 2 ≤ 865_000_000)

-- Of the channels that pass the assertion, exactly the first ten lie in the band: the assertion lets
-- an eleventh pass.
pub get_channel_frequency-InBand :
    (n : ℕ) → n ≤ 10 → Returns (λ f. InBand f ↔ (n < 10)) (get_channel_frequency n)
unfolding get_channel_frequency
get_channel_frequency-InBand n h =
    let passes : leb n 10 ≡ true = ground arith in
    rw passes (λ b. omega arith, λ k. (omega arith, omega arith))

-- Two channels that pass the assertion are at least one and a half bandwidths apart.
pub get_channel_frequency_apart :
    (m n : ℕ)
    → m < n
    → n ≤ 10
    → Returns
        (λ f. Returns (λ g. f + 3 * lora_bandwidth_hz / 2 ≤ g) (get_channel_frequency n))
        (get_channel_frequency m)
unfolding get_channel_frequency
get_channel_frequency_apart m n h k =
    let first : leb m 10 ≡ true = ground arith in
    let second : leb n 10 ≡ true = ground arith in rw (first, second) (omega arith)

-- A channel beyond is a panic.
pub get_channel_frequency_beyond : (n : ℕ) → 10 < n → get_channel_frequency n ≡ panic
unfolding get_channel_frequency
get_channel_frequency_beyond n h = let fails : leb n 10 ≡ false = ground arith in rw fails refl

pub get_channel_frequency-Returns : (n : ℕ) → n ≤ 10 → Returns (λ f. Unit) (get_channel_frequency n)
unfolding get_channel_frequency
get_channel_frequency-Returns n h = let passes : leb n 10 ≡ true = ground arith in rw passes tt
