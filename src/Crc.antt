-- ===== src/Crc.antt =====
-- The checksum of a firmware image (components/cloud/src/crc.rs). The CRC itself is computed by the
-- crate crc, which is an interface here.
pub mod Words
use holistic_framework_for_l.Base.{
  ℕ, zero, suc, true, false, ◌-◌, ◌≡◌, Option, none, some, List, [], ◌∷◌, ◌++◌, Outcome, ok, panic,
  ◌==◌, if◌then◌else◌,
}
use mathlib.Core.List.{reverse}

-- `crc::Digest<u32>`: a checksum that is fed piece by piece, where the cuts do not count.
pub record Digest : Type 1 where
  pub State : Type 0
  pub start : State
  pub update : List ℕ → State → State
  pub finalize : State → ℕ
  pub update-nil : (d : State) → update [] d ≡ d
  pub update-append : (xs ys : List ℕ) (d : State) → update (xs ++ ys) d ≡ update ys (update xs d)

-- What `chunks_exact` yields, and its remainder.
pub record Chunks : Type 0 where
  pub words : List (List ℕ)
  pub remainder : List ℕ

abbrev pub add_word : List ℕ → Chunks → Chunks
add_word word c = record c { words = word ∷ c.words }

-- `chunks_exact` where `room` bytes are missing from the word that is read.
abbrev pub chunks : ℕ → ℕ → List ℕ → List ℕ → Chunks
chunks size room word [] = record { words = []; remainder = word }
chunks size room word (b ∷ bs) = elim (room == 1) [
  | true ↦ add_word (word ++ b ∷ []) (chunks size size [] bs)
  | false ↦ chunks size (room - 1) (word ++ b ∷ []) bs
]

-- `vec![value; size]`
abbrev pub repeated : ℕ → ℕ → List ℕ
repeated value zero = []
repeated value (suc size) = value ∷ repeated value size

module _ (D : Digest) where
  -- The loop over the words.
  abbrev pub update_words : List (List ℕ) → D.State → D.State
  update_words [] d = d
  update_words (word ∷ words) d = update_words words (D.update (reverse word) d)

  abbrev pub update_padding : Option (ℕ × ℕ) → D.State → D.State
  update_padding none d = d
  update_padding (some (value, size)) d = D.update (repeated value size) d

  abbrev pub digest_of : Chunks → Option (ℕ × ℕ) → Option ℕ
  digest_of c padding = elim c.remainder [
    | [] ↦ some (D.finalize (update_padding padding (update_words c.words D.start)))
    | b ∷ bs ↦ none
  ]

  -- `none` stands for the error; `chunks_exact` panics on words of no bytes.
  unfoldable pub calc_crc : List ℕ → Option (ℕ × ℕ) → ℕ → Outcome (Option ℕ)
  calc_crc binary padding word_size =
      if word_size == 0
      then panic
      else ok (digest_of (chunks word_size word_size [] binary) padding)
