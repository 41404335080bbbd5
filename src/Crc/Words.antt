-- ===== src/Crc/Words.antt =====
-- The checksum is that of the bytes of the words, each in reverse (components/cloud/src/crc.rs).
use holistic_framework_for_l.Base.{
  ℕ, ◌+◌, ◌-◌, ◌<◌, ◌≡◌, refl, sym, ap, ◌∙◌, inl, inr, Bool-cases, Option, none, some, List, [],
  ◌∷◌, ◌++◌, arith, length, length-append, All, Returns, ◌==◌, false,
}
use mathlib.Core.Path.{subst}
use mathlib.Core.List.{append_assoc, append-nil, reverse}
use holistic_framework_for_l.Crc.{
  Digest, repeated, Chunks, chunks, update_words, update_padding, digest_of, calc_crc,
}

-- The words, put together as they are, and each in reverse.
abbrev pub joined : List (List ℕ) → List ℕ
joined [] = []
joined (w ∷ ws) = w ++ joined ws

abbrev pub joined_reversed : List (List ℕ) → List ℕ
joined_reversed [] = []
joined_reversed (w ∷ ws) = reverse w ++ joined_reversed ws

-- The bytes, cut into words of the size.
pub record IsCut (size : ℕ) (bytes : List ℕ) (c : Chunks) : Type 0 where
  pub complete : joined c.words ++ c.remainder ≡ bytes
  pub sized : All (λ w. length w ≡ size) c.words
  pub short : length c.remainder < size

pub chunks-IsCut :
    (size room : ℕ) (word bytes : List ℕ)
    → 0 < room
    → length word + room ≡ size
    → IsCut size (word ++ bytes) (chunks size room word bytes)
chunks-IsCut size room word [] h e = record {
  complete = sym (append-nil word);
  sized = tt;
  short = omega (arith, e, h);
}
chunks-IsCut size room word (b ∷ bs) h e = elim (Bool-cases (room == 1)) [
  | inl last ↦
      let own : length (word ++ b ∷ []) ≡ size = ground (arith, length-append word (b ∷ [])) in
      let rest = chunks-IsCut size size [] bs (omega arith) (omega arith) in
      rw (chunks, last)
        (record {
          complete =
              append_assoc (word ++ b ∷ []) (joined (chunks size size [] bs).words) _
              ∙ ap (λ l. (word ++ b ∷ []) ++ l) rest.complete
              ∙ append_assoc word (b ∷ []) bs;
          sized = (own, rest.sized);
          short = rest.short;
        })
  | inr more ↦
      rw (chunks, more)
        (subst (λ l. IsCut size l (chunks size (room - 1) (word ++ b ∷ []) bs))
          (append_assoc word (b ∷ []) bs)
          (chunks-IsCut size (room - 1) (word ++ b ∷ []) bs (ground arith)
            (ground (arith, length-append word (b ∷ [])))))
]

-- The bytes that the checksum is of.
abbrev pub padding_bytes : Option (ℕ × ℕ) → List ℕ
padding_bytes none = []
padding_bytes (some (value, size)) = repeated value size

module _ (D : Digest) where
  -- The result for each way to cut the bytes.
  pub data Checksum (size : ℕ) (bytes : List ℕ) (padding : Option (ℕ × ℕ)) : Option ℕ → Type 0 where
    whole :
        (words : List (List ℕ))
        → joined words ≡ bytes
        → All (λ w. length w ≡ size) words
        → Checksum size bytes padding
            (some (D.finalize (D.update (joined_reversed words ++ padding_bytes padding) D.start)))
    unaligned :
        (words : List (List ℕ)) (rest : List ℕ)
        → joined words ++ rest ≡ bytes
        → All (λ w. length w ≡ size) words
        → 0 < length rest
        → length rest < size
        → Checksum size bytes padding none

  update_words-joined :
      (words : List (List ℕ)) (d : D.State)
      → update_words D words d ≡ D.update (joined_reversed words) d
  update_words-joined [] d = sym (D.update-nil d)
  update_words-joined (w ∷ ws) d =
      update_words-joined ws (D.update (reverse w) d)
      ∙ sym (D.update-append (reverse w) (joined_reversed ws) d)

  update_padding-bytes :
      (padding : Option (ℕ × ℕ)) (d : D.State)
      → update_padding D padding d ≡ D.update (padding_bytes padding) d
  update_padding-bytes none d = sym (D.update-nil d)
  update_padding-bytes (some (value, size)) d = refl

  digest_of-Checksum :
      (size : ℕ) (bytes : List ℕ) (padding : Option (ℕ × ℕ)) (c : Chunks)
      → IsCut size bytes c
      → Checksum size bytes padding (digest_of D c padding)
  digest_of-Checksum size bytes padding c k = of_remainder c.remainder refl
    where
      of_remainder :
          (rest : List ℕ)
          → c.remainder ≡ rest
          → Checksum size bytes padding (digest_of D (record c { remainder = rest }) padding)
      of_remainder [] e =
          subst (λ n. Checksum size bytes padding (some (D.finalize n)))
            (D.update-append (joined_reversed c.words) (padding_bytes padding) D.start
              ∙ ap (D.update (padding_bytes padding)) (sym (update_words-joined c.words D.start))
              ∙ sym (update_padding-bytes padding (update_words D c.words D.start)))
            (whole c.words
              (sym (append-nil (joined c.words))
                ∙ ap (λ r. joined c.words ++ r) (sym e)
                ∙ k.complete)
              k.sized)
      of_remainder (b ∷ bs) e =
          unaligned c.words (b ∷ bs) (ap (λ r. joined c.words ++ r) (sym e) ∙ k.complete) k.sized
            (omega arith) (omega (arith, k.short, ap length e))

  -- For words of one byte or more, `calc_crc` returns: if the bytes are cut into whole words, the
  -- checksum of the words, each in reverse, and of the padding behind them, and otherwise the error.
  pub calc_crc-Checksum :
      (size : ℕ) (bytes : List ℕ) (padding : Option (ℕ × ℕ))
      → 0 < size
      → Returns (Checksum size bytes padding) (calc_crc D bytes padding size)
  unfolding calc_crc
  calc_crc-Checksum size bytes padding h =
      let some_bytes : (size == 0) ≡ false = ground arith in
      rw some_bytes (
        digest_of-Checksum size bytes padding (chunks size size [] bytes)
          (chunks-IsCut size size [] bytes h (omega arith)))
