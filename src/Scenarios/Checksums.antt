-- ===== src/Scenarios/Checksums.antt =====
-- The theorem on checksums, applied to concrete bytes (components/cloud/src/crc.rs).
use holistic_framework_for_l.Base.{
  ℕ, ◌+◌, ◌*◌, ◌%◌, ◌^◌, ◌≡◌, refl, none, some, List, [], ◌∷◌, ◌++◌, arith, Returns, ok,
}
use holistic_framework_for_l.Crc.{Digest, calc_crc}
use holistic_framework_for_l.Crc.Words.{Checksum, calc_crc-Checksum}

-- A checksum that is computed byte by byte.
abbrev feed : List ℕ → ℕ → ℕ
feed [] d = d
feed (b ∷ bs) d = feed bs ((d * 257 + b) % 2 ^ 32)

feed-append : (xs ys : List ℕ) (d : ℕ) → feed (xs ++ ys) d ≡ feed ys (feed xs d)
feed-append [] ys d = refl
feed-append (x ∷ xs) ys d = feed-append xs ys ((d * 257 + x) % 2 ^ 32)

abbrev digest : Digest
digest = record {
  State = ℕ;
  start = 0;
  update = feed;
  finalize = λ d. d;
  update-nil = λ d. refl;
  update-append = feed-append;
}

two_words : calc_crc digest (1 ∷ 2 ∷ 3 ∷ 4 ∷ []) none 2 ≡ ok (some (feed (2 ∷ 1 ∷ 4 ∷ 3 ∷ []) 0))
unfolding calc_crc
two_words = refl

half_a_word : calc_crc digest (1 ∷ 2 ∷ 3 ∷ []) none 2 ≡ ok none
unfolding calc_crc
half_a_word = refl

calc_crc-Checksum_example :
    Returns
      (Checksum digest 2 (1 ∷ 2 ∷ 3 ∷ 4 ∷ []) (some (255, 3)))
      (calc_crc digest (1 ∷ 2 ∷ 3 ∷ 4 ∷ []) (some (255, 3)) 2)
calc_crc-Checksum_example =
    calc_crc-Checksum digest 2 (1 ∷ 2 ∷ 3 ∷ 4 ∷ []) (some (255, 3)) (omega arith)
