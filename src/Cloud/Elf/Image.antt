-- ===== src/Cloud/Elf/Image.antt =====
-- The image holds the bytes of the segments at their addresses (components/cloud/src/elf.rs).
use holistic_framework_for_l.Base.{
  ℕ, zero, suc, ◌+◌, ◌-◌, ◌%◌, ◌<◌, ◌≡◌, refl, sym, ap, ◌∙◌, inl, inr, true, false, Bool-cases,
  Option, none, some, List, [], arith, length, get_elem?, All, All-map, ◌≢◌, Returns-both,
  Returns-Ends, Returns, Returns-bind, Returns-map, ◌==◌, leb,
}
use holistic_framework_for_l.Cloud.Elf.Filled.{
  byte_of, EndsBy, IsFilled, too_low, filled, fill-IsFilled,
}
use mathlib.Core.Path.{subst}
use holistic_framework_for_l.Cloud.Elf.Loaded.{
  IsWithin, AnyOf, byte_at, end_of, any_starts_below, IsFaulty, loaded, IsCollected,
  extract_all-IsCollected,
}
use holistic_framework_for_l.Crc.{repeated}
use holistic_framework_for_l.Cloud.Elf.{
  Segment, ElfFile, Extracted, extract_all, fill, image_of, extract_segments, extract_from_elf,
}
use holistic_framework_for_l.Cloud.Elf.Bytes.{
  AllEnd, extract_all-AllEnd, any_below-loaded, byte_of-loaded,
}

-- An image from an address on: whole words up to the end of all that is loaded, and at each address
-- the byte that the file has for it, or 0xff.
pub record IsImage (f : ElfFile) (segments : List Segment) (start : ℕ) (bin : List ℕ) : Type 0 where
  pub ends : start + length bin ≡ end_of f segments 0
  pub in_words : length bin % 4 ≡ 0
  pub none_below : any_starts_below f start segments ≡ false
  pub at : (i : ℕ) → i < length bin → get_elem? bin i ≡ byte_at f segments (start + i) (some 0xff)

-- Why there is no image.
pub data IsError (f : ElfFile) (segments : List Segment) (start : ℕ) : Type 0 where
  other_kind : f.is_elf32 ≡ false → IsError f segments start
  faulty : AnyOf (IsFaulty f) segments → IsError f segments start
  ends_early : end_of f segments 0 < start → IsError f segments start
  ragged : (end_of f segments 0 - start) % 4 ≢ 0 → IsError f segments start
  starts_early : any_starts_below f start segments ≡ true → IsError f segments start

abbrev pub IsImageOrError : ElfFile → List Segment → ℕ → Option (List ℕ) → Type 0
IsImageOrError f segments start none = IsError f segments start
IsImageOrError f segments start (some bin) = IsImage f segments start bin

length-repeated : (v n : ℕ) → length (repeated v n) ≡ n
length-repeated v zero = refl
length-repeated v (suc n) = omega (arith, length-repeated v n)

get_elem?-repeated : (v n i : ℕ) → i < n → get_elem? (repeated v n) i ≡ some v
get_elem?-repeated v zero i h = absurd (omega arith)
get_elem?-repeated v (suc n) zero h = refl
get_elem?-repeated v (suc n) (suc i) h = get_elem?-repeated v n i (omega arith)

image_of-IsImage :
    (f : ElfFile) (segments : List Segment) (start : ℕ) (o : Option Extracted)
    → All (IsWithin f) segments
    → IsCollected f segments ([], 0) o
    → AllEnd o
    → Returns (IsImageOrError f segments start) (image_of start o)
image_of-IsImage f segments start none w collected k = faulty collected
image_of-IsImage f segments start (some (xs, end)) w collected k =
    rw (loads, ends)
      (elim (Bool-cases (leb start (end_of f segments 0))) [
        | inr below ↦ rw below (ends_early (ground arith))
        | inl above ↦ rw above (elim (Bool-cases ((end_of f segments 0 - start) % 4 == 0)) [
          | inr uneven ↦ rw uneven (ragged (λ e. ground arith))
          | inl whole ↦ rw whole (
              Returns-map (IsFilled start (loaded f segments) blank)
                (IsImageOrError f segments start) (fill start (loaded f segments) blank)
                (made above whole)
                (fill-IsFilled start (loaded f segments) blank (
                  All-map (EndsBy (end_of f segments 0)) (EndsBy (start + length blank))
                    (λ x l. ground (arith, above, length-repeated 0xff size)) (loaded f segments)
                    (rw (loads, ends) at k))))
        ])
      ])
  where
    loads : xs ≡ loaded f segments
    loads = ap (λ (x : Extracted). x.0) collected

    ends : end ≡ end_of f segments 0
    ends = ap (λ (x : Extracted). x.1) collected

    size : ℕ
    size = end_of f segments 0 - start

    blank : List ℕ
    blank = repeated 0xff size

    made :
        leb start (end_of f segments 0) ≡ true
        → (size % 4 == 0) ≡ true
        → (r : Option (List ℕ)) → IsFilled start (loaded f segments) blank r
        → IsImageOrError f segments start r
    made above whole _ (too_low t) = starts_early (sym (any_below-loaded f start segments) ∙ t)
    made above whole _ (filled r t l at) =
        let none_below = sym (any_below-loaded f start segments) ∙ t in
        record {
          ends = ground (arith, above, l, length-repeated 0xff size);
          in_words = ground (arith, whole, l, length-repeated 0xff size);
          none_below = none_below;
          at = λ i h.
              at i
              ∙ ap (byte_of start (loaded f segments) i)
                  (get_elem?-repeated 0xff size i (omega (arith, l, length-repeated 0xff size)))
              ∙ byte_of-loaded f start segments i (some 0xff) w none_below;
        }

extract_segments-IsImage :
    (f : ElfFile) (segments : List Segment) (start : ℕ)
    → All (IsWithin f) segments
    → Returns (IsImageOrError f segments start) (extract_segments f start (some segments))
extract_segments-IsImage f segments start w =
    Returns-bind (λ o. AllEnd o × IsCollected f segments ([], 0) o)
      (IsImageOrError f segments start) (extract_all f segments ([], 0)) _
      (Returns-both AllEnd (IsCollected f segments ([], 0)) (extract_all f segments ([], 0))
        (extract_all-AllEnd f segments ([], 0) w tt)
        (Returns-Ends (IsCollected f segments ([], 0)) (extract_all f segments ([], 0))
          (extract_all-IsCollected f segments ([], 0) w)))
      (λ o (ends, collected). image_of-IsImage f segments start o w collected ends)

-- If the parser's segments lie within the file and end below 4 GB, the extraction does not panic. A
-- segment is loaded if it has data, is of the type `PT_LOAD` and contains a section. The image reaches
-- from its start to the end of all that is loaded, and at each address has the byte that the last loaded
-- segment there has in the file, or 0xff. There is no image only if the file is of another kind, a
-- segment or a section is faulty, or what is loaded ends or begins before the start or is not whole
-- words.
pub extract_from_elf-IsImage :
    (f : ElfFile) (segments : List Segment) (start : ℕ)
    → f.segments ≡ some segments
    → All (IsWithin f) segments
    → Returns (IsImageOrError f segments start) (extract_from_elf f start)
unfolding extract_from_elf
extract_from_elf-IsImage f segments start parsed w = elim (Bool-cases f.is_elf32) [
  | inr other ↦ simp (other) (other_kind other)
  | inl elf32 ↦ simp (elf32) (
      subst (λ o. Returns (IsImageOrError f segments start) (extract_segments f start o))
        (sym parsed) (extract_segments-IsImage f segments start w))
]
