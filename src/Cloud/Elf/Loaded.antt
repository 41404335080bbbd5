-- ===== src/Cloud/Elf/Loaded.antt =====
-- What of an ELF file is loaded, told from its segments and sections alone, and what
-- `extract_from_elf` collects (components/cloud/src/elf.rs).
use holistic_framework_for_l.Base.{
  ℕ, ◌+◌, ◌-◌, ◌≤◌, ◌<◌, ◌≡◌, refl, sym, ap, ◌∙◌, ◌⊎◌, inl, inr, Bool, true, false, not, Bool-cases,
  ◌&&◌, ◌||◌, Option, none, some, List, [], ◌∷◌, ◌++◌, arith, length, get_elem?, take, drop, All,
  ok, Returns, Returns-bind, Returns-map, ltb, leb, u64_mod, u32_mod, as_u32, if◌then◌else◌,
}
use mathlib.Core.List.{append_assoc, append-nil}
use holistic_framework_for_l.Cloud.Elf.{
  Segment, Section, ElfFile, checked_add, max, has_sections, slice, Extracted, push_data,
  extract_found, search_sections, is_nil, extract_data, extract_segment, then_extract, extract_all,
}

-- What the parser guarantees of a segment whose data it returns, and that its end is an address.
pub record IsWithin (f : ElfFile) (segment : Segment) : Type 0 where
  pub in_file : segment.offset + segment.filesize ≤ length f.elf_file
  pub in_memory : segment.physical_addr + segment.filesize < u32_mod

abbrev pub AnyOf : {A : Type 0} → (A → Type 0) → List A → Type 0
AnyOf Q [] = ⊥
AnyOf Q (x ∷ xs) = Q x ⊎ AnyOf Q xs

-- The section has no range in the file, or one that ends beyond 64 bits.
abbrev pub IsBad : Section → Type 0
IsBad none = Unit
IsBad (some (offset, filesize)) = u64_mod ≤ offset + filesize

-- Whether the section lies within the segment, in the file.
abbrev pub lies_in : Segment → Section → Bool
lies_in segment none = false
lies_in segment (some (offset, filesize)) =
    leb segment.offset offset && leb (offset + filesize) (segment.offset + segment.filesize)

abbrev pub any_lies_in : Segment → List Section → Bool
any_lies_in segment [] = false
any_lies_in segment (s ∷ ss) = lies_in segment s || any_lies_in segment ss

abbrev pub has_data : Segment → Bool
has_data segment = elim segment.segment_data [ none ↦ false | some bytes ↦ not (is_nil bytes) ]

-- Whether the segment is loaded: it has data, is of the type `PT_LOAD` and contains a section.
abbrev pub is_loaded : ElfFile → Segment → Bool
is_loaded f segment = has_data segment && segment.is_load && any_lies_in segment f.sections

-- The byte at an address: of the last loaded segment that covers it, at the same distance from the
-- segment's start in the file, or else `old`.
abbrev pub byte_at : ElfFile → List Segment → ℕ → Option ℕ → Option ℕ
byte_at f [] addr old = old
byte_at f (s ∷ ss) addr old = byte_at f ss addr (
    if is_loaded f s && (leb s.physical_addr addr && ltb addr (s.physical_addr + s.filesize))
    then get_elem? f.elf_file (s.offset + (addr - s.physical_addr))
    else old)

-- The end of all that is loaded, from an address on.
abbrev pub end_of : ElfFile → List Segment → ℕ → ℕ
end_of f [] end = end
end_of f (s ∷ ss) end =
    end_of f ss (if is_loaded f s then max (s.physical_addr + s.filesize) end else end)

abbrev pub any_starts_below : ElfFile → ℕ → List Segment → Bool
any_starts_below f start [] = false
any_starts_below f start (s ∷ ss) =
    (is_loaded f s && ltb s.physical_addr start) || any_starts_below f start ss

-- Why a segment makes the extraction fail.
abbrev pub IsFaulty : ElfFile → Segment → Type 0
IsFaulty f segment =
    (segment.segment_data ≡ none)
    ⊎ ((u64_mod ≤ segment.offset + segment.filesize) ⊎ AnyOf IsBad f.sections)

-- The loaded segments with their addresses.
abbrev pub loaded : ElfFile → List Segment → List (ℕ × List ℕ)
loaded f [] = []
loaded f (s ∷ ss) =
    if is_loaded f s
    then (s.physical_addr, take s.filesize (drop s.offset f.elf_file)) ∷ loaded f ss
    else loaded f ss

abbrev IsSearched : Segment → List Section → Option Bool → Type 0
IsSearched segment sections none = AnyOf IsBad sections
IsSearched segment sections (some b) = b ≡ any_lies_in segment sections

has_sections-IsSearched :
    (segment : Segment) (sections : List Section)
    → IsSearched segment sections
        (has_sections segment.offset (segment.offset + segment.filesize) sections)
unfolding has_sections
has_sections-IsSearched segment [] = refl
has_sections-IsSearched segment (none ∷ ss) = inl tt
has_sections-IsSearched segment (some (offset, filesize) ∷ ss) =
    elim (Bool-cases (ltb (offset + filesize) u64_mod)) [
      | inr large ↦ rw large (inl (ground arith))
      | inl small ↦ elim (Bool-cases (lies_in segment (some (offset, filesize)))) [
        | inl within ↦ rw (small, within) (rw within refl)
        | inr outside ↦
            rw (small, outside)
              (later outside (has_sections segment.offset (segment.offset + segment.filesize) ss)
                (has_sections-IsSearched segment ss))
      ]
    ]
  where
    later :
        lies_in segment (some (offset, filesize)) ≡ false
        → (o : Option Bool) → IsSearched segment ss o
        → IsSearched segment (some (offset, filesize) ∷ ss) o
    later outside none h = inr h
    later outside (some b) h = rw outside h

-- What collecting the segments comes to: a fault, or the loaded segments and their end.
abbrev pub IsCollected : ElfFile → List Segment → Extracted → Option Extracted → Type 0
IsCollected f segments x none = AnyOf (IsFaulty f) segments
IsCollected f segments x (some y) = y ≡ (x.0 ++ loaded f segments, end_of f segments x.1)

and_third : (a b c : Bool) → a && b ≡ true → a && b && c ≡ c
and_third true true c h = refl
and_third true false c h = cc
and_third false b c h = cc

and_fails : (a b c : Bool) → a && b ≡ false → a && b && c ≡ false
and_fails true true c h = cc
and_fails true false c h = refl
and_fails false b c h = refl

slice-within :
    (bytes : List ℕ) (start len : ℕ)
    → start + len ≤ length bytes
    → slice bytes start len ≡ ok (take len (drop start bytes))
slice-within bytes start len h =
    let a : leb start (length bytes) ≡ true = ground arith in
    let b : leb len (length bytes - start) ≡ true = ground arith in rw (a, b) refl

-- One segment is collected if it is loaded.
extract_segment-IsCollected :
    (f : ElfFile) (segment : Segment) (x : Extracted)
    → IsWithin f segment
    → Returns (IsCollected f (segment ∷ []) x) (extract_segment f segment x)
unfolding extract_segment
extract_segment-IsCollected f segment x w = of_data segment.segment_data refl
  where
    skipped : is_loaded f segment ≡ false → IsCollected f (segment ∷ []) x (some x)
    skipped h = rw h (ap (λ l. (l, x.1)) (sym (append-nil x.0)))

    pushed :
        is_loaded f segment ≡ true
        → IsCollected f (segment ∷ []) x (
            push_data segment x
              (take segment.filesize (drop segment.offset f.elf_file))
              (checked_add segment.physical_addr segment.filesize))
    pushed h =
        let small = w.in_memory in
        let exact : ltb (segment.physical_addr + segment.filesize) u64_mod ≡ true = ground arith in
        let start : as_u32 segment.physical_addr ≡ segment.physical_addr = ground arith in
        let end : as_u32 (segment.physical_addr + segment.filesize)
            ≡ segment.physical_addr + segment.filesize =
          ground arith in
        rw (exact, h, start, end) refl

    of_found :
        (o : Option Bool)
        → has_data segment && segment.is_load ≡ true
        → IsSearched segment f.sections o
        → Returns (IsCollected f (segment ∷ []) x) (extract_found f.elf_file segment x o)
    of_found none d h = inl (inr (inr h))
    of_found (some false) d h =
        skipped
          (and_third (has_data segment) segment.is_load (any_lies_in segment f.sections) d ∙ sym h)
    of_found (some true) d h =
        rw (slice-within f.elf_file segment.offset segment.filesize w.in_file) (
          pushed (
            and_third (has_data segment) segment.is_load (any_lies_in segment f.sections) d
            ∙ sym h))

    of_end :
        has_data segment && segment.is_load ≡ true
        → Returns
            (IsCollected f (segment ∷ []) x)
            (search_sections f segment x (checked_add segment.offset segment.filesize))
    of_end d = elim (Bool-cases (ltb (segment.offset + segment.filesize) u64_mod)) [
      | inr large ↦ rw large (inl (inr (inl (ground arith))))
      | inl small ↦ rw small (
          of_found (has_sections segment.offset (segment.offset + segment.filesize) f.sections) d
            (has_sections-IsSearched segment f.sections))
    ]

    with_data :
        {bytes : List ℕ}
        → segment.segment_data ≡ some bytes
        → has_data segment && segment.is_load ≡ not (is_nil bytes) && segment.is_load
    with_data e = rw e refl

    of_data :
        (o : Option (List ℕ))
        → segment.segment_data ≡ o
        → Returns (IsCollected f (segment ∷ []) x) (extract_data f segment x o)
    of_data none e = inl (inl e)
    of_data (some bytes) e = elim (Bool-cases (not (is_nil bytes) && segment.is_load)) [
      | inl load ↦ rw load (of_end (with_data e ∙ load))
      | inr skip ↦ rw skip (
          skipped (
            and_fails (has_data segment) segment.is_load (any_lies_in segment f.sections)
              (with_data e ∙ skip)))
    ]

-- A fault of one segment, or what is collected before and after.
IsCollected-cons :
    (f : ElfFile) (segment : Segment) (segments : List Segment) (x y : Extracted)
    (o : Option Extracted)
    → IsCollected f (segment ∷ []) x (some y)
    → IsCollected f segments y o
    → IsCollected f (segment ∷ segments) x o
IsCollected-cons f segment segments x y none h k = inr k
IsCollected-cons f segment segments x y (some z) h k = elim (Bool-cases (is_loaded f segment)) [
  | inl load ↦
      k
      ∙ rw load (
          ap (λ (w : Extracted). (w.0 ++ loaded f segments, end_of f segments w.1)) (rw load at h)
          ∙ ap (λ l. (l, end_of f segments (max (segment.physical_addr + segment.filesize) x.1)))
              (append_assoc x.0
                ((segment.physical_addr, take segment.filesize (drop segment.offset f.elf_file))
                  ∷ [])
                (loaded f segments)))
  | inr skip ↦
      k
      ∙ rw skip (
          ap (λ (w : Extracted). (w.0 ++ loaded f segments, end_of f segments w.1)) (rw skip at h)
          ∙ ap (λ l. (l ++ loaded f segments, end_of f segments x.1)) (append-nil x.0))
]

-- The extraction collects the loaded segments, or meets a fault.
pub extract_all-IsCollected :
    (f : ElfFile) (segments : List Segment) (x : Extracted)
    → All (IsWithin f) segments
    → Returns (IsCollected f segments x) (extract_all f segments x)
unfolding extract_all
extract_all-IsCollected f [] x w = ap (λ l. (l, x.1)) (sym (append-nil x.0))
extract_all-IsCollected f (segment ∷ segments) x w =
    Returns-bind (IsCollected f (segment ∷ []) x) (IsCollected f (segment ∷ segments) x)
      (extract_segment f segment x) _ (extract_segment-IsCollected f segment x w.0)
      (λ o h. after o h (λ y. extract_all-IsCollected f segments y w.1))
  where
    after :
        (o : Option Extracted)
        → IsCollected f (segment ∷ []) x o
        → ((y : Extracted) → Returns (IsCollected f segments y) (extract_all f segments y))
        → Returns (IsCollected f (segment ∷ segments) x) (then_extract (extract_all f segments) o)
    after none (inl h) others = inl h
    after none (inr h) others = absurd h
    after (some y) h others =
        Returns-map (IsCollected f segments y) (IsCollected f (segment ∷ segments) x)
          (extract_all f segments y) (λ o k. IsCollected-cons f segment segments x y o h k)
          (others y)
