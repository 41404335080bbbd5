-- ===== src/Cloud/Elf/Bytes.antt =====
-- The bytes of what is extracted from an ELF file, and those of the file (components/cloud/src/elf.rs).
use holistic_framework_for_l.Base.{
  ℕ, zero, suc, ◌+◌, ◌-◌, ◌≤◌, ◌<◌, ◌≡◌, refl, ap, ◌∙◌, inl, inr, Bool, true, false, not,
  Bool-cases, ◌&&◌, ◌||◌, if◌then◌else◌, Option, none, some, List, [], ◌∷◌, arith, length,
  length-drop, get_elem?, take, drop, All, All-map, All-append, Returns, Returns-bind, ltb, leb,
  u64_mod, u32_mod, as_u32,
}
use holistic_framework_for_l.Cloud.Elf.Filled.{byte_of, covered, any_below, EndsBy}
use holistic_framework_for_l.Cloud.Elf.Loaded.{
  IsWithin, byte_at, any_starts_below, is_loaded, loaded,
}
use holistic_framework_for_l.Cloud.Elf.{
  Segment, ElfFile, checked_add, max, has_sections, slice, Extracted, push_data, extract_found,
  search_sections, is_nil, extract_data, extract_segment, then_extract, extract_all,
}

abbrev pub AllEnd : Option Extracted → Type 0
AllEnd none = Unit
AllEnd (some (xs, end)) = All (EndsBy end) xs

length-take : (n : ℕ) (xs : List ℕ) → n ≤ length xs → length (take n xs) ≡ n
length-take zero xs h = refl
length-take (suc n) [] h = absurd (omega arith)
length-take (suc n) (x ∷ xs) h = omega (arith, length-take n xs (omega arith))

slice-length :
    (bytes : List ℕ) (start len : ℕ)
    → start + len ≤ length bytes
    → Returns (λ r. length r ≡ len) (slice bytes start len)
slice-length bytes start len h =
    let a : leb start (length bytes) ≡ true = ground arith in
    let b : leb len (length bytes - start) ≡ true = ground arith in
    rw (a, b) (length-take len (drop start bytes) (omega (arith, length-drop start bytes)))

push_data-AllEnd :
    (segment : Segment) (xs : List (ℕ × List ℕ)) (end : ℕ) (bytes : List ℕ)
    → segment.physical_addr + segment.filesize < u32_mod
    → length bytes ≡ segment.filesize
    → All (EndsBy end) xs
    → AllEnd
        (push_data segment (xs, end) bytes (checked_add segment.physical_addr segment.filesize))
push_data-AllEnd segment xs end bytes h e k =
    let exact : ltb (segment.physical_addr + segment.filesize) u64_mod ≡ true = ground arith in
    rw exact (
      All-append (EndsBy new_end) xs ((as_u32 segment.physical_addr, bytes) ∷ [])
        (All-map (EndsBy end) (EndsBy new_end) (λ x l. ground arith) xs k) (ground (arith, e), tt))
  where
    new_end : ℕ
    new_end = max (as_u32 (segment.physical_addr + segment.filesize)) end

-- One segment, and then all of them, extend what has been extracted, up to its end.
extract_segment-AllEnd :
    (f : ElfFile) (segment : Segment) (x : Extracted)
    → IsWithin f segment
    → AllEnd (some x)
    → Returns AllEnd (extract_segment f segment x)
unfolding extract_segment
extract_segment-AllEnd f segment (xs, end) w k = of_data segment.segment_data
  where
    of_found : (o : Option Bool) → Returns AllEnd (extract_found f.elf_file segment (xs, end) o)
    of_found none = tt
    of_found (some false) = k
    of_found (some true) =
        Returns-bind (λ r. length r ≡ segment.filesize) AllEnd
          (slice f.elf_file segment.offset segment.filesize) _
          (slice-length f.elf_file segment.offset segment.filesize w.in_file)
          (λ bytes e. push_data-AllEnd segment xs end bytes w.in_memory e k)

    of_end : (o : Option ℕ) → Returns AllEnd (search_sections f segment (xs, end) o)
    of_end none = tt
    of_end (some e) = of_found (has_sections segment.offset e f.sections)

    of_data : (o : Option (List ℕ)) → Returns AllEnd (extract_data f segment (xs, end) o)
    of_data none = tt
    of_data (some bytes) = elim (Bool-cases (not (is_nil bytes) && segment.is_load)) [
      | inl loaded ↦ rw loaded (of_end (checked_add segment.offset segment.filesize))
      | inr skipped ↦ rw skipped k
    ]

pub extract_all-AllEnd :
    (f : ElfFile) (segments : List Segment) (x : Extracted)
    → All (IsWithin f) segments
    → AllEnd (some x)
    → Returns AllEnd (extract_all f segments x)
unfolding extract_all
extract_all-AllEnd f [] x w k = k
extract_all-AllEnd f (segment ∷ segments) x w k =
    Returns-bind AllEnd AllEnd (extract_segment f segment x) _
      (extract_segment-AllEnd f segment x w.0 k)
      (λ o h. after o h (λ y. extract_all-AllEnd f segments y w.1))
  where
    after :
        (o : Option Extracted)
        → AllEnd o
        → ((y : Extracted) → AllEnd (some y) → Returns AllEnd (extract_all f segments y))
        → Returns AllEnd (then_extract (extract_all f segments) o)
    after none h others = tt
    after (some y) h others = others y h

-- The bytes of a loaded segment, as the image and as the file have them.
get_elem?-take : (n : ℕ) (xs : List ℕ) (i : ℕ) → i < n → get_elem? (take n xs) i ≡ get_elem? xs i
get_elem?-take zero xs i h = absurd (omega arith)
get_elem?-take (suc n) [] i h = refl
get_elem?-take (suc n) (x ∷ xs) zero h = refl
get_elem?-take (suc n) (x ∷ xs) (suc i) h = get_elem?-take n xs i (omega arith)

get_elem?-drop : (n : ℕ) (xs : List ℕ) (i : ℕ) → get_elem? (drop n xs) i ≡ get_elem? xs (n + i)
get_elem?-drop zero xs i = ap (get_elem? xs) (omega arith)
get_elem?-drop (suc n) [] i = refl
get_elem?-drop (suc n) (x ∷ xs) i =
    let here : suc (n + i) ≡ suc n + i = omega arith in
    get_elem?-drop n xs i ∙ ap (get_elem? (x ∷ xs)) here

covered-byte_at :
    (f : ElfFile) (s : Segment) (start i : ℕ) (old : Option ℕ)
    → IsWithin f s
    → start ≤ s.physical_addr
    → covered (s.physical_addr - start) (take s.filesize (drop s.offset f.elf_file)) i old ≡ (
        if leb s.physical_addr (start + i) && ltb (start + i) (s.physical_addr + s.filesize)
        then get_elem? f.elf_file (s.offset + ((start + i) - s.physical_addr))
        else old)
covered-byte_at f s start i old w above =
    let in_file = w.in_file in
    let size : length (take s.filesize (drop s.offset f.elf_file)) ≡ s.filesize =
      length-take s.filesize (drop s.offset f.elf_file)
        (omega (arith, length-drop s.offset f.elf_file)) in
    let low : leb (s.physical_addr - start) i ≡ leb s.physical_addr (start + i) = ground arith in
    let high : ltb i (s.physical_addr - start + s.filesize)
        ≡ ltb (start + i) (s.physical_addr + s.filesize) =
      ground arith in
    rw (size, low, high)
      (elim (Bool-cases
        (leb s.physical_addr (start + i) && ltb (start + i) (s.physical_addr + s.filesize))) [
          | inr outside ↦ rw outside refl
          | inl inside ↦
              let below : i - (s.physical_addr - start) < s.filesize = ground (arith, inside) in
              let place : s.offset + (i - (s.physical_addr - start))
                  ≡ s.offset + (start + i - s.physical_addr) =
                ground (arith, inside) in
              rw inside (
                get_elem?-take s.filesize (drop s.offset f.elf_file) (i - (s.physical_addr - start))
                  below
                ∙ get_elem?-drop s.offset f.elf_file (i - (s.physical_addr - start))
                ∙ ap (get_elem? f.elf_file) place)
        ])

pub any_below-loaded :
    (f : ElfFile) (start : ℕ) (segments : List Segment)
    → any_below start (loaded f segments) ≡ any_starts_below f start segments
any_below-loaded f start [] = refl
any_below-loaded f start (s ∷ ss) = elim (Bool-cases (is_loaded f s)) [
  | inl load ↦ rw load (ap (λ b. ltb s.physical_addr start || b) (any_below-loaded f start ss))
  | inr skip ↦ rw skip (any_below-loaded f start ss)
]

or_neither : (a b : Bool) → a || b ≡ false → (a ≡ false) × (b ≡ false)
or_neither true b h = cc
or_neither false b h = (refl, h)

pub byte_of-loaded :
    (f : ElfFile) (start : ℕ) (segments : List Segment) (i : ℕ) (old : Option ℕ)
    → All (IsWithin f) segments
    → any_starts_below f start segments ≡ false
    → byte_of start (loaded f segments) i old ≡ byte_at f segments (start + i) old
byte_of-loaded f start [] i old w h = refl
byte_of-loaded f start (s ∷ ss) i old w h = elim (Bool-cases (is_loaded f s)) [
  | inl load ↦
      let (above, later) =
        or_neither (ltb s.physical_addr start) (any_starts_below f start ss) (rw load at h) in
      rw load (
        byte_of-loaded f start ss i _ w.1 later
        ∙ ap (byte_at f ss (start + i))
            (covered-byte_at f s start i old w.0 (ground (arith, above))))
  | inr skip ↦ rw skip (byte_of-loaded f start ss i old w.1 (rw skip at h))
]
