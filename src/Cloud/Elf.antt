-- ===== src/Cloud/Elf.antt =====
-- The image of a firmware (`extract_from_elf` in components/cloud/src/elf.rs). The crate object parses
-- the file: what it finds is a parameter. The code that is commented out is left out.
pub mod Filled
pub mod Loaded
pub mod Bytes
pub mod Image
use holistic_framework_for_l.Base.{
  ℕ, zero, suc, ◌+◌, ◌-◌, ◌%◌, Bool, true, false, not, ◌&&◌, Option, none, some, List, [], ◌∷◌,
  ◌++◌, length, take, drop, Outcome, ok, panic, ◌>>=◌, ◌==◌, ltb, leb, u64_mod, as_u32,
  if◌then◌else◌,
}
use holistic_framework_for_l.Crc.{repeated}

-- A program header: `p_paddr`, the result of `data`, whether its type is `PT_LOAD`, and `file_range`.
pub record Segment : Type 0 where
  pub physical_addr : ℕ
  pub segment_data : Option (List ℕ)
  pub is_load : Bool
  pub offset : ℕ
  pub filesize : ℕ

-- What `file_range` of a section returns.
abbrev pub Section : Type 0
Section = Option (ℕ × ℕ)

-- A file, and what the parser finds in it; `none` stands for an `Err`.
pub record ElfFile : Type 0 where
  pub elf_file : List ℕ
  pub is_elf32 : Bool
  pub segments : Option (List Segment)
  pub sections : List Section

-- `checked_add` on u64 and `checked_sub`
abbrev pub checked_add : ℕ → ℕ → Option ℕ
checked_add a b = if ltb (a + b) u64_mod then some (a + b) else none

abbrev pub checked_sub : ℕ → ℕ → Option ℕ
checked_sub a b = if leb b a then some (a - b) else none

abbrev pub max : ℕ → ℕ → ℕ
max a b = if leb b a then a else b

-- Whether a section lies within the segment, from `start` to `end`.
abbrev pub holds : ℕ → ℕ → ℕ → Option ℕ → Option Bool → Option Bool
holds start end section_offset none others = none
holds start end section_offset (some section_end) others =
    if leb start section_offset && leb section_end end then some true else others

-- The loop over the sections, up to the first that lies within the segment.
unfoldable pub has_sections : ℕ → ℕ → List Section → Option Bool
has_sections start end [] = some false
has_sections start end (none ∷ sections) = none
has_sections start end (some (offset, filesize) ∷ sections) =
    holds start end offset (checked_add offset filesize) (has_sections start end sections)

-- `bytes[start..][..len]`
abbrev pub slice : List ℕ → ℕ → ℕ → Outcome (List ℕ)
slice bytes start len =
    if leb start (length bytes) && leb len (length bytes - start)
    then ok (take len (drop start bytes))
    else panic

-- The data that has been extracted, with its addresses, and the end of all of it.
abbrev pub Extracted : Type 0
Extracted = List (ℕ × List ℕ) × ℕ

abbrev pub push_data : Segment → Extracted → List ℕ → Option ℕ → Option Extracted
push_data segment (extracted, end_addr) section_data none = none
push_data segment (extracted, end_addr) section_data (some segment_end_addr) = some (
  extracted ++ (as_u32 segment.physical_addr, section_data) ∷ [],
  max (as_u32 segment_end_addr) end_addr,
)

-- The rest of a segment's round, once its sections have been searched.
abbrev pub extract_found : List ℕ → Segment → Extracted → Option Bool → Outcome (Option Extracted)
extract_found elf_file segment x none = ok none
extract_found elf_file segment x (some false) = ok (some x)
extract_found elf_file segment x (some true) =
    slice elf_file segment.offset segment.filesize >>= λ section_data.
    ok (push_data segment x section_data (checked_add segment.physical_addr segment.filesize))

abbrev pub search_sections : ElfFile → Segment → Extracted → Option ℕ → Outcome (Option Extracted)
search_sections f segment x none = ok none
search_sections f segment x (some segment_end) =
    extract_found f.elf_file segment x (has_sections segment.offset segment_end f.sections)

abbrev pub is_nil : List ℕ → Bool
is_nil [] = true
is_nil (b ∷ bs) = false

abbrev pub extract_data :
    ElfFile → Segment → Extracted → Option (List ℕ) → Outcome (Option Extracted)
extract_data f segment x none = ok none
extract_data f segment x (some segment_data) =
    if not (is_nil segment_data) && segment.is_load
    then search_sections f segment x (checked_add segment.offset segment.filesize)
    else ok (some x)

-- One segment.
unfoldable pub extract_segment : ElfFile → Segment → Extracted → Outcome (Option Extracted)
extract_segment f segment x = extract_data f segment x segment.segment_data

abbrev pub then_extract :
    (Extracted → Outcome (Option Extracted)) → Option Extracted → Outcome (Option Extracted)
then_extract others none = ok none
then_extract others (some x) = others x

-- The loop over the segments.
unfoldable pub extract_all : ElfFile → List Segment → Extracted → Outcome (Option Extracted)
extract_all f [] x = ok (some x)
extract_all f (segment ∷ segments) x =
    extract_segment f segment x >>= then_extract (extract_all f segments)

-- `bin[start..][..data.len()].copy_from_slice(data)`
unfoldable pub overwrite : ℕ → List ℕ → List ℕ → Outcome (List ℕ)
overwrite zero [] bin = ok bin
overwrite zero (d ∷ ds) [] = panic
overwrite zero (d ∷ ds) (b ∷ bin) = overwrite zero ds bin >>= λ r. ok (d ∷ r)
overwrite (suc start) ds [] = panic
overwrite (suc start) ds (b ∷ bin) = overwrite start ds bin >>= λ r. ok (b ∷ r)

abbrev pub copy_at :
    (List ℕ → Outcome (Option (List ℕ))) → List ℕ → List ℕ → Option ℕ → Outcome (Option (List ℕ))
copy_at others segment_data bin none = ok none
copy_at others segment_data bin (some start) = overwrite start segment_data bin >>= others

-- The loop that fills the image.
unfoldable pub fill : ℕ → List (ℕ × List ℕ) → List ℕ → Outcome (Option (List ℕ))
fill start_addr [] bin = ok (some bin)
fill start_addr ((addr, segment_data) ∷ extracted) bin =
    copy_at (fill start_addr extracted) segment_data bin (checked_sub addr start_addr)

abbrev pub fill_size : ℕ → List (ℕ × List ℕ) → Option ℕ → Outcome (Option (List ℕ))
fill_size start_addr extracted none = ok none
fill_size start_addr extracted (some bin_size) =
    if bin_size % 4 == 0 then fill start_addr extracted (repeated 0xff bin_size) else ok none

abbrev pub image_of : ℕ → Option Extracted → Outcome (Option (List ℕ))
image_of start_addr none = ok none
image_of start_addr (some (extracted, end_addr)) =
    fill_size start_addr extracted (checked_sub end_addr start_addr)

abbrev pub extract_segments : ElfFile → ℕ → Option (List Segment) → Outcome (Option (List ℕ))
extract_segments f start_addr none = ok none
extract_segments f start_addr (some segments) =
    extract_all f segments ([], 0) >>= image_of start_addr

unfoldable pub extract_from_elf : ElfFile → ℕ → Outcome (Option (List ℕ))
extract_from_elf f start_addr =
    if f.is_elf32 then extract_segments f start_addr f.segments else ok none
