-- ===== src/Probe/Elf.antt =====
-- tools/run_dex2oat_no_image.py: `validate_oat_elf` and `_read_elf_sections`, on the bytes of the file.
pub mod Segments
use Prim.Native.Nat.{◌%◌, ◌/◌}
use dalvikvm_multiplatform.Common.{
  ℕ, zero, suc, ◌+◌, ◌-◌, ◌*◌, Bool, true, false, not, ◌&&◌, ◌||◌, Option, none, some, List, [],
  ◌∷◌, ◌++◌, if◌then◌else◌, ◌==◌, nat_eq, text_eq, ltb, leb, length, contains, Text, codes, Assoc,
  find, store, struct_error, zero_division_error, value_error, Error, Result, ok, err, ◌>>=◌,
}
use dalvikvm_multiplatform.Overlay.{drop_chars}
use dalvikvm_multiplatform.Probe.Bytes.{Bytes, slice, little, reject}

-- The bytes that `struct.unpack_from` reads for a format of so many bytes.
unfoldable pub unpack_from : Bytes → ℕ → ℕ → Result Bytes
unpack_from data_ offset size =
    if leb (offset + size) (length data_) then ok (slice data_ offset size) else err struct_error

-- A number of a header: its place and its width.
unfoldable pub number_at : Bytes → ℕ → ℕ → ℕ
number_at header place width = little (slice header place width)

-- The fields of a program header that are read, of the format `<IIQQQQQQ`.
pub record Segment : Type 0 where
  pub segment_type : ℕ
  pub segment_flags : ℕ
  pub file_offset : ℕ
  pub virtual_address : ℕ
  pub file_size : ℕ
  pub memory_size : ℕ
  pub alignment : ℕ

unfoldable pub segment_of : Bytes → Segment
segment_of h = record {
  segment_type = number_at h 0 4;
  segment_flags = number_at h 4 4;
  file_offset = number_at h 8 8;
  virtual_address = number_at h 16 8;
  file_size = number_at h 32 8;
  memory_size = number_at h 40 8;
  alignment = number_at h 48 8;
}

-- PT_LOAD and PT_DYNAMIC counted so far.
abbrev pub Counts : Type 0
Counts = ℕ × ℕ

-- A round of the loop over the program headers. `expected` is `expected_alignment`.
-- Python's `%` raises ZeroDivisionError where the model's would not.
unfoldable pub check_segment : ℕ → ℕ → Segment → Counts → Result Counts
check_segment size expected s (loads, dynamics) =
    if ltb s.memory_size s.file_size || ltb size (s.file_offset + s.file_size)
    then reject
    else if s.segment_type == 1
    then (if not (s.alignment == expected)
        then reject
        else if s.alignment == 0
        then err zero_division_error
        else if not (s.file_offset % s.alignment == s.virtual_address % s.alignment)
        then reject
        else if (s.segment_flags / 2 % 2 == 1) && (s.segment_flags % 2 == 1)
        then reject
        else ok (suc loads, dynamics))
    else ok (loads, if s.segment_type == 2 then suc dynamics else dynamics)

-- The loop: `left` headers from the `index`th on, and the segments that passed.
unfoldable pub read_segments : Bytes → ℕ → ℕ → ℕ → ℕ → Counts → Result (List Segment × Counts)
read_segments data_ program_offset expected zero index counts = ok ([], counts)
read_segments data_ program_offset expected (suc left) index counts = do
  header ← unpack_from data_ (program_offset + index * 56) 56
  counts₁ ← check_segment (length data_) expected (segment_of header) counts
  (segments, counts₂) ← read_segments data_ program_offset expected left (index + 1) counts₁
  ok (segment_of header ∷ segments, counts₂)

-- `names.find(b"\0", first)` as the text before it, from the text behind `first`.
unfoldable pub name_front : ℕ → Option Bytes → Option Bytes
name_front b none = none
name_front b (some name) = some (b ∷ name)

unfoldable pub name_in : Bytes → Option Bytes
name_in [] = none
name_in (b ∷ bs) = let rest = name_front b (name_in bs) in if b == 0 then some [] else rest

-- `.decode("ascii", errors="strict")`: UnicodeDecodeError is a ValueError.
unfoldable pub is_ascii : Bytes → Bool
is_ascii [] = true
is_ascii (b ∷ bs) = ltb b 128 && is_ascii bs

unfoldable pub add_section : Assoc (ℕ × ℕ) → Bytes → ℕ × ℕ → Option (ℕ × ℕ) → Result (Assoc (ℕ × ℕ))
add_section result name range (some old) = reject
add_section result name range none = ok (store name range result)

unfoldable pub named_section : Assoc (ℕ × ℕ) → ℕ × ℕ → Option Bytes → Result (Assoc (ℕ × ℕ))
named_section result range none = reject
named_section result range (some name) =
    if is_ascii name then add_section result name range (find name result) else err value_error

-- A round of the loop over the section headers, of the format `<IIQQQQIIQQ`.
unfoldable pub check_header : ℕ → Bytes → Bytes → Assoc (ℕ × ℕ) → Result (Assoc (ℕ × ℕ))
check_header size names header result =
    if leb (length names) (number_at header 0 4)
      || not (number_at header 4 4 == 8) && ltb size (number_at header 24 8 + number_at header 32 8)
    then reject
    else named_section result (number_at header 24 8, number_at header 32 8)
        (name_in (drop_chars (number_at header 0 4) names))

-- `raw_sections`
unfoldable pub raw_sections : Bytes → ℕ → ℕ → ℕ → Result (List Bytes)
raw_sections data_ section_offset zero index = ok []
raw_sections data_ section_offset (suc left) index = do
  header ← unpack_from data_ (section_offset + index * 64) 64
  rest ← raw_sections data_ section_offset left (index + 1)
  ok (header ∷ rest)

unfoldable pub name_sections : ℕ → Bytes → List Bytes → Assoc (ℕ × ℕ) → Result (Assoc (ℕ × ℕ))
name_sections size names [] result = ok result
name_sections size names (header ∷ headers) result =
    check_header size names header result >>= λ result₁. name_sections size names headers result₁

-- `raw_sections[section_names_index]`, of an index that is in range.
unfoldable pub header_at : List Bytes → ℕ → Bytes
header_at [] index = []
header_at (h ∷ hs) zero = h
header_at (h ∷ hs) (suc index) = header_at hs index

unfoldable pub with_names : Bytes → List Bytes → Bytes → Result (Assoc (ℕ × ℕ))
with_names data_ headers names_header =
    if ltb (length data_) (number_at names_header 24 8 + number_at names_header 32 8)
    then reject
    else name_sections (length data_)
        (slice data_ (number_at names_header 24 8) (number_at names_header 32 8)) headers []

-- `_read_elf_sections`
unfoldable pub read_elf_sections : Bytes → ℕ → ℕ → ℕ → ℕ → Result (Assoc (ℕ × ℕ))
read_elf_sections data_ section_offset section_entry_size section_count section_names_index =
    if not (section_entry_size == 64) || not (leb 1 section_count && leb section_count 256)
    then reject
    else if leb section_count section_names_index
    then reject
    else if ltb (length data_) (section_offset + section_count * section_entry_size)
    then reject
    else raw_sections data_ section_offset section_count 0 >>= λ headers.
        with_names data_ headers (header_at headers section_names_index)

pub record OatInfo : Type 0 where
  pub load_segment_count : ℕ
  pub segment_alignment : ℕ

-- OAT_VERSION
abbrev pub oat_version : Bytes
oat_version = codes "265" ++ (0 ∷ [])

unfoldable pub has_all : List Text → Assoc (ℕ × ℕ) → Bool
has_all [] sections = true
has_all (name ∷ names) sections = elim (find name sections) [
  | none ↦ false
  | some range ↦ has_all names sections
]

unfoldable pub check_rodata : Bytes → OatInfo → Option (ℕ × ℕ) → Result OatInfo
check_rodata data_ info none = reject
check_rodata data_ info (some (offset, size)) =
    if ltb size 8 || not (slice data_ offset 4 == codes "oat\n")
    then reject
    else if not (slice data_ (offset + 4) 4 == oat_version)
    then reject
    else ok info

-- The sections that an OAT file has to have.
unfoldable pub check_sections : Bytes → OatInfo → Assoc (ℕ × ℕ) → Result OatInfo
check_sections data_ info sections =
    if not (
      has_all
        (codes ".rodata"
          ∷ codes ".text"
          ∷ codes ".dynamic"
          ∷ codes ".dynsym"
          ∷ codes ".dynstr"
          ∷ [])
        sections)
    then reject
    else check_rodata data_ info (find (codes ".rodata") sections)

unfoldable pub check_counts : Bytes → Bytes → ℕ → Counts → Result OatInfo
check_counts data_ header expected (loads, dynamics) =
    if loads == 0 || not (dynamics == 1)
    then reject
    else read_elf_sections data_ (number_at header 40 8) (number_at header 58 2)
        (number_at header 60 2) (number_at header 62 2)
      >>= λ sections.
          check_sections data_ (record { load_segment_count = loads; segment_alignment = expected })
            sections

-- `validate_oat_elf` behind the ELF header, of the format `<16sHHIQQQIHHHHHH`.
unfoldable pub validate_header : Bytes → ℕ → Bytes → Result OatInfo
validate_header data_ expected header =
    if not (slice header 0 4 == 127 ∷ codes "ELF") || not (slice header 4 3 == 2 ∷ 1 ∷ 1 ∷ [])
    then reject
    else if not (slice header 7 2 == 3 ∷ 0 ∷ [])
    then reject
    else if not (
        (number_at header 16 2 == 3)
        && ((number_at header 18 2 == 62)
            && ((number_at header 20 4 == 1)
                && ((number_at header 24 8 == 0) && (number_at header 48 4 == 0)))))
    then reject
    else if not (number_at header 52 2 == 64) || not (number_at header 54 2 == 56)
    then reject
    else if not (leb 1 (number_at header 56 2) && leb (number_at header 56 2) 64)
    then reject
    else if ltb (length data_) (number_at header 32 8 + number_at header 56 2 * 56)
    then reject
    else read_segments data_ (number_at header 32 8) expected (number_at header 56 2) 0 (0, 0)
      >>= λ (segments, counts). check_counts data_ header expected counts

-- `validate_oat_elf`
unfoldable pub validate_oat_elf : Bytes → ℕ → Result OatInfo
validate_oat_elf data_ expected =
    if ltb (length data_) 64
    then reject
    else unpack_from data_ 0 64 >>= λ header. validate_header data_ expected header
