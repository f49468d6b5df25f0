-- ===== src/Probe/Vdex.antt =====
-- tools/run_dex2oat_no_image.py: `validate_vdex`, on the bytes of the file.
pub mod Layout
use Prim.Native.Nat.{◌/◌}
use dalvikvm_multiplatform.Common.{
  ℕ, zero, suc, ◌+◌, ◌-◌, ◌*◌, max, Bool, true, false, not, ◌&&◌, ◌||◌, List, [], ◌∷◌, ◌++◌,
  if◌then◌else◌, ◌==◌, nat_eq, text_eq, ltb, length, Text, codes, struct_error, Error, Result, ok,
  err, ◌>>=◌,
}
use dalvikvm_multiplatform.Probe.Bytes.{Bytes, slice, little, unpack_words, reject}

-- The offset and the size of a section.
abbrev pub Section : Type 0
Section = ℕ × ℕ

pub record VdexInfo : Type 0 where
  pub section_count : ℕ
  pub dex_file_count : ℕ

-- VDEX_VERSION
abbrev pub vdex_version : Bytes
vdex_version = codes "027" ++ (0 ∷ [])

-- The loop over the section headers: `left` of them, from `index` on.
unfoldable pub check_section : ℕ → ℕ → ℕ → ℕ × ℕ × ℕ → Result Section
check_section payload_start size index (kind, offset, section_size) =
    if not (kind == index)
    then reject
    else if ltb offset payload_start || ltb size (offset + section_size)
    then reject
    else ok (offset, section_size)

unfoldable pub read_sections : Bytes → ℕ → ℕ → ℕ → Result (List Section)
read_sections data_ payload_start zero index = ok []
read_sections data_ payload_start (suc left) index = do
  header ← unpack_words data_ (12 + index * 12)
  section ← check_section payload_start (length data_) index header
  rest ← read_sections data_ payload_start left (index + 1)
  ok (section ∷ rest)

-- `max(payload_start, *(offset + size for ...))`
unfoldable pub layout_end : ℕ → List Section → ℕ
layout_end start [] = start
layout_end start ((offset, size) ∷ sections) = max (offset + size) (layout_end start sections)

-- The checks of the first two sections.
unfoldable pub check_contents : Bytes → ℕ → List Section → Result VdexInfo
check_contents data_ payload_start
      ((checksum_offset, checksum_size) ∷ (dex_offset, dex_size) ∷ rest) =
    if not (checksum_offset == payload_start) || not (checksum_size == 4)
    then reject
    else if ltb dex_size 8 || not (slice data_ dex_offset 4 == codes "dex\n")
    then reject
    else ok (record { section_count = 4; dex_file_count = checksum_size / 4 })
check_contents data_ payload_start _ = reject

unfoldable pub check_layout : Bytes → ℕ → List Section → Result VdexInfo
check_layout data_ payload_start sections =
    if not (layout_end payload_start sections == length data_)
    then reject
    else check_contents data_ payload_start sections

-- The file behind its header. `section_count` is 4 here.
unfoldable pub validate_sections : Bytes → ℕ → Result VdexInfo
validate_sections data_ section_count =
    let payload_start = 12 + section_count * 12 in
    if ltb (length data_) payload_start
    then reject
    else read_sections data_ payload_start section_count 0 >>= λ sections.
        check_layout data_ payload_start sections

-- `validate_vdex`
unfoldable pub validate_vdex : Bytes → Result VdexInfo
validate_vdex data_ =
    if ltb (length data_) 12
    then reject
    else if not (slice data_ 0 4 == codes "vdex")
    then reject
    else if not (slice data_ 4 4 == vdex_version)
    then reject
    else if not (little (slice data_ 8 4) == 4)
    then reject
    else validate_sections data_ (little (slice data_ 8 4))
