-- ===== src/Probe/Boot.antt =====
-- tools/run_dex2oat_no_image.py: `_read_windows_boot_oat_layout`, `_validate_dynamic_symbol`, and
-- `validate_windows_oat_unwind` and `validate_windows_oat_cfg` on the bytes of a boot.oat.
pub mod Reads
pub mod Whole
use Prim.Native.Nat.{◌%◌, ◌/◌}
use dalvikvm_multiplatform.Common.{
  ℕ, zero, suc, ◌+◌, ◌-◌, ◌*◌, Bool, true, false, not, ◌&&◌, ◌||◌, Option, none, some, List, [],
  ◌∷◌, if◌then◌else◌, ◌==◌, nat_eq, text_eq, ltb, leb, length, Text, codes, Assoc, find, store,
  value_error, Result, ok, err, ◌>>=◌, ◌>>◌,
}
use dalvikvm_multiplatform.Overlay.{drop_chars}
use dalvikvm_multiplatform.Probe.Bytes.{Bytes, slice, reject}
use dalvikvm_multiplatform.Probe.Elf.{
  unpack_from, number_at, Segment, read_segments, name_in, is_ascii, raw_sections, header_at,
}
use dalvikvm_multiplatform.Probe.Windows.{
  Anchors, UnwindInfo, CfgInfo, check_unwind_payload, check_cfg_payload,
}

-- WINDOWS_X64_ELF_ALIGNMENT
abbrev pub windows_x64_elf_alignment : ℕ
windows_x64_elf_alignment = 65536

unfoldable pub decoded : Option Bytes → Result Bytes
decoded none = reject
decoded (some name) = if is_ascii name then ok name else err value_error

-- The name at a place of a table of names.
unfoldable pub name_at : Bytes → ℕ → Result Bytes
name_at names offset =
    if leb (length names) offset then reject else decoded (name_in (drop_chars offset names))

-- The index and the header of each section by its name.
abbrev pub Sections : Type 0
Sections = Assoc (ℕ × Bytes)

unfoldable pub add_index : Sections → Bytes → ℕ × Bytes → Option (ℕ × Bytes) → Result Sections
add_index sections name entry (some old) = reject
add_index sections name entry none = ok (store name entry sections)

unfoldable pub index_sections : Bytes → List Bytes → ℕ → Sections → Result Sections
index_sections names [] index sections = ok sections
index_sections names (header ∷ headers) index sections = do
  name ← name_at names (number_at header 0 4)
  sections₁ ← add_index sections name (index, header) (find name sections)
  index_sections names headers (index + 1) sections₁

-- The fields of a section header, of the format `<IIQQQQIIQQ`.
unfoldable pub address_of : Bytes → ℕ
address_of header = number_at header 16 8

unfoldable pub file_offset_of : Bytes → ℕ
file_offset_of header = number_at header 24 8

unfoldable pub size_of : Bytes → ℕ
size_of header = number_at header 32 8

pub record Layout : Type 0 where
  pub data_ : Bytes
  pub load_segments : List Segment
  pub section_headers : List Bytes
  pub sections : Sections

unfoldable pub loads_only : List Segment → List Segment
loads_only [] = []
loads_only (s ∷ segments) =
    let rest = loads_only segments in if s.segment_type == 1 then s ∷ rest else rest

-- The layout from the table of section names on.
unfoldable pub layout_of : Bytes → List Segment → List Bytes → Bytes → Result Layout
layout_of data_ segments headers names_header =
    if ltb (length data_) (file_offset_of names_header + size_of names_header)
    then reject
    else index_sections (slice data_ (file_offset_of names_header) (size_of names_header)) headers 0
        []
      >>= λ sections. ok (record {
        data_ = data_;
        load_segments = segments;
        section_headers = headers;
        sections = sections;
      })

unfoldable pub layout_sections : Bytes → Bytes → List Segment → Result Layout
layout_sections data_ header segments =
    if not (number_at header 58 2 == 64)
      || not (leb 1 (number_at header 60 2) && leb (number_at header 60 2) 256)
    then reject
    else if leb (number_at header 60 2) (number_at header 62 2)
    then reject
    else if ltb (length data_) (number_at header 40 8 + number_at header 60 2 * 64)
    then reject
    else raw_sections data_ (number_at header 40 8) (number_at header 60 2) 0 >>= λ headers.
        layout_of data_ segments headers (header_at headers (number_at header 62 2))

unfoldable pub is_boot_header : Bytes → Bool
is_boot_header h =
    (slice h 0 4 == 127 ∷ codes "ELF")
    && ((slice h 4 3 == 2 ∷ 1 ∷ 1 ∷ [])
        && ((slice h 7 2 == 3 ∷ 0 ∷ [])
            && ((number_at h 16 2 == 3)
                && ((number_at h 18 2 == 62)
                    && ((number_at h 20 4 == 1)
                        && ((number_at h 24 8 == 0) && (number_at h 48 4 == 0)))))))

unfoldable pub layout_segments : Bytes → Bytes → Result Layout
layout_segments data_ header =
    if not (number_at header 54 2 == 56)
      || not (leb 1 (number_at header 56 2) && leb (number_at header 56 2) 64)
    then reject
    else if ltb (length data_) (number_at header 32 8 + number_at header 56 2 * 56)
    then reject
    else read_segments data_ (number_at header 32 8) windows_x64_elf_alignment
        (number_at header 56 2) 0 (0, 0)
      >>= λ (segments, (loads, dynamics)).
          if loads == 0 then reject else layout_sections data_ header (loads_only segments)

-- `_read_windows_boot_oat_layout`
unfoldable pub read_windows_boot_oat_layout : Bytes → Result Layout
read_windows_boot_oat_layout data_ =
    if ltb (length data_) 64
    then reject
    else unpack_from data_ 0 64 >>= λ header.
        if not (is_boot_header header) then reject else layout_segments data_ header

-- The section index, the value and the size of a symbol.
abbrev pub Symbol : Type 0
Symbol = ℕ × ℕ × ℕ

unfoldable pub same_symbol : Bytes → Symbol → Bool
same_symbol h (index, value, size) =
    (number_at h 6 2 == index) && ((number_at h 8 8 == value) && (number_at h 16 8 == size))

-- The loop over the dynamic symbols, of the format `<IBBHQQ`: `left` of them, from `index` on.
unfoldable pub find_symbol : Bytes → Bytes → ℕ → ℕ → ℕ → Text → Symbol → Result (Unit {0})
find_symbol data_ strings offset zero index name expected = reject
find_symbol data_ strings offset (suc left) index name expected = do
  h ← unpack_from data_ (offset + index * 24) 24
  found ← name_at strings (number_at h 0 4)
  elim (found == name) [
    | true ↦ if same_symbol h expected then ok tt else reject
    | false ↦ find_symbol data_ strings offset left (index + 1) name expected
  ]

unfoldable pub find_in : Bytes → Bytes → Bytes → Text → Symbol → Result (Unit {0})
find_in data_ dynsym dynstr name expected =
    if ltb (length data_) (file_offset_of dynsym + size_of dynsym)
      || ltb (length data_) (file_offset_of dynstr + size_of dynstr)
    then reject
    else if not (size_of dynsym % 24 == 0)
    then reject
    else find_symbol data_ (slice data_ (file_offset_of dynstr) (size_of dynstr))
        (file_offset_of dynsym) (size_of dynsym / 24) 0 name expected

-- `_validate_dynamic_symbol`, of the header of `.dynsym`.
unfoldable pub validate_dynamic_symbol : Layout → Bytes → Text → Symbol → Result (Unit {0})
validate_dynamic_symbol l dynsym name expected =
    if leb (length l.section_headers) (number_at dynsym 40 4) || not (number_at dynsym 56 8 == 24)
    then reject
    else find_in l.data_ dynsym (header_at l.section_headers (number_at dynsym 40 4)) name expected

-- A section that has to be there.
unfoldable pub required : Option (ℕ × Bytes) → Result (ℕ × Bytes)
required none = reject
required (some entry) = ok entry

-- The order of a section and another one, where that is there.
unfoldable pub is_behind : ℕ → Option (ℕ × Bytes) → Bool
is_behind index none = false
is_behind index (some (other, header)) = leb other index

unfoldable pub is_before : ℕ → Option (ℕ × Bytes) → Bool
is_before index none = false
is_before index (some (other, header)) = leb index other

unfoldable pub before_any : ℕ → Sections → List Text → Bool
before_any index sections [] = false
before_any index sections (name ∷ names) =
    is_before index (find name sections) || before_any index sections names

-- A read-only segment holds the section.
unfoldable pub holds : Bytes → Segment → Bool
holds header s =
    (s.segment_flags == 4)
    && ((leb s.file_offset (file_offset_of header)
          && leb (file_offset_of header + size_of header) (s.file_offset + s.file_size))
        && (leb s.virtual_address (address_of header)
            && leb (address_of header + size_of header) (s.virtual_address + s.memory_size)))

unfoldable pub any_holds : Bytes → List Segment → Bool
any_holds header [] = false
any_holds header (s ∷ segments) = holds header s || any_holds header segments

-- The type, the flags, the alignment and the size of a section are refused.
unfoldable pub bad_section : ℕ → ℕ → Bytes → Bool
bad_section size alignment header =
    (not (number_at header 4 4 == 1)
      || (not (number_at header 8 8 == 2) || not (number_at header 48 8 == alignment)))
    || (ltb (size_of header) 48 || ltb size (file_offset_of header + size_of header))

-- The checks of the section in front of its payload, behind the sections named.
unfoldable pub check_place : Layout → ℕ → Bytes → ℕ → List Text → Result Bytes
check_place l index header alignment followed =
    if bad_section (length l.data_) alignment header
    then reject
    else if is_behind index (find (codes ".bss") l.sections)
    then reject
    else if before_any index l.sections followed
    then reject
    else if not (any_holds header l.load_segments)
    then reject
    else ok (slice l.data_ (file_offset_of header) (size_of header))

-- The symbols at the front of a section and at its last word.
unfoldable pub check_symbols : Layout → ℕ → Bytes → Bytes → Text → Text → Result (Unit {0})
check_symbols l index header dynsym front last =
    validate_dynamic_symbol l dynsym front (index, address_of header, size_of header)
    >> validate_dynamic_symbol l dynsym last (index, (address_of header + size_of header) - 4, 4)

unfoldable pub anchors_of : Bytes → Bytes → Bytes → Anchors
anchors_of rodata text header = record {
  rodata_address = address_of rodata;
  text_address = address_of text;
  text_size = size_of text;
  section_address = address_of header;
}

-- What both validators do, with the check of the payload.
unfoldable pub validate_section :
    {A : Type 0}
    → (Anchors → Bytes → Result A)
    → Text
    → ℕ
    → List Text
    → Text
    → Text
    → Layout
    → Result A
validate_section check name alignment followed front last l = do
  rodata ← required (find (codes ".rodata") l.sections)
  text ← required (find (codes ".text") l.sections)
  (index, header) ← required (find name l.sections)
  dynsym ← required (find (codes ".dynsym") l.sections)
  dynstr ← required (find (codes ".dynstr") l.sections)
  payload ← check_place l index header alignment followed
  info ← check (anchors_of rodata.1 text.1 header) payload
  check_symbols l index header dynsym.1 front last
  ok info

-- `validate_windows_oat_unwind`
unfoldable pub validate_windows_oat_unwind : Bytes → Result UnwindInfo
validate_windows_oat_unwind data_ = read_windows_boot_oat_layout data_ >>= λ l.
    validate_section check_unwind_payload (codes ".oat_unwind.windows") windows_x64_elf_alignment
      (codes ".data.img.rel.ro" ∷ []) (codes "oatunwindwindows") (codes "oatunwindwindowslastword")
      l

-- `validate_windows_oat_cfg`
unfoldable pub validate_windows_oat_cfg : Bytes → Result CfgInfo
validate_windows_oat_cfg data_ = read_windows_boot_oat_layout data_ >>= λ l.
    validate_section check_cfg_payload (codes ".oat_cfg.windows") 4
      (codes ".data.img.rel.ro" ∷ codes ".oat_unwind.windows" ∷ []) (codes "oatcfgwindows")
      (codes "oatcfgwindowslastword") l
