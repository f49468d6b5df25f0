-- ===== src/Probe/Boot/Reads.antt =====
-- tools/run_dex2oat_no_image.py: the layout and the symbols of a boot.oat are read without an index
-- or a number past the end.
use Prim.Native.Nat.{◌%◌, ◌/◌}
use dalvikvm_multiplatform.Common.{
  some, All, store-All, ◌++◌, ◌<◌, ap, ◌∙◌, subst, Ends-map, ℕ, zero, suc, ◌+◌, ◌*◌, ◌≤◌, false,
  not, ◌&&◌, ◌||◌, Option, none, List, [], ◌∷◌, if_ind, ◌==◌, nat_eq, text_eq, ltb, leb, length,
  Text, find, Result, Ends, returned, raised, Ends-bind, Bool-cases, ◌≡◌, refl, inl, inr, arith,
}
use dalvikvm_multiplatform.Overlay.{drop_chars}
use dalvikvm_multiplatform.Probe.Bytes.{Bytes, slice, little}
use dalvikvm_multiplatform.Probe.Elf.{number_at, Segment, name_front, name_in, is_ascii, header_at}
use dalvikvm_multiplatform.Probe.Elf.Segments.{
  IsRefusal, guard-Ends, reject-Refusal, unpack_from-Ends, read_segments-Ends, raw_sections-Ends,
  AreHeaders,
}
use dalvikvm_multiplatform.Probe.Boot.{
  windows_x64_elf_alignment, decoded, name_at, Sections, add_index, index_sections, file_offset_of,
  size_of, Layout, loads_only, layout_of, layout_sections, is_boot_header, layout_segments,
  read_windows_boot_oat_layout, Symbol, same_symbol, find_symbol, find_in, validate_dynamic_symbol,
}

abbrev pub EndsRead : {A : Type 0} → Result A → Type 0
EndsRead r = Ends IsRefusal (λ a. Unit {0}) r

-- A name stands in front of a text, with the byte 0 behind it.
abbrev pub Begins : Bytes → Bytes → Type 0
Begins text name = (rest : Bytes) × (text ≡ name ++ (0 ∷ rest))

name_front-Begins :
    (b : ℕ) (bs : Bytes) (o : Option Bytes) (name : Bytes)
    → ((n : Bytes) → o ≡ some n → Begins bs n)
    → name_front b o ≡ some name
    → Begins (b ∷ bs) name
unfolding name_front
name_front-Begins b bs none name h e = cc
name_front-Begins b bs (some n) name h e =
    let (rest, at) = h n refl in
    let same : b ∷ n ≡ name = cc in (rest, ap (λ z. b ∷ z) at ∙ ap (λ z. z ++ (0 ∷ rest)) same)

name_in-Begins : (bs name : Bytes) → name_in bs ≡ some name → Begins bs name
unfolding name_in
name_in-Begins [] name e = cc
name_in-Begins (b ∷ bs) name e = elim (Bool-cases (b == 0)) [
  | inl nil ↦
      let zero_first = (nat_eq.beq_iff b 0).0 nil in
      let empty : [] ≡ name = some_injective (rw nil at e) in
      (bs, ap (λ z. z ∷ bs) zero_first ∙ ap (λ z. z ++ (0 ∷ bs)) empty)
  | inr more ↦
      name_front-Begins b bs (name_in bs) name (λ n h. name_in-Begins bs n h) (rw more at e)
]
  where
    some_injective : {a c : Bytes} → some a ≡ some c → a ≡ c
    some_injective h = cc

decoded-Ends :
    (text : Bytes) (o : Option Bytes) → name_in text ≡ o → Ends IsRefusal (Begins text) (decoded o)
unfolding decoded
decoded-Ends text none e = reject-Refusal (Begins text)
decoded-Ends text (some name) e =
    if_ind (Ends IsRefusal (Begins text)) (is_ascii name)
      (λ _. returned (name_in-Begins text name e)) (λ _. raised (inr refl))

name_at-Ends :
    (names : Bytes) (offset : ℕ)
    → Ends IsRefusal (Begins (drop_chars offset names)) (name_at names offset)
unfolding name_at
name_at-Ends names offset =
    guard-Ends (Begins (drop_chars offset names)) (leb (length names) offset) _
      λ _. decoded-Ends (drop_chars offset names) (name_in (drop_chars offset names)) refl

-- An entry of the sections of a file, by the offset of the first header, the number of headers and the
-- table of names: its header stands at its index, and its name where the header says.
abbrev pub IsNamed : Bytes → ℕ → ℕ → Bytes → Text × (ℕ × Bytes) → Type 0
IsNamed data_ first count names entry =
    (entry.1.0 < count)
    × (entry.1.1 ≡ slice data_ (first + entry.1.0 * 64) 64)
    × Begins (drop_chars (little (slice entry.1.1 0 4)) names) entry.0

add_index-Ends :
    (P : Text × (ℕ × Bytes) → Type 0) (sections : Sections) (name : Bytes) (entry : ℕ × Bytes)
    (old : Option (ℕ × Bytes))
    → All P sections
    → P (name, entry)
    → Ends IsRefusal (All P) (add_index sections name entry old)
unfolding add_index
add_index-Ends P sections name entry (some old) all one = reject-Refusal (All P)
add_index-Ends P sections name entry none all one =
    returned (store-All P name entry sections one all)

index_sections-Ends :
    (data_ : Bytes) (first count : ℕ) (names : Bytes) (headers : List Bytes) (index : ℕ)
    (sections : Sections)
    → AreHeaders data_ first index headers
    → index + length headers ≤ count
    → All (IsNamed data_ first count names) sections
    → Ends IsRefusal
        (All (IsNamed data_ first count names))
        (index_sections names headers index sections)
unfolding index_sections number_at
index_sections-Ends data_ first count names [] index sections own few all = returned all
index_sections-Ends data_ first count names (h ∷ headers) index sections own few all =
    Ends-bind (name_at-Ends names (little (slice h 0 4))) λ name begins.
      Ends-bind
        (add_index-Ends (IsNamed data_ first count names) sections name (index, h)
          (find name sections) all (omega (arith, few), own.0, begins))
        λ sections₁ all₁.
          index_sections-Ends data_ first count names headers (index + 1) sections₁ own.1
            (omega (arith, few)) all₁

header_at-Header :
    (data_ : Bytes) (first index : ℕ) (headers : List Bytes) (k : ℕ)
    → AreHeaders data_ first index headers
    → k < length headers
    → header_at headers k ≡ slice data_ (first + (index + k) * 64) 64
unfolding header_at
header_at-Header data_ first index [] k own low = absurd (omega (arith, low))
header_at-Header data_ first index (h ∷ headers) zero own low =
    own.0 ∙ ap (λ z. slice data_ (first + z * 64) 64) (omega arith)
header_at-Header data_ first index (h ∷ headers) (suc k) own low =
    header_at-Header data_ first (index + 1) headers k own.1 (omega (arith, low))
    ∙ ap (λ z. slice data_ (first + z * 64) 64) (omega arith)

-- The table of names by its header.
abbrev pub names_by : Bytes → Bytes → Bytes
names_by data_ h = slice data_ (little (slice h 24 8)) (little (slice h 32 8))

layout_of-Ends :
    (data_ : Bytes) (segments : List Segment) (first count : ℕ) (headers : List Bytes) (h : Bytes)
    → AreHeaders data_ first 0 headers
    → length headers ≡ count
    → Ends IsRefusal
        (λ (l : Layout).
          (l.data_ ≡ data_) × All (IsNamed data_ first count (names_by data_ h)) l.sections)
        (layout_of data_ segments headers h)
unfolding layout_of file_offset_of size_of number_at
layout_of-Ends data_ segments first count headers h own n =
    guard-Ends _ (ltb (length data_) (little (slice h 24 8) + little (slice h 32 8))) _ λ _.
      Ends-bind
        (index_sections-Ends data_ first count (names_by data_ h) headers 0 [] own
          (omega (arith, n)) tt)
        λ sections all. returned (refl, all)

-- The sections by the ELF header of a file: the place and the number of their headers, and the index of
-- the header of the table of names.
abbrev pub AreSections : Bytes → Bytes → Layout → Type 0
AreSections data_ elf l =
    let first = little (slice elf 40 8) in
    let names_header = slice data_ (first + little (slice elf 62 2) * 64) 64 in
    (l.data_ ≡ data_)
    × All (IsNamed data_ first (little (slice elf 60 2)) (names_by data_ names_header)) l.sections

layout_sections-Ends :
    (data_ h : Bytes) (segments : List Segment)
    → Ends IsRefusal (AreSections data_ h) (layout_sections data_ h segments)
unfolding layout_sections number_at
layout_sections-Ends data_ h segments =
    let first = little (slice h 40 8) in
    let count = little (slice h 60 2) in
    let names = little (slice h 62 2) in
    guard-Ends _ (not (little (slice h 58 2) == 64) || not (leb 1 count && leb count 256)) _ λ _.
      guard-Ends _ (leb count names) _ λ low.
        guard-Ends _ (ltb (length data_) (first + count * 64)) _ λ fits.
          Ends-bind (raw_sections-Ends data_ first count 0 (ground (arith, fits)))
            λ headers (own, n).
              let below : names < length headers = ground (arith, low, n) in
              let at =
                header_at-Header data_ first 0 headers names own below
                ∙ ap (λ z. slice data_ (first + z * 64) 64) (omega arith) in
              Ends-map
                (layout_of-Ends data_ segments first count headers (header_at headers names) own n)
                (λ l (same, all). (
                  same,
                  subst (λ z. All (IsNamed data_ first count (names_by data_ z)) l.sections) at all,
                ))
                (λ x q. q)

layout_segments-Ends :
    (data_ h : Bytes) → Ends IsRefusal (AreSections data_ h) (layout_segments data_ h)
unfolding layout_segments
layout_segments-Ends data_ h =
    guard-Ends _
      (not (number_at h 54 2 == 56) || not (leb 1 (number_at h 56 2) && leb (number_at h 56 2) 64))
      _
      λ _. guard-Ends _ (ltb (length data_) (number_at h 32 8 + number_at h 56 2 * 56)) _ λ fits.
        Ends-bind
          (read_segments-Ends data_ (number_at h 32 8) windows_x64_elf_alignment (number_at h 56 2)
            0 0 0 (omega arith) (ground (arith, fits)))
          λ (segments, (loads, dynamics)) _.
            guard-Ends _ (loads == 0) _ λ _. layout_sections-Ends data_ h (loads_only segments)

pub read_windows_boot_oat_layout-Ends :
    (data_ : Bytes)
    → Ends IsRefusal (AreSections data_ (slice data_ 0 64)) (read_windows_boot_oat_layout data_)
unfolding read_windows_boot_oat_layout
read_windows_boot_oat_layout-Ends data_ = guard-Ends _ (ltb (length data_) 64) _ λ room.
    Ends-bind (unpack_from-Ends data_ 0 64 (ground (arith, room))) λ h at.
      guard-Ends _ (not (is_boot_header h)) _ λ _.
        Ends-map (layout_segments-Ends data_ h) (λ l s. subst (λ z. AreSections data_ z l) at s)
          (λ x q. q)

find_symbol-Ends :
    (data_ strings : Bytes) (offset left index : ℕ) (name : Text) (expected : Symbol)
    → offset + (index + left) * 24 ≤ length data_
    → EndsRead (find_symbol data_ strings offset left index name expected)
unfolding find_symbol
find_symbol-Ends data_ strings offset zero index name expected room = reject-Refusal (λ u. Unit {0})
find_symbol-Ends data_ strings offset (suc left) index name expected room =
    Ends-bind (unpack_from-Ends data_ (offset + index * 24) 24 (omega (arith, room))) λ h _.
      Ends-bind (name_at-Ends strings (number_at h 0 4)) λ found _.
        elim (Bool-cases (found == name)) [
          | inl same ↦ rw same (
              if_ind (Ends IsRefusal (λ u. Unit {0})) (same_symbol h expected) (λ _. returned tt)
                (λ _. reject-Refusal (λ u. Unit {0})))
          | inr other ↦ rw other (
              find_symbol-Ends data_ strings offset left (index + 1) name expected
                (omega (arith, room)))
        ]

find_in-Ends :
    (data_ dynsym dynstr : Bytes) (name : Text) (expected : Symbol)
    → EndsRead (find_in data_ dynsym dynstr name expected)
unfolding find_in
find_in-Ends data_ dynsym dynstr name expected =
    guard-Ends (λ u. Unit {0})
      (ltb (length data_) (file_offset_of dynsym + size_of dynsym)
        || ltb (length data_) (file_offset_of dynstr + size_of dynstr))
      _
      λ inside.
        guard-Ends (λ u. Unit {0}) (not (size_of dynsym % 24 == 0)) _
          λ whole.
            find_symbol-Ends data_ _ (file_offset_of dynsym) (size_of dynsym / 24) 0 name expected
              (symbols_fit inside whole)
  where
    symbols_fit :
        (ltb (length data_) (file_offset_of dynsym + size_of dynsym)
            || ltb (length data_) (file_offset_of dynstr + size_of dynstr))
          ≡ false
        → not (size_of dynsym % 24 == 0) ≡ false
        → file_offset_of dynsym + (0 + size_of dynsym / 24) * 24 ≤ length data_
    symbols_fit inside whole =
        let fits : file_offset_of dynsym + size_of dynsym ≤ length data_ = ground (arith, inside) in
        omega (arith, fits)

pub validate_dynamic_symbol-Ends :
    (l : Layout) (dynsym : Bytes) (name : Text) (expected : Symbol)
    → EndsRead (validate_dynamic_symbol l dynsym name expected)
unfolding validate_dynamic_symbol
validate_dynamic_symbol-Ends l dynsym name expected =
    guard-Ends (λ u. Unit {0})
      (leb (length l.section_headers) (number_at dynsym 40 4) || not (number_at dynsym 56 8 == 24))
      _
      λ _.
        find_in-Ends l.data_ dynsym (header_at l.section_headers (number_at dynsym 40 4)) name
          expected
