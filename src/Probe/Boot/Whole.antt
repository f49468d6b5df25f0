-- ===== src/Probe/Boot/Whole.antt =====
-- tools/run_dex2oat_no_image.py: what a boot.oat that is accepted holds.
use dalvikvm_multiplatform.Common.{
  find-All, subst, ap, ◌∙◌, ◌*◌, ℕ, zero, suc, ◌+◌, ◌≤◌, not, ◌||◌, Option, none, some, List, [],
  ◌∷◌, ltb, length, Text, codes, find, Result, probe_error, Ends, returned, Ends-bind, Ends-map,
  ◌≡◌, refl, inl, arith,
}
use dalvikvm_multiplatform.Overlay.{drop_chars}
use dalvikvm_multiplatform.Probe.Bytes.{Bytes, take, slice, little}
use dalvikvm_multiplatform.Probe.Elf.{number_at}
use dalvikvm_multiplatform.Probe.Elf.Segments.{IsRefusal, guard-Ends, reject-Refusal}
use dalvikvm_multiplatform.Probe.Windows.{Anchors, check_unwind_payload, check_cfg_payload}
use dalvikvm_multiplatform.Probe.Windows.Tables.{HasFunctions, check_unwind_payload-InOrder}
use dalvikvm_multiplatform.Probe.Windows.Targets.{HasTargets, check_cfg_payload-Rises}
use dalvikvm_multiplatform.Probe.Boot.{
  file_offset_of, size_of, address_of, Layout, required, is_behind, before_any, any_holds,
  bad_section, check_place, check_symbols, anchors_of, validate_section,
  validate_windows_oat_unwind, validate_windows_oat_cfg,
}
use dalvikvm_multiplatform.Probe.Boot.Reads.{
  AreSections, IsNamed, names_by, EndsRead, read_windows_boot_oat_layout-Ends,
  validate_dynamic_symbol-Ends,
}

drop-Room : (k n : ℕ) (data_ : Bytes) → k + n ≤ length data_ → n ≤ length (drop_chars k data_)
unfolding drop_chars
drop-Room zero n data_ h = omega (arith, h)
drop-Room (suc k) n [] h = absurd (omega (arith, h))
drop-Room (suc k) n (b ∷ data_) h = drop-Room k n data_ (omega (arith, h))

length-take : (n : ℕ) (data_ : Bytes) → n ≤ length data_ → length (take n data_) ≡ n
unfolding take
length-take zero data_ h = refl
length-take (suc n) [] h = absurd (omega (arith, h))
length-take (suc n) (b ∷ data_) h =
    let e = length-take n data_ (omega (arith, h)) in omega (arith, e)

length-slice :
    (data_ : Bytes) (first n : ℕ) → first + n ≤ length data_ → length (slice data_ first n) ≡ n
unfolding slice
length-slice data_ first n h = length-take n (drop_chars first data_) (drop-Room first n data_ h)

required-Ends : (o : Option (ℕ × Bytes)) → Ends IsRefusal (λ entry. o ≡ some entry) (required o)
unfolding required
required-Ends none = reject-Refusal (λ entry. none ≡ some entry)
required-Ends (some entry) = returned refl

check_place-Ends :
    (l : Layout) (index : ℕ) (h : Bytes) (alignment : ℕ) (followed : List Text)
    → Ends IsRefusal
        (λ payload.
          (payload ≡ slice l.data_ (file_offset_of h) (size_of h)) × (48 ≤ length payload))
        (check_place l index h alignment followed)
unfolding check_place bad_section
check_place-Ends l index h alignment followed =
    guard-Ends _ (_ || (ltb (size_of h) 48 || ltb (length l.data_) (file_offset_of h + size_of h)))
      _
      λ sized. guard-Ends _ (is_behind index (find (codes ".bss") l.sections)) _ λ _.
        guard-Ends _ (before_any index l.sections followed) _ λ _.
          guard-Ends _ (not (any_holds h l.load_segments)) _ λ _.
            let inside : file_offset_of h + size_of h ≤ length l.data_ = ground (arith, sized) in
            let big : 48 ≤ size_of h = ground (arith, sized) in
            let whole = length-slice l.data_ (file_offset_of h) (size_of h) inside in
            returned (refl, omega (arith, big, whole))

check_symbols-Ends :
    (l : Layout) (index : ℕ) (h dynsym : Bytes) (front last : Text)
    → EndsRead (check_symbols l index h dynsym front last)
unfolding check_symbols
check_symbols-Ends l index h dynsym front last =
    Ends-bind (validate_dynamic_symbol-Ends l dynsym front _)
      λ u _. validate_dynamic_symbol-Ends l dynsym last _

-- A section of a file: its header, of an index that the ELF header allows, and its name.
abbrev pub HasSection : Bytes → Text → Bytes → Type 0
HasSection data_ name h =
    let elf = slice data_ 0 64 in
    let first = little (slice elf 40 8) in
    let names_header = slice data_ (first + little (slice elf 62 2) * 64) 64 in
    (index : ℕ) × IsNamed data_ first (little (slice elf 60 2)) (names_by data_ names_header)
      (name, (index, h))

-- Addresses and sizes in the headers of three sections.
abbrev pub anchors_by : Bytes → Bytes → Bytes → Anchors
anchors_by rodata text own = record {
  rodata_address = little (slice rodata 16 8);
  text_address = little (slice text 16 8);
  text_size = little (slice text 32 8);
  section_address = little (slice own 16 8);
}

-- The property of the bytes of a section, with the addresses in the headers of the sections around it.
abbrev pub Holds : {A : Type 0} → (Anchors → Bytes → A → Type 0) → Text → Bytes → A → Type 0
Holds Q name data_ info =
    (rodata : Bytes) × (text : Bytes) × (own : Bytes) × HasSection data_ (codes ".rodata") rodata
    × HasSection data_ (codes ".text") text
    × HasSection data_ name own
    × Q (anchors_by rodata text own) (names_by data_ own) info

find_section :
    (data_ : Bytes) (l : Layout) (name : Text) (entry : ℕ × Bytes)
    → AreSections data_ (slice data_ 0 64) l
    → find name l.sections ≡ some entry
    → HasSection data_ name entry.1
find_section data_ l name entry (same, all) e = (entry.0, find-All _ name l.sections entry all e)

validate_section-Ends :
    {A : Type 0} (check : Anchors → Bytes → Result A) (Q : Anchors → Bytes → A → Type 0)
    → ((a : Anchors) (payload : Bytes)
        → 48 ≤ length payload
        → Ends (λ x. x ≡ probe_error) (Q a payload) (check a payload))
    → (name : Text) (alignment : ℕ) (followed : List Text) (front last : Text) (data_ : Bytes)
      (l : Layout)
    → AreSections data_ (slice data_ 0 64) l
    → Ends IsRefusal
        (Holds Q name data_)
        (validate_section check name alignment followed front last l)
unfolding validate_section anchors_of address_of size_of file_offset_of number_at
validate_section-Ends check Q good name alignment followed front last data_ l sections =
    Ends-bind (required-Ends (find (codes ".rodata") l.sections)) λ rodata e₁.
      Ends-bind (required-Ends (find (codes ".text") l.sections)) λ text e₂.
        Ends-bind (required-Ends (find name l.sections)) λ (index, h) e₃.
          Ends-bind (required-Ends (find (codes ".dynsym") l.sections)) λ dynsym _.
            Ends-bind (required-Ends (find (codes ".dynstr") l.sections)) λ dynstr _.
              Ends-bind (check_place-Ends l index h alignment followed) λ payload (at, room).
                let bytes : payload ≡ names_by data_ h = at ∙ ap (λ z. names_by z h) sections.0 in
                Ends-bind
                  (Ends-map (good (anchors_by rodata.1 text.1 h) payload room) (λ info q. q)
                    (λ x e. inl e))
                  λ info q. Ends-bind (check_symbols-Ends l index h dynsym.1 front last) λ u _.
                    returned (
                      rodata.1,
                      text.1,
                      h,
                      find_section data_ l (codes ".rodata") rodata sections e₁,
                      find_section data_ l (codes ".text") text sections e₂,
                      find_section data_ l name (index, h) sections e₃,
                      subst (λ z. Q (anchors_by rodata.1 text.1 h) z info) bytes q,
                    )

-- Whatever the bytes are, `validate_windows_oat_unwind` returns or raises Dex2OatProbeError or the
-- ValueError of a name that is not ASCII, and reads nothing past the end. If it returns, the file has
-- sections of the names `.rodata`, `.text` and `.oat_unwind.windows`; the count that is returned is the
-- one in the last section, and so many functions of its table stand one behind the other in the code of
-- `.text`, none of them empty and no two of them overlapping.
pub validate_windows_oat_unwind-InOrder :
    (data_ : Bytes)
    → Ends IsRefusal
        (Holds HasFunctions (codes ".oat_unwind.windows") data_)
        (validate_windows_oat_unwind data_)
unfolding validate_windows_oat_unwind
validate_windows_oat_unwind-InOrder data_ =
    Ends-bind (read_windows_boot_oat_layout-Ends data_) λ l sections.
      validate_section-Ends check_unwind_payload HasFunctions check_unwind_payload-InOrder _ _ _ _ _
        data_ l sections

-- Whatever the bytes are, `validate_windows_oat_cfg` returns or raises Dex2OatProbeError or the
-- ValueError of a name that is not ASCII, and reads nothing past the end. If it returns, the file has
-- sections of the names `.rodata`, `.text` and `.oat_cfg.windows`; the targets in the table of the last
-- one, as many as it says, rise strictly in the code of `.text`, each is aligned to 16 in memory and has
-- some of the four roles and no other, just seven are trampolines, and the counts that are returned are
-- those of the targets and of their roles.
pub validate_windows_oat_cfg-Rises :
    (data_ : Bytes)
    → Ends IsRefusal
        (Holds HasTargets (codes ".oat_cfg.windows") data_)
        (validate_windows_oat_cfg data_)
unfolding validate_windows_oat_cfg
validate_windows_oat_cfg-Rises data_ =
    Ends-bind (read_windows_boot_oat_layout-Ends data_) λ l sections.
      validate_section-Ends check_cfg_payload HasTargets check_cfg_payload-Rises _ _ _ _ _ data_ l
        sections
