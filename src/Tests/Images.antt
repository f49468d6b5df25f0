-- ===== src/Tests/Images.antt =====
-- tools/run_dex2oat_no_image.py: an unwind descriptor, a VDEX file and an OAT file.
use dalvikvm_multiplatform.Common.{
  arith, ℕ, [], ◌∷◌, ◌++◌, ok, codes, contains, text_beq, find, store, probe_error, Ends, ◌≡◌, refl,
}
use dalvikvm_multiplatform.Overlay.{drop_chars}
use dalvikvm_multiplatform.Probe.Bytes.{Bytes, byte_at, take, slice, little, unpack_words}
use dalvikvm_multiplatform.Probe.Unwind.{
  validate_unwind_info, validate_descriptor, read_slots, next_slot, used_slots, when, check_rest,
  bad_frame, any_byte, is_padding, descriptor_size,
}
use dalvikvm_multiplatform.Probe.Unwind.Bounds.{HasSlots, validate_unwind_info-Ends}
use dalvikvm_multiplatform.Probe.Vdex.{
  VdexInfo, validate_vdex, validate_sections, check_layout, check_contents, layout_end,
  read_sections, check_section,
}
use dalvikvm_multiplatform.Probe.Vdex.Layout.{IsVdex, validate_vdex-IsVdex}
use dalvikvm_multiplatform.Probe.Elf.{
  validate_oat_elf, validate_header, check_counts, check_sections, check_rodata, has_all,
  read_elf_sections, with_names, header_at, name_sections, raw_sections, check_header,
  named_section, add_section, is_ascii, name_in, name_front, read_segments, check_segment,
  segment_of, number_at, unpack_from,
}
use dalvikvm_multiplatform.Probe.Elf.Segments.{IsRefusal, HasSegments, validate_oat_elf-Segments}

-- `push rbx` at 1 and `push rbp` at 2, in a prologue of 2 bytes.
abbrev two_pushes : Bytes
two_pushes = 1 ∷ 2 ∷ 2 ∷ 0 ∷ 2 ∷ 80 ∷ 1 ∷ 48 ∷ []

validate_unwind_info-Ends_example :
    Ends (λ x. x ≡ probe_error) (λ u. HasSlots two_pushes) (validate_unwind_info two_pushes)
validate_unwind_info-Ends_example = validate_unwind_info-Ends two_pushes

-- Numbers below 256 of 4 and of 8 bytes.
abbrev word : ℕ → Bytes
word n = n ∷ 0 ∷ 0 ∷ 0 ∷ []

abbrev long : ℕ → Bytes
long n = n ∷ 0 ∷ 0 ∷ 0 ∷ 0 ∷ 0 ∷ 0 ∷ 0 ∷ []

abbrev vdex_section : ℕ → ℕ → ℕ → Bytes
vdex_section kind offset size = word kind ++ (word offset ++ word size)

abbrev vdex_sections : Bytes
vdex_sections =
    vdex_section 0 60 4 ++ (vdex_section 1 64 8 ++ (vdex_section 2 72 0 ++ vdex_section 3 72 0))

-- A checksum, and the magic and the version of a DEX file.
abbrev vdex_payload : Bytes
vdex_payload = word 7 ++ (codes "dex\n037" ++ (0 ∷ []))

abbrev vdex_file : Bytes
vdex_file = codes "vdex027" ++ (0 ∷ word 4 ++ (vdex_sections ++ vdex_payload))

validate_vdex-IsVdex_example :
    Ends
      (λ x. x ≡ probe_error)
      (λ (info : VdexInfo). (info.dex_file_count ≡ 1) × IsVdex vdex_file)
      (validate_vdex vdex_file)
validate_vdex-IsVdex_example = validate_vdex-IsVdex vdex_file

-- A type and flags, then the place in the file and in memory, the sizes and the alignment 64.
abbrev program_header : ℕ → ℕ → ℕ → ℕ → Bytes
program_header kind flags offset size =
    word kind
    ++ (word flags
        ++ (long offset ++ (long offset ++ (long offset ++ (long size ++ (long size ++ long 64))))))

-- A name and a type, then the place in the file and the size.
abbrev section_header : ℕ → ℕ → ℕ → ℕ → Bytes
section_header name kind offset size =
    word name
    ++ (word kind
        ++ (long 0
            ++ (long offset ++ (long offset ++ (long size ++ (long 0 ++ (long 0 ++ long 0)))))))

abbrev section_names : Bytes
section_names =
    0 ∷ codes ".rodata"
    ++ (0 ∷ codes ".text"
        ++ (0 ∷ codes ".dynamic" ++ (0 ∷ codes ".dynsym" ++ (0 ∷ codes ".dynstr" ++ (0 ∷ [])))))

abbrev section_headers : Bytes
section_headers =
    section_header 0 3 176 40
    ++ (section_header 1 1 216 8
        ++ (section_header 9 1 224 0
            ++ (section_header 15 6 224 0
                ++ (section_header 24 11 224 0 ++ section_header 32 3 224 0))))

abbrev oat_header : Bytes
oat_header =
    127 ∷ codes "ELF"
    ++ (2 ∷ 1 ∷ 1 ∷ 3 ∷ long 0
        ++ (3 ∷ 0 ∷ 62 ∷ 0 ∷ word 1
            ++ (long 0
                ++ (long 64
                    ++ (long 224
                        ++ (word 0 ++ (64 ∷ 0 ∷ 56 ∷ 0 ∷ 2 ∷ 0 ∷ 64 ∷ 0 ∷ 6 ∷ 0 ∷ 0 ∷ 0 ∷ [])))))))

abbrev oat_file : Bytes
oat_file =
    oat_header
    ++ (program_header 1 5 0 224
        ++ (program_header 2 6 176 0
            ++ (section_names ++ (codes "oat\n265" ++ (0 ∷ section_headers)))))

validate_oat_elf-Segments_example :
    Ends IsRefusal (HasSegments oat_file 64) (validate_oat_elf oat_file 64)
validate_oat_elf-Segments_example = validate_oat_elf-Segments oat_file 64 (omega arith)

two_pushes-accepted : validate_unwind_info two_pushes ≡ ok tt
unfolding validate_unwind_info validate_descriptor read_slots next_slot used_slots when byte_at
    check_rest bad_frame any_byte is_padding descriptor_size slice take drop_chars contains
two_pushes-accepted = refl

vdex_file-accepted : validate_vdex vdex_file ≡ ok (record { section_count = 4; dex_file_count = 1 })
unfolding validate_vdex validate_sections check_layout check_contents layout_end read_sections
    check_section unpack_words little slice take drop_chars text_beq
vdex_file-accepted = refl

oat_file-accepted :
    validate_oat_elf oat_file 64 ≡ ok (record { load_segment_count = 1; segment_alignment = 64 })
unfolding validate_oat_elf validate_header check_counts check_sections check_rodata has_all
    read_elf_sections with_names header_at name_sections raw_sections check_header named_section
    add_section is_ascii name_in name_front read_segments check_segment segment_of number_at
    unpack_from little slice take drop_chars text_beq find store
oat_file-accepted = refl
