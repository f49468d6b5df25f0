-- ===== src/Probe/Vdex/Layout.antt =====
-- tools/run_dex2oat_no_image.py: where the sections of an accepted VDEX file lie.
use Prim.Native.Nat.{◌/◌}
use dalvikvm_multiplatform.Common.{
  max, ◌++◌, ◌∙◌, ap, sym, subst, ◌*◌, suc, zero, ℕ, ◌+◌, ◌≤◌, not, ◌||◌, List, [], ◌∷◌, if_ind,
  ◌==◌, nat_eq, text_eq, ltb, leb, length, codes, probe_error, Ends, returned, Ends-bind, Ends-map,
  ◌≡◌, refl, arith,
}
use dalvikvm_multiplatform.Probe.Bytes.{Bytes, slice, little, unpack_words, reject-Ends}
use dalvikvm_multiplatform.Probe.Vdex.{
  Section, VdexInfo, vdex_version, check_section, read_sections, layout_end, check_contents,
  check_layout, validate_sections, validate_vdex,
}

-- The number of four bytes at a place.
abbrev pub word_at : Bytes → ℕ → ℕ
word_at data_ at = little (slice data_ at 4)

-- The offset and the size in the section header at an index, and where the section ends.
abbrev pub offset_in : Bytes → ℕ → ℕ
offset_in data_ index = word_at data_ (12 + index * 12 + 4)

abbrev pub size_in : Bytes → ℕ → ℕ
size_in data_ index = word_at data_ (12 + index * 12 + 8)

abbrev pub end_in : Bytes → ℕ → ℕ
end_in data_ index = offset_in data_ index + size_in data_ index

-- `left` headers from an index on are of the kinds of their indices, and their sections lie behind the
-- headers and inside the file.
abbrev pub AllInside : Bytes → ℕ → ℕ → ℕ → Type 0
AllInside data_ start zero index = Unit
AllInside data_ start (suc left) index =
    (word_at data_ (12 + index * 12) ≡ index)
    × (start ≤ offset_in data_ index)
    × (end_in data_ index ≤ length data_)
    × AllInside data_ start left (index + 1)

abbrev sections_in : Bytes → ℕ → ℕ → List Section
sections_in data_ zero index = []
sections_in data_ (suc left) index =
    (offset_in data_ index, size_in data_ index) ∷ sections_in data_ left (index + 1)

pub unpack_words-Ends :
    (data_ : Bytes) (offset : ℕ)
    → offset + 12 ≤ length data_
    → Ends
        (λ x. x ≡ probe_error)
        (λ w. w ≡ (word_at data_ offset, word_at data_ (offset + 4), word_at data_ (offset + 8)))
        (unpack_words data_ offset)
unfolding unpack_words
unpack_words-Ends data_ offset h =
    if_ind
      (Ends (λ x. x ≡ probe_error)
        (λ w. w ≡ (word_at data_ offset, word_at data_ (offset + 4), word_at data_ (offset + 8))))
      (leb (offset + 12) (length data_)) (λ _. returned refl)
      (λ out. absurd (ground (arith, h, out)))

check_section-Ends :
    (start size index : ℕ) (h : ℕ × ℕ × ℕ)
    → Ends
        (λ x. x ≡ probe_error)
        (λ s. (s ≡ (h.1, h.2)) × (h.0 ≡ index) × (start ≤ h.1) × (h.1 + h.2 ≤ size))
        (check_section start size index h)
unfolding check_section
check_section-Ends start size index (kind, offset, n) = reject-Ends _ (not (kind == index)) _ λ own.
    reject-Ends _ (ltb offset start || ltb size (offset + n)) _ λ inside. returned (
      refl,
      (nat_eq.beq_iff kind index).0 (ground (arith, own)),
      ground (arith, inside),
      ground (arith, inside),
    )

read_sections-Ends :
    (data_ : Bytes) (start left index : ℕ)
    → 12 + (index + left) * 12 ≤ length data_
    → Ends
        (λ x. x ≡ probe_error)
        (λ sections. AllInside data_ start left index × (sections ≡ sections_in data_ left index))
        (read_sections data_ start left index)
unfolding read_sections
read_sections-Ends data_ start zero index room = returned (tt, refl)
read_sections-Ends data_ start (suc left) index room =
    Ends-bind (unpack_words-Ends data_ (12 + index * 12) (omega (arith, room))) λ header at.
      Ends-bind
        (subst
          (λ h.
            Ends (λ x. x ≡ probe_error)
              (λ (s : Section).
                (s ≡ (offset_in data_ index, size_in data_ index))
                × (word_at data_ (12 + index * 12) ≡ index)
                × (start ≤ offset_in data_ index)
                × (end_in data_ index ≤ length data_))
              (check_section start (length data_) index h))
          (sym at)
          (check_section-Ends start (length data_) index
            (word_at data_ (12 + index * 12), offset_in data_ index, size_in data_ index)))
        λ section (e, own, low, high).
          Ends-bind (read_sections-Ends data_ start left (index + 1) (omega (arith, room)))
            λ rest (good, e'). returned (
              (own, low, high, good),
              ap (λ z. z ∷ rest) e ∙ ap (λ z. (offset_in data_ index, size_in data_ index) ∷ z) e',
            )

-- The first section is the checksum of one DEX file, and the second that file.
abbrev pub HasDex : Bytes → Type 0
HasDex data_ =
    (offset_in data_ 0 ≡ 60)
    × (size_in data_ 0 ≡ 4)
    × (8 ≤ size_in data_ 1)
    × (slice data_ (offset_in data_ 1) 4 ≡ codes "dex\n")

-- What the bytes of an accepted file are: magic and version, four headers with their sections, the last
-- of which ends the file, and the contents of the first two.
abbrev pub IsVdex : Bytes → Type 0
IsVdex data_ =
    (slice data_ 0 4 ≡ codes "vdex")
    × (slice data_ 4 4 ≡ codes "027" ++ (0 ∷ []))
    × (word_at data_ 8 ≡ 4)
    × AllInside data_ 60 4 0
    × (max (end_in data_ 0) (max (end_in data_ 1) (max (end_in data_ 2) (max (end_in data_ 3) 60)))
        ≡ length data_)
    × HasDex data_

check_contents-Ends :
    (data_ : Bytes) (rest : List Section)
    → Ends
        (λ x. x ≡ probe_error)
        (λ info. (info.dex_file_count ≡ 1) × HasDex data_)
        (check_contents data_ 60
          ((offset_in data_ 0, size_in data_ 0) ∷ (offset_in data_ 1, size_in data_ 1) ∷ rest))
unfolding check_contents
check_contents-Ends data_ rest =
    let a = offset_in data_ 0 in
    let n = size_in data_ 0 in
    let b = offset_in data_ 1 in
    let m = size_in data_ 1 in
    reject-Ends _ (not (a == 60) || not (n == 4)) _ λ first.
      reject-Ends _ (ltb m 8 || not (slice data_ b 4 == codes "dex\n")) _ λ second.
        let en : n ≡ 4 = ground (arith, first) in
        returned (
          ap (λ z. z / 4) en,
          (
            ground (arith, first),
            en,
            ground (arith, second),
            (text_eq.beq_iff (slice data_ b 4) (codes "dex\n")).0 (ground (arith, second)),
          ),
        )

check_layout-Ends :
    (data_ : Bytes)
    → Ends
        (λ x. x ≡ probe_error)
        (λ info.
          (layout_end 60 (sections_in data_ 4 0) ≡ length data_)
          × (info.dex_file_count ≡ 1)
          × HasDex data_)
        (check_layout data_ 60 (sections_in data_ 4 0))
unfolding check_layout
check_layout-Ends data_ =
    reject-Ends _ (not (layout_end 60 (sections_in data_ 4 0) == length data_)) _ λ whole.
      Ends-map (check_contents-Ends data_ (sections_in data_ 2 2))
        (λ info h. (ground (arith, whole), h.0, h.1)) (λ x q. q)

validate_sections-Ends :
    (data_ : Bytes)
    → Ends
        (λ x. x ≡ probe_error)
        (λ info.
          AllInside data_ 60 4 0
          × (layout_end 60 (sections_in data_ 4 0) ≡ length data_)
          × (info.dex_file_count ≡ 1)
          × HasDex data_)
        (validate_sections data_ 4)
unfolding validate_sections
validate_sections-Ends data_ = reject-Ends _ (ltb (length data_) 60) _ λ room.
    Ends-bind (read_sections-Ends data_ 60 4 0 (ground (arith, room))) λ sections (inside, e).
      subst
        (λ z.
          Ends (λ x. x ≡ probe_error)
            (λ (info : VdexInfo).
              AllInside data_ 60 4 0
              × (layout_end 60 (sections_in data_ 4 0) ≡ length data_)
              × (info.dex_file_count ≡ 1)
              × HasDex data_)
            (check_layout data_ 60 z))
        (sym e)
        (Ends-map (check_layout-Ends data_) (λ info (whole, n, dex). (inside, whole, n, dex))
          (λ x q. q))

-- Whatever the bytes are, `validate_vdex` returns or raises Dex2OatProbeError, and unpacks nothing
-- past the end. A file that it accepts has the magic, the version and the headers of four sections,
-- whose kinds are their indices and which lie behind the headers and inside the file; the last of them
-- ends where the file ends, the first is the checksum of one DEX file, the second that file.
pub validate_vdex-IsVdex :
    (data_ : Bytes)
    → Ends
        (λ x. x ≡ probe_error)
        (λ info. (info.dex_file_count ≡ 1) × IsVdex data_)
        (validate_vdex data_)
unfolding validate_vdex layout_end
validate_vdex-IsVdex data_ = reject-Ends _ (ltb (length data_) 12) _ λ _.
    reject-Ends _ (not (slice data_ 0 4 == codes "vdex")) _ λ magic.
      reject-Ends _ (not (slice data_ 4 4 == vdex_version)) _ λ version.
        reject-Ends _ (not (word_at data_ 8 == 4)) _ λ four.
          let e : word_at data_ 8 ≡ 4 = ground (arith, four) in
          subst
            (λ n.
              Ends (λ x. x ≡ probe_error)
                (λ (info : VdexInfo). (info.dex_file_count ≡ 1) × IsVdex data_)
                (validate_sections data_ n))
            (sym e)
            (Ends-map (validate_sections-Ends data_)
              (λ info (inside, whole, n, dex). (
                n,
                (
                  (text_eq.beq_iff (slice data_ 0 4) (codes "vdex")).0 (ground (arith, magic)),
                  (text_eq.beq_iff (slice data_ 4 4) vdex_version).0 (ground (arith, version)),
                  e,
                  inside,
                  whole,
                  dex,
                ),
              ))
              (λ x q. q))
