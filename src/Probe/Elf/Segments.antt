-- ===== src/Probe/Elf/Segments.antt =====
-- tools/run_dex2oat_no_image.py: what the segments of an accepted OAT file are.
use Prim.Native.Nat.{◌%◌, ◌/◌}
use dalvikvm_multiplatform.Common.{
  ℕ, zero, suc, ◌+◌, ◌*◌, ◌≤◌, Bool, true, false, not, ◌&&◌, ◌||◌, Option, none, some, List, [],
  ◌∷◌, if◌then◌else◌, if_ind, ◌==◌, nat_eq, text_eq, ltb, leb, length, codes, Assoc, find, Error,
  Result, probe_error, value_error, Ends, returned, raised, Ends-bind, Ends-map, ◌≡◌, refl, sym,
  subst, ap, ◌⊎◌, inl, inr, arith,
}
use dalvikvm_multiplatform.Overlay.{drop_chars}
use dalvikvm_multiplatform.Probe.Bytes.{Bytes, slice, little, reject}
use dalvikvm_multiplatform.Probe.Elf.{
  unpack_from, number_at, segment_of, Counts, check_segment, read_segments, name_in, is_ascii,
  add_section, named_section, check_header, raw_sections, name_sections, header_at, with_names,
  read_elf_sections, OatInfo, oat_version, has_all, check_rodata, check_sections, check_counts,
  validate_header, validate_oat_elf,
}

-- Dex2OatProbeError, or the ValueError of a section name that is not ASCII.
abbrev pub IsRefusal : Error → Type 0
IsRefusal x = (x ≡ probe_error) ⊎ (x ≡ value_error)

pub guard-Ends :
    {A : Type 0} (P : A → Type 0) (b : Bool) (r : Result A)
    → (b ≡ false → Ends IsRefusal P r)
    → Ends IsRefusal P (if b then reject else r)
unfolding reject
guard-Ends P true r h = raised (inl refl)
guard-Ends P false r h = h refl

pub reject-Refusal : {A : Type 0} (P : A → Type 0) → Ends IsRefusal P reject
unfolding reject
reject-Refusal P = raised (inl refl)

pub unpack_from-Ends :
    (data_ : Bytes) (offset size : ℕ)
    → offset + size ≤ length data_
    → Ends IsRefusal (λ h. h ≡ slice data_ offset size) (unpack_from data_ offset size)
unfolding unpack_from
unpack_from-Ends data_ offset size h =
    if_ind (Ends IsRefusal (λ h. h ≡ slice data_ offset size)) (leb (offset + size) (length data_))
      (λ _. returned refl) (λ out. absurd (ground (arith, h, out)))

-- The header of the segment at an index, by the offset of the first, and that it is loaded.
abbrev pub segment_at : Bytes → ℕ → ℕ → Bytes
segment_at data_ first index = slice data_ (first + index * 56) 56

abbrev is_load : Bytes → Bool
is_load h = little (slice h 0 4) == 1

-- By its header, of the format `<IIQQQQQQ`, a segment lies in a file of some size, and a loaded one has
-- the alignment that is expected, a place in memory that agrees with the one in the file, and is not
-- both writable and executable.
abbrev pub IsSafe : ℕ → ℕ → Bytes → Type 0
IsSafe size expected h =
    (little (slice h 32 8) ≤ little (slice h 40 8))
    × (little (slice h 8 8) + little (slice h 32 8) ≤ size)
    × (little (slice h 0 4) ≡ 1
        → (little (slice h 48 8) ≡ expected)
          × (little (slice h 8 8) % expected ≡ little (slice h 16 8) % expected)
          × (((little (slice h 4 4) / 2 % 2 == 1) && (little (slice h 4 4) % 2 == 1)) ≡ false))

-- `left` segments of the file, from an index on, are safe.
abbrev pub AllSafe : Bytes → ℕ → ℕ → ℕ → ℕ → Type 0
AllSafe data_ first expected zero index = Unit
AllSafe data_ first expected (suc left) index =
    IsSafe (length data_) expected (segment_at data_ first index)
    × AllSafe data_ first expected left (index + 1)

-- How many of them are loaded.
abbrev pub loads_in : Bytes → ℕ → ℕ → ℕ → ℕ
loads_in data_ first zero index = zero
loads_in data_ first (suc left) index =
    (if is_load (segment_at data_ first index) then 1 else 0)
    + loads_in data_ first left (index + 1)

check_segment-Ends :
    (size expected : ℕ) (h : Bytes) (loads dynamics : ℕ)
    → 1 ≤ expected
    → Ends IsRefusal
        (λ counts. IsSafe size expected h × (counts.0 ≡ loads + (if is_load h then 1 else 0)))
        (check_segment size expected (segment_of h) (loads, dynamics))
unfolding check_segment segment_of number_at
check_segment-Ends size expected h loads dynamics some_alignment =
    let kind = little (slice h 0 4) in
    let flags = little (slice h 4 4) in
    let offset = little (slice h 8 8) in
    let address = little (slice h 16 8) in
    let n = little (slice h 32 8) in
    let alignment = little (slice h 48 8) in
    guard-Ends _ (ltb (little (slice h 40 8)) n || ltb size (offset + n)) _ λ fits.
      let small : n ≤ little (slice h 40 8) = ground (arith, fits) in
      let inside : offset + n ≤ size = ground (arith, fits) in
      if_ind
        (Ends IsRefusal (λ (counts : Counts).
          IsSafe size expected h × (counts.0 ≡ loads + (if is_load h then 1 else 0))))
        (kind == 1)
        (λ load. guard-Ends _ (not (alignment == expected)) _ λ aligned.
          let same_alignment = (nat_eq.beq_iff alignment expected).0 (ground (arith, aligned)) in
          if_ind
            (Ends IsRefusal (λ (counts : Counts).
              IsSafe size expected h × (counts.0 ≡ loads + (if is_load h then 1 else 0))))
            (alignment == 0) (λ nil. absurd (ground (arith, nil, same_alignment, some_alignment)))
            λ _. guard-Ends _ (not (offset % alignment == address % alignment)) _ λ same.
              guard-Ends _ ((flags / 2 % 2 == 1) && (flags % 2 == 1)) _ λ plain. returned (
                (
                  small,
                  inside,
                  λ _. (
                    same_alignment,
                    subst (λ z. offset % z ≡ address % z) same_alignment
                        ((nat_eq.beq_iff (offset % alignment) (address % alignment)).0
                          (ground (arith, same))),
                    plain,
                  ),
                ),
                rw load (omega arith),
              ))
        (λ other.
          returned
            ((small, inside, λ load. absurd (ground (arith, other, load))), rw other (omega arith)))

pub read_segments-Ends :
    (data_ : Bytes) (offset expected left index loads dynamics : ℕ)
    → 1 ≤ expected
    → offset + (index + left) * 56 ≤ length data_
    → Ends IsRefusal
        (λ out.
          AllSafe data_ offset expected left index
          × (out.1.0 ≡ loads + loads_in data_ offset left index))
        (read_segments data_ offset expected left index (loads, dynamics))
unfolding read_segments
read_segments-Ends data_ offset expected zero index loads dynamics some_alignment room =
    returned (tt, omega arith)
read_segments-Ends data_ offset expected (suc left) index loads dynamics some_alignment room =
    Ends-bind (unpack_from-Ends data_ (offset + index * 56) 56 (omega (arith, room))) λ header at.
      Ends-bind (check_segment-Ends (length data_) expected header loads dynamics some_alignment)
        λ (loads₁, dynamics₁) (safe, e).
          Ends-bind
            (read_segments-Ends data_ offset expected left (index + 1) loads₁ dynamics₁
              some_alignment (omega (arith, room)))
            λ (segments, counts) (all, e').
              let here = segment_at data_ offset index in
              let more : loads₁ ≡ loads + (if is_load here then 1 else 0) =
                subst (λ h. loads₁ ≡ loads + (if is_load h then 1 else 0)) at e in
              returned
                ((subst (IsSafe (length data_) expected) at safe, all), omega (arith, more, e'))

-- `left` headers of sections from an index on are those of the file, by the offset of the first.
abbrev pub AreHeaders : Bytes → ℕ → ℕ → List Bytes → Type 0
AreHeaders data_ first index [] = Unit
AreHeaders data_ first index (h ∷ headers) =
    (h ≡ slice data_ (first + index * 64) 64) × AreHeaders data_ first (index + 1) headers

pub raw_sections-Ends :
    (data_ : Bytes) (offset left index : ℕ)
    → offset + (index + left) * 64 ≤ length data_
    → Ends IsRefusal
        (λ headers. AreHeaders data_ offset index headers × (length headers ≡ left))
        (raw_sections data_ offset left index)
unfolding raw_sections
raw_sections-Ends data_ offset zero index room = returned (tt, refl)
raw_sections-Ends data_ offset (suc left) index room =
    Ends-bind (unpack_from-Ends data_ (offset + index * 64) 64 (omega (arith, room))) λ header at.
      Ends-bind (raw_sections-Ends data_ offset left (index + 1) (omega (arith, room)))
        λ rest (later, n). returned ((at, later), ap suc n)

add_section-Ends :
    (result : Assoc (ℕ × ℕ)) (name : Bytes) (range : ℕ × ℕ) (old : Option (ℕ × ℕ))
    → Ends IsRefusal (λ r. Unit {0}) (add_section result name range old)
unfolding add_section
add_section-Ends result name range (some old) = reject-Refusal (λ r. Unit {0})
add_section-Ends result name range none = returned tt

named_section-Ends :
    (result : Assoc (ℕ × ℕ)) (range : ℕ × ℕ) (name : Option Bytes)
    → Ends IsRefusal (λ r. Unit {0}) (named_section result range name)
unfolding named_section
named_section-Ends result range none = reject-Refusal (λ r. Unit {0})
named_section-Ends result range (some name) =
    if_ind (Ends IsRefusal (λ r. Unit {0})) (is_ascii name)
      (λ _. add_section-Ends result name range (find name result)) (λ _. raised (inr refl))

name_sections-Ends :
    (size : ℕ) (names : Bytes) (headers : List Bytes) (result : Assoc (ℕ × ℕ))
    → Ends IsRefusal (λ r. Unit {0}) (name_sections size names headers result)
unfolding name_sections check_header
name_sections-Ends size names [] result = returned tt
name_sections-Ends size names (h ∷ headers) result =
    Ends-bind
      (guard-Ends (λ r. Unit {0})
        (leb (length names) (number_at h 0 4)
          || not (number_at h 4 4 == 8) && ltb size (number_at h 24 8 + number_at h 32 8))
        _ (λ _. named_section-Ends result _ (name_in (drop_chars (number_at h 0 4) names))))
      λ result₁ _. name_sections-Ends size names headers result₁

with_names-Ends :
    (data_ : Bytes) (headers : List Bytes) (h : Bytes)
    → Ends IsRefusal (λ r. Unit {0}) (with_names data_ headers h)
unfolding with_names
with_names-Ends data_ headers h =
    guard-Ends _ (ltb (length data_) (number_at h 24 8 + number_at h 32 8)) _
      λ _. name_sections-Ends (length data_) _ headers []

read_elf_sections-Ends :
    (data_ : Bytes) (offset entry_size n names : ℕ)
    → Ends IsRefusal (λ r. Unit {0}) (read_elf_sections data_ offset entry_size n names)
unfolding read_elf_sections
read_elf_sections-Ends data_ offset entry_size n names =
    guard-Ends _ (not (entry_size == 64) || not (leb 1 n && leb n 256)) _ λ sized.
      guard-Ends _ (leb n names) _ λ _.
        guard-Ends _ (ltb (length data_) (offset + n * entry_size)) _ λ fits.
          Ends-bind
            (raw_sections-Ends data_ offset n 0 (let r = room sized fits in omega (arith, r)))
            λ headers _. with_names-Ends data_ headers (header_at headers names)
  where
    sixty_four : (not (entry_size == 64) || not (leb 1 n && leb n 256)) ≡ false → entry_size ≡ 64
    sixty_four h = ground (arith, h)

    room :
        (not (entry_size == 64) || not (leb 1 n && leb n 256)) ≡ false
        → ltb (length data_) (offset + n * entry_size) ≡ false
        → offset + n * 64 ≤ length data_
    room sized fits =
        let inside : offset + n * entry_size ≤ length data_ = ground (arith, fits) in
        subst (λ k. offset + n * k ≤ length data_) (sixty_four sized) inside

check_rodata-Ends :
    (data_ : Bytes) (info : OatInfo) (range : Option (ℕ × ℕ))
    → Ends IsRefusal (λ out. out ≡ info) (check_rodata data_ info range)
unfolding check_rodata
check_rodata-Ends data_ info none = reject-Refusal (λ out. out ≡ info)
check_rodata-Ends data_ info (some (offset, size)) =
    guard-Ends _ (ltb size 8 || not (slice data_ offset 4 == codes "oat\n")) _
      λ _. guard-Ends _ (not (slice data_ (offset + 4) 4 == oat_version)) _ λ _. returned refl

check_sections-Ends :
    (data_ : Bytes) (info : OatInfo) (sections : Assoc (ℕ × ℕ))
    → Ends IsRefusal (λ out. out ≡ info) (check_sections data_ info sections)
unfolding check_sections
check_sections-Ends data_ info sections =
    guard-Ends _ (not (has_all _ sections)) _
      λ _. check_rodata-Ends data_ info (find (codes ".rodata") sections)

check_counts-Ends :
    (data_ header : Bytes) (expected loads dynamics : ℕ)
    → Ends IsRefusal
        (λ info. (info.load_segment_count ≡ loads) × (1 ≤ loads))
        (check_counts data_ header expected (loads, dynamics))
unfolding check_counts
check_counts-Ends data_ header expected loads dynamics =
    guard-Ends _ (loads == 0 || not (dynamics == 1)) _ λ some_load.
      Ends-bind (read_elf_sections-Ends data_ _ _ _ _) λ sections _.
        Ends-map (check_sections-Ends data_ _ sections)
          (λ info e. (ap (λ (i : OatInfo). i.load_segment_count) e, ground (arith, some_load)))
          (λ x q. q)

-- The segments that the ELF header of an accepted file names, by the number and the offset in it.
abbrev pub HasSegments : Bytes → ℕ → OatInfo → Type 0
HasSegments data_ expected info =
    let header = slice data_ 0 64 in
    let count = little (slice header 56 2) in
    let first = little (slice header 32 8) in
    AllSafe data_ first expected count 0
    × (info.load_segment_count ≡ loads_in data_ first count 0)
    × (1 ≤ info.load_segment_count)

validate_header-Ends :
    (data_ : Bytes) (expected : ℕ) (h : Bytes)
    → 1 ≤ expected
    → Ends IsRefusal
        (λ info.
          AllSafe data_ (number_at h 32 8) expected (number_at h 56 2) 0
          × (info.load_segment_count ≡ loads_in data_ (number_at h 32 8) (number_at h 56 2) 0)
          × (1 ≤ info.load_segment_count))
        (validate_header data_ expected h)
unfolding validate_header
validate_header-Ends data_ expected h some_alignment =
    guard-Ends _ (not (slice h 0 4 == 127 ∷ codes "ELF") || not (slice h 4 3 == 2 ∷ 1 ∷ 1 ∷ [])) _
      λ _. guard-Ends _ (not (slice h 7 2 == 3 ∷ 0 ∷ [])) _ λ _. guard-Ends _ _ _ λ _.
        guard-Ends _ (not (number_at h 52 2 == 64) || not (number_at h 54 2 == 56)) _ λ _.
          guard-Ends _ (not (leb 1 (number_at h 56 2) && leb (number_at h 56 2) 64)) _ λ _.
            guard-Ends _ (ltb (length data_) (number_at h 32 8 + number_at h 56 2 * 56)) _ λ fits.
              Ends-bind
                (read_segments-Ends data_ (number_at h 32 8) expected (number_at h 56 2) 0 0 0
                  some_alignment (ground (arith, fits)))
                λ (segments, (loads, dynamics)) (safe, e).
                  Ends-map (check_counts-Ends data_ h expected loads dynamics)
                    (λ info (e', n). (safe, omega (arith, e, e'), subst (λ k. 1 ≤ k) (sym e') n))
                    (λ x q. q)

-- For any bytes, and any alignment but 0, `validate_oat_elf` returns or raises Dex2OatProbeError or the
-- ValueError of a section name that is not ASCII, and unpacks nothing past the end. In a file that it
-- accepts every segment that the ELF header names lies in the file, each that is loaded has the
-- alignment that is expected, is congruent to it in memory and is not both writable and executable, and
-- the count that is returned is that of the loaded ones and is not 0.
pub validate_oat_elf-Segments :
    (data_ : Bytes) (expected : ℕ)
    → 1 ≤ expected
    → Ends IsRefusal (HasSegments data_ expected) (validate_oat_elf data_ expected)
unfolding validate_oat_elf number_at
validate_oat_elf-Segments data_ expected some_alignment =
    guard-Ends _ (ltb (length data_) 64) _ λ room.
      Ends-bind (unpack_from-Ends data_ 0 64 (ground (arith, room))) λ header at.
        subst (λ z. Ends IsRefusal (HasSegments data_ expected) (validate_header data_ expected z))
          (sym at) (validate_header-Ends data_ expected (slice data_ 0 64) some_alignment)
