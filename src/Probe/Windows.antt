-- ===== src/Probe/Windows.antt =====
-- tools/run_dex2oat_no_image.py: the payloads of `.oat_unwind.windows` and `.oat_cfg.windows`, which
-- `validate_windows_oat_unwind` and `validate_windows_oat_cfg` check. Where Python subtracts addresses,
-- which may give a number below 0, the sums are compared.
pub mod Tables
pub mod Targets
use Prim.Native.Nat.{◌%◌, ◌/◌}
use dalvikvm_multiplatform.Common.{
  ℕ, zero, suc, ◌+◌, ◌-◌, ◌*◌, Bool, true, false, not, ◌&&◌, ◌||◌, Option, none, some, List, [],
  ◌∷◌, ◌++◌, if◌then◌else◌, ◌==◌, nat_eq, text_eq, ltb, leb, length, Text, codes, Result, ok, ◌>>=◌,
  ◌>>◌,
}
use dalvikvm_multiplatform.Overlay.{drop_chars}
use dalvikvm_multiplatform.Probe.Bytes.{Bytes, take, slice, unpack_words, reject}
use dalvikvm_multiplatform.Probe.Unwind.{validate_unwind_info}
use dalvikvm_multiplatform.Probe.Elf.{unpack_from, number_at}

-- `zlib.adler32`
unfoldable pub adler_from : ℕ → ℕ → Bytes → ℕ
adler_from a b [] = b * 65536 + a
adler_from a b (x ∷ xs) = adler_from ((a + x) % 65521) ((b + (a + x)) % 65521) xs

unfoldable pub adler32 : Bytes → ℕ
adler32 data_ = adler_from 1 0 data_

-- `checksum_payload`: four bytes from `place` on are cleared.
unfoldable pub checksum_payload : ℕ → Bytes → Bytes
checksum_payload place payload =
    take place payload ++ (0 ∷ 0 ∷ 0 ∷ 0 ∷ drop_chars (place + 4) payload)

-- Addresses and sizes of the sections around the payload.
pub record Anchors : Type 0 where
  pub rodata_address : ℕ
  pub text_address : ℕ
  pub text_size : ℕ
  pub section_address : ℕ

-- The code bounds of the payload are those of `.text`.
unfoldable pub is_text : Anchors → ℕ → ℕ → Bool
is_text a code_begin code_end =
    (code_begin + a.rodata_address == a.text_address) && (code_end == code_begin + a.text_size)

-- What an entry is compared with.
pub record Table : Type 0 where
  pub anchors : Anchors
  pub code_begin : ℕ
  pub code_end : ℕ
  pub unwind_offset : ℕ
  pub payload_size : ℕ

-- The begin, the end and the place of the unwind information of a function.
abbrev pub Entry : Type 0
Entry = ℕ × ℕ × ℕ

-- `unwind_info_offset` is refused.
unfoldable pub bad_info : Table → ℕ → Bool
bad_info t info =
    not (info % 4 == 0)
    || (ltb (info + t.anchors.rodata_address) (t.anchors.section_address + t.unwind_offset)
        || leb (t.anchors.section_address + t.payload_size) (info + t.anchors.rodata_address))

unfoldable pub check_entry : Table → ℕ → Entry → Result Entry
check_entry t previous_end (begin_offset, end_offset, info) =
    if ltb begin_offset t.code_begin || ltb begin_offset previous_end
    then reject
    else if leb end_offset begin_offset || ltb t.code_end end_offset
    then reject
    else if bad_info t info
    then reject
    else ok (begin_offset, end_offset, info)

-- The loop over the entries: `left` of them, from `index` on.
unfoldable pub read_entries : Bytes → Table → ℕ → ℕ → ℕ → Result (List Entry)
read_entries payload t zero index previous_end = ok []
read_entries payload t (suc left) index previous_end = do
  words ← unpack_words payload (48 + index * 12)
  entry ← check_entry t previous_end words
  rest ← read_entries payload t left (index + 1) entry.1
  ok (entry ∷ rest)

-- `sorted(unique_unwind_offsets)`
unfoldable pub insert_offset : ℕ → List ℕ → List ℕ
insert_offset n [] = n ∷ []
insert_offset n (m ∷ ms) =
    let rest = insert_offset n ms in
    if n == m then m ∷ ms else if ltb n m then n ∷ m ∷ ms else m ∷ rest

unfoldable pub unwind_offsets : List Entry → List ℕ
unwind_offsets [] = []
unwind_offsets ((begin_offset, end_offset, info) ∷ entries) =
    insert_offset info (unwind_offsets entries)

-- `local_offset`, which is not below 0 for an entry that passed.
unfoldable pub local_offset : Table → ℕ → ℕ
local_offset t info = (info + t.anchors.rodata_address) - t.anchors.section_address

unfoldable pub local_end : Table → List ℕ → ℕ
local_end t [] = t.payload_size
local_end t (info ∷ rest) = local_offset t info

-- The loop over the unwind information.
unfoldable pub check_infos : Bytes → Table → List ℕ → Result (Unit {0})
check_infos payload t [] = ok tt
check_infos payload t (info ∷ rest) =
    validate_unwind_info
      (slice payload (local_offset t info) (local_end t rest - local_offset t info))
    >> check_infos payload t rest

pub record UnwindInfo : Type 0 where
  pub entry_count : ℕ
  pub unique_unwind_info_count : ℕ

-- The header `<4s11I` of `.oat_unwind.windows` has the fields that the format fixes.
unfoldable pub is_unwind_header : Bytes → Bool
is_unwind_header h =
    (slice h 0 4 == codes "ouw\n")
    && ((number_at h 4 4 == 1)
        && ((number_at h 8 4 == 48) && ((number_at h 12 4 == 34404) && (number_at h 16 4 == 12))))

-- The entries and the unwind information fill the payload.
unfoldable pub is_unwind_layout : Bytes → ℕ → Bool
is_unwind_layout h size =
    (leb 7 (number_at h 20 4) && (number_at h 24 4 == 48))
    && (((51 + number_at h 20 4 * 12) - (51 + number_at h 20 4 * 12) % 4 == number_at h 28 4)
        && ((number_at h 28 4 % 4 == 0) && (number_at h 28 4 + number_at h 32 4 == size)))

unfoldable pub table_of : Anchors → Bytes → ℕ → Table
table_of a h size = record {
  anchors = a;
  code_begin = number_at h 36 4;
  code_end = number_at h 40 4;
  unwind_offset = number_at h 28 4;
  payload_size = size;
}

unfoldable pub check_entries : Bytes → Table → ℕ → Result UnwindInfo
check_entries payload t entry_count = do
  entries ← read_entries payload t entry_count 0 t.code_begin
  check_infos payload t (unwind_offsets entries)
  ok (record {
    entry_count = entry_count;
    unique_unwind_info_count = length (unwind_offsets entries);
  })

-- `validate_windows_oat_unwind` behind the header of the payload, up to the symbols.
unfoldable pub check_unwind_header : Anchors → Bytes → Bytes → Result UnwindInfo
check_unwind_header a payload h =
    if not (is_unwind_header h) || not (is_unwind_layout h (length payload))
    then reject
    else if not (number_at h 44 4 == adler32 (checksum_payload 44 payload))
    then reject
    else if not (is_text a (number_at h 36 4) (number_at h 40 4))
    then reject
    else check_entries payload (table_of a h (length payload)) (number_at h 20 4)

-- `validate_windows_oat_unwind` from the payload to the symbols.
unfoldable pub check_unwind_payload : Anchors → Bytes → Result UnwindInfo
check_unwind_payload a payload = unpack_from payload 0 48 >>= λ h. check_unwind_header a payload h

-- `bool(kind_flags & bit)`
unfoldable pub has_role : ℕ → ℕ → Bool
has_role bit kind_flags = kind_flags / bit % 2 == 1

-- The place in the code and the flags of a target.
abbrev pub Target : Type 0
Target = ℕ × ℕ

unfoldable pub not_above : Option ℕ → ℕ → Bool
not_above none code_offset = false
not_above (some previous) code_offset = leb code_offset previous

unfoldable pub check_target : Anchors → ℕ → ℕ → Option ℕ → Target → Result Target
check_target a code_begin code_end previous (code_offset, kind_flags) =
    if ltb code_offset code_begin || leb code_end code_offset
    then reject
    else if not ((a.rodata_address + code_offset) % 16 == 0) || not_above previous code_offset
    then reject
    else if kind_flags == 0 || leb 16 kind_flags
    then reject
    else ok (code_offset, kind_flags)

-- The loop over the targets: `left` of them, from `index` on.
unfoldable pub read_targets : Anchors → Bytes → ℕ → ℕ → ℕ → ℕ → Option ℕ → Result (List Target)
read_targets a payload code_begin code_end zero index previous = ok []
read_targets a payload code_begin code_end (suc left) index previous = do
  h ← unpack_from payload (48 + index * 8) 8
  target ← check_target a code_begin code_end previous (number_at h 0 4, number_at h 4 4)
  rest ← read_targets a payload code_begin code_end left (index + 1) (some target.0)
  ok (target ∷ rest)

-- `role_counts` of a role
unfoldable pub role_count : ℕ → List Target → ℕ
role_count bit [] = zero
role_count bit ((code_offset, kind_flags) ∷ targets) =
    (if has_role bit kind_flags then 1 else 0) + role_count bit targets

pub record CfgInfo : Type 0 where
  pub target_count : ℕ
  pub quick_candidate_count : ℕ
  pub jni_candidate_count : ℕ
  pub trampoline_candidate_count : ℕ
  pub thunk_candidate_count : ℕ

-- The header `<4s11I` of `.oat_cfg.windows`.
unfoldable pub is_cfg_header : Bytes → Bool
is_cfg_header h =
    (slice h 0 4 == codes "ocfg")
    && ((number_at h 4 4 == 1)
        && ((number_at h 8 4 == 48)
            && ((number_at h 12 4 == 34404)
                && ((number_at h 16 4 == 1)
                    && ((number_at h 20 4 == 8) && (number_at h 44 4 == 0))))))

unfoldable pub is_cfg_layout : Bytes → ℕ → Bool
is_cfg_layout h size =
    not (number_at h 24 4 == 0) && ((number_at h 28 4 == 48) && (48 + number_at h 24 4 * 8 == size))

unfoldable pub count_roles : List Target → Result CfgInfo
count_roles targets =
    if not (role_count 4 targets == 7)
    then reject
    else ok (record {
      target_count = length targets;
      quick_candidate_count = role_count 1 targets;
      jni_candidate_count = role_count 2 targets;
      trampoline_candidate_count = role_count 4 targets;
      thunk_candidate_count = role_count 8 targets;
    })

-- `validate_windows_oat_cfg` behind the header of the payload, up to the symbols.
unfoldable pub check_cfg_header : Anchors → Bytes → Bytes → Result CfgInfo
check_cfg_header a payload h =
    if not (is_cfg_header h) || not (is_cfg_layout h (length payload))
    then reject
    else if not (number_at h 40 4 == adler32 (checksum_payload 40 payload))
    then reject
    else if not (is_text a (number_at h 32 4) (number_at h 36 4))
    then reject
    else read_targets a payload (number_at h 32 4) (number_at h 36 4) (number_at h 24 4) 0 none
      >>= λ targets. count_roles targets

-- `validate_windows_oat_cfg` from the payload to the symbols.
unfoldable pub check_cfg_payload : Anchors → Bytes → Result CfgInfo
check_cfg_payload a payload = unpack_from payload 0 48 >>= λ h. check_cfg_header a payload h
