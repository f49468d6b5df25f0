-- ===== src/Probe/Windows/Tables.antt =====
-- tools/run_dex2oat_no_image.py: the order of the entries of an unwind table that is accepted.
use dalvikvm_multiplatform.Common.{
  sym, ◌∙◌, ap, ℕ, zero, suc, ◌+◌, ◌-◌, ◌*◌, ◌≤◌, ◌<◌, true, false, not, ◌||◌, List, [], ◌∷◌,
  if_ind, ◌==◌, nat_eq, text_eq, ltb, leb, length, probe_error, Ends, returned, Ends-bind, Ends-map,
  ◌≡◌, refl, subst, arith,
}
use dalvikvm_multiplatform.Probe.Bytes.{Bytes, slice, reject-Ends}
use dalvikvm_multiplatform.Probe.Unwind.Bounds.{validate_unwind_info-Ends}
use dalvikvm_multiplatform.Probe.Vdex.Layout.{word_at, unpack_words-Ends}
use dalvikvm_multiplatform.Probe.Elf.{unpack_from, number_at}
use dalvikvm_multiplatform.Probe.Windows.{
  adler32, checksum_payload, Anchors, is_text, Table, Entry, bad_info, check_entry, read_entries,
  unwind_offsets, local_offset, local_end, check_infos, UnwindInfo, is_unwind_header,
  is_unwind_layout, table_of, check_entries, check_unwind_header, check_unwind_payload,
}

-- The begin and the end of the function at an index of the table.
abbrev pub begin_in : Bytes → ℕ → ℕ
begin_in payload index = word_at payload (48 + index * 12)

abbrev pub end_in : Bytes → ℕ → ℕ
end_in payload index = word_at payload (48 + index * 12 + 4)

-- `left` functions of the table, from an index on, stand one behind the other between `first` and
-- `last`, and none is empty.
abbrev pub InOrder : Bytes → ℕ → ℕ → ℕ → ℕ → Type 0
InOrder payload last first zero index = Unit
InOrder payload last first (suc left) index =
    (first ≤ begin_in payload index)
    × (begin_in payload index < end_in payload index)
    × (end_in payload index ≤ last)
    × InOrder payload last (end_in payload index) left (index + 1)

pub unpack_from-Fits :
    (data_ : Bytes) (offset size : ℕ)
    → offset + size ≤ length data_
    → Ends (λ x. x ≡ probe_error) (λ h. h ≡ slice data_ offset size) (unpack_from data_ offset size)
unfolding unpack_from
unpack_from-Fits data_ offset size h =
    if_ind (Ends (λ x. x ≡ probe_error) (λ h. h ≡ slice data_ offset size))
      (leb (offset + size) (length data_)) (λ _. returned refl)
      (λ out. absurd (ground (arith, h, out)))

check_entry-Ends :
    (t : Table) (previous : ℕ) (entry : Entry)
    → Ends
        (λ x. x ≡ probe_error)
        (λ (e : Entry).
          (e.1 ≡ entry.1) × (previous ≤ entry.0) × (entry.0 < entry.1) × (entry.1 ≤ t.code_end))
        (check_entry t previous entry)
unfolding check_entry
check_entry-Ends t previous (b, e, info) =
    reject-Ends _ (ltb b t.code_begin || ltb b previous) _ λ low.
      reject-Ends _ (leb e b || ltb t.code_end e) _ λ high.
        reject-Ends _ (bad_info t info) _
          λ _. returned (refl, ground (arith, low), ground (arith, high), ground (arith, high))

read_entries-Ends :
    (payload : Bytes) (t : Table) (left index previous : ℕ)
    → 48 + (index + left) * 12 ≤ length payload
    → Ends
        (λ x. x ≡ probe_error)
        (λ entries. InOrder payload t.code_end previous left index)
        (read_entries payload t left index previous)
unfolding read_entries
read_entries-Ends payload t zero index previous room = returned tt
read_entries-Ends payload t (suc left) index previous room =
    Ends-bind (unpack_words-Ends payload (48 + index * 12) (omega (arith, room))) λ words at.
      Ends-bind (check_entry-Ends t previous words) λ (b, e, info) (same, low, some_code, high).
        let here : e ≡ end_in payload index = same ∙ ap (λ (w : Entry). w.1) at in
        Ends-bind (read_entries-Ends payload t left (index + 1) e (omega (arith, room)))
          λ rest ordered. returned (
            subst (λ (w : Entry). previous ≤ w.0) at low,
            subst (λ (w : Entry). w.0 < w.1) at some_code,
            subst (λ (w : Entry). w.1 ≤ t.code_end) at high,
            subst (λ z. InOrder payload t.code_end z left (index + 1)) here ordered,
          )

check_infos-Ends :
    (payload : Bytes) (t : Table) (offsets : List ℕ)
    → Ends (λ x. x ≡ probe_error) (λ u. Unit {0}) (check_infos payload t offsets)
unfolding check_infos
check_infos-Ends payload t [] = returned tt
check_infos-Ends payload t (info ∷ rest) =
    Ends-bind
      (validate_unwind_info-Ends
        (slice payload (local_offset t info) (local_end t rest - local_offset t info)))
      λ u _. check_infos-Ends payload t rest

-- The functions of an accepted table, as many as its header says: their code is that of `.text`.
abbrev pub HasFunctions : Anchors → Bytes → UnwindInfo → Type 0
HasFunctions a payload info =
    let header = slice payload 0 48 in
    let code_begin = word_at header 36 in
    (info.entry_count ≡ word_at header 20)
    × (code_begin + a.rodata_address ≡ a.text_address)
    × InOrder payload (code_begin + a.text_size) code_begin (word_at header 20) 0

check_entries-Ends :
    (payload : Bytes) (t : Table) (n : ℕ)
    → 48 + n * 12 ≤ length payload
    → Ends
        (λ x. x ≡ probe_error)
        (λ info. (info.entry_count ≡ n) × InOrder payload t.code_end t.code_begin n 0)
        (check_entries payload t n)
unfolding check_entries
check_entries-Ends payload t n room =
    Ends-bind (read_entries-Ends payload t n 0 t.code_begin (omega (arith, room)))
      λ entries ordered.
        Ends-bind (check_infos-Ends payload t (unwind_offsets entries))
          λ u _. returned (refl, ordered)

layout-Room :
    (h : Bytes) (size : ℕ) → is_unwind_layout h size ≡ true → 48 + number_at h 20 4 * 12 ≤ size
unfolding is_unwind_layout
layout-Room h size e = ground (arith, e)

pub text-Same :
    (a : Anchors) (code_begin code_end : ℕ)
    → not (is_text a code_begin code_end) ≡ false
    → (code_begin + a.rodata_address ≡ a.text_address) × (code_end ≡ code_begin + a.text_size)
unfolding is_text
text-Same a code_begin code_end e = (ground (arith, e), ground (arith, e))

unwind_header-Ends :
    (a : Anchors) (payload h : Bytes)
    → Ends
        (λ x. x ≡ probe_error)
        (λ info.
          (info.entry_count ≡ number_at h 20 4)
          × (number_at h 36 4 + a.rodata_address ≡ a.text_address)
          × InOrder payload
              (number_at h 36 4 + a.text_size)
              (number_at h 36 4)
              (number_at h 20 4)
              0)
        (check_unwind_header a payload h)
unfolding check_unwind_header table_of
unwind_header-Ends a payload h =
    reject-Ends _ (not (is_unwind_header h) || not (is_unwind_layout h (length payload))) _
      λ shaped.
        reject-Ends _ (not (number_at h 44 4 == adler32 (checksum_payload 44 payload))) _ λ _.
          reject-Ends _ (not (is_text a (number_at h 36 4) (number_at h 40 4))) _ λ located.
            let (low, high) = text-Same a (number_at h 36 4) (number_at h 40 4) located in
            Ends-map
              (check_entries-Ends payload (table_of a h (length payload)) (number_at h 20 4)
                (layout-Room h (length payload) (ground (arith, shaped))))
              (λ info (count, ordered). (
                count,
                low,
                subst (λ e. InOrder payload e (number_at h 36 4) (number_at h 20 4) 0) high ordered,
              ))
              (λ x q. q)

-- Of a payload with room for its header, the check of the unwind table returns or raises
-- Dex2OatProbeError, and unpacks nothing past the end. If it returns, the count is that of the header,
-- and so many functions of the table stand one behind the other in the code of `.text`, none of them
-- empty and no two of them overlapping.
pub check_unwind_payload-InOrder :
    (a : Anchors) (payload : Bytes)
    → 48 ≤ length payload
    → Ends (λ x. x ≡ probe_error) (HasFunctions a payload) (check_unwind_payload a payload)
unfolding check_unwind_payload number_at
check_unwind_payload-InOrder a payload room = Ends-bind (unpack_from-Fits payload 0 48 room) λ h at.
    subst
      (λ z. Ends (λ x. x ≡ probe_error) (HasFunctions a payload) (check_unwind_header a payload z))
      (sym at) (unwind_header-Ends a payload (slice payload 0 48))
