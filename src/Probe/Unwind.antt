-- ===== src/Probe/Unwind.antt =====
-- tools/run_dex2oat_no_image.py: `_validate_windows_x64_unwind_info`.
pub mod Bounds
use Prim.Native.Nat.{◌/◌, ◌%◌}
use dalvikvm_multiplatform.Common.{
  ℕ, zero, suc, ◌+◌, ◌-◌, ◌*◌, Bool, true, false, not, ◌&&◌, ◌||◌, Option, none, some, List, [],
  ◌∷◌, if◌then◌else◌, ◌==◌, nat_eq, ltb, leb, contains, length, Error, Result, ok, err, ◌>>=◌, ◌>>◌,
  recursion_error,
}
use dalvikvm_multiplatform.Overlay.{drop_chars}
use dalvikvm_multiplatform.Probe.Bytes.{Bytes, byte_at, slice, reject}

abbrev pub nonvolatile_gprs : List ℕ
nonvolatile_gprs = 3 ∷ 5 ∷ 6 ∷ 7 ∷ 12 ∷ 13 ∷ 14 ∷ 15 ∷ []

abbrev pub nonvolatile_xmms : List ℕ
nonvolatile_xmms = 6 ∷ 7 ∷ 8 ∷ 9 ∷ 10 ∷ 11 ∷ 12 ∷ 13 ∷ 14 ∷ 15 ∷ []

unfoldable pub when : Bool → ℕ → Option ℕ
when true slots = some slots
when false slots = none

-- `used_slots` of an operation, or none where one is refused.
unfoldable pub used_slots : ℕ → ℕ → Option ℕ
used_slots operation info =
    if operation == 0
    then when (contains info nonvolatile_gprs) 1
    else if operation == 1
    then when (leb info 1) (if info == 0 then 2 else 3)
    else if operation == 2
    then some 1
    else if operation == 3
    then when (info == 0) 1
    else if operation == 4 || operation == 5
    then when (contains info nonvolatile_gprs) (if operation == 4 then 2 else 3)
    else if operation == 8 || operation == 9
    then when (contains info nonvolatile_xmms) (if operation == 8 then 2 else 3)
    else if operation == 10
    then when (leb info 1) 1
    else none

-- What a round does with the slots that the operation uses; `go` are the rounds left.
unfoldable pub next_slot : (ℕ → Result ℕ) → ℕ → ℕ → Option ℕ → Result ℕ
next_slot go slot_count slot none = reject
next_slot go slot_count slot (some used) =
    if ltb (slot_count - slot) used then reject else go (slot + used)

-- The loop over the slots, with a unit of fuel for each: `set_frame_pointer_count` at its end.
unfoldable pub read_slots : ℕ → Bytes → ℕ → ℕ → ℕ → ℕ → ℕ → Result ℕ
read_slots zero data_ prologue_size slot_count slot previous count =
    if ltb slot slot_count then err recursion_error else ok count
read_slots (suc f) data_ prologue_size slot_count slot previous count = elim (ltb slot slot_count) [
  | false ↦ ok count
  | true ↦ do
    code_offset ← byte_at data_ (4 + slot * 2)
    operation_and_info ← byte_at data_ (5 + slot * 2)
    (if code_offset == 0 || (ltb prologue_size code_offset || leb previous code_offset)
        then reject
        else next_slot
            (λ next.
              read_slots f data_ prologue_size slot_count next code_offset
                (if operation_and_info % 16 == 3 then suc count else count))
            slot_count slot (used_slots (operation_and_info % 16) (operation_and_info / 16)))
]

-- `any(data)`
unfoldable pub any_byte : Bytes → Bool
any_byte [] = false
any_byte (b ∷ bs) = not (b == 0) || any_byte bs

unfoldable pub is_padding : Bytes → Bool
is_padding (a ∷ b ∷ []) = (a == 0) && (b == 0)
is_padding _ = false

-- `4 + padded_slot_count * 2`
unfoldable pub descriptor_size : ℕ → ℕ
descriptor_size slot_count = 4 + ((slot_count + 1) - (slot_count + 1) % 2) * 2

-- The frame register is refused.
unfoldable pub bad_frame : ℕ → ℕ → ℕ → Bool
bad_frame frame_register frame_offset count =
    if frame_register == 0
    then not (frame_offset == 0) || not (count == 0)
    else not (contains frame_register nonvolatile_gprs) || not (count == 1)

-- The checks behind the loop.
unfoldable pub check_rest : Bytes → ℕ → ℕ → ℕ → Result (Unit {0})
check_rest data_ slot_count frame count =
    if (slot_count % 2 == 1) && not (is_padding (slice data_ (4 + slot_count * 2) 2))
    then reject
    else if bad_frame (frame % 16) (frame / 16) count
    then reject
    else if any_byte (drop_chars (descriptor_size slot_count) data_)
    then reject
    else ok tt

unfoldable pub validate_descriptor : Bytes → ℕ → ℕ → ℕ → Result (Unit {0})
validate_descriptor data_ prologue_size slot_count frame =
    if ltb (length data_) (descriptor_size slot_count) then reject else (do
      count ← read_slots slot_count data_ prologue_size slot_count 0 256 0
      check_rest data_ slot_count frame count)

-- `_validate_windows_x64_unwind_info`
unfoldable pub validate_unwind_info : Bytes → Result (Unit {0})
validate_unwind_info (version ∷ prologue_size ∷ slot_count ∷ frame ∷ rest) =
    if not (version == 1)
    then reject
    else validate_descriptor (version ∷ prologue_size ∷ slot_count ∷ frame ∷ rest) prologue_size
        slot_count frame
validate_unwind_info _ = reject
