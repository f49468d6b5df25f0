-- ===== src/Probe/Unwind/Bounds.antt =====
-- tools/run_dex2oat_no_image.py: the validation of unwind information reads no byte past the end.
use Prim.Native.Nat.{◌/◌, ◌%◌}
use dalvikvm_multiplatform.Common.{
  ℕ, zero, suc, ◌+◌, ◌-◌, ◌*◌, ◌≤◌, ◌<◌, Bool, true, false, not, ◌&&◌, ◌||◌, Option, none, some, [],
  ◌∷◌, if◌then◌else◌, if_ind, ◌==◌, nat_eq, ltb, leb, length, Bool-cases, inl, inr, Result, ok,
  probe_error, Ends, returned, raised, Ends-bind, Ends-map, ◌≡◌, refl, ap, arith,
}
use dalvikvm_multiplatform.Overlay.{drop_chars}
use dalvikvm_multiplatform.Probe.Bytes.{Bytes, byte_at, byte_at-Ends, slice, reject, reject-Ends}
use dalvikvm_multiplatform.Probe.Unwind.{
  when, used_slots, next_slot, read_slots, descriptor_size, bad_frame, check_rest, is_padding,
  any_byte, validate_descriptor, validate_unwind_info,
}

-- An operation uses one slot at least.
abbrev Uses : Option ℕ → Type 0
Uses none = Unit
Uses (some used) = 1 ≤ used

when-Uses : (b : Bool) (slots : ℕ) → 1 ≤ slots → Uses (when b slots)
unfolding when
when-Uses true slots h = h
when-Uses false slots h = tt

two_or_three : (b : Bool) → 1 ≤ (if b then 2 else 3)
two_or_three true = omega arith
two_or_three false = omega arith

used_slots-Uses : (operation info : ℕ) → Uses (used_slots operation info)
unfolding used_slots
used_slots-Uses o i =
    if_ind Uses (o == 0) (λ _. when-Uses _ 1 (omega arith))
      λ _.
        if_ind Uses (o == 1) (λ _. when-Uses _ _ (two_or_three (i == 0)))
          λ _.
            if_ind Uses (o == 2) (λ _. omega arith)
              λ _.
                if_ind Uses (o == 3) (λ _. when-Uses _ 1 (omega arith))
                  λ _.
                    if_ind Uses (o == 4 || o == 5) (λ _. when-Uses _ _ (two_or_three (o == 4)))
                      λ _.
                        if_ind Uses (o == 8 || o == 9) (λ _. when-Uses _ _ (two_or_three (o == 8)))
                          λ _. if_ind Uses (o == 10) (λ _. when-Uses _ 1 (omega arith)) (λ _. tt)

next_slot-Ends :
    (go : ℕ → Result ℕ) (slot_count slot : ℕ) (o : Option ℕ)
    → Uses o
    → ((next : ℕ) → slot < next → Ends (λ x. x ≡ probe_error) (λ c. Unit {0}) (go next))
    → Ends (λ x. x ≡ probe_error) (λ c. Unit {0}) (next_slot go slot_count slot o)
unfolding next_slot reject
next_slot-Ends go slot_count slot none u h = raised refl
next_slot-Ends go slot_count slot (some used) u h =
    reject-Ends _ (ltb (slot_count - slot) used) _ λ _. h (slot + used) (omega (arith, u))

read_slots-Ends :
    (f : ℕ) (data_ : Bytes) (prologue_size slot_count slot previous count : ℕ)
    → slot_count ≤ slot + f
    → 4 + slot_count * 2 ≤ length data_
    → Ends
        (λ x. x ≡ probe_error)
        (λ c. Unit {0})
        (read_slots f data_ prologue_size slot_count slot previous count)
unfolding read_slots
read_slots-Ends zero data_ p n slot previous count fuel inside =
    if_ind (Ends (λ x. x ≡ probe_error) (λ c. Unit {0})) (ltb slot n)
      (λ h. absurd (ground (arith, h, fuel))) (λ _. returned tt)
read_slots-Ends (suc f) data_ p n slot previous count fuel inside = elim (Bool-cases (ltb slot n)) [
  | inr done ↦ rw (done, read_slots) (returned tt)
  | inl more ↦
      let low = rest_inside more in
      rw (more, read_slots)
        (Ends-bind (byte_at-Ends data_ (4 + slot * 2) (omega (arith, low, inside))) λ code_offset _.
          Ends-bind (byte_at-Ends data_ (5 + slot * 2) (omega (arith, low, inside))) λ operation _.
            reject-Ends _ (code_offset == 0 || (ltb p code_offset || leb previous code_offset)) _
              λ _.
                next_slot-Ends _ n slot _ (used_slots-Uses (operation % 16) (operation / 16))
                  λ next further.
                    read_slots-Ends f data_ p n next code_offset _ (omega (arith, fuel, further))
                      inside)
]
  where
    rest_inside : ltb slot n ≡ true → slot < n
    rest_inside h = ground (arith, h)

-- Of what `_validate_windows_x64_unwind_info` accepts: the version and the room for its slots.
abbrev pub HasSlots : Bytes → Type 0
HasSlots data_ =
    (slot_count : ℕ) × (byte_at data_ 0 ≡ ok 1)
    × (byte_at data_ 2 ≡ ok slot_count)
    × (4 + slot_count * 2 ≤ length data_)

check_rest-Ends :
    (data_ : Bytes) (slot_count frame count : ℕ)
    → Ends (λ x. x ≡ probe_error) (λ u. Unit {0}) (check_rest data_ slot_count frame count)
unfolding check_rest
check_rest-Ends data_ n frame count =
    reject-Ends _ ((n % 2 == 1) && not (is_padding (slice data_ (4 + n * 2) 2))) _ λ _.
      reject-Ends _ (bad_frame (frame % 16) (frame / 16) count) _
        λ _. reject-Ends _ (any_byte (drop_chars (descriptor_size n) data_)) _ λ _. returned tt

validate_descriptor-Ends :
    (data_ : Bytes) (prologue_size slot_count frame : ℕ)
    → Ends
        (λ x. x ≡ probe_error)
        (λ u. 4 + slot_count * 2 ≤ length data_)
        (validate_descriptor data_ prologue_size slot_count frame)
unfolding validate_descriptor descriptor_size
validate_descriptor-Ends data_ p n frame =
    reject-Ends _ (ltb (length data_) (4 + ((n + 1) - (n + 1) % 2) * 2)) _ λ fits.
      let room = room_of fits in
      Ends-bind (read_slots-Ends n data_ p n 0 256 0 (omega arith) room)
        λ count _. Ends-map (check_rest-Ends data_ n frame count) (λ u _. room) (λ x q. q)
  where
    room_of :
        ltb (length data_) (4 + ((n + 1) - (n + 1) % 2) * 2) ≡ false → 4 + n * 2 ≤ length data_
    room_of h = ground (arith, h)

-- Whatever the bytes are, `_validate_windows_x64_unwind_info` ends: it returns or raises
-- Dex2OatProbeError, and never reads past the end. What it accepts is of version 1, and has room for
-- all the slots that it counts.
pub validate_unwind_info-Ends :
    (data_ : Bytes) → Ends (λ x. x ≡ probe_error) (λ u. HasSlots data_) (validate_unwind_info data_)
unfolding validate_unwind_info reject byte_at
validate_unwind_info-Ends [] = raised refl
validate_unwind_info-Ends (v ∷ []) = raised refl
validate_unwind_info-Ends (v ∷ p ∷ []) = raised refl
validate_unwind_info-Ends (v ∷ p ∷ n ∷ []) = raised refl
validate_unwind_info-Ends (v ∷ p ∷ n ∷ frame ∷ rest) = reject-Ends _ (not (v == 1)) _ λ first.
    Ends-map (validate_descriptor-Ends (v ∷ p ∷ n ∷ frame ∷ rest) p n frame)
      (λ u room. (n, ap ok (ground (arith, first)), refl, room)) (λ x q. q)
