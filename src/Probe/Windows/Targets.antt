-- ===== src/Probe/Windows/Targets.antt =====
-- tools/run_dex2oat_no_image.py: the order of the targets of a CFG table that is accepted.
use Prim.Native.Nat.{◌%◌, ◌/◌}
use dalvikvm_multiplatform.Common.{
  sym, ◌∙◌, ap, zero, suc, if◌then◌else◌, ℕ, ◌+◌, ◌*◌, ◌≤◌, ◌<◌, true, false, not, ◌||◌, Option,
  none, some, List, [], ◌∷◌, ◌==◌, nat_eq, text_eq, ltb, leb, length, probe_error, Ends, returned,
  Ends-bind, Ends-map, ◌≡◌, refl, subst, arith,
}
use dalvikvm_multiplatform.Probe.Bytes.{Bytes, slice, reject-Ends}
use dalvikvm_multiplatform.Probe.Elf.{number_at}
use dalvikvm_multiplatform.Probe.Windows.{
  adler32, checksum_payload, Anchors, is_text, Target, not_above, check_target, read_targets,
  role_count, CfgInfo, is_cfg_header, is_cfg_layout, count_roles, has_role, check_cfg_header,
  check_cfg_payload,
}
use dalvikvm_multiplatform.Probe.Vdex.Layout.{word_at}
use dalvikvm_multiplatform.Probe.Windows.Tables.{unpack_from-Fits, text-Same}

-- A target lies in the code, is aligned and has roles of the four.
abbrev pub IsTarget : Anchors → ℕ → ℕ → Target → Type 0
IsTarget a code_begin code_end (code_offset, kind_flags) =
    (code_begin ≤ code_offset)
    × (code_offset < code_end)
    × ((a.rodata_address + code_offset) % 16 ≡ 0)
    × (1 ≤ kind_flags)
    × (kind_flags < 16)

abbrev IsBehind : Option ℕ → ℕ → Type 0
IsBehind none code_offset = Unit
IsBehind (some previous) code_offset = previous < code_offset

-- The place and the flags of the target at an index of the table.
abbrev pub target_in : Bytes → ℕ → Target
target_in payload index =
    let item = slice payload (48 + index * 8) 8 in (word_at item 0, word_at item 4)

-- Each of `left` targets of the table, from an index on, is a target of the code and lies behind the
-- one before it.
abbrev pub Rises : Anchors → Bytes → ℕ → ℕ → Option ℕ → ℕ → ℕ → Type 0
Rises a payload code_begin code_end previous zero index = Unit
Rises a payload code_begin code_end previous (suc left) index =
    IsTarget a code_begin code_end (target_in payload index)
    × IsBehind previous (target_in payload index).0
    × Rises a payload code_begin code_end (some (target_in payload index).0) left (index + 1)

-- How many of them have the bit of a role.
abbrev pub roles_in : Bytes → ℕ → ℕ → ℕ → ℕ
roles_in payload bit zero index = zero
roles_in payload bit (suc left) index =
    (if (target_in payload index).1 / bit % 2 == 1 then 1 else 0)
    + roles_in payload bit left (index + 1)

abbrev targets_in : Bytes → ℕ → ℕ → List Target
targets_in payload zero index = []
targets_in payload (suc left) index = target_in payload index ∷ targets_in payload left (index + 1)

role_count-targets_in :
    (payload : Bytes) (bit left index : ℕ)
    → role_count bit (targets_in payload left index) ≡ roles_in payload bit left index
unfolding role_count has_role
role_count-targets_in payload bit zero index = refl
role_count-targets_in payload bit (suc left) index =
    ap (λ n. (if (target_in payload index).1 / bit % 2 == 1 then 1 else 0) + n)
      (role_count-targets_in payload bit left (index + 1))

length-targets_in :
    (payload : Bytes) (left index : ℕ) → length (targets_in payload left index) ≡ left
length-targets_in payload zero index = refl
length-targets_in payload (suc left) index = ap suc (length-targets_in payload left (index + 1))

not_above-Behind :
    (previous : Option ℕ) (code_offset : ℕ)
    → not_above previous code_offset ≡ false
    → IsBehind previous code_offset
unfolding not_above
not_above-Behind none code_offset e = tt
not_above-Behind (some previous) code_offset e = ground (arith, e)

check_target-Ends :
    (a : Anchors) (code_begin code_end : ℕ) (previous : Option ℕ) (target : Target)
    → Ends
        (λ x. x ≡ probe_error)
        (λ (t : Target).
          (t ≡ target) × IsTarget a code_begin code_end target × IsBehind previous target.0)
        (check_target a code_begin code_end previous target)
unfolding check_target
check_target-Ends a first last previous (at, flags) =
    reject-Ends _ (ltb at first || leb last at) _ λ inside.
      reject-Ends _ (not ((a.rodata_address + at) % 16 == 0) || not_above previous at) _ λ placed.
        reject-Ends _ (flags == 0 || leb 16 flags) _ λ roles. returned (
          refl,
          (
            ground (arith, inside),
            ground (arith, inside),
            ground (arith, placed),
            ground (arith, roles),
            ground (arith, roles),
          ),
          not_above-Behind previous at (ground (arith, placed)),
        )

read_targets-Ends :
    (a : Anchors) (payload : Bytes) (code_begin code_end left index : ℕ) (previous : Option ℕ)
    → 48 + (index + left) * 8 ≤ length payload
    → Ends
        (λ x. x ≡ probe_error)
        (λ targets.
          (targets ≡ targets_in payload left index)
          × Rises a payload code_begin code_end previous left index)
        (read_targets a payload code_begin code_end left index previous)
unfolding read_targets number_at
read_targets-Ends a payload first last zero index previous room = returned (refl, tt)
read_targets-Ends a payload first last (suc left) index previous room =
    Ends-bind (unpack_from-Fits payload (48 + index * 8) 8 (omega (arith, room))) λ h at.
      let words = ap (λ z. (word_at z 0, word_at z 4)) at in
      Ends-bind (check_target-Ends a first last previous (word_at h 0, word_at h 4))
        λ target (same, good, behind).
          let here : target ≡ target_in payload index = same ∙ words in
          Ends-bind
            (read_targets-Ends a payload first last left (index + 1) (some target.0)
              (omega (arith, room)))
            λ rest (e, rises). returned (
              ap (λ z. z ∷ rest) here ∙ ap (λ z. target_in payload index ∷ z) e,
              (
                subst (IsTarget a first last) words good,
                subst (λ (t : Target). IsBehind previous t.0) words behind,
                subst (λ (t : Target). Rises a payload first last (some t.0) left (index + 1)) here
                    rises,
              ),
            )

-- The counts of an accepted table are those of its targets, as many as the header says.
abbrev pub HasRoles : Bytes → ℕ → CfgInfo → Type 0
HasRoles payload n info =
    (info.target_count ≡ n)
    × (info.quick_candidate_count ≡ roles_in payload 1 n 0)
    × (info.jni_candidate_count ≡ roles_in payload 2 n 0)
    × (info.trampoline_candidate_count ≡ roles_in payload 4 n 0)
    × (info.thunk_candidate_count ≡ roles_in payload 8 n 0)
    × (roles_in payload 4 n 0 ≡ 7)

-- The targets of an accepted table lie in the code of `.text`.
abbrev pub HasTargets : Anchors → Bytes → CfgInfo → Type 0
HasTargets a payload info =
    let header = slice payload 0 48 in
    let code_begin = word_at header 32 in
    (code_begin + a.rodata_address ≡ a.text_address)
    × Rises a payload code_begin (code_begin + a.text_size) none (word_at header 24) 0
    × HasRoles payload (word_at header 24) info

count_roles-Ends :
    (payload : Bytes) (n : ℕ)
    → Ends (λ x. x ≡ probe_error) (HasRoles payload n) (count_roles (targets_in payload n 0))
unfolding count_roles
count_roles-Ends payload n =
    reject-Ends _ (not (role_count 4 (targets_in payload n 0) == 7)) _ λ seven. returned (
      length-targets_in payload n 0,
      role_count-targets_in payload 1 n 0,
      role_count-targets_in payload 2 n 0,
      role_count-targets_in payload 4 n 0,
      role_count-targets_in payload 8 n 0,
      sym (role_count-targets_in payload 4 n 0)
          ∙ (nat_eq.beq_iff (role_count 4 (targets_in payload n 0)) 7).0 (ground (arith, seven)),
    )

cfg-Room : (h : Bytes) (size : ℕ) → is_cfg_layout h size ≡ true → 48 + number_at h 24 4 * 8 ≤ size
unfolding is_cfg_layout
cfg-Room h size e = ground (arith, e)

cfg_header-Ends :
    (a : Anchors) (payload h : Bytes)
    → Ends
        (λ x. x ≡ probe_error)
        (λ info.
          (number_at h 32 4 + a.rodata_address ≡ a.text_address)
          × Rises a payload
              (number_at h 32 4)
              (number_at h 32 4 + a.text_size)
              none
              (number_at h 24 4)
              0
          × HasRoles payload (number_at h 24 4) info)
        (check_cfg_header a payload h)
unfolding check_cfg_header
cfg_header-Ends a payload h =
    reject-Ends _ (not (is_cfg_header h) || not (is_cfg_layout h (length payload))) _ λ shaped.
      reject-Ends _ (not (number_at h 40 4 == adler32 (checksum_payload 40 payload))) _ λ _.
        reject-Ends _ (not (is_text a (number_at h 32 4) (number_at h 36 4))) _ λ located.
          let (low, high) = text-Same a (number_at h 32 4) (number_at h 36 4) located in
          let n = number_at h 24 4 in
          Ends-bind
            (read_targets-Ends a payload (number_at h 32 4) (number_at h 36 4) n 0 none (
              let fits = cfg-Room h (length payload) (ground (arith, shaped)) in
              omega (arith, fits)))
            λ targets (e, rises).
              subst
                (λ z.
                  Ends (λ x. x ≡ probe_error)
                    (λ (info : CfgInfo).
                      (number_at h 32 4 + a.rodata_address ≡ a.text_address)
                      × Rises a payload (number_at h 32 4) (number_at h 32 4 + a.text_size) none n 0
                      × HasRoles payload n info)
                    (count_roles z))
                (sym e)
                (Ends-map (count_roles-Ends payload n)
                  (λ info roles. (
                    low,
                    subst (λ z. Rises a payload (number_at h 32 4) z none n 0) high rises,
                    roles,
                  ))
                  (λ x q. q))

-- Of a payload with room for its header, the check of the CFG table returns or raises
-- Dex2OatProbeError, and unpacks nothing past the end. If it returns, the targets of the table, as many
-- as its header says, rise strictly in the code of `.text`, each is aligned to 16 in memory and has some
-- of the four roles and no other, just seven are trampolines, and the counts are those of the roles.
pub check_cfg_payload-Rises :
    (a : Anchors) (payload : Bytes)
    → 48 ≤ length payload
    → Ends (λ x. x ≡ probe_error) (HasTargets a payload) (check_cfg_payload a payload)
unfolding check_cfg_payload number_at
check_cfg_payload-Rises a payload room = Ends-bind (unpack_from-Fits payload 0 48 room) λ h at.
    subst (λ z. Ends (λ x. x ≡ probe_error) (HasTargets a payload) (check_cfg_header a payload z))
      (sym at) (cfg_header-Ends a payload (slice payload 0 48))
