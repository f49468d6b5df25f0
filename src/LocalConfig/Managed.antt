-- ===== src/LocalConfig/Managed.antt =====
-- tools/bp2cmake/bp2cmake/local_config.py: what holds of every path that is validated.
use dalvikvm_multiplatform.Common.{
  none, some, Option, value_error, os_error, recursion_error, ok, ◌⊎◌, inl, inr, if◌then◌else◌,
  keys, Bool, true, false, not, ◌||◌, List, [], ◌∷◌, ◌++◌, append_assoc, text_eq, contains,
  contains-without, without, sort_texts, contains-sort_texts, eq_self, All, Text, Assoc, LocalFault,
  local_config_error, Error, Result, Ends, returned, raised, Ends-bind, Ends-map, ◌≡◌, refl, ap,
  subst, ◌∙◌, arith,
}
use dalvikvm_multiplatform.Target.{TargetProfile, Outcome, done, raises, resolve_target}
use dalvikvm_multiplatform.LocalConfig.{
  HostPath, is_absolute, child, path_of, Toml, string, table, scalar, Stat, no_entry, unreadable,
  bad_name, entry, undecodable, too_deep, asked, Host, fails, is_windows_reparse, expands,
  reject_found, reject_unknown, known_target, inspect_entry, inspect, validate_managed_path,
  local_path, local_paths,
}

-- A question about a path raises an OSError.
abbrev pub IsDenied : Host → HostPath → Type 0
IsDenied host p = (host.exists p ≡ none) ⊎ ((host.is_symlink p ≡ none) ⊎ (host.is_file p ≡ none))

-- A LocalConfigError, or an exception that is raised below local_config.py and not caught there: the
-- ValueError of a name or of a file that is not UTF-8, an OSError, or RecursionError.
abbrev pub IsLocalError : Host → Error → Type 0
IsLocalError host x =
    ((fault : LocalFault) × (x ≡ local_config_error fault))
    ⊎ ((p : HostPath) × (((x ≡ value_error)
            × ((host.lstat p ≡ bad_name) ⊎ (host.load p ≡ undecodable)))
          ⊎ (((x ≡ os_error) × IsDenied host p)
              ⊎ ((x ≡ recursion_error) × (host.load p ≡ too_deep)))))

-- What `lstat` says of a component that may stand in a path.
abbrev pub is_safe : Stat → Bool
is_safe no_entry = true
is_safe unreadable = false
is_safe bad_name = false
is_safe (entry is_link attributes) = not (is_link || is_windows_reparse attributes)

pub fails-Ends :
    (host : Host) {A : Type 0} (P : A → Type 0) (fault : LocalFault)
    → Ends (IsLocalError host) P (fails fault)
unfolding fails
fails-Ends host P fault = raised (inl (fault, refl))

-- A question about a path, which is denied just if its answer is none.
pub asked-Ends :
    (host : Host) (p : HostPath) (o : Option Bool)
    → (o ≡ none → IsDenied host p)
    → Ends (IsLocalError host) (λ b. o ≡ some b) (asked o)
unfolding asked
asked-Ends host p none h = raised (inr (p, inr (inl (refl, h refl))))
asked-Ends host p (some b) h = returned refl

-- A guard: the fault where the test is true.
pub guard-Ends :
    (host : Host) {A : Type 0} (P : A → Type 0) (b : Bool) (fault : LocalFault) (r : Result A)
    → (b ≡ false → Ends (IsLocalError host) P r)
    → Ends (IsLocalError host) P (if b then fails fault else r)
guard-Ends host P true fault r h = fails-Ends host P fault
guard-Ends host P false fault r h = h refl

reject_found-Ends :
    (host : Host) (found : List Text)
    → Ends (IsLocalError host) (λ u. (k : Text) → contains k found ≡ false) (reject_found found)
unfolding reject_found contains
reject_found-Ends host [] = returned (λ k. refl)
reject_found-Ends host (k ∷ ks) = fails-Ends host _ _

pub reject_unknown-Ends :
    (host : Host) {A : Type 0} (d : Assoc A) (allowed : List Text)
    → Ends
        (IsLocalError host)
        (λ u. (k : Text) → contains k (keys d) ≡ true → contains k allowed ≡ true)
        (reject_unknown d allowed)
unfolding reject_unknown
reject_unknown-Ends host d allowed =
    Ends-map (reject_found-Ends host (sort_texts (without allowed (keys d))))
      (λ u none_left k h. ground (
        arith,
        none_left k,
        contains-sort_texts k (without allowed (keys d)),
        contains-without k allowed (keys d),
        h,
      ))
      (λ x q. q)

-- A target that is registered.
abbrev pub IsKnown : Text → Type 0
IsKnown target_id = (p : TargetProfile) × (resolve_target target_id ≡ done p)

pub known_target-Ends :
    (host : Host) (target_id : Text)
    → Ends
        (IsLocalError host)
        (λ u. IsKnown target_id)
        (known_target target_id (resolve_target target_id))
unfolding known_target
known_target-Ends host target_id = at_outcome (resolve_target target_id) refl
  where
    at_outcome :
        (o : Outcome TargetProfile)
        → resolve_target target_id ≡ o
        → Ends (IsLocalError host) (λ u. IsKnown target_id) (known_target target_id o)
    at_outcome (done p) e = returned (p, e)
    at_outcome (raises fault) e = fails-Ends host _ _

module _ (host : Host) where
  -- No component of the path is a link, and the path exists if it has to.
  pub record IsManaged (allow_missing : Bool) (p : HostPath) : Type 0 where
    pub absolute : is_absolute p ≡ true
    pub unlinked :
        (xs ys : List Text) (y : Text)
        → p.parts ≡ xs ++ (y ∷ ys)
        → is_safe (host.lstat (record { root = p.root; parts = xs ++ (y ∷ []) })) ≡ true
    pub exists : allow_missing ≡ false → host.exists p ≡ some true

  abbrev below : HostPath → List Text → HostPath
  below p xs = record { root = p.root; parts = p.parts ++ xs }

  -- What the loop has shown of the components that were left.
  abbrev Unlinked : HostPath → List Text → Type 0
  Unlinked current parts =
      (xs ys : List Text) (y : Text)
      → parts ≡ xs ++ (y ∷ ys)
      → is_safe (host.lstat (below current (xs ++ (y ∷ [])))) ≡ true

  Unlinked-child :
      (current : HostPath) (part : Text) (parts : List Text)
      → is_safe (host.lstat (child current part)) ≡ true
      → Unlinked (child current part) parts
      → Unlinked current (part ∷ parts)
  unfolding child
  Unlinked-child current part parts here rest [] ys y e =
      subst (λ z. is_safe (host.lstat (below current (z ∷ []))) ≡ true) (cc) here
  Unlinked-child current part parts here rest (x ∷ xs) ys y e =
      subst (λ z. is_safe (host.lstat (record { root = current.root; parts = z })) ≡ true)
        (append_assoc current.parts (part ∷ []) (xs ++ (y ∷ []))
          ∙ ap (λ z. current.parts ++ (z ∷ (xs ++ (y ∷ [])))) (cc))
        (rest xs ys y (cc))

  inspect_entry-Ends :
      (current : HostPath) (part : Text) (parts : List Text) (missing_seen : Bool)
      (go : Bool → Result (Unit {0})) (s : Stat)
      → host.lstat (child current part) ≡ s
      → ((b : Bool) → Ends (IsLocalError host) (λ u. Unlinked (child current part) parts) (go b))
      → Ends
          (IsLocalError host)
          (λ u. Unlinked current (part ∷ parts))
          (inspect_entry s missing_seen go)
  unfolding inspect_entry
  inspect_entry-Ends current part parts missing_seen go no_entry e h =
      Ends-map (h true) (λ u rest. Unlinked-child current part parts (ap is_safe e) rest) (λ x q. q)
  inspect_entry-Ends current part parts missing_seen go unreadable e h = fails-Ends host _ _
  inspect_entry-Ends current part parts missing_seen go bad_name e h =
      raised (inr (child current part, inl (refl, inl e)))
  inspect_entry-Ends current part parts missing_seen go (entry is_link attributes) e h =
      guard-Ends host _ missing_seen _ _ λ _.
        guard-Ends host _ (is_link || is_windows_reparse attributes) _ _ λ plain.
          Ends-map (h missing_seen)
            (λ u rest. Unlinked-child current part parts (ap is_safe e ∙ ap not plain) rest)
            (λ x q. q)

  inspect-Ends :
      (current : HostPath) (parts : List Text) (missing_seen : Bool)
      → Ends
          (IsLocalError host)
          (λ u. Unlinked current parts)
          (inspect host current parts missing_seen)
  unfolding inspect
  inspect-Ends current [] missing_seen = returned (λ xs. nothing xs)
    where
      nothing :
          (xs ys : List Text) (y : Text)
          → [] ≡ xs ++ (y ∷ ys)
          → is_safe (host.lstat (below current (xs ++ (y ∷ [])))) ≡ true
      nothing [] ys y e = cc
      nothing (x ∷ xs) ys y e = cc
  inspect-Ends current (part ∷ parts) missing_seen =
      inspect_entry-Ends current part parts missing_seen _ (host.lstat (child current part)) refl
        λ b. inspect-Ends (child current part) parts b

  present-Ends :
      (path : HostPath) (allow_missing : Bool)
      → Ends
          (IsLocalError host)
          (λ b. allow_missing ≡ false → host.exists path ≡ some b)
          (if allow_missing then ok true else asked (host.exists path))
  present-Ends path true = returned (λ e. cc)
  present-Ends path false =
      Ends-map (asked-Ends host path (host.exists path) inl) (λ b e _. e) (λ x q. q)

  -- `validate_managed_path` returns the path it was given, with no link in it, or raises
  -- LocalConfigError or what the host raises.
  pub validate_managed_path-Ends :
      (path : HostPath) (allow_missing : Bool)
      → Ends
          (IsLocalError host)
          (λ p. (p ≡ path) × IsManaged allow_missing p)
          (validate_managed_path host path allow_missing)
  unfolding validate_managed_path
  validate_managed_path-Ends path allow_missing =
      guard-Ends host _ (not (is_absolute path)) _ _ λ rooted.
        Ends-bind (inspect-Ends (record { root = path.root; parts = [] }) path.parts false)
          λ u unlinked. Ends-bind (present-Ends path allow_missing) λ present asked_for.
            guard-Ends host _ (not present) _ _ λ there. returned (
              refl,
              record {
                absolute = ground (arith, rooted);
                unlinked = unlinked;
                exists = λ needed.
                    subst (λ b. host.exists path ≡ some b) (ground (arith, there))
                      (asked_for needed);
              },
            )

  pub local_path-Ends :
      (value : Toml) (allow_missing : Bool)
      → Ends (IsLocalError host) (IsManaged allow_missing) (local_path host value allow_missing)
  unfolding local_path
  local_path-Ends (string (c ∷ s)) allow_missing = guard-Ends host _ (expands (c ∷ s)) _ _ λ _.
      Ends-map (validate_managed_path-Ends (path_of (c ∷ s)) allow_missing) (λ p h. h.1) (λ x q. q)
  local_path-Ends (string []) allow_missing = fails-Ends host _ _
  local_path-Ends (table t) allow_missing = fails-Ends host _ _
  local_path-Ends scalar allow_missing = fails-Ends host _ _

  -- A binding of one of some keys to a path that exists.
  abbrev pub IsBinding : List Text → Text × HostPath → Type 0
  IsBinding allowed kp = (contains kp.0 allowed ≡ true) × IsManaged false kp.1

  pub local_paths-Ends :
      (d : Assoc Toml) (allowed : List Text)
      → ((k : Text) → contains k (keys d) ≡ true → contains k allowed ≡ true)
      → Ends (IsLocalError host) (All (IsBinding allowed)) (local_paths host d)
  unfolding local_paths contains keys
  local_paths-Ends [] allowed h = returned tt
  local_paths-Ends ((key, value) ∷ d) allowed h =
      Ends-bind (local_path-Ends value false) λ path managed.
        Ends-bind (local_paths-Ends d allowed λ k there. h k (ground (arith, there)))
          λ paths rest. returned ((h key (ground (arith, eq_self key)), managed), rest)
