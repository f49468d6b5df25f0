-- ===== src/Emitter/Files/References.antt =====
-- tools/bp2cmake/bp2cmake/emitter.py: the references of a module to source containers, and its files.
use dalvikvm_multiplatform.Common.{
  has_char, ◌||◌, ◌⊎◌, Ends-bind_both, ℕ, zero, suc, ◌+◌, ◌≤◌, ◌<◌, true, false, Option, none, some,
  List, [], ◌∷◌, map, if◌then◌else◌, if_ind, ◌==◌, text_eq, contains, eq_self, Bool-cases, inl, inr,
  All, All-append, All-map, length, IsNodup, Text, ◌≡◌, refl, sym, ap, ◌∙◌, arith, Error, Result,
  ok, err, Ends, returned, raised, Ends-bind, Ends-map,
}
use dalvikvm_multiplatform.Model.{Module}
use dalvikvm_multiplatform.Overlay.{drop_chars}
use dalvikvm_multiplatform.Emitter.Resolver.{Resolver}
use dalvikvm_multiplatform.Emitter.Files.{
  Raw, Place, place_of, is_reference, place_eq, add_children, add_container, add_source,
  raw_sources, expand_globs, expanded, kept_files, joined_file, module_files,
}

-- No place is kept that was seen, none is kept twice, and no excluded source is kept.
kept_files-seen :
    (excluded : List Text) (seen : List Place) (files : List Raw) (p : Place)
    → contains p seen ≡ true
    → contains p (map place_of (kept_files excluded seen files)) ≡ false
unfolding kept_files contains
kept_files-seen excluded seen [] p h = refl
kept_files-seen excluded seen ((d, s, r) ∷ files) p h =
    if_ind (λ k. contains p (map place_of k) ≡ false) (contains s excluded)
      (λ _. kept_files-seen excluded seen files p h)
      λ _.
        if_ind (λ k. contains p (map place_of k) ≡ false) (contains (place_of (d, s, r)) seen)
          (λ _. kept_files-seen excluded seen files p h)
          λ new. elim (Bool-cases (place_of (d, s, r) == p)) [
            | inl same ↦
                let equal = (place_eq.beq_iff (place_of (d, s, r)) p).0 same in
                let clash = sym new ∙ ap (λ x. contains x seen) equal ∙ h in cc
            | inr other ↦
                rw other (
                  kept_files-seen excluded (place_of (d, s, r) ∷ seen) files p (rw (other, h) refl))
          ]

kept_files-IsNodup :
    (excluded : List Text) (seen : List Place) (files : List Raw)
    → IsNodup (map place_of (kept_files excluded seen files))
unfolding kept_files IsNodup contains
kept_files-IsNodup excluded seen [] = tt
kept_files-IsNodup excluded seen ((d, s, r) ∷ files) =
    if_ind (λ k. IsNodup (map place_of k)) (contains s excluded)
      (λ _. kept_files-IsNodup excluded seen files)
      λ _.
        if_ind (λ k. IsNodup (map place_of k)) (contains (place_of (d, s, r)) seen)
          (λ _. kept_files-IsNodup excluded seen files)
          λ new. (
            kept_files-seen excluded (place_of (d, s, r) ∷ seen) files (place_of (d, s, r))
                (rw (eq_self (place_of (d, s, r))) refl),
            kept_files-IsNodup excluded (place_of (d, s, r) ∷ seen) files,
          )

kept_files-kept :
    (excluded : List Text) (seen : List Place) (files : List Raw)
    → All (λ (raw : Raw). contains raw.1 excluded ≡ false) (kept_files excluded seen files)
unfolding kept_files
kept_files-kept excluded seen [] = tt
kept_files-kept excluded seen ((d, s, r) ∷ files) =
    if_ind (All _) (contains s excluded) (λ _. kept_files-kept excluded seen files)
      λ free.
        if_ind (All _) (contains (place_of (d, s, r)) seen)
          (λ _. kept_files-kept excluded seen files)
          λ new. (free, kept_files-kept excluded (place_of (d, s, r) ∷ seen) files)

kept_files-All :
    (P : Raw → Type 0) (excluded : List Text) (seen : List Place) (files : List Raw)
    → All P files
    → All P (kept_files excluded seen files)
unfolding kept_files
kept_files-All P excluded seen [] h = tt
kept_files-All P excluded seen ((d, s, r) ∷ files) h =
    if_ind (All P) (contains s excluded) (λ _. kept_files-All P excluded seen files h.1)
      λ _.
        if_ind (All P) (contains (place_of (d, s, r)) seen)
          (λ _. kept_files-All P excluded seen files h.1)
          λ _. (h.0, kept_files-All P excluded (place_of (d, s, r) ∷ seen) files h.1)

-- The place of an item is that of one that is kept or was seen, if its source is not excluded.
abbrev IsPlaced : List Text → List Place → List Raw → Raw → Type 0
IsPlaced excluded seen kept raw =
    contains raw.1 excluded ≡ false
    → (contains (place_of raw) (map place_of kept) || contains (place_of raw) seen) ≡ true

IsPlaced-later :
    (excluded : List Text) (seen : List Place) (first : Raw) (kept : List Raw) (raw : Raw)
    → IsPlaced excluded (place_of first ∷ seen) kept raw
    → IsPlaced excluded seen (first ∷ kept) raw
unfolding contains
IsPlaced-later excluded seen first kept raw h free = ground (arith, h free)

kept_files-Placed :
    (excluded : List Text) (seen : List Place) (files : List Raw)
    → All (IsPlaced excluded seen (kept_files excluded seen files)) files
unfolding kept_files contains
kept_files-Placed excluded seen [] = tt
kept_files-Placed excluded seen ((d, s, r) ∷ files) =
    let here = place_of (d, s, r) in
    let P = λ (k : List Raw). All (IsPlaced excluded seen k) ((d, s, r) ∷ files) in
    if_ind P (contains s excluded)
      (λ out. (λ free. absurd (ground (arith, out, free)), kept_files-Placed excluded seen files))
      λ _.
        if_ind P (contains here seen)
          (λ old. (λ free. ground (arith, old), kept_files-Placed excluded seen files))
          λ _. (
            λ free. ground (arith, eq_self here),
            All-map _ _
                (IsPlaced-later excluded seen (d, s, r) (kept_files excluded (here ∷ seen) files))
                files (kept_files-Placed excluded (here ∷ seen) files),
          )

module _ (ev : Resolver) where
  -- What a source stands for: itself, or what the sources of the container that it refers to do.
  pub data Stands : Text → Text → Text → Raw → Type 0 where
    plain :
        {bp_dir source root_var : Text}
        → is_reference source ≡ false
        → Stands bp_dir source root_var (bp_dir, source, root_var)
    inside :
        {bp_dir source root_var child dir root : Text} {srcs : List Text} {raw : Raw}
        → is_reference source ≡ true
        → ev.source_container (drop_chars 1 source) ≡ ok (some (srcs, dir, root))
        → contains child srcs ≡ true
        → Stands dir child root raw
        → Stands bp_dir source root_var raw

  -- What a source is after the expansion of globs: itself, or one of the files that its glob finds.
  abbrev pub Expands : Raw → Raw → Type 0
  Expands raw item =
      ((has_char b'*' raw.1 ≡ false) × (item ≡ raw))
      ⊎ ((has_char b'*' raw.1 ≡ true)
          × ((file : Text) × (contains file (expand_globs ev (raw.1 ∷ []) raw.0 raw.2) ≡ true)
              × (item ≡ (raw.0, file, raw.2))))

  globbed-Expands :
      (Q : Raw → Type 0) (raw : Raw)
      → Q raw
      → has_char b'*' raw.1 ≡ true
      → (files : List Text)
      → ((file : Text)
          → contains file files ≡ true
          → contains file (expand_globs ev (raw.1 ∷ []) raw.0 raw.2) ≡ true)
      → All (λ item. (r : Raw) × Q r × Expands r item) (map (λ e. (raw.0, e, raw.2)) files)
  unfolding contains
  globbed-Expands Q raw q star [] all = tt
  globbed-Expands Q raw q star (e ∷ files) all = (
    (raw, q, inr (star, (e, all e (ground (arith, eq_self e)), refl))),
    globbed-Expands Q raw q star files (λ f h. all f (ground (arith, h))),
  )

  expanded-Expands :
      (Q : Raw → Type 0) (raws : List Raw)
      → All Q raws
      → All (λ item. (r : Raw) × Q r × Expands r item) (expanded ev raws)
  unfolding expanded
  expanded-Expands Q [] h = tt
  expanded-Expands Q ((d, s, rv) ∷ raws) h =
      All-append _
        (if has_char b'*' s
          then map (λ e. (d, e, rv)) (expand_globs ev (s ∷ []) d rv)
          else (d, s, rv) ∷ [])
        (expanded ev raws)
        (if_ind (All (λ (item : Raw). (r : Raw) × Q r × Expands r item)) (has_char b'*' s)
          (λ star. globbed-Expands Q (d, s, rv) h.0 star (expand_globs ev (s ∷ []) d rv) (λ f k. k))
          (λ bare. (((d, s, rv), h.0, inl (bare, refl)), tt)))
        (expanded-Expands Q raws h.1)

  -- What a source of the module stands for.
  abbrev pub IsSource : Module Text → Raw → Type 0
  IsSource m raw = (s : Text) × (contains s m.srcs ≡ true) × Stands m.bp_dir s m.root_var raw

  -- What the files of a module are. They are the joined paths of some items, each of which a source of
  -- the module stands for, or its glob finds, and is not excluded, and whose places are distinct; and
  -- the place of every expanded source that is not excluded is among these.
  abbrev pub Keeps : ℕ → Module Text → List Text → Type 0
  Keeps f m files =
      (kept : List Raw) × (files ≡ map joined_file kept)
      × All (λ (item : Raw). (raw : Raw) × IsSource m raw × Expands raw item) kept
      × All (λ (item : Raw). contains item.1 m.exclude_srcs ≡ false) kept
      × IsNodup (map place_of kept)
      × ((raws : List Raw) × (raw_sources ev f m.bp_dir m.root_var m.srcs ≡ ok raws)
          × All
              (λ (item : Raw).
                contains item.1 m.exclude_srcs ≡ false
                → contains (place_of item) (map place_of kept) ≡ true)
              (expanded ev raws))

  -- An error that the search of a container raised.
  abbrev pub IsContainerFailure : Error → Type 0
  IsContainerFailure x = (name : Text) × (ev.source_container name ≡ err x)

  -- The names that are not being expanded.
  unfoldable inactive : List Text → List Text → ℕ
  inactive [] active = zero
  inactive (n ∷ ns) active = (if contains n active then zero else 1) + inactive ns active

  inactive-length : (ns active : List Text) → inactive ns active ≤ length ns
  unfolding inactive
  inactive-length [] active = omega arith
  inactive-length (n ∷ ns) active = ground (arith, inactive-length ns active)

  inactive-active :
      (a : Text) (ns active : List Text) → inactive ns (a ∷ active) ≤ inactive ns active
  unfolding inactive contains
  inactive-active a [] active = ground arith
  inactive-active a (n ∷ ns) active = ground (arith, inactive-active a ns active)

  inactive-less :
      (a : Text) (ns active : List Text)
      → contains a ns ≡ true
      → contains a active ≡ false
      → inactive ns (a ∷ active) < inactive ns active
  unfolding inactive contains
  inactive-less a [] active h fresh = cc
  inactive-less a (n ∷ ns) active h fresh = elim (Bool-cases (n == a)) [
    | inl same ↦
        rw ((text_eq.beq_iff n a).0 same)
          (ground (arith, inactive-active a ns active, eq_self a, fresh))
    | inr other ↦ ground (arith, inactive-less a ns active, other, h, fresh)
  ]

  abbrev Gives : (Raw → Type 0) → Result (List Raw) → Type 0
  Gives P r = Ends IsContainerFailure (All P) r

  add_children-Gives :
      (P : Raw → Type 0) (go : Text → Result (List Raw)) (srcs : List Text)
      → ((child : Text) → contains child srcs ≡ true → Gives P (go child))
      → Gives P (add_children go srcs)
  unfolding add_children contains
  add_children-Gives P go [] h = returned tt
  add_children-Gives P go (s ∷ srcs) h = Ends-bind (h s (ground (arith, eq_self s))) λ xs px.
      Ends-bind (add_children-Gives P go srcs (λ c k. h c (ground (arith, k))))
        λ ys py. returned (All-append P xs ys px py)

  container-Ends :
      (name : Text)
      → Ends IsContainerFailure (λ c. ev.source_container name ≡ ok c) (ev.source_container name)
  container-Ends name = at_result (ev.source_container name) refl
    where
      at_result :
          (r : Result (Option (List Text × Text × Text)))
          → ev.source_container name ≡ r
          → Ends IsContainerFailure (λ c. ev.source_container name ≡ ok c) r
      at_result (ok c) e = returned e
      at_result (err x) e = raised (name, e)

  module _ (ns : List Text)
      (known : (n : Text) (c : List Text × Text × Text)
        → ev.source_container n ≡ ok (some c)
        → contains n ns ≡ true) where
    -- Every call of `add_source` under some names gives what a source stands for.
    abbrev Goes : (Text → Text → Text → Result (List Raw)) → Type 0
    Goes go = (dir s root : Text) → Gives (Stands dir s root) (go dir s root)

    add_container-Gives :
        (bp_dir source root_var : Text) (go : Text → Text → Text → Result (List Raw))
        → is_reference source ≡ true
        → (c : Option (List Text × Text × Text)) → ev.source_container (drop_chars 1 source) ≡ ok c
        → (contains (drop_chars 1 source) ns ≡ true → Goes go)
        → Gives (Stands bp_dir source root_var) (add_container go c)
    unfolding add_container
    add_container-Gives bp_dir source root_var go ref none e goes = returned tt
    add_container-Gives bp_dir source root_var go ref (some (srcs, dir, root)) e goes =
        add_children-Gives (Stands bp_dir source root_var) (λ child. go dir child root) srcs
          λ child h.
            Ends-map (goes (known _ _ e) dir child root)
              (λ raws. All-map _ _ (λ raw s. inside ref e h s) raws) (λ x q. q)

    add_source-Gives :
        (f : ℕ) (active : List Text) (bp_dir source root_var : Text)
        → inactive ns active < f
        → Gives (Stands bp_dir source root_var) (add_source ev f active bp_dir source root_var)
    unfolding add_source
    add_source-Gives zero active bp_dir source root_var low = absurd (omega (arith, low))
    add_source-Gives (suc f) active bp_dir source root_var low =
        elim (Bool-cases (is_reference source)) [
          | inr own ↦ rw (own, add_source) (returned (plain own, tt))
          | inl ref ↦ elim (Bool-cases (contains (drop_chars 1 source) active)) [
            | inl old ↦ rw (ref, old, add_source) (returned tt)
            | inr new ↦
                rw (ref, new, add_source)
                  (Ends-bind (container-Ends (drop_chars 1 source)) λ c e.
                    add_container-Gives bp_dir source root_var _ ref c e λ there dir s root.
                      add_source-Gives f (drop_chars 1 source ∷ active) dir s root (
                        ground
                          (arith, low, inactive-less (drop_chars 1 source) ns active there new)))
          ]
        ]

    -- Let `ns` hold every name of a source container. On fuel above their number the references of a
    -- module's sources are expanded, even where they refer to each other, and each item is what some
    -- source of the module stands for; or the search of a container raises an error.
    pub raw_sources-Stands :
        (f : ℕ) (bp_dir root_var : Text) (srcs : List Text)
        → length ns < f
        → Ends IsContainerFailure
            (All (λ raw. (s : Text) × (contains s srcs ≡ true) × Stands bp_dir s root_var raw))
            (raw_sources ev f bp_dir root_var srcs)
    unfolding raw_sources
    raw_sources-Stands f bp_dir root_var srcs low =
        add_children-Gives _ (λ s. add_source ev f [] bp_dir s root_var) srcs
          λ s h.
            Ends-map
              (add_source-Gives f [] bp_dir s root_var (omega (arith, low, inactive-length ns [])))
              (λ raws. All-map _ _ (λ raw k. (s, h, k)) raws) (λ x q. q)

    pub module_files-Keeps :
        (f : ℕ) (m : Module Text)
        → length ns < f
        → Ends IsContainerFailure (Keeps f m) (module_files ev f m)
    unfolding module_files contains
    module_files-Keeps f m low =
        Ends-bind_both (raw_sources ev f m.bp_dir m.root_var m.srcs)
          (raw_sources-Stands f m.bp_dir m.root_var m.srcs low)
          λ raws e sources.
            let items = expanded ev raws in
            let kept = kept_files m.exclude_srcs [] items in
            returned (
              kept,
              refl,
              kept_files-All _ m.exclude_srcs [] items (expanded-Expands (IsSource m) raws sources),
              kept_files-kept m.exclude_srcs [] items,
              kept_files-IsNodup m.exclude_srcs [] items,
              (
                raws,
                e,
                All-map _ _ (λ item h free. ground (arith, h free)) items
                    (kept_files-Placed m.exclude_srcs [] items),
              ),
            )
