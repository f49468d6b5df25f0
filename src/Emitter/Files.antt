-- ===== src/Emitter/Files.antt =====
-- tools/bp2cmake/bp2cmake/emitter.py: the source files of one module, with its references and globs
-- expanded, and the modules that another absorbs.
pub mod Absorbed
pub mod References
use dalvikvm_multiplatform.Common.{
  ℕ, zero, suc, Bool, true, false, ◌&&◌, Option, none, some, List, [], ◌∷◌, ◌++◌, map,
  if◌then◌else◌, Eq, ◌==◌, text_eq, text_beq_iff, contains, Text, codes, find, has_char,
  starts_with, is_blank, path_join, ◌≡◌, ◌↔◌, refl, ap, arith, recursion_error, Result, ok, err,
  ◌>>=◌,
}
use dalvikvm_multiplatform.Model.{Module}
use dalvikvm_multiplatform.Overlay.{drop_chars}
use dalvikvm_multiplatform.Evaluator.Modules.{portable_relpath}
use dalvikvm_multiplatform.Closure.{caught}
use dalvikvm_multiplatform.Emitter.Resolver.{Resolver}
use dalvikvm_multiplatform.Emitter.Includes.{join_path}

-- An item of `raw` and `expanded`: `(bp_dir, rel, root_var)`.
abbrev pub Raw : Type 0
Raw = Text × Text × Text

-- `(rv, posixpath.join(bp_dir, s))`, the key of the set `seen`, and its equality.
abbrev pub Place : Type 0
Place = Text × Text

abbrev pub place_beq : Place → Place → Bool
place_beq p q = (p.0 == q.0) && (p.1 == q.1)

pub place_beq_iff : (p q : Place) → (place_beq p q ≡ true) ↔ (p ≡ q)
place_beq_iff (a, b) (c, d) = ground (arith, text_beq_iff a c, text_beq_iff b d)

instance abbrev pub place_eq : Eq Place
place_eq = record { beq = place_beq; beq_iff = place_beq_iff }

unfoldable pub place_of : Raw → Place
place_of (bp_dir, s, rv) = (rv, path_join bp_dir s)

unfoldable pub is_reference : Text → Bool
is_reference source = starts_with source (codes ":")

-- The loop of `add_source` over the sources of a container, with `add_source` as `go`.
unfoldable pub add_children : (Text → Result (List Raw)) → List Text → Result (List Raw)
add_children go [] = ok []
add_children go (child ∷ children) = do xs ← go child; ys ← add_children go children; ok (xs ++ ys)

unfoldable pub add_container :
    (Text → Text → Text → Result (List Raw)) → Option (List Text × Text × Text) → Result (List Raw)
add_container go none = ok []
add_container go (some (child_srcs, child_dir, child_root)) =
    add_children (λ child. go child_dir child child_root) child_srcs

-- The third one, with the set `seen`.
unfoldable pub kept_files : List Text → List Place → List Raw → List Raw
kept_files excluded seen [] = []
kept_files excluded seen ((bp_dir, s, rv) ∷ files) =
    if contains s excluded
    then kept_files excluded seen files
    else if contains (place_of (bp_dir, s, rv)) seen
    then kept_files excluded seen files
    else (bp_dir, s, rv) ∷ kept_files excluded (place_of (bp_dir, s, rv) ∷ seen) files

unfoldable pub joined_file : Raw → Text
joined_file (bp_dir, s, rv) = join_path bp_dir s rv

-- The loop of `_absorbed_modules` with the set `seen` and the queue `stack`, a unit of fuel for each
-- of its rounds.
unfoldable pub absorb :
    (List Text → List Text → Result (List (Module Text)))
    → List Text
    → List Text
    → Option (Module Text)
    → Result (List (Module Text))
absorb go seen stack none = go seen stack
absorb go seen stack (some dep) = do
  deps ← go seen (stack ++ dep.whole_static_libs)
  ok (dep ∷ deps)

module _ (ev : Resolver) where
  -- `_expand_globs`: its loop, with the value of `root`.
  unfoldable pub expand_loop : Option Text → Text → List Text → List Text
  expand_loop root bp_dir [] = []
  expand_loop none bp_dir (s ∷ srcs) = s ∷ expand_loop none bp_dir srcs
  expand_loop (some root) bp_dir (s ∷ srcs) =
      let rest = expand_loop (some root) bp_dir srcs in
      if is_blank root
      then s ∷ rest
      else if has_char b'*' s
      then map portable_relpath (ev.glob root bp_dir s) ++ rest
      else s ∷ rest

  unfoldable pub expand_globs : List Text → Text → Text → List Text
  expand_globs srcs bp_dir root_var = expand_loop (find root_var ev.root_paths) bp_dir srcs

  -- `add_source`: what it appends to `raw`, with a unit of fuel for each call.
  unfoldable pub add_source : ℕ → List Text → Text → Text → Text → Result (List Raw)
  add_source zero active_refs bp_dir source root_var = err recursion_error
  add_source (suc f) active_refs bp_dir source root_var = elim (is_reference source) [
    | false ↦ ok ((bp_dir, source, root_var) ∷ [])
    | true ↦ elim (contains (drop_chars 1 source) active_refs) [
      | true ↦ ok []
      | false ↦ ev.source_container (drop_chars 1 source) >>= λ c.
          add_container (add_source f (drop_chars 1 source ∷ active_refs)) c
    ]
  ]

  -- The first loop of `_module_files`.
  unfoldable pub raw_sources : ℕ → Text → Text → List Text → Result (List Raw)
  raw_sources f bp_dir root_var srcs = add_children (λ s. add_source f [] bp_dir s root_var) srcs

  -- The second one, over `raw`.
  unfoldable pub expanded : List Raw → List Raw
  expanded [] = []
  expanded ((bp_dir, s, rv) ∷ raw) =
      (if has_char b'*' s
        then map (λ e. (bp_dir, e, rv)) (expand_globs (s ∷ []) bp_dir rv)
        else (bp_dir, s, rv) ∷ [])
      ++ expanded raw

  -- `_module_files`
  unfoldable pub module_files : ℕ → Module Text → Result (List Text)
  module_files f m = do
    raw ← raw_sources f m.bp_dir m.root_var m.srcs
    ok (map joined_file (kept_files m.exclude_srcs [] (expanded raw)))

  unfoldable pub absorbed_loop : ℕ → List Text → List Text → Result (List (Module Text))
  absorbed_loop f seen [] = ok []
  absorbed_loop zero seen (name ∷ stack) = err recursion_error
  absorbed_loop (suc f) seen (name ∷ stack) = elim (contains name seen) [
    | true ↦ absorbed_loop f seen stack
    | false ↦ caught (ev.resolved name) >>= λ dep. absorb (absorbed_loop f) (name ∷ seen) stack dep
  ]

  -- `_absorbed_modules`
  unfoldable pub absorbed_modules : ℕ → Module Text → Result (List (Module Text))
  absorbed_modules f m = absorbed_loop f [] m.whole_static_libs
