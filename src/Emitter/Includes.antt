-- ===== src/Emitter/Includes.antt =====
-- tools/bp2cmake/bp2cmake/emitter.py: the paths of the output, and the include directories that a module
-- exports, with the cache of `_exported_includes`.
pub mod Cache
use dalvikvm_multiplatform.Common.{
  ℕ, zero, suc, Bool, true, false, Option, none, some, List, [], ◌∷◌, ◌++◌, map, if◌then◌else◌,
  text_eq, contains, dedupe, Text, codes, Assoc, find, store, is_blank, path_join, normpath,
  recursion_error, Result, ok, err, ◌>>=◌, replace_char,
}
use dalvikvm_multiplatform.Model.{Module}
use dalvikvm_multiplatform.Evaluator.Modules.{portable_relpath}
use dalvikvm_multiplatform.Closure.{caught}
use dalvikvm_multiplatform.Emitter.Resolver.{Resolver}

-- `f"${{{root_var}}}"`
unfoldable pub root_ref : Text → Text
root_ref root_var = codes "${" ++ (root_var ++ codes "}")

-- `_join`
unfoldable pub join_path : Text → Text → Text → Text
join_path bp_dir rel root_var =
    let dir = portable_relpath bp_dir in
    let rel' = portable_relpath rel in
    let p = if is_blank dir then rel' else normpath (path_join dir rel') in
    root_ref root_var ++ (b'/' ∷ p)

-- `_exported_cache` and the set `_seen`.
pub record Memo : Type 0 where
  pub cache : Assoc (List Text)
  pub seen : List Text

-- The loop over the header libraries, with `_exported_includes` as `go`.
unfoldable pub exported_all :
    (Text → Memo → Result (List Text × Memo)) → List Text → Memo → Result (List Text × Memo)
exported_all go [] memo = ok ([], memo)
exported_all go (hl ∷ hls) memo = do
  (dirs, memo₁) ← go hl memo
  (rest, memo₂) ← exported_all go hls memo₁
  ok (dirs ++ rest, memo₂)

-- The directories that a module exports itself.
unfoldable pub own_exports : Module Text → List Text
own_exports dep = map (λ d. join_path dep.bp_dir d dep.root_var) dep.export_include_dirs

module _ (ev : Resolver) where
  -- `_exported_includes` from where the name is resolved.
  unfoldable pub exported_module :
      (Text → Memo → Result (List Text × Memo))
      → Text
      → Option (Module Text)
      → Memo
      → Result (List Text × Memo)
  exported_module go name none memo = ok ([], memo)
  exported_module go name (some dep) memo = do
    (dirs, memo₁) ← exported_all go dep.header_libs memo
    let out = dedupe (own_exports dep ++ dirs)
    ok (out, record memo₁ { cache = store name out memo₁.cache })

  -- `_exported_includes` with its set `_seen`, and a unit of fuel for each call.
  unfoldable pub exported_seen : ℕ → Text → Memo → Result (List Text × Memo)
  exported_seen zero name memo = err recursion_error
  exported_seen (suc f) name memo = elim (find name memo.cache) [
    | some dirs ↦ ok (dirs, memo)
    | none ↦ elim (contains name memo.seen) [
      | true ↦ ok ([], memo)
      | false ↦ do
        dep ← caught (ev.resolved name)
        exported_module (exported_seen f) name dep (record memo { seen = name ∷ memo.seen })
    ]
  ]

  -- `_exported_includes(name)`: the cache before and after.
  unfoldable pub exported_includes :
      ℕ → Text → Assoc (List Text) → Result (List Text × Assoc (List Text))
  exported_includes f name cache = do
    (dirs, memo) ← exported_seen f name (record { cache = cache; seen = [] })
    ok (dirs, memo.cache)

  -- The loops of `_include_dirs` over dependencies.
  unfoldable pub includes_of :
      ℕ → List Text → Assoc (List Text) → Result (List Text × Assoc (List Text))
  includes_of f [] cache = ok ([], cache)
  includes_of f (dep ∷ deps) cache = do
    (dirs, cache₁) ← exported_includes f dep cache
    (rest, cache₂) ← includes_of f deps cache₁
    ok (dirs ++ rest, cache₂)
