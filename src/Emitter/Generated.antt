-- ===== src/Emitter/Generated.antt =====
-- tools/bp2cmake/bp2cmake/emitter.py: the custom commands of generated sources.
use dalvikvm_multiplatform.Common.{
  ℕ, Option, none, some, List, [], ◌∷◌, ◌++◌, map, if◌then◌else◌, contains, text_eq, Text, codes,
  joined, is_blank, Result, ok, ◌>>=◌,
}
use dalvikvm_multiplatform.Model.{Module}
use dalvikvm_multiplatform.Overlay.{Overlay}
use dalvikvm_multiplatform.Closure.{caught}
use dalvikvm_multiplatform.Emitter.Resolver.{Resolver, GenTexts}
use dalvikvm_multiplatform.Emitter.Includes.{join_path, root_ref}
use dalvikvm_multiplatform.Emitter.Sources.{absorbed_by, gensrc_ref, bp2cmake_ref}

-- What a call appends to `gen_paths` and `blocks`.
abbrev pub Commands : Type 0
Commands = List Text × List Text

abbrev no_commands : Commands
no_commands = ([], [])

abbrev both : Commands → Commands → Commands
both (paths, blocks) (paths', blocks') = (paths ++ paths', blocks ++ blocks')

unfoldable pub in_dir : Text → Text → Text
in_dir bp_dir src = if is_blank bp_dir then src else bp_dir ++ (codes "/" ++ src)

unfoldable pub out_path : GenTexts → Text → Text
out_path gs src = joined (
    gensrc_ref
    ∷ codes "/"
    ∷ in_dir gs.bp_dir (joined (src ∷ codes "." ∷ gs.output_extension ∷ []))
    ∷ [])

unfoldable pub custom_command : Text → GenTexts → Text → Text → Text
custom_command gname gs tool_path src = joined (
    codes "add_custom_command(\n    OUTPUT "
    ∷ out_path gs src
    ∷ codes "\n    COMMAND ${Python3_EXECUTABLE} "
    ∷ bp2cmake_ref
    ∷ codes "/bp2cmake/capture_output.py\n            --output "
    ∷ out_path gs src
    ∷ codes " --\n            ${Python3_EXECUTABLE} "
    ∷ tool_path
    ∷ codes " "
    ∷ gs.bp_dir
    ∷ codes " "
    ∷ in_dir gs.bp_dir src
    ∷ codes "\n    DEPENDS "
    ∷ tool_path
    ∷ codes " "
    ∷ root_ref gs.root_var
    ∷ codes "/"
    ∷ in_dir gs.bp_dir src
    ∷ codes "\n            "
    ∷ bp2cmake_ref
    ∷ codes "/bp2cmake/capture_output.py\n    WORKING_DIRECTORY "
    ∷ root_ref gs.root_var
    ∷ codes "\n    COMMENT \"gensrcs "
    ∷ gname
    ∷ codes ": "
    ∷ src
    ∷ codes "\"\n    VERBATIM)"
    ∷ [])

module _ (ev : Resolver) where
  unfoldable pub with_tool : Text → GenTexts → Option (Text × Text × Text) → Commands
  with_tool gname gs none = (
    [],
    joined (
          codes "# WARNING: gensrcs "
          ∷ gname
          ∷ codes ": tool "
          ∷ ev.repr gs.tool
          ∷ codes " not resolved"
          ∷ [])
        ∷ [],
  )
  with_tool gname gs (some (tool_dir, script, tool_root)) = (
    map (out_path gs) gs.srcs,
    map (custom_command gname gs (join_path tool_dir script tool_root)) gs.srcs,
  )

  unfoldable pub emit_found : Text → Option GenTexts → Result Commands
  emit_found gname none = ok no_commands
  emit_found gname (some gs) = ev.tool gs.tool >>= λ t. ok (with_tool gname gs t)

  -- `_emit_one_gensrcs`
  unfoldable pub emit_one_gensrcs : Text → Result Commands
  emit_one_gensrcs gname = caught (ev.gensrcs gname) >>= λ gs. emit_found gname gs

  -- The loops of `_generated_sources` over the names, with the set `seen_gensrcs`.
  unfoldable pub emit_gensrcs : List Text → List Text → Result Commands
  emit_gensrcs seen [] = ok no_commands
  emit_gensrcs seen (gname ∷ gnames) = if contains gname seen then emit_gensrcs seen gnames else (do
    one ← emit_one_gensrcs gname
    rest ← emit_gensrcs (gname ∷ seen) gnames
    ok (both one rest))

  unfoldable pub all_generated : List (Module Text) → List Text
  all_generated [] = []
  all_generated (m ∷ ms) = m.generated_sources ++ all_generated ms

  -- `_generated_sources`
  unfoldable pub generated_sources : Overlay → ℕ → Module Text → Result Commands
  generated_sources ov f m = do
    deps ← absorbed_by ev ov f m
    emit_gensrcs [] (all_generated (m ∷ deps))
