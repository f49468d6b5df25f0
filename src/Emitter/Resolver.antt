-- ===== src/Emitter/Resolver.antt =====
-- What tools/bp2cmake/bp2cmake/emitter.py asks of its evaluator and of the file system, and the
-- evaluator as such a thing.
use dalvikvm_multiplatform.Common.{
  ℕ, Option, none, some, List, Text, Assoc, Result, ok, ◌>>=◌, map_result,
}
use dalvikvm_multiplatform.Values.{Value}
use dalvikvm_multiplatform.Config.{Config}
use dalvikvm_multiplatform.Model.{Module, as_text}
use dalvikvm_multiplatform.Evaluator.Modules.{Evaluator, resolve_texts, resolve_source_container}
use dalvikvm_multiplatform.Evaluator.Generated.{GenSrcs, resolve_gensrcs, tool_script}

-- GenSrcs of model.py whose items are all texts.
pub record GenTexts : Type 0 where
  pub bp_dir : Text
  pub tool : Text
  pub srcs : List Text
  pub output_extension : Text
  pub root_var : Text

-- `self.ev` and `self.root_paths`; `glob` for `_glob.glob`: the sorted matches of a pattern in a directory
-- of a root, each relative to that directory; and Python's `repr` of a text.
pub record Resolver : Type 0 where
  pub resolved : Text → Result (Module Text)
  pub source_container : Text → Result (Option (List Text × Text × Text))
  pub gensrcs : Text → Result GenTexts
  pub tool : Text → Result (Option (Text × Text × Text))
  pub root_paths : Assoc Text
  pub glob : (root bp_dir pattern : Text) → List Text
  pub repr : Text → Text

gen_texts : GenSrcs → Result GenTexts
gen_texts g = do
  tool ← as_text g.tool
  srcs ← map_result as_text g.srcs
  ext ← as_text g.output_extension
  ok (record {
    bp_dir = g.bp_dir;
    tool = tool;
    srcs = srcs;
    output_extension = ext;
    root_var = g.root_var;
  })

script_text : Option (Text × Value × Text) → Result (Option (Text × Text × Text))
script_text none = ok none
script_text (some (dir, script, root)) = do s ← as_text script; ok (some (dir, s, root))

-- The evaluator, with the fuel of its recursion over defaults.
unfoldable pub resolver_of :
    Config
    → Evaluator
    → ℕ
    → Assoc Text
    → (Text → Text → Text → List Text)
    → (Text → Text)
    → Resolver
unfolding gen_texts script_text
resolver_of config ev f roots glob repr = record {
  resolved = resolve_texts config ev f;
  source_container = resolve_source_container config ev f;
  gensrcs = λ name. resolve_gensrcs config ev name >>= λ g. gen_texts g;
  tool = λ name. tool_script config ev name >>= λ t. script_text t;
  root_paths = roots;
  glob = glob;
  repr = repr;
}
