-- ===== src/Lib.antt =====
-- dalvikvm-multiplatform: tools/bp2cmake, the converter from Android's Blueprint files to CMake, the policy
-- of the port that it takes, the decisions of the build frontend, and the checks of compiled images.
--
-- The program. `bp2cmake` reads Blueprint files (lexer.py, parser.py, ast.py), evaluates them for one
-- fixed configuration (config.py, evaluator.py) to modules (model.py), edits the modules by the policy
-- of the port (overlay.py), walks from root modules to all that must be built (closure.py) and emits
-- CMake. Which targets there are is a registry (target.py). aconfig.py writes the code of feature
-- flags; local_config.py reads the bindings of one machine. Files named without a path are in
-- tools/bp2cmake/bp2cmake. The policy of the port is overlay/art_port_policy.py; tools/build_art.py is the
-- frontend that generates, configures, audits and builds; tools/run_dex2oat_no_image.py checks the
-- files that dex2oat writes.
--
-- The files.
--   Common      shared types, equality tests, membership, Python's texts, dicts and exceptions
--   Lexer       lexer.py: `tokenize` as `scan_all`, one round of its loop as `scan`; the variable `i` is
--               the text left, `line` and `col` are a `Place`
--   Ast         ast.py
--   Parser      parser.py: a method of `Parser` is a function from the tokens left; State and Selects
--               hold the token operations and the parts of `select`
--   Values      the values of an expression, `_concat` and `_deep_merge` of evaluator.py
--   Evaluator   evaluator.py: Expressions (`_eval`, `_eval_select`), Selects (`_collapse_selects`,
--               `_active_branches`), Mapping (`_to_module`), Modules (`add_file`, `resolve`,
--               `_resolve_propmap`), Generated (`resolve_gensrcs`, `tool_script`); the other children hold
--               proofs
--   Config      config.py
--   Model       model.py
--   Target      target.py, with its tables in Target/Tables and `to_cmake` in Target/Cmake
--   Overlay     overlay.py
--   Closure     closure.py: `state` and `order` are a `Walk`, which `visit` takes and returns; Reach
--               says without a walk which modules a closure is to hold
--   Emitter     emitter.py: Resolver is what it asks of the evaluator and of the file system; Includes
--               (`_join`, `_exported_includes` with `_exported_cache` and `_seen` as a `Memo`), Files
--               (`_module_files`, `_expand_globs`, `_absorbed_modules`), Sources (`_kind`, `_sources`,
--               `_include_dirs`, `_link_libs`, `_absorbed_source_props`), Generated
--               (`_generated_sources`), Output (`emit_module`, `module_manifest`, `_quote_define`)
--   LocalConfig local_config.py: a path is its root and parts, `validate_managed_path` walks it
--   PortPolicy  overlay/art_port_policy.py: the tables in Shared, Linux and Windows, their fields in Fields
--   AotIdentity tools/windows_aot_identity.py
--   BuildArt    tools/build_art.py: Options (what options and the host decide), Commands (the audit of a
--               command's tools and operators), Links (Ninja's link outputs, `_audit_link_command`)
--   Probe       tools/run_dex2oat_no_image.py: Unwind (`_validate_windows_x64_unwind_info`), Vdex
--               (`validate_vdex`), Elf (`validate_oat_elf`, `_read_elf_sections`), Boot
--               (`_read_windows_boot_oat_layout`, `_validate_dynamic_symbol`, `validate_windows_oat_unwind`,
--               `validate_windows_oat_cfg`) with the payloads in Windows, on the bytes of the file, which
--               Bytes reads; of the dicts that they return, the counts
--   Aconfig     aconfig.py: the C++ header and the Java class of a package of flags
--   Tests       concrete inputs
--
-- State and errors. A function that raises returns a `Result`, whose `Error` has the exception and
-- what its message names; what an object held before an exception is not kept. A method that changes
-- `self` takes the record and returns it. Dicts are lists of items in the order of insertion.
--
-- Fuel. Loops over lists are structural. Where Python recurses on what it computes, the function takes
-- fuel, and `recursion_error` is the end of it, as RecursionError is that of Python's stack: `scan_all`
-- has one unit for each character and one more, `parse_operand` one for each token and one more,
-- `collapse` one for each level of the property map and one more, `read_slots` one for each slot.
-- `resolve_propmap` and `visit` take any fuel, and the theorems say how much is enough; so do the functions of Emitter.
--
-- Parameters. The Unicode classes of characters (`CharClass`), `str.upper` and `str.lower`, `repr`, `os.path.relpath` in
-- `add_file`, and the resolution of a name in the closure, which `resolve_texts` fills; the file system
-- under a glob (`Resolver`) and under local_config.py (`Host`), with the environment and tomllib.
-- Regular expressions of build_art.py are written out as scans.
--
-- Bounds of the model. A module named by a number, which Python stores under that number, is the error
-- `unsupported_name`. The layers after the evaluator take modules whose lists hold texts only
-- (`with_texts`). Messages are kept as data, not as texts.
--
-- Not modelled. `add_path` of evaluator.py, which reads a file for `add_file`; `to_dict` of target.py,
-- which gives the fields as they are; the loading of policy files, which runs Python code; codegen.py;
-- in aconfig.py the parser, which is made of regular expressions, and
-- file output; the command line; in build_art.py what runs programs or reads and writes files; in
-- run_dex2oat_no_image.py the corruption corpora and what runs programs; the other build
-- drivers and checkers in tools, and the tests.
pub mod Common
pub mod Lexer
pub mod Ast
pub mod Parser
pub mod Values
pub mod Target
pub mod Config
pub mod Evaluator
pub mod Model
pub mod Overlay
pub mod Closure
pub mod Aconfig
pub mod Emitter
pub mod LocalConfig
pub mod PortPolicy
pub mod AotIdentity
pub mod BuildArt
pub mod Probe
pub mod Tests
