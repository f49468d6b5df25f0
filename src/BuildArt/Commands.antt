-- ===== src/BuildArt/Commands.antt =====
-- tools/build_art.py: how the audit of generated commands reads a command. The patterns of `re` are
-- scans of the text here, with a count of characters that a match took; `lower` is `str.lower`.
pub mod Names
pub mod Audit
use dalvikvm_multiplatform.Common.{
  ℕ, zero, suc, ◌+◌, ◌-◌, Bool, true, false, not, ◌&&◌, ◌||◌, Option, none, some, List, [], ◌∷◌,
  ◌++◌, if◌then◌else◌, ◌==◌, text_eq, nat_eq, ltb, contains, map, length, starts_with, has_char,
  ends_with, replace_char, split_on, to_front, last_part, is_white, rstrip, is_blank, Text, codes,
  BuildFault, command_substitution, conditional_chaining, redirection, pipe, statement_chaining,
  many_payloads, forbidden_tool, nested_forbidden_tool, Error, Result, ok, err, ◌>>=◌, ◌>>◌,
}
use dalvikvm_multiplatform.Overlay.{drop_chars, has_sub}
use dalvikvm_multiplatform.BuildArt.Options.{refuse}

-- The characters before the first that is white space.
unfoldable pub bare_run : Text → Text
bare_run [] = []
bare_run (c ∷ s) = if is_white c then [] else c ∷ bare_run s

-- The text up to a closing quote on the same line.
unfoldable pub with_front : ℕ → Option Text → Option Text
with_front c none = none
with_front c (some s) = some (c ∷ s)

unfoldable pub quoted_run : Text → Option Text
quoted_run [] = none
quoted_run (c ∷ s) =
    let rest = with_front c (quoted_run s) in
    if c == b'"' then some [] else if c == b'\r' || c == b'\n' then none else rest

-- The token that begins with the character, and how many more characters it takes.
unfoldable pub token_at : ℕ → Text → Option Text → Text × ℕ
token_at c s (some quoted) = (quoted, suc (length quoted))
token_at c s none = (c ∷ bare_run s, length (bare_run s))

unfoldable pub quoted_at : ℕ → Text → Option Text
quoted_at c s = if c == b'"' then quoted_run s else none

-- `re.findall` of `_command_tokens`, where `skip` characters belong to the token before.
unfoldable pub scan_tokens : ℕ → Text → List Text
scan_tokens skip [] = []
scan_tokens (suc skip) (c ∷ s) = scan_tokens skip s
scan_tokens zero (c ∷ s) = elim (is_white c) [
  | true ↦ scan_tokens zero s
  | false ↦ (token_at c s (quoted_at c s)).0 ∷ scan_tokens (token_at c s (quoted_at c s)).1 s
]

-- `_command_tokens`
unfoldable pub command_tokens : Text → List Text
command_tokens command = scan_tokens zero command

-- `s.lstrip(c)` and `s.rstrip(c)` of one character.
unfoldable pub lstrip_char : ℕ → Text → Text
lstrip_char c [] = []
lstrip_char c (d ∷ s) = if d == c then lstrip_char c s else d ∷ s

unfoldable pub kept_char : ℕ → ℕ → Text → Text
kept_char c d [] = if d == c then [] else d ∷ []
kept_char c d (e ∷ s) = d ∷ e ∷ s

unfoldable pub rstrip_char : ℕ → Text → Text
rstrip_char c [] = []
rstrip_char c (d ∷ s) = kept_char c d (rstrip_char c s)

unfoldable pub lstrip : Text → Text
lstrip [] = []
lstrip (c ∷ s) = if is_white c then lstrip s else c ∷ s

-- The length of the white space in front.
unfoldable pub white_run : Text → ℕ
white_run [] = zero
white_run (c ∷ s) = if is_white c then suc (white_run s) else zero

-- The length of a match of `\s+&&\s+|\s+\|\|\s+` in front.
unfoldable pub separator_from : ℕ → ℕ → Option ℕ
separator_from zero after = none
separator_from (suc before) zero = none
separator_from (suc before) (suc after) = some (suc before + 2 + suc after)

unfoldable pub separator : Text → Option ℕ
separator s =
    let rest = drop_chars (white_run s) s in
    if starts_with rest (codes "&&") || starts_with rest (codes "||")
    then separator_from (white_run s) (white_run (drop_chars 2 rest))
    else none

-- `re.split` of `_command_invocations`.
unfoldable pub segments : ℕ → Text → List Text
segments skip [] = [] ∷ []
segments (suc skip) (c ∷ s) = segments skip s
segments zero (c ∷ s) = elim (separator (c ∷ s)) [
  | none ↦ to_front c (segments zero s)
  | some n ↦ [] ∷ segments (n - 1) s
]

-- `raw_segment.strip().lstrip(":").strip().lstrip('"')`
unfoldable pub payload : Text → Text
payload s = lstrip_char b'"' (rstrip (lstrip (lstrip_char b':' (rstrip (lstrip s)))))

unfoldable pub tokens_of_all : List Text → List (List Text)
tokens_of_all [] = []
tokens_of_all (s ∷ ss) = elim (command_tokens (payload s)) [
  | [] ↦ tokens_of_all ss
  | t ∷ ts ↦ (t ∷ ts) ∷ tokens_of_all ss
]

-- `_command_invocations`
unfoldable pub command_invocations : Text → List (List Text)
command_invocations command = tokens_of_all (segments zero command)

-- The first place behind the white space in front, or the beginning, where `found` is true.
unfoldable pub found_after_white : (Text → Bool) → Bool → Text → Bool
found_after_white found start [] = false
found_after_white found start (c ∷ s) =
    (start && found (c ∷ s)) || found_after_white found (is_white c) s

-- `[<>](?:\s|[^=])`
unfoldable pub redirects : Text → Bool
redirects (c ∷ d ∷ s) = (c == b'<' || c == b'>') && (is_white d || not (d == b'='))
redirects _ = false

-- The character, and white space or the end behind it.
unfoldable pub stands_alone : ℕ → Text → Bool
stands_alone c [] = false
stands_alone c (d ∷ []) = d == c
stands_alone c (d ∷ e ∷ s) = d == c && is_white e

-- `command.count(" && ")`, where `skip` characters belong to the occurrence before.
unfoldable pub count_joins : ℕ → Text → ℕ
count_joins skip [] = zero
count_joins (suc skip) (c ∷ s) = count_joins skip s
count_joins zero (c ∷ s) = elim (starts_with (c ∷ s) (codes " && ")) [
  | true ↦ suc (count_joins 3 s)
  | false ↦ count_joins zero s
]

-- `--target=` and its triple in one token, or in two.
unfoldable pub target_follows : Text → List Text → Bool
target_follows triple [] = false
target_follows triple (t ∷ []) = false
target_follows triple (t ∷ u ∷ ts) =
    ((t == codes "-target" || t == codes "--target") && u == triple)
    || target_follows triple (u ∷ ts)

-- `_command_has_target`
unfoldable pub command_has_target : List Text → Text → Bool
command_has_target tokens triple =
    contains (codes "--target=" ++ triple) tokens || target_follows triple tokens

-- The tokens behind the first `env`.
unfoldable pub behind_env : List Text → Option (List Text)
behind_env [] = none
behind_env (t ∷ ts) = if t == codes "env" then some ts else behind_env ts

unfoldable pub skip_settings : List Text → List Text
skip_settings [] = []
skip_settings (t ∷ ts) = if has_char b'=' t then skip_settings ts else t ∷ ts

module _ (lower : Text → Text) where
  -- `_tool_basename`
  unfoldable pub tool_basename : Text → Text
  tool_basename token = lower (
      last_part (
        split_on b'/' (replace_char b'\\' (b'/' ∷ []) (rstrip_char b'"' (lstrip_char b'"' token)))))

  -- `_audit_shell_operators`
  unfoldable pub audit_shell_operators : Text → Result (Unit {0})
  audit_shell_operators command =
      if has_sub (codes "$(") command || has_char b'`' command
      then refuse command_substitution
      else if has_sub (codes "||") command
      then refuse conditional_chaining
      else if found_after_white redirects true command
      then refuse redirection
      else if found_after_white (stands_alone b'|') true command
      then refuse pipe
      else if found_after_white (stands_alone b';') true command
      then refuse statement_chaining
      else if (starts_with command (codes "cd ")
            || has_sub (codes "cmd.exe /c \"cd /d ") (lower command))
          && not (count_joins zero command == 1)
      then refuse many_payloads
      else ok tt

module _ (lower : Text → Text) (forbidden : List Text) where
  -- The tool that `cmake -E env` is to run.
  unfoldable pub check_nested : List Text → Result (Unit {0})
  check_nested [] = ok tt
  check_nested (t ∷ ts) =
      if contains (tool_basename lower t) forbidden
      then refuse (nested_forbidden_tool (tool_basename lower t))
      else ok tt

  unfoldable pub check_env : Option (List Text) → Result (Unit {0})
  check_env none = ok tt
  check_env (some ts) = check_nested (skip_settings ts)

  -- The body of the loop of `_audit_command_invocations`. `forbidden` is _FORBIDDEN_COMMAND_TOOLS.
  unfoldable pub audit_invocation : List Text → Result (Unit {0})
  audit_invocation [] = ok tt
  audit_invocation (t ∷ ts) =
      if tool_basename lower t == codes "cd"
      then ok tt
      else if contains (tool_basename lower t) forbidden
      then refuse (forbidden_tool (tool_basename lower t))
      else if contains (tool_basename lower t) (codes "cmake" ∷ codes "cmake.exe" ∷ [])
          && ltb 2 (length ts)
      then check_env (behind_env ts)
      else ok tt

  unfoldable pub audit_all : List (List Text) → Result (Unit {0})
  audit_all [] = ok tt
  audit_all (ts ∷ rest) = do audit_invocation ts; audit_all rest

  -- `_audit_command_invocations`
  unfoldable pub audit_command_invocations : Text → Result (Unit {0})
  audit_command_invocations command = audit_all (command_invocations command)

-- _FORBIDDEN_COMMAND_TOOLS
abbrev pub forbidden_bases : List Text
forbidden_bases =
    codes "ash"
    ∷ codes "awk"
    ∷ codes "bash"
    ∷ codes "clang-cl"
    ∷ codes "clang-mingw"
    ∷ codes "cl"
    ∷ codes "cp"
    ∷ codes "cygwin"
    ∷ codes "dash"
    ∷ codes "find"
    ∷ codes "g++"
    ∷ codes "gcc"
    ∷ codes "gmake"
    ∷ codes "grep"
    ∷ codes "ld"
    ∷ codes "ld.lld"
    ∷ codes "lld-link"
    ∷ codes "make"
    ∷ codes "mingw32-make"
    ∷ codes "msbuild"
    ∷ codes "nmake"
    ∷ codes "powershell"
    ∷ codes "pwsh"
    ∷ codes "readlink"
    ∷ codes "rm"
    ∷ codes "sed"
    ∷ codes "sh"
    ∷ codes "stat"
    ∷ codes "strings"
    ∷ codes "timeout"
    ∷ codes "wsl"
    ∷ codes "zsh"
    ∷ []

-- Each of these tools, with and without `.exe`.
unfoldable pub with_exe : List Text → List Text
with_exe [] = []
with_exe (t ∷ ts) = t ∷ (t ++ codes ".exe") ∷ with_exe ts

unfoldable pub forbidden_command_tools : List Text
forbidden_command_tools = with_exe forbidden_bases
