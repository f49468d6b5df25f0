-- ===== src/BuildArt/Commands/Audit.antt =====
-- tools/build_art.py: what a command that passes the audit of its tools may run.
use dalvikvm_multiplatform.Common.{
  has_char, ◌++◌, All-map, eq_self, ap, ◌<◌, Bool, true, false, ◌&&◌, Option, none, some, List, [],
  ◌∷◌, if_ind, ◌==◌, text_eq, text_beq, ltb, contains, length, inl, inr, ◌⊎◌, All, Text, codes,
  forbidden_tool, nested_forbidden_tool, build_frontend_error, Error, Ends, returned, raised,
  Ends-bind, Ends-map, ◌∙◌, ◌≡◌, refl, sym, subst, arith,
}
use dalvikvm_multiplatform.Closure.Walks.{true-false}
use dalvikvm_multiplatform.BuildArt.Commands.Names.{IsPath, tool_basename-IsPath}
use dalvikvm_multiplatform.BuildArt.Options.{refuse}
use dalvikvm_multiplatform.BuildArt.Commands.{
  command_invocations, tool_basename, behind_env, skip_settings, check_nested, check_env,
  audit_invocation, audit_all, audit_command_invocations, forbidden_command_tools, with_exe,
}

abbrev cmake_names : List Text
cmake_names = codes "cmake" ∷ codes "cmake.exe" ∷ []

module _ (lower : Text → Text) where
  abbrev is_forbidden : Text → Bool
  is_forbidden token = contains (tool_basename lower token) forbidden_command_tools

  -- The tool that `cmake -E env` runs, behind its settings, is not forbidden.
  abbrev EnvPermits : List Text → Type 0
  EnvPermits ts =
      (us ns : List Text) (n : Text)
      → behind_env ts ≡ some us
      → skip_settings us ≡ n ∷ ns
      → is_forbidden n ≡ false

  abbrev IsCmake : Text → List Text → Type 0
  IsCmake t ts = (contains (tool_basename lower t) cmake_names ≡ true) × (2 < length ts)

  -- The audit finds no forbidden tool in an invocation.
  abbrev Passes : List Text → Type 0
  Passes [] = Unit
  Passes (t ∷ ts) = (is_forbidden t ≡ false) × (IsCmake t ts → EnvPermits ts)

  -- The audit names a tool that is forbidden.
  abbrev pub NamesTool : Error → Type 0
  NamesTool x =
      (tool : Text) × (contains tool forbidden_command_tools ≡ true)
      × ((x ≡ build_frontend_error (forbidden_tool tool))
          ⊎ (x ≡ build_frontend_error (nested_forbidden_tool tool)))

  check_nested-Ends :
      (us : List Text)
      → Ends NamesTool
          (λ u. (n : Text) (ns : List Text) → us ≡ n ∷ ns → is_forbidden n ≡ false)
          (check_nested lower forbidden_command_tools us)
  unfolding check_nested refuse
  check_nested-Ends [] = returned (λ n ns e. cc)
  check_nested-Ends (t ∷ ts) =
      if_ind
        (Ends NamesTool
          (λ u. (n : Text) (ns : List Text) → t ∷ ts ≡ n ∷ ns → is_forbidden n ≡ false))
        (is_forbidden t) (λ bad. raised (tool_basename lower t, bad, inr refl))
        (λ good. returned (λ n ns e. subst (λ z. is_forbidden z ≡ false) (cc) good))

  check_env-Ends :
      (ts : List Text) (o : Option (List Text))
      → behind_env ts ≡ o
      → Ends NamesTool (λ u. EnvPermits ts) (check_env lower forbidden_command_tools o)
  unfolding check_env
  check_env-Ends ts none e = returned (λ us ns n e' h. cc)
  check_env-Ends ts (some vs) e =
      Ends-map (check_nested-Ends (skip_settings vs))
        (λ u good us ns n e' h. good n ns (subst (λ z. skip_settings z ≡ n ∷ ns) (cc) h)) (λ x q. q)

  cd-free : contains (codes "cd") forbidden_command_tools ≡ false
  unfolding forbidden_command_tools with_exe contains text_beq
  cd-free = refl

  cd-no-cmake : contains (codes "cd") cmake_names ≡ false
  unfolding contains text_beq
  cd-no-cmake = refl

  audit_invocation-Ends :
      (ts : List Text)
      → Ends NamesTool (λ u. Passes ts) (audit_invocation lower forbidden_command_tools ts)
  unfolding audit_invocation refuse
  audit_invocation-Ends [] = returned tt
  audit_invocation-Ends (t ∷ ts) =
      let tool = tool_basename lower t in
      let P = Ends NamesTool (λ (u : Unit {0}). Passes (t ∷ ts)) in
      if_ind P (tool == codes "cd")
        (λ h.
          let e = sym ((text_eq.beq_iff tool (codes "cd")).0 h) in
          returned (
            subst (λ z. contains z forbidden_command_tools ≡ false) e cd-free,
            λ (c, l).
                absurd
                  (true-false (sym c ∙ subst (λ z. contains z cmake_names ≡ false) e cd-no-cmake)),
          ))
        λ _.
          if_ind P (is_forbidden t) (λ bad. raised (tool, bad, inl refl))
            λ good.
              if_ind P (contains tool cmake_names && ltb 2 (length ts))
                (λ _.
                  Ends-map (check_env-Ends ts (behind_env ts) refl) (λ u env. (good, λ _. env))
                    (λ x q. q))
                (λ h. returned (good, λ (c, l). absurd (ground (arith, h, c, l))))

  audit_all-Ends :
      (invocations : List (List Text))
      → Ends NamesTool
          (λ u. All Passes invocations)
          (audit_all lower forbidden_command_tools invocations)
  unfolding audit_all
  audit_all-Ends [] = returned tt
  audit_all-Ends (ts ∷ rest) =
      Ends-bind (audit_invocation-Ends ts)
        λ u one. Ends-map (audit_all-Ends rest) (λ u' more. (one, more)) (λ x q. q)

  -- Of a token that is a path to a tool, the tool is not forbidden.
  abbrev pub Allows : Text → Type 0
  Allows token =
      (name : Text) → IsPath token name → contains (lower name) forbidden_command_tools ≡ false

  -- An invocation runs no tool that is forbidden. If it has more than three tokens and runs cmake, then
  -- neither is the token that stands behind its first `env` and the settings with an equals sign there.
  abbrev pub Permits : List Text → Type 0
  Permits [] = Unit
  Permits (t ∷ ts) =
      Allows t
      × ((cmake : Text)
          → IsPath t cmake
          → contains (lower cmake) cmake_names ≡ true
          → 2 < length ts
          → (options settings rest : List Text) (tool : Text)
          → ts ≡ options ++ (codes "env" ∷ (settings ++ (tool ∷ rest)))
          → contains (codes "env") options ≡ false
          → All (λ s. has_char b'=' s ≡ true) settings
          → has_char b'=' tool ≡ false
          → Allows tool)

  behind_env-first :
      (options us : List Text)
      → contains (codes "env") options ≡ false
      → behind_env (options ++ (codes "env" ∷ us)) ≡ some us
  unfolding behind_env contains
  behind_env-first [] us h = rw (eq_self (codes "env")) refl
  behind_env-first (o ∷ options) us h =
      let other : (o == codes "env") ≡ false = ground (arith, h) in
      rw other (behind_env-first options us (ground (arith, h)))

  skip_settings-All :
      (settings rest : List Text) (tool : Text)
      → All (λ s. has_char b'=' s ≡ true) settings
      → has_char b'=' tool ≡ false
      → skip_settings (settings ++ (tool ∷ rest)) ≡ tool ∷ rest
  unfolding skip_settings
  skip_settings-All [] rest tool all h = rw h refl
  skip_settings-All (s ∷ settings) rest tool all h =
      rw all.0 (skip_settings-All settings rest tool all.1 h)

  allowed : (token : Text) → is_forbidden token ≡ false → Allows token
  allowed token h name path =
      subst (λ z. contains z forbidden_command_tools ≡ false)
        (tool_basename-IsPath lower token name path) h

  permitted : (ts : List Text) → Passes ts → Permits ts
  permitted [] h = tt
  permitted (t ∷ ts) (first, env) = (
    allowed t first,
    λ cmake path named long options settings rest tool at bare set plain.
        let basename = sym (tool_basename-IsPath lower t cmake path) in
        let through = env (subst (λ z. contains z cmake_names ≡ true) basename named, long) in
        allowed tool (
          through (settings ++ (tool ∷ rest)) rest tool
            (ap behind_env at ∙ behind_env-first options (settings ++ (tool ∷ rest)) bare)
            (skip_settings-All settings rest tool set plain)),
  )

  -- A command passes `_audit_command_invocations`, or the audit names a forbidden tool. If it passes,
  -- then none of its invocations begins with a path to a forbidden tool, with or without directories and
  -- in any case of letters; nor does, in an invocation of cmake of more than three tokens, such a path
  -- stand behind the first `env` and the settings with an equals sign that follow that.
  pub audit_command_invocations-Permits :
      (command : Text)
      → Ends NamesTool
          (λ u. All Permits (command_invocations command))
          (audit_command_invocations lower forbidden_command_tools command)
  unfolding audit_command_invocations
  audit_command_invocations-Permits command =
      Ends-map (audit_all-Ends (command_invocations command))
        (λ u h. All-map Passes Permits permitted (command_invocations command) h) (λ x q. q)
