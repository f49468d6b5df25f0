-- ===== src/Common/Outcome.antt =====
-- Python's exceptions as values. A run that would exhaust Python's stack is `recursion_error`.
use Prim.Native.Nat.{ℕ}
use mathlib.Core.Path.{◌≡◌, refl, subst}
use mathlib.Core.List.{List, [], ◌∷◌}
use dalvikvm_multiplatform.Common.Texts.{Text}

-- What a LexError says.
pub data LexFault : Type 0 where
  unterminated_comment unterminated_string : LexFault
  unexpected_character : ℕ → LexFault

-- What was expected where a ParseError is raised.
pub data ParseFault : Type 0 where
  expected_token expected_statement expected_assignment expected_value expected_pattern : ParseFault

-- What an EvalError says.
pub data EvalFault : Type 0 where
  undefined_variable unknown_module unknown_gensrcs unknown_defaults : Text → EvalFault
  unknown_defaults_value cannot_concatenate : EvalFault

-- What a LocalConfigError says.
pub data LocalFault : Type 0 where
  expansion_syntax relative_path absent not_regular cannot_read not_a_table : LocalFault
  not_a_path not_executable cannot_inspect child_below_missing link_component : LocalFault
  unsupported_keys : List Text → LocalFault
  bad_target : Text → LocalFault

-- What a BuildFrontendError says.
pub data BuildFault : Type 0 where
  not_positive too_parallel wrong_variant test_only_variant bad_stage : BuildFault
  command_substitution conditional_chaining redirection pipe statement_chaining many_payloads :
      BuildFault
  forbidden_tool nested_forbidden_tool : Text → BuildFault
  unknown_language : Text → BuildFault
  wrong_driver no_target_triple no_lld no_shared no_pie : BuildFault
  missing_flags : List Text → BuildFault
  bad_graph : BuildFault

pub data Error : Type 0 where
  lex_error : LexFault → (line col : ℕ) → Error
  parse_error : ParseFault → (line col : ℕ) → Error
  eval_error : EvalFault → Error
  local_config_error : LocalFault → Error
  build_frontend_error : BuildFault → Error
  -- WindowsAotIdentityError and its `field`.
  identity_error : Text → Error
  -- Dex2OatProbeError, struct.error and ZeroDivisionError.
  probe_error struct_error zero_division_error : Error
  -- PermissionError and another OSError.
  os_error : Error
  -- TypeError, ValueError, IndexError, KeyError and RecursionError. A module name that is a number is stored
  -- under that number in the program, which the model does not follow: `unsupported_name`.
  type_error value_error index_error key_error recursion_error unsupported_name : Error

pub data Result {ℓ} (V : Type ℓ) : Type ℓ where
  -- An exception that is under way.
  err : Error → Result V
  -- The value that a call returned.
  ok : V → Result V

infixl 5 ◌>>◌ ◌>>=◌
-- A call, and what runs with its value.
abbrev pub ◌>>=◌ {κ ℓ} : {V : Type κ} {W : Type ℓ} → Result V → (V → Result W) → Result W
err x >>= next = err x
ok v >>= next = next v

-- A call whose value is dropped.
abbrev pub ◌>>◌ {κ ℓ} : {V : Type κ} {W : Type ℓ} → Result V → Result W → Result W
call >> next = call >>= λ v. next

-- `[f(x) for x in xs]` with a call that can raise.
unfoldable pub map_result {ℓ κ} :
    {A : Type ℓ} {B : Type κ} → (A → Result B) → List A → Result (List B)
map_result f [] = ok []
map_result f (x ∷ xs) = do y ← f x; ys ← map_result f xs; ok (y ∷ ys)

pub >>=-eq-ok {κ ℓ} :
    {V : Type κ} {W : Type ℓ} (r : Result V) (next : V → Result W) {w : W}
    → (r >>= next) ≡ ok w
    → (v : V) × (r ≡ ok v) × (next v ≡ ok w)
>>=-eq-ok (err x) next e = cc
>>=-eq-ok (ok v) next e = (v, refl, e)

pub ok-injective {ℓ} : {A : Type ℓ} {a b : A} → ok a ≡ ok b → a ≡ b
ok-injective e = cc

pub >>=-assoc {ℓ κ μ} :
    {A : Type ℓ} {B : Type κ} {C : Type μ} (m : Result A) (f : A → Result B) (g : B → Result C)
    → (m >>= f >>= g) ≡ (m >>= λ a. f a >>= g)
>>=-assoc (ok a) f g = refl
>>=-assoc (err e) f g = refl

-- The run returns a value of which `P` holds, or raises an error of which `Q` holds.
pub data Ends {ℓ κ μ} {A : Type ℓ} (Q : Error → Type μ) (P : A → Type κ)
    : Result A → Type (ℓ ⊔ κ ⊔ μ) where
  returned : {a : A} → P a → Ends Q P (ok a)
  raised : {e : Error} → Q e → Ends Q P (err e)

module _ {ℓ κ μ} {A : Type ℓ} {P : A → Type κ} {Q : Error → Type μ} where
  pub Ends-ok : {r : Result A} {a : A} → Ends Q P r → r ≡ ok a → P a
  Ends-ok (returned h) e = subst P (cc) h
  Ends-ok (raised h) e = cc

  pub Ends-err : {r : Result A} {x : Error} → Ends Q P r → r ≡ err x → Q x
  Ends-err (returned h) e = cc
  Ends-err (raised h) e = subst Q (cc) h

  pub Ends-map {κ' μ'} :
      {P' : A → Type κ'} {Q' : Error → Type μ'} {r : Result A}
      → Ends Q P r
      → ((a : A) → P a → P' a)
      → ((e : Error) → Q e → Q' e)
      → Ends Q' P' r
  Ends-map (returned h) f g = returned (f _ h)
  Ends-map (raised h) f g = raised (g _ h)

  pub Ends-bind {ℓ' κ'} :
      {B : Type ℓ'} {P' : B → Type κ'} {r : Result A} {f : A → Result B}
      → Ends Q P r
      → ((a : A) → P a → Ends Q P' (f a))
      → Ends Q P' (r >>= f)
  Ends-bind (returned {a} h) k = k a h
  Ends-bind (raised h) k = raised h

  -- The continuation may use the value that the run returned.
  pub Ends-bind_eq {ℓ' κ'} :
      {B : Type ℓ'} {P' : B → Type κ'} (r : Result A) {f : A → Result B}
      → Ends Q P r
      → ((a : A) → r ≡ ok a → Ends Q P' (f a))
      → Ends Q P' (r >>= f)
  Ends-bind_eq (ok a) h k = k a refl
  Ends-bind_eq (err e) h k = raised (Ends-err h refl)

  -- And what is known of that value besides.
  pub Ends-bind_both {ℓ' κ'} :
      {B : Type ℓ'} {P' : B → Type κ'} (r : Result A) {f : A → Result B}
      → Ends Q P r
      → ((a : A) → r ≡ ok a → P a → Ends Q P' (f a))
      → Ends Q P' (r >>= f)
  Ends-bind_both r h k = Ends-bind_eq r h λ a e. k a e (Ends-ok h e)
