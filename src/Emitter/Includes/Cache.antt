-- ===== src/Emitter/Includes/Cache.antt =====
-- tools/bp2cmake/bp2cmake/emitter.py: `_exported_includes` with its cache gives what the modules
-- export, and leaves a cache that says the same.
use dalvikvm_multiplatform.Common.{
  ℕ, zero, suc, ◌≤◌, ◌<◌, true, Option, none, some, List, [], ◌∷◌, ◌++◌, if◌then◌else◌, ◌==◌,
  text_eq, contains, dedupe, eq_self, Bool-cases, Option-cases, ◌⊎◌, inl, inr, Text, Assoc, find,
  store, find-store, ◌≡◌, ◌≢◌, refl, sym, subst, ◌∙◌, arith, Result, ok, Ends, returned, Ends-bind,
}
use dalvikvm_multiplatform.Model.{Module}
use dalvikvm_multiplatform.Closure.Reach.{IsCaught, IsResolveFailure, caught-Ends}
use dalvikvm_multiplatform.Emitter.Resolver.{Resolver}
use dalvikvm_multiplatform.Emitter.Includes.{
  Memo, own_exports, exported_all, exported_module, exported_seen, exported_includes,
}

module _ (ev : Resolver) where
  -- The directories that a module exports, and those that some modules do, without a cache.
  mutual
    pub data Exports : Text → List Text → Type 0 where
      missing : {n : Text} → ((m : Module Text) → ev.resolved n ≢ ok m) → Exports n []
      found :
          {n : Text} {dirs : List Text} (m : Module Text)
          → ev.resolved n ≡ ok m
          → ExportsAll m.header_libs dirs
          → Exports n (dedupe (own_exports m ++ dirs))

    pub data ExportsAll : List Text → List Text → Type 0 where
      nothing : ExportsAll [] []
      more :
          {n : Text} {ns dirs rest : List Text}
          → Exports n dirs
          → ExportsAll ns rest
          → ExportsAll (n ∷ ns) (dirs ++ rest)

  -- The cache has what the modules export.
  abbrev pub IsCoherent : Assoc (List Text) → Type 0
  IsCoherent cache = (n : Text) (dirs : List Text) → find n cache ≡ some dirs → Exports n dirs

  -- The header libraries of a module rank below it.
  abbrev pub IsRanked : (Text → ℕ) → Type 0
  IsRanked rank =
      (n d : Text) (m : Module Text)
      → ev.resolved n ≡ ok m
      → contains d m.header_libs ≡ true
      → rank d < rank n

  abbrev IsCached : Memo → Text → Type 0
  IsCached memo n = (dirs : List Text) × (find n memo.cache ≡ some dirs)

  -- A name that was seen needs no more work.
  abbrev Settled : Memo → Text → Type 0
  Settled memo n = IsCached memo n ⊎ ((m : Module Text) → ev.resolved n ≢ ok m)

  module _ (rank : Text → ℕ) (ranked : IsRanked rank) where
    -- A name of rank below `k` may be asked for.
    record Ready (k : ℕ) (memo : Memo) : Type 0 where
      coherent : IsCoherent memo.cache
      open_names : (s : Text) → contains s memo.seen ≡ true → Settled memo s ⊎ (k ≤ rank s)

    record Grown (memo memo' : Memo) : Type 0 where
      coherent : IsCoherent memo'.cache
      kept : (s : Text) → IsCached memo s → IsCached memo' s
      fresh :
          (s : Text)
          → contains s memo'.seen ≡ true
          → (contains s memo.seen ≡ true) ⊎ Settled memo' s

    abbrev Gives : (List Text → Type 0) → Memo → Result (List Text × Memo) → Type 0
    Gives P memo r = Ends (IsResolveFailure ev.resolved) (λ out. P out.0 × Grown memo out.1) r

    Grown-self : (memo : Memo) → IsCoherent memo.cache → Grown memo memo
    Grown-self memo c = record { coherent = c; kept = λ s h. h; fresh = λ s h. inl h }

    Settled-Grown :
        {memo memo' : Memo} (s : Text) → Grown memo memo' → Settled memo s → Settled memo' s
    Settled-Grown s g (inl c) = inl (g.kept s c)
    Settled-Grown s g (inr missing_s) = inr missing_s

    Grown-trans : {a b c : Memo} → Grown a b → Grown b c → Grown a c
    Grown-trans g h = record {
      coherent = h.coherent;
      kept = λ s x. h.kept s (g.kept s x);
      fresh = λ s x. elim (h.fresh s x) [
        | inl old ↦ elim (g.fresh s old) [
          | inl older ↦ inl older
          | inr done ↦ inr (Settled-Grown s h done)
        ]
        | inr done ↦ inr done
      ];
    }

    Ready-Grown : {k : ℕ} {memo memo' : Memo} → Ready k memo → Grown memo memo' → Ready k memo'
    Ready-Grown r g = record {
      coherent = g.coherent;
      open_names = λ s x. elim (g.fresh s x) [
        | inl old ↦ elim (r.open_names s old) [
          | inl done ↦ inl (Settled-Grown s g done)
          | inr high ↦ inr high
        ]
        | inr done ↦ inl done
      ];
    }

    -- Every call on a name of rank below `k` gives what the name exports.
    abbrev Answers : ℕ → (Text → Memo → Result (List Text × Memo)) → Type 0
    Answers k go =
        (n : Text) (memo : Memo) → rank n < k → Ready k memo → Gives (Exports n) memo (go n memo)

    exported_all-Gives :
        (k : ℕ) (go : Text → Memo → Result (List Text × Memo))
        → Answers k go
        → (ns : List Text) (memo : Memo) → ((n : Text) → contains n ns ≡ true → rank n < k)
        → Ready k memo
        → Gives (ExportsAll ns) memo (exported_all go ns memo)
    unfolding exported_all contains
    exported_all-Gives k go answers [] memo low r = returned (nothing, Grown-self memo r.coherent)
    exported_all-Gives k go answers (n ∷ ns) memo low r =
        Ends-bind (answers n memo (low n (ground (arith, eq_self n))) r) λ (dirs, memo₁) (e, g).
          Ends-bind
            (exported_all-Gives k go answers ns memo₁ (λ d h. low d (ground (arith, h)))
              (Ready-Grown r g))
            λ (rest, memo₂) (e', g'). returned (more e e', Grown-trans g g')

    abbrev opened : Text → Memo → Memo
    opened name memo = record memo { seen = name ∷ memo.seen }

    Ready-opened :
        (k : ℕ) (name : Text) (memo : Memo)
        → rank name < k
        → Ready k memo
        → Ready (rank name) (opened name memo)
    unfolding contains
    Ready-opened k name memo low r = record {
      coherent = r.coherent;
      open_names = λ s h. elim (Bool-cases (name == s)) [
        | inl same ↦ inr (rw (sym ((text_eq.beq_iff name s).0 same)) (omega arith))
        | inr other ↦ elim (r.open_names s (ground (arith, h, other))) [
          | inl done ↦ inl done
          | inr high ↦ inr (omega (arith, low, high))
        ]
      ];
    }

    Grown-missing :
        (name : Text) (memo : Memo)
        → ((m : Module Text) → ev.resolved name ≢ ok m)
        → IsCoherent memo.cache
        → Grown memo (opened name memo)
    unfolding contains
    Grown-missing name memo missing_name c = record {
      coherent = c;
      kept = λ s h. h;
      fresh = λ s h. elim (Bool-cases (name == s)) [
        | inl same ↦ inr (inr (rw (sym ((text_eq.beq_iff name s).0 same)) missing_name))
        | inr other ↦ inl (ground (arith, h, other))
      ];
    }

    -- What storing the directories of `name` changes.
    stored : Text → List Text → Memo → Memo
    stored name out memo = record memo { cache = store name out memo.cache }

    find-stored :
        (name : Text) (out : List Text) (memo : Memo) (s : Text)
        → find s (stored name out memo).cache ≡ (if name == s then some out else find s memo.cache)
    unfolding stored
    find-stored name out memo s = find-store name s out memo.cache

    IsCached-stored :
        (name : Text) (out : List Text) (memo : Memo) (s : Text)
        → (name == s ≡ true) ⊎ IsCached memo s
        → IsCached (stored name out memo) s
    IsCached-stored name out memo s h = elim (Bool-cases (name == s)) [
      | inl same ↦ (out, find-stored name out memo s ∙ rw same refl)
      | inr other ↦ elim h [
        | inl same ↦ cc
        | inr (dirs, e) ↦ (dirs, find-stored name out memo s ∙ rw other e)
      ]
    ]

    IsCoherent-stored :
        (name : Text) (out : List Text) (memo : Memo)
        → Exports name out
        → IsCoherent memo.cache
        → IsCoherent (stored name out memo).cache
    IsCoherent-stored name out memo e c s dirs h = elim (Bool-cases (name == s)) [
      | inl same ↦
          let here = sym (find-stored name out memo s) ∙ h in
          let equal = rw same at here in
          subst (λ d. Exports s d) (cc)
            (subst (λ n. Exports n out) ((text_eq.beq_iff name s).0 same) e)
      | inr other ↦
          let there = sym (find-stored name out memo s) ∙ h in c s dirs (rw other at there)
    ]

    Grown-stored :
        (name : Text) (out : List Text) (memo memo₁ : Memo)
        → Exports name out
        → Grown (opened name memo) memo₁
        → Grown memo (stored name out memo₁)
    unfolding stored contains
    Grown-stored name out memo memo₁ e g = record {
      coherent = IsCoherent-stored name out memo₁ e g.coherent;
      kept = λ s h. IsCached-stored name out memo₁ s (inr (g.kept s h));
      fresh = λ s h. elim (g.fresh s h) [
        | inl old ↦ elim (Bool-cases (name == s)) [
          | inl same ↦ inr (inl (IsCached-stored name out memo₁ s (inl same)))
          | inr other ↦ inl (ground (arith, old, other))
        ]
        | inr (inl c) ↦ inr (inl (IsCached-stored name out memo₁ s (inr c)))
        | inr (inr m) ↦ inr (inr m)
      ];
    }

    exported_module-Gives :
        (k : ℕ) (go : Text → Memo → Result (List Text × Memo)) (name : Text) (memo : Memo)
        → rank name < k
        → Answers (rank name) go
        → Ready k memo
        → (o : Option (Module Text)) → IsCaught ev.resolved name o
        → Gives (Exports name) memo (exported_module ev go name o (opened name memo))
    unfolding exported_module stored
    exported_module-Gives k go name memo low answers r none c =
        returned (missing c, Grown-missing name memo c r.coherent)
    exported_module-Gives k go name memo low answers r (some dep) c =
        Ends-bind
          (exported_all-Gives (rank name) go answers dep.header_libs (opened name memo)
            (λ d h. ranked name d dep c h) (Ready-opened k name memo low r))
          λ (dirs, memo₁) (e, g).
            returned (found dep c e, Grown-stored name _ memo memo₁ (found dep c e) g)

    exported_seen-Gives : (k f : ℕ) → k ≤ f → Answers k (exported_seen ev f)
    unfolding exported_seen
    exported_seen-Gives k zero le n memo low r = absurd (omega (arith, le, low))
    exported_seen-Gives k (suc f) le n memo low r = elim (Option-cases (find n memo.cache)) [
      | inr (dirs, e) ↦
          rw (e, exported_seen) (returned (r.coherent n dirs e, Grown-self memo r.coherent))
      | inl e ↦ elim (Bool-cases (contains n memo.seen)) [
        | inl old ↦ elim (r.open_names n old) [
          | inl (inl (dirs, cached)) ↦ cc
          | inl (inr nowhere) ↦
              rw (e, old, exported_seen) (returned (missing nowhere, Grown-self memo r.coherent))
          | inr high ↦ absurd (omega (arith, low, high))
        ]
        | inr new ↦
            rw (e, new, exported_seen)
              (Ends-bind (caught-Ends ev.resolved n) λ o c.
                exported_module-Gives k (exported_seen ev f) n memo low
                  (exported_seen-Gives (rank n) f (omega (arith, le, low))) r o c)
      ]
    ]

    -- Let the header libraries of every module rank below it. On fuel above the rank of a name, and a
    -- cache that has what modules export, the include directories of the name are those that it
    -- exports without a cache, and the cache that is left has what modules export; or an error other
    -- than EvalError is raised that a resolution raised.
    pub exported_includes-Exports :
        (f : ℕ) (name : Text) (cache : Assoc (List Text))
        → rank name < f
        → IsCoherent cache
        → Ends
            (IsResolveFailure ev.resolved)
            (λ out. Exports name out.0 × IsCoherent out.1)
            (exported_includes ev f name cache)
    unfolding exported_includes contains
    exported_includes-Exports f name cache low c =
        Ends-bind
          (exported_seen-Gives f f (omega arith) name (record { cache = cache; seen = [] }) low
            (record { coherent = c; open_names = λ s h. cc }))
          λ (dirs, memo) (e, g). returned (e, g.coherent)
