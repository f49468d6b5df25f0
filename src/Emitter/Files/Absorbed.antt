-- ===== src/Emitter/Files/Absorbed.antt =====
-- tools/bp2cmake/bp2cmake/emitter.py: `_absorbed_modules` gives just what a module absorbs, directly
-- or through others.
use dalvikvm_multiplatform.Common.{
  ℕ, zero, suc, ◌+◌, ◌≤◌, true, false, ◌||◌, Option, none, some, List, [], ◌∷◌, ◌++◌, map,
  if◌then◌else◌, Bool-cases, inl, inr, length, length-append, All, ◌==◌, text_eq, contains,
  contains-append, eq_self, IsNodup, Text, ◌≡◌, ◌≢◌, ◌↔◌, sym, ap, ◌∙◌, arith, Result, ok, err,
  Ends, returned, Ends-bind, Ends-map, ok-injective,
}
use dalvikvm_multiplatform.Model.{Module}
use dalvikvm_multiplatform.Closure.Reach.{IsCaught, IsResolveFailure, caught-Ends}
use dalvikvm_multiplatform.Emitter.Resolver.{Resolver}
use dalvikvm_multiplatform.Emitter.Files.{absorb, absorbed_loop, absorbed_modules}

abbrev pub names_of : List (Module Text) → List Text
names_of deps = map (λ d. d.name) deps

module _ (ev : Resolver) where
  -- What some modules absorb: those of them that resolve, and what these absorb whole in turn.
  pub data Absorbed (roots : List Text) : Text → Type 0 where
    root :
        {n : Text} (m : Module Text)
        → contains n roots ≡ true
        → ev.resolved n ≡ ok m
        → Absorbed roots n
    inner :
        {p n : Text} (d m : Module Text)
        → Absorbed roots p
        → ev.resolved p ≡ ok d
        → contains n d.whole_static_libs ≡ true
        → ev.resolved n ≡ ok m
        → Absorbed roots n

  -- A module bears the name that it is resolved by.
  abbrev pub IsNamed : Type 0
  IsNamed = (n : Text) (m : Module Text) → ev.resolved n ≡ ok m → m.name ≡ n

  -- The rounds that the modules of some names can still add to the queue.
  abbrev pub queued : Result (Module Text) → ℕ
  queued (ok m) = length m.whole_static_libs
  queued (err x) = zero

  unfoldable pub budget : List Text → List Text → ℕ
  budget [] seen = zero
  budget (n ∷ ns) seen = (if contains n seen then zero else queued (ev.resolved n)) + budget ns seen

  budget-seen : (a : Text) (ns seen : List Text) → budget ns (a ∷ seen) ≤ budget ns seen
  unfolding budget contains
  budget-seen a [] seen = ground arith
  budget-seen a (n ∷ ns) seen = ground (arith, budget-seen a ns seen)

  budget-spent :
      (a : Text) (ns seen : List Text)
      → contains a ns ≡ true
      → contains a seen ≡ false
      → budget ns (a ∷ seen) + queued (ev.resolved a) ≤ budget ns seen
  unfolding budget contains
  budget-spent a [] seen h fresh = cc
  budget-spent a (n ∷ ns) seen h fresh = elim (Bool-cases (n == a)) [
    | inl same ↦
        rw ((text_eq.beq_iff n a).0 same) (ground (arith, budget-seen a ns seen, eq_self a, fresh))
    | inr other ↦ ground (arith, budget-spent a ns seen, other, h, fresh)
  ]

  -- What the loop gives from a set and a queue.
  record Good (seen stack : List Text) (deps : List (Module Text)) : Type 0 where
    sound : (n : Text) → contains n (names_of deps) ≡ true → Absorbed stack n
    fresh : (n : Text) → contains n (names_of deps) ≡ true → contains n seen ≡ false
    nodup : IsNodup (names_of deps)
    resolves : All (λ d. ev.resolved d.name ≡ ok d) deps
    covers :
        (n : Text) (m : Module Text)
        → contains n stack ≡ true
        → ev.resolved n ≡ ok m
        → (contains n seen || contains n (names_of deps)) ≡ true
    closed :
        (p n : Text) (d m : Module Text)
        → contains p (names_of deps) ≡ true
        → ev.resolved p ≡ ok d
        → contains n d.whole_static_libs ≡ true
        → ev.resolved n ≡ ok m
        → (contains n seen || contains n (names_of deps)) ≡ true

  Absorbed-map :
      {xs ys : List Text} {n : Text}
      → ((a : Text) (m : Module Text) → contains a xs ≡ true → ev.resolved a ≡ ok m → Absorbed ys a)
      → Absorbed xs n
      → Absorbed ys n
  Absorbed-map f (root m h e) = f _ m h e
  Absorbed-map f (inner d m a e h e') = inner d m (Absorbed-map f a) e h e'

  later : (b : Text) {stack : List Text} {n : Text} → Absorbed stack n → Absorbed (b ∷ stack) n
  unfolding contains
  later b = Absorbed-map λ a m h e. root m (ground (arith, h)) e

  Good-empty : (seen : List Text) → Good seen [] []
  unfolding contains IsNodup
  Good-empty seen = record {
    sound = λ n h. cc;
    fresh = λ n h. cc;
    nodup = tt;
    resolves = tt;
    covers = λ n m h. cc;
    closed = λ p n d m h. cc;
  }

  -- A name that was seen is left out.
  Good-skip :
      (name : Text) (seen stack : List Text) (deps : List (Module Text))
      → contains name seen ≡ true
      → Good seen stack deps
      → Good seen (name ∷ stack) deps
  unfolding contains
  Good-skip name seen stack deps old g = record {
    sound = λ n h. later name (g.sound n h);
    fresh = g.fresh;
    nodup = g.nodup;
    resolves = g.resolves;
    covers = λ n m h e. elim (Bool-cases (name == n)) [
      | inl same ↦ rw (sym ((text_eq.beq_iff name n).0 same)) (ground (arith, old))
      | inr other ↦ g.covers n m (ground (arith, h, other)) e
    ];
    closed = g.closed;
  }

  -- A name that does not resolve is left out.
  Good-missing :
      (name : Text) (seen stack : List Text) (deps : List (Module Text))
      → ((m : Module Text) → ev.resolved name ≢ ok m)
      → Good (name ∷ seen) stack deps
      → Good seen (name ∷ stack) deps
  unfolding contains
  Good-missing name seen stack deps missing g = record {
    sound = λ n h. later name (g.sound n h);
    fresh = λ n h. ground (arith, g.fresh n h);
    nodup = g.nodup;
    resolves = g.resolves;
    covers = λ n m h e. elim (Bool-cases (name == n)) [
      | inl same ↦ absurd (missing m (rw ((text_eq.beq_iff name n).0 same) e))
      | inr other ↦ ground (arith, g.covers n m (ground (arith, h, other)) e, other)
    ];
    closed = λ p n d m h e k e'. elim (Bool-cases (name == n)) [
      | inl same ↦ absurd (missing m (rw ((text_eq.beq_iff name n).0 same) e'))
      | inr other ↦ ground (arith, g.closed p n d m h e k e', other)
    ];
  }

  -- A module that is new comes first.
  Good-new :
      (name : Text) (seen stack : List Text) (dep : Module Text) (deps : List (Module Text))
      → contains name seen ≡ false
      → ev.resolved name ≡ ok dep
      → dep.name ≡ name
      → Good (name ∷ seen) (stack ++ dep.whole_static_libs) deps
      → Good seen (name ∷ stack) (dep ∷ deps)
  unfolding contains IsNodup
  Good-new name seen stack dep deps new e same g = record {
    sound = λ n h. elim (Bool-cases (name == n)) [
      | inl eq ↦ root dep (ground (arith, eq)) (rw (sym ((text_eq.beq_iff name n).0 eq)) e)
      | inr other ↦ Absorbed-map source (g.sound n (ground (arith, front n, h, other)))
    ];
    fresh = λ n h. elim (Bool-cases (name == n)) [
      | inl eq ↦ rw (sym ((text_eq.beq_iff name n).0 eq)) new
      | inr other ↦ ground (arith, g.fresh n (ground (arith, front n, h, other)), other)
    ];
    nodup = (
      ap (λ x. contains x (names_of deps)) same ∙ ground (arith, g.fresh name, eq_self name),
      g.nodup,
    );
    resolves = (ap ev.resolved same ∙ e, g.resolves);
    covers = λ n m h k. elim (Bool-cases (name == n)) [
      | inl eq ↦ ground (arith, front n, eq)
      | inr other ↦
          reached n m (ground (arith, contains-append n stack dep.whole_static_libs, h, other)) k
    ];
    closed = λ p n d m h k k' k''. elim (Bool-cases (name == p)) [
      | inl eq ↦
          let same_dep =
            ok-injective (sym e ∙ ap ev.resolved ((text_eq.beq_iff name p).0 eq) ∙ k) in
          reached n m
            (ground (
              arith,
              contains-append n stack dep.whole_static_libs,
              ap (λ x. contains n x.whole_static_libs) same_dep ∙ k',
            ))
            k''
      | inr other ↦
          ground (arith, front n, g.closed p n d m (ground (arith, front p, h, other)) k k' k'')
    ];
  }
    where
      front :
          (n : Text)
          → contains n (names_of (dep ∷ deps)) ≡ (name == n || contains n (names_of deps))
      front n = ap (λ x. x == n || contains n (names_of deps)) same

      reached :
          (n : Text) (m : Module Text)
          → contains n (stack ++ dep.whole_static_libs) ≡ true
          → ev.resolved n ≡ ok m
          → (contains n seen || contains n (names_of (dep ∷ deps))) ≡ true
      reached n m h k = ground (arith, front n, g.covers n m h k)

      source :
          (a : Text) (m : Module Text)
          → contains a (stack ++ dep.whole_static_libs) ≡ true
          → ev.resolved a ≡ ok m
          → Absorbed (name ∷ stack) a
      source a m h k = elim (Bool-cases (contains a stack)) [
        | inl there ↦ root m (ground (arith, there)) k
        | inr not_there ↦
            inner dep m (root dep (ground (arith, eq_self name)) e) e
              (ground (arith, contains-append a stack dep.whole_static_libs, h, not_there)) k
      ]

  -- What the modules that `m` absorbs are.
  abbrev pub Absorbs : Module Text → List (Module Text) → Type 0
  Absorbs m deps =
      IsNodup (names_of deps)
      × All (λ d. ev.resolved d.name ≡ ok d) deps
      × ((n : Text) → (contains n (names_of deps) ≡ true) ↔ Absorbed m.whole_static_libs n)

  module _ (named : IsNamed) (ns : List Text)
      (known : (n : Text) (m : Module Text) → ev.resolved n ≡ ok m → contains n ns ≡ true) where
    -- The loop on so much fuel, from every set and queue that it is enough for.
    abbrev Goes : ℕ → (List Text → List Text → Result (List (Module Text))) → Type 0
    Goes f go =
        (seen stack : List Text)
        → length stack + budget ns seen ≤ f
        → Ends (IsResolveFailure ev.resolved) (Good seen stack) (go seen stack)

    absorb-Ends :
        (f : ℕ) (go : List Text → List Text → Result (List (Module Text)))
        → Goes f go
        → (name : Text) (seen stack : List Text) → suc (length stack) + budget ns seen ≤ suc f
        → contains name seen ≡ false
        → (o : Option (Module Text)) → IsCaught ev.resolved name o
        → Ends
            (IsResolveFailure ev.resolved)
            (Good seen (name ∷ stack))
            (absorb go (name ∷ seen) stack o)
    unfolding absorb
    absorb-Ends f go goes name seen stack h new none c =
        Ends-map (goes (name ∷ seen) stack (ground (arith, h, budget-seen name ns seen)))
          (λ deps g. Good-missing name seen stack deps c g) (λ e q. q)
    absorb-Ends f go goes name seen stack h new (some dep) c =
        Ends-bind (goes (name ∷ seen) (stack ++ dep.whole_static_libs) fuel)
          λ deps g. returned (Good-new name seen stack dep deps new c (named name dep c) g)
      where
        fuel : length (stack ++ dep.whole_static_libs) + budget ns (name ∷ seen) ≤ f
        fuel =
            let all = budget-spent name ns seen (known name dep c) new in
            let spent = rw c at all in
            omega (arith, h, spent, length-append stack dep.whole_static_libs)

    absorbed_loop-Ends : (f : ℕ) → Goes f (absorbed_loop ev f)
    unfolding absorbed_loop
    absorbed_loop-Ends f seen [] h = returned (Good-empty seen)
    absorbed_loop-Ends zero seen (name ∷ stack) h = absurd (omega (arith, h))
    absorbed_loop-Ends (suc f) seen (name ∷ stack) h = elim (Bool-cases (contains name seen)) [
      | inl old ↦
          rw (old, absorbed_loop)
            (Ends-map (absorbed_loop-Ends f seen stack (omega (arith, h)))
              (λ deps g. Good-skip name seen stack deps old g) (λ e q. q))
      | inr new ↦
          rw (new, absorbed_loop)
            (Ends-bind (caught-Ends ev.resolved name) λ o c.
              absorb-Ends f (absorbed_loop ev f) (absorbed_loop-Ends f) name seen stack h new o c)
    ]

    -- Let modules bear the names that they are resolved by, and let `ns` hold all such names. With a
    -- round of the loop for each name that the module absorbs whole, and for each that the modules
    -- of `ns` do, the absorbed modules are returned, or an error other than EvalError that a
    -- resolution raised. What is returned has no module twice, and holds those just that the module
    -- absorbs whole, directly or through others, and that resolve.
    pub absorbed_modules-Absorbs :
        (f : ℕ) (m : Module Text)
        → length m.whole_static_libs + budget ns [] ≤ f
        → Ends (IsResolveFailure ev.resolved) (Absorbs m) (absorbed_modules ev f m)
    unfolding absorbed_modules contains
    absorbed_modules-Absorbs f m enough =
        Ends-map (absorbed_loop-Ends f [] m.whole_static_libs enough)
          (λ deps g. (g.nodup, g.resolves, λ n. (g.sound n, all_of deps g n))) (λ e q. q)
      where
        all_of :
            (deps : List (Module Text))
            → Good [] m.whole_static_libs deps
            → (n : Text) → Absorbed m.whole_static_libs n
            → contains n (names_of deps) ≡ true
        all_of deps g n (root d h e) = g.covers n d h e
        all_of deps g n (inner {p} d d' a e h e') = g.closed p n d d' (all_of deps g p a) e h e'
