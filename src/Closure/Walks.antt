-- ===== src/Closure/Walks.antt =====
-- tools/bp2cmake/bp2cmake/closure.py: how the steps of `visit` change `state` and `order`.
use dalvikvm_multiplatform.Common.{
  ℕ, suc, ◌≤◌, ◌<◌, true, false, not, ◌&&◌, ◌||◌, Option, none, some, List, [], ◌∷◌, if◌then◌else◌,
  ◌==◌, text_eq, text_beq_iff, contains, eq_self, Text, find, find-store, ◌≡◌, ◌≢◌, refl, ap, sym,
  ◌∙◌, Bool-cases, ◌⊎◌, inl, inr, arith,
}
use dalvikvm_multiplatform.Closure.{
  Mark, visiting, finished, Walk, marked_of, done_of, marked, is_done, enter, leave,
}

-- From `w` to `w'` marks are only added, a mark that was there stays as it is, and what is newly marked
-- is done.
pub record Grows (w w' : Walk) : Type 0 where
  pub grows : (n : Text) → marked w n ≡ true → marked w' n ≡ true
  pub kept : (n : Text) → marked w n ≡ true → is_done w' n ≡ is_done w n
  pub fresh : (n : Text) → marked w' n ≡ true → (marked w n ≡ true) ⊎ (is_done w' n ≡ true)

pub Grows-self : (w : Walk) → Grows w w
Grows-self w = record { grows = λ n h. h; kept = λ n h. refl; fresh = λ n h. inl h }

pub Grows-trans : {w w' w'' : Walk} → Grows w w' → Grows w' w'' → Grows w w''
Grows-trans {w} {w'} {w''} g g' = record {
  grows = λ n h. g'.grows n (g.grows n h);
  kept = λ n h. g'.kept n (g.grows n h) ∙ g.kept n h;
  fresh = λ n h. elim (g'.fresh n h) [
    | inr d ↦ inr d
    | inl k ↦ elim (g.fresh n k) [ inl old ↦ inl old | inr d ↦ inr (g'.kept n k ∙ d) ]
  ];
}

pub is_done-marked : (w : Walk) (n : Text) → is_done w n ≡ true → marked w n ≡ true
unfolding is_done marked marked_of done_of
is_done-marked w n = at_mark (find n w.state)
  where
    at_mark : (o : Option Mark) → done_of o ≡ true → marked_of o ≡ true
    at_mark none h = cc
    at_mark (some k) h = refl

pub marked-enter : (name n : Text) (w : Walk) → marked (enter name w) n ≡ (name == n || marked w n)
unfolding marked enter marked_of
marked-enter name n w = ground (arith, find-store name n visiting w.state)

pub marked-leave : (name n : Text) (w : Walk) → marked (leave name w) n ≡ (name == n || marked w n)
unfolding marked leave marked_of
marked-leave name n w = ground (arith, find-store name n finished w.state)

pub is_done-enter :
    (name n : Text) (w : Walk) → is_done (enter name w) n ≡ (not (name == n) && is_done w n)
unfolding is_done enter done_of
is_done-enter name n w = ground (arith, find-store name n visiting w.state)

pub is_done-leave :
    (name n : Text) (w : Walk) → is_done (leave name w) n ≡ (name == n || is_done w n)
unfolding is_done leave done_of
is_done-leave name n w = ground (arith, find-store name n finished w.state)

pub true-false : true ≢ false
true-false h = cc

pub text_beq-eq : (a b : Text) → (a == b) ≡ true → a ≡ b
text_beq-eq a b h = (text_eq.beq_iff a b).0 h

-- `enter` at the start of a visit and `leave` at its end, with growth between.
pub Grows-visit :
    {w w' : Walk} (name : Text)
    → marked w name ≡ false
    → Grows (enter name w) w'
    → Grows w (leave name w')
Grows-visit {w} {w'} name new g = record {
  grows = λ n h. grows_at n (Bool-cases (name == n)) h;
  kept = λ n h. kept_at n (Bool-cases (name == n)) h;
  fresh = λ n h. fresh_at n (Bool-cases (name == n)) h;
}
  where
    Case : Text → Type 0
    Case n = ((name == n) ≡ true) ⊎ ((name == n) ≡ false)

    entered : (n : Text) → marked w n ≡ true → marked (enter name w) n ≡ true
    entered n h = ground (arith, marked-enter name n w)

    grows_at : (n : Text) → Case n → marked w n ≡ true → marked (leave name w') n ≡ true
    grows_at n c h = ground (arith, marked-leave name n w', g.grows n (entered n h))

    kept_at : (n : Text) → Case n → marked w n ≡ true → is_done (leave name w') n ≡ is_done w n
    kept_at n (inl same) h =
        absurd (true-false (sym h ∙ ap (marked w) (sym (text_beq-eq name n same)) ∙ new))
    kept_at n (inr other) h =
        ground (arith, is_done-leave name n w', is_done-enter name n w, g.kept n (entered n h))

    fresh_at :
        (n : Text)
        → Case n
        → marked (leave name w') n ≡ true
        → (marked w n ≡ true) ⊎ (is_done (leave name w') n ≡ true)
    fresh_at n (inl same) h = inr (ground (arith, is_done-leave name n w'))
    fresh_at n (inr other) h = elim (g.fresh n (ground (arith, marked-leave name n w'))) [
      | inl old ↦ inl (ground (arith, marked-enter name n w))
      | inr d ↦ inr (ground (arith, is_done-leave name n w'))
    ]

-- How many of `names` are not marked.
unfoldable pub unmarked : List Text → Walk → ℕ
unmarked [] w = 0
unmarked (n ∷ names) w = if marked w n then unmarked names w else suc (unmarked names w)

pub unmarked-Grows :
    (names : List Text) {w w' : Walk} → Grows w w' → unmarked names w' ≤ unmarked names w
unfolding unmarked
unmarked-Grows [] g = omega arith
unmarked-Grows (n ∷ names) {w} {w'} g = elim (Bool-cases (marked w n)) [
  | inl h ↦ ground (arith, g.grows n h, unmarked-Grows names g)
  | inr h ↦ ground (arith, unmarked-Grows names g)
]

unmarked-enter_le :
    (names : List Text) (name : Text) (w : Walk) → unmarked names (enter name w) ≤ unmarked names w
unfolding unmarked
unmarked-enter_le [] name w = omega arith
unmarked-enter_le (n ∷ names) name w =
    ground (arith, marked-enter name n w, unmarked-enter_le names name w)

pub unmarked-enter :
    (names : List Text) (name : Text) (w : Walk)
    → marked w name ≡ false
    → contains name names ≡ true
    → unmarked names (enter name w) < unmarked names w
unfolding unmarked contains
unmarked-enter [] name w new h = cc
unmarked-enter (n ∷ names) name w new h = elim (Bool-cases (n == name)) [
  | inl same ↦
      rw (text_beq-eq n name same)
        (ground (arith, marked-enter name name w, eq_self name, unmarked-enter_le names name w))
  | inr other ↦ ground (
    arith,
    marked-enter name n w,
    text_beq_iff n name,
    text_beq_iff name n,
    unmarked-enter names name w new,
  )
]
