-- ===== src/Closure/Sound.antt =====
-- tools/bp2cmake/bp2cmake/closure.py: the invariant of `state` and `order`, and how `visit` keeps it.
use dalvikvm_multiplatform.Common.{
  ◌⊎◌, ◌||◌, Bool, true, false, List, [], ◌∷◌, ◌++◌, ◌==◌, text_eq, text_beq_iff, contains,
  contains-append, IsNodup, Text, ◌≡◌, refl, sym, ◌∙◌, Bool-cases, inl, inr, arith, Result, subst,
}
use dalvikvm_multiplatform.Model.{Module}
use dalvikvm_multiplatform.Overlay.{Overlay}
use dalvikvm_multiplatform.Closure.{Walk, marked, is_done, enter, leave}
use dalvikvm_multiplatform.Closure.Reach.{IsEmitted, Needs, Reached, Leads, DepsFirst}
use dalvikvm_multiplatform.Closure.Walks.{
  is_done-marked, marked-enter, marked-leave, is_done-enter, is_done-leave, text_beq-eq,
}

contains-one : (n a : Text) → contains n (a ∷ []) ≡ (a == n)
unfolding contains
contains-one n a = ground arith

IsNodup-snoc :
    (xs : List Text) (a : Text) → IsNodup xs → contains a xs ≡ false → IsNodup (xs ++ (a ∷ []))
unfolding IsNodup contains
IsNodup-snoc [] a h k = (refl, tt)
IsNodup-snoc (x ∷ xs) a h k = (
  ground (arith, contains-append x xs (a ∷ []), text_beq_iff a x, text_beq_iff x a, h.0),
  IsNodup-snoc xs a h.1 (ground arith),
)

or_right : (a : Bool) {b : Bool} → b ≡ true → (a || b) ≡ true
or_right a h = ground arith

module _ (ov : Overlay) (resolve : Text → Result (Module Text)) (roots : List Text) where
  -- The state of a walk from the roots.
  pub record Sound (w : Walk) : Type 0 where
    pub listed : (n : Text) → contains n w.order ≡ is_done w n
    pub nodup : IsNodup w.order
    pub emitted :
        (n : Text) → marked w n ≡ true → IsEmitted ov resolve n × Reached ov resolve roots n
    pub closed :
        (n d : Text)
        → is_done w n ≡ true
        → Needs ov resolve n d
        → IsEmitted ov resolve d
        → marked w d ≡ true
    pub first : DepsFirst ov resolve [] w.order

  -- What is being visited leads to `name`.
  abbrev pub OnPath : Walk → Text → Type 0
  OnPath w name = (a : Text) → marked w a ≡ true → is_done w a ≡ false → Leads ov resolve a name

  DepsFirst-snoc :
      (before xs : List Text) (a : Text)
      → DepsFirst ov resolve before xs
      → ((d : Text)
          → Needs ov resolve a d
          → IsEmitted ov resolve d
          → ((contains d before || contains d xs) ≡ true) ⊎ Leads ov resolve d a)
      → DepsFirst ov resolve before (xs ++ (a ∷ []))
  unfolding contains
  DepsFirst-snoc before [] a p h =
      (λ d k x. elim (h d k x) [ inl c ↦ inl (ground arith) | inr l ↦ inr l ], tt)
  DepsFirst-snoc before (n ∷ xs) a p h = (
    p.0,
    DepsFirst-snoc (n ∷ before) xs a p.1
        λ d k x. elim (h d k x) [ inl c ↦ inl (ground arith) | inr l ↦ inr l ],
  )

  enter_mark : (name n : Text) (w : Walk) → marked w n ≡ true → marked (enter name w) n ≡ true
  enter_mark name n w h = ground (arith, marked-enter name n w)

  leave_mark : (name n : Text) (w : Walk) → marked w n ≡ true → marked (leave name w) n ≡ true
  leave_mark name n w h = ground (arith, marked-leave name n w)

  pub enter-Sound :
      (name : Text) (w : Walk)
      → Sound w
      → marked w name ≡ false
      → IsEmitted ov resolve name
      → Reached ov resolve roots name
      → Sound (enter name w)
  unfolding enter
  enter-Sound name w s new e r = record {
    listed = λ n. s.listed n ∙ unchanged n;
    nodup = s.nodup;
    emitted = λ n h. emitted_at n h;
    closed = λ n d h k x.
        enter_mark name d w (s.closed n d (ground (arith, is_done-enter name n w)) k x);
    first = s.first;
  }
    where
      undone : is_done w name ≡ false
      undone = ground (arith, is_done-marked w name)

      unchanged : (n : Text) → is_done w n ≡ is_done (enter name w) n
      unchanged n = elim (Bool-cases (name == n)) [
        | inl same ↦
            rw (sym (text_beq-eq name n same)) (ground (arith, is_done-enter name name w, undone))
        | inr other ↦ ground (arith, is_done-enter name n w)
      ]

      emitted_at :
          (n : Text)
          → marked (enter name w) n ≡ true
          → IsEmitted ov resolve n × Reached ov resolve roots n
      emitted_at n h = elim (Bool-cases (name == n)) [
        | inl same ↦ rw (sym (text_beq-eq name n same)) (e, r)
        | inr other ↦ s.emitted n (ground (arith, marked-enter name n w))
      ]

  pub leave-Sound :
      (name : Text) (w : Walk)
      → Sound w
      → is_done w name ≡ false
      → marked w name ≡ true
      → ((d : Text) → Needs ov resolve name d → IsEmitted ov resolve d → marked w d ≡ true)
      → OnPath w name
      → Sound (leave name w)
  unfolding leave
  leave-Sound name w s new inside needs path = record {
    listed = λ n. listed_at n;
    nodup = IsNodup-snoc w.order name s.nodup (s.listed name ∙ new);
    emitted = λ n h. emitted_at n h;
    closed = λ n d h k x. leave_mark name d w (closed_at n d h k x);
    first = DepsFirst-snoc [] w.order name s.first λ d k x. placed d (needs d k x);
  }
    where
      placed :
          (d : Text)
          → marked w d ≡ true
          → ((contains d [] || contains d w.order) ≡ true) ⊎ Leads ov resolve d name
      placed d m = elim (Bool-cases (is_done w d)) [
        | inl finished ↦ inl (or_right (contains d []) (s.listed d ∙ finished))
        | inr undone ↦ inr (path d m undone)
      ]

      listed_at : (n : Text) → contains n (w.order ++ (name ∷ [])) ≡ is_done (leave name w) n
      listed_at n = ground (
        arith,
        s.listed n,
        is_done-leave name n w,
        contains-append n w.order (name ∷ []),
        contains-one n name,
      )

      emitted_at :
          (n : Text)
          → marked (leave name w) n ≡ true
          → IsEmitted ov resolve n × Reached ov resolve roots n
      emitted_at n h = elim (Bool-cases (name == n)) [
        | inl same ↦ rw (sym (text_beq-eq name n same)) (s.emitted name inside)
        | inr other ↦ s.emitted n (ground (arith, marked-leave name n w))
      ]

      closed_at :
          (n d : Text)
          → is_done (leave name w) n ≡ true
          → Needs ov resolve n d
          → IsEmitted ov resolve d
          → marked w d ≡ true
      closed_at n d h k x = elim (Bool-cases (name == n)) [
        | inl same ↦ needs d (subst (λ t. Needs ov resolve t d) (sym (text_beq-eq name n same)) k) x
        | inr other ↦ s.closed n d (ground (arith, is_done-leave name n w)) k x
      ]
