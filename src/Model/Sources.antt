-- ===== src/Model/Sources.antt =====
-- tools/bp2cmake/bp2cmake/model.py: what `effective_srcs` keeps.
use dalvikvm_multiplatform.Common.{
  not, ◌&&◌, List, [], ◌∷◌, ◌≡◌, refl, ◌∙◌, ap, text_eq, contains, without, dedupe, dedupe_from,
  contains-without, contains-dedupe, dedupe-IsNodup, IsNodup, Text, Bool-cases, inl, inr, subst,
  sym,
}
use dalvikvm_multiplatform.Model.{Module, effective_loop, effective_srcs}

effective_loop-dedupe :
    (excluded seen xs : List Text)
    → effective_loop excluded seen xs ≡ dedupe_from seen (without excluded xs)
unfolding effective_loop dedupe_from without
effective_loop-dedupe excluded seen [] = refl
effective_loop-dedupe excluded seen (x ∷ xs) = elim (Bool-cases (contains x excluded)) [
  | inl drop ↦ rw drop (effective_loop-dedupe excluded seen xs)
  | inr keep ↦ elim (Bool-cases (contains x seen)) [
    | inl old ↦ rw (keep, old) (effective_loop-dedupe excluded seen xs)
    | inr new ↦ rw (keep, new) (ap (λ ys. x ∷ ys) (effective_loop-dedupe excluded (x ∷ seen) xs))
  ]
]

-- The effective sources of a module are its sources without the excluded ones, each at its first
-- place only: none stands twice, and a source is there just if it is given and not excluded.
pub effective_srcs-IsNodup :
    (m : Module Text)
    → (effective_srcs m ≡ dedupe (without m.exclude_srcs m.srcs))
      × IsNodup (effective_srcs m)
      × ((a : Text)
          → contains a (effective_srcs m) ≡ (contains a m.srcs && not (contains a m.exclude_srcs)))
unfolding effective_srcs dedupe
effective_srcs-IsNodup m = (
  same,
  subst IsNodup (sym same) (dedupe-IsNodup (without m.exclude_srcs m.srcs)),
  λ a.
      ap (contains a) same
      ∙ contains-dedupe a (without m.exclude_srcs m.srcs)
      ∙ contains-without a m.exclude_srcs m.srcs,
)
  where
    same : effective_srcs m ≡ dedupe (without m.exclude_srcs m.srcs)
    same = effective_loop-dedupe m.exclude_srcs [] m.srcs
