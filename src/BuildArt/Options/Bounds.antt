-- ===== src/BuildArt/Options/Bounds.antt =====
-- tools/build_art.py: the bounds of the parallelism, and the variants that are let through.
use dalvikvm_multiplatform.Common.{
  ℕ, ◌≤◌, true, false, ◌&&◌, Option, none, some, if_ind, ◌==◌, text_eq, ltb, inl, inr, ◌⊎◌, Text,
  codes, ℤ, pos, negsuc, not_positive, too_parallel, build_frontend_error, Error, Ends, returned,
  raised, ◌≡◌, ◌≢◌, refl, arith,
}
use dalvikvm_multiplatform.BuildArt.Options.{refuse, boot_image_parallel_limit, resolve_parallelism}

-- What a number of jobs may be for a request.
abbrev pub Fits : Text → Option ℤ → ℕ → Type 0
Fits system requested n =
    (1 ≤ n)
    × (system ≡ codes "windows" → n ≤ 16)
    × ((requested ≡ none × (n ≤ 32)) ⊎ (requested ≡ some (pos n)))

limit-windows : (system : Text) → system ≡ codes "windows" → boot_image_parallel_limit system ≡ 16
unfolding boot_image_parallel_limit
limit-windows system e = rw ((text_eq.beq_iff system (codes "windows")).1 e) refl

limit-bounds :
    (system : Text)
    → (1 ≤ boot_image_parallel_limit system)
      × (boot_image_parallel_limit system ≤ 32)
      × ((system == codes "windows") ≡ true → boot_image_parallel_limit system ≡ 16)
unfolding boot_image_parallel_limit
limit-bounds system =
    (low, high, λ e. limit-windows system ((text_eq.beq_iff system (codes "windows")).0 e))
  where
    low : 1 ≤ boot_image_parallel_limit system
    low = if_ind (λ n. 1 ≤ n) (system == codes "windows") (λ _. omega arith) (λ _. omega arith)

    high : boot_image_parallel_limit system ≤ 32
    high = if_ind (λ n. n ≤ 32) (system == codes "windows") (λ _. omega arith) (λ _. omega arith)

-- Why a request is refused.
abbrev pub Refuses : Text → Option ℤ → Error → Type 0
Refuses system requested x =
    ((x ≡ build_frontend_error not_positive) × ((n : ℕ) → 1 ≤ n → requested ≢ some (pos n)))
    ⊎ ((x ≡ build_frontend_error too_parallel)
        × (system ≡ codes "windows")
        × ((n : ℕ) × (requested ≡ some (pos n)) × (17 ≤ n)))

-- `_resolve_parallelism` returns a number of at least 1, of at most 16 on a Windows host, which is the
-- one that was asked for or, where none was, at most 32. It raises BuildFrontendError just for a
-- request below 1, and on a Windows host for one above 16.
pub resolve_parallelism-Fits :
    (system : Text) (requested : Option ℤ)
    → Ends (Refuses system requested) (Fits system requested) (resolve_parallelism system requested)
unfolding resolve_parallelism refuse
resolve_parallelism-Fits system none =
    let (low, high, limit) = limit-bounds system in
    returned (low, λ w. omega (arith, limit-windows system w), inl (refl, high))
resolve_parallelism-Fits system (some (negsuc n)) = raised (inl (refl, λ m h e. cc))
resolve_parallelism-Fits system (some (pos n)) =
    if_ind (Ends (Refuses system (some (pos n))) (Fits system (some (pos n)))) (ltb n 1)
      (λ low. raised (inl (refl, λ m h e. below m low h (cc))))
      λ positive.
        if_ind (Ends (Refuses system (some (pos n))) (Fits system (some (pos n))))
          (system == codes "windows" && ltb (boot_image_parallel_limit system) n)
          (λ over. raised (
            inr (
              refl,
              (text_eq.beq_iff system (codes "windows")).0 (ground (arith, over)),
              (n, refl, ground (arith, over, (limit-bounds system).2)),
            )))
          λ fits. returned (ground (arith, positive), λ w. within fits w, inr refl)
  where
    below : (m : ℕ) → ltb n 1 ≡ true → 1 ≤ m → n ≡ m → ⊥
    below m low h e = ground (arith, low, h, e)

    within :
        (system == codes "windows" && ltb (boot_image_parallel_limit system) n) ≡ false
        → system ≡ codes "windows"
        → n ≤ 16
    within fits w =
        ground (arith, fits, limit-windows system w, (text_eq.beq_iff system (codes "windows")).1 w)
