-- ===== src/Parser/Consume.antt =====
-- tools/bp2cmake/bp2cmake/parser.py: the token helpers and the loops take tokens off the front of a
-- list that ends in the end of the file, and they fail with a ParseError only.
use dalvikvm_multiplatform.Common.{
  ℕ, zero, suc, ◌≤◌, ◌<◌, ◌≡◌, ◌≢◌, true, false, List, [], ◌∷◌, if_ind, Bool-cases, inl, inr,
  length, arith, Error, parse_error, value_error, Ends, returned, raised, Ends-bind, Ends-map,
}
use dalvikvm_multiplatform.Lexer.{Kind, eof, comma, Token}
use dalvikvm_multiplatform.Lexer.Total.{EndsInEof}
use dalvikvm_multiplatform.Parser.State.{cur, fail, kind_beq, kind_beq→eq, advance, expect, accept}
use dalvikvm_multiplatform.Parser.Selects.{Parser, comma_loop, comma_list}

-- A ParseError, or the ValueError of `int` on a number that is no decimal.
abbrev pub IsParseFailure : Error → Type 0
IsParseFailure (parse_error _ _ _) = Unit
IsParseFailure value_error = Unit
IsParseFailure _ = ⊥

-- At most `n` tokens are left, the end of the file the last of them.
pub record Left {ℓ} (n : ℕ) {A : Type ℓ} (r : A × List Token) : Type ℓ where
  pub bound : length r.1 ≤ n
  pub ends : EndsInEof r.1

-- On every list of at most `n` tokens, with the end of the file at its end, the parser fails with a
-- ParseError or takes at least one token.
abbrev pub Takes {ℓ} : {A : Type ℓ} → ℕ → Parser A → Type ℓ
Takes n p =
    (ts : List Token) (m : ℕ)
    → EndsInEof ts
    → length ts ≤ suc m
    → suc m ≤ n
    → Ends IsParseFailure (Left m) (p ts)

pub tail-EndsInEof :
    (t : Token) (ts : List Token) → EndsInEof (t ∷ ts) → t.kind ≢ eof → EndsInEof ts
tail-EndsInEof t [] h n = absurd (n h)
tail-EndsInEof t (u ∷ ts) h n = h.1

pub kind_beq-false : (k : Kind) → k ≢ eof → kind_beq k eof ≡ false
kind_beq-false k n = elim (Bool-cases (kind_beq k eof)) [
  | inl e ↦ absurd (n (kind_beq→eq k eof e))
  | inr e ↦ e
]

pub advance-Left :
    (t : Token) (ts : List Token) (m : ℕ)
    → t.kind ≢ eof
    → EndsInEof (t ∷ ts)
    → length ts ≤ m
    → Ends IsParseFailure (Left m) (advance (t ∷ ts))
unfolding advance
advance-Left t ts m n h l =
    rw (kind_beq-false t.kind n) (returned (record { bound = l; ends = tail-EndsInEof t ts h n }))

pub kind-ne-eof : (t : Token) (k : Kind) → k ≢ eof → kind_beq t.kind k ≡ true → t.kind ≢ eof
kind-ne-eof t k n e = rw (kind_beq→eq t.kind k e) n

pub expect-Takes : (kind : Kind) (n : ℕ) → kind ≢ eof → Takes n (expect kind)
unfolding expect cur fail
expect-Takes kind n k [] m h l b = elim h [ ]
expect-Takes kind n k (t ∷ ts) m h l b =
    if_ind (Ends IsParseFailure (Left m)) (kind_beq t.kind kind)
      (λ e. advance-Left t ts m (kind-ne-eof t kind k e) h (omega arith)) (λ _. raised tt)

pub accept-Left :
    (kind : Kind) (ts : List Token) (m : ℕ)
    → kind ≢ eof
    → EndsInEof ts
    → length ts ≤ m
    → Ends IsParseFailure (Left m) (accept kind ts)
unfolding accept cur
accept-Left kind [] m k h l = elim h [ ]
accept-Left kind (t ∷ ts) m k h l =
    if_ind (Ends IsParseFailure (Left m)) (kind_beq t.kind kind)
      (λ e.
        Ends-bind (advance-Left t ts m (kind-ne-eof t kind k e) h (omega arith))
          λ r left. returned (record { bound = left.bound; ends = left.ends }))
      (λ _. returned (record { bound = l; ends = h }))

module _ {ℓ} {A : Type ℓ} (n : ℕ) (close : Kind) (item : Parser A) (takes : Takes n item) where
  -- Rounds enough for the tokens are enough for the loop.
  pub comma_loop-Left :
      (rounds : ℕ) (ts : List Token)
      → EndsInEof ts
      → length ts < rounds
      → length ts ≤ n
      → Ends IsParseFailure (Left (length ts)) (comma_loop rounds close item ts)
  unfolding comma_loop cur
  comma_loop-Left zero ts h r l = absurd (omega arith)
  comma_loop-Left (suc rounds) [] h r l = elim h [ ]
  comma_loop-Left (suc rounds) (t ∷ ts) h r l =
      if_ind (Ends IsParseFailure (Left (length (t ∷ ts)))) (kind_beq t.kind close)
        (λ _. returned (record { bound = omega arith; ends = h }))
        λ _. Ends-bind (takes (t ∷ ts) (length ts) h (omega arith) (omega arith)) λ (a, ts₁) left₁.
          Ends-bind (accept-Left comma ts₁ (length ts) (λ e. cc) left₁.ends left₁.bound)
            λ (again, ts₂) left₂.
              Ends-bind
                (if_ind (Ends IsParseFailure (Left (length ts))) again
                  (λ _.
                    Ends-map
                      (comma_loop-Left rounds ts₂ left₂.ends (omega (arith, left₂.bound))
                        (omega (arith, left₂.bound)))
                      (λ r left. record {
                        bound = omega (arith, left.bound, left₂.bound);
                        ends = left.ends;
                      })
                      (λ _ q. q))
                  (λ _. returned (record { bound = left₂.bound; ends = left₂.ends })))
                λ r left. returned (record { bound = omega (arith, left.bound); ends = left.ends })

  pub comma_list-Left :
      (ts : List Token) (m : ℕ)
      → close ≢ eof
      → EndsInEof ts
      → length ts ≤ suc m
      → suc m ≤ n
      → Ends IsParseFailure (Left m) (comma_list close item ts)
  unfolding comma_list
  comma_list-Left ts m k h l b =
      Ends-bind (comma_loop-Left (suc (length ts)) ts h (omega arith) (omega arith))
        λ (items, ts₁) left₁.
          Ends-bind (expect-Takes close n k ts₁ m left₁.ends (omega (arith, left₁.bound)) b)
            λ r left. returned (record { bound = left.bound; ends = left.ends })
