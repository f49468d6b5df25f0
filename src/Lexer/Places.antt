-- ===== src/Lexer/Places.antt =====
-- tools/bp2cmake/bp2cmake/lexer.py: each loop goes over a stretch of the text and keeps the line
-- and the column of the place where it stands.
use dalvikvm_multiplatform.Common.{
  ℕ, ◌≤◌, ◌≡◌, refl, ap, sym, ◌∙◌, Bool, true, false, Option, none, some, [], ◌∷◌, ◌++◌,
  append_assoc, if_ind, ◌==◌, nat_eq, length, length-append, Text, arith, Bool-cases, if◌then◌else◌,
  inl, inr, nat_beq_iff, ◌&&◌,
}
use dalvikvm_multiplatform.Lexer.{
  Place, Cursor, cursor, move, adv, skip_line, skip_block, read_string, unescape, take_while,
  prepend, head_is,
}

-- The place behind `s`, for a text that begins at `p`: the independent account of `adv`.
unfoldable pub place_after : Text → Place → Place
unfolding move
place_after [] p = p
place_after (c ∷ s) p = place_after s (move c p)

pub place_after-append :
    (s t : Text) (p : Place) → place_after (s ++ t) p ≡ place_after t (place_after s p)
unfolding place_after
place_after-append [] t p = refl
place_after-append (c ∷ s) t p = place_after-append s t (move c p)

-- The cursor `c` stands in the text `t`, which begins at `p`, behind what was read.
pub record From (t : Text) (p : Place) (c : Cursor) : Type 0 where
  pub read : Text
  pub split : t ≡ read ++ c.rest
  pub reached : c.place ≡ place_after read p

pub From-here : (t : Text) (p : Place) → From t p (cursor t p)
unfolding place_after
From-here t p = record { read = []; split = refl; reached = refl }

pub From-cons : {t : Text} {p : Place} {c : Cursor} (x : ℕ) → From t (move x p) c → From (x ∷ t) p c
unfolding place_after
From-cons x f = record { read = x ∷ f.read; split = ap (λ s. x ∷ s) f.split; reached = f.reached }

pub From-trans :
    {t : Text} {p : Place} {c d : Cursor} → From t p c → From c.rest c.place d → From t p d
From-trans {t} {p} {c} {d} f g = record {
  read = f.read ++ g.read;
  split = f.split ∙ ap (λ s. f.read ++ s) g.split ∙ sym (append_assoc f.read g.read d.rest);
  reached =
      g.reached ∙ ap (place_after g.read) f.reached ∙ sym (place_after-append f.read g.read p);
}

pub From-le : {t : Text} {p : Place} {c : Cursor} → From t p c → length c.rest ≤ length t
From-le {t} {p} {c} f = omega (arith, ap length f.split, length-append f.read c.rest)

pub adv-From : (s t : Text) (p : Place) → From (s ++ t) p (adv (length s) (s ++ t) p)
unfolding adv
adv-From [] t p = From-here t p
adv-From (c ∷ s) t p = From-cons c (adv-From s t (move c p))

pub adv-rest : (s t : Text) (p : Place) → (adv (length s) (s ++ t) p).rest ≡ t
unfolding adv
adv-rest [] t p = refl
adv-rest (c ∷ s) t p = adv-rest s t (move c p)

pub skip_line-From : (t : Text) (p : Place) → From t p (skip_line t p)
unfolding skip_line
skip_line-From [] p = From-here [] p
skip_line-From (c ∷ t) p =
    if_ind (From (c ∷ t) p) (c == b'\n') (λ _. From-here _ p)
      (λ _. From-cons c (skip_line-From t (move c p)))

-- What holds of the outcome of a search that may come to the end of the text.
abbrev pub Found {ℓ κ} : {A : Type ℓ} → (A → Type κ) → Option A → Type κ
Found P none = Unit
Found P (some a) = P a

pub Found-map {ℓ κ μ} :
    {A : Type ℓ} (P : A → Type κ) (Q : A → Type μ)
    → ((a : A) → P a → Q a)
    → (o : Option A) → Found P o
    → Found Q o
Found-map P Q f none h = tt
Found-map P Q f (some a) h = f a h

block_end :
    (c : ℕ) (t : Text)
    → (c == b'*' && head_is (λ d. d == b'/') t) ≡ true
    → (r : Text) × (c ∷ t ≡ b'*' ∷ b'/' ∷ r)
block_end c [] h = ground arith
block_end c (d ∷ r) h = (r, ground arith)

-- The loop of a block comment stops in front of the closing mark.
abbrev pub BlockEnds : Text → Place → Cursor → Type 0
BlockEnds t p c = From t p c × ((r : Text) × (c.rest ≡ b'*' ∷ b'/' ∷ r))

pub skip_block-BlockEnds : (t : Text) (p : Place) → Found (BlockEnds t p) (skip_block t p)
unfolding skip_block
skip_block-BlockEnds [] p = tt
skip_block-BlockEnds (c ∷ t) p =
    if_ind (Found (BlockEnds (c ∷ t) p)) (c == b'*' && head_is (λ d. d == b'/') t)
      (λ h. (From-here _ p, block_end c t h))
      (λ _.
        Found-map (BlockEnds t (move c p)) (BlockEnds (c ∷ t) p) (λ _ (f, e). (From-cons c f, e)) _
          (skip_block-BlockEnds t (move c p)))

-- The value of a string literal, from its characters as written.
unfoldable pub decode : Text → Text
unfolding unescape
decode [] = []
decode (c ∷ []) = c ∷ []
decode (c ∷ d ∷ t) =
    let escaped = unescape d ∷ decode t in
    let plain = c ∷ decode (d ∷ t) in if c == b'\\' then escaped else plain

-- The loop of a string stops at a quote, and has decoded all that stands before it.
pub record StringEnds (t : Text) (p : Place) (r : Text × Cursor) : Type 0 where
  pub raw : Text
  pub more : Text
  pub split : t ≡ raw ++ (b'"' ∷ more)
  pub stopped : r.1.rest ≡ b'"' ∷ more
  pub value : r.0 ≡ decode raw
  pub reached : r.1.place ≡ place_after raw p

pub take_while_prefix : (test : ℕ → Bool) (t : Text) → (r : Text) × (t ≡ take_while test t ++ r)
unfolding take_while
take_while_prefix test [] = ([], refl)
take_while_prefix test (c ∷ t) = elim (Bool-cases (test c)) [
  | inl h ↦ let (r, e) = take_while_prefix test t in (r, rw h (ap (λ s. c ∷ s) e))
  | inr h ↦ (c ∷ t, rw h refl)
]

StringEnds-here : (t : Text) (p : Place) → StringEnds (b'"' ∷ t) p ([], cursor (b'"' ∷ t) p)
unfolding decode place_after
StringEnds-here t p = record {
  raw = [];
  more = t;
  split = refl;
  stopped = refl;
  value = refl;
  reached = refl;
}

StringEnds-escaped :
    (d : ℕ) (t : Text) (p : Place) (r : Text × Cursor)
    → StringEnds t (move d (move b'\\' p)) r
    → StringEnds (b'\\' ∷ d ∷ t) p (unescape d ∷ r.0, r.1)
unfolding decode place_after
StringEnds-escaped d t p r e = record {
  raw = b'\\' ∷ d ∷ e.raw;
  more = e.more;
  split = ap (λ s. b'\\' ∷ d ∷ s) e.split;
  stopped = e.stopped;
  value = ap (λ s. unescape d ∷ s) e.value;
  reached = e.reached;
}

-- A character that is no backslash stands for itself.
decode-cons : (c : ℕ) (s : Text) → (c == b'\\') ≡ false → decode (c ∷ s) ≡ c ∷ decode s
unfolding decode
decode-cons c [] h = refl
decode-cons c (d ∷ s) h = rw h

StringEnds-plain :
    (c : ℕ) (t : Text) (p : Place) (r : Text × Cursor)
    → (c == b'\\') ≡ false
    → StringEnds t (move c p) r
    → StringEnds (c ∷ t) p (c ∷ r.0, r.1)
unfolding place_after
StringEnds-plain c t p r h e = record {
  raw = c ∷ e.raw;
  more = e.more;
  split = ap (λ s. c ∷ s) e.split;
  stopped = e.stopped;
  value = ap (λ s. c ∷ s) e.value ∙ sym (decode-cons c e.raw h);
  reached = e.reached;
}

Found-prepend {κ μ} :
    (P : Text × Cursor → Type κ) (Q : Text × Cursor → Type μ) (x : ℕ) (o : Option (Text × Cursor))
    → ((r : Text × Cursor) → P r → Q (x ∷ r.0, r.1))
    → Found P o
    → Found Q (prepend x o)
Found-prepend P Q x none f h = tt
Found-prepend P Q x (some r) f h = f r h

pub read_string-StringEnds : (t : Text) (p : Place) → Found (StringEnds t p) (read_string t p)
unfolding read_string
read_string-StringEnds [] p = tt
read_string-StringEnds (c ∷ []) p =
    if_ind (Found (StringEnds (c ∷ []) p)) (c == b'"')
      (λ h. rw ((nat_beq_iff c b'"').0 h) (StringEnds-here [] p)) (λ _. tt)
read_string-StringEnds (c ∷ d ∷ t) p =
    if_ind (Found (StringEnds (c ∷ d ∷ t) p)) (c == b'"')
      (λ h. rw ((nat_beq_iff c b'"').0 h) (StringEnds-here (d ∷ t) p))
      λ _.
        if_ind (Found (StringEnds (c ∷ d ∷ t) p)) (c == b'\\')
          (λ h.
            Found-prepend (StringEnds t (move d (move c p))) (StringEnds (c ∷ d ∷ t) p) (unescape d)
              (read_string t (move d (move c p)))
              (rw ((nat_beq_iff c b'\\').0 h) (StringEnds-escaped d t p))
              (read_string-StringEnds t (move d (move c p))))
          (λ h.
            Found-prepend (StringEnds (d ∷ t) (move c p)) (StringEnds (c ∷ d ∷ t) p) c
              (read_string (d ∷ t) (move c p)) (λ r. StringEnds-plain c (d ∷ t) p r h)
              (read_string-StringEnds (d ∷ t) (move c p)))
