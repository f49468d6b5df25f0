-- ===== src/AotIdentity/Contract.antt =====
-- tools/windows_aot_identity.py: what the checks of the identity accept and report.
use dalvikvm_multiplatform.Common.{
  find-All, Bool, keys, true, false, Option, none, some, List, [], ◌∷◌, ◌++◌, map, if◌then◌else◌,
  ◌==◌, text_eq, text_beq, nat_eq, contains, contains-append, contains-dedupe, contains-sort_texts,
  dedupe, eq_self, Bool-cases, inl, inr, ◌⊎◌, Text, codes, Assoc, find, identity_error, Error, ok,
  err, ◌>>=◌, Ends, returned, raised, ◌≡◌, ◌≢◌, refl, sym, subst, Ends-bind, Ends-map, find-absent,
  ◌∙◌, arith,
}
use dalvikvm_multiplatform.AotIdentity.{
  IdentityUse, canonical_identity, target_id, list_beq, identity_beq, require_same,
  validate_generation_startup, Mismatch, intentional_startup_mismatches, rejection, reject_all,
  run_gate, Json, number, text, texts, null, other, same_json, same_value, got, same_get,
  same_record, field_of, first_difference, all_keys, contract_record, identity_from_contract_record,
}

list_beq→eq : (xs ys : List Text) → list_beq xs ys ≡ true → xs ≡ ys
unfolding list_beq
list_beq→eq [] [] h = refl
list_beq→eq [] (y ∷ ys) h = cc
list_beq→eq (x ∷ xs) [] h = cc
list_beq→eq (x ∷ xs) (y ∷ ys) h = ground (arith, list_beq→eq xs ys, text_eq.beq_iff x y)

list_beq_self : (xs : List Text) → list_beq xs xs ≡ true
unfolding list_beq
list_beq_self [] = refl
list_beq_self (x ∷ xs) = ground (arith, list_beq_self xs, eq_self x)

identity_beq→eq : (a b : IdentityUse) → identity_beq a b ≡ true → a ≡ b
unfolding identity_beq
identity_beq→eq a b h =
    let p = list_beq→eq a.boot_class_path_locations b.boot_class_path_locations (ground arith) in
    let q = (text_eq.beq_iff a.image_location b.image_location).0 (ground arith) in
    let r = list_beq→eq a.components b.components (ground arith) in cc

-- A comparison, and what it shows of the two values.
require_same-Ends :
    {A : Type 0} (x y : A) (b : Bool) (field : Text)
    → (b ≡ true → x ≡ y)
    → (x ≡ y → b ≡ true)
    → Ends (λ e. (x ≢ y) × (e ≡ identity_error field)) (λ u. x ≡ y) (require_same field b)
unfolding require_same
require_same-Ends x y true field to from = returned (to refl)
require_same-Ends x y false field to from = raised ((λ e. let t = from e in cc), refl)

lists-Ends :
    (xs ys : List Text) (field : Text)
    → Ends
        (λ e. (xs ≢ ys) × (e ≡ identity_error field))
        (λ u. xs ≡ ys)
        (require_same field (list_beq xs ys))
lists-Ends xs ys field =
    require_same-Ends xs ys (list_beq xs ys) field (list_beq→eq xs ys)
      (λ e. subst (λ z. list_beq xs z ≡ true) e (list_beq_self xs))

identity_beq_self : (a : IdentityUse) → identity_beq a a ≡ true
unfolding identity_beq
identity_beq_self a = ground (
  arith,
  list_beq_self a.boot_class_path_locations,
  eq_self a.image_location,
  list_beq_self a.components,
)

-- Where the two identities first differ, if they do.
abbrev pub Reports : IdentityUse → IdentityUse → Error → Type 0
Reports generation startup x =
    ((generation.boot_class_path_locations ≢ startup.boot_class_path_locations)
      × (x ≡ identity_error (codes "boot-class-path")))
    ⊎ ((generation.boot_class_path_locations ≡ startup.boot_class_path_locations)
        × (generation.image_location ≢ startup.image_location)
        × (x ≡ identity_error (codes "image-location")))
    ⊎ ((generation.boot_class_path_locations ≡ startup.boot_class_path_locations)
        × (generation.image_location ≡ startup.image_location)
        × (generation.components ≢ startup.components)
        × (x ≡ identity_error (codes "component-topology")))
    ⊎ ((generation ≡ startup)
        × (generation ≢ canonical_identity)
        × (x ≡ identity_error (codes "canonical-contract")))

-- `validate_generation_startup` returns just where both sides have the canonical identity. If not, it
-- reports the first of the class path, the image location and the components that differ, or that
-- what agrees is not canonical.
pub validate_generation_startup-Ends :
    (generation startup : IdentityUse)
    → Ends
        (Reports generation startup)
        (λ u. (generation ≡ canonical_identity) × (startup ≡ canonical_identity))
        (validate_generation_startup generation startup)
unfolding validate_generation_startup
validate_generation_startup-Ends g s =
    Ends-bind
      (Ends-map
        (lists-Ends g.boot_class_path_locations s.boot_class_path_locations
          (codes "boot-class-path"))
        (λ u e. e) (λ x e. inl e))
      λ _ p.
        Ends-bind
          (Ends-map
            (require_same-Ends g.image_location s.image_location
              (g.image_location == s.image_location) (codes "image-location")
              (text_eq.beq_iff g.image_location s.image_location).0
              (text_eq.beq_iff g.image_location s.image_location).1)
            (λ u e. e) (λ x (d, e). inr (inl (p, d, e))))
          λ _ q.
            Ends-bind
              (Ends-map (lists-Ends g.components s.components (codes "component-topology"))
                (λ u e. e) (λ x (d, e). inr (inr (inl (p, q, d, e)))))
              λ _ r.
                Ends-map
                  (require_same-Ends g canonical_identity (identity_beq g canonical_identity)
                    (codes "canonical-contract") (identity_beq→eq g canonical_identity)
                    (λ e. subst (λ z. identity_beq g z ≡ true) e (identity_beq_self g)))
                  (λ u e. (e, sym (same p q r) ∙ e))
                  (λ x (d, e). inr (inr (inr (same p q r, d, e))))
  where
    same :
        g.boot_class_path_locations ≡ s.boot_class_path_locations
        → g.image_location ≡ s.image_location
        → g.components ≡ s.components
        → g ≡ s
    same p q r = cc

-- The two records have the same value at the key, and `get` gives the same there.
abbrev pub Agrees : Assoc Json → Text → Type 0
Agrees record_ key = same_value (find key record_) (find key contract_record) ≡ true

abbrev pub GetsSame : Assoc Json → Text → Type 0
GetsSame record_ key = same_get (find key record_) (find key contract_record) ≡ true

-- What holds of every key of the two records, and where both have none, holds of every key.
every_key :
    (record_ : Assoc Json) (test : Option Json → Option Json → Bool)
    → test none none ≡ true
    → ((key : Text)
        → contains key (all_keys record_ contract_record) ≡ true
        → test (find key record_) (find key contract_record) ≡ true)
    → (key : Text) → test (find key record_) (find key contract_record) ≡ true
unfolding all_keys
every_key record_ test nowhere there key =
    elim (Bool-cases (contains key (all_keys record_ contract_record))) [
      | inl found ↦ there key found
      | inr h ↦
          let both = keys record_ ++ keys contract_record in
          let gone =
            sym (contains-dedupe key both) ∙ sym (contains-sort_texts key (dedupe both)) ∙ h in
          let split = sym (contains-append key (keys record_) (keys contract_record)) ∙ gone in
          rw
            (
              find-absent key record_ (ground (arith, split)),
              find-absent key contract_record (ground (arith, split)),
            )
            nowhere
    ]

same_record-Agrees :
    (record_ : Assoc Json) (ks : List Text)
    → same_record record_ contract_record ks ≡ true
    → (key : Text) → contains key ks ≡ true
    → Agrees record_ key
unfolding same_record contains
same_record-Agrees record_ [] e key h = cc
same_record-Agrees record_ (k ∷ ks) e key h = elim (Bool-cases (k == key)) [
  | inl same ↦ subst (Agrees record_) ((text_eq.beq_iff k key).0 same) (ground (arith, e))
  | inr later ↦ same_record-Agrees record_ ks (ground (arith, e)) key (ground (arith, h, later))
]

same_record-differs :
    (record_ : Assoc Json) (ks : List Text)
    → same_record record_ contract_record ks ≡ false
    → (key : Text) × (same_value (find key record_) (find key contract_record) ≡ false)
unfolding same_record
same_record-differs record_ [] e = cc
same_record-differs record_ (k ∷ ks) e =
    elim (Bool-cases (same_value (find k record_) (find k contract_record))) [
      | inl agrees ↦ same_record-differs record_ ks (ground (arith, e, agrees))
      | inr differs ↦ (k, differs)
    ]

first_difference-none :
    (record_ : Assoc Json) (ks : List Text)
    → first_difference record_ contract_record ks ≡ none
    → (key : Text) → contains key ks ≡ true
    → GetsSame record_ key
unfolding first_difference contains
first_difference-none record_ [] e key h = cc
first_difference-none record_ (k ∷ ks) e key h =
    elim (Bool-cases (same_get (find k record_) (find k contract_record))) [
      | inr differs ↦ let found = rw differs at e in cc
      | inl gets ↦ elim (Bool-cases (k == key)) [
        | inl same ↦ subst (GetsSame record_) ((text_eq.beq_iff k key).0 same) gets
        | inr later ↦ first_difference-none record_ ks (rw gets at e) key (ground (arith, h, later))
      ]
    ]

first_difference-some :
    (record_ : Assoc Json) (ks : List Text) (key : Text)
    → first_difference record_ contract_record ks ≡ some key
    → same_get (find key record_) (find key contract_record) ≡ false
unfolding first_difference
first_difference-some record_ [] key e = cc
first_difference-some record_ (k ∷ ks) key e =
    elim (Bool-cases (same_get (find k record_) (find k contract_record))) [
      | inl gets ↦ first_difference-some record_ ks key (rw gets at e)
      | inr differs ↦
          let found = rw differs at e in
          let same : k ≡ key = cc in
          subst (λ z. same_get (find z record_) (find z contract_record) ≡ false) same differs
    ]

abbrev is_null : Json → Bool
is_null null = true
is_null _ = false

-- The contract has no None.
contract_record-full :
    (key : Text) (value : Json) → find key contract_record ≡ some value → is_null value ≡ false
unfolding contract_record
contract_record-full key value e =
    find-All (λ (kv : Text × Json). is_null kv.1 ≡ false) key contract_record value
      (refl, (refl, (refl, (refl, (refl, (refl, (refl, (refl, (refl, (refl, tt)))))))))) e

-- Two values that differ and of which `get` gives the same are a None and a key that is missing.
null_alone :
    (a b : Option Json)
    → ((value : Json) → b ≡ some value → is_null value ≡ false)
    → same_value a b ≡ false
    → same_get a b ≡ true
    → (a ≡ some null) × (b ≡ none)
unfolding same_value same_get same_json got
null_alone none none full e g = cc
null_alone none (some null) full e g = let h = full null refl in cc
null_alone none (some (number n)) full e g = cc
null_alone none (some (text t)) full e g = cc
null_alone none (some (texts t)) full e g = cc
null_alone none (some other) full e g = cc
null_alone (some null) none full e g = (refl, refl)
null_alone (some (number n)) none full e g = cc
null_alone (some (text t)) none full e g = cc
null_alone (some (texts t)) none full e g = cc
null_alone (some other) none full e g = cc
null_alone (some a) (some b) full e g = cc

-- What is reported of a record: a key at which `get` differs, or, where it differs at none, that a key
-- which the contract has not is None.
abbrev pub IsMismatch : Assoc Json → Error → Type 0
IsMismatch record_ x =
    ((key : Text) × (same_get (find key record_) (find key contract_record) ≡ false)
      × (x ≡ identity_error key))
    ⊎ ((key : Text) × (find key record_ ≡ some null)
        × (find key contract_record ≡ none)
        × ((k : Text) → GetsSame record_ k)
        × (x ≡ identity_error (codes "manifest-contract")))

field_of-IsMismatch :
    (record_ : Assoc Json) (o : Option Text)
    → same_record record_ contract_record (all_keys record_ contract_record) ≡ false
    → first_difference record_ contract_record (all_keys record_ contract_record) ≡ o
    → IsMismatch record_ (identity_error (field_of o))
unfolding field_of same_get same_json got
field_of-IsMismatch record_ (some key) d e =
    inl (key, first_difference-some record_ (all_keys record_ contract_record) key e, refl)
field_of-IsMismatch record_ none d e =
    let (key, differs) = same_record-differs record_ (all_keys record_ contract_record) d in
    let gets =
      every_key record_ same_get refl
        (first_difference-none record_ (all_keys record_ contract_record) e) in
    let (own, missing) =
      null_alone (find key record_) (find key contract_record) (contract_record-full key) differs
        (gets key) in
    inr (key, own, missing, gets, refl)

-- `identity_from_contract_record` returns the canonical identity just for a record that has the value of
-- the contract at every key. For another it reports a key at which `get` differs; if there is none, that
-- is since a key which the contract has not is None, and the field is `manifest-contract`, as it is if
-- there is no record.
pub identity_from_contract_record-Ends :
    (given : Option (Assoc Json))
    → Ends
        (λ x.
          ((given ≡ none) × (x ≡ identity_error (codes "manifest-contract")))
          ⊎ ((record_ : Assoc Json) × (given ≡ some record_) × IsMismatch record_ x))
        (λ id.
          (id ≡ canonical_identity)
          × ((record_ : Assoc Json) × (given ≡ some record_) × ((key : Text) → Agrees record_ key)))
        (identity_from_contract_record given)
unfolding identity_from_contract_record same_value
identity_from_contract_record-Ends none = raised (inl (refl, refl))
identity_from_contract_record-Ends (some record_) =
    let ks = all_keys record_ contract_record in
    elim (Bool-cases (same_record record_ contract_record ks)) [
      | inl same ↦
          rw (same, identity_from_contract_record)
            (returned (
              refl,
              (
                record_,
                refl,
                every_key record_ same_value refl (same_record-Agrees record_ ks same),
              ),
            ))
      | inr differs ↦
          rw (differs, identity_from_contract_record)
            (raised (
              inr (
                record_,
                refl,
                field_of-IsMismatch record_ (first_difference record_ contract_record ks) differs
                    refl,
              )))
    ]

gate :
    (validate_generation_startup canonical_identity canonical_identity >>= λ done.
    reject_all intentional_startup_mismatches)
    ≡ ok (map (λ (m : Mismatch). (m.0, m.2)) intentional_startup_mismatches)
unfolding validate_generation_startup reject_all rejection require_same list_beq identity_beq
    intentional_startup_mismatches text_beq
gate = refl

-- `run_gate` accepts its own target alone, and finds that every intentional mismatch is rejected for
-- the field that is expected.
pub run_gate_lem :
    (target : Text)
    → run_gate target ≡ (
        if target == target_id
        then ok (map (λ (m : Mismatch). (m.0, m.2)) intentional_startup_mismatches)
        else err (identity_error (codes "target-id")))
unfolding run_gate
run_gate_lem target = elim (Bool-cases (target == target_id)) [
  | inl own ↦ rw own gate
  | inr another ↦ rw another refl
]
