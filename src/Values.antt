-- ===== src/Values.antt =====
-- tools/bp2cmake/bp2cmake/evaluator.py: the Python values that an expression evaluates to, and the
-- two functions at the end of the file, `_concat` and `_deep_merge`.
-- A dict is the list of its items in the order of insertion.
pub mod Merge
pub mod Keys
use dalvikvm_multiplatform.Common.{
  ℕ, zero, suc, ◌+◌, ◌≡◌, refl, ℤ, pos, negsuc, ◌+ℤ◌, int_beq, Bool, true, false, ◌&&◌, Option,
  none, some, List, [], ◌∷◌, ◌++◌, if◌then◌else◌, ◌==◌, text_eq, nat_beq, Text, eval_error,
  cannot_concatenate, type_error, Result, ok, err, max, map,
}

mutual
  pub data Value : Type 0 where
    none_value : Value
    str : Text → Value
    boolean : Bool → Value
    int : ℤ → Value
    list : Values → Value
    dict : Dict → Value

  pub data Values : Type 0 where
    nil : Values
    cons : Value → Values → Values

  pub data Dict : Type 0 where
    empty : Dict
    bind : Text → Value → Dict → Dict

unfoldable pub append : Values → Values → Values
append nil ys = ys
append (cons x xs) ys = cons x (append xs ys)

unfoldable pub to_list : Values → List Value
to_list nil = []
to_list (cons x xs) = x ∷ to_list xs

-- `d.get(key)`
unfoldable pub get : Text → Dict → Option Value
get key empty = none
get key (bind k v d) = if k == key then some v else get key d

-- `d[key] = value`: a key that is there keeps its place.
unfoldable pub set : Text → Value → Dict → Dict
set key value empty = bind key value empty
set key value (bind k v d) = if k == key then bind k value d else bind k v (set key value d)

unfoldable pub keys : Dict → List Text
keys empty = []
keys (bind k v d) = k ∷ keys d

-- The truth of a value, in `if not name` and in `raw.get("defaults", []) or []`.
unfoldable pub is_true : Value → Bool
is_true none_value = false
is_true (str []) = false
is_true (str (_ ∷ _)) = true
is_true (boolean b) = b
is_true (int (pos zero)) = false
is_true (int (pos (suc _))) = true
is_true (int (negsuc _)) = true
is_true (list nil) = false
is_true (list (cons _ _)) = true
is_true (dict empty) = false
is_true (dict (bind _ _ _)) = true

-- `isinstance(a, int)` holds of a boolean too.
unfoldable pub as_int : Value → Option ℤ
as_int (boolean true) = some (pos 1)
as_int (boolean false) = some (pos 0)
as_int (int n) = some n
as_int _ = none

unfoldable pub concat_ints : Option ℤ → Option ℤ → Result Value
concat_ints (some a) (some b) = ok (int (a +ℤ b))
concat_ints _ _ = err (eval_error cannot_concatenate)

-- `_concat`
unfoldable pub concat : Value → Value → Result Value
concat none_value b = ok b
concat a none_value = ok a
concat (str a) (str b) = ok (str (a ++ b))
concat (list a) (list b) = ok (list (append a b))
concat a b = concat_ints (as_int a) (as_int b)

-- `_deep_merge`, and its loop body for one key: `b`'s value on top of the value in `out`, if any.
unfoldable mutual
  pub merge_value : Option Value → Value → Value
  merge_value (some (list va)) (list vb) = list (append va vb)
  merge_value (some (dict va)) (dict vb) = dict (deep_merge va vb)
  merge_value _ vb = vb

  pub deep_merge : Dict → Dict → Dict
  deep_merge out empty = out
  deep_merge out (bind k vb b) = deep_merge (set k (merge_value (get k out) vb) out) b

unfoldable pub count_items : Dict → ℕ
count_items empty = 0
count_items (bind k v d) = suc (count_items d)

abbrev int_value_beq : Option ℤ → Option ℤ → Bool
int_value_beq (some a) (some b) = int_beq a b
int_value_beq _ _ = false

-- Python's `==` on values: numbers and booleans compare as numbers, dicts without their order.
unfoldable mutual
  pub value_beq : Value → Value → Bool
  value_beq none_value none_value = true
  value_beq (str a) (str b) = a == b
  value_beq (list a) (list b) = values_beq a b
  value_beq (dict a) (dict b) = nat_beq (count_items a) (count_items b) && items_in a b
  value_beq a b = int_value_beq (as_int a) (as_int b)

  pub values_beq : Values → Values → Bool
  values_beq nil nil = true
  values_beq (cons a as_) (cons b bs) = value_beq a b && values_beq as_ bs
  values_beq _ _ = false

  pub items_in : Dict → Dict → Bool
  items_in empty b = true
  items_in (bind k v a) b = elim (get k b) [ none ↦ false | some w ↦ value_beq v w ] && items_in a b

-- How deep dicts stand inside a value.
unfoldable mutual
  pub depth : Value → ℕ
  depth (dict d) = suc (dict_depth d)
  depth _ = 0

  pub dict_depth : Dict → ℕ
  dict_depth empty = 0
  dict_depth (bind k v d) = max (depth v) (dict_depth d)
