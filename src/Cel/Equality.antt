-- ===== src/Cel/Equality.antt =====
-- convex/src/cel.ts, `valuesEqual`. Objects have no identity in this model, so `Object.is` is true
-- of two objects only through their contents; the two differ for an object that holds NaN.
use query_plan_adapters.Base.{
  Bool, true, false, not, ◌&&◌, ◌||◌, Option, none, some, List, [], ◌∷◌, ltb, ◌==◌, if◌then◌else◌,
  length, Text, text_eq, eqb_ℤ,
}
use query_plan_adapters.Number.{Number, is_nan, number_lt, exact}
use query_plan_adapters.Value.{
  Value, Items, nil, cons, Entries, end, entry, keys, lookup, undefined, evaluation_error, null,
  bool, num, bigint, str, arr, record_of, duration, hierarchy,
}

-- `prefix.every((segment, index) => of[index] === segment)`
unfoldable pub is_segment_prefix : List Text → List Text → Bool
is_segment_prefix [] of = true
is_segment_prefix (s ∷ prefix) [] = false
is_segment_prefix (s ∷ prefix) (t ∷ of) = text_eq t s && is_segment_prefix prefix of

-- `isNumeric`, with the exact value: JavaScript compares a bigint with a number exactly.
abbrev pub numeric : Value → Option Number
numeric (num x) = some x
numeric (bigint n) = some (exact n)
numeric _ = none

unfoldable pub numeric_equal : Number → Number → Bool
unfolding number_lt
numeric_equal x y = not (is_nan x) && not (is_nan y) && not (number_lt x y || number_lt y x)

-- JavaScript's default sort of strings, by code units.
unfoldable pub text_lt : Text → Text → Bool
text_lt s [] = false
text_lt [] (b ∷ t) = true
text_lt (a ∷ s) (b ∷ t) = ltb a b || ((a == b) && text_lt s t)

insert_key : Text → List Text → List Text
unfolding text_lt
insert_key k [] = k ∷ []
insert_key k (j ∷ js) = if text_lt j k then j ∷ insert_key k js else k ∷ j ∷ js

unfoldable pub sort_keys : List Text → List Text
unfolding insert_key
sort_keys [] = []
sort_keys (k ∷ ks) = insert_key k (sort_keys ks)

unfoldable pub texts_equal : List Text → List Text → Bool
texts_equal [] [] = true
texts_equal (s ∷ ss) (t ∷ ts) = text_eq s t && texts_equal ss ts
texts_equal _ _ = false

unfoldable pub same_keys : Entries → Entries → Bool
unfolding sort_keys texts_equal
same_keys left right = texts_equal (sort_keys (keys left)) (sort_keys (keys right))

-- Equality with a property that may be missing.
abbrev equal_to_property : (Value → Bool) → Option Value → Bool
equal_to_property equal none = false
equal_to_property equal (some v) = equal v

unfoldable mutual
  unfolding is_segment_prefix numeric_equal same_keys lookup

  pub values_equal : Value → Value → Bool
  values_equal (hierarchy ss) (hierarchy ts) = (length ss == length ts) && is_segment_prefix ss ts
  values_equal (duration a) (duration b) = eqb_ℤ a b
  values_equal (num x) (num y) = numeric_equal x y
  values_equal (num x) (bigint n) = numeric_equal x (exact n)
  values_equal (bigint m) (num y) = numeric_equal (exact m) y
  values_equal (bigint m) (bigint n) = numeric_equal (exact m) (exact n)
  values_equal undefined undefined = true
  values_equal evaluation_error evaluation_error = true
  values_equal null null = true
  values_equal (bool a) (bool b) = if a then b else not b
  values_equal (str s) (str t) = text_eq s t
  values_equal (arr vs) (arr ws) = items_equal vs ws
  values_equal (record_of es) (record_of fs) = same_keys es fs && entries_equal es fs
  values_equal _ _ = false

  -- equal lengths, and equal members
  pub items_equal : Items → Items → Bool
  items_equal nil nil = true
  items_equal (cons v vs) (cons w ws) = values_equal v w && items_equal vs ws
  items_equal _ _ = false

  -- Each property of the first equals that of the second.
  pub entries_equal : Entries → Entries → Bool
  entries_equal end fs = true
  entries_equal (entry k v es) fs =
      equal_to_property (values_equal v) (lookup k fs) && entries_equal es fs
