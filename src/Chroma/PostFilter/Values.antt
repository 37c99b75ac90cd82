-- ===== src/Chroma/PostFilter/Values.antt =====
-- langchain-chromadb/src/cel.ts: the values of the post-filter, their equality and their order. What
-- the file copies from convex/src/cel.ts for scalars is read off the model of that file, through
-- `scalar` and `of_value`.
use query_plan_adapters.Base.{
  Bool, true, false, not, ◌&&◌, ◌||◌, Option, none, some, List, [], ◌∷◌, ℤ, Text, text_eq, eqb_ℤ,
  if◌then◌else◌,
}
use query_plan_adapters.Number.{Number, is_nan, exact}
use query_plan_adapters.Value.{
  Value, Items, nil, cons, Entries, end, entry, undefined, bool, num, bigint, str, arr, record_of,
  duration, hierarchy,
}
use query_plan_adapters.Cel.Path.{split, dot}
use query_plan_adapters.Cel.Equality.{numeric_equal, sort_keys, texts_equal}
use query_plan_adapters.Cel.Order.{
  Comparison, compare_code_points, by_sign, by_bool, by_int, order_values,
}

mutual
  -- `CelTimestamp` and `CelDuration` hold nanoseconds, `CelHierarchy` its segments.
  pub data CelValue : Type 0 where
    error : CelValue
    flag : Bool → CelValue
    number : Number → CelValue
    big : ℤ → CelValue
    string : Text → CelValue
    list : CelItems → CelValue
    dict : CelFields → CelValue
    timestamp : ℤ → CelValue
    span : ℤ → CelValue
    path : List Text → CelValue

  pub data CelItems : Type 0 where
    no_items : CelItems
    item : CelValue → CelItems → CelItems

  pub data CelFields : Type 0 where
    no_fields : CelFields
    field : Text → CelValue → CelFields → CelFields

-- A literal of the plan, or a scalar.
unfoldable mutual
  pub of_value : Value → CelValue
  of_value (bool b) = flag b
  of_value (num x) = number x
  of_value (bigint n) = big n
  of_value (str s) = string s
  of_value (arr vs) = list (of_items vs)
  of_value (record_of es) = dict (of_entries es)
  of_value (duration n) = span n
  of_value (hierarchy ss) = path ss
  of_value _ = error

  pub of_items : Items → CelItems
  of_items nil = no_items
  of_items (cons v vs) = item (of_value v) (of_items vs)

  pub of_entries : Entries → CelFields
  of_entries end = no_fields
  of_entries (entry k v es) = field k (of_value v) (of_entries es)

-- A scalar as the model of convex/src/cel.ts has it; nothing else stands for one there.
unfoldable pub scalar : CelValue → Value
scalar (flag b) = bool b
scalar (number x) = num x
scalar (big n) = bigint n
scalar (string s) = str s
scalar _ = undefined

abbrev pub item_list : CelItems → List CelValue
item_list no_items = []
item_list (item v vs) = v ∷ item_list vs

abbrev pub items_of : List CelValue → CelItems
items_of [] = no_items
items_of (v ∷ vs) = item v (items_of vs)

abbrev pub field_names : CelFields → List Text
field_names no_fields = []
field_names (field k v fs) = k ∷ field_names fs

-- `isEvaluationError`
abbrev pub is_error : CelValue → Bool
is_error error = true
is_error _ = false

-- `asBoolean`
abbrev pub as_boolean : CelValue → CelValue
as_boolean (flag b) = flag b
as_boolean _ = error

abbrev or_missing : Option CelValue → CelValue
or_missing none = error
or_missing (some v) = v

unfoldable pub find_field : Text → CelFields → Option CelValue
find_field k no_fields = none
find_field k (field j v fs) = if text_eq j k then some v else find_field k fs

-- An own property of a record.
unfoldable pub own_field : Text → CelValue → CelValue
unfolding find_field
own_field k (dict fs) = or_missing (find_field k fs)
own_field k _ = error

unfoldable pub walk : CelValue → List Text → CelValue
unfolding own_field
walk current [] = current
walk current (part ∷ parts) = walk (own_field part current) parts

-- `getNestedValue`
unfoldable pub get_nested_value : CelValue → Text → CelValue
unfolding walk split
get_nested_value obj p = walk obj (split dot p)

abbrev equal_to_field : (CelValue → Bool) → Option CelValue → Bool
equal_to_field equal none = false
equal_to_field equal (some v) = equal v

unfoldable mutual
  unfolding numeric_equal sort_keys texts_equal find_field

  -- `valuesEqual`
  pub values_equal : CelValue → CelValue → Bool
  values_equal (number x) (number y) = numeric_equal x y
  values_equal (number x) (big n) = numeric_equal x (exact n)
  values_equal (big m) (number y) = numeric_equal (exact m) y
  values_equal (big m) (big n) = numeric_equal (exact m) (exact n)
  values_equal (timestamp a) (timestamp b) = eqb_ℤ a b
  values_equal (span a) (span b) = eqb_ℤ a b
  values_equal (path ss) (path ts) = texts_equal ss ts
  values_equal error error = true
  values_equal (flag a) (flag b) = if a then b else not b
  values_equal (string s) (string t) = text_eq s t
  values_equal (list vs) (list ws) = items_equal vs ws
  values_equal (dict es) (dict fs) =
      texts_equal (sort_keys (field_names es)) (sort_keys (field_names fs)) && fields_equal es fs
  values_equal _ _ = false

  pub items_equal : CelItems → CelItems → Bool
  items_equal no_items no_items = true
  items_equal (item v vs) (item w ws) = values_equal v w && items_equal vs ws
  items_equal _ _ = false

  pub fields_equal : CelFields → CelFields → Bool
  fields_equal no_fields fs = true
  fields_equal (field k v es) fs =
      equal_to_field (values_equal v) (find_field k fs) && fields_equal es fs

abbrev is_path : CelValue → Bool
is_path (path ss) = true
is_path _ = false

abbrev pub is_nan_number : CelValue → Bool
is_nan_number (number x) = is_nan x
is_nan_number _ = false

abbrev pub equality : Bool → CelValue → CelValue → CelValue
equality wanted left right =
    if (if is_path left then not (is_path right) else is_path right)
    then error
    else flag (if wanted then values_equal left right else not (values_equal left right))

-- An ordering: texts, Booleans, timestamps and durations among themselves, then numbers, where
-- anything is false against NaN.
abbrev pub ordering : Comparison → CelValue → CelValue → CelValue
ordering op (string s) (string t) = flag (by_sign op (compare_code_points s t))
ordering op (flag a) (flag b) = flag (by_bool op a b)
ordering op (timestamp a) (timestamp b) = flag (by_int op a b)
ordering op (span a) (span b) = flag (by_int op a b)
ordering op left right =
    if is_nan_number left || is_nan_number right
    then flag false
    else of_value (order_values op (scalar left) (scalar right))

abbrev pub compare_present : Comparison → CelValue → CelValue → CelValue
compare_present Comparison.eq left right = equality true left right
compare_present Comparison.ne left right = equality false left right
compare_present op left right = ordering op left right

-- `compareValues`
unfoldable pub compare_values : Comparison → CelValue → CelValue → CelValue
unfolding values_equal compare_code_points by_sign by_bool by_int order_values of_value scalar
compare_values op left right =
    if is_error left || is_error right then error else compare_present op left right
