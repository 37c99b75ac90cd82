-- ===== src/Chroma/PostFilter/Operations.antt =====
-- langchain-chromadb/src/postFilter.ts and cel.ts: the operators over evaluated operands.
use query_plan_adapters.Base.{
  ℕ, ◌-◌, Bool, true, false, ◌&&◌, ◌||◌, Option, none, some, List, [], ◌∷◌, ◌++◌, any, length,
  get_elem?, leb, if◌then◌else◌, ℤ, pos, negsuc, ◌+ℤ◌, ◌-ℤ◌, Text, text, map,
}
use query_plan_adapters.Number.{Number, is_integer, trunc, of_int, add, sub, mult, div}
use query_plan_adapters.Errors.{Result, ok}
use query_plan_adapters.Value.{Value, bigint, duration}
use query_plan_adapters.Cel.Arithmetic.{ArithmeticOperator, int_arithmetic}
use query_plan_adapters.Cel.Conversion.{convert_to_string, convert_to_double, convert_to_int}
use query_plan_adapters.Cel.Rendering.{int_text}
use query_plan_adapters.Cel.Duration.{parse_cel_duration, checked_duration, time_since}
use query_plan_adapters.Cel.Timestamp.{parse_rfc3339_timestamp}
use query_plan_adapters.Cel.Hierarchy.{split_hierarchy, is_strict_ancestor}
use query_plan_adapters.Cel.Equality.{is_segment_prefix}
use query_plan_adapters.Cel.Order.{code_points}
use query_plan_adapters.Chroma.PostFilter.Values.{
  CelValue, error, flag, number, big, string, list, dict, timestamp, span, path, CelItems, no_items,
  item, of_value, scalar, item_list, items_of, field_names, values_equal, own_field, find_field,
}

-- `in`
abbrev has_key : Text → Option CelValue → CelValue
has_key k none = flag false
has_key k (some v) = flag true

unfoldable pub contained : CelValue → CelValue → CelValue
unfolding values_equal find_field
contained needle (list vs) = flag (any (λ v. values_equal v needle) (item_list vs))
contained (string k) (dict fs) = has_key k (find_field k fs)
contained needle (dict fs) = flag false
contained needle _ = error

-- `stringTest`
unfoldable pub tested : (Text → Text → Bool) → CelValue → CelValue → CelValue
tested test (string s) (string t) = flag (test s t)
tested test _ _ = error

abbrev upper_unit : ℕ → ℕ
upper_unit c = if leb b'a' c && leb c b'z' then c - 32 else c

-- "upperAscii"
unfoldable pub upper_ascii : CelValue → CelValue
upper_ascii (string s) = string (map upper_unit s)
upper_ascii _ = error

-- "hasIntersection"
unfoldable pub has_intersection : CelValue → CelValue → CelValue
unfolding values_equal
has_intersection (list vs) (list ws) =
    flag (any (λ v. any (values_equal v) (item_list ws)) (item_list vs))
has_intersection _ _ = error

-- "size"
unfoldable pub size_of : CelValue → CelValue
unfolding of_int code_points
size_of (string s) = number (of_int (pos (length (code_points s))))
size_of (list vs) = number (of_int (pos (length (item_list vs))))
size_of (path ss) = number (of_int (pos (length ss)))
size_of (dict fs) = number (of_int (pos (length (field_names fs))))
size_of _ = error

-- `dynamicArithmetic`
abbrev of_numbers : ArithmeticOperator → Number → Number → CelValue
of_numbers ArithmeticOperator.add x y = number (add x y)
of_numbers ArithmeticOperator.sub x y = number (sub x y)
of_numbers ArithmeticOperator.mult x y = number (mult x y)
of_numbers ArithmeticOperator.div x y = number (div x y)
of_numbers ArithmeticOperator.remainder x y = error

abbrev concatenated : CelValue → CelValue → CelValue
concatenated (string s) (string t) = string (s ++ t)
concatenated (list vs) (list ws) = list (items_of (item_list vs ++ item_list ws))
concatenated _ _ = error

abbrev of_others : ArithmeticOperator → CelValue → CelValue → CelValue
of_others ArithmeticOperator.add left right = concatenated left right
of_others op left right = error

unfoldable pub dynamic_arithmetic : ArithmeticOperator → CelValue → CelValue → CelValue
unfolding add sub mult div
dynamic_arithmetic op (number x) (number y) = of_numbers op x y
dynamic_arithmetic op left right = of_others op left right

-- `intArithmetic`
unfoldable pub exact_arithmetic : ArithmeticOperator → CelValue → CelValue → CelValue
unfolding int_arithmetic of_value scalar
exact_arithmetic op left right = of_value (int_arithmetic op (scalar left) (scalar right))

-- `temporalArithmetic`, for "add" and for any other operator, which is "sub".
unfoldable pub temporal_arithmetic : ArithmeticOperator → CelValue → CelValue → CelValue
unfolding ◌+ℤ◌ ◌-ℤ◌ checked_duration of_value
temporal_arithmetic ArithmeticOperator.add (timestamp a) (span b) = timestamp (a +ℤ b)
temporal_arithmetic ArithmeticOperator.add (span a) (timestamp b) = timestamp (a +ℤ b)
temporal_arithmetic ArithmeticOperator.add (span a) (span b) = of_value (checked_duration (a +ℤ b))
temporal_arithmetic ArithmeticOperator.add left right = error
temporal_arithmetic op (timestamp a) (span b) = timestamp (a -ℤ b)
temporal_arithmetic op (span a) (span b) = of_value (checked_duration (a -ℤ b))
temporal_arithmetic op (timestamp a) (timestamp b) = of_value (checked_duration (a -ℤ b))
temporal_arithmetic op left right = error

-- A list's element: `position >= 0 && position < collection.length`.
abbrev element : ℤ → List CelValue → CelValue
element (pos n) vs = elim (get_elem? vs n) [ none ↦ error | some v ↦ v ]
element (negsuc n) vs = error

-- `indexValue`
unfoldable pub index_value : CelValue → CelValue → CelValue
unfolding own_field is_integer trunc of_int
index_value (list vs) (number x) = if is_integer x then element (trunc x) (item_list vs) else error
index_value (list vs) (big n) = element (trunc (of_int n)) (item_list vs)
index_value (dict fs) (string k) = own_field k (dict fs)
index_value _ _ = error

-- `parseRfc3339Timestamp` and `parseGoDuration`, whose texts are those of convex/src/cel.ts but for
-- the class of a timestamp and for the lookup of a unit by its own name.
abbrev pub timestamp_of : Value → CelValue
timestamp_of (bigint n) = timestamp n
timestamp_of _ = error

unfoldable pub to_timestamp : CelValue → CelValue
unfolding parse_rfc3339_timestamp
to_timestamp (string s) = timestamp_of (parse_rfc3339_timestamp s)
to_timestamp _ = error

abbrev span_of : Result Value → CelValue
span_of (ok (duration n)) = span n
span_of _ = error

unfoldable pub to_duration : CelValue → CelValue
unfolding parse_cel_duration
to_duration (string s) = span_of (parse_cel_duration s)
to_duration _ = error

-- `timeSince`
unfoldable pub since : ℤ → CelValue → CelValue
unfolding time_since of_value
since now (timestamp n) = of_value (time_since now n)
since now _ = error

-- `convertToDouble`, `convertToInt` and `convertToString`
unfoldable pub to_double : CelValue → CelValue
unfolding convert_to_double of_value scalar
to_double v = of_value (convert_to_double (scalar v))

unfoldable pub to_int : CelValue → CelValue
unfolding convert_to_int of_value scalar
to_int v = of_value (convert_to_int (scalar v))

unfoldable pub to_text : CelValue → CelValue
unfolding convert_to_string of_value scalar
to_text v = of_value (convert_to_string (scalar v) false)

-- "string" of an operand that is certainly an int: `BigInt(value)` throws a `RangeError`, which is
-- `none`, for a number that is no integer.
unfoldable pub int_to_text : CelValue → Option CelValue
unfolding is_integer trunc int_text to_text
int_to_text (number x) = if is_integer x then some (string (int_text (trunc x))) else none
int_to_text (big n) = some (string (int_text n))
int_to_text v = some (to_text v)

-- `toHierarchy`
abbrev segments_of : CelItems → Option (List Text)
segments_of no_items = some []
segments_of (item (string s) vs) = elim (segments_of vs) [ none ↦ none | some ss ↦ some (s ∷ ss) ]
segments_of (item _ vs) = none

unfoldable pub to_hierarchy : CelValue → CelValue
unfolding split_hierarchy
to_hierarchy (path ss) = path ss
to_hierarchy (string s) = path (split_hierarchy s (text "."))
to_hierarchy (list vs) = elim (segments_of vs) [ none ↦ error | some ss ↦ path ss ]
to_hierarchy _ = error

unfoldable pub to_hierarchy_by : CelValue → CelValue → CelValue
unfolding split_hierarchy
to_hierarchy_by (string s) (string d) = path (split_hierarchy s d)
to_hierarchy_by _ _ = error

-- `hierarchyRelation`
unfoldable pub related : (List Text → List Text → Bool) → CelValue → CelValue → CelValue
related relation (path ss) (path ts) = flag (relation ss ts)
related relation _ _ = error

unfoldable pub ancestor_of : List Text → List Text → Bool
unfolding is_strict_ancestor
ancestor_of ss ts = is_strict_ancestor ss ts

unfoldable pub overlaps : List Text → List Text → Bool
unfolding is_segment_prefix
overlaps ss ts = is_segment_prefix ss ts || is_segment_prefix ts ss
