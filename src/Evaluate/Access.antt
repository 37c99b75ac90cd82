-- ===== src/Evaluate/Access.antt =====
-- convex/src/evaluate.ts: the operators of `OPERATORS` over one or two evaluated operands.
use query_plan_adapters.Base.{
  ℕ, ◌-◌, Bool, true, false, not, ◌&&◌, Option, none, some, List, [], ◌∷◌, map, leb, if◌then◌else◌,
  Text, text, length, get_elem?, ℤ, pos, negsuc, ◌*ℤ◌,
}
use query_plan_adapters.Errors.{Result, ok, ◌>>=◌}
use query_plan_adapters.Number.{is_integer, trunc, of_int}
use query_plan_adapters.Value.{
  Value, Items, nil, cons, evaluation_error, bool, num, bigint, str, arr, record_of, hierarchy,
  elems, keys, lookup,
}
use query_plan_adapters.Plan.{Operand, value, variable}
use query_plan_adapters.Cel.Path.{as_boolean, get_nested_value}
use query_plan_adapters.Cel.Order.{Comparison, compare_values, code_points}
use query_plan_adapters.Cel.Hierarchy.{split_hierarchy}
use query_plan_adapters.Cel.Timestamp.{parse_rfc3339_timestamp}
use query_plan_adapters.Cel.Duration.{parse_cel_duration, time_since}
use query_plan_adapters.Regex.{parse_safe_regex_pattern, matches_safe_regex_pattern}
use query_plan_adapters.Evaluate.Frame.{Run, Call, arg, arg_pair, operand_at, read_path}
use query_plan_adapters.Evaluate.Types.{TemporalKind, timestamp, temporal_kind_of}

-- "not"
abbrev pub negated : Value → Value
negated (bool b) = bool (not b)
negated _ = evaluation_error

-- `comparison`
unfoldable pub comparison : Comparison → Call → Result Value
unfolding compare_values arg_pair
comparison op call = arg_pair call λ left right. ok (compare_values op left right)

-- `stringTest`
abbrev tested : (Text → Text → Bool) → Value → Value → Value
tested test (str s) (str t) = bool (test s t)
tested test _ _ = evaluation_error

unfoldable pub string_test : (Text → Text → Bool) → Call → Result Value
unfolding arg_pair
string_test test call = arg_pair call λ receiver argument. ok (tested test receiver argument)

abbrev matched : Value → Value → Value
matched (str s) (str p) = elim (parse_safe_regex_pattern p) [
  | none ↦ evaluation_error
  | some pattern ↦ bool (matches_safe_regex_pattern s pattern)
]
matched _ _ = evaluation_error

-- "matches"
unfoldable pub matches : Call → Result Value
unfolding arg_pair parse_safe_regex_pattern matches_safe_regex_pattern
matches call = arg_pair call λ receiver pattern. ok (matched receiver pattern)

-- `hierarchyRelation`, for one of the three relations.
abbrev related : (List Text → List Text → Bool) → Value → Value → Value
related relation (hierarchy ss) (hierarchy ts) = bool (relation ss ts)
related relation _ _ = evaluation_error

unfoldable pub hierarchy_relation : (List Text → List Text → Bool) → Call → Result Value
unfolding arg_pair
hierarchy_relation relation call = arg_pair call λ left right. ok (related relation left right)

abbrev value_or_error : Option Value → Value
value_or_error none = evaluation_error
value_or_error (some v) = v

-- A list's element, at a whole number that is not negative.
abbrev element : Items → ℤ → Value
element vs (pos i) = value_or_error (get_elem? (elems vs) i)
element vs (negsuc i) = evaluation_error

abbrev indexed : Value → Value → Value
indexed (record_of es) (str k) = value_or_error (lookup k es)
indexed (arr vs) (num x) = if is_integer x then element vs (trunc x) else evaluation_error
indexed _ _ = evaluation_error

-- "index"
unfoldable pub index : Call → Result Value
unfolding arg_pair lookup is_integer trunc
index call = arg_pair call λ collection at. ok (indexed collection at)

-- The name of `get-field`'s field: a variable's name, or a constant string.
abbrev field_name : Operand → Text
field_name (variable name) = name
field_name (value (str s)) = s
field_name _ = []

abbrev read_field : Value → Bool → Text → Value
read_field target null_is_missing [] = evaluation_error
read_field target null_is_missing (c ∷ s) =
    read_path (get_nested_value target (c ∷ s)) null_is_missing

-- "get-field"
unfoldable pub get_field : Call → Result Value
unfolding arg operand_at read_path get_nested_value
get_field call = do
  target ← arg call 0
  field ← operand_at call.operands 1
  ok (read_field target call.scope.null_is_missing (field_name field))

-- "size"
unfoldable pub size_of : Value → Value
unfolding of_int code_points
size_of (str s) = num (of_int (pos (length (code_points s))))
size_of (arr vs) = num (of_int (pos (length (elems vs))))
size_of (record_of es) = num (of_int (pos (length (keys es))))
size_of _ = evaluation_error

abbrev upper_unit : ℕ → ℕ
upper_unit c = if leb b'a' c && leb c b'z' then c - 32 else c

-- "upperAscii"
unfoldable pub upper_ascii : Value → Value
upper_ascii (str s) = str (map upper_unit s)
upper_ascii _ = evaluation_error

-- "duration"
unfoldable pub to_duration : Value → Result Value
unfolding parse_cel_duration
to_duration (str s) = parse_cel_duration s
to_duration _ = ok evaluation_error

-- "timestamp"
unfoldable pub to_timestamp : Value → Value
unfolding parse_rfc3339_timestamp
to_timestamp (str s) = parse_rfc3339_timestamp s
to_timestamp _ = evaluation_error

abbrev since : ℤ → Option TemporalKind → Value → Value
since now (some timestamp) (bigint n) = time_since (now *ℤ pos 1_000_000) n
since now _ _ = evaluation_error

-- "timeSince"
unfoldable pub time_since_call : Call → Result Value
unfolding arg operand_at time_since temporal_kind_of ◌*ℤ◌
time_since_call call = do
  e ← operand_at call.operands 0
  v ← arg call 0
  ok (since call.scope.now (temporal_kind_of e) v)

abbrev choose : Call → Value → Result Value
choose call (bool true) = arg call 1
choose call (bool false) = arg call 2
choose call _ = ok evaluation_error

-- "if"
unfoldable pub if_call : Call → Result Value
unfolding arg as_boolean
if_call call = do condition ← arg call 0; choose call (as_boolean condition)

-- `value.every((segment) => typeof segment === "string")`, with the segments.
abbrev segments_of : Items → Option (List Text)
segments_of nil = some []
segments_of (cons (str s) vs) = elim (segments_of vs) [ none ↦ none | some ss ↦ some (s ∷ ss) ]
segments_of (cons _ vs) = none

-- "hierarchy" of one argument, and with a delimiter.
unfoldable pub to_hierarchy : Value → Value
unfolding split_hierarchy
to_hierarchy (str s) = hierarchy (split_hierarchy s (text "."))
to_hierarchy (hierarchy ss) = hierarchy ss
to_hierarchy (arr vs) = elim (segments_of vs) [ none ↦ evaluation_error | some ss ↦ hierarchy ss ]
to_hierarchy _ = evaluation_error

unfoldable pub split_value : Value → Value → Value
unfolding split_hierarchy
split_value (str s) (str d) = hierarchy (split_hierarchy s d)
split_value _ _ = evaluation_error

abbrev with_delimiter : Call → Value → Option Run → Result Value
with_delimiter call v none = ok (to_hierarchy v)
with_delimiter call v (some run) = run call.scope >>= λ d. ok (split_value v d)

unfoldable pub hierarchy_call : Call → Result Value
unfolding arg split_value to_hierarchy
hierarchy_call call = do v ← arg call 0; with_delimiter call v (get_elem? call.runs 1)
