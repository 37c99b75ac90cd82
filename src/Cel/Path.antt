-- ===== src/Cel/Path.antt =====
-- convex/src/cel.ts, the type tests and `getNestedValue`.
use query_plan_adapters.Base.{
  ℕ, Bool, true, false, Option, none, some, List, [], ◌∷◌, ◌++◌, Text, ◌==◌,
}
use query_plan_adapters.Value.{Value, evaluation_error, bool, record_of, lookup}

abbrev pub is_record : Value → Bool
is_record (record_of es) = true
is_record _ = false

-- `asBoolean`
unfoldable pub as_boolean : Value → Value
as_boolean (bool b) = bool b
as_boolean _ = evaluation_error

-- `s.split(c)` at one code unit: the pieces between its occurrences, in order.
split_from : ℕ → Text → Text → List Text
split_from c piece [] = piece ∷ []
split_from c piece (a ∷ s) = elim (a == c) [
  | true ↦ piece ∷ split_from c [] s
  | false ↦ split_from c (piece ++ a ∷ []) s
]

unfoldable pub split : ℕ → Text → List Text
unfolding split_from
split c s = split_from c [] s

abbrev or_error : Option Value → Value
or_error none = evaluation_error
or_error (some v) = v

-- One step of the walk: a record's own property.
unfoldable pub own_property : Text → Value → Value
unfolding lookup
own_property part (record_of es) = or_error (lookup part es)
own_property part _ = evaluation_error

-- The walk stops at the first failure, and a failure has no own property.
unfoldable pub walk : Value → List Text → Value
unfolding own_property
walk current [] = current
walk current (part ∷ parts) = walk (own_property part current) parts

abbrev pub dot : ℕ
dot = b'.'

-- `getNestedValue`
unfoldable pub get_nested_value : Value → Text → Value
unfolding walk split
get_nested_value obj path = walk obj (split dot path)
