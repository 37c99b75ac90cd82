-- ===== src/Evaluate/Lists.antt =====
-- convex/src/evaluate.ts: the list operations, `in`, and the list and map literals.
pub mod Subsets
use query_plan_adapters.Base.{
  Bool, true, false, not, ◌||◌, Option, none, some, List, [], ◌∷◌, ◌++◌, map, ltb, if◌then◌else◌,
  length, any, every, filter, Text,
}
use query_plan_adapters.Errors.{type_error, Result, ok, throw, ◌>>=◌}
use query_plan_adapters.Value.{
  Value, Entries, end, entry, evaluation_error, bool, str, arr, record_of, elems, items, keys,
  lookup, is_error,
}
use query_plan_adapters.Plan.{Op, Operand, Operands, operand, expression, value}
use query_plan_adapters.Cel.Equality.{values_equal}
use query_plan_adapters.Evaluate.Frame.{Scope, Run}

-- `macroItems`: a list's elements, or a map's keys.
unfoldable pub macro_items : Value → Option (List Value)
macro_items (arr vs) = some (elems vs)
macro_items (record_of es) = some (map str (keys es))
macro_items _ = none

-- `listContains`
unfoldable pub list_contains : List Value → Value → Bool
unfolding values_equal
list_contains list v = any (λ member. values_equal member v) list

abbrev member_of : Value → Option (List Value) → Value
member_of needle none = evaluation_error
member_of needle (some members) = bool (list_contains members needle)

-- "in", of two values.
unfoldable pub membership : Value → Value → Value
unfolding list_contains macro_items
membership needle haystack =
    if is_error needle || is_error haystack
    then evaluation_error
    else member_of needle (macro_items haystack)

-- `listOperation`
unfoldable pub list_operation : (List Value → List Value → Value) → Value → Value → Value
list_operation operation (arr vs) (arr ws) = operation (elems vs) (elems ws)
list_operation operation _ _ = evaluation_error

unfoldable pub except : List Value → List Value → Value
unfolding list_contains
except left right = arr (items (filter (λ v. not (list_contains right v)) left))

-- The elements of the shorter list (the first, on a tie) that the longer one has.
unfoldable pub intersect : List Value → List Value → Value
unfolding list_contains
intersect left right =
    if ltb (length right) (length left)
    then arr (items (filter (list_contains left) right))
    else arr (items (filter (list_contains right) left))

unfoldable pub is_subset : List Value → List Value → Value
unfolding list_contains
is_subset left right = bool (every (list_contains right) left)

unfoldable pub has_intersection : List Value → List Value → Value
unfolding values_equal
has_intersection left right = bool (any (λ v. any (values_equal v) right) left)

-- A list literal: an element's error is the list's.
unfoldable pub list_literal : List Run → Scope → List Value → Result Value
list_literal [] scope elements = ok (arr (items elements))
list_literal (run ∷ runs) scope elements = do
  v ← run scope
  if is_error v then ok evaluation_error else list_literal runs scope (elements ++ v ∷ [])

abbrev append_entry : Entries → Text → Value → Entries
append_entry end k v = entry k v end
append_entry (entry j w es) k v = entry j w (append_entry es k v)

abbrev has_key : Text → Entries → Bool
has_key k es = elim (lookup k es) [ none ↦ false | some v ↦ true ]

-- The key of a `set-field` node, a constant string.
abbrev entry_key : Operand → Result Text
entry_key (expression Op.set_field (operand (value (str k)) es)) = ok k
entry_key _ = throw type_error

-- The evaluator of a `set-field` node's second operand.
abbrev entry_run : List Run → Result Run
entry_run (first ∷ second ∷ more) = ok second
entry_run _ = throw type_error

-- A map literal: a repeated key is an error, as an error of a value is.
unfoldable pub struct_literal : Operands → List (List Run) → Scope → Entries → Result Value
unfolding lookup
struct_literal (operand e es) (parts ∷ rest) scope entries = do
  k ← entry_key e
  run ← entry_run parts
  v ← run scope
  if is_error v || has_key k entries
      then ok evaluation_error
      else struct_literal es rest scope (append_entry entries k v)
struct_literal _ _ scope entries = ok (record_of entries)
