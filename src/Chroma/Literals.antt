-- ===== src/Chroma/Literals.antt =====
-- langchain-chromadb/src/index.ts: the literal operands, `splitByType` and `emit`.
use query_plan_adapters.Base.{
  Bool, true, false, some, List, [], ◌∷◌, ◌++◌, map, every, Text, if◌then◌else◌,
}
use query_plan_adapters.Number.{is_finite}
use query_plan_adapters.Value.{Value, bool, num, str, arr, elems}
use query_plan_adapters.Plan.{Op}
use query_plan_adapters.Chroma.Outcome.{
  Attempt, done, raise, unsupported, needs_literal, needs_number, needs_list, needs_scalar_list,
  ◌>>=◌, demand,
}
use query_plan_adapters.Chroma.Comparisons.{
  scalar, number, scalars, Row, ChromaOp, Key, comparisons,
}
use query_plan_adapters.Chroma.Where.{Where, clause, members, all_of, any_of, wheres}

-- `isChromaLiteral`
unfoldable pub is_chroma_literal : Value → Bool
unfolding is_finite
is_chroma_literal (str s) = true
is_chroma_literal (bool b) = true
is_chroma_literal (num x) = is_finite x
is_chroma_literal _ = false

abbrev pub is_finite_number : Value → Bool
is_finite_number (num x) = is_finite x
is_finite_number _ = false

-- `requireLiteral` and `requireNumber`
unfoldable pub require_literal : Value → Op → Attempt Value
unfolding is_chroma_literal
require_literal v op =
    demand (is_chroma_literal v) (unsupported (some op) needs_literal) >>= λ valid. done v

unfoldable pub require_number : Value → Op → Attempt Value
unfolding is_finite
require_number v op =
    demand (is_finite_number v) (unsupported (some op) needs_number) >>= λ valid. done v

abbrev pub require_scalars : List Value → Op → Attempt (List Value)
require_scalars [] op = raise (unsupported (some op) needs_list)
require_scalars (v ∷ vs) op =
    demand (every is_chroma_literal (v ∷ vs)) (unsupported (some op) needs_scalar_list) >>= λ valid.
    done (v ∷ vs)

-- `requireLiteralList`
unfoldable pub require_literal_list : Value → Op → Attempt (List Value)
unfolding is_chroma_literal
require_literal_list (arr vs) op = require_scalars (elems vs) op
require_literal_list _ op = raise (unsupported (some op) needs_list)

-- `typeof value` of a literal.
pub data JsType : Type 0 where
  string_type number_type boolean_type other_type : JsType

abbrev pub js_type : Value → JsType
js_type (str s) = string_type
js_type (num x) = number_type
js_type (bool b) = boolean_type
js_type _ = other_type

abbrev pub same_type : JsType → JsType → Bool
same_type string_type string_type = true
same_type number_type number_type = true
same_type boolean_type boolean_type = true
same_type other_type other_type = true
same_type _ _ = false

-- One round of the loop of `splitByType`: the groups, in the order of the map's insertions.
abbrev pub Groups : Type 0
Groups = List (JsType × List Value)

unfoldable pub add_to_groups : Value → Groups → Groups
add_to_groups v [] = (js_type v, v ∷ []) ∷ []
add_to_groups v ((type, group) ∷ groups) =
    if same_type type (js_type v)
    then (type, group ++ v ∷ []) ∷ groups
    else (type, group) ∷ add_to_groups v groups

unfoldable pub grouped : List Value → Groups → Groups
unfolding add_to_groups
grouped [] groups = groups
grouped (v ∷ vs) groups = grouped vs (add_to_groups v groups)

abbrev pub group_values : Groups → List (List Value)
group_values [] = []
group_values ((type, group) ∷ groups) = group ∷ group_values groups

-- `splitByType`
unfoldable pub split_by_type : List Value → List (List Value)
unfolding grouped
split_by_type vs = group_values (grouped vs [])

abbrev pub is_membership : Op → Bool
is_membership Op.member = true
is_membership _ = false

-- The list branch of `emit`.
abbrev pub emit_groups : Text → ChromaOp → Op → List Value → List (List Value) → Where
emit_groups field chroma op vs (g ∷ h ∷ groups) =
    if is_membership op
    then any_of (wheres (map (members field chroma) (g ∷ h ∷ groups)))
    else all_of (wheres (map (members field chroma) (g ∷ h ∷ groups)))
emit_groups field chroma op vs _ = members field chroma vs

abbrev pub emit_row : Row → Text → Op → Value → Attempt Where
emit_row r field op v = elim r.literal [
  | scalar ↦ require_literal v op >>= λ x. done (clause field r.chroma x)
  | number ↦ require_number v op >>= λ x. done (clause field r.chroma x)
  | scalars ↦
      require_literal_list v op >>= λ xs. done (emit_groups field r.chroma op xs (split_by_type xs))
]

-- `emit`, of an operator with this row.
unfoldable pub emit : Key → Text → Op → Value → Attempt Where
unfolding require_literal require_number require_literal_list split_by_type
emit key field op v = emit_row (comparisons key) field op v
