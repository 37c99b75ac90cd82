-- ===== src/Chroma/Translate.antt =====
-- langchain-chromadb/src/index.ts, the walk: a plan's condition as a Chroma `Where` filter.
use query_plan_adapters.Base.{
  Bool, true, false, not, ◌&&◌, ◌||◌, Option, none, some, Text, text, if◌then◌else◌,
}
use query_plan_adapters.Number.{is_integer, fin}
use query_plan_adapters.Value.{Value, bool, num}
use query_plan_adapters.Plan.{
  Op, Operand, Operands, value, variable, expression, malformed, empty, operand,
}
use query_plan_adapters.Chroma.Outcome.{
  Attempt, done, raise, plain, unsupported, ◌>>=◌, demand, unsupported_operator, two_operands,
  nested_expression, two_variables, two_values, optional_field, fractional_threshold, no_expression,
  fewer_than_two, not_exactly_one, not_exactly_two,
}
use query_plan_adapters.Chroma.Comparisons.{
  ChromaOp, Key, key_of, comparisons, is_plan_comparison, negation_of, mirror_of,
}
use query_plan_adapters.Chroma.Fields.{FieldMapper, ResolvedField, resolve_field, is_text}
use query_plan_adapters.Chroma.Where.{Where, Wheres, clause, all_of, any_of, none, also}
use query_plan_adapters.Chroma.Literals.{emit, is_chroma_literal}

abbrev pub zero_literal : Value
zero_literal = num (fin false 0)

-- The two clauses of an inequality over integers.
abbrev pub either_side : Text → ChromaOp → Value → ChromaOp → Value → Where
either_side key low v high w = any_of (also (clause key low v) (also (clause key high w) none))

abbrev pub inequality_integer : Text → Value → Option Where
inequality_integer key (num x) =
    if is_integer x then some (either_side key ChromaOp.lt (num x) ChromaOp.gt (num x)) else none
inequality_integer key v = some (either_side key ChromaOp.lt zero_literal ChromaOp.gte zero_literal)

abbrev pub inequality_by_number : ResolvedField → Value → Option Where
inequality_by_number field v =
    if is_text field.numeric_type (text "integer") then inequality_integer field.name v else none

-- `inequalityWithoutNe`
unfoldable pub inequality_without_ne : ResolvedField → Value → Option Where
unfolding is_integer
inequality_without_ne field (bool b) =
    if is_text field.value_type (text "boolean")
    then some (clause field.name ChromaOp.eq (bool (not b)))
    else inequality_by_number field (bool b)
inequality_without_ne field v = inequality_by_number field v

-- `requirePresenceFor`
unfoldable pub require_presence_for : ResolvedField → Key → Op → Attempt (Unit {0})
require_presence_for field key op =
    demand (field.required || not (comparisons key).matches_missing_key)
      (unsupported (some op) optional_field)

abbrev pub is_fractional : Value → Bool
is_fractional (num x) = not (is_integer x)
is_fractional _ = false

-- The check on a fractional threshold.
unfoldable pub require_float_for : ResolvedField → Key → Op → Value → Attempt (Unit {0})
unfolding is_integer
require_float_for field key op v =
    demand
      (not (
        (comparisons key).ordered
        && is_fractional v
        && not (is_text field.numeric_type (text "float"))))
      (unsupported (some op) fractional_threshold)

abbrev pub lowered : Key → ResolvedField → Value → Option Where
lowered Key.ne field v = if is_chroma_literal v then inequality_without_ne field v else none
lowered key field v = none

abbrev pub checked_emit : Key → ResolvedField → Op → Value → Attempt Where
checked_emit key field op v = require_presence_for field key op >>= λ present.
    require_float_for field key op v >>= λ exact. emit key field.name op v

abbrev pub or_checked : Option Where → Attempt Where → Attempt Where
or_checked none emitted = emitted
or_checked (some w) emitted = done w

-- `compare`, of an operator with this row.
unfoldable pub compare_key : Key → ResolvedField → Op → Value → Attempt Where
unfolding inequality_without_ne require_presence_for require_float_for emit is_chroma_literal
compare_key key field op v = or_checked (lowered key field v) (checked_emit key field op v)

abbrev pub compare_found : Option Key → ResolvedField → Op → Value → Attempt Where
compare_found none field op v = raise (unsupported (some op) unsupported_operator)
compare_found (some key) field op v = compare_key key field op v

-- `compare`
unfoldable pub compare : ResolvedField → Op → Value → Attempt Where
unfolding key_of compare_key
compare field op v = compare_found (key_of op) field op v

-- What `binaryOperands` answers.
pub record Binary : Type 0 where
  pub variable : Text
  pub literal_first : Bool
  pub value : Value

pub data KeyOrLiteral : Type 0 where
  the_key : Text → KeyOrLiteral
  the_literal : Value → KeyOrLiteral

-- The operator that a nested operand is reported under.
abbrev nested_operator : Op → Operand → Option Op
nested_operator op (expression inner es) = if is_plan_comparison op then some inner else some op
nested_operator op e = if is_plan_comparison op then none else some op

unfoldable pub classify : Op → Operand → Attempt KeyOrLiteral
unfolding is_plan_comparison
classify op (variable name) = done (the_key name)
classify op (value v) = done (the_literal v)
classify op e = raise (unsupported (nested_operator op e) nested_expression)

unfoldable pub paired : Op → KeyOrLiteral → KeyOrLiteral → Attempt Binary
paired op (the_key name) (the_literal v) =
    done (record { variable = name; literal_first = false; value = v })
paired op (the_literal v) (the_key name) =
    done (record { variable = name; literal_first = true; value = v })
paired op (the_key name) (the_key other) = raise (unsupported (some op) two_variables)
paired op (the_literal v) (the_literal w) = raise (unsupported (some op) two_values)

abbrev pub wrong_arity : Op → Attempt Binary
wrong_arity op =
    raise
      (if is_plan_comparison op then plain not_exactly_two else unsupported (some op) two_operands)

-- `binaryOperands`
unfoldable pub binary_operands : Op → Operands → Attempt Binary
unfolding is_plan_comparison classify paired
binary_operands op (operand e (operand f empty)) =
    classify op e >>= λ left. classify op f >>= λ right. paired op left right
binary_operands op es = wrong_arity op

-- The check that a negated operator has a negation, before the operands are read.
unfoldable pub negatable : Op → Bool → Attempt (Unit {0})
unfolding negation_of
negatable op negate = elim negate [ true ↦ negation_of op >>= λ negated. done tt | false ↦ done tt ]

unfoldable pub oriented_operator : Op → Bool → Attempt Op
unfolding mirror_of
oriented_operator op literal_first = elim literal_first [ true ↦ mirror_of op | false ↦ done op ]

unfoldable pub polarised_operator : Op → Bool → Attempt Op
unfolding negation_of
polarised_operator op negate = elim negate [ true ↦ negation_of op | false ↦ done op ]

-- `mapComparison`
unfoldable pub map_comparison : Op → Operands → FieldMapper → Bool → Attempt Where
unfolding negatable binary_operands oriented_operator polarised_operator resolve_field compare
map_comparison op es mapper negate = negatable op negate >>= λ checked.
    binary_operands op es >>= λ pair. oriented_operator op pair.literal_first >>= λ oriented.
    polarised_operator oriented negate >>= λ operator.
    resolve_field mapper pair.variable >>= λ field. compare field operator pair.value

-- `mapBooleanVariable`
unfoldable pub map_boolean_variable : Text → FieldMapper → Bool → Attempt Where
unfolding resolve_field compare
map_boolean_variable name mapper negate = resolve_field mapper name >>= λ field.
    compare field (if negate then Op.ne else Op.eq) (bool true)

abbrev pub has_two : Operands → Bool
has_two (operand e (operand f es)) = true
has_two _ = false

-- `(operator === "and") !== negate` chooses between `$and` and `$or`.
unfoldable pub junction : Bool → Operands → Attempt Wheres → Attempt Where
junction conjoined es children = demand (has_two es) (plain fewer_than_two) >>= λ enough.
    children >>= λ ws. done (if conjoined then all_of ws else any_of ws)

-- `operands[0]` of exactly one, translated under the other polarity.
abbrev pub negated_operand : Operands → Attempt Where → Attempt Where
negated_operand (operand e empty) flipped = flipped
negated_operand es flipped = raise (plain not_exactly_one)

-- The operators of `mapOperand`; `children` are the operands under this polarity and `flipped` is
-- the first of them under the other one.
unfoldable pub map_expression :
    Op → Operands → FieldMapper → Bool → Attempt Wheres → Attempt Where → Attempt Where
unfolding junction map_comparison
map_expression Op.and es mapper negate children flipped = junction (not negate) es children
map_expression Op.or es mapper negate children flipped = junction negate es children
map_expression Op.not es mapper negate children flipped = negated_operand es flipped
map_expression op es mapper negate children flipped = map_comparison op es mapper negate

unfoldable mutual
  unfolding map_expression map_boolean_variable

  -- `mapOperand`
  pub map_operand : Operand → FieldMapper → Bool → Attempt Where
  map_operand (variable name) mapper negate = map_boolean_variable name mapper negate
  map_operand (value v) mapper negate = raise (plain no_expression)
  map_operand malformed mapper negate = raise (plain no_expression)
  map_operand (expression op es) mapper negate =
      map_expression op es mapper negate (map_operands es mapper negate)
        (map_first es mapper (not negate))

  -- `operands.map((child) => mapOperand(child, …))`
  pub map_operands : Operands → FieldMapper → Bool → Attempt Wheres
  map_operands empty mapper negate = done none
  map_operands (operand e es) mapper negate =
      map_operand e mapper negate >>= λ w. map_operands es mapper negate >>= λ ws. done (also w ws)

  pub map_first : Operands → FieldMapper → Bool → Attempt Where
  map_first empty mapper negate = raise (plain not_exactly_one)
  map_first (operand e es) mapper negate = map_operand e mapper negate
