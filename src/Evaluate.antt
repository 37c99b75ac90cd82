-- ===== src/Evaluate.antt =====
-- convex/src/evaluate.ts: the adapter's own CEL evaluator. `apply` is the roster `OPERATORS`, and
-- `evaluate` the entry point; recursion is on the expression.
pub mod Frame
pub mod Lambda
pub mod Types
pub mod Arithmetic
pub mod Lists
pub mod Macros
pub mod Access
pub mod Duals
mod Tests
use query_plan_adapters.Base.{
  Bool, true, false, List, [], ◌∷◌, Option, none, some, starts_with, ends_with, includes,
}
use query_plan_adapters.Errors.{Refusal, Failure, unsupported, Result, ok, throw, ◌>>=◌}
use query_plan_adapters.Value.{Value, evaluation_error, end}
use query_plan_adapters.Plan.{
  Op, Operand, Operands, empty, operand, expression, value, variable, malformed,
}
use query_plan_adapters.Cel.Path.{as_boolean}
use query_plan_adapters.Cel.Order.{Comparison}
use query_plan_adapters.Cel.Arithmetic.{ArithmeticOperator}
use query_plan_adapters.Cel.Hierarchy.{is_strict_ancestor, hierarchies_overlap}
use query_plan_adapters.Cel.Conversion.{convert_to_string, convert_to_double, convert_to_int}
use Frame.{Scope, Run, Call, arg, arg_pair, look_up}
use Types.{NumericType, int_type, numeric_type_of}
use Arithmetic.{arithmetic}
use Lists.{
  membership, list_operation, except, intersect, is_subset, has_intersection, list_literal,
  struct_literal,
}
use Macros.{junction, Quantifier, quantifier, filter_macro, map_macro}
use Access.{
  negated, comparison, string_test, matches, hierarchy_relation, index, get_field, size_of,
  upper_ascii, to_duration, to_timestamp, time_since_call, if_call, hierarchy_call,
}

abbrev map_arg : Call → (Value → Value) → Result Value
map_arg call f = arg call 0 >>= λ v. ok (f v)

abbrev pairwise : Call → (Value → Value → Value) → Result Value
pairwise call f = arg_pair call λ left right. ok (f left right)

abbrev is_int_type : Option NumericType → Bool
is_int_type (some int_type) = true
is_int_type _ = false

abbrev string_int : Operands → Bool
string_int empty = false
string_int (operand e es) = is_int_type (numeric_type_of e)

-- `OPERATORS[name].evaluate`, and the refusal of a name with no entry.
unfoldable pub apply : Op → Call → Result Value
unfolding arg arg_pair as_boolean convert_to_string convert_to_double convert_to_int size_of
    upper_ascii to_timestamp to_duration membership list_operation except intersect is_subset
    has_intersection is_strict_ancestor hierarchies_overlap starts_with ends_with includes
    list_literal struct_literal
apply Op.and call = junction false call.runs call.scope false
apply Op.or call = junction true call.runs call.scope false
apply Op.not call = map_arg call (λ v. negated (as_boolean v))
apply Op.eq call = comparison Comparison.eq call
apply Op.ne call = comparison Comparison.ne call
apply Op.lt call = comparison Comparison.lt call
apply Op.le call = comparison Comparison.le call
apply Op.gt call = comparison Comparison.gt call
apply Op.ge call = comparison Comparison.ge call
apply Op.member call = pairwise call membership
apply Op.contains call = string_test includes call
apply Op.starts_with call = string_test starts_with call
apply Op.ends_with call = string_test ends_with call
apply Op.matches call = matches call
apply Op.except call = pairwise call (list_operation except)
apply Op.intersect call = pairwise call (list_operation intersect)
apply Op.is_subset call = pairwise call (list_operation is_subset)
apply Op.list call = list_literal call.runs call.scope []
apply Op.struct call = struct_literal call.operands call.parts call.scope end
apply Op.set_field call = throw (unsupported Refusal.evaluated_set_field)
apply Op.has_intersection call = pairwise call (list_operation has_intersection)
apply Op.exists call = quantifier Quantifier.exists call
apply Op.exists_one call = quantifier Quantifier.exists_one call
apply Op.all call = quantifier Quantifier.all call
apply Op.filter call = filter_macro call
apply Op.map call = map_macro call
apply Op.lambda call = throw (unsupported Refusal.evaluated_lambda)
apply Op.add call = arithmetic ArithmeticOperator.add call
apply Op.sub call = arithmetic ArithmeticOperator.sub call
apply Op.mult call = arithmetic ArithmeticOperator.mult call
apply Op.div call = arithmetic ArithmeticOperator.div call
apply Op.modulo call = arithmetic ArithmeticOperator.remainder call
apply Op.index call = index call
apply Op.get_field call = get_field call
apply Op.size call = map_arg call size_of
apply Op.string call = map_arg call (λ v. convert_to_string v (string_int call.operands))
apply Op.double call = map_arg call convert_to_double
apply Op.int call = map_arg call convert_to_int
apply Op.upper_ascii call = map_arg call upper_ascii
apply Op.duration call = arg call 0 >>= to_duration
apply Op.time_since call = time_since_call call
apply Op.timestamp call = map_arg call to_timestamp
apply Op.if_else call = if_call call
apply Op.hierarchy call = hierarchy_call call
apply Op.ancestor_of call = hierarchy_relation is_strict_ancestor call
apply Op.descendent_of call = hierarchy_relation (λ left right. is_strict_ancestor right left) call
apply Op.overlaps call = hierarchy_relation hierarchies_overlap call
apply (Op.other name) call = throw (unsupported Refusal.unsupported_operator)

unfoldable mutual
  -- `evaluate`
  pub evaluate : Operand → Scope → Result Value
  evaluate (value v) scope = ok v
  evaluate (variable name) scope = ok (look_up name scope)
  evaluate malformed scope = throw (unsupported Refusal.invalid_structure)
  evaluate (expression op es) scope =
      apply op (record {
        operator = op;
        operands = es;
        scope = scope;
        runs = runs es;
        parts = parts_all es;
      })

  -- The evaluators of the operands, and of their operands.
  pub runs : Operands → List Run
  runs empty = []
  runs (operand e es) = evaluate e ∷ runs es

  pub parts_of : Operand → List Run
  parts_of (expression op es) = runs es
  parts_of _ = []

  pub parts_all : Operands → List (List Run)
  parts_all empty = []
  parts_all (operand e es) = parts_of e ∷ parts_all es
