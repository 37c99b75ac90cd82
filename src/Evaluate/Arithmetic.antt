-- ===== src/Evaluate/Arithmetic.antt =====
-- convex/src/evaluate.ts: `arithmetic`, `temporalArithmetic` and `modulo`.
use query_plan_adapters.Base.{
  ℕ, Bool, true, false, not, ◌&&◌, ◌||◌, Option, none, some, ◌++◌, if◌then◌else◌, ℤ, ◌+ℤ◌, ◌-ℤ◌,
}
use query_plan_adapters.Errors.{Refusal, unsupported, Result, ok, throw}
use query_plan_adapters.Number.{Number, is_zero}
use query_plan_adapters.Number
use query_plan_adapters.Value.{
  Value, evaluation_error, num, bigint, str, arr, duration, elems, items,
}
use query_plan_adapters.Plan.{Op, Operands, expression, nth}
use query_plan_adapters.Cel.Timestamp.{checked_timestamp}
use query_plan_adapters.Cel.Duration.{checked_duration}
use query_plan_adapters.Cel.Arithmetic.{ArithmeticOperator, int_arithmetic}
use query_plan_adapters.Evaluate.Frame.{Call, arg_pair}
use query_plan_adapters.Evaluate.Types.{
  TemporalKind, timestamp, temporal_kind_of, temporal_result_kind, any_temporal, is_int_expression,
  any_int_expression, any_double_operand, any_variable, is_document_field,
}

-- The operator as `OPERATORS` names it.
abbrev pub op_of : ArithmeticOperator → Op
op_of ArithmeticOperator.add = Op.add
op_of ArithmeticOperator.sub = Op.sub
op_of ArithmeticOperator.mult = Op.mult
op_of ArithmeticOperator.div = Op.div
op_of ArithmeticOperator.remainder = Op.modulo

abbrev kind_at : Operands → ℕ → Option TemporalKind
kind_at es i = elim (nth es i) [ none ↦ none | some e ↦ temporal_kind_of e ]

abbrev pub nanos_of : Value → Option ℤ
nanos_of (duration n) = some n
nanos_of (bigint n) = some n
nanos_of _ = none

abbrev checked : TemporalKind → ℤ → Value
checked timestamp nanos = checked_timestamp nanos
checked _ nanos = checked_duration nanos

abbrev combine : ArithmeticOperator → ℤ → ℤ → ℤ
combine ArithmeticOperator.add a b = a +ℤ b
combine _ a b = a -ℤ b

abbrev temporal_result : ArithmeticOperator → Option TemporalKind → Option ℤ → Option ℤ → Value
temporal_result op (some kind) (some a) (some b) = checked kind (combine op a b)
temporal_result op _ _ _ = evaluation_error

-- `temporalArithmetic`
unfoldable pub temporal_arithmetic : ArithmeticOperator → Call → Result Value
unfolding temporal_kind_of temporal_result_kind checked_timestamp checked_duration ◌+ℤ◌ ◌-ℤ◌
    arg_pair
temporal_arithmetic op call = arg_pair call λ left right. ok (
    temporal_result op
      (temporal_result_kind (op_of op) (kind_at call.operands 0) (kind_at call.operands 1))
      (nanos_of left) (nanos_of right))

-- `readsDocument` of the divisor.
abbrev divisor_reads_document : Call → Bool
divisor_reads_document call = elim (nth call.operands 1) [
  | none ↦ false
  | some e ↦ is_document_field e call.scope.bindings
]

-- The operators over two numbers.
unfoldable pub double_arithmetic : ArithmeticOperator → Call → Number → Number → Result Value
unfolding Number.add Number.sub Number.mult Number.div Number.rem is_zero any_variable
    is_document_field
double_arithmetic ArithmeticOperator.add call x y = ok (num (Number.add x y))
double_arithmetic ArithmeticOperator.sub call x y = ok (num (Number.sub x y))
double_arithmetic ArithmeticOperator.mult call x y = ok (num (Number.mult x y))
double_arithmetic ArithmeticOperator.div call x y =
    if is_zero y && (not (is_zero x) && not (divisor_reads_document call))
    then throw (unsupported Refusal.zero_divisor)
    else ok (num (Number.div x y))
double_arithmetic ArithmeticOperator.remainder call x y =
    if any_variable call.operands || is_zero y
    then ok evaluation_error
    else ok (num (Number.rem x y))

-- Strings and lists are added too, and nothing else is.
abbrev by_values : ArithmeticOperator → Call → Value → Value → Result Value
by_values ArithmeticOperator.add call (str s) (str t) = ok (str (s ++ t))
by_values ArithmeticOperator.add call (arr vs) (arr ws) = ok (arr (items (elems vs ++ elems ws)))
by_values op call (num x) (num y) = double_arithmetic op call x y
by_values op call _ _ = ok evaluation_error

abbrev is_sum : ArithmeticOperator → Bool
is_sum ArithmeticOperator.add = true
is_sum ArithmeticOperator.sub = true
is_sum _ = false

abbrev plain_arithmetic : ArithmeticOperator → Call → Value → Value → Result Value
plain_arithmetic op call left right =
    if is_int_expression (expression (op_of op) call.operands)
    then ok (int_arithmetic op left right)
    else if any_int_expression call.operands && any_double_operand call.operands call.scope.bindings
    then ok evaluation_error
    else by_values op call left right

-- `arithmetic`
unfoldable pub arithmetic : ArithmeticOperator → Call → Result Value
unfolding double_arithmetic is_int_expression int_arithmetic any_double_operand temporal_arithmetic
    any_temporal arg_pair
arithmetic op call =
    if is_sum op && any_temporal call.operands
    then temporal_arithmetic op call
    else arg_pair call (plain_arithmetic op call)
