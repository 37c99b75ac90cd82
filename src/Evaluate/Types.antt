-- ===== src/Evaluate/Types.antt =====
-- convex/src/evaluate.ts: the CEL types that can be read from the expression, and the checks that
-- are made of a node before any filter exists.
use query_plan_adapters.Base.{
  Bool, true, false, not, ◌&&◌, ◌||◌, Option, none, some, if◌then◌else◌, text_eq,
}
use query_plan_adapters.Errors.{Refusal, unsupported, Result, ok, throw, ◌>>◌, guard}
use query_plan_adapters.Number.{is_integer, is_zero}
use query_plan_adapters.Value.{Value, num, str}
use query_plan_adapters.Plan.{
  Op, Operand, variable, expression, value, malformed, Operands, empty, operand, is_variable,
}
use query_plan_adapters.Cel.Conversion.{convert_to_string}
use query_plan_adapters.Evaluate.Frame.{Bindings, bound_value, root_of}
use query_plan_adapters.Regex.{parse_safe_regex_pattern}

pub data TemporalKind : Type 0 where
  timestamp duration : TemporalKind

-- `temporalResultKind`, for "add" and "sub".
unfoldable pub temporal_result_kind :
    Op → Option TemporalKind → Option TemporalKind → Option TemporalKind
temporal_result_kind op (some duration) (some duration) = some duration
temporal_result_kind op (some timestamp) (some duration) = some timestamp
temporal_result_kind Op.add (some duration) (some timestamp) = some timestamp
temporal_result_kind Op.sub (some timestamp) (some timestamp) = some duration
temporal_result_kind op _ _ = none

-- `temporalKindOf`
unfoldable pub temporal_kind_of : Operand → Option TemporalKind
unfolding temporal_result_kind
temporal_kind_of (expression Op.timestamp es) = some timestamp
temporal_kind_of (expression Op.duration es) = some duration
temporal_kind_of (expression Op.time_since es) = some duration
temporal_kind_of (expression Op.add (operand left (operand right es))) =
    temporal_result_kind Op.add (temporal_kind_of left) (temporal_kind_of right)
temporal_kind_of (expression Op.sub (operand left (operand right es))) =
    temporal_result_kind Op.sub (temporal_kind_of left) (temporal_kind_of right)
temporal_kind_of _ = none

abbrev pub is_temporal : Option TemporalKind → Bool
is_temporal none = false
is_temporal (some kind) = true

-- `call.operands.some((operand) => temporalKindOf(operand) !== undefined)`
unfoldable pub any_temporal : Operands → Bool
unfolding temporal_kind_of
any_temporal empty = false
any_temporal (operand e es) = is_temporal (temporal_kind_of e) || any_temporal es

-- `Number.isInteger(value)`
abbrev pub is_integral : Value → Bool
is_integral (num x) = is_integer x
is_integral _ = false

-- `typeof value === "number" && !Number.isInteger(value)`
abbrev pub is_fractional : Value → Bool
is_fractional (num x) = not (is_integer x)
is_fractional _ = false

abbrev is_arithmetic : Op → Bool
is_arithmetic Op.add = true
is_arithmetic Op.sub = true
is_arithmetic Op.mult = true
is_arithmetic Op.div = true
is_arithmetic Op.modulo = true
is_arithmetic _ = false

abbrev int_by_operands : Op → Bool → Bool → Bool
int_by_operands Op.int all_ints any_int = true
int_by_operands Op.size all_ints any_int = true
int_by_operands op all_ints any_int = is_arithmetic op && (all_ints && any_int)

unfoldable mutual
  unfolding is_integer

  -- `isIntOperand`
  pub is_int_operand : Operand → Bool
  is_int_operand (value v) = is_integral v
  is_int_operand (variable name) = false
  is_int_operand malformed = false
  is_int_operand (expression op es) =
      int_by_operands op (every_int_operand es) (any_int_expression es)

  -- `isIntExpression`
  pub is_int_expression : Operand → Bool
  is_int_expression (expression op es) =
      int_by_operands op (every_int_operand es) (any_int_expression es)
  is_int_expression _ = false

  pub every_int_operand : Operands → Bool
  every_int_operand empty = true
  every_int_operand (operand e es) = is_int_operand e && every_int_operand es

  pub any_int_expression : Operands → Bool
  any_int_expression empty = false
  any_int_expression (operand e es) = is_int_expression e || any_int_expression es

pub data NumericType : Type 0 where
  int_type double_type : NumericType

abbrev first_known : Option NumericType → Option NumericType → Option NumericType
first_known none other = other
first_known (some type) other = some type

abbrev int_or : Bool → Option NumericType → Option NumericType
int_or int other = if int then some int_type else other

-- `numericTypeOf`; a branch that is missing has no type.
unfoldable pub numeric_type_of : Operand → Option NumericType
unfolding is_integer is_int_expression
numeric_type_of (value v) = if is_fractional v then some double_type else none
numeric_type_of (expression Op.double es) = some double_type
numeric_type_of (expression Op.if_else (operand c (operand t (operand f es)))) =
    first_known (numeric_type_of t) (numeric_type_of f)
numeric_type_of (expression Op.if_else (operand c (operand t empty))) = numeric_type_of t
numeric_type_of (expression op es) = int_or (is_int_expression (expression op es)) none
numeric_type_of _ = none

abbrev same_rendering : Value → Value → Bool
same_rendering (str s) (str t) = text_eq s t
same_rendering _ _ = true

-- An integral constant whose int and double renderings differ.
unfoldable pub untyped_constant : Value → Bool
unfolding is_integer convert_to_string text_eq
untyped_constant v =
    is_integral v && not (same_rendering (convert_to_string v true) (convert_to_string v false))

abbrev unknown_type : Option NumericType → Bool
unknown_type none = true
unknown_type (some type) = false

-- `rendersUntypedConstant`; `operands.slice(1)` leaves the condition out.
unfoldable mutual
  unfolding untyped_constant numeric_type_of

  pub renders_untyped_constant : Operand → Option NumericType → Bool
  renders_untyped_constant (value v) type = unknown_type type && untyped_constant v
  renders_untyped_constant (expression Op.if_else (operand c es)) type =
      any_untyped_constant es
        (first_known type (numeric_type_of (expression Op.if_else (operand c es))))
  renders_untyped_constant _ type = false

  pub any_untyped_constant : Operands → Option NumericType → Bool
  any_untyped_constant empty type = false
  any_untyped_constant (operand e es) type =
      renders_untyped_constant e type || any_untyped_constant es type

-- `validateStringConversion`
unfoldable pub validate_string_conversion : Operands → Result (Unit {0})
unfolding renders_untyped_constant
validate_string_conversion empty = ok tt
validate_string_conversion (operand e es) =
    guard (not (renders_untyped_constant e none)) Refusal.untyped_constant

unfoldable pub every_variable_or_int : Operands → Bool
unfolding is_int_operand
every_variable_or_int empty = true
every_variable_or_int (operand e es) =
    (is_variable e || is_int_operand e) && every_variable_or_int es

-- `validateModulo`
unfoldable pub validate_modulo : Operands → Result (Unit {0})
unfolding every_variable_or_int
validate_modulo es = guard (every_variable_or_int es) Refusal.untyped_modulo

abbrev pub is_zero_constant : Operand → Bool
is_zero_constant (value (num x)) = is_zero x
is_zero_constant _ = false

abbrev is_division : Operand → Bool
is_division (expression Op.div es) = true
is_division _ = false

-- `validateDivision`
unfoldable pub validate_division : Operands → Result (Unit {0})
unfolding is_zero
validate_division (operand numerator (operand denominator es)) = do
  guard (not (is_division denominator)) Refusal.nested_division
  guard (not (is_zero_constant denominator && not (is_zero_constant numerator)))
      Refusal.zero_divisor
validate_division _ = ok tt

abbrev is_safe_pattern : Operand → Bool
is_safe_pattern (value (str s)) = elim (parse_safe_regex_pattern s) [ none ↦ false | some p ↦ true ]
is_safe_pattern _ = false

-- `validatePattern`
unfoldable pub validate_pattern : Operands → Result (Unit {0})
unfolding parse_safe_regex_pattern
validate_pattern (operand receiver (operand pattern es)) =
    guard (is_safe_pattern pattern) Refusal.unsafe_pattern
validate_pattern _ = throw (unsupported Refusal.unsafe_pattern)

abbrev is_map_entry : Operand → Bool
is_map_entry (expression Op.set_field (operand (value (str k)) (operand v empty))) = true
is_map_entry _ = false

-- `validateStruct`
unfoldable pub validate_struct : Operands → Result (Unit {0})
validate_struct empty = ok tt
validate_struct (operand e es) = guard (is_map_entry e) Refusal.bad_map_entry >> validate_struct es

abbrev is_unbound : Option Value → Bool
is_unbound none = true
is_unbound (some v) = false

-- `isDocumentField`
unfoldable pub is_document_field : Operand → Bindings → Bool
unfolding bound_value root_of
is_document_field (variable name) bindings = is_unbound (bound_value (root_of name) bindings)
is_document_field _ bindings = false

-- `isDoubleOperand`
unfoldable pub is_double_operand : Operand → Bindings → Bool
unfolding is_document_field is_integer
is_double_operand (value v) bindings = is_fractional v
is_double_operand (variable name) bindings = is_document_field (variable name) bindings
is_double_operand (expression Op.double es) bindings = true
is_double_operand _ bindings = false

unfoldable pub any_double_operand : Operands → Bindings → Bool
unfolding is_double_operand
any_double_operand empty bindings = false
any_double_operand (operand e es) bindings =
    is_double_operand e bindings || any_double_operand es bindings

unfoldable pub any_variable : Operands → Bool
any_variable empty = false
any_variable (operand e es) = is_variable e || any_variable es
