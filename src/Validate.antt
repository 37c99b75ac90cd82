-- ===== src/Validate.antt =====
-- convex/src/validate.ts: the refusals made before any filter exists, each over the whole plan.
pub mod References
pub mod Unmapped
pub mod Nulls
mod Tests
use query_plan_adapters.Base.{
  ℕ, Bool, true, false, not, ◌&&◌, ◌||◌, Option, none, some, List, [], ◌∷◌, ◌++◌, any, Text,
  text_eq, get_elem?, if◌then◌else◌,
}
use query_plan_adapters.Errors.{
  Refusal, Failure, unsupported, unmapped, type_error, Result, ok, throw, ◌>>=◌, ◌>>◌, guard,
}
use query_plan_adapters.Value.{Value, arr, null, elems, is_null}
use query_plan_adapters.Plan.{
  Op, Operand, Operands, empty, operand, expression, value, variable, malformed,
}
use query_plan_adapters.Plan.Mapper.{Mapper, is_mapped_reference}
use query_plan_adapters.Evaluate.Frame.{root_of}
use query_plan_adapters.Evaluate.Lambda.{lambda_components, validate_macro}
use query_plan_adapters.Evaluate.Types.{
  validate_string_conversion, validate_modulo, validate_division, validate_pattern, validate_struct,
}

-- `operatorFor(name)`: a name with no entry is refused.
abbrev is_known : Op → Bool
is_known (Op.other name) = false
is_known _ = true

-- `OPERATORS[name].validate`
unfoldable pub validate_node : Op → Operands → Result (Unit {0})
unfolding validate_pattern validate_struct validate_macro validate_division validate_modulo
    validate_string_conversion
validate_node Op.matches es = validate_pattern es
validate_node Op.struct es = validate_struct es
validate_node Op.exists es = validate_macro 2 es
validate_node Op.exists_one es = validate_macro 2 es
validate_node Op.all es = validate_macro 2 es
validate_node Op.filter es = validate_macro 1 es
validate_node Op.map es = validate_macro 1 es
validate_node Op.div es = validate_division es
validate_node Op.modulo es = validate_modulo es
validate_node Op.string es = validate_string_conversion es
validate_node _ es = ok tt

abbrev is_struct : Option Op → Bool
is_struct (some Op.struct) = true
is_struct _ = false

abbrev is_set_field : Op → Bool
is_set_field Op.set_field = true
is_set_field _ = false

unfoldable mutual
  unfolding validate_node

  -- `validateStructure`
  pub validate_structure : Operand → Option Op → Result (Unit {0})
  validate_structure (value v) parent = ok tt
  validate_structure (variable name) parent = ok tt
  validate_structure malformed parent = throw (unsupported Refusal.invalid_structure)
  validate_structure (expression op es) parent =
      guard (is_known op) Refusal.unsupported_operator
      >> (guard (not (is_set_field op) || is_struct parent) Refusal.set_field_outside_struct
          >> (validate_node op es >> validate_operands es op))

  pub validate_operands : Operands → Op → Result (Unit {0})
  validate_operands empty parent = ok tt
  validate_operands (operand e es) parent =
      validate_structure e (some parent) >> validate_operands es parent

-- The operators whose operands are conditions themselves.
abbrev is_connective : Op → Bool
is_connective Op.and = true
is_connective Op.or = true
is_connective Op.not = true
is_connective _ = false

abbrev is_list_macro : Op → Bool
is_list_macro Op.filter = true
is_list_macro Op.map = true
is_list_macro _ = false

unfoldable mutual
  -- `assertNoListValuedCondition`
  pub assert_no_list_valued_condition : Operand → Result (Unit {0})
  assert_no_list_valued_condition (expression op es) =
      guard (not (is_list_macro op)) Refusal.list_valued_condition
      >> (if is_connective op then assert_no_list_valued_operands es else ok tt)
  assert_no_list_valued_condition _ = ok tt

  pub assert_no_list_valued_operands : Operands → Result (Unit {0})
  assert_no_list_valued_operands empty = ok tt
  assert_no_list_valued_operands (operand e es) =
      assert_no_list_valued_condition e >> assert_no_list_valued_operands es

-- `carriesNullLiteral`
abbrev pub null_or_with_null : Value → Bool
null_or_with_null (arr vs) = any is_null (elems vs)
null_or_with_null v = is_null v

unfoldable pub carries_null_literal : Operand → Bool
carries_null_literal (value v) = null_or_with_null v
carries_null_literal _ = false

unfoldable pub any_null_literal : Operands → Bool
unfolding carries_null_literal
any_null_literal empty = false
any_null_literal (operand e es) = carries_null_literal e || any_null_literal es

unfoldable mutual
  unfolding any_null_literal

  -- `assertNoNullComparisonOperands`
  pub assert_no_null_comparison_operands : Operand → Result (Unit {0})
  assert_no_null_comparison_operands (expression op es) =
      guard (not (any_null_literal es)) Refusal.null_operand >> assert_no_null_operands es
  assert_no_null_comparison_operands _ = ok tt

  pub assert_no_null_operands : Operands → Result (Unit {0})
  assert_no_null_operands empty = ok tt
  assert_no_null_operands (operand e es) =
      assert_no_null_comparison_operands e >> assert_no_null_operands es

-- A check of an operand, given the lambda variables that are bound around it.
abbrev pub Check : Type 0
Check = List Text → Result (Unit {0})

abbrev pub run_all : List Check → Check
run_all [] bound = ok tt
run_all (check ∷ checks) bound = check bound >> run_all checks bound

abbrev pub run_first : List Check → Check
run_first [] bound = ok tt
run_first (check ∷ checks) bound = check bound

abbrev pub or_crash : Option Check → Result Check
or_crash none = throw type_error
or_crash (some check) = ok check

-- The operands of one node: a lambda's body under its variables, `get-field`'s first operand, or all.
abbrev pub check_operands : Op → Operands → List Check → Check
check_operands Op.lambda es checks bound = lambda_components (expression Op.lambda es) >>= λ lambda.
    or_crash (get_elem? checks lambda.body_at) >>= λ check. check (bound ++ lambda.variables)
check_operands Op.get_field es checks bound = run_first checks bound
check_operands _ es checks bound = run_all checks bound

abbrev check_reference : Text → Mapper → Check
check_reference name mapper bound =
    if any (text_eq (root_of name)) bound || is_mapped_reference name mapper
    then ok tt
    else throw (unmapped name)

unfoldable mutual
  unfolding lambda_components root_of text_eq is_mapped_reference

  -- `assertEveryReferenceMapped`
  pub assert_every_reference_mapped : Operand → Mapper → Check
  assert_every_reference_mapped (variable name) mapper bound = check_reference name mapper bound
  assert_every_reference_mapped (value v) mapper bound = ok tt
  assert_every_reference_mapped malformed mapper bound = ok tt
  assert_every_reference_mapped (expression op es) mapper bound =
      check_operands op es (reference_checks es mapper) bound

  pub reference_checks : Operands → Mapper → List Check
  reference_checks empty mapper = []
  reference_checks (operand e es) mapper =
      assert_every_reference_mapped e mapper ∷ reference_checks es mapper
