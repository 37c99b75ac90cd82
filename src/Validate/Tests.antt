-- ===== src/Validate/Tests.antt =====
-- The check of references on a sample condition: `R.tags.exists(t, t == R.owner)`.
use query_plan_adapters.Base.{◌≡◌, refl, true, false, none, [], ◌∷◌, text, text_eq}
use query_plan_adapters.Errors.{ok, throw, unmapped}
use query_plan_adapters.Plan.{value, Operands, Op, Operand, empty, operand, expression, variable}
use query_plan_adapters.Plan.Mapper.{Mapper, table, is_mapped_reference}
use query_plan_adapters.Evaluate.Frame.{root_of}
use query_plan_adapters.Evaluate.Lambda.{lambda_components}
use query_plan_adapters.Value.{bool}
use query_plan_adapters.Validate.{
  assert_every_reference_mapped, assert_no_null_comparison_operands, null_or_with_null,
}
use query_plan_adapters.Validate.Nulls.{itself, inside, assert_no_null_comparison_operands-Within}
use query_plan_adapters.Validate.References.{
  Refers, here, in_body, in_operand, assert_every_reference_mapped-Refers,
}
use query_plan_adapters.Validate.Unmapped.{assert_every_reference_mapped-unmapped}

abbrev same_owner : Operand
same_owner =
    expression Op.eq (operand (variable (text "t")) (operand (variable (text "R.owner")) empty))

abbrev over_tags : Operand
over_tags = expression Op.lambda (operand same_owner (operand (variable (text "t")) empty))

abbrev condition : Operand
condition = expression Op.exists (operand (variable (text "R.tags")) (operand over_tags empty))

abbrev both : Mapper
both = table (
    (text "R.tags", record { field = none; nullable = none })
    ∷ (text "R.owner", record { field = none; nullable = none })
    ∷ [])

abbrev tags_only : Mapper
tags_only = table ((text "R.tags", record { field = none; nullable = none }) ∷ [])

condition_checks : assert_every_reference_mapped condition both [] ≡ ok tt
unfolding assert_every_reference_mapped lambda_components root_of text_eq is_mapped_reference
condition_checks = refl

owner_is_free : Refers (text "R.owner") [] condition
unfolding lambda_components root_of text_eq
owner_is_free = in_operand 1 tt refl (
    in_body (record { body = same_owner; body_at = 0; variables = text "t" ∷ [] }) refl refl
      (in_operand 1 tt refl (here refl)))

assert_every_reference_mapped-Refers_example : is_mapped_reference (text "R.owner") both ≡ true
assert_every_reference_mapped-Refers_example =
    assert_every_reference_mapped-Refers both (text "R.owner") [] condition condition_checks
      owner_is_free

owner_is_refused :
    assert_every_reference_mapped condition tags_only [] ≡ throw (unmapped (text "R.owner"))
unfolding assert_every_reference_mapped lambda_components root_of text_eq is_mapped_reference
owner_is_refused = refl

assert_every_reference_mapped-unmapped_example :
    Refers (text "R.owner") [] condition × (is_mapped_reference (text "R.owner") tags_only ≡ false)
assert_every_reference_mapped-unmapped_example =
    assert_every_reference_mapped-unmapped tags_only (text "R.owner") [] condition owner_is_refused

abbrev tagged : Operands
tagged = operand (variable (text "R.flag")) (operand (value (bool true)) empty)

abbrev not_tagged : Operand
not_tagged = expression Op.not (operand (expression Op.eq tagged) empty)

not_tagged_checks : assert_no_null_comparison_operands not_tagged ≡ ok tt
unfolding assert_no_null_comparison_operands
not_tagged_checks = refl

assert_no_null_comparison_operands-Within_example : null_or_with_null (bool true) ≡ false
assert_no_null_comparison_operands-Within_example =
    assert_no_null_comparison_operands-Within Op.eq tagged 1 (bool true) not_tagged
      not_tagged_checks (inside 0 refl itself) refl
