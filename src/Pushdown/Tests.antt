-- ===== src/Pushdown/Tests.antt =====
-- The filter of a sample plan, `status != "x" && !(age < 18)`, on a sample document.
use query_plan_adapters.Base.{
  ℕ, ◌*◌, ◌^◌, ◌≡◌, refl, ◌↔◌, true, false, none, some, [], ◌∷◌, List, sym, subst, ◌⊎◌, text,
  text_eq, pos,
}
use query_plan_adapters.Errors.{ok}
use query_plan_adapters.Number.{Number, fin}
use query_plan_adapters.Value.{
  Value, nil, cons, null, arr, evaluation_error, bool, num, str, record_of, entry, end,
}
use query_plan_adapters.Plan.{Op, Operand, empty, operand, expression, value, variable}
use query_plan_adapters.Plan.Mapper.{
  Mapper, table, is_nullable_field, resolve_field, is_mapped_reference, with_omitted_null_default,
  declared_nullable, with_omitted_null_default_lem,
}
use query_plan_adapters.Evaluate.{evaluate}
use query_plan_adapters.Evaluate.Macros.{junction}
use query_plan_adapters.Plain.{IsPlain, values_equal_iff}
use query_plan_adapters.Cel.Equality.{values_equal}
use query_plan_adapters.Cel.Order.{Comparison, compare_values}
use query_plan_adapters.Pushdown.Answers.{three_valued, junction_lem}
use query_plan_adapters.Pushdown.Negation.{IsOtherType, negated_variable_lem}
use query_plan_adapters.Pushdown.Mirror.{compare_values-mirrored}
use query_plan_adapters.Pushdown.{can_push_to_db, translate_expression, mirrored}
use query_plan_adapters.Pushdown.Leaves.{document_scope}
use query_plan_adapters.Evaluate.Frame.{look_up, read_path, Run}
use query_plan_adapters.Cel.Path.{get_nested_value}
use query_plan_adapters.Pushdown.Sound.{Reads}
use query_plan_adapters.Pushdown.Sample.{sample}
use query_plan_adapters.Pushdown.Total.{translate_expression-evaluate}

-- A whole number, in the units of `Number`.
abbrev whole : ℕ → Number
whole n = fin false (n * 2 ^ 1074)

abbrev mapper : Mapper
mapper = table (
    (text "R.status", record { field = some (text "status"); nullable = none })
    ∷ (text "R.age", record { field = some (text "age"); nullable = some false })
    ∷ [])

abbrev plan : Operand
plan = expression Op.and (
    operand
      (expression Op.ne
        (operand (variable (text "R.status")) (operand (value (str (text "x"))) empty)))
      (operand
        (expression Op.not (
          operand
            (expression Op.lt
              (operand (variable (text "R.age")) (operand (value (num (whole 18))) empty)))
            empty))
        empty))

abbrev doc : Value
doc = record_of (entry (text "status") (str (text "y")) (entry (text "age") (num (whole 30)) end))

pushable : can_push_to_db plan mapper ≡ true
unfolding can_push_to_db text_eq is_nullable_field
pushable = refl

read_as_plain : Reads (document_scope doc mapper false (pos 0)) plan
unfolding look_up text_eq resolve_field get_nested_value read_path
read_as_plain = ((tt, tt), (((tt, tt), tt), tt))

translate_expression-evaluate_example :
    (r : _) × (translate_expression sample.q mapper plan ≡ ok r)
    × ((sample.holds r doc ≡ true)
        ↔ (evaluate plan (document_scope doc mapper false (pos 0)) ≡ ok (bool true)))
translate_expression-evaluate_example =
    translate_expression-evaluate sample plan doc mapper false (pos 0) pushable
      (tt, ((tt, (tt, tt)), tt)) (read_as_plain)

-- A document whose status is null, under the negation of its status.
abbrev null_doc : Value
null_doc = record_of (entry (text "status") null end)

status_pushable : can_push_to_db (variable (text "R.status")) mapper ≡ true
unfolding can_push_to_db text_eq is_nullable_field
status_pushable = refl

status_is_null : look_up (text "R.status") (document_scope null_doc mapper false (pos 0)) ≡ null
unfolding look_up text_eq resolve_field get_nested_value read_path
status_is_null = refl

negated_variable_lem_example :
    (r : _) × (translate_expression sample.q mapper
        (expression Op.not (operand (variable (text "R.status")) empty))
      ≡ ok r)
    × (sample.holds r null_doc ≡ true)
    × (evaluate
          (expression Op.not (operand (variable (text "R.status")) empty))
          (document_scope null_doc mapper false (pos 0))
        ≡ ok evaluation_error)
negated_variable_lem_example =
    negated_variable_lem sample (text "R.status") null_doc mapper false (pos 0) status_pushable
      (subst IsPlain (sym status_is_null) tt) (subst IsOtherType (sym status_is_null) tt)

compare_values-mirrored_example :
    compare_values (mirrored Comparison.ne) (num (whole 18)) (num (whole 30))
    ≡ compare_values Comparison.ne (num (whole 30)) (num (whole 18))
compare_values-mirrored_example =
    compare_values-mirrored Comparison.ne (num (whole 18)) (num (whole 30)) tt

abbrev error_then_false : List Run
error_then_false = (λ scope. ok evaluation_error) ∷ (λ scope. ok (bool false)) ∷ []

junction_lem_example :
    junction false error_then_false (document_scope null_doc mapper false (pos 0)) false
    ≡ ok (three_valued false (evaluation_error ∷ bool false ∷ []) false)
junction_lem_example =
    junction_lem false error_then_false (document_scope null_doc mapper false (pos 0))
      (evaluation_error ∷ bool false ∷ []) false (refl, (refl, tt))

with_omitted_null_default_lem_example :
    (resolve_field (text "R.age") (with_omitted_null_default mapper)
      ≡ resolve_field (text "R.age") mapper)
    × (is_mapped_reference (text "R.age") (with_omitted_null_default mapper)
        ≡ is_mapped_reference (text "R.age") mapper)
    × ((is_nullable_field (text "R.age") (with_omitted_null_default mapper) ≡ false) ↔ (
        (declared_nullable (text "R.age") mapper ≡ none)
        ⊎ (declared_nullable (text "R.age") mapper ≡ some (some false))))
with_omitted_null_default_lem_example = with_omitted_null_default_lem (text "R.age") mapper

values_equal_iff_example :
    (values_equal (arr (cons null nil)) (arr (cons (bool true) nil)) ≡ true)
    ↔ (arr (cons null nil) ≡ arr (cons (bool true) nil))
values_equal_iff_example =
    values_equal_iff (arr (cons null nil)) (arr (cons (bool true) nil)) (tt, tt) (tt, tt)
