-- ===== src/Adapter/Tests.antt =====
-- The results of two sample plans: one that is pushed down whole, and one whose first operand is pushed
-- down and whose second, a `startsWith`, is left to the post-filter.
use query_plan_adapters.Base.{
  ◌≡◌, refl, ◌↔◌, ◌⊎◌, true, false, none, some, [], ◌∷◌, text, text_eq, pos, All, sym, ◌∙◌,
}
use query_plan_adapters.Errors.{ok, throw, needs_post_filter, ◌>>=◌}
use query_plan_adapters.Value.{Value, bool, str, record_of, entry, end}
use query_plan_adapters.Plan.{Op, Operand, empty, operand, expression, value, variable}
use query_plan_adapters.Plan.Mapper.{
  Mapper, table, is_nullable_field, resolve_field, is_mapped_reference,
}
use query_plan_adapters.Cel.Path.{get_nested_value}
use query_plan_adapters.Evaluate.{evaluate}
use query_plan_adapters.Evaluate.Frame.{look_up, read_path, root_of}
use query_plan_adapters.Pushdown.{can_push_to_db}
use query_plan_adapters.Pushdown.Leaves.{document_scope}
use query_plan_adapters.Pushdown.Sample.{sample}
use query_plan_adapters.Pushdown.Sound.{Reads}
use query_plan_adapters.Pushdown.Total.{IsCondition}
use query_plan_adapters.Validate.{
  validate_structure, assert_no_list_valued_condition, assert_every_reference_mapped, validate_node,
}
use query_plan_adapters.Adapter.{
  conditional, explicit, split, conjunction, convex_filter, post_filter_for, build_filters,
  query_plan_to_convex,
}
use query_plan_adapters.Adapter.Split.{evaluate-and_iff}
use query_plan_adapters.Adapter.Correct.{Selects, query_plan_to_convex-Selects}
use query_plan_adapters.Adapter.Outcomes.{query_plan_to_convex-allow}

abbrev mapper : Mapper
mapper = table (
    (text "R.status", record { field = some (text "status"); nullable = none })
    ∷ (text "R.name", record { field = some (text "name"); nullable = some false })
    ∷ [])

abbrev pushed : Operand
pushed =
    expression Op.eq
      (operand (variable (text "R.status")) (operand (value (str (text "on"))) empty))

abbrev left_over : Operand
left_over =
    expression Op.starts_with
      (operand (variable (text "R.name")) (operand (value (str (text "a"))) empty))

abbrev mixed : Operand
mixed = expression Op.and (operand pushed (operand left_over empty))

abbrev doc : Value
doc =
    record_of (entry (text "status") (str (text "on")) (entry (text "name") (str (text "ab")) end))

mixed_is_split :
    query_plan_to_convex (conditional mixed) mapper true explicit
    ≡ ok (
        split
          (convex_filter {R = sample.Expr} pushed mapper)
          (post_filter_for left_over mapper false))
unfolding query_plan_to_convex build_filters can_push_to_db conjunction text_eq is_nullable_field
    assert_no_list_valued_condition validate_structure assert_every_reference_mapped validate_node
    is_mapped_reference root_of
mixed_is_split = refl

status-Reads : Reads (document_scope doc mapper false (pos 0)) pushed
unfolding look_up text_eq resolve_field get_nested_value read_path
status-Reads = (tt, tt)

mixed_not_pushed : can_push_to_db mixed mapper ≡ false
unfolding can_push_to_db text_eq is_nullable_field
mixed_not_pushed = refl

left_over_not_pushed : can_push_to_db left_over mapper ≡ false
unfolding can_push_to_db text_eq is_nullable_field
left_over_not_pushed = refl

true_not_false : true ≡ false → ⊥
true_not_false h = cc

answerable :
    All
      (λ e.
        can_push_to_db e mapper ≡ true
        → IsCondition e × Reads (document_scope doc mapper false (pos 0)) e)
      (mixed ∷ pushed ∷ left_over ∷ [])
answerable = (
  λ h. absurd (true_not_false (sym h ∙ mixed_not_pushed)),
  (λ h. (tt, status-Reads), (λ h. absurd (true_not_false (sym h ∙ left_over_not_pushed)), tt)),
)

query_plan_to_convex-Selects_example :
    Selects sample
      (split (convex_filter pushed mapper) (post_filter_for left_over mapper false))
      doc
      (pos 0)
    ↔ (evaluate mixed (document_scope doc mapper false (pos 0)) ≡ ok (bool true))
query_plan_to_convex-Selects_example =
    query_plan_to_convex-Selects sample mixed mapper true explicit doc (pos 0)
      (split (convex_filter pushed mapper) (post_filter_for left_over mapper false)) mixed_is_split
      answerable

query_plan_to_convex-allow_example :
    ((can_push_to_db mixed mapper ≡ true)
      × (query_plan_to_convex {R = sample.Expr} (conditional mixed) mapper false explicit
          ≡ query_plan_to_convex (conditional mixed) mapper true explicit))
    ⊎ ((can_push_to_db mixed mapper ≡ false)
        × (query_plan_to_convex {R = sample.Expr} (conditional mixed) mapper false explicit ≡ (
            query_plan_to_convex {R = sample.Expr} (conditional mixed) mapper true explicit
            >>= λ result. throw needs_post_filter)))
query_plan_to_convex-allow_example = query_plan_to_convex-allow mixed mapper explicit

evaluate-and_iff_example :
    (evaluate mixed (document_scope doc mapper false (pos 0)) ≡ ok (bool true))
    ↔ All
        (λ e. evaluate e (document_scope doc mapper false (pos 0)) ≡ ok (bool true))
        (pushed ∷ left_over ∷ [])
evaluate-and_iff_example =
    evaluate-and_iff (operand pushed (operand left_over empty))
      (document_scope doc mapper false (pos 0))
