-- ===== src/Evaluate/Tests.antt =====
-- The evaluator's laws on sample operands and lists.
use query_plan_adapters.Base.{◌≡◌, ◌↔◌, ◌&&◌, not, true, false, List, [], ◌∷◌, text, pos}
use query_plan_adapters.Errors.{Result, ok, ◌>>=◌}
use query_plan_adapters.Value.{Value, null, bool, evaluation_error, record_of, end}
use query_plan_adapters.Plan.{Op, Operands, empty, operand, expression, value, variable}
use query_plan_adapters.Plan.Mapper.{table}
use query_plan_adapters.Cel.Path.{as_boolean}
use query_plan_adapters.Evaluate.{evaluate}
use query_plan_adapters.Evaluate.Access.{negated}
use query_plan_adapters.Evaluate.Frame.{Scope}
use query_plan_adapters.Evaluate.Macros.{Quantifier, quantify}
use query_plan_adapters.Evaluate.Duals.{
  negate_each, negate_body, evaluate-not_junction, quantify_dual,
}
use query_plan_adapters.Evaluate.Lists.{is_subset, except, intersect, list_contains}
use query_plan_adapters.Evaluate.Lists.Subsets.{members, is_subset_iff, intersect-except-members}
use query_plan_adapters.Plain.{IsMapFree}

abbrev scope : Scope
scope = record {
  doc = record_of end;
  mapper = table [];
  bindings = [];
  null_is_missing = false;
  now = pos 0;
}

abbrev two : Operands
two = operand (value (bool true)) (operand (variable (text "R.missing")) empty)

evaluate-not_junction_example :
    (evaluate (expression Op.not (operand (expression Op.and two) empty)) scope
      ≡ evaluate (expression Op.or (negate_each two)) scope)
    × (evaluate (expression Op.not (operand (expression Op.or two) empty)) scope
        ≡ evaluate (expression Op.and (negate_each two)) scope)
evaluate-not_junction_example = evaluate-not_junction two scope

abbrev itself : Value → Value → Result Value
itself first second = ok first

abbrev pairs : List (Value × Value)
pairs = (bool true, null) ∷ (evaluation_error, null) ∷ []

quantify_dual_example :
    (quantify Quantifier.exists (negate_body itself) pairs 0 false >>= λ v.
    ok (negated (as_boolean v)))
    ≡ quantify Quantifier.all itself pairs 0 false
quantify_dual_example = quantify_dual itself pairs

is_subset_iff_example : (is_subset (null ∷ []) (bool true ∷ null ∷ []) ≡ bool true) ↔ (
    (v : Value)
    → IsMapFree v
    → list_contains (null ∷ []) v ≡ true
    → list_contains (bool true ∷ null ∷ []) v ≡ true)
is_subset_iff_example = is_subset_iff (null ∷ []) (bool true ∷ null ∷ []) (tt, tt) (tt, (tt, tt))

intersect-except-members_example :
    (list_contains (members (intersect (null ∷ bool true ∷ []) (null ∷ []))) null
      ≡ (list_contains (null ∷ bool true ∷ []) null && list_contains (null ∷ []) null))
    × (list_contains (members (except (null ∷ bool true ∷ []) (null ∷ []))) null
        ≡ (list_contains (null ∷ bool true ∷ []) null && not (list_contains (null ∷ []) null)))
intersect-except-members_example =
    intersect-except-members (null ∷ bool true ∷ []) (null ∷ []) null (tt, (tt, tt)) (tt, tt) tt
