-- ===== src/Evaluate/Duals.antt =====
-- convex/src/evaluate.ts: negation exchanges `and` with `or`, and `all` with `exists`, errors included.
use query_plan_adapters.Base.{
  ◌≡◌, refl, Bool, true, false, not, ◌||◌, List, [], ◌∷◌, if◌then◌else◌, ℕ,
}
use query_plan_adapters.Errors.{Result, ok, throw, ◌>>=◌}
use query_plan_adapters.Value.{Value, bool}
use query_plan_adapters.Plan.{Op, Operands, empty, operand, expression}
use query_plan_adapters.Cel.Path.{as_boolean}
use query_plan_adapters.Evaluate.{evaluate, apply, runs}
use query_plan_adapters.Evaluate.Access.{negated}
use query_plan_adapters.Evaluate.Frame.{Scope, arg}
use query_plan_adapters.Evaluate.Macros.{
  junction, is_bool, is_failure, Quantifier, quantify, round, after_round,
}

abbrev negate : Result Value → Result Value
negate r = r >>= λ v. ok (negated (as_boolean v))

-- Each operand under a `not`.
abbrev pub negate_each : Operands → Operands
negate_each empty = empty
negate_each (operand e es) = operand (expression Op.not (operand e empty)) (negate_each es)

round_dual :
    (decisive : Bool) (v : Value) (saw : Bool) (more more' : Bool → Result Value)
    → ((b : Bool) → negate (more b) ≡ more' b)
    → negate (
        if is_bool decisive (as_boolean v)
        then ok (bool decisive)
        else more (saw || is_failure (as_boolean v)))
      ≡ (if is_bool (not decisive) (as_boolean (negated (as_boolean v)))
          then ok (bool (not decisive))
          else more' (saw || is_failure (as_boolean (negated (as_boolean v)))))
unfolding as_boolean
round_dual true (bool true) saw more more' h = refl
round_dual true (bool false) saw more more' h = h _
round_dual false (bool true) saw more more' h = h _
round_dual false (bool false) saw more more' h = refl
round_dual true v saw more more' h = h _
round_dual false v saw more more' h = h _

junction_after :
    (decisive : Bool) (es : Operands) (scope : Scope) (saw : Bool) (r : Result Value)
    → ((b : Bool)
        → negate (junction decisive (runs es) scope b)
          ≡ junction (not decisive) (runs (negate_each es)) scope b)
    → negate (
        r >>= λ v.
        if is_bool decisive (as_boolean v)
        then ok (bool decisive)
        else junction decisive (runs es) scope (saw || is_failure (as_boolean v)))
      ≡ (negate r >>= λ v.
          if is_bool (not decisive) (as_boolean v)
          then ok (bool (not decisive))
          else junction
              (not decisive)
              (runs (negate_each es))
              scope
              (saw || is_failure (as_boolean v)))
junction_after decisive es scope saw (throw e) h = refl
junction_after decisive es scope saw (ok v) h = round_dual decisive v saw _ _ h

junction_dual :
    (decisive : Bool) (es : Operands) (scope : Scope) (saw : Bool)
    → negate (junction decisive (runs es) scope saw)
      ≡ junction (not decisive) (runs (negate_each es)) scope saw
unfolding junction evaluate apply arg as_boolean
junction_dual decisive empty scope true = refl
junction_dual true empty scope false = refl
junction_dual false empty scope false = refl
junction_dual decisive (operand e es) scope saw =
    junction_after decisive es scope saw (evaluate e scope) (λ b. junction_dual decisive es scope b)

-- De Morgan's laws of the evaluator: the negation of an `and` is the `or` of the negated operands,
-- and the negation of an `or` is the `and` of them, in errors and thrown refusals as well.
pub evaluate-not_junction :
    (es : Operands) (scope : Scope)
    → (evaluate (expression Op.not (operand (expression Op.and es) empty)) scope
        ≡ evaluate (expression Op.or (negate_each es)) scope)
      × (evaluate (expression Op.not (operand (expression Op.or es) empty)) scope
          ≡ evaluate (expression Op.and (negate_each es)) scope)
unfolding evaluate apply arg
evaluate-not_junction es scope =
    (junction_dual false es scope false, junction_dual true es scope false)

-- The body of a macro under a `not`.
abbrev pub negate_body : (Value → Value → Result Value) → Value → Value → Result Value
negate_body body first second = negate (body first second)

quantify_after :
    (body : Value → Value → Result Value) (rest : List (Value × Value)) (r : Result Value) (m n : ℕ)
    (saw : Bool)
    → ((i j : ℕ) (b : Bool)
        → negate (quantify Quantifier.exists (negate_body body) rest i b)
          ≡ quantify Quantifier.all body rest j b)
    → negate (
        negate r >>= λ v.
        after_round
          (quantify Quantifier.exists (negate_body body) rest)
          (round Quantifier.exists (as_boolean v) m saw))
      ≡ (r >>= λ v.
          after_round
            (quantify Quantifier.all body rest)
            (round Quantifier.all (as_boolean v) n saw))
unfolding as_boolean
quantify_after body rest (throw e) m n saw h = refl
quantify_after body rest (ok (bool true)) m n saw h = h _ _ _
quantify_after body rest (ok (bool false)) m n saw h = refl
quantify_after body rest (ok v) m n saw h = h _ _ _

counted_dual :
    (body : Value → Value → Result Value) (pairs : List (Value × Value)) (m n : ℕ) (saw : Bool)
    → negate (quantify Quantifier.exists (negate_body body) pairs m saw)
      ≡ quantify Quantifier.all body pairs n saw
unfolding quantify
counted_dual body [] m n true = refl
counted_dual body [] m n false = refl
counted_dual body ((first, second) ∷ rest) m n saw =
    quantify_after body rest (body first second) m n saw (counted_dual body rest)

-- `all` is the negation of `exists` with a negated body, on every list of items and for every body,
-- errors and thrown refusals included.
pub quantify_dual :
    (body : Value → Value → Result Value) (pairs : List (Value × Value))
    → negate (quantify Quantifier.exists (negate_body body) pairs 0 false)
      ≡ quantify Quantifier.all body pairs 0 false
quantify_dual body pairs = counted_dual body pairs 0 0 false
