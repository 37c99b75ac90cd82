-- ===== src/Evaluate/Lambda.antt =====
-- convex/src/evaluate.ts: a macro's lambda.
use query_plan_adapters.Base.{
  ℕ, Option, none, some, List, [], ◌∷◌, ◌==◌, if◌then◌else◌, Text, get_elem?, length, any, leb,
}
use query_plan_adapters.Errors.{Refusal, unsupported, type_error, Result, ok, throw, ◌>>=◌, guard}
use query_plan_adapters.Value.{Value}
use query_plan_adapters.Plan.{Op, Operand, variable, expression, Operands, empty, operand}
use query_plan_adapters.Cel.Path.{dot}
use query_plan_adapters.Evaluate.Frame.{Call, Run, Bindings, operand_at}

-- The body, where it stands among the lambda's operands, and the variables' names.
pub record Lambda : Type 0 where
  pub body : Operand
  pub body_at : ℕ
  pub variables : List Text

-- `looksLikeLambdaVariable`, with the name: a variable without a dot.
unfoldable pub lambda_variable : Operand → Option Text
lambda_variable (variable name) = if any (λ c. c == dot) name then none else some name
lambda_variable _ = none

abbrev pub two_variables : Operand → Option Text → Option Text → Result Lambda
two_variables body (some first) (some second) =
    ok (record { body = body; body_at = 0; variables = first ∷ second ∷ [] })
two_variables body _ _ = throw (unsupported Refusal.lambda_variables)

-- With one variable the operands stand in either order.
abbrev pub one_variable : Operand → Operand → Option Text → Option Text → Result Lambda
one_variable first second from_first (some name) =
    ok (record { body = first; body_at = 0; variables = name ∷ [] })
one_variable first second (some name) none =
    ok (record { body = second; body_at = 1; variables = name ∷ [] })
one_variable first second none none = throw (unsupported Refusal.lambda_variable)

abbrev lambda_operands : Operands → Result Lambda
lambda_operands (operand first (operand second empty)) =
    one_variable first second (lambda_variable first) (lambda_variable second)
lambda_operands (operand body (operand first (operand second empty))) =
    two_variables body (lambda_variable first) (lambda_variable second)
lambda_operands _ = throw (unsupported Refusal.lambda_arity)

-- `lambdaComponents`
unfoldable pub lambda_components : Operand → Result Lambda
unfolding lambda_variable
lambda_components (expression Op.lambda es) = lambda_operands es
lambda_components _ = throw (unsupported Refusal.expected_lambda)

-- `validateMacro`
unfoldable pub validate_macro : ℕ → Operands → Result (Unit {0})
unfolding lambda_components operand_at
validate_macro max_variables operands = do
  lambda ← operand_at operands 1
  components ← lambda_components lambda
  guard (leb (length components.variables) max_variables) Refusal.too_many_variables

-- The bindings of one item: `second` is used where the lambda has a second variable.
abbrev pub bind_item : List Text → Value → Value → Bindings → Bindings
bind_item [] first second bindings = bindings
bind_item (x ∷ []) first second bindings = (x, first) ∷ bindings
bind_item (x ∷ y ∷ more) first second bindings = (y, second) ∷ (x, first) ∷ bindings

-- `lambdaOf`
pub record LambdaOf : Type 0 where
  pub arity : ℕ
  pub body : Value → Value → Result Value

abbrev or_crash : Option Run → Result Run
or_crash none = throw type_error
or_crash (some run) = ok run

abbrev parts_at : List (List Run) → ℕ → Option Run
parts_at [] at = none
parts_at (first ∷ []) at = none
parts_at (first ∷ second ∷ more) at = get_elem? second at

unfoldable pub lambda_of : Call → Result LambdaOf
unfolding lambda_components operand_at
lambda_of call = do
  lambda ← operand_at call.operands 1
  components ← lambda_components lambda
  run ← or_crash (parts_at call.parts components.body_at)
  ok (record {
    arity = length components.variables;
    body = λ first second. run (record call.scope {
      bindings = bind_item components.variables first second call.scope.bindings;
    });
  })
