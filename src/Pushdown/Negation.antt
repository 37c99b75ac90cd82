-- ===== src/Pushdown/Negation.antt =====
-- convex/src/pushdown.ts: the negated bare variable, which carries no guard on the field's type.
use query_plan_adapters.Base.{◌≡◌, refl, ◌∙◌, ap, Bool, true, false, not, Text, ℤ}
use query_plan_adapters.Errors.{ok}
use query_plan_adapters.Value.{Value, evaluation_error, null, bool, num, str, arr, record_of}
use query_plan_adapters.Plan.{Op, operand, expression, variable, empty}
use query_plan_adapters.Plan.Mapper.{Mapper}
use query_plan_adapters.Plain.{IsPlain}
use query_plan_adapters.Cel.Path.{as_boolean}
use query_plan_adapters.Cel.Equality.{values_equal}
use query_plan_adapters.Evaluate.{evaluate, apply}
use query_plan_adapters.Evaluate.Frame.{look_up, arg}
use query_plan_adapters.Pushdown.{constant, can_push_to_db, emit_expression, translate_expression}
use query_plan_adapters.Pushdown.Engine.{Engine, stored}
use query_plan_adapters.Pushdown.Leaves.{document_scope, value_of-look_up, same-values_equal}

-- A stored value of another type than Boolean.
abbrev pub IsOtherType : Value → Type 0
IsOtherType null = Unit
IsOtherType (num x) = Unit
IsOtherType (str s) = Unit
IsOtherType (arr vs) = Unit
IsOtherType (record_of es) = Unit
IsOtherType _ = ⊥

not_true : (v : Value) → IsOtherType v → values_equal v (bool true) ≡ false
unfolding values_equal
not_true null h = refl
not_true (num x) h = refl
not_true (str s) h = refl
not_true (arr vs) h = refl
not_true (record_of es) h = refl
not_true Value.undefined h = absurd h
not_true evaluation_error h = absurd h
not_true (bool b) h = absurd h
not_true _ h = absurd h

not_boolean : (v : Value) → IsOtherType v → as_boolean v ≡ evaluation_error
unfolding as_boolean
not_boolean (bool b) h = absurd h
not_boolean v h = refl

-- The negation of a bare variable whose field holds a plain value that is no Boolean (null, a number,
-- a string, a list or a record): the filter that is pushed down holds for the document, where the
-- evaluator answers that the condition is an error.
pub negated_variable_lem :
    (E : Engine) (name : Text) (doc : Value) (mapper : Mapper) (missing : Bool) (now : ℤ)
    → can_push_to_db (variable name) mapper ≡ true
    → IsPlain (look_up name (document_scope doc mapper missing now))
    → IsOtherType (look_up name (document_scope doc mapper missing now))
    → (r : E.Expr) × (translate_expression E.q mapper
          (expression Op.not (operand (variable name) empty))
        ≡ ok r)
      × (E.holds r doc ≡ true)
      × (evaluate
            (expression Op.not (operand (variable name) empty))
            (document_scope doc mapper missing now)
          ≡ ok evaluation_error)
unfolding translate_expression emit_expression evaluate apply arg
negated_variable_lem E name doc mapper missing now pushable plain other =
    let v = look_up name (document_scope doc mapper missing now) in
    (
      _,
      refl,
      E.holds-negate _ doc
          ∙ ap not (
              E.holds-eq _ _ doc
              ∙ ap (λ x. E.same x (E.value_of (constant (bool true)) doc))
                  (value_of-look_up E name doc mapper missing now plain)
              ∙ ap (E.same (stored v)) (E.value_of-constant (bool true) doc)
              ∙ same-values_equal E v (bool true) plain tt
              ∙ not_true v other),
      rw (not_boolean v other) refl,
    )
