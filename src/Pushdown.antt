-- ===== src/Pushdown.antt =====
-- convex/src/pushdown.ts: what Convex's filter engine can answer on its own, and the builder calls
-- that answer it. The filter is built through the caller's `q`, whose expressions are a type `R`.
pub mod Engine
pub mod Answers
pub mod Leaves
pub mod Ordering
pub mod Equality
pub mod Sound
pub mod Total
pub mod Negation
pub mod Mirror
pub mod Sample
mod Tests
use query_plan_adapters.Base.{
  ℕ, ◌-◌, ◌^◌, Bool, true, false, Option, none, some, List, [], ◌∷◌, map, ◌&&◌, if◌then◌else◌, Text,
  pos,
}
use query_plan_adapters.Base
use query_plan_adapters.Errors.{Refusal, Failure, unsupported, Result, ok, throw, ◌>>=◌}
use query_plan_adapters.Value.{Value, bool, num, bigint, str, arr, elems}
use query_plan_adapters.Plan.{
  Op, Operand, Operands, empty, operand, expression, value, variable, malformed,
}
use query_plan_adapters.Plan.Mapper.{Mapper, resolve_field, is_nullable_field}
use query_plan_adapters.Cel.Order.{Comparison}
use mathlib.Core.Bool.{not}

-- An argument of a builder call: a built expression, a constant, or `new ArrayBuffer(0)`.
pub data Argument (R : Type 0) : Type 0 where
  built : R → Argument R
  constant : Value → Argument R
  empty_bytes : Argument R

-- `FilterQ`
pub record FilterQ (R : Type 0) : Type 0 where
  pub eq : Argument R → Argument R → R
  pub neq : Argument R → Argument R → R
  pub lt : Argument R → Argument R → R
  pub lte : Argument R → Argument R → R
  pub gt : Argument R → Argument R → R
  pub gte : Argument R → Argument R → R
  pub all_of : List R → R
  pub any_of : List R → R
  pub negate : R → R
  pub field : Text → R

-- `fieldAndLiteral`
pub record FieldAndLiteral : Type 0 where
  pub field : Text
  pub literal : Value
  pub swapped : Bool

unfoldable pub field_and_literal : Operands → Option FieldAndLiteral
field_and_literal (operand (variable name) (operand (value v) es)) =
    some (record { field = name; literal = v; swapped = false })
field_and_literal (operand (value v) (operand (variable name) es)) =
    some (record { field = name; literal = v; swapped = true })
field_and_literal _ = none

-- `fieldInList`
unfoldable pub field_in_list : Operands → Option (Text × List Value)
field_in_list (operand (variable name) (operand (value (arr vs)) es)) = some (name, elems vs)
field_in_list _ = none

-- `MIRRORED_COMPARISON`
unfoldable pub mirrored : Comparison → Comparison
mirrored Comparison.eq = Comparison.eq
mirrored Comparison.ne = Comparison.ne
mirrored Comparison.lt = Comparison.gt
mirrored Comparison.le = Comparison.ge
mirrored Comparison.gt = Comparison.lt
mirrored Comparison.ge = Comparison.le

abbrev accepts_pair : Mapper → Option FieldAndLiteral → Bool
accepts_pair mapper none = false
accepts_pair mapper (some pair) = not (is_nullable_field pair.field mapper)

abbrev accepts_membership : Mapper → Option (Text × List Value) → Bool
accepts_membership mapper none = false
accepts_membership mapper (some (name, vs)) = not (is_nullable_field name mapper)

-- `PUSHDOWN_RULES[operator].accepts`; `all` is `allPushable` of the operands.
abbrev accepts : Op → Operands → Mapper → Bool → Bool
accepts Op.and es mapper all = all
accepts Op.or es mapper all = all
accepts Op.not es mapper all = all
accepts Op.eq es mapper all = accepts_pair mapper (field_and_literal es)
accepts Op.ne es mapper all = accepts_pair mapper (field_and_literal es)
accepts Op.lt es mapper all = accepts_pair mapper (field_and_literal es)
accepts Op.le es mapper all = accepts_pair mapper (field_and_literal es)
accepts Op.gt es mapper all = accepts_pair mapper (field_and_literal es)
accepts Op.ge es mapper all = accepts_pair mapper (field_and_literal es)
accepts Op.member es mapper all = accepts_membership mapper (field_in_list es)
accepts op es mapper all = false

unfoldable mutual
  unfolding field_and_literal field_in_list is_nullable_field

  -- `canPushToDb`
  pub can_push_to_db : Operand → Mapper → Bool
  can_push_to_db (value v) mapper = true
  can_push_to_db (variable name) mapper = not (is_nullable_field name mapper)
  can_push_to_db malformed mapper = false
  can_push_to_db (expression op es) mapper = accepts op es mapper (all_pushable es mapper)

  -- `allPushable`
  pub all_pushable : Operands → Mapper → Bool
  all_pushable empty mapper = true
  all_pushable (operand e es) mapper = can_push_to_db e mapper && all_pushable es mapper

-- The largest int64.
abbrev pub int64_max : Value
int64_max = bigint (pos (2 ^ 63 - 1))

module _ {R : Type 0} (q : FilterQ R) where
  abbrev pub polarised : Bool → R → R
  polarised negated e = if negated then q.negate e else e

  -- `q[CONVEX_COMPARISON[cel]]`
  abbrev pub convex_comparison : Comparison → Argument R → Argument R → R
  convex_comparison Comparison.eq a b = q.eq a b
  convex_comparison Comparison.ne a b = q.neq a b
  convex_comparison Comparison.lt a b = q.lt a b
  convex_comparison Comparison.le a b = q.lte a b
  convex_comparison Comparison.gt a b = q.gt a b
  convex_comparison Comparison.ge a b = q.gte a b

  -- `sameTypeAs`
  unfoldable pub same_type_as : Value → R → Option R
  same_type_as (num x) field = some (
      q.all_of
        (q.gt (built field) (constant int64_max) ∷ q.lt (built field) (constant (bool false)) ∷ []))
  same_type_as (bool b) field = some (
      q.all_of (
        q.gte (built field) (constant (bool false))
        ∷ q.lte (built field) (constant (bool true))
        ∷ []))
  same_type_as (str s) field =
      some
        (q.all_of (q.gte (built field) (constant (str [])) ∷ q.lt (built field) empty_bytes ∷ []))
  same_type_as _ field = none

  -- Holds for no document.
  abbrev pub never : R
  never = q.eq (constant (bool true)) (constant (bool false))

  module _ (mapper : Mapper) where
    -- `comparisonParts`: the comparison with the operand order resolved.
    abbrev compared : Comparison → FieldAndLiteral → R
    compared op pair =
        convex_comparison (if pair.swapped then mirrored op else op)
          (built (q.field (resolve_field pair.field mapper))) (constant pair.literal)

    abbrev guarded : Bool → R → Option R → R
    guarded negated e none = never
    guarded negated e (some guard) = q.all_of (guard ∷ polarised negated e ∷ [])

    -- The emission of `equalityRule`.
    unfoldable pub emit_equality : Comparison → Bool → Option FieldAndLiteral → Result R
    unfolding mirrored resolve_field
    emit_equality op negated none = throw (unsupported Refusal.field_and_value)
    emit_equality op negated (some pair) = ok (polarised negated (compared op pair))

    -- The emission of `orderingRule`: the guard stays outside any negation.
    unfoldable pub emit_ordering : Comparison → Bool → Option FieldAndLiteral → Result R
    unfolding mirrored resolve_field same_type_as
    emit_ordering op negated none = throw (unsupported Refusal.field_and_value)
    emit_ordering op negated (some pair) = ok (
        guarded negated (compared op pair)
          (same_type_as pair.literal (q.field (resolve_field pair.field mapper))))

    abbrev pub equals_field : Text → Value → R
    equals_field name v = q.eq (built (q.field (resolve_field name mapper))) (constant v)

    abbrev pub built_membership : Text → List Value → R
    built_membership name [] = never
    built_membership name (v ∷ []) = equals_field name v
    built_membership name (v ∷ w ∷ vs) = q.any_of (map (equals_field name) (v ∷ w ∷ vs))

    -- The emission of "in".
    unfoldable pub emit_membership : Bool → Option (Text × List Value) → Result R
    unfolding resolve_field
    emit_membership negated none = throw (unsupported Refusal.field_and_array)
    emit_membership negated (some (name, vs)) = ok (polarised negated (built_membership name vs))

    -- `junction`, of the emitted operands: `conjoined` is `combine === "and"`.
    unfoldable pub combine : Bool → List R → R
    combine conjoined [] = q.eq (constant (bool true)) (constant (bool conjoined))
    combine conjoined (e ∷ []) = e
    combine true (e ∷ f ∷ es) = q.all_of (e ∷ f ∷ es)
    combine false (e ∷ f ∷ es) = q.any_of (e ∷ f ∷ es)

    abbrev emit_junction : Bool → Result (List R) → Result R
    emit_junction conjoined emitted = emitted >>= λ es. ok (combine conjoined es)

    -- `PUSHDOWN_RULES[operator].emit`, or the refusal of an operator with no rule; `emitted` are the
    -- operands under the enclosing polarity, `flipped` is the first operand under the other one.
    abbrev emit_rule : Op → Operands → Bool → Result (List R) → Result R → Result R
    emit_rule Op.and es negated emitted flipped = emit_junction (not negated) emitted
    emit_rule Op.or es negated emitted flipped = emit_junction negated emitted
    emit_rule Op.not es negated emitted flipped = flipped
    emit_rule Op.eq es negated emitted flipped =
        emit_equality Comparison.eq negated (field_and_literal es)
    emit_rule Op.ne es negated emitted flipped =
        emit_equality Comparison.ne negated (field_and_literal es)
    emit_rule Op.lt es negated emitted flipped =
        emit_ordering Comparison.lt negated (field_and_literal es)
    emit_rule Op.le es negated emitted flipped =
        emit_ordering Comparison.le negated (field_and_literal es)
    emit_rule Op.gt es negated emitted flipped =
        emit_ordering Comparison.gt negated (field_and_literal es)
    emit_rule Op.ge es negated emitted flipped =
        emit_ordering Comparison.ge negated (field_and_literal es)
    emit_rule Op.member es negated emitted flipped = emit_membership negated (field_in_list es)
    emit_rule op es negated emitted flipped = throw (unsupported Refusal.unsupported_operator)

    abbrev emit_value : Bool → Value → Result R
    emit_value negated (bool b) =
        ok (polarised negated (q.eq (constant (bool true)) (constant (bool b))))
    emit_value negated _ = throw (unsupported Refusal.bare_value)

    unfoldable mutual
      unfolding emit_equality emit_ordering emit_membership combine field_and_literal field_in_list
          resolve_field

      -- `emitExpression`
      pub emit_expression : Operand → Bool → Result R
      emit_expression (value v) negated = emit_value negated v
      emit_expression (variable name) negated = ok (
          polarised negated
            (q.eq (built (q.field (resolve_field name mapper))) (constant (bool true))))
      emit_expression malformed negated = throw (unsupported Refusal.invalid_structure)
      emit_expression (expression op es) negated =
          emit_rule op es negated (emit_operands es negated) (emit_first es (not negated))

      -- `operands.map((op) => emitExpression(op, …))`
      pub emit_operands : Operands → Bool → Result (List R)
      emit_operands empty negated = ok []
      emit_operands (operand e es) negated = emit_expression e negated >>= λ first.
          emit_operands es negated >>= λ rest. ok (first ∷ rest)

      -- `emitExpression(operandAt(operands, 0, …), …)`
      pub emit_first : Operands → Bool → Result R
      emit_first empty negated = throw (unsupported Refusal.missing_operand)
      emit_first (operand e es) negated = emit_expression e negated

    -- `translateExpression`
    unfoldable pub translate_expression : Operand → Result R
    unfolding emit_expression
    translate_expression e = emit_expression e false
