-- ===== src/Pushdown/Total.antt =====
-- convex/src/pushdown.ts: every condition that `canPushToDb` accepts is translated, and the filter
-- answers it as the evaluator does.
use mathlib.Core.Bool.{and-eq-true_iff}
use query_plan_adapters.Base.{
  ◌≡◌, refl, ◌↔◌, Bool, true, false, not, List, [], ◌∷◌, Option, none, some, ℤ,
}
use query_plan_adapters.Errors.{Result, ok, ◌>>=◌}
use query_plan_adapters.Value.{Value, bool}
use query_plan_adapters.Plan.{
  Op, Operand, Operands, empty, operand, expression, value, variable, malformed,
}
use query_plan_adapters.Plan.Mapper.{Mapper}
use query_plan_adapters.Cel.Order.{Comparison}
use query_plan_adapters.Evaluate.{evaluate}
use query_plan_adapters.Pushdown.{
  FilterQ, can_push_to_db, all_pushable, emit_expression, emit_operands, emit_equality,
  emit_ordering, emit_membership, translate_expression, FieldAndLiteral, field_and_literal,
  field_in_list, accepts_pair, accepts_membership,
}
use query_plan_adapters.Pushdown.Engine.{Engine}
use query_plan_adapters.Pushdown.Leaves.{document_scope}
use query_plan_adapters.Pushdown.Sound.{Reads, emit_sound, Agrees-iff}

-- A literal in Boolean position is a Boolean, and `not` has an operand.
abbrev HasOperand : Operands → Type 0
HasOperand empty = ⊥
HasOperand (operand e es) = Unit

abbrev IsConditionRule : Op → Operands → Type 0 → Type 0
IsConditionRule Op.and es all = all
IsConditionRule Op.or es all = all
IsConditionRule Op.not es all = HasOperand es × all
IsConditionRule _ es all = Unit

abbrev IsBoolean : Value → Type 0
IsBoolean (bool b) = Unit
IsBoolean _ = ⊥

abbrev mutual
  pub IsCondition : Operand → Type 0
  IsCondition (value v) = IsBoolean v
  IsCondition (variable name) = Unit
  IsCondition malformed = Unit
  IsCondition (expression op es) = IsConditionRule op es (AreConditions es)

  pub AreConditions : Operands → Type 0
  AreConditions empty = Unit
  AreConditions (operand e es) = IsCondition e × AreConditions es

module _ {R : Type 0} (q : FilterQ R) (mapper : Mapper) where
  abbrev Emits {ℓ} : {A : Type ℓ} → Result A → Type ℓ
  Emits {A} result = (a : A) × (result ≡ ok a)

  pair_total :
      (op : Comparison) (negated : Bool) (pair : Option FieldAndLiteral)
      → accepts_pair mapper pair ≡ true
      → Emits (emit_equality q mapper op negated pair)
        × Emits (emit_ordering q mapper op negated pair)
  unfolding emit_equality emit_ordering
  pair_total op negated none h = cc
  pair_total op negated (some pair) h = ((_, refl), (_, refl))

  membership_total :
      (negated : Bool) (found : Option _)
      → accepts_membership mapper found ≡ true
      → Emits (emit_membership q mapper negated found)
  unfolding emit_membership
  membership_total negated none h = cc
  membership_total negated (some (name, vs)) h = (_, refl)

  junction_total :
      {emitted : Result (List R)} (f : List R → R)
      → Emits emitted
      → Emits (emitted >>= λ es. ok (f es))
  junction_total f (es, p) = (f es, rw p)

  mutual
    unfolding can_push_to_db emit_expression

    emit_total :
        (e : Operand) (negated : Bool)
        → can_push_to_db e mapper ≡ true
        → IsCondition e
        → Emits (emit_expression q mapper e negated)
    emit_total (value (bool b)) negated h c = (_, refl)
    emit_total (value v) negated h c = absurd c
    emit_total (variable name) negated h c = (_, refl)
    emit_total malformed negated h c = cc
    emit_total (expression Op.and es) negated h c = junction_total _ (operands_total es negated h c)
    emit_total (expression Op.or es) negated h c = junction_total _ (operands_total es negated h c)
    emit_total (expression Op.not empty) negated h c = absurd c.0
    emit_total (expression Op.not (operand e es)) negated h c =
        emit_total e (not negated) ((and-eq-true_iff _ _).0 h).0 c.1.0
    emit_total (expression Op.eq es) negated h c =
        (pair_total Comparison.eq negated (field_and_literal es) h).0
    emit_total (expression Op.ne es) negated h c =
        (pair_total Comparison.ne negated (field_and_literal es) h).0
    emit_total (expression Op.lt es) negated h c =
        (pair_total Comparison.lt negated (field_and_literal es) h).1
    emit_total (expression Op.le es) negated h c =
        (pair_total Comparison.le negated (field_and_literal es) h).1
    emit_total (expression Op.gt es) negated h c =
        (pair_total Comparison.gt negated (field_and_literal es) h).1
    emit_total (expression Op.ge es) negated h c =
        (pair_total Comparison.ge negated (field_and_literal es) h).1
    emit_total (expression Op.member es) negated h c = membership_total negated (field_in_list es) h
    emit_total (expression _ es) negated h c = cc

    operands_total :
        (es : Operands) (negated : Bool)
        → all_pushable es mapper ≡ true
        → AreConditions es
        → Emits (emit_operands q mapper es negated)
    operands_total empty negated h c = ([], refl)
    operands_total (operand e es) negated h (c, cs) =
        let (first, rest) = (and-eq-true_iff _ _).0 h in
        let (r, p) = emit_total e negated first c in
        let (rs, p') = operands_total es negated rest cs in (r ∷ rs, rw (p, p'))

-- A condition that `canPushToDb` accepts (literals in Boolean position are Booleans, and every
-- `not` has an operand) is translated to a filter. On a document where the plan's bare variables
-- read as Booleans, its compared fields read as plain values and its literals hold no map, the
-- filter holds exactly when the evaluator answers true.
pub translate_expression-evaluate :
    (E : Engine) (e : Operand) (doc : Value) (mapper : Mapper) (missing : Bool) (now : ℤ)
    → can_push_to_db e mapper ≡ true
    → IsCondition e
    → Reads (document_scope doc mapper missing now) e
    → (r : E.Expr) × (translate_expression E.q mapper e ≡ ok r)
      × ((E.holds r doc ≡ true)
          ↔ (evaluate e (document_scope doc mapper missing now) ≡ ok (bool true)))
unfolding translate_expression
translate_expression-evaluate E e doc mapper missing now pushable condition reads =
    let (r, p) = emit_total E.q mapper e false pushable condition in
    (
      r,
      p,
      Agrees-iff E doc mapper missing now (emit_sound E doc mapper missing now e false reads p),
    )
