-- ===== src/Validate/Nulls.antt =====
-- convex/src/validate.ts, `assertNoNullComparisonOperands`: where a plan may hold a null literal under
-- the "omitted" convention.
use query_plan_adapters.Base.{
  ℕ, zero, suc, ◌≡◌, refl, Bool, true, false, not, ◌||◌, some, subst, some-injective, arith,
}
use query_plan_adapters.Errors.{ok, Refusal, guard, >>-eq-ok, check_ok}
use query_plan_adapters.Value.{Value}
use query_plan_adapters.Plan.{Op, Operand, Operands, empty, operand, expression, value, nth}
use query_plan_adapters.Validate.{
  null_or_with_null, carries_null_literal, any_null_literal, assert_no_null_comparison_operands,
  assert_no_null_operands,
}

-- An expression within another, at any depth, lambdas included.
pub data Within (inner : Operand) : Operand → Type 0 where
  itself : Within inner inner
  inside :
      {op : Op} {es : Operands} (i : ℕ) {e : Operand}
      → nth es i ≡ some e
      → Within inner e
      → Within inner (expression op es)

guard_ok : (test : Bool) (r : Refusal) → guard (not test) r ≡ ok tt → test ≡ false
guard_ok true r h = cc
guard_ok false r h = refl

or_false : (a b : Bool) → (a || b) ≡ false → (a ≡ false) × (b ≡ false)
or_false a b h = ground arith

literal_at :
    (es : Operands) (i : ℕ) {e : Operand}
    → any_null_literal es ≡ false
    → nth es i ≡ some e
    → carries_null_literal e ≡ false
unfolding any_null_literal
literal_at empty i h g = cc
literal_at (operand e es) zero h g =
    subst (λ x. carries_null_literal x ≡ false) (some-injective g) (or_false _ _ h).0
literal_at (operand e es) (suc i) h g = literal_at es i (or_false (carries_null_literal e) _ h).1 g

operand_at_ok :
    (es : Operands) (i : ℕ) {e : Operand}
    → assert_no_null_operands es ≡ ok tt
    → nth es i ≡ some e
    → assert_no_null_comparison_operands e ≡ ok tt
unfolding assert_no_null_comparison_operands
operand_at_ok empty i h g = cc
operand_at_ok (operand e es) zero h g =
    subst (λ x. assert_no_null_comparison_operands x ≡ ok tt) (some-injective g) (check_ok _ _ h)
operand_at_ok (operand e es) (suc i) h g = operand_at_ok es i (>>-eq-ok _ _ h) g

node_ok :
    (op : Op) (es : Operands)
    → assert_no_null_comparison_operands (expression op es) ≡ ok tt
    → (any_null_literal es ≡ false) × (assert_no_null_operands es ≡ ok tt)
unfolding assert_no_null_comparison_operands
node_ok op es h = (guard_ok _ _ (check_ok _ _ h), >>-eq-ok _ _ h)

literal_ok : (v : Value) → carries_null_literal (value v) ≡ false → null_or_with_null v ≡ false
unfolding carries_null_literal
literal_ok v h = h

-- Where the check of the "omitted" convention succeeds, no literal operand of an expression at any
-- depth is null or a list with a null in it.
pub assert_no_null_comparison_operands-Within :
    (op : Op) (es : Operands) (i : ℕ) (v : Value) (e : Operand)
    → assert_no_null_comparison_operands e ≡ ok tt
    → Within (expression op es) e
    → nth es i ≡ some (value v)
    → null_or_with_null v ≡ false
assert_no_null_comparison_operands-Within op es i v _ h itself g =
    literal_ok v (literal_at es i (node_ok op es h).0 g)
assert_no_null_comparison_operands-Within op es i v (expression outer fs) h (inside j found w) g =
    assert_no_null_comparison_operands-Within op es i v _
      (operand_at_ok fs j (node_ok outer fs h).1 found) w g
