-- ===== src/Chroma/PostFilter/Sums.antt =====
-- langchain-chromadb/src/postFilter.ts: the type that `arithmetic` gives to its result.
use query_plan_adapters.Base.{
  ◌≡◌, refl, Bool, true, ◌||◌, Option, none, some, arith, subst, ℤ, ◌+ℤ◌, ◌-ℤ◌,
}
use query_plan_adapters.Cel.Arithmetic.{ArithmeticOperator}
use query_plan_adapters.Cel.Duration.{checked_duration}
use query_plan_adapters.Chroma.Outcome.{Attempt, done}
use query_plan_adapters.Chroma.PostFilter.Values.{CelValue, span, of_value}
use query_plan_adapters.Chroma.PostFilter.Types.{
  StaticType, double, attribute, duration, other, Mode, int_mode, dynamic_mode, error_mode,
  arithmetic_mode, temporal_type, arithmetic_type, is_stored,
}
use query_plan_adapters.Chroma.PostFilter.Operations.{dynamic_arithmetic, temporal_arithmetic}
use query_plan_adapters.Chroma.PostFilter.Calculation.{run_mode, arithmetic}
use query_plan_adapters.Chroma.PostFilter.Typing.{has_type}
use query_plan_adapters.Chroma.PostFilter.Results.{
  exact_arithmetic-has_type, dynamic-attribute, dynamic-double_left, dynamic-double_right,
  dynamic-other_left, dynamic-other_right,
}

abbrev dynamic_case : Attempt Mode → Attempt (Option StaticType) → Bool → Bool
dynamic_case (done dynamic_mode) (done none) sides = sides
dynamic_case _ _ sides = true

-- Arithmetic on doubles has an operand that is certainly no int and no literal.
dynamic_sides :
    (op : ArithmeticOperator) (t u : StaticType)
    → dynamic_case (arithmetic_mode op t u) (temporal_type op t u) (is_stored t || is_stored u)
      ≡ true
unfolding arithmetic_mode temporal_type
dynamic_sides op t u = ground arith

dynamic_typed :
    (op : ArithmeticOperator) (t u : StaticType) (v w : CelValue)
    → (is_stored t || is_stored u) ≡ true
    → has_type v t ≡ true
    → has_type w u ≡ true
    → has_type (dynamic_arithmetic op v w) (arithmetic_type dynamic_mode t u) ≡ true
unfolding arithmetic_type
dynamic_typed op double u v w s h k = dynamic-double_left op v w h
dynamic_typed op t double v w s h k = dynamic-double_right op v w k
dynamic_typed op attribute u v w s h k = dynamic-attribute op v w
dynamic_typed op t attribute v w s h k = dynamic-attribute op v w
dynamic_typed op other u v w s h k = dynamic-other_left op v w h
dynamic_typed op t other v w s h k = dynamic-other_right op v w k
dynamic_typed op t u v w s h k = cc

pub run_mode-has_type :
    (op : ArithmeticOperator) (mode : Mode) (t u : StaticType) (v w : CelValue)
    → arithmetic_mode op t u ≡ done mode
    → temporal_type op t u ≡ done none
    → has_type v t ≡ true
    → has_type w u ≡ true
    → has_type (run_mode mode op v w) (arithmetic_type mode t u) ≡ true
unfolding arithmetic arithmetic_type
run_mode-has_type op int_mode t u v w m n h k = exact_arithmetic-has_type op v w
run_mode-has_type op error_mode t u v w m n h k = refl
run_mode-has_type op dynamic_mode t u v w m n h k = dynamic_typed op t u v w (sides m n) h k
  where
    sides :
        arithmetic_mode op t u ≡ done dynamic_mode
        → temporal_type op t u ≡ done none
        → (is_stored t || is_stored u) ≡ true
    sides m n =
        subst (λ b. dynamic_case (done dynamic_mode) b (is_stored t || is_stored u) ≡ true) n
          (subst (λ a. dynamic_case a (temporal_type op t u) (is_stored t || is_stored u) ≡ true) m
            (dynamic_sides op t u))

abbrev pub has_result_type : CelValue → Attempt (Option StaticType) → Bool
has_result_type v (done (some t)) = has_type v t
has_result_type v _ = true

checked-has_type : (n : ℤ) → has_type (of_value (checked_duration n)) duration ≡ true
unfolding checked_duration of_value
checked-has_type n = ground arith

pub temporal_typed :
    (op : ArithmeticOperator) (t u : StaticType) (v w : CelValue)
    → has_type v t ≡ true
    → has_type w u ≡ true
    → has_result_type (temporal_arithmetic op v w) (temporal_type op t u) ≡ true
unfolding temporal_arithmetic temporal_type
temporal_typed ArithmeticOperator.add StaticType.timestamp duration v w h k = ground arith
temporal_typed ArithmeticOperator.add duration StaticType.timestamp v w h k = ground arith
temporal_typed ArithmeticOperator.add duration duration (span a) (span b) h k =
    checked-has_type (a +ℤ b)
temporal_typed ArithmeticOperator.add duration duration v w h k = ground arith
temporal_typed ArithmeticOperator.sub StaticType.timestamp duration v w h k = ground arith
temporal_typed ArithmeticOperator.sub StaticType.timestamp StaticType.timestamp
      (CelValue.timestamp a) (CelValue.timestamp b) h k =
    checked-has_type (a -ℤ b)
temporal_typed ArithmeticOperator.sub StaticType.timestamp StaticType.timestamp v w h k =
    ground arith
temporal_typed ArithmeticOperator.sub duration duration (span a) (span b) h k =
    checked-has_type (a -ℤ b)
temporal_typed ArithmeticOperator.sub duration duration v w h k = ground arith
temporal_typed _ t u v w h k = ground arith
