-- ===== src/Cel/Arithmetic.antt =====
-- convex/src/cel.ts, `intArithmetic`.
pub mod Division
use query_plan_adapters.Base.{
  ◌-◌, ◌^◌, ◌≡◌, refl, Option, none, some, if◌then◌else◌, ℤ, pos, negsuc, ◌+ℤ◌, ◌-ℤ◌, ◌*ℤ◌, div_ℤ,
  rem_ℤ, nat_abs, ◌==◌,
}
use query_plan_adapters.Number.{is_integer, trunc, of_int}
use query_plan_adapters.Value.{Value, evaluation_error, num, bigint}
use query_plan_adapters.Cel.Conversion.{cel_int}

-- `ArithmeticOperator`; `remainder` is "mod".
pub data ArithmeticOperator : Type 0 where
  add sub mult div remainder : ArithmeticOperator

-- `toBigInt`
unfoldable pub to_big_int : Value → Option ℤ
unfolding is_integer trunc
to_big_int (bigint n) = some n
to_big_int (num x) = if is_integer x then some (trunc x) else none
to_big_int _ = none

unfoldable pub int_result : ArithmeticOperator → ℤ → ℤ → Value
unfolding ◌+ℤ◌ ◌-ℤ◌ ◌*ℤ◌ div_ℤ rem_ℤ cel_int
int_result ArithmeticOperator.add a b = cel_int (a +ℤ b)
int_result ArithmeticOperator.sub a b = cel_int (a -ℤ b)
int_result ArithmeticOperator.mult a b = cel_int (a *ℤ b)
int_result ArithmeticOperator.div a b =
    if nat_abs b == 0 then evaluation_error else cel_int (div_ℤ a b)
int_result ArithmeticOperator.remainder a b =
    if nat_abs b == 0 then evaluation_error else cel_int (rem_ℤ a b)

abbrev pub both_ints : ArithmeticOperator → Option ℤ → Option ℤ → Value
both_ints op (some a) (some b) = int_result op a b
both_ints op _ _ = evaluation_error

-- `intArithmetic`
unfoldable pub int_arithmetic : ArithmeticOperator → Value → Value → Value
unfolding to_big_int int_result
int_arithmetic op left right = both_ints op (to_big_int left) (to_big_int right)

int_tests :
    (int_arithmetic ArithmeticOperator.div (num (of_int (negsuc 6))) (bigint (pos 2))
      ≡ num (of_int (negsuc 2)))
    × (int_arithmetic ArithmeticOperator.div (bigint (negsuc (2 ^ 63 - 1))) (bigint (negsuc 0))
        ≡ evaluation_error)
unfolding int_arithmetic of_int
int_tests = (refl, refl)
