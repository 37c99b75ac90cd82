-- ===== src/Cel/Order.antt =====
-- convex/src/cel.ts, `compareValues` and `compareCodePoints`.
use query_plan_adapters.Base.{
  ℕ, zero, suc, ◌+◌, ◌-◌, ◌*◌, Bool, true, false, not, ◌&&◌, ◌||◌, List, [], ◌∷◌, ltb, leb, ◌==◌,
  if◌then◌else◌, Text, ℤ, leb_ℤ, ltb_ℤ, length,
}
use query_plan_adapters.Number.{Number, is_nan, number_lt, number_le, exact}
use query_plan_adapters.Value.{Value, evaluation_error, bool, num, bigint, str, duration, is_error}
use query_plan_adapters.Cel.Equality.{values_equal}

-- `ComparisonOperator`
pub data Comparison : Type 0 where
  eq ne lt le gt ge : Comparison

abbrev is_high : ℕ → Bool
is_high a = leb 0xd800 a && leb a 0xdbff

abbrev is_low : ℕ → Bool
is_low a = leb 0xdc00 a && leb a 0xdfff

-- `s.codePointAt(i)` at the head of what is left, and what follows it: a high surrogate before a low
-- one is one code point, and any other code unit stands for itself.
abbrev pair_or_unit : ℕ → ℕ → Text → ℕ × Text
pair_or_unit a b s =
    if is_high a && is_low b
    then (0x1_0000 + (a - 0xd800) * 0x400 + (b - 0xdc00), s)
    else (a, b ∷ s)

unfoldable pub code_point_at : ℕ → Text → ℕ × Text
code_point_at a [] = (a, [])
code_point_at a (b ∷ s) = pair_or_unit a b s

-- `Array.from(s)`, by code points; the fuel is the number of code units.
unfoldable pub code_points_from : ℕ → Text → List ℕ
unfolding code_point_at
code_points_from zero s = []
code_points_from (suc fuel) [] = []
code_points_from (suc fuel) (a ∷ s) =
    (code_point_at a s).0 ∷ code_points_from fuel (code_point_at a s).1

unfoldable pub code_points : Text → List ℕ
unfolding code_points_from
code_points s = code_points_from (length s) s

-- The sign of `compareCodePoints`.
pub data Sign : Type 0 where
  negative zero_sign positive : Sign

-- The loop of `compareCodePoints`. Each round takes at least one unit of each text, so the number of
-- units of the first is fuel enough.
unfoldable pub compare_from : ℕ → Text → Text → Sign
unfolding code_point_at
compare_from fuel [] [] = zero_sign
compare_from fuel [] (b ∷ t) = negative
compare_from fuel (a ∷ s) [] = positive
compare_from zero (a ∷ s) (b ∷ t) = zero_sign
compare_from (suc fuel) (a ∷ s) (b ∷ t) =
    let (x, s') = code_point_at a s in
    let (y, t') = code_point_at b t in
    let rest = compare_from fuel s' t' in
    if x == y then rest else if ltb x y then negative else positive

unfoldable pub compare_code_points : Text → Text → Sign
unfolding compare_from
compare_code_points s t = compare_from (length s) s t

-- `a < b`, `a <= b`, `a > b`, `a >= b` for the sign of `a` against 0.
unfoldable pub by_sign : Comparison → Sign → Bool
by_sign Comparison.lt negative = true
by_sign Comparison.le negative = true
by_sign Comparison.le zero_sign = true
by_sign Comparison.ge zero_sign = true
by_sign Comparison.ge positive = true
by_sign Comparison.gt positive = true
by_sign _ _ = false

unfoldable pub by_number : Comparison → Number → Number → Bool
unfolding number_lt number_le
by_number Comparison.lt x y = number_lt x y
by_number Comparison.le x y = number_le x y
by_number Comparison.gt x y = number_lt y x
by_number Comparison.ge x y = number_le y x
by_number _ _ _ = false

unfoldable pub by_int : Comparison → ℤ → ℤ → Bool
by_int Comparison.lt a b = ltb_ℤ a b
by_int Comparison.le a b = leb_ℤ a b
by_int Comparison.gt a b = ltb_ℤ b a
by_int Comparison.ge a b = leb_ℤ b a
by_int _ _ _ = false

abbrev pub bool_number : Bool → ℕ
bool_number true = 1
bool_number false = 0

unfoldable pub by_bool : Comparison → Bool → Bool → Bool
by_bool Comparison.lt a b = ltb (bool_number a) (bool_number b)
by_bool Comparison.le a b = leb (bool_number a) (bool_number b)
by_bool Comparison.gt a b = ltb (bool_number b) (bool_number a)
by_bool Comparison.ge a b = leb (bool_number b) (bool_number a)
by_bool _ _ _ = false

abbrev pub is_nan_value : Value → Bool
is_nan_value (num x) = is_nan x
is_nan_value _ = false

-- The orderings of two values of one type.
unfoldable pub order_values : Comparison → Value → Value → Value
unfolding compare_code_points by_sign by_number by_int by_bool exact
order_values op (str s) (str t) = bool (by_sign op (compare_code_points s t))
order_values op (bool a) (bool b) = bool (by_bool op a b)
order_values op (num x) (num y) = bool (by_number op x y)
order_values op (num x) (bigint n) = bool (by_number op x (exact n))
order_values op (bigint m) (num y) = bool (by_number op (exact m) y)
order_values op (bigint m) (bigint n) = bool (by_int op m n)
order_values op (duration a) (duration b) = bool (by_int op a b)
order_values op _ _ = evaluation_error

-- An ordering against NaN is false, whatever the other operand is.
abbrev order_or_nan : Comparison → Value → Value → Value
order_or_nan op left right =
    if is_nan_value left || is_nan_value right then bool false else order_values op left right

abbrev by_operator : Comparison → Value → Value → Value
by_operator Comparison.eq left right = bool (values_equal left right)
by_operator Comparison.ne left right = bool (not (values_equal left right))
by_operator op left right = order_or_nan op left right

-- `compareValues`
unfoldable pub compare_values : Comparison → Value → Value → Value
unfolding order_values
compare_values op left right =
    if is_error left || is_error right then evaluation_error else by_operator op left right
