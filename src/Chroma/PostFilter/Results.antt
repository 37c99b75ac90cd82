-- ===== src/Chroma/PostFilter/Results.antt =====
-- langchain-chromadb/src/postFilter.ts: the types of what the operators make.
use query_plan_adapters.Base.{
  pos, length, ◌≡◌, refl, Bool, true, false, ◌||◌, Option, none, some, List, ℤ, Text, arith, ◌+ℤ◌,
  ◌-ℤ◌, ◌*ℤ◌, div_ℤ, rem_ℤ,
}
use query_plan_adapters.Number.{Number, trunc}
use query_plan_adapters.Number.Whole.{is_whole-of_int}
use query_plan_adapters.Cel.Order.{code_points}
use query_plan_adapters.Value.{Value}
use query_plan_adapters.Cel.Arithmetic.{
  ArithmeticOperator, both_ints, int_arithmetic, to_big_int, int_result,
}
use query_plan_adapters.Cel.Conversion.{
  cel_int, match_double, match_int, Decimal, decimal_number, finite_or_error, decimal_or_error,
  cel_int_or_error, convert_to_string, convert_to_double, convert_to_int,
}
use query_plan_adapters.Cel.Duration.{time_since}
use query_plan_adapters.Cel.Order.{Comparison, order_values}
use query_plan_adapters.Cel.Timestamp.{parse_rfc3339_timestamp}
use query_plan_adapters.Chroma.PostFilter.Values.{
  item_list, field_names, list, dict, path, CelValue, error, flag, number, big, string, of_value,
  scalar, compare_values, compare_present, ordering, equality, is_error,
}
use query_plan_adapters.Chroma.PostFilter.Types.{StaticType, int, double, attribute, other}
use query_plan_adapters.Chroma.PostFilter.Operations.{
  contained, tested, upper_ascii, has_intersection, size_of, dynamic_arithmetic, exact_arithmetic,
  timestamp_of, to_timestamp, to_duration, since, to_double, to_int, to_text, int_to_text,
  to_hierarchy, to_hierarchy_by, related,
}
use query_plan_adapters.Chroma.PostFilter.Typing.{has_type, runs_to, has_type_if}

compare_order-has_type :
    (op : Comparison) (v w : Value) → has_type (of_value (order_values op v w)) other ≡ true
unfolding order_values of_value
compare_order-has_type op v w = ground arith

pub contained-has_type : (v w : CelValue) → has_type (contained v w) other ≡ true
unfolding contained
contained-has_type v w = ground arith

pub tested-has_type :
    (test : Text → Text → Bool) (v w : CelValue) → has_type (tested test v w) other ≡ true
unfolding tested
tested-has_type test v w = ground arith

pub upper_ascii-has_type : (v : CelValue) → has_type (upper_ascii v) other ≡ true
unfolding upper_ascii
upper_ascii-has_type v = ground arith

pub has_intersection-has_type : (v w : CelValue) → has_type (has_intersection v w) other ≡ true
unfolding has_intersection
has_intersection-has_type v w = ground arith

pub related-has_type :
    (relation : List Text → List Text → Bool) (v w : CelValue)
    → has_type (related relation v w) other ≡ true
unfolding related
related-has_type relation v w = ground arith

pub size_of-has_type : (v : CelValue) → has_type (size_of v) int ≡ true
unfolding size_of
size_of-has_type (string s) = is_whole-of_int (pos (length (code_points s)))
size_of-has_type (list vs) = is_whole-of_int (pos (length (item_list vs)))
size_of-has_type (path ss) = is_whole-of_int (pos (length ss))
size_of-has_type (dict fs) = is_whole-of_int (pos (length (field_names fs)))
size_of-has_type _ = refl

timestamp_of-has_type : (v : Value) → has_type (timestamp_of v) StaticType.timestamp ≡ true
timestamp_of-has_type v = ground arith

pub to_timestamp-has_type : (v : CelValue) → has_type (to_timestamp v) StaticType.timestamp ≡ true
unfolding to_timestamp
to_timestamp-has_type (string s) = timestamp_of-has_type (parse_rfc3339_timestamp s)
to_timestamp-has_type _ = refl

pub to_duration-has_type : (v : CelValue) → has_type (to_duration v) StaticType.duration ≡ true
unfolding to_duration
to_duration-has_type v = ground arith

pub since-has_type : (now : ℤ) (v : CelValue) → has_type (since now v) StaticType.duration ≡ true
unfolding since time_since of_value
since-has_type now v = ground arith

cel_int-has_type : (n : ℤ) → has_type (of_value (cel_int n)) int ≡ true
unfolding cel_int of_value
cel_int-has_type n = ground (arith, is_whole-of_int n)

finite_or_error-has_type : (x : Number) → has_type (of_value (finite_or_error x)) double ≡ true
unfolding of_value
finite_or_error-has_type x = ground arith

decimal_or_error-has_type :
    (d : Option Decimal) → has_type (of_value (decimal_or_error d)) double ≡ true
unfolding of_value
decimal_or_error-has_type none = refl
decimal_or_error-has_type (some d) = finite_or_error-has_type (decimal_number d)

cel_int_or_error-has_type : (n : Option ℤ) → has_type (of_value (cel_int_or_error n)) int ≡ true
unfolding of_value
cel_int_or_error-has_type none = refl
cel_int_or_error-has_type (some n) = cel_int-has_type n

pub to_double-has_type : (v : CelValue) → has_type (to_double v) double ≡ true
unfolding to_double convert_to_double of_value scalar
to_double-has_type (number x) = finite_or_error-has_type x
to_double-has_type (big n) = refl
to_double-has_type (string s) = decimal_or_error-has_type (match_double s)
to_double-has_type (flag b) = refl
to_double-has_type _ = refl

pub to_int-has_type : (v : CelValue) → has_type (to_int v) int ≡ true
unfolding to_int convert_to_int of_value scalar
to_int-has_type (number x) = ground (arith, cel_int-has_type (trunc x))
to_int-has_type (big n) = cel_int-has_type n
to_int-has_type (string s) = cel_int_or_error-has_type (match_int s)
to_int-has_type (flag b) = refl
to_int-has_type _ = refl

pub to_text-has_type : (v : CelValue) → has_type (to_text v) other ≡ true
unfolding to_text convert_to_string of_value scalar
to_text-has_type v = ground arith

pub to_hierarchy-has_type : (v : CelValue) → has_type (to_hierarchy v) other ≡ true
unfolding to_hierarchy
to_hierarchy-has_type v = ground arith

pub to_hierarchy_by-has_type : (v w : CelValue) → has_type (to_hierarchy_by v w) other ≡ true
unfolding to_hierarchy_by
to_hierarchy_by-has_type v w = ground arith

pub int_to_text-has_type : (v : CelValue) → runs_to (int_to_text v) other ≡ true
unfolding int_to_text
int_to_text-has_type v = ground (arith, to_text-has_type v)

ordering-has_type : (op : Comparison) (v w : CelValue) → has_type (ordering op v w) other ≡ true
unfolding compare_values
ordering-has_type op v w = ground (arith, compare_order-has_type op (scalar v) (scalar w))

equality-has_type : (wanted : Bool) (v w : CelValue) → has_type (equality wanted v w) other ≡ true
unfolding compare_values
equality-has_type wanted v w = ground arith

compare_present-has_type :
    (op : Comparison) (v w : CelValue) → has_type (compare_present op v w) other ≡ true
unfolding compare_values
compare_present-has_type Comparison.eq v w = equality-has_type true v w
compare_present-has_type Comparison.ne v w = equality-has_type false v w
compare_present-has_type op v w = ordering-has_type op v w

pub compare_values-has_type :
    (op : Comparison) (v w : CelValue) → has_type (compare_values op v w) other ≡ true
unfolding compare_values
compare_values-has_type op v w =
    has_type_if other (is_error v || is_error w) error (compare_present op v w) refl
      (compare_present-has_type op v w)

int_result-has_type :
    (op : ArithmeticOperator) (a b : ℤ) → has_type (of_value (int_result op a b)) int ≡ true
unfolding int_result of_value
int_result-has_type ArithmeticOperator.add a b = cel_int-has_type (a +ℤ b)
int_result-has_type ArithmeticOperator.sub a b = cel_int-has_type (a -ℤ b)
int_result-has_type ArithmeticOperator.mult a b = cel_int-has_type (a *ℤ b)
int_result-has_type ArithmeticOperator.div a b = ground (arith, cel_int-has_type (div_ℤ a b))
int_result-has_type ArithmeticOperator.remainder a b = ground (arith, cel_int-has_type (rem_ℤ a b))

both_ints-has_type :
    (op : ArithmeticOperator) (m n : Option ℤ) → has_type (of_value (both_ints op m n)) int ≡ true
unfolding of_value
both_ints-has_type op (some a) (some b) = int_result-has_type op a b
both_ints-has_type op _ _ = refl

pub exact_arithmetic-has_type :
    (op : ArithmeticOperator) (v w : CelValue) → has_type (exact_arithmetic op v w) int ≡ true
unfolding exact_arithmetic int_arithmetic
exact_arithmetic-has_type op v w =
    both_ints-has_type op (to_big_int (scalar v)) (to_big_int (scalar w))

pub dynamic-attribute :
    (op : ArithmeticOperator) (v w : CelValue)
    → has_type (dynamic_arithmetic op v w) attribute ≡ true
unfolding dynamic_arithmetic
dynamic-attribute op v w = ground arith

pub dynamic-double_left :
    (op : ArithmeticOperator) (v w : CelValue)
    → has_type v double ≡ true
    → has_type (dynamic_arithmetic op v w) double ≡ true
unfolding dynamic_arithmetic
dynamic-double_left op v w h = ground arith

pub dynamic-double_right :
    (op : ArithmeticOperator) (v w : CelValue)
    → has_type w double ≡ true
    → has_type (dynamic_arithmetic op v w) double ≡ true
unfolding dynamic_arithmetic
dynamic-double_right op v w h = ground arith

pub dynamic-other_left :
    (op : ArithmeticOperator) (v w : CelValue)
    → has_type v other ≡ true
    → has_type (dynamic_arithmetic op v w) other ≡ true
unfolding dynamic_arithmetic
dynamic-other_left op v w h = ground arith

pub dynamic-other_right :
    (op : ArithmeticOperator) (v w : CelValue)
    → has_type w other ≡ true
    → has_type (dynamic_arithmetic op v w) other ≡ true
unfolding dynamic_arithmetic
dynamic-other_right op v w h = ground arith
