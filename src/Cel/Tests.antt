-- ===== src/Cel/Tests.antt =====
-- The laws of the values on sample inputs.
use query_plan_adapters.Base.{
  ◌≢◌, some, ◌≡◌, ◌≢◌, refl, ◌↔◌, ◌⊎◌, ◌<◌, true, List, [], ◌∷◌, Text, text, ℤ, pos, negsuc, ◌+ℤ◌,
  ◌-ℤ◌, ◌*ℤ◌, ◌≤ℤ◌, nat_abs, is_neg, suc, arith,
}
use query_plan_adapters.Errors.{ok}
use query_plan_adapters.Value.{duration, bigint}
use query_plan_adapters.Cel.Order.{compare_code_points, code_points, zero_sign}
use query_plan_adapters.Cel.CodePoints.{
  lexicographic, compare_code_points-lexicographic, compare_code_points-eq-zero_iff,
}
use query_plan_adapters.Cel.Hierarchy.{is_strict_ancestor, hierarchies_overlap}
use query_plan_adapters.Cel.Hierarchy.Relations.{is_strict_ancestor_iff, hierarchies_overlap_iff}
use query_plan_adapters.Cel.Timestamp.{
  days_in_month, Stamp, utc, in_range, stamp_nanos, value_of_stamp,
}
use query_plan_adapters.Cel.Timestamp.Range.{utc_stamp_lem}
use query_plan_adapters.Cel.Timestamp.Calendar.{number, next_day, next_day_lem}
use query_plan_adapters.Cel.Duration.{
  out_of_fuel, parse_cel_duration, parse_components, in_int64, int64_min_nanos, int64_max_nanos,
  time_since,
}
use query_plan_adapters.Cel.Duration.Bounds.{
  parse_components_enough, parse_cel_duration-in_int64, time_since_lem,
}
use query_plan_adapters.Cel.Conversion.{cel_int, convert_to_int, convert_to_string}
use query_plan_adapters.Cel.Conversion.Digits.{convert_to_int-convert_to_string}
use query_plan_adapters.Cel.Arithmetic.{ArithmeticOperator, int_arithmetic}
use query_plan_adapters.Cel.Arithmetic.Division.{int_arithmetic_division}

compare_code_points-lexicographic_example :
    compare_code_points (text "ab") (text "b")
    ≡ lexicographic (code_points (text "ab")) (code_points (text "b"))
compare_code_points-lexicographic_example = compare_code_points-lexicographic (text "ab") (text "b")

compare_code_points-eq-zero_iff_example :
    (compare_code_points (text "ab") (text "b") ≡ zero_sign) ↔ (text "ab" ≡ text "b")
compare_code_points-eq-zero_iff_example =
    compare_code_points-eq-zero_iff (text "ab") (text "b") (omega arith, (omega arith, tt))
      (omega arith, tt)

is_strict_ancestor_iff_example :
    (is_strict_ancestor (text "a" ∷ []) (text "a" ∷ text "b" ∷ []) ≡ true)
    ↔ ((s : Text) × (rest : List Text) × (text "a" ∷ text "b" ∷ [] ≡ text "a" ∷ s ∷ rest))
is_strict_ancestor_iff_example = is_strict_ancestor_iff (text "a" ∷ []) (text "a" ∷ text "b" ∷ [])

hierarchies_overlap_iff_example : (hierarchies_overlap (text "a" ∷ []) (text "b" ∷ []) ≡ true) ↔ (
    (text "a" ∷ [] ≡ text "b" ∷ [])
    ⊎ ((is_strict_ancestor (text "a" ∷ []) (text "b" ∷ []) ≡ true)
        ⊎ (is_strict_ancestor (text "b" ∷ []) (text "a" ∷ []) ≡ true)))
hierarchies_overlap_iff_example = hierarchies_overlap_iff (text "a" ∷ []) (text "b" ∷ [])

february : days_in_month 2024 2 ≡ 29
unfolding days_in_month
february = refl

next_day_lem_example : number (next_day (2024, 2, 29)) ≡ suc (number (2024, 2, 29))
next_day_lem_example =
    next_day_lem 2024 2 29 (omega arith) (omega arith, omega arith)
      (omega arith, omega (arith, february))

parse_components_enough_example : parse_components 2 0 (text "1h") ≢ out_of_fuel
parse_components_enough_example = parse_components_enough 2 0 (text "1h") (omega arith)

one_second : parse_cel_duration (text "1s") ≡ ok (duration (pos 1_000_000_000))
unfolding parse_cel_duration
one_second = refl

parse_cel_duration-in_int64_example : in_int64 (pos 1_000_000_000) ≡ true
parse_cel_duration-in_int64_example =
    parse_cel_duration-in_int64 (text "1s") (pos 1_000_000_000) one_second

time_since_lem_example :
    (n : ℤ) × (time_since (pos 5) (negsuc 2) ≡ duration n)
    × (in_int64 n ≡ true)
    × (in_int64 (pos 5 -ℤ negsuc 2) ≡ true → n ≡ pos 5 -ℤ negsuc 2)
    × (int64_max_nanos ≤ℤ (pos 5 -ℤ negsuc 2) → n ≡ int64_max_nanos)
    × ((pos 5 -ℤ negsuc 2) ≤ℤ int64_min_nanos → n ≡ int64_min_nanos)
time_since_lem_example = time_since_lem (pos 5) (negsuc 2)

three_nonzero : nat_abs (negsuc 2) ≢ 0
three_nonzero h = cc

int_arithmetic_division_example :
    (q r : ℤ) × (int_arithmetic ArithmeticOperator.div (bigint (negsuc 6)) (bigint (negsuc 2))
      ≡ cel_int q)
    × (int_arithmetic ArithmeticOperator.remainder (bigint (negsuc 6)) (bigint (negsuc 2))
        ≡ cel_int r)
    × ((q *ℤ negsuc 2) +ℤ r ≡ negsuc 6)
    × (nat_abs r < 3)
    × (nat_abs r ≢ 0 → is_neg r ≡ true)
int_arithmetic_division_example = int_arithmetic_division (negsuc 6) (negsuc 2) three_nonzero

abbrev last_stamp : Stamp
last_stamp = record {
  year = 9999;
  month = 12;
  day = 31;
  hour = 23;
  minute = 59;
  second = 59;
  fraction = 999_999_999;
  zone = utc;
}

last_stamp-in_range : in_range last_stamp ≡ true
unfolding in_range
last_stamp-in_range = refl

utc_stamp_lem_example : value_of_stamp (some last_stamp) ≡ bigint (stamp_nanos last_stamp (pos 0))
utc_stamp_lem_example = utc_stamp_lem last_stamp last_stamp-in_range refl (omega arith)

convert_to_int-convert_to_string_example :
    convert_to_int (convert_to_string (bigint (negsuc 1_000_000)) true)
    ≡ convert_to_int (bigint (negsuc 1_000_000))
convert_to_int-convert_to_string_example = convert_to_int-convert_to_string (negsuc 1_000_000) true
