-- ===== src/Cel/Conversion.antt =====
-- convex/src/cel.ts, the conversions `string()`, `double()` and `int()`.
pub mod Digits
use Prim.Native.String.{String}
use query_plan_adapters.Base.{
  ℕ, zero, suc, ◌+◌, ◌-◌, ◌*◌, ◌/◌, ◌%◌, ◌^◌, ◌≡◌, refl, Bool, true, false, not, ◌&&◌, ◌||◌, Option,
  none, some, [], ◌∷◌, ◌++◌, ltb, leb, ◌==◌, if◌then◌else◌, length, take, drop, replicate, Text,
  text, ℤ, pos, negsuc, signed, nat_abs, is_neg, pos_part, neg_part, ltb_ℤ,
}
use query_plan_adapters.Number.{
  Number, nan, inf, fin, unit, round, of_int, is_integer, is_finite, trunc, number_lt,
}
use query_plan_adapters.Value.{Value, evaluation_error, bool, num, bigint, str}
use query_plan_adapters.Cel.Rendering.{digit_count, decimal, int_text, format_go_double}

-- `convertToString`, with `int` true where the operand is certainly a CEL int.
unfoldable pub convert_to_string : Value → Bool → Value
unfolding int_text format_go_double is_integer trunc
convert_to_string (str s) int = str s
convert_to_string (bool true) int = str (text "true")
convert_to_string (bool false) int = str (text "false")
convert_to_string (bigint n) int = str (int_text n)
convert_to_string (num x) int =
    if int && is_integer x then str (int_text (trunc x)) else str (format_go_double x)
convert_to_string _ int = evaluation_error

abbrev is_digit : ℕ → Bool
is_digit c = leb b'0' c && leb c b'9'

-- The digits at the head: how many, the number that they continue, and what follows.
unfoldable pub read_digits : ℕ → ℕ → Text → ℕ × ℕ × Text
read_digits count acc [] = (count, acc, [])
read_digits count acc (c ∷ s) =
    let rest = read_digits (suc count) (acc * 10 + (c - b'0')) s in
    if is_digit c then rest else (count, acc, c ∷ s)

abbrev signed_rest : Text → Bool × Text
signed_rest [] = (false, [])
signed_rest (c ∷ s) =
    if c == b'-' then (true, s) else if c == b'+' then (false, s) else (false, c ∷ s)

-- A decimal: sign, digits, digits behind the point, exponent.
pub record Decimal : Type 0 where
  pub negative : Bool
  pub mantissa : ℕ
  pub places : ℕ
  pub exponent : ℤ

abbrev finish_exponent : (ℤ → Decimal) → Bool → ℕ × ℕ × Text → Option Decimal
finish_exponent d behind (count, n, []) = if count == 0 then none else some (d (signed behind n))
finish_exponent d behind (count, n, c ∷ s) = none

abbrev signed_digits : (ℤ → Decimal) → Bool × Text → Option Decimal
signed_digits d (behind, s) = finish_exponent d behind (read_digits 0 0 s)

-- `(?:[eE][+-]?\d+)?$`
abbrev read_exponent : (ℤ → Decimal) → Text → Option Decimal
read_exponent d [] = some (d (pos 0))
read_exponent d (c ∷ s) =
    if (c == b'e') || (c == b'E') then signed_digits d (signed_rest s) else none

abbrev after_places : Bool → ℕ → ℕ × ℕ × Text → Option Decimal
after_places negative count (places, n, s) =
    if (count == 0) && (places == 0)
    then none
    else read_exponent
        (λ e. record { negative = negative; mantissa = n; places = places; exponent = e }) s

abbrev after_whole : Bool → ℕ × ℕ × Text → Option Decimal
after_whole negative (count, n, []) = after_places negative count (0, n, [])
after_whole negative (count, n, c ∷ s) =
    if c == b'.'
    then after_places negative count (read_digits 0 n s)
    else after_places negative count (0, n, c ∷ s)

-- `CEL_DOUBLE_STRING`
unfoldable pub match_double : Text → Option Decimal
unfolding read_digits
match_double s = let (negative, s') = signed_rest s in after_whole negative (read_digits 0 0 s')

-- `Number(value)` of such a text: the nearest double. Past the exponents that a double reaches the
-- result is an infinity or a zero, whatever the digits.
unfoldable pub decimal_number : Decimal → Number
unfolding round digit_count unit
decimal_number d =
    let up = pos_part d.exponent in
    let down = neg_part d.exponent + d.places in
    let size = digit_count d.mantissa + up in
    if d.mantissa == 0
    then fin d.negative 0
    else if ltb (400 + down) size
    then inf d.negative
    else if ltb (size + 400) down
    then fin d.negative 0
    else round d.negative (d.mantissa * 10 ^ (up - down) * unit) (10 ^ (down - up))

abbrev pub finite_or_error : Number → Value
finite_or_error x = if is_finite x then num x else evaluation_error

abbrev pub decimal_or_error : Option Decimal → Value
decimal_or_error none = evaluation_error
decimal_or_error (some d) = finite_or_error (decimal_number d)

-- `convertToDouble`
unfoldable pub convert_to_double : Value → Value
unfolding is_finite of_int match_double decimal_number
convert_to_double (num x) = finite_or_error x
convert_to_double (bigint n) = num (of_int n)
convert_to_double (str s) = decimal_or_error (match_double s)
convert_to_double _ = evaluation_error

abbrev pub int64_min : ℤ
int64_min = negsuc (2 ^ 63 - 1)

abbrev pub int64_max : ℤ
int64_max = pos (2 ^ 63 - 1)

-- `Number.isSafeInteger`
unfoldable pub is_safe_integer : Number → Bool
unfolding is_integer unit
is_safe_integer (fin s k) = is_integer (fin s k) && leb k ((2 ^ 53 - 1) * unit)
is_safe_integer _ = false

-- `celInt`: a number while it is a safe integer, a bigint past that.
unfoldable pub cel_int : ℤ → Value
unfolding of_int is_safe_integer
cel_int value =
    if ltb_ℤ value int64_min || ltb_ℤ int64_max value
    then evaluation_error
    else if is_safe_integer (of_int value)
    then num (of_int value)
    else bigint value

abbrev digits_value : Bool → ℕ × ℕ × Text → Option ℤ
digits_value negative (count, n, []) = if count == 0 then none else some (signed negative n)
digits_value negative (count, n, c ∷ s) = none

-- `CEL_INT_STRING` and `BigInt(value)`
unfoldable pub match_int : Text → Option ℤ
unfolding read_digits
match_int s = let (negative, s') = signed_rest s in digits_value negative (read_digits 0 0 s')

abbrev pub cel_int_or_error : Option ℤ → Value
cel_int_or_error none = evaluation_error
cel_int_or_error (some n) = cel_int n

-- The double bounds of int64: both are refused.
unfoldable pub within_int64 : Number → Bool
unfolding number_lt of_int
within_int64 x = number_lt (of_int int64_min) x && number_lt x (of_int (pos (2 ^ 63)))

-- `convertToInt`
unfoldable pub convert_to_int : Value → Value
unfolding cel_int match_int within_int64 trunc
convert_to_int (bigint n) = cel_int n
convert_to_int (num x) = if within_int64 x then cel_int (trunc x) else evaluation_error
convert_to_int (str s) = cel_int_or_error (match_int s)
convert_to_int _ = evaluation_error

-- Go's layout, on both sides of the exponents -4 and 6, and the rounding of a decimal.
rendered : String → Value
unfolding convert_to_string convert_to_double
rendered s = convert_to_string (convert_to_double (str (text s))) false

string_tests :
    (rendered "1000000" ≡ str (text "1e+06"))
    × (rendered "123456.789" ≡ str (text "123456.789"))
    × (rendered "-0.00015e-1" ≡ str (text "-1.5e-05"))
    × (rendered "0.3e0" ≡ str (text "0.3"))
    × (rendered "1e400" ≡ evaluation_error)
    × (rendered "9.9999999999999999e22" ≡ str (text "1e+23"))
    × (convert_to_string (num (of_int (pos 1_000_000))) true ≡ str (text "1000000"))
    × (convert_to_int (str (text "9007199254740993")) ≡ bigint (pos 9007199254740993))
unfolding rendered convert_to_int
string_tests = (refl, refl, refl, refl, refl, refl, refl, refl)
