-- ===== src/Cel/Rendering.antt =====
-- convex/src/cel.ts, `formatGoDouble` and the decimal text of an integer. The digits of a double are
-- those of JavaScript's `toExponential()`: the fewest that read back as the same double, and of those
-- the nearest.
use query_plan_adapters.Base.{
  ℕ, zero, suc, ◌+◌, ◌-◌, ◌*◌, ◌/◌, ◌%◌, ◌^◌, Bool, true, false, not, ◌&&◌, [], ◌∷◌, ◌++◌, ltb, leb,
  ◌==◌, if◌then◌else◌, length, take, drop, replicate, Text, text, ℤ, pos, negsuc, signed, nat_abs,
  is_neg,
}
use query_plan_adapters.Number.{Number, nan, inf, fin, unit, round, number_lt}

-- The decimal digits of a number, most significant first; the fuel is the number of digits.
unfoldable pub digits_from : ℕ → ℕ → Text → Text
digits_from zero n acc = acc
digits_from (suc fuel) n acc = elim (ltb n 10) [
  | true ↦ (b'0' + n) ∷ acc
  | false ↦ digits_from fuel (n / 10) ((b'0' + n % 10) ∷ acc)
]

unfoldable pub count_from : ℕ → ℕ → ℕ
count_from zero n = 1
count_from (suc fuel) n = elim (ltb n 10) [ true ↦ 1 | false ↦ suc (count_from fuel (n / 10)) ]

-- The number of decimal digits of a number; the number itself is fuel enough.
unfoldable pub digit_count : ℕ → ℕ
unfolding count_from
digit_count n = count_from n n

unfoldable pub decimal : ℕ → Text
unfolding digits_from digit_count
decimal n = digits_from (digit_count n) n []

abbrev pub sign_text : Bool → Text
sign_text true = text "-"
sign_text false = []

-- `value.toString()` of a bigint.
unfoldable pub int_text : ℤ → Text
unfolding decimal
int_text n = sign_text (is_neg n) ++ decimal (nat_abs n)

-- The leading decimal exponent of a multiple that is not zero: the value lies between 10^e and
-- 10^(e + 1).
small_exponent : ℕ → ℕ → ℕ → ℕ
small_exponent zero k j = j
small_exponent (suc fuel) k j = elim (leb unit k) [
  | true ↦ j
  | false ↦ small_exponent fuel (k * 10) (suc j)
]

decimal_exponent : ℕ → ℤ
unfolding small_exponent digit_count unit
decimal_exponent k =
    if leb unit k then pos (digit_count (k / unit) - 1) else signed true (small_exponent 400 k 0)

-- `n * 10^e` as a fraction.
abbrev scale_up : ℕ → ℤ → ℕ
scale_up n (pos e) = n * 10 ^ e
scale_up n (negsuc e) = n

abbrev scale_down : ℕ → ℤ → ℕ
scale_down n (pos e) = n
scale_down n (negsuc e) = n * 10 ^ suc e

abbrev half_up : ℕ → ℕ → ℕ
half_up a b = (2 * a + b) / (2 * b)

-- The exponent of the last of `p` digits, `e - (p - 1)`, and its opposite.
abbrev last_place : ℤ → ℕ → ℤ
last_place (pos e) p = if leb (p - 1) e then pos (e - (p - 1)) else negsuc (p - 1 - e - 1)
last_place (negsuc e) p = negsuc (e + (p - 1))

abbrev opposite : ℤ → ℤ
opposite n = if is_neg n then pos (nat_abs n) else signed true (nat_abs n)

-- The value of `k` multiples rounded to `p` digits, as a number of units of the last of them.
round_digits : ℕ → ℤ → ℕ → ℕ
unfolding unit
round_digits k e p =
    half_up (scale_up k (opposite (last_place e p))) (scale_down unit (opposite (last_place e p)))

-- Whether `d` units of the last place read back as `k` multiples.
reads_back : ℕ → ℕ → ℤ → Bool
unfolding round unit number_lt
reads_back k d place =
    let r = round false (scale_up (d * unit) place) (scale_down 1 place) in
    not (number_lt r (fin false k)) && not (number_lt (fin false k) r)

-- Digits that are a power of ten carry into the exponent.
abbrev carry : ℕ → ℕ → ℤ → ℕ × ℤ
carry d p e =
    if d == 10 ^ p then (1, elim e [ pos n ↦ pos (suc n) | negsuc n ↦ signed true n ]) else (d, e)

shortest : ℕ → ℕ → ℤ → ℕ → ℕ × ℤ
unfolding reads_back round_digits
shortest zero k e p = carry (round_digits k e p) p e
shortest (suc fuel) k e p =
    let d = round_digits k e p in
    elim (reads_back k d (last_place e p)) [
      | true ↦ carry d p e
      | false ↦ shortest fuel k e (suc p)
    ]

-- The digits, as a number with no trailing zero to spare, and the exponent of the first.
unfoldable pub to_exponential : ℕ → ℕ × ℤ
unfolding shortest decimal_exponent
to_exponential k = shortest 16 k (decimal_exponent k) 1

abbrev pad_two : Text → Text
pad_two s = replicate (2 - length s) b'0' ++ s

-- The layout of Go's `FormatFloat(d, 'g', -1, 64)`.
unfoldable pub layout : Text → Text → ℤ → Text
unfolding decimal
layout sign digits (pos e) =
    if leb 6 e
    then sign
      ++ take 1 digits
      ++ (if ltb 1 (length digits) then b'.' ∷ drop 1 digits else [])
      ++ text "e+"
      ++ pad_two (decimal e)
    else if leb (length digits) (suc e)
    then sign ++ digits ++ replicate (suc e - length digits) b'0'
    else sign ++ take (suc e) digits ++ b'.' ∷ drop (suc e) digits
layout sign digits (negsuc e) =
    if ltb 3 e
    then sign
      ++ take 1 digits
      ++ (if ltb 1 (length digits) then b'.' ∷ drop 1 digits else [])
      ++ text "e-"
      ++ pad_two (decimal (suc e))
    else sign ++ text "0." ++ replicate e b'0' ++ digits

abbrev layout_pair : Text → ℕ × ℤ → Text
layout_pair sign (d, e) = layout sign (decimal d) e

-- `formatGoDouble`
unfoldable pub format_go_double : Number → Text
unfolding layout to_exponential
format_go_double nan = text "NaN"
format_go_double (inf true) = text "-Inf"
format_go_double (inf false) = text "+Inf"
format_go_double (fin s k) =
    if k == 0 then sign_text s ++ text "0" else layout_pair (sign_text s) (to_exponential k)
