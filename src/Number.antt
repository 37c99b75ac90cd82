-- ===== src/Number.antt =====
-- JavaScript's `number`: IEEE 754 binary64, as convex/src/cel.ts and evaluate.ts use it. Every
-- finite double is a whole multiple of 2^-1074, so a finite value is a sign (true for minus) and
-- that multiple; `fin true 0` is the negative zero. Arithmetic is exact, then rounded to the nearest
-- double with ties to even.
pub mod Whole
use query_plan_adapters.Base.{
  ℕ, zero, suc, ◌+◌, ◌-◌, ◌*◌, ◌/◌, ◌%◌, ◌^◌, ◌≡◌, refl, Bool, true, false, not, ◌&&◌, ◌||◌, ltb,
  leb, ◌==◌, if◌then◌else◌, ℤ, pos, signed, nat_abs, is_neg,
}

pub data Number : Type 0 where
  nan : Number
  inf : Bool → Number
  fin : Bool → ℕ → Number

-- The multiple that stands for 1.
unfoldable pub unit : ℕ
unit = 2 ^ 1074

abbrev pub is_nan : Number → Bool
is_nan nan = true
is_nan _ = false

unfoldable pub is_finite : Number → Bool
is_finite (fin s k) = true
is_finite _ = false

-- `x < y`
unfoldable pub number_lt : Number → Number → Bool
number_lt nan y = false
number_lt (inf s) nan = false
number_lt (inf s) (inf t) = s && not t
number_lt (inf s) (fin t k) = s
number_lt (fin s j) nan = false
number_lt (fin s j) (inf t) = not t
number_lt (fin true j) (fin true k) = ltb k j
number_lt (fin true j) (fin false k) = ltb 0 (j + k)
number_lt (fin false j) (fin true k) = false
number_lt (fin false j) (fin false k) = ltb j k

-- `x <= y`: false where one of them is not a number.
unfoldable pub number_le : Number → Number → Bool
unfolding number_lt
number_le x y = not (is_nan x) && not (is_nan y) && not (number_lt y x)

-- The exact value of an integer, for the comparison of a bigint with a number.
unfoldable pub exact : ℤ → Number
exact n = fin (is_neg n) (nat_abs n * unit)

-- Rounds `num / den` multiples to the nearest double, ties to even.
exponent_from : ℕ → ℕ → ℕ
exponent_from zero q = 0
exponent_from (suc fuel) q = elim (ltb q (2 ^ 53)) [
  | true ↦ 0
  | false ↦ suc (exponent_from fuel (q / 2))
]

round_step : ℕ → ℕ → ℕ → ℕ
round_step num den step =
    let m = num / (den * step) in
    let r = num % (den * step) in
    (if ltb (den * step) (2 * r) || ((2 * r == den * step) && (m % 2 == 1)) then m + 1 else m)
    * step

abbrev overflow_to_inf : Bool → ℕ → Number
overflow_to_inf s k = if leb (2 ^ 2098) k then inf s else fin s k

unfoldable pub round : Bool → ℕ → ℕ → Number
unfolding exponent_from round_step
round s num den = overflow_to_inf s (round_step num den (2 ^ exponent_from 4200 (num / den)))

-- `Number(n)` for a bigint.
unfoldable pub of_int : ℤ → Number
unfolding round unit
of_int n = round (is_neg n) (nat_abs n * unit) 1

-- `Number.isInteger(x)` and `BigInt(Math.trunc(x))`.
unfoldable pub is_integer : Number → Bool
is_integer (fin s k) = k % unit == 0
is_integer _ = false

unfoldable pub trunc : Number → ℤ
trunc (fin s k) = signed s (k / unit)
trunc _ = pos 0

abbrev pub negate : Number → Number
negate nan = nan
negate (inf s) = inf (not s)
negate (fin s k) = fin (not s) k

unfoldable pub add : Number → Number → Number
unfolding round
add (fin true j) (fin true k) = round true (j + k) 1
add (fin false j) (fin false k) = round false (j + k) 1
add (fin true j) (fin false k) = if ltb k j then round true (j - k) 1 else round false (k - j) 1
add (fin false j) (fin true k) = if ltb j k then round true (k - j) 1 else round false (j - k) 1
add (fin s j) y = y
add (inf s) (inf true) = if s then inf true else nan
add (inf s) (inf false) = if s then nan else inf false
add (inf s) nan = nan
add (inf s) (fin t k) = inf s
add nan y = nan

unfoldable pub sub : Number → Number → Number
unfolding add
sub x y = add x (negate y)

abbrev pub xor : Bool → Bool → Bool
xor true t = not t
xor false t = t

unfoldable pub mult : Number → Number → Number
unfolding round unit
mult nan y = nan
mult (inf s) nan = nan
mult (inf s) (inf t) = inf (xor s t)
mult (inf s) (fin t k) = if k == 0 then nan else inf (xor s t)
mult (fin s j) nan = nan
mult (fin s j) (inf t) = if j == 0 then nan else inf (xor s t)
mult (fin s j) (fin t k) = round (xor s t) (j * k) unit

unfoldable pub div : Number → Number → Number
unfolding round unit
div nan y = nan
div (inf s) nan = nan
div (inf s) (inf t) = nan
div (inf s) (fin t k) = inf (xor s t)
div (fin s j) nan = nan
div (fin s j) (inf t) = fin (xor s t) 0
div (fin s j) (fin t k) =
    if k == 0 then if j == 0 then nan else inf (xor s t) else round (xor s t) (j * unit) k

-- `x % y`: exact, with the sign of `x`.
unfoldable pub rem : Number → Number → Number
rem nan y = nan
rem (inf s) y = nan
rem (fin s j) nan = nan
rem (fin s j) (inf t) = fin s j
rem (fin s j) (fin t k) = if k == 0 then nan else fin s (j % k)

-- `x === 0`, true of both zeros.
unfoldable pub is_zero : Number → Bool
is_zero (fin s k) = k == 0
is_zero _ = false

-- A third is rounded to 53 bits, and 0.1 + 0.2 is not 0.3.
abbrev tenths : ℕ → Number
tenths n = div (of_int (pos n)) (of_int (pos 10))

third : div (of_int (pos 1)) (of_int (pos 3)) ≡ fin false (6004799503160661 * 2 ^ 1020)
unfolding div of_int
third = refl

sum_of_tenths : number_lt (tenths 3) (add (tenths 1) (tenths 2)) ≡ true
unfolding div of_int add number_lt
sum_of_tenths = refl

rounded_int : of_int (pos (2 ^ 53 + 1)) ≡ of_int (pos (2 ^ 53))
unfolding of_int
rounded_int = refl
