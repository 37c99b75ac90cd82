-- ===== src/Cel/Duration.antt =====
-- convex/src/cel.ts, durations.
pub mod Bounds
use query_plan_adapters.Base.{
  ℕ, zero, suc, ◌+◌, ◌-◌, ◌*◌, ◌/◌, ◌^◌, ◌≡◌, refl, Bool, true, false, ◌&&◌, ◌||◌, Option, none,
  some, List, [], ◌∷◌, ◌++◌, ltb, leb, ◌==◌, if◌then◌else◌, Text, text, text_eq, any, length, ℤ,
  pos, negsuc, signed, ◌-ℤ◌, leb_ℤ, ltb_ℤ, nat_abs,
}
use query_plan_adapters.Errors.{Result, ok, throw, type_error}
use query_plan_adapters.Number.{mult, div, of_int, trunc}
use query_plan_adapters.Value.{Value, evaluation_error, duration}

abbrev pub two_to_63 : ℕ
two_to_63 = 2 ^ 63

abbrev pub int64_min_nanos : ℤ
int64_min_nanos = negsuc (2 ^ 63 - 1)

abbrev pub int64_max_nanos : ℤ
int64_max_nanos = pos (2 ^ 63 - 1)

-- `DURATION_UNITS[name]` is a plain object's property: a name that `Object.prototype` has is found
-- there, and is no number.
pub data UnitEntry : Type 0 where
  nanos : ℕ → UnitEntry
  inherited undefined_unit : UnitEntry

abbrev own_units : List (Text × ℕ)
own_units =
    (text "ns", 1)
    ∷ (text "us", 1_000)
    ∷ (0xb5 ∷ text "s", 1_000)
    ∷ (0x3bc ∷ text "s", 1_000)
    ∷ (text "ms", 1_000_000)
    ∷ (text "s", 1_000_000_000)
    ∷ (text "m", 60_000_000_000)
    ∷ (text "h", 3_600_000_000_000)
    ∷ []

abbrev pub prototype_keys : List Text
prototype_keys =
    text "constructor"
    ∷ text "__defineGetter__"
    ∷ text "__defineSetter__"
    ∷ text "hasOwnProperty"
    ∷ text "__lookupGetter__"
    ∷ text "__lookupSetter__"
    ∷ text "isPrototypeOf"
    ∷ text "propertyIsEnumerable"
    ∷ text "toString"
    ∷ text "valueOf"
    ∷ text "__proto__"
    ∷ text "toLocaleString"
    ∷ []

unit_in : List (Text × ℕ) → Text → UnitEntry
unit_in [] name = if any (text_eq name) prototype_keys then inherited else undefined_unit
unit_in ((k, n) ∷ rest) name = if text_eq k name then nanos n else unit_in rest name

unfoldable pub duration_unit : Text → UnitEntry
unfolding unit_in text_eq
duration_unit name = unit_in own_units name

abbrev pub is_digit : ℕ → Bool
is_digit c = leb b'0' c && leb c b'9'

-- The loop over the whole part: `none` on an overflow, else the number, whether a digit was seen,
-- and what is left.
unfoldable pub read_whole : ℕ → Bool → Text → Option (ℕ × Bool × Text)
read_whole whole saw [] = some (whole, saw, [])
read_whole whole saw (c ∷ s) =
    let next = whole * 10 + (c - b'0') in
    let rest = read_whole next true s in
    if is_digit c
    then if ltb (two_to_63 / 10) whole || ltb two_to_63 next then none else rest
    else some (whole, saw, c ∷ s)

-- The loop over the digits behind the point. Past the first that does not fit, digits are skipped.
pub record Fraction : Type 0 where
  pub overflow : Bool
  pub fraction : ℕ
  pub scale : ℕ
  pub saw : Bool

abbrev pub no_fraction : Fraction
no_fraction = record { overflow = false; fraction = 0; scale = 1; saw = false }

unfoldable pub add_digit : Fraction → ℕ → Fraction
add_digit f c =
    let next = f.fraction * 10 + (c - b'0') in
    if f.overflow
    then record f { saw = true }
    else if ltb ((2 ^ 63 - 1) / 10) f.fraction || ltb two_to_63 next
    then record f { overflow = true; saw = true }
    else record f { fraction = next; scale = f.scale * 10; saw = true }

unfoldable pub read_fraction : Fraction → Text → Fraction × Text
unfolding add_digit
read_fraction f [] = (f, [])
read_fraction f (c ∷ s) =
    let rest = read_fraction (add_digit f c) s in if is_digit c then rest else (f, c ∷ s)

unfoldable pub read_point : Text → Fraction × Text
unfolding read_fraction
read_point [] = (no_fraction, [])
read_point (c ∷ s) = if c == b'.' then read_fraction no_fraction s else (no_fraction, c ∷ s)

-- The name of the unit: everything up to the next digit or point.
unfoldable pub read_unit : Text → Text → Text × Text
read_unit name [] = (name, [])
read_unit name (c ∷ s) =
    let rest = read_unit (name ++ c ∷ []) s in
    if (c == b'.') || is_digit c then (name, c ∷ s) else rest

-- `BigInt(Math.trunc(Number(fraction) * (Number(unit) / scale)))`
unfoldable pub fraction_nanos : Fraction → ℕ → ℕ
unfolding mult div of_int trunc
fraction_nanos f unit =
    nat_abs
      (trunc (mult (of_int (pos f.fraction)) (div (of_int (pos unit)) (of_int (pos f.scale)))))

-- The nanoseconds of one component, `none` where they do not fit.
unfoldable pub component : ℕ → Fraction → ℕ → Option ℕ
unfolding fraction_nanos
component whole f unit =
    if ltb (two_to_63 / unit) whole
    then none
    else if ltb 0 f.fraction
    then if ltb two_to_63 (whole * unit + fraction_nanos f unit)
      then none
      else some (whole * unit + fraction_nanos f unit)
    else some (whole * unit)

-- What follows the number of a component: its unit, and the sum so far.
pub data Step : Type 0 where
  failed inherited_unit : Step
  next : ℕ → Text → Step

abbrev add_component : ℕ → Option ℕ → Text → Step
add_component total none s = failed
add_component total (some value) s =
    if ltb two_to_63 (total + value) then failed else next (total + value) s

abbrev with_unit : ℕ → ℕ → Fraction → UnitEntry → Text → Step
with_unit total whole f (nanos unit) s = add_component total (component whole f unit) s
with_unit total whole f inherited s = inherited_unit
with_unit total whole f undefined_unit s = failed

abbrev with_name : ℕ → ℕ → Fraction → Text × Text → Step
with_name total whole f ([], s) = failed
with_name total whole f (c ∷ name, s) = with_unit total whole f (duration_unit (c ∷ name)) s

abbrev after_number : ℕ → ℕ → Bool → Fraction × Text → Step
after_number total whole saw_whole (f, s) =
    if saw_whole || f.saw then with_name total whole f (read_unit [] s) else failed

abbrev after_whole : ℕ → Option (ℕ × Bool × Text) → Step
after_whole total none = failed
after_whole total (some (whole, saw, s)) = after_number total whole saw (read_point s)

-- One round of the loop, on a text that is not empty.
unfoldable pub parse_component : ℕ → Text → Step
unfolding read_whole read_point read_unit duration_unit component
parse_component total [] = failed
parse_component total (c ∷ s) =
    if (c == b'.') || is_digit c then after_whole total (read_whole 0 false (c ∷ s)) else failed

-- The loop. `out_of_fuel` is no result of the source's: a round takes at least one code unit, so the
-- number of code units is enough.
pub data Total : Type 0 where
  invalid crashed out_of_fuel : Total
  total_nanos : ℕ → Total

unfoldable pub parse_components : ℕ → ℕ → Text → Total
unfolding parse_component
parse_components fuel total [] = total_nanos total
parse_components zero total (c ∷ s) = out_of_fuel
parse_components (suc fuel) total (c ∷ s) = elim (parse_component total (c ∷ s)) [
  | failed ↦ invalid
  | inherited_unit ↦ crashed
  | next total' s' ↦ parse_components fuel total' s'
]

abbrev signed_total : Bool → Total → Result Value
signed_total negative invalid = ok evaluation_error
signed_total negative crashed = throw type_error
signed_total negative out_of_fuel = throw type_error
signed_total true (total_nanos n) = ok (duration (signed true n))
signed_total false (total_nanos n) =
    if ltb (2 ^ 63 - 1) n then ok evaluation_error else ok (duration (pos n))

abbrev parse_digits : Bool → Text → Result Value
parse_digits negative [] = ok evaluation_error
parse_digits negative (c ∷ s) = signed_total negative (parse_components (length (c ∷ s)) 0 (c ∷ s))

unfoldable pub parse_unsigned : Bool → Text → Result Value
unfolding parse_components text_eq
parse_unsigned negative s =
    if text_eq s (text "0") then ok (duration (pos 0)) else parse_digits negative s

-- `parseCelDuration`
unfoldable pub parse_cel_duration : Text → Result Value
unfolding parse_unsigned
parse_cel_duration [] = parse_unsigned false []
parse_cel_duration (c ∷ s) =
    if c == b'-'
    then parse_unsigned true s
    else if c == b'+'
    then parse_unsigned false s
    else parse_unsigned false (c ∷ s)

abbrev pub in_int64 : ℤ → Bool
in_int64 n = leb_ℤ int64_min_nanos n && leb_ℤ n int64_max_nanos

-- `checkedDuration`
unfoldable pub checked_duration : ℤ → Value
checked_duration n = if in_int64 n then duration n else evaluation_error

-- `timeSince`: saturates at the bounds of int64.
unfoldable pub time_since : ℤ → ℤ → Value
unfolding ◌-ℤ◌
time_since now timestamp =
    let n = now -ℤ timestamp in
    duration (
      if ltb_ℤ int64_max_nanos n
      then int64_max_nanos
      else if ltb_ℤ n int64_min_nanos
      then int64_min_nanos
      else n)

-- Sums of components, a fraction, and the name of a property of `Object.prototype`.
parse_tests :
    (parse_cel_duration (text "1h30m") ≡ ok (duration (pos 5_400_000_000_000)))
    × (parse_cel_duration (text "-1.5s") ≡ ok (duration (negsuc 1_499_999_999)))
    × (parse_cel_duration (text "1") ≡ ok evaluation_error)
    × (parse_cel_duration (text "1constructor") ≡ throw type_error)
unfolding parse_cel_duration
parse_tests = (refl, refl, refl, refl)
