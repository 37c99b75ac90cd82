-- ===== src/Cel/Duration/Bounds.antt =====
-- convex/src/cel.ts, durations: the range of int64 nanoseconds, and the rounds that a text takes.
use query_plan_adapters.Base.{
  ℕ, zero, suc, ◌+◌, ◌-◌, ◌*◌, ◌^◌, ◌≤◌, ◌<◌, ◌≡◌, ◌≢◌, refl, subst, Bool, true, false, ◌||◌,
  Option, none, some, [], ◌∷◌, ◌++◌, ltb, ◌==◌, if◌then◌else◌, Text, text, text_eq, length,
  length-append, ℤ, pos, negsuc, ◌-ℤ◌, ◌≤ℤ◌, ltb_ℤ, arith,
}
use query_plan_adapters.Errors.{Result, ok}
use query_plan_adapters.Value.{Value, evaluation_error, duration}
use query_plan_adapters.Cel.Duration.{
  two_to_63, int64_min_nanos, int64_max_nanos, UnitEntry, Fraction, Step, Total, read_whole,
  read_fraction, read_point, read_unit, parse_component, parse_components, signed_total,
  parse_digits, parse_unsigned, parse_cel_duration, in_int64, time_since, add_component, with_unit,
  with_name, after_number, after_whole, component, duration_unit, is_digit, nanos, inherited,
  undefined_unit, failed, inherited_unit, next, invalid, crashed, out_of_fuel, total_nanos,
  add_digit, no_fraction,
}

-- A step that goes on has a total within 2^63 and less text than it was given.
abbrev GoesOn : ℕ → Step → Type 0
GoesOn n failed = Unit
GoesOn n inherited_unit = Unit
GoesOn n (next total s) = (total ≤ two_to_63) × (length s < n)

added :
    (n total value : ℕ) (s : Text) (b : Bool)
    → ltb two_to_63 (total + value) ≡ b
    → length s < n
    → GoesOn n (if b then failed else next (total + value) s)
added n total value s true h g = tt
added n total value s false h g = (ground arith, g)

with_unit-GoesOn :
    (n total whole : ℕ) (f : Fraction) (unit : UnitEntry) (s : Text)
    → length s < n
    → GoesOn n (with_unit total whole f unit s)
with_unit-GoesOn n total whole f inherited s g = tt
with_unit-GoesOn n total whole f undefined_unit s g = tt
with_unit-GoesOn n total whole f (nanos unit) s g = of_component (component whole f unit)
  where
    of_component : (value : Option ℕ) → GoesOn n (add_component total value s)
    of_component none = tt
    of_component (some value) = added n total value s _ refl g

read_unit-length :
    (name s : Text)
    → length (read_unit name s).0 + length (read_unit name s).1 ≡ length name + length s
unfolding read_unit
read_unit-length name [] = refl
read_unit-length name (c ∷ s) =
    ground (arith, read_unit-length (name ++ c ∷ []) s, length-append name (c ∷ []))

with_name-GoesOn :
    (n total whole : ℕ) (f : Fraction) (r : Text × Text)
    → length r.0 + length r.1 ≤ n
    → GoesOn n (with_name total whole f r)
unfolding duration_unit
with_name-GoesOn n total whole f ([], s) h = tt
with_name-GoesOn n total whole f (c ∷ name, s) h =
    with_unit-GoesOn n total whole f (duration_unit (c ∷ name)) s (omega (arith, h))

read_fraction-length : (f : Fraction) (s : Text) → length (read_fraction f s).1 ≤ length s
unfolding read_fraction
read_fraction-length f [] = omega arith
read_fraction-length f (c ∷ s) = ground (arith, read_fraction-length (add_digit f c) s)

read_point-length : (s : Text) → length (read_point s).1 ≤ length s
unfolding read_point
read_point-length [] = omega arith
read_point-length (c ∷ s) = ground (arith, read_fraction-length no_fraction s)

after_number-GoesOn :
    (n total whole : ℕ) (saw : Bool) (r : Fraction × Text)
    → length r.1 ≤ n
    → GoesOn n (after_number total whole saw r)
after_number-GoesOn n total whole saw (f, s) h =
    elim (saw || f.saw)
      as (λ b. GoesOn n (if b then with_name total whole f (read_unit [] s) else failed)) [
        | true ↦
            with_name-GoesOn n total whole f (read_unit [] s)
              (omega (arith, h, read_unit-length [] s))
        | false ↦ tt
      ]

abbrev Within : ℕ → Option (ℕ × Bool × Text) → Type 0
Within n none = Unit
Within n (some (whole, saw, s)) = length s ≤ n

chosen :
    (n : ℕ) (digit overflow : Bool) (rest : Option (ℕ × Bool × Text)) (whole : ℕ) (saw : Bool)
    (s : Text)
    → length s ≤ suc n
    → Within n rest
    → Within (suc n) (if digit then if overflow then none else rest else some (whole, saw, s))
chosen n true true rest whole saw s h g = tt
chosen n true false none whole saw s h g = tt
chosen n true false (some r) whole saw s h g = omega (arith, g)
chosen n false overflow rest whole saw s h g = h

read_whole-Within : (whole : ℕ) (saw : Bool) (s : Text) → Within (length s) (read_whole whole saw s)
unfolding read_whole
read_whole-Within whole saw [] = omega arith
read_whole-Within whole saw (c ∷ s) =
    chosen (length s) (is_digit c) _ (read_whole (whole * 10 + (c - b'0')) true s) whole saw (c ∷ s)
      (omega arith) (read_whole-Within (whole * 10 + (c - b'0')) true s)

after_whole-GoesOn :
    (n total : ℕ) (r : Option (ℕ × Bool × Text)) → Within n r → GoesOn n (after_whole total r)
after_whole-GoesOn n total none h = tt
after_whole-GoesOn n total (some (whole, saw, s)) h =
    after_number-GoesOn n total whole saw (read_point s) (omega (arith, h, read_point-length s))

parse_component-GoesOn : (total : ℕ) (s : Text) → GoesOn (length s) (parse_component total s)
unfolding parse_component
parse_component-GoesOn total [] = tt
parse_component-GoesOn total (c ∷ s) =
    elim ((c == b'.') || is_digit c)
      as (λ b.
        GoesOn (suc (length s))
          (if b then after_whole total (read_whole 0 false (c ∷ s)) else failed)) [
            | true ↦
                after_whole-GoesOn _ total (read_whole 0 false (c ∷ s))
                  (read_whole-Within 0 false (c ∷ s))
            | false ↦ tt
          ]

abbrev IsBounded : Total → Type 0
IsBounded invalid = Unit
IsBounded crashed = Unit
IsBounded out_of_fuel = Unit
IsBounded (total_nanos n) = n ≤ two_to_63

after_step-IsBounded :
    (n : ℕ) (loop : ℕ → Text → Total) (step : Step)
    → GoesOn n step
    → ((total : ℕ) (s : Text) → total ≤ two_to_63 → IsBounded (loop total s))
    → IsBounded
        (elim step [ failed ↦ invalid | inherited_unit ↦ crashed | next total s ↦ loop total s ])
after_step-IsBounded n loop failed h g = tt
after_step-IsBounded n loop inherited_unit h g = tt
after_step-IsBounded n loop (next total s) h g = g total s h.0

parse_components-IsBounded :
    (fuel total : ℕ) (s : Text) → total ≤ two_to_63 → IsBounded (parse_components fuel total s)
unfolding parse_components
parse_components-IsBounded fuel total [] h = h
parse_components-IsBounded zero total (c ∷ s) h = tt
parse_components-IsBounded (suc fuel) total (c ∷ s) h =
    after_step-IsBounded _ (parse_components fuel) (parse_component total (c ∷ s))
      (parse_component-GoesOn total (c ∷ s)) (parse_components-IsBounded fuel)

abbrev HasEnded : Total → Type 0
HasEnded out_of_fuel = ⊥
HasEnded _ = Unit

after_step-HasEnded :
    (n : ℕ) (loop : ℕ → Text → Total) (step : Step)
    → GoesOn (suc n) step
    → ((total : ℕ) (s : Text) → length s ≤ n → HasEnded (loop total s))
    → HasEnded
        (elim step [ failed ↦ invalid | inherited_unit ↦ crashed | next total s ↦ loop total s ])
after_step-HasEnded n loop failed h g = tt
after_step-HasEnded n loop inherited_unit h g = tt
after_step-HasEnded n loop (next total s) h g = g total s (omega (arith, h))

weaker : (m n : ℕ) (step : Step) → m ≤ n → GoesOn m step → GoesOn n step
weaker m n failed h g = tt
weaker m n inherited_unit h g = tt
weaker m n (next total s) h g = (g.0, omega (arith, h, g.1))

ends : (fuel total : ℕ) (s : Text) → length s ≤ fuel → HasEnded (parse_components fuel total s)
unfolding parse_components
ends fuel total [] h = tt
ends zero total (c ∷ s) h = absurd (omega (arith, h))
ends (suc fuel) total (c ∷ s) h =
    after_step-HasEnded fuel (parse_components fuel) (parse_component total (c ∷ s))
      (weaker _ _ _ (omega (arith, h)) (parse_component-GoesOn total (c ∷ s)))
      (λ t r k. ends fuel t r k)

has_ended : (t : Total) → HasEnded t → t ≢ out_of_fuel
has_ended invalid h e = cc
has_ended crashed h e = cc
has_ended (total_nanos n) h e = cc
has_ended out_of_fuel h e = h

-- The loop of `parseCelDuration` ends within as many rounds as the text has code units: with that
-- much fuel it is never out of fuel.
pub parse_components_enough :
    (fuel total : ℕ) (s : Text) → length s ≤ fuel → parse_components fuel total s ≢ out_of_fuel
parse_components_enough fuel total s h =
    has_ended (parse_components fuel total s) (ends fuel total s h)

abbrev InInt64 : Result Value → Type 0
InInt64 (ok (duration n)) = in_int64 n ≡ true
InInt64 _ = Unit

signed_total-InInt64 :
    (negative : Bool) (t : Total) → IsBounded t → InInt64 (signed_total negative t)
signed_total-InInt64 negative invalid h = tt
signed_total-InInt64 negative crashed h = tt
signed_total-InInt64 negative out_of_fuel h = tt
signed_total-InInt64 true (total_nanos zero) h = refl
signed_total-InInt64 true (total_nanos (suc k)) h = ground arith
signed_total-InInt64 false (total_nanos k) h = positive_total (ltb (2 ^ 63 - 1) k) refl
  where
    positive_total :
        (b : Bool)
        → ltb (2 ^ 63 - 1) k ≡ b
        → InInt64 (if b then ok evaluation_error else ok (duration (pos k)))
    positive_total true e = tt
    positive_total false e = ground arith

parse_digits-InInt64 : (negative : Bool) (s : Text) → InInt64 (parse_digits negative s)
parse_digits-InInt64 negative [] = tt
parse_digits-InInt64 negative (c ∷ s) =
    signed_total-InInt64 negative (parse_components (length (c ∷ s)) 0 (c ∷ s))
      (parse_components-IsBounded (length (c ∷ s)) 0 (c ∷ s) (omega arith))

either-InInt64 :
    (b : Bool) (x y : Result Value) → InInt64 x → InInt64 y → InInt64 (if b then x else y)
either-InInt64 true x y h g = h
either-InInt64 false x y h g = g

parse_unsigned-InInt64 : (negative : Bool) (s : Text) → InInt64 (parse_unsigned negative s)
unfolding parse_unsigned
parse_unsigned-InInt64 negative s =
    either-InInt64 (text_eq s (text "0")) _ _ refl (parse_digits-InInt64 negative s)

parse-InInt64 : (s : Text) → InInt64 (parse_cel_duration s)
unfolding parse_cel_duration
parse-InInt64 [] = parse_unsigned-InInt64 false []
parse-InInt64 (c ∷ s) = either-InInt64 (c == b'-') _ _ (parse_unsigned-InInt64 true s) (
    either-InInt64 (c == b'+') _ _ (parse_unsigned-InInt64 false s)
      (parse_unsigned-InInt64 false (c ∷ s)))

-- A duration that is parsed is within int64 nanoseconds.
pub parse_cel_duration-in_int64 :
    (s : Text) (n : ℤ) → parse_cel_duration s ≡ ok (duration n) → in_int64 n ≡ true
parse_cel_duration-in_int64 s n h = subst InInt64 h (parse-InInt64 s)

abbrev clamp : ℤ → ℤ
clamp d =
    if ltb_ℤ int64_max_nanos d
    then int64_max_nanos
    else if ltb_ℤ d int64_min_nanos
    then int64_min_nanos
    else d

clamp_lem :
    (d : ℤ)
    → (n : ℤ) × (duration (clamp d) ≡ duration n)
      × (in_int64 n ≡ true)
      × (in_int64 d ≡ true → n ≡ d)
      × (int64_max_nanos ≤ℤ d → n ≡ int64_max_nanos)
      × (d ≤ℤ int64_min_nanos → n ≡ int64_min_nanos)
clamp_lem (pos k) = (clamp (pos k), refl, ground arith, ground arith, ground arith, ground arith)
clamp_lem (negsuc k) =
    (clamp (negsuc k), refl, ground arith, ground arith, ground arith, ground arith)

-- The value of `timeSince` is the difference of the two instants where that is within int64, and the
-- nearer bound of int64 where it is not.
pub time_since_lem :
    (now timestamp : ℤ)
    → (n : ℤ) × (time_since now timestamp ≡ duration n)
      × (in_int64 n ≡ true)
      × (in_int64 (now -ℤ timestamp) ≡ true → n ≡ now -ℤ timestamp)
      × (int64_max_nanos ≤ℤ (now -ℤ timestamp) → n ≡ int64_max_nanos)
      × ((now -ℤ timestamp) ≤ℤ int64_min_nanos → n ≡ int64_min_nanos)
unfolding time_since
time_since_lem now timestamp = clamp_lem (now -ℤ timestamp)
