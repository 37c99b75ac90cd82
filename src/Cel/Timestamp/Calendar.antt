-- ===== src/Cel/Timestamp/Calendar.antt =====
-- convex/src/cel.ts, `isLeapYear` and `daysInMonth`, against the day count of `Date`.
use query_plan_adapters.Base.{
  ℕ, zero, suc, ◌+◌, ◌≤◌, ◌<◌, ◌≡◌, false, ltb, if◌then◌else◌, arith, Bool-cases, inl, inr, ltb→lt,
  subst, sym,
}
use query_plan_adapters.Cel.Timestamp.{
  is_leap_year, days_in_month, days_before_year, days_before_month, day_number,
}

-- The number of days of a year, by the leap rule of the source.
pub year_length :
    (y : ℕ)
    → 1 ≤ y
    → days_before_year (suc y) ≡ days_before_year y + (if is_leap_year y then 366 else 365)
unfolding days_before_year is_leap_year
year_length y h = ground arith

month_step :
    (y m : ℕ)
    → 1 ≤ m
    → m < 12
    → days_before_month y (suc m) ≡ days_before_month y m + days_in_month y m
unfolding days_before_month days_in_month
month_step y zero h g = absurd (omega (arith, h))
month_step y (suc zero) h g = ground arith
month_step y (suc (suc zero)) h g = ground arith
month_step y (suc (suc (suc zero))) h g = ground arith
month_step y (suc (suc (suc (suc zero)))) h g = ground arith
month_step y (suc (suc (suc (suc (suc zero))))) h g = ground arith
month_step y (suc (suc (suc (suc (suc (suc zero)))))) h g = ground arith
month_step y (suc (suc (suc (suc (suc (suc (suc zero))))))) h g = ground arith
month_step y (suc (suc (suc (suc (suc (suc (suc (suc zero)))))))) h g = ground arith
month_step y (suc (suc (suc (suc (suc (suc (suc (suc (suc zero))))))))) h g = ground arith
month_step y (suc (suc (suc (suc (suc (suc (suc (suc (suc (suc zero)))))))))) h g = ground arith
month_step y (suc (suc (suc (suc (suc (suc (suc (suc (suc (suc (suc zero))))))))))) h g =
    ground arith
month_step y (suc (suc (suc (suc (suc (suc (suc (suc (suc (suc (suc (suc m)))))))))))) h g =
    absurd (omega (arith, g))

december :
    (y : ℕ) → days_before_month y 12 + days_in_month y 12 ≡ (if is_leap_year y then 366 else 365)
unfolding days_before_month days_in_month
december y = ground arith

january : (y : ℕ) → days_before_month y 1 ≡ 0
unfolding days_before_month days_in_month
january y = ground arith

-- The date after a date, by `daysInMonth`.
abbrev pub next_day : ℕ × ℕ × ℕ → ℕ × ℕ × ℕ
next_day (y, m, d) =
    if ltb d (days_in_month y m)
    then (y, m, suc d)
    else if ltb m 12
    then (y, suc m, 1)
    else (suc y, 1, 1)

abbrev pub number : ℕ × ℕ × ℕ → ℕ
number (y, m, d) = day_number y m d

new_year :
    (y d : ℕ)
    → 1 ≤ y
    → d ≡ days_in_month y 12
    → 1 ≤ d
    → day_number (suc y) 1 1 ≡ suc (day_number y 12 d)
unfolding day_number
new_year y d h p e =
    let len = year_length y h in
    let dec = december y in let jan = january (suc y) in omega (arith, len, dec, jan, p, e)

last_of : (d n : ℕ) → d ≤ n → ltb d n ≡ false → d ≡ n
last_of d n h k = ground arith

month_end :
    (y m d : ℕ)
    → 1 ≤ y
    → 1 ≤ m
    → m ≤ 12
    → d ≡ days_in_month y m
    → 1 ≤ d
    → number (if ltb m 12 then (y, suc m, 1) else (suc y, 1, 1)) ≡ suc (day_number y m d)
unfolding day_number
month_end y m d h a b p e = elim (Bool-cases (ltb m 12)) [
  | inl k ↦ rw k (let step = month_step y m a (ltb→lt m 12 k) in omega (arith, step, p, e))
  | inr k ↦ rw k (
      let q = last_of m 12 b k in
      subst (λ x. day_number (suc y) 1 1 ≡ suc (day_number y x d)) (sym q)
        (new_year y d h (subst (λ x. d ≡ days_in_month y x) q p) e))
]

-- From a date of the calendar (a year from 1, a month from 1 to 12, a day within `daysInMonth`), the
-- date that follows it by `daysInMonth` is one day later in the day count of `Date`.
pub next_day_lem :
    (y m d : ℕ)
    → 1 ≤ y
    → (1 ≤ m) × (m ≤ 12)
    → (1 ≤ d) × (d ≤ days_in_month y m)
    → number (next_day (y, m, d)) ≡ suc (number (y, m, d))
unfolding day_number
next_day_lem y m d h (a, b) (e, f) = elim (Bool-cases (ltb d (days_in_month y m))) [
  | inl k ↦ rw k (omega (arith, e))
  | inr k ↦ rw k (month_end y m d h a b (last_of d _ f k) e)
]
