-- ===== src/Cel/Timestamp/Range.antt =====
-- convex/src/cel.ts, `parseRfc3339Timestamp`: the checked range against the calendar.
use query_plan_adapters.Base.{
  ℕ, zero, suc, ◌+◌, ◌*◌, ◌≤◌, ◌<◌, ◌≡◌, Bool, true, false, not, ◌||◌, ltb, if◌then◌else◌, arith, ℤ,
  pos, negsuc, some, ◌-ℤ◌, ◌*ℤ◌, pos_part, neg_part, +ℤ_parts, -ℤ_parts, *ℤ_parts, sub_ℕ_parts,
}
use query_plan_adapters.Value.{bigint}
use query_plan_adapters.Cel.Timestamp.{
  Stamp, utc, is_leap_year, days_in_month, days_before_year, days_before_month, day_number,
  in_range, epoch_millis, checked_timestamp, stamp_nanos, value_of_stamp, offset_minutes,
}
use query_plan_adapters.Cel.Timestamp.Calendar.{year_length}

-- The days of a year up to and including those of a month.
month_end_bound :
    (y m : ℕ)
    → m ≤ 12
    → days_before_month y m + days_in_month y m ≤ (if is_leap_year y then 366 else 365)
unfolding days_before_month days_in_month
month_end_bound y zero h = ground arith
month_end_bound y (suc zero) h = ground arith
month_end_bound y (suc (suc zero)) h = ground arith
month_end_bound y (suc (suc (suc zero))) h = ground arith
month_end_bound y (suc (suc (suc (suc zero)))) h = ground arith
month_end_bound y (suc (suc (suc (suc (suc zero))))) h = ground arith
month_end_bound y (suc (suc (suc (suc (suc (suc zero)))))) h = ground arith
month_end_bound y (suc (suc (suc (suc (suc (suc (suc zero))))))) h = ground arith
month_end_bound y (suc (suc (suc (suc (suc (suc (suc (suc zero)))))))) h = ground arith
month_end_bound y (suc (suc (suc (suc (suc (suc (suc (suc (suc zero))))))))) h = ground arith
month_end_bound y (suc (suc (suc (suc (suc (suc (suc (suc (suc (suc zero)))))))))) h = ground arith
month_end_bound y (suc (suc (suc (suc (suc (suc (suc (suc (suc (suc (suc zero))))))))))) h =
    ground arith
month_end_bound y (suc (suc (suc (suc (suc (suc (suc (suc (suc (suc (suc (suc zero)))))))))))) h =
    ground arith
month_end_bound y (suc (suc (suc (suc (suc (suc (suc (suc (suc (suc (suc (suc (suc m)))))))))))))
      h =
    absurd (omega (arith, h))

days_before_year_bound : (y : ℕ) → y ≤ 10000 → days_before_year y ≤ 3652059
unfolding days_before_year
days_before_year_bound y h = omega (arith, h)

day_number_bound :
    (y m d : ℕ)
    → 1 ≤ y
    → y ≤ 9999
    → m ≤ 12
    → 1 ≤ d
    → d ≤ days_in_month y m
    → day_number y m d ≤ 3652058
unfolding day_number
day_number_bound y m d h g k a b =
    let len = year_length y h in
    let month = month_end_bound y m k in
    let last = days_before_year_bound (suc y) (omega (arith, g)) in
    omega (arith, len, month, last, a, b)

-- The seconds from the first of January of the year 1.
abbrev seconds : Stamp → ℕ
seconds t = ((day_number t.year t.month t.day * 24 + t.hour) * 60 + t.minute) * 60 + t.second

utc_nanos :
    (t : Stamp)
    → pos_part (stamp_nanos t (pos 0)) + 62135596800000000000
      ≡ neg_part (stamp_nanos t (pos 0)) + (seconds t * 1000000000 + t.fraction)
unfolding stamp_nanos epoch_millis ◌*ℤ◌
utc_nanos t =
    let e = epoch_millis t in
    let d = e -ℤ pos 0 in
    let first = sub_ℕ_parts (seconds t * 1000) (719162 * 86_400_000) in
    let second = -ℤ_parts e (pos 0) in
    let third = *ℤ_parts d (pos 1_000_000) in
    let fourth = +ℤ_parts (d *ℤ pos 1_000_000) (pos t.fraction) in
    omega (arith, first, second, third, fourth)

within_range :
    (n : ℤ) (nanos : ℕ)
    → pos_part n + 62135596800000000000 ≡ neg_part n + nanos
    → nanos ≤ 315537897599999999999
    → checked_timestamp n ≡ bigint n
unfolding checked_timestamp
within_range (pos k) nanos h g = ground arith
within_range (negsuc k) nanos h g = ground arith

abbrev IsDate : Stamp → Type 0
IsDate t =
    (1 ≤ t.year)
    × (t.year ≤ 9999)
    × (t.month ≤ 12)
    × (1 ≤ t.day)
    × (t.day ≤ days_in_month t.year t.month)
    × (t.hour ≤ 23)
    × (t.minute ≤ 59)
    × (t.second ≤ 59)

not_below : (m n : ℕ) → ltb m n ≡ false → n ≤ m
not_below m n h = ground arith

none_of :
    (a b c d e f g i j : Bool)
    → not (a || b || c || d || e || f || g || i || j) ≡ true
    → (a ≡ false)
      × (b ≡ false)
      × (c ≡ false)
      × (d ≡ false)
      × (e ≡ false)
      × (f ≡ false)
      × (g ≡ false)
      × (i ≡ false)
      × (j ≡ false)
none_of a b c d e f g i j h = ground arith

in_range-IsDate : (t : Stamp) → in_range t ≡ true → IsDate t
unfolding in_range
in_range-IsDate t h =
    let (a, b, c, d, e, f, g, i, j) =
      none_of (ltb t.year 1) (ltb 9999 t.year) (ltb t.month 1) (ltb 12 t.month) (ltb t.day 1)
        (ltb (days_in_month t.year t.month) t.day) (ltb 23 t.hour) (ltb 59 t.minute)
        (ltb 59 t.second) h in
    (
      not_below _ _ a,
      not_below _ _ b,
      not_below _ _ d,
      not_below _ _ e,
      not_below _ _ f,
      not_below _ _ g,
      not_below _ _ i,
      not_below _ _ j,
    )

utc_seconds : (t : Stamp) → IsDate t → seconds t ≤ 315537897599
utc_seconds t (a, b, c, d, e, f, g, h) =
    let days = day_number_bound t.year t.month t.day a b c d e in omega (arith, days, f, g, h)

-- Every date and time that is in range is accepted in UTC: the bounds of `checkedTimestamp` refuse none
-- from the first instant of the year 1 to the last nanosecond of the year 9999.
pub utc_stamp_lem :
    (t : Stamp)
    → in_range t ≡ true
    → t.zone ≡ utc
    → t.fraction < 1_000_000_000
    → value_of_stamp (some t) ≡ bigint (stamp_nanos t (pos 0))
unfolding offset_minutes stamp_nanos
utc_stamp_lem t h z f =
    let date = in_range-IsDate t h in
    rw (h, z)
      (within_range (stamp_nanos t (pos 0)) (seconds t * 1000000000 + t.fraction) (utc_nanos t)
        (let s = utc_seconds t date in omega (arith, s, f)))
