-- ===== src/Cel/Timestamp.antt =====
-- convex/src/cel.ts, timestamps. JavaScript's `Date` is its arithmetic on the proleptic Gregorian
-- calendar; every count of milliseconds here is below 2^53, so it is exact.
pub mod Calendar
pub mod Range
use query_plan_adapters.Base.{
  ℕ, zero, suc, ◌+◌, ◌-◌, ◌*◌, ◌/◌, ◌%◌, ◌^◌, Bool, true, false, not, ◌&&◌, ◌||◌, Option, none,
  some, List, [], ◌∷◌, ltb, leb, ◌==◌, if◌then◌else◌, Text, ℤ, pos, negsuc, sub_ℕ, signed, ◌+ℤ◌,
  ◌-ℤ◌, ◌*ℤ◌, ltb_ℤ, get_elem?,
}
use query_plan_adapters.Value.{Value, evaluation_error, bigint}

infixl 5 ◌>>=◌ ◌>>◌
abbrev ◌>>=◌ {ℓ κ} : {A : Type ℓ} {B : Type κ} → Option A → (A → Option B) → Option B
none >>= f = none
some a >>= f = f a

abbrev ◌>>◌ {ℓ} : {B : Type ℓ} → Option (Unit {0}) → Option B → Option B
m >> k = m >>= λ _. k

abbrev pub is_digit : ℕ → Bool
is_digit c = leb b'0' c && leb c b'9'

-- `\d{n}`, as the number that the digits spell after those already read.
unfoldable pub read_digits : ℕ → ℕ → Text → Option (ℕ × Text)
read_digits zero acc s = some (acc, s)
read_digits (suc n) acc [] = none
read_digits (suc n) acc (c ∷ s) =
    let rest = read_digits n (acc * 10 + (c - b'0')) s in if is_digit c then rest else none

unfoldable pub read_char : ℕ → Text → Option Text
read_char c [] = none
read_char c (a ∷ s) = if a == c then some s else none

-- `\d{1,9}` read greedily, padded with zeros to nine digits: the digits left to pad with, and what
-- has been read.
unfoldable pub read_nanos : ℕ → ℕ → Text → ℕ × Text
read_nanos zero acc s = (acc, s)
read_nanos (suc room) acc [] = (acc * 10 ^ suc room, [])
read_nanos (suc room) acc (c ∷ s) =
    let rest = read_nanos room (acc * 10 + (c - b'0')) s in
    if is_digit c then rest else (acc * 10 ^ suc room, c ∷ s)

abbrev starts_with_digit : Text → Bool
starts_with_digit [] = false
starts_with_digit (c ∷ s) = is_digit c

-- `(?:\.(\d{1,9}))?`
unfoldable pub read_fraction : Text → Option (ℕ × Text)
unfolding read_nanos
read_fraction [] = some (0, [])
read_fraction (c ∷ s) =
    if c == b'.'
    then if starts_with_digit s then some (read_nanos 9 0 s) else none
    else some (0, c ∷ s)

-- `(Z|([+-])(\d{2}):(\d{2}))$`
pub data Zone : Type 0 where
  utc : Zone
  offset : (behind : Bool) → (hour minute : ℕ) → Zone

unfoldable pub read_offset : Bool → Text → Option Zone
unfolding read_digits read_char
read_offset behind s = do
  (hour, s₁) ← read_digits 2 0 s
  s₂ ← read_char b':' s₁
  (minute, s₃) ← read_digits 2 0 s₂
  elim s₃ [ [] ↦ some (offset behind hour minute) | c ∷ r ↦ none ]

abbrev end_of_text : Text → Option Zone
end_of_text [] = some utc
end_of_text (c ∷ s) = none

unfoldable pub read_zone : Text → Option Zone
unfolding read_offset
read_zone [] = none
read_zone (c ∷ s) =
    if c == b'Z'
    then end_of_text s
    else if c == b'+'
    then read_offset false s
    else if c == b'-'
    then read_offset true s
    else none

-- The groups of `RFC3339_TIMESTAMP`.
pub record Stamp : Type 0 where
  pub year : ℕ
  pub month : ℕ
  pub day : ℕ
  pub hour : ℕ
  pub minute : ℕ
  pub second : ℕ
  pub fraction : ℕ
  pub zone : Zone

unfoldable pub match_stamp : Text → Option Stamp
unfolding read_digits read_char read_fraction read_zone
match_stamp s = do
  (year, s₁) ← read_digits 4 0 s
  s₂ ← read_char b'-' s₁
  (month, s₃) ← read_digits 2 0 s₂
  s₄ ← read_char b'-' s₃
  (day, s₅) ← read_digits 2 0 s₄
  s₆ ← read_char b'T' s₅
  (hour, s₇) ← read_digits 2 0 s₆
  s₈ ← read_char b':' s₇
  (minute, s₉) ← read_digits 2 0 s₈
  t ← read_char b':' s₉
  (second, t₁) ← read_digits 2 0 t
  (fraction, t₂) ← read_fraction t₁
  zone ← read_zone t₂
  some (record {
    year = year;
    month = month;
    day = day;
    hour = hour;
    minute = minute;
    second = second;
    fraction = fraction;
    zone = zone;
  })

unfoldable pub is_leap_year : ℕ → Bool
is_leap_year year = (year % 4 == 0) && (not (year % 100 == 0) || (year % 400 == 0))

abbrev month_lengths : Bool → List ℕ
month_lengths leap =
    31 ∷ (if leap then 29 else 28) ∷ 31 ∷ 30 ∷ 31 ∷ 30 ∷ 31 ∷ 31 ∷ 30 ∷ 31 ∷ 30 ∷ 31 ∷ []

abbrev or_zero : Option ℕ → ℕ
or_zero none = 0
or_zero (some n) = n

-- `days[month - 1] ?? 0`, with nothing at index -1.
unfoldable pub days_in_month : ℕ → ℕ → ℕ
unfolding is_leap_year
days_in_month year zero = 0
days_in_month year (suc m) = or_zero (get_elem? (month_lengths (is_leap_year year)) m)

unfoldable pub in_range : Stamp → Bool
unfolding days_in_month
in_range t = not (
    ltb t.year 1
    || ltb 9999 t.year
    || ltb t.month 1
    || ltb 12 t.month
    || ltb t.day 1
    || ltb (days_in_month t.year t.month) t.day
    || ltb 23 t.hour
    || ltb 59 t.minute
    || ltb 59 t.second)

-- The offset in minutes.
unfoldable pub offset_minutes : Zone → Option ℤ
offset_minutes utc = some (pos 0)
offset_minutes (offset behind hour minute) =
    if ltb 23 hour || ltb 59 minute then none else some (signed behind (hour * 60 + minute))

-- `Date`: days from the first of January of the year 1 to the first of January of a year, and from
-- that to the first of a month.
unfoldable pub days_before_year : ℕ → ℕ
days_before_year year = 365 * (year - 1) + (year - 1) / 4 + (year - 1) / 400 - (year - 1) / 100

month_starts : List ℕ
month_starts = 0 ∷ 31 ∷ 59 ∷ 90 ∷ 120 ∷ 151 ∷ 181 ∷ 212 ∷ 243 ∷ 273 ∷ 304 ∷ 334 ∷ []

unfoldable pub days_before_month : ℕ → ℕ → ℕ
unfolding is_leap_year month_starts
days_before_month year month =
    or_zero (get_elem? month_starts (month - 1))
    + (if is_leap_year year && ltb 2 month then 1 else 0)

unfoldable pub day_number : ℕ → ℕ → ℕ → ℕ
unfolding days_before_year days_before_month
day_number year month day = days_before_year year + days_before_month year month + (day - 1)

-- `instant.getTime()`: milliseconds from 1970-01-01, which is day 719162.
unfoldable pub epoch_millis : Stamp → ℤ
unfolding day_number
epoch_millis t =
    sub_ℕ
      ((((day_number t.year t.month t.day * 24 + t.hour) * 60 + t.minute) * 60 + t.second) * 1000)
      (719162 * 86_400_000)

abbrev pub min_timestamp_nanos : ℤ
min_timestamp_nanos = negsuc (62135596800000000000 - 1)

abbrev pub max_timestamp_nanos : ℤ
max_timestamp_nanos = pos 253402300799999999999

-- `checkedTimestamp`
unfoldable pub checked_timestamp : ℤ → Value
checked_timestamp nanos =
    if ltb_ℤ nanos min_timestamp_nanos || ltb_ℤ max_timestamp_nanos nanos
    then evaluation_error
    else bigint nanos

unfoldable pub stamp_nanos : Stamp → ℤ → ℤ
unfolding epoch_millis ◌+ℤ◌ ◌-ℤ◌ ◌*ℤ◌
stamp_nanos t minutes = (epoch_millis t -ℤ minutes *ℤ pos 60_000) *ℤ pos 1_000_000 +ℤ pos t.fraction

abbrev nanos_or_error : Stamp → Option ℤ → Value
nanos_or_error t none = evaluation_error
nanos_or_error t (some minutes) = checked_timestamp (stamp_nanos t minutes)

abbrev pub value_of_stamp : Option Stamp → Value
value_of_stamp none = evaluation_error
value_of_stamp (some t) =
    if in_range t then nanos_or_error t (offset_minutes t.zone) else evaluation_error

-- `parseRfc3339Timestamp`
unfoldable pub parse_rfc3339_timestamp : Text → Value
unfolding match_stamp in_range offset_minutes stamp_nanos checked_timestamp
parse_rfc3339_timestamp value = value_of_stamp (match_stamp value)
