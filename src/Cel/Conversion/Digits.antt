-- ===== src/Cel/Conversion/Digits.antt =====
-- convex/src/cel.ts: the decimal text of an integer, and what `int()` reads from it.
use query_plan_adapters.Base.{
  ℕ, zero, suc, ◌+◌, ◌*◌, ◌/◌, ◌%◌, ◌≤◌, ◌<◌, ◌≡◌, refl, sym, ap, ◌∙◌, ◌⊎◌, inl, inr, Bool, true,
  false, some, [], ◌∷◌, ltb, if◌then◌else◌, Text, ℤ, pos, negsuc, arith, Bool-cases, ltb→lt, subst,
  true_of_ne_false,
}
use query_plan_adapters.Value.{bigint}
use query_plan_adapters.Cel.Rendering.{digits_from, count_from, digit_count, decimal, int_text}
use query_plan_adapters.Cel.Conversion.{
  is_digit, read_digits, signed_rest, digits_value, match_int, cel_int_or_error, convert_to_int,
  convert_to_string,
}

-- The number has at most so many decimal digits.
abbrev Fits : ℕ → ℕ → Type 0
Fits zero n = ⊥
Fits (suc fuel) n = (n < 10) ⊎ Fits fuel (n / 10)

count_step :
    (fuel n : ℕ) (b : Bool)
    → ltb n 10 ≡ b
    → count_from (suc fuel) n ≡ (if b then 1 else suc (count_from fuel (n / 10)))
unfolding count_from
count_step fuel n true h =
    ap (λ b. elim b as (λ x. ℕ) [ true ↦ 1 | false ↦ suc (count_from fuel (n / 10)) ]) h
count_step fuel n false h =
    ap (λ b. elim b as (λ x. ℕ) [ true ↦ 1 | false ↦ suc (count_from fuel (n / 10)) ]) h

digits_step :
    (fuel n : ℕ) (s : Text) (b : Bool)
    → ltb n 10 ≡ b
    → digits_from (suc fuel) n s
      ≡ (if b then (b'0' + n) ∷ s else digits_from fuel (n / 10) ((b'0' + n % 10) ∷ s))
unfolding digits_from
digits_step fuel n s true h =
    ap
      (λ b. elim b as (λ x. Text) [
        | true ↦ (b'0' + n) ∷ s
        | false ↦ digits_from fuel (n / 10) ((b'0' + n % 10) ∷ s)
      ])
      h
digits_step fuel n s false h =
    ap
      (λ b. elim b as (λ x. Text) [
        | true ↦ (b'0' + n) ∷ s
        | false ↦ digits_from fuel (n / 10) ((b'0' + n % 10) ∷ s)
      ])
      h

count_zero : (n : ℕ) → count_from zero n ≡ 1
unfolding count_from
count_zero n = refl

more_digits : (n fuel : ℕ) → (n < 10) ⊎ Fits fuel (n / 10) → ltb n 10 ≡ false → Fits fuel (n / 10)
more_digits n fuel (inl h) k = absurd (ground arith)
more_digits n fuel (inr h) k = h

tenth : (n fuel : ℕ) → n ≤ suc fuel → ltb n 10 ≡ false → n / 10 ≤ fuel
tenth n fuel h k = ground arith

count_from-Fits : (fuel n : ℕ) → n ≤ fuel → Fits (count_from fuel n) n
count_from-Fits zero n h = subst (λ c. Fits c n) (sym (count_zero n)) (inl (omega (arith, h)))
count_from-Fits (suc fuel) n h = elim (Bool-cases (ltb n 10)) [
  | inl k ↦ subst (λ c. Fits c n) (sym (count_step fuel n true k)) (inl (ltb→lt n 10 k))
  | inr k ↦
      subst (λ c. Fits c n) (sym (count_step fuel n false k))
        (inr (count_from-Fits fuel (n / 10) (tenth n fuel h k)))
]

zero_not_suc : (k : ℕ) → 0 ≡ suc k → ⊥
zero_not_suc k h = cc

digit_of : (n : ℕ) → n < 10 → is_digit (b'0' + n) ≡ true
digit_of n h = ground arith

read_digit :
    (count acc n : ℕ) (s : Text)
    → n < 10
    → read_digits count acc ((b'0' + n) ∷ s) ≡ read_digits (suc count) (acc * 10 + n) s
unfolding read_digits
read_digit count acc n s h =
    rw (digit_of n h) (ap (λ d. read_digits (suc count) (acc * 10 + d) s) {y = n} (omega arith))

last_digit :
    (count n : ℕ) (s : Text)
    → read_digits count (n / 10) ((b'0' + n % 10) ∷ s) ≡ read_digits (suc count) n s
last_digit count n s =
    read_digit count (n / 10) (n % 10) s (omega arith)
    ∙ ap (λ m. read_digits (suc count) m s) {y = n} (omega arith)

read_digits-digits_from :
    (fuel n : ℕ) (s : Text)
    → Fits fuel n
    → (k : ℕ) × (read_digits 0 0 (digits_from fuel n s) ≡ read_digits (suc k) n s)
read_digits-digits_from zero n s h = absurd h
read_digits-digits_from (suc fuel) n s h = elim (Bool-cases (ltb n 10)) [
  | inl k ↦ (
    0,
    ap (read_digits 0 0) (digits_step fuel n s true k)
        ∙ read_digit 0 0 n s (ltb→lt n 10 k)
        ∙ ap (λ m. read_digits 1 m s) {y = n} (omega arith),
  )
  | inr k ↦
      let (j, p) =
        read_digits-digits_from fuel (n / 10) ((b'0' + n % 10) ∷ s) (more_digits n fuel h k) in
      (suc j, ap (read_digits 0 0) (digits_step fuel n s false k) ∙ p ∙ last_digit (suc j) n s)
]

read_decimal : (n : ℕ) → (k : ℕ) × (read_digits 0 0 (decimal n) ≡ (suc k, n, []))
unfolding decimal digit_count read_digits
read_decimal n = read_digits-digits_from (count_from n n) n [] (count_from-Fits n n (omega arith))

-- A text whose first unit is no digit has no digit read.
no_digit : (c : ℕ) (s : Text) → is_digit c ≡ false → read_digits 0 0 (c ∷ s) ≡ (0, 0, c ∷ s)
unfolding read_digits
no_digit c s h = rw h refl

digit_first :
    (c : ℕ) (s : Text) (k n : ℕ) → read_digits 0 0 (c ∷ s) ≡ (suc k, n, []) → is_digit c ≡ true
digit_first c s k n h =
    true_of_ne_false _ (λ g. zero_not_suc k (ap (λ r. r.0) (sym (no_digit c s g) ∙ h)))

digit_unsigned : (c : ℕ) (s : Text) → is_digit c ≡ true → signed_rest (c ∷ s) ≡ (false, c ∷ s)
digit_unsigned c s h = ground arith

unsigned : (s : Text) (k n : ℕ) → read_digits 0 0 s ≡ (suc k, n, []) → signed_rest s ≡ (false, s)
unsigned [] k n h = refl
unsigned (c ∷ s) k n h = digit_unsigned c s (digit_first c s k n h)

negative_value : (k n : ℕ) → digits_value true (suc k, suc n, []) ≡ some (negsuc n)
negative_value k n = ground arith

positive_value : (k n : ℕ) → digits_value false (suc k, n, []) ≡ some (pos n)
positive_value k n = ground arith

match_int-int_text : (n : ℤ) → match_int (int_text n) ≡ some n
unfolding match_int int_text
match_int-int_text (pos n) =
    let (k, p) = read_decimal n in
    ap (λ r. digits_value r.0 (read_digits 0 0 r.1)) (unsigned (decimal n) k n p)
    ∙ ap (digits_value false) p
    ∙ positive_value k n
match_int-int_text (negsuc n) =
    let (k, p) = read_decimal (suc n) in ap (digits_value true) p ∙ negative_value k n

-- `int()` of the text that `string()` gives an integer is that integer, checked against int64.
pub convert_to_int-convert_to_string :
    (n : ℤ) (int : Bool)
    → convert_to_int (convert_to_string (bigint n) int) ≡ convert_to_int (bigint n)
unfolding convert_to_int convert_to_string
convert_to_int-convert_to_string n int = ap cel_int_or_error (match_int-int_text n)
