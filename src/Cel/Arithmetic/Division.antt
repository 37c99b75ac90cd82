-- ===== src/Cel/Arithmetic/Division.antt =====
-- convex/src/cel.ts, `intArithmetic`: division that truncates towards zero, and its remainder.
use native.Mathlib.Nat.{div-add-mod, mod-lt}
use query_plan_adapters.Base.{
  ℕ, zero, suc, ◌+◌, ◌*◌, ◌/◌, ◌%◌, ◌<◌, ◌≡◌, ◌≢◌, refl, sym, ap, ◌∙◌, Bool, true, false, ℤ, pos,
  negsuc, ◌+ℤ◌, ◌*ℤ◌, div_ℤ, rem_ℤ, nat_abs, is_neg, signed, sub_ℕ, pos_part, neg_part, arith,
  if◌then◌else◌, xor_sign, ◌==◌,
}
use query_plan_adapters.Value.{bigint}
use query_plan_adapters.Cel.Conversion.{cel_int}
use query_plan_adapters.Cel.Arithmetic.{ArithmeticOperator, int_arithmetic, to_big_int, int_result}

signed_parts : (n : ℕ) → (pos_part (signed true n) ≡ 0) × (neg_part (signed true n) ≡ n)
signed_parts n = ground arith

signed-add : (s : Bool) (a b : ℕ) → signed s a +ℤ signed s b ≡ signed s (a + b)
unfolding ◌+ℤ◌
signed-add true a b = ground arith
signed-add false a b = ground arith

signed_pos : (s : Bool) (n : ℕ) → pos_part (signed s n) ≡ (if s then 0 else n)
signed_pos true n = (signed_parts n).0
signed_pos false n = refl

signed_neg : (s : Bool) (n : ℕ) → neg_part (signed s n) ≡ (if s then n else 0)
signed_neg true n = (signed_parts n).1
signed_neg false n = refl

products :
    (s t : Bool) (q n : ℕ)
    → sub_ℕ
        ((if xor_sign s t then 0 else q) * (if t then 0 else n)
          + (if xor_sign s t then q else 0) * (if t then n else 0))
        ((if xor_sign s t then 0 else q) * (if t then n else 0)
          + (if xor_sign s t then q else 0) * (if t then 0 else n))
      ≡ signed s (q * n)
products true true q n = ground arith
products true false q n = ground arith
products false true q n = ground arith
products false false q n = ground arith

signed-mult : (s t : Bool) (q n : ℕ) → signed (xor_sign s t) q *ℤ signed t n ≡ signed s (q * n)
unfolding ◌*ℤ◌
signed-mult s t q n =
    rw (signed_pos (xor_sign s t) q, signed_neg (xor_sign s t) q, signed_pos t n, signed_neg t n)
      (products s t q n)

signed_abs : (a : ℤ) → signed (is_neg a) (nat_abs a) ≡ a
signed_abs (pos n) = refl
signed_abs (negsuc n) = ground arith

positive : (b : ℕ) → b ≢ 0 → 0 < b
positive zero h = absurd (h refl)
positive (suc b) h = omega arith

remainder_lem : (a b : ℕ) → b ≢ 0 → a % b < b
remainder_lem a b h = mod-lt a (positive b h)

restored : (a b : ℤ) → (div_ℤ a b *ℤ b) +ℤ rem_ℤ a b ≡ a
unfolding div_ℤ rem_ℤ
restored a b =
    let s = is_neg a in
    let m = nat_abs a in
    let n = nat_abs b in
    ap (λ x. (signed (xor_sign s (is_neg b)) (m / n) *ℤ x) +ℤ signed s (m % n)) (sym (signed_abs b))
    ∙ ap (λ x. x +ℤ signed s (m % n)) (signed-mult s (is_neg b) (m / n) n)
    ∙ signed-add s (m / n * n) (m % n)
    ∙ ap (signed s) (grind (arith, div-add-mod m n))
    ∙ signed_abs a

nat_abs-signed : (s : Bool) (n : ℕ) → nat_abs (signed s n) ≡ n
nat_abs-signed true n = ground arith
nat_abs-signed false n = refl

abs_rem : (a b : ℤ) → nat_abs (rem_ℤ a b) ≡ nat_abs a % nat_abs b
unfolding rem_ℤ
abs_rem a b = nat_abs-signed (is_neg a) _

rem_sign : (a b : ℤ) → nat_abs (rem_ℤ a b) ≢ 0 → is_neg (rem_ℤ a b) ≡ is_neg a
unfolding rem_ℤ
rem_sign (pos m) b h = refl
rem_sign (negsuc m) b h = is_neg-signed (suc m % nat_abs b) h
  where
    is_neg-signed : (n : ℕ) → nat_abs (signed true n) ≢ 0 → is_neg (signed true n) ≡ true
    is_neg-signed zero g = absurd (g refl)
    is_neg-signed (suc n) g = ground arith

div_ℤ_lem :
    (a b : ℤ)
    → nat_abs b ≢ 0
    → ((div_ℤ a b *ℤ b) +ℤ rem_ℤ a b ≡ a)
      × (nat_abs (rem_ℤ a b) < nat_abs b)
      × (nat_abs (rem_ℤ a b) ≢ 0 → is_neg (rem_ℤ a b) ≡ is_neg a)
div_ℤ_lem a b h =
    (restored a b, rw (abs_rem a b) (remainder_lem (nat_abs a) (nat_abs b) h), rem_sign a b)

nonzero : (b : ℤ) → nat_abs b ≢ 0 → (nat_abs b == 0) ≡ false
nonzero b h = differs (nat_abs b) h
  where
    differs : (n : ℕ) → n ≢ 0 → (n == 0) ≡ false
    differs zero g = absurd (g refl)
    differs (suc n) g = ground arith

by_divisor :
    (a b : ℤ)
    → nat_abs b ≢ 0
    → (int_arithmetic ArithmeticOperator.div (bigint a) (bigint b) ≡ cel_int (div_ℤ a b))
      × (int_arithmetic ArithmeticOperator.remainder (bigint a) (bigint b) ≡ cel_int (rem_ℤ a b))
unfolding int_arithmetic to_big_int int_result
by_divisor a b h = (rw (nonzero b h) refl, rw (nonzero b h) refl)

-- For a divisor other than zero, `div` and `mod` of two integers are the quotient and the remainder
-- (each checked against int64) of the division that truncates: the quotient times the divisor plus
-- the remainder is the dividend, the remainder is smaller than the divisor in absolute value, and a
-- remainder other than zero has the dividend's sign.
pub int_arithmetic_division :
    (a b : ℤ)
    → nat_abs b ≢ 0
    → (q r : ℤ) × (int_arithmetic ArithmeticOperator.div (bigint a) (bigint b) ≡ cel_int q)
      × (int_arithmetic ArithmeticOperator.remainder (bigint a) (bigint b) ≡ cel_int r)
      × ((q *ℤ b) +ℤ r ≡ a)
      × (nat_abs r < nat_abs b)
      × (nat_abs r ≢ 0 → is_neg r ≡ is_neg a)
int_arithmetic_division a b h =
    let (p, p') = by_divisor a b h in
    let (restore, small, sign) = div_ℤ_lem a b h in
    (div_ℤ a b, rem_ℤ a b, p, p', restore, small, sign)
