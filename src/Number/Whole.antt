-- ===== src/Number/Whole.antt =====
-- JavaScript's `number`: the double nearest to an integer has no fraction.
use native.Mathlib.Nat.{pow-suc, mul_assoc, mul_comm, mul-mod_left, mul-div_cancel, one-le-pow}
use query_plan_adapters.Base.{
  ℕ, zero, suc, ◌+◌, ◌-◌, ◌*◌, ◌/◌, ◌%◌, ◌^◌, ◌<◌, ◌≡◌, refl, sym, ap, ◌∙◌, Bool, true, false, ◌==◌,
  leb, if◌then◌else◌, ℤ, is_neg, nat_abs, inl, inr, Bool-cases, arith,
}
use query_plan_adapters.Number.{
  Number, nan, inf, fin, unit, is_integer, round, of_int, exponent_from, round_step,
  overflow_to_inf,
}

-- No fraction: an integer, or no finite number.
unfoldable pub is_whole : Number → Bool
is_whole (fin s k) = k % unit == 0
is_whole _ = true

pow-add : (m n : ℕ) → 2 ^ (m + n) ≡ 2 ^ m * 2 ^ n
pow-add m zero = ground arith
pow-add m (suc n) =
    ap (λ k. 2 ^ k) {y = suc (m + n)} (omega arith)
    ∙ pow-suc 2 (m + n)
    ∙ ap (λ x. x * 2) (pow-add m n)
    ∙ mul_assoc (2 ^ m) (2 ^ n) 2
    ∙ ap (λ x. 2 ^ m * x) (sym (pow-suc 2 n))

positive_pow : (n : ℕ) → 0 < 2 ^ n
positive_pow n = omega (arith, one-le-pow n 2)

-- A multiple of the step is not rounded.
exact_step : (m step : ℕ) → 0 < step → round_step (m * step) 1 step ≡ m * step
unfolding round_step
exact_step m step h = rw (one_step step, mul-mod_left m step, mul-div_cancel m h) (ground arith)
  where
    one_step : (n : ℕ) → 1 * n ≡ n
    one_step n = omega arith

multiple_step : (m step j u : ℕ) → step ≡ j * u → (m * step) % u ≡ 0
multiple_step m step j u h =
    ap (λ x. (m * x) % u) h ∙ ap (λ x. x % u) (sym (mul_assoc m j u)) ∙ mul-mod_left (m * j) u

step_multiple : (num step : ℕ) → (m : ℕ) × (round_step num 1 step ≡ m * step)
unfolding round_step
step_multiple num step = (_, refl)

large_step : (n u e k j : ℕ) → u ≡ 2 ^ k → e ≡ k + j → round_step (n * u) 1 (2 ^ e) % u ≡ 0
large_step n u e k j h g =
    let (m, p) = step_multiple (n * u) (2 ^ e) in
    ap (λ x. x % u) p
    ∙ multiple_step m (2 ^ e) (2 ^ j) u
        (ap (λ x. 2 ^ x) g ∙ pow-add k j ∙ ap (λ x. x * 2 ^ j) (sym h) ∙ mul_comm u (2 ^ j))

small_step : (n u e k j : ℕ) → u ≡ 2 ^ k → k ≡ e + j → round_step (n * u) 1 (2 ^ e) % u ≡ 0
small_step n u e k j h g =
    let m = n * 2 ^ j in
    let split : n * u ≡ m * 2 ^ e =
      ap (λ x. n * x) (h ∙ ap (λ x. 2 ^ x) g ∙ pow-add e j ∙ mul_comm (2 ^ e) (2 ^ j))
      ∙ sym (mul_assoc n (2 ^ j) (2 ^ e)) in
    ap (λ x. round_step x 1 (2 ^ e) % u) split
    ∙ ap (λ x. x % u) (exact_step m (2 ^ e) (positive_pow e) ∙ sym split)
    ∙ mul-mod_left n u

step_mod : (n u e k : ℕ) → u ≡ 2 ^ k → round_step (n * u) 1 (2 ^ e) % u ≡ 0
step_mod n u e k h = elim (Bool-cases (leb k e)) [
  | inl le ↦ large_step n u e k (e - k) h (ground arith)
  | inr gt ↦ small_step n u e k (k - e) h (ground arith)
]

unit_lem : unit ≡ 2 ^ 1074
unfolding unit
unit_lem = refl

rounded : (s : Bool) (k : ℕ) → k % unit ≡ 0 → is_whole (overflow_to_inf s k) ≡ true
unfolding is_whole
rounded s k h = of_overflow (leb (2 ^ 2098) k)
  where
    of_overflow : (b : Bool) → is_whole (if b then inf s else fin s k) ≡ true
    of_overflow true = refl
    of_overflow false = ground (arith, h)

pub is_whole-of_int : (n : ℤ) → is_whole (of_int n) ≡ true
unfolding is_whole of_int round
is_whole-of_int n =
    rounded (is_neg n) _
      (step_mod (nat_abs n) unit (exponent_from 4200 (nat_abs n * unit / 1)) 1074 unit_lem)

pub is_integer-is_whole : (x : Number) → is_integer x ≡ true → is_whole x ≡ true
unfolding is_integer is_whole
is_integer-is_whole (fin s k) h = h
is_integer-is_whole nan h = refl
is_integer-is_whole (inf s) h = refl
