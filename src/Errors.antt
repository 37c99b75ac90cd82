-- ===== src/Errors.antt =====
-- convex/src/errors.ts: the refusals of the Convex adapter, and how a thrown error propagates.
use query_plan_adapters.Base.{◌≡◌, refl, Bool, true, false, Text}

-- One constructor for each message of an `UnsupportedQueryPlanError`.
pub data Refusal : Type 0 where
  invalid_structure unsupported_operator set_field_outside_struct list_valued_condition : Refusal
  null_operand missing_operand expected_lambda lambda_arity lambda_variables : Refusal
  lambda_variable too_many_variables zero_divisor nested_division untyped_constant : Refusal
  untyped_modulo unsafe_pattern bad_map_entry evaluated_set_field evaluated_lambda : Refusal
  field_and_value field_and_array bare_value invalid_plan : Refusal

-- What a call throws: the refusal, the plain `Error` of a reference with no mapper entry, the
-- plain `Error` of a plan that needs the post-filter, or JavaScript's own `TypeError`.
pub data Failure : Type 0 where
  unsupported : Refusal → Failure
  unmapped : Text → Failure
  needs_post_filter type_error : Failure

pub data Result {ℓ} (A : Type ℓ) : Type ℓ where
  ok : A → Result A
  throw : Failure → Result A

-- `if (!test) throw …`
abbrev pub guard : Bool → Refusal → Result (Unit {0})
guard test refusal = elim test [ true ↦ ok tt | false ↦ throw (unsupported refusal) ]

infixl 5 ◌>>=◌ ◌>>◌
-- What follows a call, with the value that it returns.
abbrev pub ◌>>=◌ {ι κ} : {X : Type ι} {Y : Type κ} → Result X → (X → Result Y) → Result Y
throw failure >>= next = throw failure
ok value >>= next = next value

-- What follows a check.
abbrev pub ◌>>◌ {κ} : {Y : Type κ} → Result (Unit {0}) → Result Y → Result Y
throw failure >> rest = throw failure
ok done >> rest = rest

-- Inversion of a call, and of a check, that returned.
pub >>=-eq-ok {ι κ} :
    {X : Type ι} {Y : Type κ} (call : Result X) (next : X → Result Y) {y : Y}
    → (call >>= next) ≡ ok y
    → (x : X) × (call ≡ ok x) × (next x ≡ ok y)
>>=-eq-ok (throw failure) next returned = cc
>>=-eq-ok (ok value) next returned = (value, refl, returned)

pub >>-eq-ok {κ} :
    {Y : Type κ} (check : Result (Unit {0})) (rest : Result Y) {y : Y}
    → (check >> rest) ≡ ok y
    → rest ≡ ok y
>>-eq-ok (throw failure) rest returned = cc
>>-eq-ok (ok done) rest returned = returned

pub check_ok : (check rest : Result (Unit {0})) → (check >> rest) ≡ ok tt → check ≡ ok tt
check_ok (throw failure) rest returned = cc
check_ok (ok done) rest returned = refl
