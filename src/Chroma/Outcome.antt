-- ===== src/Chroma/Outcome.antt =====
-- langchain-chromadb/src/errors.ts, and the plain `Error`s of index.ts: what a call returns or throws.
use query_plan_adapters.Base.{◌≡◌, refl, Bool, true, false, Option}
use query_plan_adapters.Plan.{Op}

-- One constructor for each message of an `UnsupportedOperatorError`.
pub data Reason : Type 0 where
  unsupported_operator cannot_negate literal_in_field two_operands nested_expression : Reason
  two_variables two_values needs_literal needs_number needs_list needs_scalar_list : Reason
  optional_field fractional_threshold : Reason
  -- those of postFilter.ts
  no_evaluation list_condition null_literal undeclared unknown_overload mixed_numbers : Reason
  stored_number two_literals temporal_pair signed_zero two_variables_lambda unsafe_pattern : Reason
  refused_conversion struct_entry map_key rendered_temporal rendered_type : Reason

-- One constructor for each message of a plain `Error`.
pub data Message : Type 0 where
  invalid_plan no_expression fewer_than_two not_exactly_one not_exactly_two : Message
  no_field_name unknown_value_type two_declared_types : Message
  -- those of postFilter.ts
  not_exactly no_lambda no_lambda_variable get_field_name hierarchy_operands : Message

-- An `UnsupportedOperatorError` names the operator; `none` is the `undefined` that a node of no known
-- shape gives.
pub data Failure : Type 0 where
  unsupported : Option Op → Reason → Failure
  plain : Message → Failure

pub data Attempt {ℓ} (A : Type ℓ) : Type ℓ where
  done : A → Attempt A
  raise : Failure → Attempt A

infixl 5 ◌>>=◌
-- What follows a call, with the value that it returns.
abbrev pub ◌>>=◌ {ι κ} : {X : Type ι} {Y : Type κ} → Attempt X → (X → Attempt Y) → Attempt Y
raise failure >>= next = raise failure
done value >>= next = next value

-- `if (!test) throw …`
abbrev pub demand : Bool → Failure → Attempt (Unit {0})
demand test failure = elim test [ true ↦ done tt | false ↦ raise failure ]

-- Inversion of a call that returned.
pub >>=-eq-done {ι κ} :
    {X : Type ι} {Y : Type κ} (call : Attempt X) (next : X → Attempt Y) {y : Y}
    → (call >>= next) ≡ done y
    → (x : X) × (call ≡ done x) × (next x ≡ done y)
>>=-eq-done (raise failure) next returned = cc
>>=-eq-done (done value) next returned = (value, refl, returned)

pub done-injective {ℓ} : {A : Type ℓ} {a b : A} → done a ≡ done b → a ≡ b
done-injective {a = a} e = λ i. elim (e i) [ done x ↦ x | raise failure ↦ a ]

pub demand-true :
    {Y : Type 0} (test : Bool) (failure : Failure) (next : Unit {0} → Attempt Y) {y : Y}
    → (demand test failure >>= next) ≡ done y
    → (test ≡ true) × (next tt ≡ done y)
demand-true true failure next returned = (refl, returned)
demand-true false failure next returned = cc

pub raise_ne {ℓ} : {A : Type ℓ} {failure : Failure} {a : A} → raise failure ≡ done a → ⊥
raise_ne h = cc
