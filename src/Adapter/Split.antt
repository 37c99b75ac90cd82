-- ===== src/Adapter/Split.antt =====
-- convex/src/index.ts, the root `and` that is split: a conjunction is true exactly when each operand
-- is, so its operands can be answered apart.
use query_plan_adapters.Base.{
  subst, ◌≡◌, refl, ap, ◌∙◌, ◌↔◌, Bool, true, false, not, ◌||◌, List, [], ◌∷◌, All, filter, arith,
  if◌then◌else◌,
}
use query_plan_adapters.Errors.{ok, >>=-eq-ok}
use query_plan_adapters.Value.{Value, bool}
use query_plan_adapters.Plan.{
  Op, Operand, Operands, empty, operand, expression, operand_list, operands_of,
}
use query_plan_adapters.Cel.Path.{as_boolean}
use query_plan_adapters.Evaluate.{evaluate, runs, apply}
use query_plan_adapters.Evaluate.Frame.{Scope, Run}
use query_plan_adapters.Evaluate.Macros.{is_bool, is_failure, junction}
use query_plan_adapters.Adapter.{conjunction}

abbrev AllTrue : List Run → Scope → Type 0
AllTrue [] scope = Unit
AllTrue (run ∷ rest) scope = (run scope ≡ ok (bool true)) × AllTrue rest scope

-- One round that does not end the loop with an answer other than true.
after_first :
    (rest : List Run) (scope : Scope)
    → ((saw : Bool)
        → junction false rest scope saw ≡ ok (bool true)
        → (saw ≡ false) × AllTrue rest scope)
    → (v : Value) (saw : Bool)
    → (if is_bool false (as_boolean v)
        then ok (bool false)
        else junction false rest scope (saw || is_failure (as_boolean v)))
      ≡ ok (bool true)
    → (saw ≡ false) × (v ≡ bool true) × AllTrue rest scope
unfolding as_boolean
after_first rest scope ih (bool true) saw q =
    let (unseen, later) = ih (saw || false) q in (ground arith, refl, later)
after_first rest scope ih (bool false) saw q = cc
after_first rest scope ih v saw q =
    let (unseen, later) = ih (saw || true) q in absurd (ground arith)

junction-true :
    (rest : List Run) (scope : Scope) (saw : Bool)
    → junction false rest scope saw ≡ ok (bool true)
    → (saw ≡ false) × AllTrue rest scope
unfolding junction as_boolean
junction-true [] scope true e = cc
junction-true [] scope false e = (refl, tt)
junction-true (run ∷ rest) scope saw e =
    let (v, p, q) = >>=-eq-ok (run scope) _ e in
    let (unseen, same, later) = after_first rest scope (junction-true rest scope) v saw q in
    (unseen, (p ∙ ap ok same, later))

junction_of_true :
    (rest : List Run) (scope : Scope)
    → AllTrue rest scope
    → junction false rest scope false ≡ ok (bool true)
unfolding junction as_boolean
junction_of_true [] scope h = refl
junction_of_true (run ∷ rest) scope (h, hs) = rw h (junction_of_true rest scope hs)

abbrev pub IsTrue : Scope → Operand → Type 0
IsTrue scope e = evaluate e scope ≡ ok (bool true)

AllTrue-IsTrue :
    (es : List Operand) (scope : Scope)
    → AllTrue (runs (operands_of es)) scope ↔ All (IsTrue scope) es
unfolding evaluate
AllTrue-IsTrue [] scope = (λ h. tt, λ h. tt)
AllTrue-IsTrue (e ∷ es) scope =
    let (to, from) = AllTrue-IsTrue es scope in (λ h. (h.0, to h.1), λ h. (h.0, from h.1))

and_IsTrue_iff :
    (es : List Operand) (scope : Scope)
    → IsTrue scope (expression Op.and (operands_of es)) ↔ All (IsTrue scope) es
unfolding evaluate apply
and_IsTrue_iff es scope =
    let (to, from) = AllTrue-IsTrue es scope in
    (
      λ h. to (junction-true (runs (operands_of es)) scope false h).1,
      λ h. junction_of_true (runs (operands_of es)) scope (from h),
    )

operands_of-operand_list : (es : Operands) → operands_of (operand_list es) ≡ es
operands_of-operand_list empty = refl
operands_of-operand_list (operand e es) = ap (operand e) (operands_of-operand_list es)

-- `and` answers true exactly when every operand does, whatever the others would return or throw.
pub evaluate-and_iff :
    (es : Operands) (scope : Scope)
    → (evaluate (expression Op.and es) scope ≡ ok (bool true))
      ↔ All (λ e. evaluate e scope ≡ ok (bool true)) (operand_list es)
evaluate-and_iff es scope =
    let (to, from) = and_IsTrue_iff (operand_list es) scope in
    let p = operands_of-operand_list es in
    (λ h. to (rw p h), λ h. subst (λ x. IsTrue scope (expression Op.and x)) p (from h))

pub conjunction_iff :
    (e : Operand) (es : List Operand) (scope : Scope)
    → IsTrue scope (conjunction (e ∷ es)) ↔ All (IsTrue scope) (e ∷ es)
unfolding conjunction
conjunction_iff e [] scope = (λ h. (h, tt), λ h. h.0)
conjunction_iff e (f ∷ es) scope = and_IsTrue_iff (e ∷ f ∷ es) scope

-- What holds of a list holds of the two parts of it that a test makes, and the other way round.
pub All-filter_iff {ℓ κ} :
    {A : Type ℓ} (P : A → Type κ) (test : A → Bool) (xs : List A)
    → (All P (filter test xs) × All P (filter (λ x. not (test x)) xs)) ↔ All P xs
All-filter_iff P test [] = (λ h. tt, λ h. (tt, tt))
All-filter_iff P test (x ∷ xs) =
    let (to, from) = All-filter_iff P test xs in
    elim (test x)
      as (λ b.
        (All P (elim b [ true ↦ x ∷ filter test xs | false ↦ filter test xs ])
          × All P (elim (not b) [
            | true ↦ x ∷ filter (λ y. not (test y)) xs
            | false ↦ filter (λ y. not (test y)) xs
          ]))
        ↔ (P x × All P xs)) [
          | true ↦ (λ h. (h.0.0, to (h.0.1, h.1)), λ h. ((h.0, (from h.1).0), (from h.1).1))
          | false ↦ (λ h. (h.1.0, to (h.0, h.1.1)), λ h. ((from h.1).0, (h.0, (from h.1).1)))
        ]
