-- ===== src/Pushdown/Answers.antt =====
-- CEL's commutative `&&` and `||` (`junction` of convex/src/evaluate.ts): the Boolean that an
-- evaluation answers with, and how that of a junction depends on those of its operands.
use query_plan_adapters.Base.{
  every, ◌&&◌, ◌⊎◌, inl, inr, ◌≡◌, refl, Bool, true, false, not, ◌||◌, List, [], ◌∷◌, any, arith,
  if◌then◌else◌,
}
use query_plan_adapters.Value.{is_error, Value, evaluation_error, bool}
use query_plan_adapters.Errors.{Result, ok, throw}
use query_plan_adapters.Cel.Path.{as_boolean}
use query_plan_adapters.Evaluate.Frame.{Scope, Run}
use query_plan_adapters.Evaluate.Macros.{is_bool, junction}

-- Whether the evaluation returns the Boolean `b`.
abbrev pub is_answer : Bool → Result Value → Bool
is_answer b (ok v) = is_bool b v
is_answer b (throw e) = false

-- The evaluations of the operands return these values.
abbrev pub Evaluated : List Run → Scope → List Value → Type 0
Evaluated [] scope [] = Unit
Evaluated [] scope (v ∷ vs) = ⊥
Evaluated (run ∷ runs) scope [] = ⊥
Evaluated (run ∷ runs) scope (v ∷ vs) = (run scope ≡ ok v) × Evaluated runs scope vs

-- The answer of three-valued logic.
unfoldable pub three_valued : Bool → List Value → Bool → Value
three_valued decisive vs saw_error =
    if any (is_bool decisive) vs
    then bool decisive
    else if saw_error || any (λ v. is_error (as_boolean v)) vs
    then evaluation_error
    else bool (not decisive)

as_boolean-cases :
    (v : Value)
    → ((b : Bool) × (v ≡ bool b))
      ⊎ ((as_boolean v ≡ evaluation_error) × (is_bool true v ≡ false) × (is_bool false v ≡ false))
unfolding as_boolean
as_boolean-cases (bool b) = inl (b, refl)
as_boolean-cases _ = inr (refl, refl, refl)

-- Where the operands' evaluations return, `and` and `or` answer in three-valued logic: the deciding
-- value if an operand has it, in whatever position; else an error if an operand is none of the two
-- Booleans; else the other value.
pub junction_lem :
    (decisive : Bool) (runs : List Run) (scope : Scope) (vs : List Value) (saw : Bool)
    → Evaluated runs scope vs
    → junction decisive runs scope saw ≡ ok (three_valued decisive vs saw)
unfolding junction three_valued as_boolean
junction_lem true [] scope [] saw h = ground arith
junction_lem false [] scope [] saw h = ground arith
junction_lem decisive [] scope (v ∷ vs) saw h = absurd h
junction_lem decisive (run ∷ runs) scope [] saw h = absurd h
junction_lem decisive (run ∷ runs) scope (v ∷ vs) saw (e, h) = elim (as_boolean-cases v) [
  | inl (b, p) ↦
      ground (
        arith,
        junction_lem decisive runs scope vs saw h,
        junction_lem decisive runs scope vs true h,
      )
  | inr (p, n, m) ↦
      ground (
        arith,
        junction_lem decisive runs scope vs saw h,
        junction_lem decisive runs scope vs true h,
      )
]

pub is_bool-three_valued_decisive :
    (d : Bool) (vs : List Value) → is_bool d (three_valued d vs false) ≡ any (is_bool d) vs
unfolding three_valued
is_bool-three_valued_decisive true vs = ground arith
is_bool-three_valued_decisive false vs = ground arith

every_other :
    (d : Bool) (vs : List Value)
    → every (is_bool (not d)) vs
      ≡ (not (any (is_bool d) vs) && not (any (λ v. is_error (as_boolean v)) vs))
unfolding as_boolean
every_other d [] = refl
every_other true (bool true ∷ vs) = ground (arith, every_other true vs)
every_other false (bool true ∷ vs) = ground (arith, every_other false vs)
every_other true (bool false ∷ vs) = ground (arith, every_other true vs)
every_other false (bool false ∷ vs) = ground (arith, every_other false vs)
every_other true (v ∷ vs) = ground (arith, every_other true vs)
every_other false (v ∷ vs) = ground (arith, every_other false vs)

pub is_bool-three_valued_other :
    (d : Bool) (vs : List Value)
    → is_bool (not d) (three_valued d vs false) ≡ every (is_bool (not d)) vs
unfolding three_valued
is_bool-three_valued_other true vs = ground (arith, every_other true vs)
is_bool-three_valued_other false vs = ground (arith, every_other false vs)
