-- ===== src/Chroma/PostFilter/Junctions.antt =====
-- langchain-chromadb/src/postFilter.ts: the three-valued logic of the loop of `junction`.
use query_plan_adapters.Base.{
  ◌≡◌, sym, subst, Bool, true, false, not, ◌||◌, some, List, [], ◌∷◌, any, arith, if◌then◌else◌,
}
use query_plan_adapters.Chroma.PostFilter.Values.{CelValue, error, flag, is_error, as_boolean}
use query_plan_adapters.Chroma.PostFilter.Compiler.{Env, Compiled, then_run}
use query_plan_adapters.Chroma.PostFilter.Macros.{is_flag, run_junction}

-- Whether a value is no Boolean.
abbrev pub is_undecided : CelValue → Bool
is_undecided v = is_error (as_boolean v)

-- CEL's `&&` (where `false` decides) and `||` (where `true` decides) of some values: a deciding value
-- in any position wins, and without one a value that is no Boolean is an error.
abbrev pub absorbed : Bool → List CelValue → CelValue
absorbed decisive vs =
    if any (is_flag decisive) vs
    then flag decisive
    else if any is_undecided vs
    then error
    else flag (not decisive)

abbrev absorbed_after : Bool → List CelValue → Bool → CelValue
absorbed_after decisive vs saw_error =
    if any (is_flag decisive) vs
    then flag decisive
    else if saw_error || any is_undecided vs
    then error
    else flag (not decisive)

-- Each operand runs, to these values.
abbrev pub RunTo : List Compiled → Env → List CelValue → Type 0
RunTo [] env [] = Unit
RunTo (c ∷ cs) env (v ∷ vs) = (c.run env ≡ some v) × RunTo cs env vs
RunTo _ env _ = ⊥

run_junction_after :
    (decisive : Bool) (cs : List Compiled) (env : Env) (vs : List CelValue) (saw_error : Bool)
    → RunTo cs env vs
    → run_junction decisive cs env saw_error ≡ some (absorbed_after decisive vs saw_error)
unfolding run_junction
run_junction_after decisive [] env [] saw_error h = ground arith
run_junction_after decisive [] env (v ∷ vs) saw_error h = absurd h
run_junction_after decisive (c ∷ cs) env [] saw_error h = absurd h
run_junction_after decisive (c ∷ cs) env (v ∷ vs) saw_error h =
    subst
      (λ o.
        then_run o (λ w. elim (is_flag decisive (as_boolean w)) [
          | true ↦ some (flag decisive)
          | false ↦ run_junction decisive cs env (saw_error || is_error (as_boolean w))
        ])
        ≡ some (absorbed_after decisive (v ∷ vs) saw_error))
      (sym h.0)
      (ground (arith, run_junction_after decisive cs env vs (saw_error || is_undecided v) h.1))

-- The loop of `junction`, over operands that all run, computes CEL's `&&` or `||` of what they run to.
pub run_junction_lem :
    (decisive : Bool) (cs : List Compiled) (env : Env) (vs : List CelValue)
    → RunTo cs env vs
    → run_junction decisive cs env false ≡ some (absorbed decisive vs)
run_junction_lem decisive cs env vs h = run_junction_after decisive cs env vs false h
