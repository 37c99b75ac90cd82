-- ===== src/Chroma/PostFilter/Tests.antt =====
-- langchain-chromadb/src/postFilter.ts: compiled conditions run on records, and the theorems at concrete
-- plans.
use query_plan_adapters.Base.{
  ℕ, ◌*◌, ◌^◌, ◌≡◌, refl, Bool, true, false, Option, none, some, [], ◌∷◌, text, text_eq, pos,
}
use query_plan_adapters.Number.{Number, fin}
use query_plan_adapters.Value.{Value, Entries, end, entry, num, str, arr, nil, cons}
use query_plan_adapters.Plan.{Op, Operand, Operands, value, variable, expression, empty, operand}
use query_plan_adapters.Chroma.Outcome.{Attempt, done, raise, unsupported, mixed_numbers}
use query_plan_adapters.Chroma.PostFilter.Values.{CelValue, flag, string}
use query_plan_adapters.Chroma.PostFilter.Types.{StaticType}
use query_plan_adapters.Chroma.PostFilter.Compiler.{
  PostFilterFields, Env, Compiled, Context, compiled,
}
use query_plan_adapters.Chroma.PostFilter.Macros.{run_junction}
use query_plan_adapters.Chroma.PostFilter.Operators.{
  compile, compile_post_filter, initial_context, initial_env,
}
use query_plan_adapters.Chroma.PostFilter.Junctions.{run_junction_lem, absorbed}

-- Every reference is mapped to itself; `active` is declared Boolean.
abbrev fields : PostFilterFields
fields = record {
  is_mapped = λ name. true;
  metadata_key = λ name. done name;
  is_boolean = λ name. done (text_eq name (text "active"));
}

abbrev two : Operand → Operand → Operands
two e f = operand e (operand f empty)

abbrev whole : ℕ → Number
whole n = fin false (n * 2 ^ 1074)

abbrev quantity : Operand
quantity = variable (text "quantity")

abbrev one_and_a_half : Number
one_and_a_half = fin false (3 * 2 ^ 1073)

abbrev record_with : Value → Entries
record_with v = entry (text "quantity") v end

abbrev run_on : Entries → Attempt (Entries → Option Bool) → Option (Option Bool)
run_on metadata (done f) = some (f metadata)
run_on metadata (raise failure) = none

abbrev post : Operand → Attempt (Entries → Option Bool)
post e = compile_post_filter e fields (pos 0)

-- `quantity + 1.5 > 2.0`
abbrev sum : Operand
sum = expression Op.add (two quantity (value (num one_and_a_half)))

abbrev above : Operand
above = expression Op.gt (two sum (value (num (whole 2))))

-- `["a", "b"].exists(t, t == quantity)`
abbrev among : Operand
among = expression Op.exists (
    two (value (arr (cons (str (text "a")) (cons (str (text "b")) nil)))) (
      expression Op.lambda
        (two (expression Op.eq (two (variable (text "t")) quantity)) (variable (text "t")))))

runs :
    (run_on (record_with (num one_and_a_half)) (post above) ≡ some (some true))
    × (run_on (record_with (str (text "b"))) (post above) ≡ some (some false))
    × (run_on (record_with (str (text "b"))) (post among) ≡ some (some true))
    × (run_on end (post among) ≡ some (some false))
    × (post (
          expression Op.add
            (two (expression Op.size (operand quantity empty)) (value (num one_and_a_half))))
        ≡ raise (unsupported (some Op.add) mixed_numbers))
unfolding compile_post_filter
runs = (refl, refl, refl, refl, refl)

-- `[1, 1.5].exists(x, string(quantity == "b" ? x : size(quantity)) == "1")`: the branches join to an
-- int, so that rendering 1.5 asks `BigInt` for an integer.
abbrev rendered : Operand
rendered = expression Op.exists (
    two (value (arr (cons (num one_and_a_half) (cons (num (whole 1)) nil)))) (
      expression Op.lambda (
        two
          (expression Op.eq (
            two
              (expression Op.string (
                operand
                  (expression Op.if_else (
                    operand (expression Op.eq (two quantity (value (str (text "b")))))
                      (two (variable (text "x")) (expression Op.size (operand quantity empty)))))
                  empty))
              (value (str (text "1")))))
          (variable (text "x")))))

throws : run_on (record_with (str (text "b"))) (post rendered) ≡ some none
unfolding compile_post_filter
throws = refl

abbrev context : Context
context = initial_context fields (pos 0)

abbrev env : Env
env = initial_env (record_with (num one_and_a_half))

abbrev compiled_of : Attempt Compiled → Compiled
compiled_of (done c) = c
compiled_of (raise failure) = compiled StaticType.unknown (λ env. none)

unfoldable sum_compiled : Compiled
unfolding compile
sum_compiled = compiled_of (compile sum context)

abbrev always : CelValue → Compiled
always v = compiled StaticType.unknown (λ env. some v)

run_junction_lem_example :
    run_junction false (always (string (text "a")) ∷ always (flag true) ∷ []) env false
    ≡ some (absorbed false (string (text "a") ∷ flag true ∷ []))
run_junction_lem_example =
    run_junction_lem false (always (string (text "a")) ∷ always (flag true) ∷ []) env
      (string (text "a") ∷ flag true ∷ []) (refl, (refl, tt))
