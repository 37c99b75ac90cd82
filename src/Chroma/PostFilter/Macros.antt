-- ===== src/Chroma/PostFilter/Macros.antt =====
-- langchain-chromadb/src/postFilter.ts: `&&` and `||`, and the macros over collections.
use query_plan_adapters.Base.{
  ℕ, suc, Bool, true, false, not, ◌||◌, Option, none, some, List, [], ◌∷◌, ◌==◌, Text,
  map as base_map, if◌then◌else◌,
}
use query_plan_adapters.Plan.{Op, Operand, variable, expression}
use query_plan_adapters.Evaluate.Frame.{split_first}
use query_plan_adapters.Chroma.Outcome.{
  Attempt, done, raise, unsupported, plain, ◌>>=◌, fewer_than_two, no_lambda, no_lambda_variable,
  two_variables_lambda,
}
use query_plan_adapters.Chroma.PostFilter.Values.{
  CelValue, error, flag, string, list, dict, field, is_error, as_boolean, item_list, items_of,
  field_names,
}
use query_plan_adapters.Chroma.PostFilter.Types.{StaticType, other, element_type}
use query_plan_adapters.Chroma.PostFilter.Compiler.{
  Env, Compiled, Context, compiled, then_run, Node, Nodes, no_nodes, below, operand_of, nodes_below,
  compile_node, exactly_two, compile_condition, compile_conditions,
}

-- `value === decisive`
abbrev pub is_flag : Bool → CelValue → Bool
is_flag true (flag true) = true
is_flag false (flag false) = true
is_flag _ _ = false

-- The loop of `junction`.
unfoldable pub run_junction : Bool → List Compiled → Env → Bool → Option CelValue
run_junction decisive [] env saw_error = some (if saw_error then error else flag (not decisive))
run_junction decisive (c ∷ cs) env saw_error = then_run (c.run env) (λ v.
    elim (is_flag decisive (as_boolean v)) [
      | true ↦ some (flag decisive)
      | false ↦ run_junction decisive cs env (saw_error || is_error (as_boolean v))
    ])

abbrev pub has_two_nodes : Nodes → Bool
has_two_nodes (below a (below b ns)) = true
has_two_nodes _ = false

abbrev compiled_junction : Bool → Nodes → Context → Attempt Compiled
compiled_junction decisive ns ctx = compile_conditions ns ctx >>= λ cs.
    done (compiled other (λ env. run_junction decisive cs env false))

-- `junction`
unfoldable pub junction : Bool → Nodes → Context → Attempt Compiled
unfolding compile_conditions run_junction
junction decisive ns ctx = elim (has_two_nodes ns) [
  | true ↦ compiled_junction decisive ns ctx
  | false ↦ raise (plain fewer_than_two)
]

-- `bare(op)`
abbrev bare : Operand → Option Text
bare (variable name) = elim (split_first name) [ none ↦ some name | some parts ↦ none ]
bare _ = none

abbrev lambda_of : Node → Node → Option Text → Option Text → Attempt (Node × Text)
lambda_of first second (some name) variable_first = done (first, name)
lambda_of first second none (some name) = done (second, name)
lambda_of first second none none = raise (plain no_lambda_variable)

abbrev lambda_pair : Node × Node → Attempt (Node × Text)
lambda_pair (first, second) =
    lambda_of first second (bare (operand_of second)) (bare (operand_of first))

abbrev lambda_operands : Nodes → Attempt (Node × Text)
lambda_operands (below a (below b (below c no_nodes))) =
    raise (unsupported (some Op.lambda) two_variables_lambda)
lambda_operands ns = exactly_two ns >>= lambda_pair

abbrev lambda_expression : Operand → Nodes → Attempt (Node × Text)
lambda_expression (expression Op.lambda es) ns = lambda_operands ns
lambda_expression e ns = raise (plain no_lambda)

-- `lambdaComponents`: the body and the variable.
unfoldable pub lambda_components : Node → Attempt (Node × Text)
unfolding split_first exactly_two
lambda_components n = lambda_expression (operand_of n) (nodes_below n)

pub data Macro : Type 0 where
  exists exists_one all filter map : Macro

-- The items of a collection; a map's are its keys.
unfoldable pub macro_items : CelValue → Option (List CelValue)
macro_items (list vs) = some (item_list vs)
macro_items (dict fs) = some (base_map string (field_names fs))
macro_items _ = none

-- One round of the loop of `filter` and `map`, given what the later rounds make.
abbrev onto : CelValue → CelValue → CelValue
onto v (list vs) = list (items_of (v ∷ item_list vs))
onto v rest = rest

abbrev kept : CelValue → CelValue → Option CelValue → Option CelValue
kept item (flag true) rest = then_run rest (λ r. some (onto item r))
kept item (flag false) rest = rest
kept item _ rest = some error

abbrev mapped : CelValue → Option CelValue → Option CelValue
mapped error rest = some error
mapped v rest = then_run rest (λ r. some (onto v r))

unfoldable pub run_filter : (CelValue → Option CelValue) → List CelValue → Option CelValue
run_filter each [] = some (list (items_of []))
run_filter each (v ∷ vs) =
    let rest = run_filter each vs in then_run (each v) (λ w. kept v (as_boolean w) rest)

unfoldable pub run_map : (CelValue → Option CelValue) → List CelValue → Option CelValue
run_map each [] = some (list (items_of []))
run_map each (v ∷ vs) = let rest = run_map each vs in then_run (each v) (λ w. mapped w rest)

-- The end of the loop of the quantifiers.
abbrev pub quantified : Macro → ℕ → Bool → CelValue
quantified macro count true = error
quantified exists count false = flag false
quantified exists_one count false = flag (count == 1)
quantified macro count false = flag true

abbrev stops : Macro → CelValue → Option CelValue
stops exists (flag true) = some (flag true)
stops all (flag false) = some (flag false)
stops macro v = none

abbrev pub counted : CelValue → ℕ → ℕ
counted (flag true) n = suc n
counted v n = n

abbrev stopped_or : Option CelValue → Option CelValue → Option CelValue
stopped_or none rest = rest
stopped_or (some v) rest = some v

-- The loop of `exists`, `exists_one` and `all`: how many were true, and whether one was an error.
unfoldable pub run_quantifier :
    Macro → (CelValue → Option CelValue) → List CelValue → ℕ → Bool → Option CelValue
run_quantifier macro each [] count saw_error = some (quantified macro count saw_error)
run_quantifier macro each (v ∷ vs) count saw_error = then_run (each v) (λ w.
    stopped_or (stops macro (as_boolean w)) (
      run_quantifier macro each vs (counted (as_boolean w) count)
        (saw_error || is_error (as_boolean w))))

abbrev pub run_macro : Macro → (CelValue → Option CelValue) → List CelValue → Option CelValue
run_macro filter each vs = run_filter each vs
run_macro map each vs = run_map each vs
run_macro macro each vs = run_quantifier macro each vs 0 false

abbrev pub over_items :
    Macro → (CelValue → Option CelValue) → Option (List CelValue) → Option CelValue
over_items macro each none = some error
over_items macro each (some vs) = run_macro macro each vs

-- The environment of the body: the variable is the element.
abbrev pub with_binding : Text → CelValue → Env → Env
with_binding name v env = record env { bindings = field name v env.bindings }

abbrev pub bind_type : Text → StaticType → Context → Context
bind_type name t ctx = record ctx { bindings = (name, t) ∷ ctx.bindings }

abbrev pub compile_body : Macro → Node → Context → Attempt Compiled
compile_body map body ctx = compile_node body ctx
compile_body macro body ctx = compile_condition body ctx

-- `macro`
unfoldable pub macro : Macro → Nodes → Context → Attempt Compiled
unfolding exactly_two lambda_components element_type compile_condition macro_items run_filter
    run_map run_quantifier
macro m ns ctx = exactly_two ns >>= λ pair. compile_node pair.0 ctx >>= λ collection.
    lambda_components pair.1 >>= λ lambda.
    compile_body m lambda.0 (bind_type lambda.1 (element_type (operand_of pair.0)) ctx) >>= λ body.
    done (
      compiled other (λ env.
        then_run (collection.run env)
          (λ v. over_items m (λ x. body.run (with_binding lambda.1 x env)) (macro_items v))))
