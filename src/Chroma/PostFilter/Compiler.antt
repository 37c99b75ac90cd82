-- ===== src/Chroma/PostFilter/Compiler.antt =====
-- langchain-chromadb/src/postFilter.ts: the compiled form, leaves, and the helpers of the operators.
-- A run that is `none` throws the `RangeError` of `BigInt`.
use query_plan_adapters.Base.{
  Bool, true, false, not, ◌||◌, Option, none, some, List, [], ◌∷◌, ℤ, Text, text_eq, if◌then◌else◌,
}
use query_plan_adapters.Number.{is_finite, is_integer}
use query_plan_adapters.Value.{
  Value, Items, nil, cons, Entries, end, entry, null, bool, num, str, arr, record_of, lookup,
}
use query_plan_adapters.Plan.{Op, Operand, expression}
use query_plan_adapters.Evaluate.Frame.{split_first}
use query_plan_adapters.Chroma.Outcome.{
  Attempt, done, raise, unsupported, plain, ◌>>=◌, demand, null_literal, undeclared, list_condition,
  not_exactly_one, not_exactly_two, not_exactly,
}
use query_plan_adapters.Chroma.PostFilter.Values.{
  CelValue, error, flag, number, string, CelFields, of_value, find_field, get_nested_value,
}
use query_plan_adapters.Chroma.PostFilter.Types.{
  StaticType, double, ambiguous, attribute, other, unknown,
}

-- What the post-filter needs from the caller's mapper.
pub record PostFilterFields : Type 0 where
  pub is_mapped : Text → Bool
  pub metadata_key : Text → Attempt Text
  pub is_boolean : Text → Attempt Bool

pub record Env : Type 0 where
  pub metadata : Entries
  pub bindings : CelFields

pub record Compiled : Type 0 where
  pub type : StaticType
  pub run : Env → Option CelValue

-- The clock reading of `timeSince`, in nanoseconds, is the one of the translation.
pub record Context : Type 0 where
  pub fields : PostFilterFields
  pub bindings : List (Text × StaticType)
  pub parent : Op
  pub now : ℤ

abbrev pub compiled : StaticType → (Env → Option CelValue) → Compiled
compiled t r = record { type = t; run = r }

-- What follows a run.
abbrev pub then_run {ℓ} : {A : Type ℓ} → Option A → (A → Option CelValue) → Option CelValue
then_run none next = none
then_run (some v) next = next v

abbrev pub find_type : Text → List (Text × StaticType) → Option StaticType
find_type name [] = none
find_type name ((bound, t) ∷ rest) = if text_eq bound name then some t else find_type name rest

-- `containsNull`
unfoldable mutual
  pub contains_null : Value → Bool
  contains_null null = true
  contains_null (arr vs) = any_null vs
  contains_null (record_of es) = any_null_field es
  contains_null _ = false

  pub any_null : Items → Bool
  any_null nil = false
  any_null (cons v vs) = contains_null v || any_null vs

  pub any_null_field : Entries → Bool
  any_null_field end = false
  any_null_field (entry k v es) = contains_null v || any_null_field es

abbrev pub literal_type : Value → StaticType
literal_type (num x) = if is_integer x then ambiguous else double
literal_type _ = other

-- `compileValue`
unfoldable pub compile_value : Value → Context → Attempt Compiled
unfolding contains_null is_integer of_value
compile_value v ctx =
    demand (not (contains_null v)) (unsupported (some ctx.parent) null_literal) >>= λ checked.
    done (compiled (literal_type v) (λ env. some (of_value v)))

abbrev scalar_or_error : Option Value → CelValue
scalar_or_error (some (str s)) = string s
scalar_or_error (some (bool b)) = flag b
scalar_or_error (some (num x)) = if is_finite x then number x else error
scalar_or_error _ = error

-- `readMetadata`
unfoldable pub read_metadata : Entries → Text → CelValue
unfolding lookup is_finite
read_metadata metadata key = scalar_or_error (lookup key metadata)

abbrev or_error : Option CelValue → CelValue
or_error none = error
or_error (some v) = v

-- `bindings[name]` of a variable in scope.
unfoldable pub binding : Text → Env → CelValue
unfolding find_field
binding name env = or_error (find_field name env.bindings)

abbrev pub declared : Text → Context → Attempt Compiled
declared name ctx =
    demand (ctx.fields.is_mapped name) (unsupported (some ctx.parent) undeclared) >>= λ mapped.
    ctx.fields.metadata_key name >>= λ key. ctx.fields.is_boolean name >>= λ boolean.
    done (
      compiled (if boolean then other else attribute)
        (λ env. some (read_metadata env.metadata key)))

abbrev pub bare_variable : Text → Context → Option StaticType → Attempt Compiled
bare_variable name ctx none = declared name ctx
bare_variable name ctx (some t) = done (compiled t (λ env. some (binding name env)))

abbrev pub path_variable : Text → Text → Text → Context → Option StaticType → Attempt Compiled
path_variable name root path ctx none = declared name ctx
path_variable name root path ctx (some t) =
    done (compiled unknown (λ env. some (get_nested_value (binding root env) path)))

abbrev pub variable_in : Text → Option (Text × Text) → Context → Attempt Compiled
variable_in name none ctx = bare_variable name ctx (find_type name ctx.bindings)
variable_in name (some (root, path)) ctx =
    path_variable name root path ctx (find_type root ctx.bindings)

-- `compileVariable`
unfoldable pub compile_variable : Text → Context → Attempt Compiled
unfolding split_first binding get_nested_value read_metadata
compile_variable name ctx = variable_in name (split_first name) ctx

mutual
  -- An operand with its own compilation, and the operands below it.
  pub data Node : Type 0 where
    node : Operand → (Context → Attempt Compiled) → Nodes → Node

  pub data Nodes : Type 0 where
    no_nodes : Nodes
    below : Node → Nodes → Nodes

abbrev pub operand_of : Node → Operand
operand_of (node e compile ns) = e

abbrev pub compile_node : Node → Context → Attempt Compiled
compile_node (node e compile ns) ctx = compile ctx

abbrev pub nodes_below : Node → Nodes
nodes_below (node e compile ns) = ns

-- `exactly`, for each count that the source asks for.
unfoldable pub exactly_one : Nodes → Attempt Node
exactly_one (below a no_nodes) = done a
exactly_one ns = raise (plain not_exactly_one)

unfoldable pub exactly_two : Nodes → Attempt (Node × Node)
exactly_two (below a (below b no_nodes)) = done (a, b)
exactly_two ns = raise (plain not_exactly_two)

unfoldable pub exactly_three : Nodes → Attempt (Node × Node × Node)
exactly_three (below a (below b (below c no_nodes))) = done (a, b, c)
exactly_three ns = raise (plain not_exactly)

-- `compileAll`, of one operand and of two.
unfoldable pub compile_one : Nodes → Context → Attempt Compiled
unfolding exactly_one
compile_one ns ctx = exactly_one ns >>= λ a. compile_node a ctx

unfoldable pub compile_two : Nodes → Context → Attempt (Compiled × Compiled)
unfolding exactly_two
compile_two ns ctx = exactly_two ns >>= λ pair.
    compile_node pair.0 ctx >>= λ left. compile_node pair.1 ctx >>= λ right. done (left, right)

-- `operands.map((op) => compile(op, ctx))`
unfoldable pub compile_each : Nodes → Context → Attempt (List Compiled)
compile_each no_nodes ctx = done []
compile_each (below a ns) ctx =
    compile_node a ctx >>= λ c. compile_each ns ctx >>= λ cs. done (c ∷ cs)

abbrev pub is_list_macro : Operand → Bool
is_list_macro (expression Op.filter es) = true
is_list_macro (expression Op.map es) = true
is_list_macro _ = false

abbrev pub operator_of : Operand → Option Op
operator_of (expression op es) = some op
operator_of _ = none

-- `compileCondition`
unfoldable pub compile_condition : Node → Context → Attempt Compiled
compile_condition n ctx =
    demand (not (is_list_macro (operand_of n)))
      (unsupported (operator_of (operand_of n)) list_condition)
    >>= λ checked. compile_node n ctx

unfoldable pub compile_conditions : Nodes → Context → Attempt (List Compiled)
unfolding compile_condition
compile_conditions no_nodes ctx = done []
compile_conditions (below a ns) ctx =
    compile_condition a ctx >>= λ c. compile_conditions ns ctx >>= λ cs. done (c ∷ cs)

-- `runAll`: `none` inside is the error of an operand.
abbrev keep_value : CelValue → Option (Option (List CelValue)) → Option (Option (List CelValue))
keep_value error rest = some none
keep_value v none = none
keep_value v (some none) = some none
keep_value v (some (some vs)) = some (some (v ∷ vs))

abbrev after_run :
    Option CelValue → Option (Option (List CelValue)) → Option (Option (List CelValue))
after_run none rest = none
after_run (some v) rest = keep_value v rest

unfoldable pub run_all : List Compiled → Env → Option (Option (List CelValue))
run_all [] env = some (some [])
run_all (c ∷ cs) env = after_run (c.run env) (run_all cs env)

-- An operator applied to the values of its operands, where none is an error.
abbrev pub applied_one : (CelValue → Option CelValue) → CelValue → Option CelValue
applied_one f error = some error
applied_one f v = f v

unfoldable pub run_one : (CelValue → Option CelValue) → Compiled → Env → Option CelValue
run_one f c env = then_run (c.run env) (applied_one f)

abbrev pub applied_two :
    (CelValue → CelValue → CelValue) → CelValue → Option CelValue → Option CelValue
applied_two f error right = some error
applied_two f v right = then_run right (applied_one (λ w. some (f v w)))

unfoldable pub run_two :
    (CelValue → CelValue → CelValue) → Compiled → Compiled → Env → Option CelValue
run_two f a b env = then_run (a.run env) (λ v. applied_two f v (b.run env))

-- `strict`, of one operand and of two.
unfoldable pub strict_one : StaticType → (CelValue → CelValue) → Nodes → Context → Attempt Compiled
unfolding compile_one run_one
strict_one t f ns ctx = compile_one ns ctx >>= λ c. done (compiled t (run_one (λ v. some (f v)) c))

unfoldable pub strict_two :
    StaticType → (CelValue → CelValue → CelValue) → Nodes → Context → Attempt Compiled
unfolding compile_two run_two
strict_two t f ns ctx = compile_two ns ctx >>= λ pair. done (compiled t (run_two f pair.0 pair.1))
