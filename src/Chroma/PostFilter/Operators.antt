-- ===== src/Chroma/PostFilter/Operators.antt =====
-- langchain-chromadb/src/postFilter.ts: `OPERATORS`, and `compile` and `compilePostFilter` over it.
use query_plan_adapters.Base.{
  Bool, true, false, not, Option, none, some, List, [], ◌∷◌, Text, ℤ, starts_with, ends_with,
  includes,
}
use query_plan_adapters.Value.{Entries}
use query_plan_adapters.Plan.{
  Op, Operand, Operands, value, variable, expression, malformed, empty, operand,
}
use query_plan_adapters.Cel.Arithmetic.{ArithmeticOperator}
use query_plan_adapters.Cel.Order.{Comparison}
use query_plan_adapters.Chroma.Outcome.{
  Attempt, done, raise, unsupported, plain, ◌>>=◌, no_expression, no_evaluation,
}
use query_plan_adapters.Chroma.PostFilter.Values.{
  CelValue, error, flag, no_fields, as_boolean, compare_values,
}
use query_plan_adapters.Chroma.PostFilter.Types.{
  int, double, ambiguous, timestamp, duration, other, unknown,
}
use query_plan_adapters.Chroma.PostFilter.Operations.{
  contained, tested, upper_ascii, has_intersection, size_of, to_timestamp, to_duration, to_double,
  to_int, related, ancestor_of, overlaps,
}
use query_plan_adapters.Chroma.PostFilter.Compiler.{
  PostFilterFields, Env, Compiled, Context, compiled, then_run, compile_value, compile_variable,
  Node, node, Nodes, no_nodes, below, compile_node, exactly_one, compile_condition, strict_one,
  strict_two,
}
use query_plan_adapters.Chroma.PostFilter.Macros.{Macro, macro, junction}
use query_plan_adapters.Chroma.PostFilter.Calculation.{arithmetic, conversion, string_conversion}
use query_plan_adapters.Chroma.PostFilter.Access.{
  matches, list_literal, index, get_field, conditional, hierarchy_call, time_since,
}

-- "not"
abbrev pub negated : CelValue → CelValue
negated (flag b) = flag (not b)
negated _ = error

unfoldable pub negation : Nodes → Context → Attempt Compiled
unfolding exactly_one compile_condition
negation ns ctx = exactly_one ns >>= λ n. compile_condition n ctx >>= λ c.
    done (compiled other (λ env. then_run (c.run env) (λ v. some (negated (as_boolean v)))))

unfoldable pub comparison : Comparison → Nodes → Context → Attempt Compiled
unfolding strict_two compare_values
comparison op ns ctx = strict_two other (compare_values op) ns ctx

abbrev pub flipped : (List Text → List Text → Bool) → List Text → List Text → Bool
flipped relation ss ts = relation ts ss

-- `OPERATORS[operator]`, or the refusal of an operator with no entry.
unfoldable pub compile_operator : Op → Nodes → Context → Attempt Compiled
unfolding junction negation comparison contained tested starts_with ends_with includes upper_ascii
    matches has_intersection macro arithmetic list_literal index get_field size_of string_conversion
    conversion to_double to_int to_timestamp to_duration time_since conditional hierarchy_call
    related ancestor_of overlaps strict_one strict_two
compile_operator Op.and ns ctx = junction false ns ctx
compile_operator Op.or ns ctx = junction true ns ctx
compile_operator Op.not ns ctx = negation ns ctx
compile_operator Op.eq ns ctx = comparison Comparison.eq ns ctx
compile_operator Op.ne ns ctx = comparison Comparison.ne ns ctx
compile_operator Op.lt ns ctx = comparison Comparison.lt ns ctx
compile_operator Op.le ns ctx = comparison Comparison.le ns ctx
compile_operator Op.gt ns ctx = comparison Comparison.gt ns ctx
compile_operator Op.ge ns ctx = comparison Comparison.ge ns ctx
compile_operator Op.member ns ctx = strict_two other contained ns ctx
compile_operator Op.contains ns ctx = strict_two other (tested includes) ns ctx
compile_operator Op.starts_with ns ctx = strict_two other (tested starts_with) ns ctx
compile_operator Op.ends_with ns ctx = strict_two other (tested ends_with) ns ctx
compile_operator Op.upper_ascii ns ctx = strict_one other upper_ascii ns ctx
compile_operator Op.matches ns ctx = matches ns ctx
compile_operator Op.has_intersection ns ctx = strict_two other has_intersection ns ctx
compile_operator Op.exists ns ctx = macro Macro.exists ns ctx
compile_operator Op.exists_one ns ctx = macro Macro.exists_one ns ctx
compile_operator Op.all ns ctx = macro Macro.all ns ctx
compile_operator Op.filter ns ctx = macro Macro.filter ns ctx
compile_operator Op.map ns ctx = macro Macro.map ns ctx
compile_operator Op.add ns ctx = arithmetic ArithmeticOperator.add ns ctx
compile_operator Op.sub ns ctx = arithmetic ArithmeticOperator.sub ns ctx
compile_operator Op.mult ns ctx = arithmetic ArithmeticOperator.mult ns ctx
compile_operator Op.div ns ctx = arithmetic ArithmeticOperator.div ns ctx
compile_operator Op.modulo ns ctx = arithmetic ArithmeticOperator.remainder ns ctx
compile_operator Op.list ns ctx = list_literal ns ctx
compile_operator Op.index ns ctx = index ns ctx
compile_operator Op.get_field ns ctx = get_field ns ctx
compile_operator Op.size ns ctx = strict_one int size_of ns ctx
compile_operator Op.string ns ctx = string_conversion ns ctx
compile_operator Op.double ns ctx =
    conversion Op.double double (timestamp ∷ duration ∷ unknown ∷ []) to_double ns ctx
compile_operator Op.int ns ctx =
    conversion Op.int int (timestamp ∷ duration ∷ unknown ∷ []) to_int ns ctx
compile_operator Op.timestamp ns ctx =
    conversion Op.timestamp timestamp (int ∷ ambiguous ∷ duration ∷ unknown ∷ []) to_timestamp ns
      ctx
compile_operator Op.duration ns ctx =
    conversion Op.duration duration (int ∷ ambiguous ∷ timestamp ∷ unknown ∷ []) to_duration ns ctx
compile_operator Op.time_since ns ctx = time_since ns ctx
compile_operator Op.if_else ns ctx = conditional ns ctx
compile_operator Op.hierarchy ns ctx = hierarchy_call ns ctx
compile_operator Op.ancestor_of ns ctx = strict_two other (related ancestor_of) ns ctx
compile_operator Op.descendent_of ns ctx = strict_two other (related (flipped ancestor_of)) ns ctx
compile_operator Op.overlaps ns ctx = strict_two other (related overlaps) ns ctx
compile_operator op ns ctx = raise (unsupported (some op) no_evaluation)

unfoldable mutual
  unfolding compile_operator compile_value compile_variable

  pub node_of : Operand → Node
  node_of (variable name) = node (variable name) (compile_variable name) no_nodes
  node_of (value v) = node (value v) (compile_value v) no_nodes
  node_of malformed = node malformed (λ ctx. raise (plain no_expression)) no_nodes
  node_of (expression op es) =
      node (expression op es)
        (λ ctx. compile_operator op (nodes_of es) (record ctx { parent = op })) (nodes_of es)

  pub nodes_of : Operands → Nodes
  nodes_of empty = no_nodes
  nodes_of (operand e es) = below (node_of e) (nodes_of es)

-- `compile`
unfoldable pub compile : Operand → Context → Attempt Compiled
unfolding node_of
compile e ctx = compile_node (node_of e) ctx

abbrev pub initial_context : PostFilterFields → ℤ → Context
initial_context fields now = record { fields = fields; bindings = []; parent = Op.eq; now = now }

abbrev pub initial_env : Entries → Env
initial_env metadata = record { metadata = metadata; bindings = no_fields }

abbrev is_true : CelValue → Bool
is_true (flag b) = b
is_true _ = false

abbrev pub answers : Option CelValue → Option Bool
answers none = none
answers (some v) = some (is_true v)

-- `compilePostFilter`, at a clock reading; a predicate that answers `none` throws.
unfoldable pub compile_post_filter :
    Operand → PostFilterFields → ℤ → Attempt (Entries → Option Bool)
unfolding compile_condition node_of
compile_post_filter condition fields now =
    compile_condition (node_of condition) (initial_context fields now) >>= λ c.
    done (λ metadata. answers (c.run (initial_env metadata)))
