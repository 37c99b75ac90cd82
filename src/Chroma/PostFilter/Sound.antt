-- ===== src/Chroma/PostFilter/Sound.antt =====
-- langchain-chromadb/src/postFilter.ts: every operand runs to a value of the type it was compiled to.
use query_plan_adapters.Base.{
  ◌≡◌, refl, true, false, not, Option, none, some, [], ◌∷◌, arith, starts_with, ends_with, includes,
}
use query_plan_adapters.Plan.{
  Op, Operand, Operands, value, variable, expression, malformed, empty, operand,
}
use query_plan_adapters.Evaluate.Frame.{split_first}
use query_plan_adapters.Cel.Arithmetic.{ArithmeticOperator}
use query_plan_adapters.Cel.Order.{Comparison}
use query_plan_adapters.Chroma.Outcome.{null_literal, unsupported}
use query_plan_adapters.Chroma.PostFilter.Values.{CelValue, flag, as_boolean, compare_values}
use query_plan_adapters.Chroma.PostFilter.Types.{
  StaticType, int, double, ambiguous, attribute, other, unknown, Mode, arithmetic_mode,
  temporal_type, arithmetic_type, join_types,
}
use query_plan_adapters.Chroma.PostFilter.Types
use query_plan_adapters.Chroma.PostFilter.Operations.{
  contained, tested, upper_ascii, has_intersection, size_of, to_timestamp, to_duration, to_double,
  to_int, related, ancestor_of, overlaps,
}
use query_plan_adapters.Chroma.PostFilter.Compiler.{
  contains_null, Context, compile_value, compile_variable, Nodes, no_nodes, below, compile_node,
  exactly_three,
}
use query_plan_adapters.Chroma.PostFilter.Macros.{Macro}
use query_plan_adapters.Chroma.PostFilter.Operators.{
  flipped, comparison, compile_operator, node_of, nodes_of,
}
use query_plan_adapters.Chroma.PostFilter.Access.{chosen, conditional}
use query_plan_adapters.Chroma.PostFilter.Typing.{
  has_type, runs_to, IsTyped, Returns, Returns-demand, Returns-bind, Returns-after, then_run_typed,
}
use query_plan_adapters.Chroma.PostFilter.Fixed
use query_plan_adapters.Chroma.PostFilter.Typed.{
  HasLiterals, HaveLiterals, IsTypedNode, AreTyped, variable-IsTyped, literal_type-has_type,
  arithmetic-IsTyped,
}
use query_plan_adapters.Chroma.PostFilter.Results

join_types-left :
    (t u : StaticType) (v : CelValue) → has_type v t ≡ true → has_type v (join_types t u) ≡ true
unfolding join_types
join_types-left t u v h = ground arith

join_types-right :
    (t u : StaticType) (v : CelValue) → has_type v u ≡ true → has_type v (join_types t u) ≡ true
unfolding join_types
join_types-right t u v h = ground arith

runs_to-left :
    (t u : StaticType) (o : Option CelValue)
    → runs_to o t ≡ true
    → runs_to o (join_types t u) ≡ true
runs_to-left t u none h = refl
runs_to-left t u (some v) h = join_types-left t u v h

runs_to-right :
    (t u : StaticType) (o : Option CelValue)
    → runs_to o u ≡ true
    → runs_to o (join_types t u) ≡ true
runs_to-right t u none h = refl
runs_to-right t u (some v) h = join_types-right t u v h

chosen_typed :
    (v : CelValue) (t : StaticType) (consequent otherwise : Option CelValue)
    → runs_to consequent t ≡ true
    → runs_to otherwise t ≡ true
    → runs_to (chosen v consequent otherwise) t ≡ true
chosen_typed (flag true) t consequent otherwise h k = h
chosen_typed (flag false) t consequent otherwise h k = k
chosen_typed _ t consequent otherwise h k = refl

exactly_three_typed :
    (ns : Nodes)
    → AreTyped ns
    → Returns (λ three. IsTypedNode three.1 × IsTypedNode three.2) (exactly_three ns)
unfolding exactly_three
exactly_three_typed (below a (below b (below c no_nodes))) h = (h.1.0, h.1.1.0)
exactly_three_typed no_nodes h = tt
exactly_three_typed (below a no_nodes) h = tt
exactly_three_typed (below a (below b no_nodes)) h = tt
exactly_three_typed (below a (below b (below c (below d ns)))) h = tt

conditional-IsTyped :
    (ns : Nodes) (ctx : Context) → AreTyped ns → Returns (IsTyped ctx) (conditional ns ctx)
unfolding conditional
conditional-IsTyped ns ctx h =
    Returns-bind (λ three. IsTypedNode three.1 × IsTypedNode three.2) (IsTyped ctx)
      (exactly_three ns) _ (exactly_three_typed ns h)
      (λ three typed. Returns-after (IsTyped ctx) (compile_node three.0 ctx) _ (λ condition e.
        Returns-bind (IsTyped ctx) (IsTyped ctx) (compile_node three.1 ctx) _ (typed.0 ctx)
          (λ consequent p.
            Returns-bind (IsTyped ctx) (IsTyped ctx) (compile_node three.2 ctx) _ (typed.1 ctx)
              (λ otherwise q env b m.
                let t = join_types consequent.type otherwise.type in
                then_run_typed t (condition.run env) _ (λ v.
                  chosen_typed (as_boolean v) t (consequent.run env) (otherwise.run env)
                    (runs_to-left consequent.type otherwise.type (consequent.run env) (p env b m))
                    (runs_to-right consequent.type otherwise.type (otherwise.run env)
                      (q env b m)))))))

comparison-IsTyped :
    (op : Comparison) (ns : Nodes) (ctx : Context) → Returns (IsTyped ctx) (comparison op ns ctx)
unfolding comparison
comparison-IsTyped op ns ctx =
    Fixed.strict_two-IsTyped other (compare_values op) (Results.compare_values-has_type op) ns ctx

operator-IsTyped :
    (op : Op) (ns : Nodes) (ctx : Context)
    → AreTyped ns
    → Returns (IsTyped ctx) (compile_operator op ns ctx)
unfolding compile_operator
operator-IsTyped Op.and ns ctx h = Fixed.junction-IsTyped false ns ctx
operator-IsTyped Op.or ns ctx h = Fixed.junction-IsTyped true ns ctx
operator-IsTyped Op.not ns ctx h = Fixed.negation-IsTyped ns ctx
operator-IsTyped Op.eq ns ctx h = comparison-IsTyped Comparison.eq ns ctx
operator-IsTyped Op.ne ns ctx h = comparison-IsTyped Comparison.ne ns ctx
operator-IsTyped Op.lt ns ctx h = comparison-IsTyped Comparison.lt ns ctx
operator-IsTyped Op.le ns ctx h = comparison-IsTyped Comparison.le ns ctx
operator-IsTyped Op.gt ns ctx h = comparison-IsTyped Comparison.gt ns ctx
operator-IsTyped Op.ge ns ctx h = comparison-IsTyped Comparison.ge ns ctx
operator-IsTyped Op.member ns ctx h =
    Fixed.strict_two-IsTyped other contained Results.contained-has_type ns ctx
operator-IsTyped Op.contains ns ctx h =
    Fixed.strict_two-IsTyped other (tested includes) (Results.tested-has_type includes) ns ctx
operator-IsTyped Op.starts_with ns ctx h =
    Fixed.strict_two-IsTyped other (tested starts_with) (Results.tested-has_type starts_with) ns ctx
operator-IsTyped Op.ends_with ns ctx h =
    Fixed.strict_two-IsTyped other (tested ends_with) (Results.tested-has_type ends_with) ns ctx
operator-IsTyped Op.upper_ascii ns ctx h =
    Fixed.strict_one-IsTyped other upper_ascii Results.upper_ascii-has_type ns ctx
operator-IsTyped Op.matches ns ctx h = Fixed.matches-IsTyped ns ctx
operator-IsTyped Op.has_intersection ns ctx h =
    Fixed.strict_two-IsTyped other has_intersection Results.has_intersection-has_type ns ctx
operator-IsTyped Op.exists ns ctx h = Fixed.macro-IsTyped Macro.exists ns ctx
operator-IsTyped Op.exists_one ns ctx h = Fixed.macro-IsTyped Macro.exists_one ns ctx
operator-IsTyped Op.all ns ctx h = Fixed.macro-IsTyped Macro.all ns ctx
operator-IsTyped Op.filter ns ctx h = Fixed.macro-IsTyped Macro.filter ns ctx
operator-IsTyped Op.map ns ctx h = Fixed.macro-IsTyped Macro.map ns ctx
operator-IsTyped Op.add ns ctx h = arithmetic-IsTyped ArithmeticOperator.add ns ctx h
operator-IsTyped Op.sub ns ctx h = arithmetic-IsTyped ArithmeticOperator.sub ns ctx h
operator-IsTyped Op.mult ns ctx h = arithmetic-IsTyped ArithmeticOperator.mult ns ctx h
operator-IsTyped Op.div ns ctx h = arithmetic-IsTyped ArithmeticOperator.div ns ctx h
operator-IsTyped Op.modulo ns ctx h = arithmetic-IsTyped ArithmeticOperator.remainder ns ctx h
operator-IsTyped Op.list ns ctx h = Fixed.list_literal-IsTyped ns ctx
operator-IsTyped Op.index ns ctx h = Fixed.index-IsTyped ns ctx
operator-IsTyped Op.get_field ns ctx h = Fixed.get_field-IsTyped ns ctx
operator-IsTyped Op.size ns ctx h =
    Fixed.strict_one-IsTyped int size_of Results.size_of-has_type ns ctx
operator-IsTyped Op.string ns ctx h = Fixed.string_conversion-IsTyped ns ctx
operator-IsTyped Op.double ns ctx h =
    Fixed.conversion-IsTyped Op.double double (Types.timestamp ∷ Types.duration ∷ unknown ∷ [])
      to_double Results.to_double-has_type ns ctx
operator-IsTyped Op.int ns ctx h =
    Fixed.conversion-IsTyped Op.int int (Types.timestamp ∷ Types.duration ∷ unknown ∷ []) to_int
      Results.to_int-has_type ns ctx
operator-IsTyped Op.timestamp ns ctx h =
    Fixed.conversion-IsTyped Op.timestamp Types.timestamp
      (int ∷ ambiguous ∷ Types.duration ∷ unknown ∷ []) to_timestamp Results.to_timestamp-has_type
      ns ctx
operator-IsTyped Op.duration ns ctx h =
    Fixed.conversion-IsTyped Op.duration Types.duration
      (int ∷ ambiguous ∷ Types.timestamp ∷ unknown ∷ []) to_duration Results.to_duration-has_type ns
      ctx
operator-IsTyped Op.time_since ns ctx h = Fixed.time_since-IsTyped ns ctx
operator-IsTyped Op.if_else ns ctx h = conditional-IsTyped ns ctx h
operator-IsTyped Op.hierarchy ns ctx h = Fixed.hierarchy_call-IsTyped ns ctx
operator-IsTyped Op.ancestor_of ns ctx h =
    Fixed.strict_two-IsTyped other (related ancestor_of) (Results.related-has_type ancestor_of) ns
      ctx
operator-IsTyped Op.descendent_of ns ctx h =
    Fixed.strict_two-IsTyped other (related (flipped ancestor_of))
      (Results.related-has_type (flipped ancestor_of)) ns ctx
operator-IsTyped Op.overlaps ns ctx h =
    Fixed.strict_two-IsTyped other (related overlaps) (Results.related-has_type overlaps) ns ctx
operator-IsTyped op ns ctx h = tt

mutual
  unfolding node_of compile_value compile_variable

  node_typed : (e : Operand) → HasLiterals e → IsTypedNode (node_of e)
  node_typed (variable name) h ctx = variable-IsTyped name (split_first name) ctx
  node_typed (value v) h ctx =
      Returns-demand (IsTyped ctx) (not (contains_null v))
        (unsupported (some ctx.parent) null_literal) _ (λ env b m. literal_type-has_type v h)
  node_typed malformed h ctx = tt
  node_typed (expression op es) h ctx =
      operator-IsTyped op (nodes_of es) (record ctx { parent = op }) (nodes_typed es h)

  nodes_typed : (es : Operands) → HaveLiterals es → AreTyped (nodes_of es)
  nodes_typed empty h = tt
  nodes_typed (operand e es) h = (node_typed e h.0, nodes_typed es h.1)
