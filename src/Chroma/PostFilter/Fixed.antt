-- ===== src/Chroma/PostFilter/Fixed.antt =====
-- langchain-chromadb/src/postFilter.ts: the operators whose result is of one type, whatever their operands are.
use query_plan_adapters.Base.{
  ◌≡◌, refl, Bool, true, false, not, ◌||◌, Option, none, some, List, [], ◌∷◌, ℕ, arith,
}
use query_plan_adapters.Plan.{Op}
use query_plan_adapters.Regex.{SafeRegexPattern}
use query_plan_adapters.Chroma.Outcome.{
  unsupported, refused_conversion, rendered_temporal, rendered_type, signed_zero,
}
use query_plan_adapters.Chroma.PostFilter.Values.{CelValue, as_boolean, is_error, own_field}
use query_plan_adapters.Chroma.PostFilter.Types.{
  StaticType, int, double, ambiguous, attribute, other, unknown, Mode, arithmetic_mode,
  temporal_type, arithmetic_type, refused_by, element_type,
}
use query_plan_adapters.Chroma.PostFilter.Types
use query_plan_adapters.Chroma.PostFilter.Operations.{
  index_value, since, to_hierarchy, to_hierarchy_by,
}
use query_plan_adapters.Chroma.PostFilter.Compiler.{
  Env, Compiled, Context, compile_conditions, run_all, Node, Nodes, no_nodes, below, operand_of,
  compile_node, exactly_one, exactly_two, compile_one, compile_two, compile_each, compile_condition,
  run_one, run_two, strict_one, strict_two,
}
use query_plan_adapters.Chroma.PostFilter.Macros.{
  Macro, macro, junction, run_junction, run_filter, run_map, run_quantifier, run_macro, over_items,
  counted, compile_body, lambda_components, macro_items, with_binding, bind_type,
}
use query_plan_adapters.Chroma.PostFilter.Operators.{negation}
use query_plan_adapters.Chroma.PostFilter.Calculation.{
  is_exempt, reads_metadata, rendering, conversion, string_conversion,
}
use query_plan_adapters.Chroma.PostFilter.Access.{
  matched, match_with, safe_pattern, as_list, indexed, field_name, matches, list_literal, index,
  get_field, hierarchy_call, time_since,
}
use query_plan_adapters.Chroma.PostFilter.Typing.{
  has_type, runs_to, IsTyped, Returns, Returns-demand, Returns-after, runs_to-unknown,
  then_run_typed, run_one_typed, run_two_typed,
}
use query_plan_adapters.Chroma.PostFilter.Results

-- An operator whose result is of one type, whatever its operands are.
pub strict_one-IsTyped :
    (t : StaticType) (f : CelValue → CelValue)
    → ((v : CelValue) → has_type (f v) t ≡ true)
    → (ns : Nodes) (ctx : Context) → Returns (IsTyped ctx) (strict_one t f ns ctx)
unfolding strict_one
strict_one-IsTyped t f h ns ctx = Returns-after (IsTyped ctx) (compile_one ns ctx) _ (λ c e env b m.
    run_one_typed unknown t (λ v. some (f v)) c env (runs_to-unknown (c.run env)) (λ v k. h v))

pub strict_two-IsTyped :
    (t : StaticType) (f : CelValue → CelValue → CelValue)
    → ((v w : CelValue) → has_type (f v w) t ≡ true)
    → (ns : Nodes) (ctx : Context) → Returns (IsTyped ctx) (strict_two t f ns ctx)
unfolding strict_two
strict_two-IsTyped t f h ns ctx =
    Returns-after (IsTyped ctx) (compile_two ns ctx) _ (λ pair e env b m.
      run_two_typed unknown unknown t f pair.0 pair.1 env (runs_to-unknown (pair.0.run env))
        (runs_to-unknown (pair.1.run env)) (λ v w k l. h v w))

pub conversion-IsTyped :
    (op : Op) (t : StaticType) (refused : List StaticType) (f : CelValue → CelValue)
    → ((v : CelValue) → has_type (f v) t ≡ true)
    → (ns : Nodes) (ctx : Context) → Returns (IsTyped ctx) (conversion op t refused f ns ctx)
unfolding conversion
conversion-IsTyped op t refused f h ns ctx =
    Returns-after (IsTyped ctx) (compile_one ns ctx) _ (λ c e.
      Returns-demand (IsTyped ctx) (not (refused_by refused c.type))
        (unsupported (some op) refused_conversion) _
        (λ env b m.
          run_one_typed unknown t (λ v. some (f v)) c env (runs_to-unknown (c.run env))
            (λ v k. h v)))

pub time_since-IsTyped : (ns : Nodes) (ctx : Context) → Returns (IsTyped ctx) (time_since ns ctx)
unfolding time_since
time_since-IsTyped ns ctx = Returns-after (IsTyped ctx) (compile_one ns ctx) _ (λ c e env b m.
    run_one_typed unknown StaticType.duration (λ v. some (since ctx.now v)) c env
      (runs_to-unknown (c.run env)) (λ v k. Results.since-has_type ctx.now v))

pub negation-IsTyped : (ns : Nodes) (ctx : Context) → Returns (IsTyped ctx) (negation ns ctx)
unfolding negation
negation-IsTyped ns ctx = Returns-after (IsTyped ctx) (exactly_one ns) _ (λ n e.
    Returns-after (IsTyped ctx) (compile_condition n ctx) _
      (λ c e' env b m. then_run_typed other (c.run env) _ (λ v. ground arith)))

run_junction_typed :
    (decisive : Bool) (cs : List Compiled) (env : Env) (saw_error : Bool)
    → runs_to (run_junction decisive cs env saw_error) other ≡ true
unfolding run_junction
run_junction_typed decisive [] env true = refl
run_junction_typed decisive [] env false = refl
run_junction_typed decisive (c ∷ cs) env saw_error =
    then_run_typed other (c.run env) _ (λ v.
      ground (arith, run_junction_typed decisive cs env (saw_error || is_error (as_boolean v))))

pub junction-IsTyped :
    (decisive : Bool) (ns : Nodes) (ctx : Context)
    → Returns (IsTyped ctx) (junction decisive ns ctx)
unfolding junction
junction-IsTyped decisive (below a (below b ns)) ctx =
    Returns-after (IsTyped ctx) (compile_conditions (below a (below b ns)) ctx) _
      (λ cs e env bs m. run_junction_typed decisive cs env false)
junction-IsTyped decisive _ ctx = tt

pub matches-IsTyped : (ns : Nodes) (ctx : Context) → Returns (IsTyped ctx) (matches ns ctx)
unfolding matches
matches-IsTyped ns ctx =
    Returns-after (IsTyped ctx) (exactly_two ns) _
      (λ pair e. with_pattern (safe_pattern (operand_of pair.1)) pair.0)
  where
    with_pattern :
        (p : Option SafeRegexPattern) (n : Node) → Returns (IsTyped ctx) (match_with p n ctx)
    with_pattern none n = tt
    with_pattern (some p) n = Returns-after (IsTyped ctx) (compile_node n ctx) _ (λ c e env b m.
        run_one_typed unknown other (λ v. some (matched p v)) c env (runs_to-unknown (c.run env))
          (λ v k. ground arith))

pub list_literal-IsTyped :
    (ns : Nodes) (ctx : Context) → Returns (IsTyped ctx) (list_literal ns ctx)
unfolding list_literal
list_literal-IsTyped ns ctx =
    Returns-after (IsTyped ctx) (compile_each ns ctx) _ (λ cs e env b m. listed (run_all cs env))
  where
    listed : (o : Option (Option (List CelValue))) → runs_to (as_list o) other ≡ true
    listed none = refl
    listed (some none) = refl
    listed (some (some vs)) = refl

pub index-IsTyped : (ns : Nodes) (ctx : Context) → Returns (IsTyped ctx) (index ns ctx)
unfolding index
index-IsTyped ns ctx = Returns-after (IsTyped ctx) (exactly_two ns) _ (λ pair e.
    Returns-after (IsTyped ctx) (indexed (operand_of pair.0) pair.0 ctx) _ (λ collection e'.
      Returns-after (IsTyped ctx) (compile_node pair.1 ctx) _
        (λ key e'' env b m. runs_to-unknown (run_two index_value collection key env))))

pub get_field-IsTyped : (ns : Nodes) (ctx : Context) → Returns (IsTyped ctx) (get_field ns ctx)
unfolding get_field
get_field-IsTyped ns ctx = Returns-after (IsTyped ctx) (exactly_two ns) _ (λ pair e.
    Returns-after (IsTyped ctx) (field_name (operand_of pair.1)) _ (λ name e'.
      Returns-after (IsTyped ctx) (compile_node pair.0 ctx) _ (λ target e'' env b m.
        runs_to-unknown (run_one (λ v. some (own_field name v)) target env))))

pub hierarchy_call-IsTyped :
    (ns : Nodes) (ctx : Context) → Returns (IsTyped ctx) (hierarchy_call ns ctx)
unfolding hierarchy_call
hierarchy_call-IsTyped (below a no_nodes) ctx =
    Returns-after (IsTyped ctx) (compile_node a ctx) _ (λ c e env b m.
      run_one_typed unknown other (λ v. some (to_hierarchy v)) c env (runs_to-unknown (c.run env))
        (λ v k. Results.to_hierarchy-has_type v))
hierarchy_call-IsTyped (below a (below b no_nodes)) ctx =
    Returns-after (IsTyped ctx) (compile_node a ctx) _ (λ c e.
      Returns-after (IsTyped ctx) (compile_node b ctx) _ (λ d e' env bs m.
        run_two_typed unknown unknown other to_hierarchy_by c d env (runs_to-unknown (c.run env))
          (runs_to-unknown (d.run env)) (λ v w k l. Results.to_hierarchy_by-has_type v w)))
hierarchy_call-IsTyped _ ctx = tt

rendering_typed : (t : StaticType) (v : CelValue) → runs_to (rendering t v) other ≡ true
rendering_typed int v = Results.int_to_text-has_type v
rendering_typed _ v = Results.to_text-has_type v

pub string_conversion-IsTyped :
    (ns : Nodes) (ctx : Context) → Returns (IsTyped ctx) (string_conversion ns ctx)
unfolding string_conversion
string_conversion-IsTyped ns ctx = Returns-after (IsTyped ctx) (exactly_one ns) _ (λ n e.
    Returns-after (IsTyped ctx) (compile_one ns ctx) _ (λ c e'.
      Returns-demand (IsTyped ctx) (not (refused_by (Types.timestamp ∷ Types.duration ∷ []) c.type))
        (unsupported (some Op.string) rendered_temporal) _
        (Returns-demand (IsTyped ctx) (not (refused_by (ambiguous ∷ unknown ∷ []) c.type))
          (unsupported (some Op.string) rendered_type) _
          (Returns-demand (IsTyped ctx)
            (is_exempt c.type || not (reads_metadata (operand_of n) ctx.bindings))
            (unsupported (some Op.string) signed_zero) _
            (λ env b m.
              run_one_typed unknown other (rendering c.type) c env (runs_to-unknown (c.run env))
                (λ v k. rendering_typed c.type v))))))

run_filter_typed :
    (each : CelValue → Option CelValue) (vs : List CelValue)
    → runs_to (run_filter each vs) other ≡ true
unfolding run_filter
run_filter_typed each [] = refl
run_filter_typed each (v ∷ vs) =
    then_run_typed other (each v) _ (λ w. ground (arith, run_filter_typed each vs))

run_map_typed :
    (each : CelValue → Option CelValue) (vs : List CelValue)
    → runs_to (run_map each vs) other ≡ true
unfolding run_map
run_map_typed each [] = refl
run_map_typed each (v ∷ vs) =
    then_run_typed other (each v) _ (λ w. ground (arith, run_map_typed each vs))

run_quantifier_typed :
    (m : Macro) (each : CelValue → Option CelValue) (vs : List CelValue) (count : ℕ)
    (saw_error : Bool)
    → runs_to (run_quantifier m each vs count saw_error) other ≡ true
unfolding run_quantifier
run_quantifier_typed m each [] count saw_error = ground arith
run_quantifier_typed m each (v ∷ vs) count saw_error = then_run_typed other (each v) _ (λ w.
    ground (
      arith,
      run_quantifier_typed m each vs (counted (as_boolean w) count)
          (saw_error || is_error (as_boolean w)),
    ))

run_macro_typed :
    (m : Macro) (each : CelValue → Option CelValue) (vs : List CelValue)
    → runs_to (run_macro m each vs) other ≡ true
run_macro_typed Macro.filter each vs = run_filter_typed each vs
run_macro_typed Macro.map each vs = run_map_typed each vs
run_macro_typed m each vs = run_quantifier_typed m each vs 0 false

over_items_typed :
    (m : Macro) (each : CelValue → Option CelValue) (items : Option (List CelValue))
    → runs_to (over_items m each items) other ≡ true
over_items_typed m each none = refl
over_items_typed m each (some vs) = run_macro_typed m each vs

pub macro-IsTyped :
    (m : Macro) (ns : Nodes) (ctx : Context) → Returns (IsTyped ctx) (macro m ns ctx)
unfolding macro
macro-IsTyped m ns ctx = Returns-after (IsTyped ctx) (exactly_two ns) _ (λ pair e.
    Returns-after (IsTyped ctx) (compile_node pair.0 ctx) _ (λ collection e'.
      Returns-after (IsTyped ctx) (lambda_components pair.1) _ (λ lambda e''.
        Returns-after (IsTyped ctx)
          (compile_body m lambda.0 (bind_type lambda.1 (element_type (operand_of pair.0)) ctx)) _
          (λ body e''' env b h. then_run_typed other (collection.run env) _ (λ v.
            over_items_typed m (λ x. body.run (with_binding lambda.1 x env)) (macro_items v))))))
