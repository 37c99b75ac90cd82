-- ===== src/Chroma/PostFilter/Typed.antt =====
-- langchain-chromadb/src/postFilter.ts: every operand runs to a value of the type it was compiled to.
use query_plan_adapters.Base.{
  Bool-cases, inl, inr, ◌≡◌, refl, Bool, true, false, not, ◌&&◌, Option, none, some, Text, arith,
  subst, if◌then◌else◌,
}
use query_plan_adapters.Number.{is_integer}
use query_plan_adapters.Number.Whole.{is_integer-is_whole}
use query_plan_adapters.Value.{Value, Entries, num, bigint, duration}
use query_plan_adapters.Plan.{Op, Operand, Operands, value, expression, empty, operand}
use query_plan_adapters.Cel.Arithmetic.{ArithmeticOperator}
use query_plan_adapters.Chroma.Outcome.{unsupported, undeclared, signed_zero, done}
use query_plan_adapters.Chroma.PostFilter.Values.{of_value, get_nested_value}
use query_plan_adapters.Chroma.PostFilter.Types.{
  StaticType, attribute, other, arithmetic_mode, temporal_type, arithmetic_type,
}
use query_plan_adapters.Chroma.PostFilter.Operations.{temporal_arithmetic}
use query_plan_adapters.Chroma.PostFilter.Compiler.{
  Env, Compiled, Context, find_type, binding, read_metadata, literal_type, variable_in,
  bare_variable, path_variable, declared, Node, Nodes, no_nodes, below, operand_of, compile_node,
  exactly_two, compile_two,
}
use query_plan_adapters.Chroma.PostFilter.Calculation.{
  reads_metadata, is_division, is_dynamic, run_mode, arithmetic, plain_arithmetic, by_temporal,
}
use query_plan_adapters.Chroma.PostFilter.Typing.{
  has_bound_type, has_type, IsTyped, HasBooleans, Returns, Returns-demand, Returns-bind,
  Returns-after, runs_to-unknown, run_two_typed,
}
use query_plan_adapters.Chroma.PostFilter.Sums.{has_result_type, run_mode-has_type, temporal_typed}

-- Neither a bigint nor a duration, which no JSON value is.
abbrev pub IsLiteral : Value → Type 0
IsLiteral (bigint n) = ⊥
IsLiteral (duration n) = ⊥
IsLiteral _ = Unit

abbrev mutual
  pub HasLiterals : Operand → Type 0
  HasLiterals (value v) = IsLiteral v
  HasLiterals (expression op es) = HaveLiterals es
  HasLiterals _ = Unit

  pub HaveLiterals : Operands → Type 0
  HaveLiterals empty = Unit
  HaveLiterals (operand e es) = HasLiterals e × HaveLiterals es

abbrev pub IsTypedNode : Node → Type 0
IsTypedNode n = (ctx : Context) → Returns (IsTyped ctx) (compile_node n ctx)

abbrev pub AreTyped : Nodes → Type 0
AreTyped no_nodes = Unit
AreTyped (below n ns) = IsTypedNode n × AreTyped ns

read_metadata-attribute :
    (metadata : Entries) (key : Text) → has_type (read_metadata metadata key) attribute ≡ true
unfolding read_metadata
read_metadata-attribute metadata key = ground arith

declared-IsTyped : (name : Text) (ctx : Context) → Returns (IsTyped ctx) (declared name ctx)
declared-IsTyped name ctx =
    Returns-demand (IsTyped ctx) (ctx.fields.is_mapped name)
      (unsupported (some ctx.parent) undeclared) _
      (Returns-after (IsTyped ctx) (ctx.fields.metadata_key name) _ (λ key e.
        Returns-after (IsTyped ctx) (ctx.fields.is_boolean name) _
          (λ boolean e' env b m. by_declaration boolean key env e' e m)))
  where
    by_declaration :
        (boolean : Bool) (key : Text) (env : Env)
        → ctx.fields.is_boolean name ≡ done boolean
        → ctx.fields.metadata_key name ≡ done key
        → HasBooleans ctx.fields env.metadata
        → has_type (read_metadata env.metadata key) (if boolean then other else attribute) ≡ true
    by_declaration true key env e k m = m name key e k
    by_declaration false key env e k m = read_metadata-attribute env.metadata key

bare-IsTyped :
    (name : Text) (ctx : Context) (o : Option StaticType)
    → find_type name ctx.bindings ≡ o
    → Returns (IsTyped ctx) (bare_variable name ctx o)
bare-IsTyped name ctx none e = declared-IsTyped name ctx
bare-IsTyped name ctx (some t) e =
    λ env b m. subst (λ o. has_bound_type (binding name env) o ≡ true) e (b name)

pub variable-IsTyped :
    (name : Text) (parts : Option (Text × Text)) (ctx : Context)
    → Returns (IsTyped ctx) (variable_in name parts ctx)
variable-IsTyped name none ctx = bare-IsTyped name ctx (find_type name ctx.bindings) refl
variable-IsTyped name (some (root, rest)) ctx = by_root (find_type root ctx.bindings)
  where
    by_root : (o : Option StaticType) → Returns (IsTyped ctx) (path_variable name root rest ctx o)
    by_root none = declared-IsTyped name ctx
    by_root (some t) = λ env b m. runs_to-unknown (some (get_nested_value (binding root env) rest))

pub literal_type-has_type :
    (v : Value) → IsLiteral v → has_type (of_value v) (literal_type v) ≡ true
unfolding of_value
literal_type-has_type (bigint n) h = absurd h
literal_type-has_type (duration n) h = absurd h
literal_type-has_type (num x) h = elim (Bool-cases (is_integer x)) [
  | inl e ↦ rw e (is_integer-is_whole x e)
  | inr e ↦ rw e refl
]
literal_type-has_type _ h = refl

exactly_two_typed :
    (ns : Nodes)
    → AreTyped ns
    → Returns (λ pair. IsTypedNode pair.0 × IsTypedNode pair.1) (exactly_two ns)
unfolding exactly_two
exactly_two_typed (below a (below b no_nodes)) (h, k) = (h, k.0)
exactly_two_typed no_nodes h = tt
exactly_two_typed (below a no_nodes) h = tt
exactly_two_typed (below a (below b (below c ns))) h = tt

compile_two-IsTyped :
    (ns : Nodes) (ctx : Context)
    → AreTyped ns
    → Returns (λ pair. IsTyped ctx pair.0 × IsTyped ctx pair.1) (compile_two ns ctx)
unfolding compile_two
compile_two-IsTyped ns ctx h =
    let both : Compiled × Compiled → Type 0 = λ pair. IsTyped ctx pair.0 × IsTyped ctx pair.1 in
    Returns-bind _ both (exactly_two ns) _ (exactly_two_typed ns h) (λ pair typed.
      Returns-bind (IsTyped ctx) both (compile_node pair.0 ctx) _ (typed.0 ctx) (λ left l.
        Returns-bind (IsTyped ctx) both (compile_node pair.1 ctx) _ (typed.1 ctx)
          (λ right r. (l, r))))

plain_arithmetic-IsTyped :
    (op : ArithmeticOperator) (divisor : Operand) (left right : Compiled) (ctx : Context)
    → temporal_type op left.type right.type ≡ done none
    → IsTyped ctx left
    → IsTyped ctx right
    → Returns (IsTyped ctx) (plain_arithmetic op divisor (left, right) ctx)
plain_arithmetic-IsTyped op divisor left right ctx n h k =
    Returns-after (IsTyped ctx) (arithmetic_mode op left.type right.type) _ (λ mode m.
      Returns-demand (IsTyped ctx)
        (not (is_division op && is_dynamic mode && reads_metadata divisor ctx.bindings))
        (unsupported (some Op.div) signed_zero) _
        (λ env b s.
          run_two_typed left.type right.type (arithmetic_type mode left.type right.type)
            (run_mode mode op) left right env (h env b s) (k env b s)
            (λ v w p q. run_mode-has_type op mode left.type right.type v w m n p q)))

by_temporal-IsTyped :
    (op : ArithmeticOperator) (divisor : Operand) (left right : Compiled) (ctx : Context)
    (t : Option StaticType)
    → temporal_type op left.type right.type ≡ done t
    → IsTyped ctx left
    → IsTyped ctx right
    → Returns (IsTyped ctx) (by_temporal op divisor (left, right) ctx t)
by_temporal-IsTyped op divisor left right ctx none e h k =
    plain_arithmetic-IsTyped op divisor left right ctx e h k
by_temporal-IsTyped op divisor left right ctx (some t) e h k = λ env b s.
    run_two_typed left.type right.type t (temporal_arithmetic op) left right env (h env b s)
      (k env b s)
      (λ v w p q.
        subst (λ r. has_result_type (temporal_arithmetic op v w) r ≡ true) e
          (temporal_typed op left.type right.type v w p q))

pub arithmetic-IsTyped :
    (op : ArithmeticOperator) (ns : Nodes) (ctx : Context)
    → AreTyped ns
    → Returns (IsTyped ctx) (arithmetic op ns ctx)
unfolding arithmetic
arithmetic-IsTyped op ns ctx h = Returns-after (IsTyped ctx) (exactly_two ns) _ (λ pair e.
    Returns-bind (λ sides. IsTyped ctx sides.0 × IsTyped ctx sides.1) (IsTyped ctx)
      (compile_two ns ctx) _ (compile_two-IsTyped ns ctx h)
      (λ sides typed.
        Returns-after (IsTyped ctx) (temporal_type op sides.0.type sides.1.type) _ (λ t e'.
          by_temporal-IsTyped op (operand_of pair.1) sides.0 sides.1 ctx t e' typed.0 typed.1)))
