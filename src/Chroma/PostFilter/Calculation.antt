-- ===== src/Chroma/PostFilter/Calculation.antt =====
-- langchain-chromadb/src/postFilter.ts: arithmetic, `readsMetadata` and the conversions.
use query_plan_adapters.Base.{
  Bool, true, false, not, ◌&&◌, ◌||◌, Option, none, some, List, [], ◌∷◌, Text, if◌then◌else◌,
}
use query_plan_adapters.Plan.{Op, Operand, Operands, variable, expression, empty, operand}
use query_plan_adapters.Evaluate.Frame.{root_of}
use query_plan_adapters.Cel.Arithmetic.{ArithmeticOperator}
use query_plan_adapters.Chroma.Outcome.{
  Attempt, done, unsupported, ◌>>=◌, demand, signed_zero, refused_conversion, rendered_temporal,
  rendered_type,
}
use query_plan_adapters.Chroma.PostFilter.Values.{CelValue, error}
use query_plan_adapters.Chroma.PostFilter.Types.{
  StaticType, int, ambiguous, timestamp, duration, other, unknown, Mode, int_mode, dynamic_mode,
  error_mode, arithmetic_mode, temporal_type, arithmetic_type, refused_by,
}
use query_plan_adapters.Chroma.PostFilter.Operations.{
  dynamic_arithmetic, exact_arithmetic, temporal_arithmetic, to_text, int_to_text,
}
use query_plan_adapters.Chroma.PostFilter.Compiler.{
  Compiled, Context, compiled, find_type, Nodes, operand_of, exactly_one, exactly_two, compile_one,
  compile_two, run_one, run_two,
}

-- `readsMetadata`
unfoldable mutual
  unfolding root_of

  pub reads_metadata : Operand → List (Text × StaticType) → Bool
  reads_metadata (variable name) bindings = elim (find_type (root_of name) bindings) [
    | none ↦ true
    | some t ↦ false
  ]
  reads_metadata (expression op es) bindings = any_reads es bindings
  reads_metadata _ bindings = false

  pub any_reads : Operands → List (Text × StaticType) → Bool
  any_reads empty bindings = false
  any_reads (operand e es) bindings = reads_metadata e bindings || any_reads es bindings

abbrev pub is_division : ArithmeticOperator → Bool
is_division ArithmeticOperator.div = true
is_division _ = false

abbrev pub is_dynamic : Mode → Bool
is_dynamic dynamic_mode = true
is_dynamic _ = false

abbrev pub run_mode : Mode → ArithmeticOperator → CelValue → CelValue → CelValue
run_mode int_mode op v w = exact_arithmetic op v w
run_mode dynamic_mode op v w = dynamic_arithmetic op v w
run_mode error_mode op v w = error

abbrev pub plain_arithmetic :
    ArithmeticOperator → Operand → Compiled × Compiled → Context → Attempt Compiled
plain_arithmetic op divisor (left, right) ctx = arithmetic_mode op left.type right.type >>= λ mode.
    demand (not (is_division op && is_dynamic mode && reads_metadata divisor ctx.bindings))
      (unsupported (some Op.div) signed_zero)
    >>= λ checked. done (
        compiled (arithmetic_type mode left.type right.type)
          (run_two (run_mode mode op) left right))

abbrev pub by_temporal :
    ArithmeticOperator
    → Operand
    → Compiled × Compiled
    → Context
    → Option StaticType
    → Attempt Compiled
by_temporal op divisor (left, right) ctx (some t) =
    done (compiled t (run_two (temporal_arithmetic op) left right))
by_temporal op divisor pair ctx none = plain_arithmetic op divisor pair ctx

-- `arithmetic`
unfoldable pub arithmetic : ArithmeticOperator → Nodes → Context → Attempt Compiled
unfolding exactly_two compile_two temporal_type arithmetic_mode arithmetic_type reads_metadata
    run_two temporal_arithmetic exact_arithmetic dynamic_arithmetic
arithmetic op ns ctx = exactly_two ns >>= λ pair. compile_two ns ctx >>= λ sides.
    temporal_type op sides.0.type sides.1.type >>= λ temporal.
    by_temporal op (operand_of pair.1) sides ctx temporal

-- `conversion`
unfoldable pub conversion :
    Op → StaticType → List StaticType → (CelValue → CelValue) → Nodes → Context → Attempt Compiled
unfolding compile_one run_one
conversion op t refused convert ns ctx = compile_one ns ctx >>= λ c.
    demand (not (refused_by refused c.type)) (unsupported (some op) refused_conversion)
    >>= λ checked. done (compiled t (run_one (λ v. some (convert v)) c))

abbrev pub is_exempt : StaticType → Bool
is_exempt int = true
is_exempt other = true
is_exempt _ = false

abbrev is_certain_int : StaticType → Bool
is_certain_int int = true
is_certain_int _ = false

abbrev pub rendering : StaticType → CelValue → Option CelValue
rendering t v = if is_certain_int t then int_to_text v else some (to_text v)

-- "string"
unfoldable pub string_conversion : Nodes → Context → Attempt Compiled
unfolding exactly_one compile_one reads_metadata run_one int_to_text to_text
string_conversion ns ctx = exactly_one ns >>= λ n. compile_one ns ctx >>= λ c.
    demand (not (refused_by (timestamp ∷ duration ∷ []) c.type))
      (unsupported (some Op.string) rendered_temporal)
    >>= λ plain_type.
        demand (not (refused_by (ambiguous ∷ unknown ∷ []) c.type))
          (unsupported (some Op.string) rendered_type)
        >>= λ known_type.
            demand (is_exempt c.type || not (reads_metadata (operand_of n) ctx.bindings))
              (unsupported (some Op.string) signed_zero)
            >>= λ known_sign. done (compiled other (run_one (rendering c.type) c))
